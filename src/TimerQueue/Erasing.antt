-- ===== src/TimerQueue/Erasing.antt =====
-- The loop of `getExpired` of net/TimerQueue.cpp that takes the due timers out of the active ones.
use oula_server.Prelude.{
  ◌==◌, ==_iff, ==_refl, Bool-cases, some_eq, length, ok, ℕ, ◌+◌, ◌≡◌, refl, sym, ap, ap₂, ◌∙◌, inl,
  inr, true, false, Option, some, List, [], ◌∷◌, arith,
}
use oula_server.Prelude.Sets
use oula_server.Timestamp.{Timestamp, Timer}
use oula_server.TimerQueue.{Entry, ActiveTimer, entry_less, active_less, erase_active}
use oula_server.TimerQueue.Books.{entry-Order, active-Order, is_loose, Distinct}

pub loose_entry :
    (p : ℕ) (es : List Entry)
    → is_loose p es ≡ true
    → (w : Timestamp) × (Sets.member entry_less (w, p) es ≡ true)
loose_entry p [] h = absurd (cc)
loose_entry p ((w, k) ∷ es) h = elim (Bool-cases (k == p)) [
  | inl e ↦
      let same = (==_iff k p).0 e in
      (w, rw (← same, Sets.same_refl entry_less entry-Order (w, k)) refl)
  | inr ne ↦ let (u, m) = loose_entry p es (rw ne at h) in (u, ground (arith, m))
]

pub member_loose :
    (e : Entry) (es : List Entry) → Sets.member entry_less e es ≡ true → is_loose e.1 es ≡ true
member_loose e [] h = cc
member_loose e (c ∷ es) h = elim (Bool-cases (Sets.same entry_less e c)) [
  | inl it ↦ let same = Sets.same_eq entry_less entry-Order e c it in rw (same, ==_refl c.1) refl
  | inr other ↦ ground (arith, member_loose e es (rw other at h))
]

-- Sorted entries that memory determines have different addresses.
pub entries-Distinct :
    (memory : ℕ → Option Timer) (es : List Entry)
    → Sets.Sorted entry_less es
    → ((e : Entry)
        → Sets.member entry_less e es ≡ true
        → (t : Timer) × (memory e.1 ≡ some t) × (t.expiration ≡ e.0))
    → Distinct es
entries-Distinct memory [] sorted owned = tt
entries-Distinct memory (e ∷ es) (above, sorted) owned = (
  elim (Bool-cases (is_loose e.1 es)) [
    | inr n ↦ n
    | inl l ↦
        let (w, m) = loose_entry e.1 es l in
        let (t, t_there, t_when) = owned e (rw (Sets.same_refl entry_less entry-Order e) refl) in
        let (u, u_there, u_when) = owned (w, e.1) (ground (arith, m)) in
        let tu : t ≡ u = some_eq (sym t_there ∙ u_there) in
        let when : e.0 ≡ w = sym t_when ∙ ap (λ (z : Timer). z.expiration) tu ∙ u_when in
        let it : e ≡ (w, e.1) = ap (λ x. (x, e.1)) when in
        absurd (ground (arith, above (w, e.1) m, ap (entry_less e) it, entry-Order.irreflexive e))
  ],
  entries-Distinct memory es sorted (λ c h. owned c (ground (arith, h))),
)

-- The timers that were taken out of the active ones, which memory numbers
pub record Erased (expired : List Entry) (active : List ActiveTimer) (active' : List ActiveTimer)
    : Type 0 where
  pub sorted : Sets.Sorted active_less active'
  pub fewer : length expired + length active' ≡ length active
  pub left :
      (a : ActiveTimer)
      → Sets.member active_less a active' ≡ true
      → (Sets.member active_less a active ≡ true) × (is_loose a.0 expired ≡ false)
  pub stays :
      (a : ActiveTimer)
      → Sets.member active_less a active ≡ true
      → is_loose a.0 expired ≡ false
      → Sets.member active_less a active' ≡ true

abbrev pub Numbered : (ℕ → Option Timer) → List ActiveTimer → Type 0
Numbered memory active =
    (a : ActiveTimer)
    → Sets.member active_less a active ≡ true
    → (t : Timer) × (memory a.0 ≡ some t) × (t.seq ≡ a.1)

abbrev pub Active : (ℕ → Option Timer) → List Entry → List ActiveTimer → Type 0
Active memory expired active =
    (p : ℕ)
    → is_loose p expired ≡ true
    → (t : Timer) × (memory p ≡ some t) × (Sets.member active_less (p, t.seq) active ≡ true)

-- Another timer is still active after one was taken out.
still_active :
    (e : Entry) (id : ActiveTimer) (es : List Entry) (active : List ActiveTimer) (a : ActiveTimer)
    → Sets.Sorted active_less active
    → id.0 ≡ e.1
    → is_loose e.1 es ≡ false
    → is_loose a.0 es ≡ true
    → Sets.member active_less a active ≡ true
    → Sets.member active_less a (Sets.erase active_less id active) ≡ true
still_active e id es active a sorted same once l h =
    elim (Bool-cases (Sets.same active_less a id)) [
      | inl it ↦
          let ai = Sets.same_eq active_less active-Order a id it in
          let k : is_loose a.0 es ≡ is_loose e.1 es =
            ap (λ (x : ℕ). is_loose x es) (ap (λ (x : ActiveTimer). x.0) ai ∙ same) in
          absurd (ground (arith, k))
      | inr n ↦ rw (Sets.member-erase active_less active-Order id a active sorted, n, h) refl
    ]

-- What is active after a timer was taken out has another address.
other_address :
    (memory : ℕ → Option Timer) (active : List ActiveTimer) (p : ℕ) (t : Timer) (a : ActiveTimer)
    → Sets.Sorted active_less active
    → Numbered memory active
    → memory p ≡ some t
    → Sets.member active_less a (Sets.erase active_less (p, t.seq) active) ≡ true
    → (Sets.member active_less a active ≡ true) × ((p == a.0) ≡ false)
other_address memory active p t a sorted numbered there h =
    let in_rest = Sets.member-erase active_less active-Order (p, t.seq) a active sorted in
    let was : Sets.member active_less a active ≡ true = ground (arith, in_rest) in
    let apart : Sets.same active_less a (p, t.seq) ≡ false = ground (arith, in_rest) in
    (
      was,
      elim (Bool-cases (p == a.0)) [
        | inr n ↦ n
        | inl k ↦
            let (x, m, s) = numbered a was in
            let same = (==_iff p a.0).0 k in
            let xt : x ≡ t = some_eq (sym m ∙ ap memory (sym same) ∙ there) in
            let it : a ≡ (p, t.seq) =
              ap₂ (λ q n. (q, n)) (sym same) (sym s ∙ ap (λ (z : Timer). z.seq) xt) in
            absurd (
              ground (
                arith,
                apart,
                ap (Sets.same active_less a) (sym it) ∙ Sets.same_refl active_less active-Order a,
              ))
      ],
    )

later : (e : Entry) (p : ℕ) (es : List Entry) → is_loose p es ≡ true → is_loose p (e ∷ es) ≡ true
later e p es h = ground (arith, h)

either :
    (e : Entry) (p : ℕ) (es : List Entry)
    → (e.1 == p) ≡ false
    → is_loose p es ≡ false
    → is_loose p (e ∷ es) ≡ false
either e p es n h = rw (n, h) refl

pub erase_active-Erased :
    (memory : ℕ → Option Timer) (expired : List Entry) (active : List ActiveTimer)
    → Sets.Sorted active_less active
    → Numbered memory active
    → Active memory expired active
    → Distinct expired
    → (active' : List ActiveTimer) × (erase_active memory expired active ≡ ok active')
      × Erased expired active active'
unfolding erase_active
erase_active-Erased memory [] active sorted numbered live distinct = (
  active,
  refl,
  record { sorted = sorted; fewer = omega arith; left = λ a h. (h, refl); stays = λ a h n. h },
)
erase_active-Erased memory (e ∷ es) active sorted numbered live (once, distinct) =
    let (t, there, is_active) = live e.1 (rw (==_refl e.1) refl) in
    let id : ActiveTimer = (e.1, t.seq) in
    let rest = Sets.erase active_less id active in
    let in_rest =
      λ (a : ActiveTimer). Sets.member-erase active_less active-Order id a active sorted in
    let gone = λ (a : ActiveTimer) (h : Sets.member active_less a rest ≡ true).
      other_address memory active e.1 t a sorted numbered there h in
    let is_loose_later = λ (p : ℕ) (h : is_loose p es ≡ true). later e p es h in
    let (active', run, er) =
      erase_active-Erased memory es rest
        (Sets.erase-Sorted active_less active-Order id active sorted)
        (λ a h. numbered a (gone a h).0)
        (λ p h.
          let (x, m, is_in) = live p (is_loose_later p h) in
          (x, m, still_active e id es active (p, x.seq) sorted refl once h is_in))
        distinct in
    (
      active',
      rw (there, is_active, run),
      record {
        sorted = er.sorted;
        fewer =
            omega (arith, er.fewer, Sets.length-erase active_less active-Order id active is_active);
        left = λ a h.
            let (is_in, free) = er.left a h in
            let (was, n) = gone a is_in in (was, either e a.0 es n free);
        stays = λ a h n.
            er.stays a
              (ground
                (arith, in_rest a, Sets.same_eq active_less active-Order a id, ==_iff e.1 a.0))
              (ground arith);
      },
    )
