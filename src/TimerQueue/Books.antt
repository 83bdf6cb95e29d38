-- ===== src/TimerQueue/Books.antt =====
-- What the two sets of net/TimerQueue.h and the timers in memory have in common.
use oula_server.Prelude.{
  ap₂, ==_iff, Option, some_eq, ◌==◌, Bool-cases, length, ℕ, suc, ◌<◌, ◌≡◌, refl, sym, ap, subst,
  ◌∙◌, inl, inr, Bool, true, false, ◌||◌, some, List, [], ◌∷◌, arith,
}
use oula_server.Prelude.Sets
use oula_server.Prelude.Sets.{Order}
use oula_server.Timestamp.{Timer, Timespec, less}
use oula_server.TimerQueue.{
  Entry, ActiveTimer, entry_less, active_less, TimerQueue, with_timer, uintptr_max,
}

pub entry-Order : Order entry_less
unfolding entry_less less
entry-Order = record {
  irreflexive = λ a. ground arith;
  transitive = λ a b c h k. ground arith;
  connected = λ a b h k. ground arith;
}

pub active-Order : Order active_less
unfolding active_less
active-Order = record {
  irreflexive = λ a. ground arith;
  transitive = λ a b c h k. ground arith;
  connected = λ a b h k. ground arith;
}

-- An expired entry is loose until `reset` has dealt with it: it is in neither set.
abbrev pub is_loose : ℕ → List Entry → Bool
is_loose p [] = false
is_loose p (e ∷ es) = e.1 == p || is_loose p es

abbrev pub Distinct : List Entry → Type 0
Distinct [] = Unit {0}
Distinct (e ∷ es) = (is_loose e.1 es ≡ false) × Distinct es

-- A timer in memory with that expiration, which is active
abbrev pub Backed : TimerQueue → Entry → Type 0
Backed q e =
    (t : Timer) × (q.memory e.1 ≡ some t)
    × (t.expiration ≡ e.0)
    × (Sets.member active_less (e.1, t.seq) q.active_timers ≡ true)

-- A timer in memory with that number, which has its entry
abbrev pub Listed : TimerQueue → ActiveTimer → Type 0
Listed q a =
    (t : Timer) × (q.memory a.0 ≡ some t)
    × (t.seq ≡ a.1)
    × (Sets.member entry_less (t.expiration, a.0) q.timers ≡ true)

-- A timer in memory that is not active
abbrev pub Loose : TimerQueue → ℕ → Type 0
Loose q p =
    (t : Timer) × (q.memory p ≡ some t)
    × (Sets.member active_less (p, t.seq) q.active_timers ≡ false)

-- Both sets are sorted and of one size. Each entry is the expiration of a timer in memory that is
-- active, and each active timer is in memory and has its entry. A loose timer is in memory and not
-- active. A null pointer leads to no timer, and all sequence numbers are smaller than the next one.
pub record Inv (q : TimerQueue) (loose : List Entry) : Type 0 where
  pub timers_sorted : Sets.Sorted entry_less q.timers
  pub active_sorted : Sets.Sorted active_less q.active_timers
  pub sizes : length q.timers ≡ length q.active_timers
  pub pending : (e : Entry) → Sets.member entry_less e q.timers ≡ true → Backed q e
  pub active : (a : ActiveTimer) → Sets.member active_less a q.active_timers ≡ true → Listed q a
  pub loose_live : (p : ℕ) → is_loose p loose ≡ true → Loose q p
  pub loose_distinct : Distinct loose
  pub addresses : (p : ℕ) (t : Timer) → q.memory p ≡ some t → p < uintptr_max
  pub numbers : (p : ℕ) (t : Timer) → q.memory p ≡ some t → t.seq < q.seq_total

-- A timer of the queue is pending exactly if it is active.
pub pending-active :
    (q : TimerQueue) (loose : List Entry) (p : ℕ) (t : Timer)
    → Inv q loose
    → q.memory p ≡ some t
    → Sets.member entry_less (t.expiration, p) q.timers
      ≡ Sets.member active_less (p, t.seq) q.active_timers
pending-active q loose p t v m =
    elim (Bool-cases (Sets.member entry_less (t.expiration, p) q.timers)) [
      | inl is_in ↦
          let (u, n, e, a) = v.pending (t.expiration, p) is_in in
          let same : t ≡ u = some_eq (sym m ∙ n) in rw (is_in, same, a)
      | inr out ↦ elim (Bool-cases (Sets.member active_less (p, t.seq) q.active_timers)) [
        | inl a ↦
            let (u, n, e, is_in) = v.active (p, t.seq) a in
            let same : t ≡ u = some_eq (sym m ∙ n) in
            absurd (
              ground (
                arith,
                subst (λ x. Sets.member entry_less (x.expiration, p) q.timers ≡ true) (sym same)
                    is_in,
              ))
        | inr a ↦ rw (out, a)
      ]
    ]

-- An active timer has another address than a loose one.
pub active_elsewhere :
    (q : TimerQueue) (loose : List Entry) (p k : ℕ) (x : Timer)
    → Inv q loose
    → is_loose p loose ≡ true
    → q.memory k ≡ some x
    → Sets.member active_less (k, x.seq) q.active_timers ≡ true
    → (p == k) ≡ false
active_elsewhere q loose p k x v l there is_in = elim (Bool-cases (p == k)) [
  | inr n ↦ n
  | inl e ↦
      let same = (==_iff p k).0 e in
      let (t, m, out) = v.loose_live p l in
      let tx : t ≡ x = some_eq (sym m ∙ ap q.memory same ∙ there) in
      let mine : ActiveTimer = (p, t.seq) in
      let theirs : ActiveTimer = (k, x.seq) in
      let it : mine ≡ theirs = ap₂ (λ a n. (a, n)) same (ap (λ (z : Timer). z.seq) tx) in
      absurd (ground (arith, out, is_in, ap (λ a. Sets.member active_less a q.active_timers) it))
]

-- What `insert` needs: the timer is in memory, and not active.
pub record Idle (q : TimerQueue) (p : ℕ) (t : Timer) : Type 0 where
  pub is_there : q.memory p ≡ some t
  pub not_active : Sets.member active_less (p, t.seq) q.active_timers ≡ false

-- A timer that is in memory and neither active nor loose becomes pending.
pub with_timer-Inv :
    (q : TimerQueue) (loose : List Entry) (p : ℕ) (t : Timer)
    → Inv q loose
    → Idle q p t
    → is_loose p loose ≡ false
    → Inv (with_timer p t q) loose
with_timer-Inv q loose p t v i free = record {
  timers_sorted = Sets.insert-Sorted entry_less entry-Order new_entry q.timers v.timers_sorted;
  active_sorted = Sets.insert-Sorted active_less active-Order id q.active_timers v.active_sorted;
  sizes =
      Sets.length-insert entry_less entry-Order new_entry q.timers v.timers_sorted out
      ∙ ap suc v.sizes
      ∙ sym (
          Sets.length-insert active_less active-Order id q.active_timers v.active_sorted
            i.not_active);
  pending = pending_now;
  active = active_now;
  loose_live = loose_now;
  loose_distinct = v.loose_distinct;
  addresses = v.addresses;
  numbers = v.numbers;
}
  where
    new_entry : Entry
    new_entry = (t.expiration, p)

    id : ActiveTimer
    id = (p, t.seq)

    out : Sets.member entry_less (t.expiration, p) q.timers ≡ false
    out = pending-active q loose p t v i.is_there ∙ i.not_active

    in_active :
        (a : ActiveTimer)
        → Sets.member active_less a (Sets.insert active_less (p, t.seq) q.active_timers)
          ≡ Sets.same active_less a (p, t.seq) || Sets.member active_less a q.active_timers
    in_active a = Sets.member-insert active_less active-Order (p, t.seq) a q.active_timers

    in_timers :
        (e : Entry)
        → Sets.member entry_less e (Sets.insert entry_less (t.expiration, p) q.timers)
          ≡ Sets.same entry_less e (t.expiration, p) || Sets.member entry_less e q.timers
    in_timers e = Sets.member-insert entry_less entry-Order (t.expiration, p) e q.timers

    id_in : Sets.member active_less (p, t.seq) (with_timer p t q).active_timers ≡ true
    id_in = rw (in_active (p, t.seq), Sets.same_refl active_less active-Order (p, t.seq)) refl

    entry_in : Sets.member entry_less (t.expiration, p) (with_timer p t q).timers ≡ true
    entry_in =
        rw (in_timers (t.expiration, p), Sets.same_refl entry_less entry-Order (t.expiration, p))
          refl

    pending_now :
        (e : Entry)
        → Sets.member entry_less e (with_timer p t q).timers ≡ true
        → Backed (with_timer p t q) e
    pending_now e h = elim (Bool-cases (Sets.same entry_less e (t.expiration, p))) [
      | inl it ↦
          subst (Backed (with_timer p t q))
            (sym (Sets.same_eq entry_less entry-Order e (t.expiration, p) it))
            (t, i.is_there, refl, id_in)
      | inr other ↦
          let (x, m, w, a) = v.pending e (ground (arith, in_timers e)) in
          (x, m, w, ground (arith, in_active (e.1, x.seq)))
    ]

    active_now :
        (a : ActiveTimer)
        → Sets.member active_less a (with_timer p t q).active_timers ≡ true
        → Listed (with_timer p t q) a
    active_now a h = elim (Bool-cases (Sets.same active_less a (p, t.seq))) [
      | inl it ↦
          subst (Listed (with_timer p t q))
            (sym (Sets.same_eq active_less active-Order a (p, t.seq) it))
            (t, i.is_there, refl, entry_in)
      | inr other ↦
          let (x, m, w, e) = v.active a (ground (arith, in_active a)) in
          (x, m, w, ground (arith, in_timers (x.expiration, a.0)))
    ]

    loose_now : (k : ℕ) → is_loose k loose ≡ true → Loose (with_timer p t q) k
    loose_now k h =
        let (x, m, n) = v.loose_live k h in
        (
          x,
          m,
          ground (
            arith,
            in_active (k, x.seq),
            Sets.same_eq active_less active-Order (k, x.seq) (p, t.seq),
            free,
          ),
        )

-- The flag, the cancelled timers and the kernel's timer are not in the books.
pub apart-Inv :
    (q : TimerQueue) (loose : List Entry) (calling : Bool) (canceling : List ActiveTimer)
    (fd : Option Timespec)
    → Inv q loose
    → Inv
        (record q { calling_expired_timers = calling; canceling_timers = canceling; timefd = fd })
        loose
apart-Inv q loose calling canceling fd v = record {
  timers_sorted = v.timers_sorted;
  active_sorted = v.active_sorted;
  sizes = v.sizes;
  pending = v.pending;
  active = v.active;
  loose_live = v.loose_live;
  loose_distinct = v.loose_distinct;
  addresses = v.addresses;
  numbers = v.numbers;
}
