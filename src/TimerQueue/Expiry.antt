-- ===== src/TimerQueue/Expiry.antt =====
-- `getExpired` of net/TimerQueue.cpp.
use oula_server.TimerQueue.Pending.{sizes_agree}
use oula_server.Prelude.{
  ◌++◌, ◌||◌, length-append, ==_iff, Bool-cases, some_eq, length, ok, ℕ, ◌+◌, ◌≡◌, refl, sym, ap,
  ◌∙◌, inl, inr, true, false, List, [], ◌∷◌, arith,
}
use oula_server.Prelude.Sets
use oula_server.Timestamp.{Timestamp, Timer, less}
use oula_server.TimerQueue.{
  comes_first, uintptr_max, TimerQueue, get_expired, Entry, ActiveTimer, entry_less, active_less,
}
use oula_server.TimerQueue.Books.{Inv, entry-Order, is_loose}
use oula_server.TimerQueue.Erasing.{
  loose_entry, member_loose, entries-Distinct, erase_active-Erased, Erased, Numbered, Active,
}

-- The timers that are due, and those that are not
abbrev due : Timestamp → TimerQueue → List Entry
due now q = Sets.before entry_less (now, uintptr_max) q.timers

abbrev not_due : Timestamp → TimerQueue → List Entry
not_due now q = Sets.from entry_less (now, uintptr_max) q.timers

pub record Expired (q : TimerQueue) (now : Timestamp) (q' : TimerQueue) (expired : List Entry)
    : Type 0 where
  pub books : Inv q' expired
  pub all : expired ++ q'.timers ≡ q.timers
  pub expired_due : (e : Entry) → Sets.member entry_less e expired ≡ true → less now e.0 ≡ false
  pub rest_later : (e : Entry) → Sets.member entry_less e q'.timers ≡ true → less now e.0 ≡ true
  pub same_memory : q'.memory ≡ q.memory

module _ (q : TimerQueue) (now : Timestamp) (v : Inv q []) where
  in_timers :
      (e : Entry)
      → Sets.member entry_less e q.timers
        ≡ Sets.member entry_less e (due now q) || Sets.member entry_less e (not_due now q)
  in_timers e = Sets.member-before-from entry_less entry-Order (now, uintptr_max) e q.timers

  rest_not_before :
      (e : Entry)
      → Sets.member entry_less e (not_due now q) ≡ true
      → entry_less e (now, uintptr_max) ≡ false
  rest_not_before e h =
      Sets.from_not_less entry_less entry-Order (now, uintptr_max) e q.timers v.timers_sorted h

  due_before :
      (e : Entry)
      → Sets.member entry_less e (due now q) ≡ true
      → entry_less e (now, uintptr_max) ≡ true
  due_before e h = Sets.before-less entry_less entry-Order (now, uintptr_max) e q.timers h

  -- A timer has one entry, so one that is not due is not among the due ones.
  rest_not_loose :
      (e : Entry)
      → Sets.member entry_less e (not_due now q) ≡ true
      → is_loose e.1 (due now q) ≡ false
  rest_not_loose e h = elim (Bool-cases (is_loose e.1 (due now q))) [
    | inr n ↦ n
    | inl l ↦
        let (w, m) = loose_entry e.1 (due now q) l in
        let (t, t_there, t_when, a) = v.pending e (ground (arith, in_timers e)) in
        let (u, u_there, u_when, b) = v.pending (w, e.1) (ground (arith, in_timers (w, e.1))) in
        let tu : t ≡ u = some_eq (sym t_there ∙ u_there) in
        let when : e.0 ≡ w = sym t_when ∙ ap (λ (z : Timer). z.expiration) tu ∙ u_when in
        let it : e ≡ (w, e.1) = ap (λ x. (x, e.1)) when in
        absurd (
          ground (
            arith,
            rest_not_before e h,
            due_before (w, e.1) m,
            ap (λ x. entry_less x (now, uintptr_max)) it,
          ))
  ]

  rest_is_later :
      (e : Entry) → Sets.member entry_less e (not_due now q) ≡ true → less now e.0 ≡ true
  unfolding entry_less less
  rest_is_later e h =
      let (t, m, w, a) = v.pending e (ground (arith, in_timers e)) in
      let small = v.addresses e.1 t m in let not_before = rest_not_before e h in ground arith

  due_not_later : (e : Entry) → Sets.member entry_less e (due now q) ≡ true → less now e.0 ≡ false
  unfolding entry_less less
  due_not_later e h = let before = due_before e h in ground arith

  rest_comes_first : comes_first now (not_due now q) ≡ true
  rest_comes_first = first (not_due now q) rest_is_later
    where
      first :
          (es : List Entry)
          → ((e : Entry) → Sets.member entry_less e es ≡ true → less now e.0 ≡ true)
          → comes_first now es ≡ true
      first [] h = refl
      first (e ∷ es) h = h e (rw (Sets.same_refl entry_less entry-Order e) refl)

-- `getExpired`: no assertion fails. The queue is split in the timers that are due, which are loose now,
-- and those that are later than `now`.
pub get_expired-Expired :
    (q : TimerQueue) (now : Timestamp)
    → Inv q []
    → (q' : TimerQueue) × (expired : List Entry) × (get_expired now q ≡ ok (q', expired))
      × Expired q now q' expired
unfolding get_expired
get_expired-Expired q now v =
    let owned = λ (e : Entry) (h : Sets.member entry_less e (due now q) ≡ true).
      v.pending e (ground (arith, in_timers q now v e)) in
    let distinct =
      entries-Distinct q.memory (due now q)
        (Sets.before-Sorted entry_less entry-Order (now, uintptr_max) q.timers v.timers_sorted)
        (λ e h. let (t, m, w, a) = owned e h in (t, m, w)) in
    let numbered : Numbered q.memory q.active_timers =
      λ a h. let (t, m, s, e) = v.active a h in (t, m, s) in
    let live : Active q.memory (due now q) q.active_timers = λ p h.
      let (w, m) = loose_entry p (due now q) h in
      let (t, there, when, a) = owned (w, p) m in (t, there, a) in
    let (active', run, er) =
      erase_active-Erased q.memory (due now q) q.active_timers v.active_sorted numbered live
        distinct in
    let all = Sets.before-append-from entry_less entry-Order (now, uintptr_max) q.timers in
    let count : length q.timers ≡ length (due now q) + length (not_due now q) =
      ap length (sym all) ∙ length-append (due now q) (not_due now q) in
    let sizes : length (not_due now q) ≡ length active' = omega (arith, count, er.fewer, v.sizes) in
    (
      record q { timers = not_due now q; active_timers = active' },
      due now q,
      rw (
        sizes_agree q [] v,
        rest_comes_first q now v,
        run,
        (==_iff (length (not_due now q)) (length active')).1 sizes,
      ),
      record {
        books = record {
          timers_sorted =
              Sets.from-Sorted entry_less entry-Order (now, uintptr_max) q.timers v.timers_sorted;
          active_sorted = er.sorted;
          sizes = sizes;
          pending = λ e h.
              let (t, m, w, a) = v.pending e (ground (arith, in_timers q now v e)) in
              (t, m, w, er.stays (e.1, t.seq) a (rest_not_loose q now v e h));
          active = λ a h.
              let (is_in, free) = er.left a h in
              let (t, m, s, e) = v.active a is_in in
              (
                t,
                m,
                s,
                ground (
                  arith,
                  in_timers q now v (t.expiration, a.0),
                  member_loose (t.expiration, a.0) (due now q),
                ),
              );
          loose_live = λ p h.
              let (w, m) = loose_entry p (due now q) h in
              let (t, there, when, a) = owned (w, p) m in (t, there, gone active' er p t.seq h);
          loose_distinct = distinct;
          addresses = v.addresses;
          numbers = v.numbers;
        };
        all = all;
        expired_due = due_not_later q now v;
        rest_later = rest_is_later q now v;
        same_memory = refl;
      },
    )
  where
    gone :
        (active' : List ActiveTimer)
        → Erased (due now q) q.active_timers active'
        → (p n : ℕ) → is_loose p (due now q) ≡ true
        → Sets.member active_less (p, n) active' ≡ false
    gone active' er p n h = elim (Bool-cases (Sets.member active_less (p, n) active')) [
      | inr out ↦ out
      | inl is_in ↦ absurd (ground (arith, er.left (p, n) is_in))
    ]
