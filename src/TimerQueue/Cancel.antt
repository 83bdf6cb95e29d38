-- ===== src/TimerQueue/Cancel.antt =====
-- `cancelInLoop` of net/TimerQueue.cpp.
use oula_server.Prelude.{
  ◌==◌, if◌then◌else◌, ==_iff, ==_refl, Bool-cases, ok, ℕ, ◌≡◌, refl, ap, ◌∙◌, inl, inr, Bool, true,
  false, none, some, List, arith,
}
use oula_server.Prelude.Sets
use oula_server.Timestamp.{Timer}
use oula_server.TimerQueue.{Entry, ActiveTimer, active_less, TimerQueue, cancel_in_loop}
use oula_server.TimerQueue.Books.{active_elsewhere, active-Order, is_loose, Inv, apart-Inv}
use oula_server.TimerQueue.Pending.{sizes_agree}
use oula_server.TimerQueue.Deleting.{cancelled, cancelled-Inv}

-- What cancelling does: the identifier is active no more, the others are as they were; a timer that was
-- pending is deleted, and one that is being run is marked.
pub record Cancelled (q : TimerQueue) (loose : List Entry) (id : ActiveTimer) (q' : TimerQueue)
    : Type 0 where
  pub books : Inv q' loose
  pub gone : Sets.member active_less id q'.active_timers ≡ false
  pub others :
      (a : ActiveTimer)
      → Sets.same active_less a id ≡ false
      → Sets.member active_less a q'.active_timers ≡ Sets.member active_less a q.active_timers
  pub deleted : Sets.member active_less id q.active_timers ≡ true → q'.memory id.0 ≡ none
  pub marked :
      Sets.member active_less id q.active_timers ≡ false
      → q.calling_expired_timers ≡ true
      → Sets.member active_less id q'.canceling_timers ≡ true
  pub marks_stay :
      (a : ActiveTimer)
      → Sets.member active_less a q.canceling_timers ≡ true
      → Sets.member active_less a q'.canceling_timers ≡ true
  pub objects : (k : ℕ) → is_loose k loose ≡ true → q'.memory k ≡ q.memory k
  pub same_calling : q'.calling_expired_timers ≡ q.calling_expired_timers

-- `cancelInLoop` in the loop's thread, on a queue whose books are right, with any identifier, also
-- one that was used up: no assertion fails, and the books are right. The identifier is active no
-- more, and the others are active as they were; a timer that was active is deleted; while callbacks
-- run, any other identifier is marked, and what was marked stays so; no expired timer is touched.
pub cancel_in_loop-Cancelled :
    (q : TimerQueue) (loose : List Entry) (id : ActiveTimer)
    → Inv q loose
    → (q' : TimerQueue) × (cancel_in_loop true id q ≡ ok q') × Cancelled q loose id q'
unfolding cancel_in_loop
cancel_in_loop-Cancelled q loose id v =
    elim (Bool-cases (Sets.member active_less id q.active_timers)) [
      | inl is_active ↦
          let (t, m, s, e) = v.active id is_active in
          let books = cancelled-Inv q loose id t v is_active m s e in
          let in_active = λ (a : ActiveTimer).
            Sets.member-erase active_less active-Order id a q.active_timers v.active_sorted in
          (
            cancelled q id t,
            rw (sizes_agree q loose v, is_active, m, e, sizes_agree (cancelled q id t) loose books),
            record {
              books = books;
              gone = ground (arith, in_active id, Sets.same_refl active_less active-Order id);
              others = λ a ne. ground (arith, in_active a);
              deleted = λ h. rw (==_refl id.0);
              marked = λ h c. absurd (ground arith);
              marks_stay = λ a h. h;
              objects = λ k l. rw (elsewhere k l t m (s_active t s is_active));
              same_calling = refl;
            },
          )
      | inr out ↦
          let marks =
            if q.calling_expired_timers
            then Sets.insert active_less id q.canceling_timers
            else q.canceling_timers in
          let q' = record q { canceling_timers = marks } in
          let in_marks = λ (a : ActiveTimer).
            Sets.member-insert active_less active-Order id a q.canceling_timers in
          (
            q',
            rw (sizes_agree q loose v, out)
                (rw (
                  marks_if q.calling_expired_timers q
                      (Sets.insert active_less id q.canceling_timers),
                  sizes_agree q loose v,
                )),
            record {
              books = apart-Inv q loose q.calling_expired_timers marks q.timefd v;
              gone = out;
              others = λ a ne. refl;
              deleted = λ h. absurd (ground arith);
              marked =
                  λ h c. ground (arith, in_marks id, Sets.same_refl active_less active-Order id);
              marks_stay = λ a h. ground (arith, in_marks a);
              objects = λ k l. refl;
              same_calling = refl;
            },
          )
    ]
  where
    s_active :
        (t : Timer)
        → t.seq ≡ id.1
        → Sets.member active_less id q.active_timers ≡ true
        → Sets.member active_less (id.0, t.seq) q.active_timers ≡ true
    s_active t s h = ap (λ n. Sets.member active_less (id.0, n) q.active_timers) s ∙ h

    elsewhere :
        (k : ℕ)
        → is_loose k loose ≡ true
        → (t : Timer) → q.memory id.0 ≡ some t
        → Sets.member active_less (id.0, t.seq) q.active_timers ≡ true
        → (id.0 == k) ≡ false
    elsewhere k l t m h = elim (Bool-cases (id.0 == k)) [
      | inr n ↦ n
      | inl e ↦
          let other = active_elsewhere q loose k id.0 t v l m h in
          absurd (ground (arith, ==_iff id.0 k, ==_refl k, other))
    ]

    marks_if :
        (b : Bool) (r : TimerQueue) (m : List ActiveTimer)
        → (if b then record r { canceling_timers = m } else r)
          ≡ record r { canceling_timers = if b then m else r.canceling_timers }
    marks_if true r m = refl
    marks_if false r m = refl
