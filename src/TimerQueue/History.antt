-- ===== src/TimerQueue/History.antt =====
-- The life of a queue, as its loop sees it.
use oula_server.Prelude.{
  ok_eq, Outcome, ok, ℕ, ◌<◌, ◌≡◌, refl, sym, ap, subst, ◌∙◌, true, Option, none, some, [],
}
use oula_server.Timestamp.{Seconds, Timestamp, Timer}
use oula_server.TimerQueue.{
  ActiveTimer, TimerQueue, new, add_timer, cancel, handle_read, uintptr_max,
}
use oula_server.TimerQueue.Books.{Inv}
use oula_server.TimerQueue.Pending.{add_timer-Added}
use oula_server.TimerQueue.Cancel.{cancel_in_loop-Cancelled}
use oula_server.TimerQueue.Alarm.{Keeps, handle_read-Handled}

-- A queue that was made, and then used in the loop's thread. `new Timer` gives an address that holds no
-- timer, and all callbacks use the queue by its operations.
pub data Reached : TimerQueue → Type 0 where
  made :
      (memory : ℕ → Option Timer) (seq_total : ℕ)
      → ((p : ℕ) (t : Timer) → memory p ≡ some t → (p < uintptr_max) × (t.seq < seq_total))
      → Reached (new memory seq_total)
  added :
      (q q' : TimerQueue) (id : ActiveTimer) (now : Timestamp) (p : ℕ) (when : Timestamp)
      (interval : Seconds)
      → Reached q
      → q.memory p ≡ none
      → p < uintptr_max
      → add_timer true now p when interval q ≡ ok (q', id)
      → Reached q'
  cancelled :
      (q q' : TimerQueue) (id : ActiveTimer) → Reached q → cancel true id q ≡ ok q' → Reached q'
  alarmed :
      (q q' : TimerQueue) (run : ℕ → TimerQueue → Outcome TimerQueue) (now later : Timestamp)
      → Reached q
      → Keeps run
      → handle_read run true now later q ≡ ok q'
      → Reached q'

-- A queue that was made, and then used in its loop's thread in any order (timers added at free
-- addresses, identifiers cancelled, alarms handled whose callbacks use the queue by its
-- operations): both sets are sorted, of one size, and agree with each other and with the timers in
-- memory.
pub Reached-Inv : (q : TimerQueue) → Reached q → Inv q []
unfolding new cancel
Reached-Inv _ (made memory seq_total owned) = record {
  timers_sorted = tt;
  active_sorted = tt;
  sizes = refl;
  pending = λ e h. absurd (cc);
  active = λ a h. absurd (cc);
  loose_live = λ p h. absurd (cc);
  loose_distinct = tt;
  addresses = λ p t h. (owned p t h).0;
  numbers = λ p t h. (owned p t h).1;
}
Reached-Inv _ (added q q' id now p when interval before free small run) =
    let v = Reached-Inv q before in
    let (q₁, run₁, a) = add_timer-Added q [] now p when interval v free small in
    subst (λ x. Inv x []) (ap (λ (r : TimerQueue × ActiveTimer). r.0) (ok_eq (sym run₁ ∙ run)))
      a.books
Reached-Inv _ (cancelled q q' id before run) =
    let v = Reached-Inv q before in
    let (q₁, run₁, c) = cancel_in_loop-Cancelled q [] id v in
    subst (λ x. Inv x []) (ok_eq (sym run₁ ∙ run)) c.books
Reached-Inv _ (alarmed q q' callbacks now later before keeps run) =
    let v = Reached-Inv q before in
    let (q₁, after, run₁, h) = handle_read-Handled callbacks now later q keeps v in
    subst (λ x. Inv x []) (ok_eq (sym run₁ ∙ run)) h.books
