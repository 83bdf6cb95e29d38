-- ===== src/EventLoop/Timers.antt =====
-- `runAt`, `runAfter`, `runEvery` and `cancle` of net/Eventloop.cpp, on top of the timer queue.
use oula_server.Prelude.{
  ◌&&◌, if◌then◌else◌, not, some, Outcome, ok, ℕ, ◌≡◌, Bool, true, false, none, List, [],
}
use oula_server.Prelude.Sets
use oula_server.Prelude.Int.{pos}
use oula_server.Timestamp.{Timer, Seconds, Timestamp, add_time, less}
use oula_server.TimerQueue
use oula_server.TimerQueue.{
  Entry, ActiveTimer, TimerQueue, entry_less, add_timer, get_expired, run_all, handle_read,
  active_less,
}
use oula_server.TimerQueue.Alarm.{Keeps}

-- The default of `addTimer`'s interval
abbrev no_seconds : Seconds
no_seconds = record { product = pos 0; is_positive = false }

unfoldable pub run_at :
    Bool → Timestamp → ℕ → Timestamp → TimerQueue → Outcome (TimerQueue × ActiveTimer)
run_at here now p time q = add_timer here now p time no_seconds q

-- `clock` is what `getNow` returns.
unfoldable pub run_after :
    Bool → Timestamp → ℕ → Timestamp → Seconds → TimerQueue → Outcome (TimerQueue × ActiveTimer)
run_after here now p clock delay q = run_at here now p (add_time clock delay) q

unfoldable pub run_every :
    Bool → Timestamp → ℕ → Timestamp → Seconds → TimerQueue → Outcome (TimerQueue × ActiveTimer)
run_every here now p clock interval q = add_timer here now p (add_time clock interval) interval q

unfoldable pub cancel : Bool → ActiveTimer → TimerQueue → Outcome TimerQueue
cancel here id q = TimerQueue.cancel here id q

abbrev pub once_at : Timestamp → ℕ → Timer
once_at time seq = record { expiration = time; interval = no_seconds; repeat = false; seq = seq }

abbrev pub every_from : Timestamp → Seconds → ℕ → Timer
every_from time delay seq = record {
  expiration = time;
  interval = delay;
  repeat = delay.is_positive;
  seq = seq;
}

-- The next alarm of the queue, handled at the time `at`: the timer `t` at `p` is among the expired ones,
-- whose callbacks run, exactly if that is not before its time, and is pending otherwise. In the first
-- case it then waits for its interval from `at` on, if it repeats and no callback cancelled it, and is
-- gone otherwise.
pub record NextAlarm (run : ℕ → TimerQueue → Outcome TimerQueue) (at later : Timestamp)
    (q : TimerQueue) (p : ℕ) (t : Timer) : Type 0 where
  pub rest : TimerQueue
  pub expired : List Entry
  pub split : get_expired at q ≡ ok (rest, expired)
  pub is_due : Sets.member entry_less (t.expiration, p) expired ≡ not (less at t.expiration)
  pub is_pending : Sets.member entry_less (t.expiration, p) rest.timers ≡ less at t.expiration
  pub done : TimerQueue
  pub ran :
      run_all run expired (record rest { calling_expired_timers = true; canceling_timers = [] })
      ≡ ok done
  pub next : TimerQueue
  pub alarmed : handle_read run true at later q ≡ ok next
  pub goes_on :
      less at t.expiration ≡ false
      → next.memory p ≡ (
          if t.repeat && not (Sets.member active_less (p, t.seq) done.canceling_timers)
          then some (record t { expiration = add_time at t.interval })
          else none)

module _ (run : ℕ → TimerQueue → Outcome TimerQueue) (at later : Timestamp)
    (keeps : Keeps run) where
  abbrev Split : Entry → TimerQueue × List Entry → Type 0
  Split e r =
      (Sets.member entry_less e r.1 ≡ not (less at e.0))
      × (Sets.member entry_less e r.0.timers ≡ less at e.0)
