-- ===== src/TimerQueue/Examples.antt =====
-- A queue with one timer of net/Timer.h, which goes off every 1000 microseconds from 100 on.
use oula_server.Prelude.{
  Outcome, ok, ℕ, ◌<◌, ◌≡◌, refl, true, false, Option, none, some, [], ◌∷◌, arith,
}
use oula_server.Prelude.Int.{pos, ◌-ℤ◌}
use oula_server.Timestamp.{
  Seconds, get_invalid, Timestamp, Timer, new_timer, less, is_valid, how_much_time_from_now,
}
use oula_server.TimerQueue.{
  reset_one, reset_all, reset, run_all, erase_active, entry_less, active_less, TimerQueue, new,
  write, insert, add_timer, add_timer_in_loop, allocate, reset_timer_fd, cancel_in_loop,
  get_expired, handle_read, uintptr_max,
}
use oula_server.TimerQueue.Books.{Inv}
use oula_server.TimerQueue.Pending.{Added, add_timer-Added}
use oula_server.TimerQueue.Cancel.{Cancelled, cancel_in_loop-Cancelled}
use oula_server.TimerQueue.Due.{select, get_expired-select}
use oula_server.TimerQueue.Alarm.{Keeps, cancel_in_loop-Kept, Handled, handle_read-Handled}
use oula_server.TimerQueue.History.{Reached, made, added, Reached-Inv}

abbrev no_timers : ℕ → Option Timer
no_timers p = none

abbrev empty_queue : TimerQueue
empty_queue = new no_timers 0

abbrev at : ℕ → Timestamp
at n = record { micro_seconds = pos n }

abbrev a_millisecond : Seconds
a_millisecond = record { product = pos 1000; is_positive = true }

abbrev every : Timer
every = record { expiration = at 100; interval = a_millisecond; repeat = true; seq = 0 }

abbrev one_timer : TimerQueue
one_timer = record {
  timers = (at 100, 5) ∷ [];
  active_timers = (5, 0) ∷ [];
  canceling_timers = [];
  calling_expired_timers = false;
  memory = write 5 (some every) no_timers;
  seq_total = 1;
  timefd = some (record { tv_sec = 0; tv_nsec = 100000 });
}

empty_Reached : Reached empty_queue
empty_Reached = made no_timers 0 (λ p t h. absurd (cc))

one_added : add_timer true (at 0) 5 (at 100) a_millisecond empty_queue ≡ ok (one_timer, (5, 0))
unfolding new add_timer add_timer_in_loop insert allocate reset_timer_fd new_timer
    how_much_time_from_now less ◌-ℤ◌
one_added = refl

free : empty_queue.memory 5 ≡ none
unfolding new
free = refl

small : 5 < uintptr_max
small = omega arith

one_Reached : Reached one_timer
one_Reached =
    added empty_queue one_timer (5, 0) (at 0) 5 (at 100) a_millisecond empty_Reached free small
      one_added

one_Inv : Inv one_timer []
one_Inv = Reached-Inv one_timer one_Reached

-- A callback that cancels the timer
cancels : ℕ → TimerQueue → Outcome TimerQueue
cancels p q = cancel_in_loop true (p, 0) q

cancels-Keeps : Keeps cancels
unfolding cancels
cancels-Keeps p q loose v = cancel_in_loop-Kept q loose (p, 0) v

add_timer-Added_example :
    (q' : TimerQueue) × (add_timer true (at 0) 5 (at 100) a_millisecond empty_queue
      ≡ ok (q', (5, empty_queue.seq_total)))
    × Added empty_queue [] (at 0) 5 (at 100) a_millisecond q'
add_timer-Added_example =
    add_timer-Added empty_queue [] (at 0) 5 (at 100) a_millisecond
      (Reached-Inv empty_queue empty_Reached) free small

cancel_in_loop-Cancelled_example :
    (q' : TimerQueue) × (cancel_in_loop true (5, 0) one_timer ≡ ok q')
    × Cancelled one_timer [] (5, 0) q'
cancel_in_loop-Cancelled_example = cancel_in_loop-Cancelled one_timer [] (5, 0) one_Inv

get_expired-select_example :
    (q' : TimerQueue) × (get_expired (at 200) one_timer
      ≡ ok (q', select false (at 200) one_timer.timers))
    × (q'.timers ≡ select true (at 200) one_timer.timers)
    × Inv q' (select false (at 200) one_timer.timers)
    × (q'.memory ≡ one_timer.memory)
get_expired-select_example = get_expired-select one_timer (at 200) one_Inv

handle_read-Handled_example :
    (q' : TimerQueue) × (after : TimerQueue) × (handle_read cancels true (at 200) (at 201) one_timer
      ≡ ok q')
    × Handled cancels (at 200) (at 201) one_timer after q'
handle_read-Handled_example =
    handle_read-Handled cancels (at 200) (at 201) one_timer cancels-Keeps one_Inv

Reached-Inv_example : Inv one_timer []
Reached-Inv_example = Reached-Inv one_timer one_Reached

-- The timer was due and cancelled: it is gone, and the kernel's timer is left alone.
cancelled_gone :
    handle_read cancels true (at 200) (at 201) one_timer
    ≡ ok (record empty_queue {
      canceling_timers = (5, 0) ∷ [];
      memory = write 5 none one_timer.memory;
      seq_total = 1;
      timefd = one_timer.timefd;
    })
unfolding handle_read get_expired erase_active run_all reset reset_all reset_one cancel_in_loop
    cancels new entry_less active_less less is_valid get_invalid
cancelled_gone = refl
