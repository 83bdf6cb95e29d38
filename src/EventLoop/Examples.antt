-- ===== src/EventLoop/Examples.antt =====
-- The loop's functors in a run of two threads.
use oula_server.Prelude.{
  Outcome, ◌⊎◌, Option, ok, ℕ, none, true, ◌+◌, ◌<◌, ◌≡◌, refl, [], ◌∷◌, ◌++◌,
}
use oula_server.Prelude.Int.{pos}
use oula_server.Timestamp.{Seconds, Timestamp, Timer, add_time}
use oula_server.TimerQueue
use oula_server.TimerQueue.{TimerQueue, ActiveTimer, uintptr_max}
use oula_server.TimerQueue.History
use oula_server.EventLoop.{
  polling, EventLoop, new, other_pushes, poll_returns, begin_pending, swap_pending, run_functor,
  end_pending, enter_loop,
}
use oula_server.EventLoop.Wakeup.{
  Reached, at_first, then_step, pushes, starts, polls, begins, swaps, runs, ends,
  Reached-no_lost_wakeup,
}

-- `loop()` is called, the functor 7 runs, and 8 is pushed after the swap.
abbrev late : EventLoop
late = record new {
  phase = polling;
  pending_functors = 8 ∷ [];
  on_the_way = 2;
  queued = 7 ∷ 8 ∷ [];
  ran = 7 ∷ [];
}

late-Reached : Reached late
unfolding new other_pushes enter_loop poll_returns begin_pending swap_pending run_functor
    end_pending
late-Reached =
    let l₀ = enter_loop new in
    let l₁ = other_pushes 7 l₀ in
    let l₂ = poll_returns l₁ in
    let l₃ = begin_pending l₂ in
    let l₄ = swap_pending l₃ in
    let l₅ = other_pushes 8 l₄ in
    let l₆ = run_functor l₅ in
    then_step
      (then_step
        (then_step
          (then_step
            (then_step
              (then_step (then_step (then_step at_first (starts new refl)) (pushes l₀ 7))
                (polls l₁ refl))
              (begins l₂ refl))
            (swaps l₃ refl))
          (pushes l₄ 8))
        (runs l₅ refl))
      (ends l₆ refl refl)

Reached-no_lost_wakeup_example :
    (late.queued ≡ late.ran ++ (late.batch ++ late.pending_functors))
    × (late.phase ≡ polling
        → (late.pending_functors ≡ late.early) ⊎ (0 < late.wakeups + late.on_the_way))
unfolding new
Reached-no_lost_wakeup_example = Reached-no_lost_wakeup late-Reached

abbrev no_timers : ℕ → Option Timer
no_timers p = none

abbrev clock : Timestamp
clock = record { micro_seconds = pos 100 }

abbrev a_millisecond : Seconds
a_millisecond = record { product = pos 1000; is_positive = true }

abbrev empty_queue : TimerQueue
empty_queue = TimerQueue.new no_timers 0

-- A callback that does nothing
idle : ℕ → TimerQueue → Outcome TimerQueue
idle p q = ok q

-- An alarm at the time of the timer
abbrev due : Timestamp
due = add_time clock a_millisecond
