-- ===== src/EventLoopThread/Examples.antt =====
-- A run of both threads of net/EventLoopThread.cpp.
use oula_server.Prelude.{ℕ, ◌≡◌, refl, ◌≢◌, ◌⊎◌, true, Option, some}
use oula_server.EventLoopThread.{
  preparing, looping, ended, asleep, testing, returned, EventLoopThread, new, start_loop, wait_loop,
  publish,
}
use oula_server.EventLoopThread.Handover.{
  Reached, at_first, then_step, starts, tests, publishes, Reached-handover,
}

-- The caller sleeps before the loop 9 is published, and then gets it.
abbrev handed_over : EventLoopThread
handed_over = record {
  loop = some 9;
  thread = true;
  io_loop = 9;
  worker = looping;
  starter = returned (some 9);
}

handed_over-Reached : Reached handed_over
unfolding new start_loop wait_loop publish
handed_over-Reached =
    let t₁ = record (new 9) { thread = true; worker = preparing; starter = testing } in
    let t₂ = wait_loop t₁ in
    let t₃ = publish t₂ in
    then_step
      (then_step (then_step (then_step (at_first 9) (starts (new 9) t₁ refl refl)) (tests t₁ refl))
        (publishes t₂ refl))
      (tests t₃ refl)

Reached-handover_example :
    ((r : Option ℕ)
      → handed_over.starter ≡ returned r
      → (r ≡ some 9) × (handed_over.worker ≢ preparing))
    × (handed_over.starter ≡ asleep
        → (handed_over.worker ≡ preparing) ⊎ (handed_over.worker ≡ ended))
Reached-handover_example = Reached-handover handed_over handed_over-Reached
