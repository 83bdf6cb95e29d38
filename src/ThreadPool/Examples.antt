-- ===== src/ThreadPool/Examples.antt =====
-- Runs of the pool of threadpool/threadpool.cpp.
use oula_server.Prelude.{
  ◌+◌, some_eq, get_elem?, ℕ, zero, suc, ◌≡◌, refl, sym, ◌≢◌, inl, inr, true, false, some, List, [],
  ◌∷◌, arith,
}
use oula_server.ThreadPool.{
  Worker, ready, tested, asleep, finished, running, alive, joining, joined, ThreadPool, new, become,
  add_task, thread_func, store_stop, notify_all, join_all,
}
use oula_server.ThreadPool.Schedule.{
  At, Reached, adds, enters, stops, notifies, joins, at_first, then_step, Inv,
}
use oula_server.ThreadPool.Shutdown.{AllFinished, Reached-no_lost_task, Reached-joined}
use oula_server.ThreadPool.Draining.{Steps, Reached-drains}
use oula_server.ThreadPool.Ending
use oula_server.ThreadPool.Ending.{work, stopped-rests}
use oula_server.ThreadPool.Missed.{NoneRuns, CausedSteps, tested-Stuck}

-- A pool of one worker
abbrev pool_of : Worker → List ℕ → ThreadPool
pool_of w tasks = record {
  threads = w ∷ [];
  task_queue = tasks;
  stop = false;
  phase = alive;
  added = tasks;
  begun = [];
}

abbrev one_worker : ThreadPool
one_worker = pool_of ready []

one_worker-Reached : Reached one_worker
unfolding new
one_worker-Reached = at_first 1 (omega arith)

only : (v w : Worker) → (v ≡ w → ⊥) → (i : ℕ) → get_elem? (v ∷ []) i ≢ some w
only v w n zero h = n (some_eq h)
only v w n (suc i) h = cc

with_task-Reached : Reached (pool_of ready (7 ∷ []))
unfolding add_task
with_task-Reached = then_step one_worker-Reached (
    adds one_worker 7 0 (inl refl) (only ready tested (λ e. cc))
      (inr (only ready asleep (λ e. cc))))

at_test-Reached : Reached (pool_of tested [])
unfolding thread_func
at_test-Reached =
    then_step one_worker-Reached
      (enters one_worker (pool_of tested []) 0 (only ready tested (λ e. cc)) refl refl)

abbrev ended : ThreadPool
ended = record (pool_of finished []) { stop = true; phase = joined }

ended-Reached : Reached ended
unfolding thread_func store_stop notify_all join_all
ended-Reached =
    let p₁ = store_stop one_worker in
    let p₂ = notify_all p₁ in
    let p₃ = become 0 finished p₂ in
    then_step
      (then_step
        (then_step (then_step one_worker-Reached (stops one_worker refl)) (notifies p₁ refl))
        (enters p₂ p₃ 0 (only ready tested (λ e. cc)) refl refl))
      (joins p₃ refl is_finished)
  where
    is_finished : (i : ℕ) (w : Worker) → get_elem? (finished ∷ []) i ≡ some w → w ≡ finished
    is_finished zero w h = sym (some_eq h)
    is_finished (suc i) w h = absurd (cc)

Reached-no_lost_task_example : Inv (pool_of ready (7 ∷ []))
Reached-no_lost_task_example = Reached-no_lost_task (pool_of ready (7 ∷ [])) with_task-Reached

Reached-joined_example : AllFinished ended × (ended.begun ≡ ended.added)
Reached-joined_example = Reached-joined ended ended-Reached refl

Reached-drains_example :
    (p' : ThreadPool) × Steps (pool_of ready (7 ∷ [])) p'
    × (p'.added ≡ 7 ∷ [])
    × (p'.begun ≡ 7 ∷ [])
Reached-drains_example = Reached-drains (pool_of ready (7 ∷ [])) with_task-Reached

none_runs : NoneRuns (pool_of tested [])
none_runs j f = only tested (running f) (λ e. cc) j

tested-Stuck_example :
    (p₁ : ThreadPool) × (p₁ ≡ become 0 asleep (notify_all (store_stop (pool_of tested []))))
    × CausedSteps (pool_of tested []) p₁
    × Reached p₁
    × ((p₂ : ThreadPool) → CausedSteps p₁ p₂ → (p₂.phase ≡ joining) × At p₂ 0 asleep)
tested-Stuck_example = tested-Stuck (pool_of tested []) 0 at_test-Reached refl refl none_runs refl

-- The flag is set while a task waits: the worker takes it, ends it, and leaves.
abbrev stopping_with_task : ThreadPool
stopping_with_task = record (pool_of ready (7 ∷ [])) { stop = true }

abbrev at_rest : ThreadPool
at_rest = record (pool_of finished []) { stop = true; added = 7 ∷ []; begun = 7 ∷ [] }

comes_to_rest : Ending.Steps 3 stopping_with_task at_rest
unfolding thread_func
comes_to_rest =
    let p₁ = record at_rest { threads = running 7 ∷ [] } in
    let p₂ = record at_rest { threads = ready ∷ [] } in
    Ending.enters 2 0 stopping_with_task p₁ at_rest refl refl (
      Ending.ends_task 1 0 7 p₁ at_rest refl
        (Ending.enters 0 0 p₂ at_rest at_rest refl refl (Ending.no_step at_rest)))

stopped-rests_example : 3 + work at_rest ≡ work stopping_with_task
stopped-rests_example = stopped-rests 3 stopping_with_task at_rest refl comes_to_rest
