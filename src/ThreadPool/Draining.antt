-- ===== src/ThreadPool/Draining.antt =====
-- The workers of threadpool/threadpool.cpp get through the queue.
use oula_server.Prelude.{
  false, Bool, none, ==_refl, get_elem?, ℕ, ◌≡◌, refl, sym, ap, ◌∙◌, ◌⊎◌, inl, inr, true, Option,
  none, some, List, [], ◌∷◌, ◌++◌, append-nil, arith,
}
use oula_server.ThreadPool.{
  Worker, ready, tested, asleep, finished, running, ThreadPool, is_empty, become,
}
use oula_server.ThreadPool.Schedule.{
  At, MutexFree, Step, Reached, enters, blocks, ends_task, then_step, is_awake, Inv, changed,
}
use oula_server.ThreadPool.Invariant.{Entered, leaves, takes, waits, thread_func-Entered}
use oula_server.ThreadPool.Shutdown.{Reached-no_lost_task}

-- A step that a worker takes of its own: it tests for work under the mutex, blocks, or ends its task. No
-- call from outside is one, and no wake-up without a notification.
abbrev pub by_worker : {p p' : ThreadPool} → Step p p' → Bool
by_worker (enters p p' i free here run) = true
by_worker (blocks p i here) = true
by_worker (ends_task p i f here) = true
by_worker _ = false

-- Steps of workers alone
pub data Steps : ThreadPool → ThreadPool → Type 0 where
  no_step : (p : ThreadPool) → Steps p p
  one_more :
      (p p' p'' : ThreadPool) (s : Step p p') → by_worker s ≡ true → Steps p' p'' → Steps p p''

awake-cases :
    (x : Option Worker) → is_awake x ≡ true → (x ≡ some ready) ⊎ ((f : ℕ) × (x ≡ some (running f)))
awake-cases (some ready) h = inl refl
awake-cases (some (running f)) h = inr (f, refl)
awake-cases none h = absurd (cc)
awake-cases (some tested) h = absurd (cc)
awake-cases (some asleep) h = absurd (cc)
awake-cases (some finished) h = absurd (cc)

-- The first task was taken.
abbrev Taken : ThreadPool → List ℕ → ThreadPool → Type 0
Taken p fs p' = Reached p' × Steps p p' × (p'.task_queue ≡ fs) × (p'.added ≡ p.added)

takes_first :
    (p p' : ThreadPool) (i f : ℕ) (fs : List ℕ)
    → Entered i p p'
    → p.task_queue ≡ f ∷ fs
    → (p'.task_queue ≡ fs) × (p'.added ≡ p.added)
takes_first p _ i f fs (leaves s q) h = absurd (cc)
takes_first p _ i f fs (waits s q) h = absurd (cc)
takes_first p _ i f fs (takes g gs q) h = (cc, refl)

free_mutex : (p : ThreadPool) (f : ℕ) (fs : List ℕ) → Inv p → p.task_queue ≡ f ∷ fs → MutexFree p
free_mutex p f fs inv q i h = ground (arith, inv.testing i h, ap is_empty q)

ready_takes :
    (p : ThreadPool) (i f : ℕ) (fs : List ℕ)
    → Reached p
    → At p i ready
    → p.task_queue ≡ f ∷ fs
    → (p' : ThreadPool) × Taken p fs p'
ready_takes p i f fs r here q =
    let (p', run, e) = thread_func-Entered i p in
    let step = enters p p' i (free_mutex p f fs (Reached-no_lost_task p r) q) here run in
    let (rest, same) = takes_first p p' i f fs e q in
    (p', (then_step r step, one_more p p' p' step refl (no_step p'), rest, same))

someone_takes :
    (p : ThreadPool) (f : ℕ) (fs : List ℕ)
    → Reached p
    → p.task_queue ≡ f ∷ fs
    → (p' : ThreadPool) × Taken p fs p'
someone_takes p f fs r q =
    let (i, a) = (Reached-no_lost_task p r).awake (ap is_empty q) in
    elim (awake-cases (get_elem? p.threads i) a) [
      | inl here ↦ ready_takes p i f fs r here q
      | inr (g, busy) ↦
          let p₁ = become i ready p in
          let step = ends_task p i g busy in
          let now_ready : At p₁ i ready =
            rw (changed p.threads i i (running g) ready busy, ==_refl i) refl in
          let (p', (r', steps, rest, same)) =
            ready_takes p₁ i f fs (then_step r step) now_ready q in
          (p', (r', one_more p p₁ p' step refl steps, rest, same))
    ]

joined-Steps : (p p' p'' : ThreadPool) → Steps p p' → Steps p' p'' → Steps p p''
joined-Steps p _ p'' (no_step _) t = t
joined-Steps p p' p'' (one_more _ q _ s w ss) t = one_more p q p'' s w (joined-Steps q p' p'' ss t)

empties :
    (p : ThreadPool) (fs : List ℕ)
    → Reached p
    → p.task_queue ≡ fs
    → (p' : ThreadPool) × Taken p [] p'
empties p [] r q = (p, (r, no_step p, q, refl))
empties p (f ∷ fs) r q =
    let (p₁, (r₁, steps₁, rest₁, same₁)) = someone_takes p f fs r q in
    let (p₂, (r₂, steps₂, rest₂, same₂)) = empties p₁ fs r₁ rest₁ in
    (p₂, (r₂, joined-Steps p p₁ p₂ steps₁ steps₂, rest₂, same₂ ∙ same₁))

-- However the threads have run so far, no deadlock is in the way of the tasks in the queue: by steps of
-- the workers alone, with no wake-up, no notification and no new task, a state can be reached in which
-- each task that was added is begun.
pub Reached-drains :
    (p : ThreadPool)
    → Reached p
    → (p' : ThreadPool) × Steps p p' × (p'.added ≡ p.added) × (p'.begun ≡ p.added)
Reached-drains p r =
    let (p', (r', steps, rest, same)) = empties p p.task_queue r refl in
    let inv = Reached-no_lost_task p' r' in
    (
      p',
      steps,
      same,
      sym (append-nil p'.begun) ∙ ap (λ l. p'.begun ++ l) (sym rest) ∙ sym inv.order ∙ same,
    )
