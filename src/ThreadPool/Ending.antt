-- ===== src/ThreadPool/Ending.antt =====
-- How long the workers of threadpool/threadpool.cpp go on after `m_bStop` is set.
use oula_server.Prelude.{
  some_eq, length, get_elem?, set, ok_eq, ok, ℕ, zero, suc, ◌+◌, ◌*◌, ◌≡◌, sym, ap, subst, ◌∙◌,
  true, some, List, [], ◌∷◌, arith,
}
use oula_server.ThreadPool.{
  Worker, ready, tested, asleep, finished, running, ThreadPool, become, thread_func,
}
use oula_server.ThreadPool.Schedule.{At}
use oula_server.ThreadPool.Invariant.{Entered, leaves, takes, waits, thread_func-Entered}

-- Steps of the workers alone, without a wake-up or a new task
pub data Steps : ℕ → ThreadPool → ThreadPool → Type 0 where
  no_step : (p : ThreadPool) → Steps 0 p p
  enters :
      (n i : ℕ) (p p' p'' : ThreadPool)
      → At p i ready
      → thread_func i p ≡ ok p'
      → Steps n p' p''
      → Steps (suc n) p p''
  blocks :
      (n i : ℕ) (p p'' : ThreadPool)
      → At p i tested
      → Steps n (become i asleep p) p''
      → Steps (suc n) p p''
  ends_task :
      (n i f : ℕ) (p p'' : ThreadPool)
      → At p i (running f)
      → Steps n (become i ready p) p''
      → Steps (suc n) p p''

abbrev weight : Worker → ℕ
weight ready = 1
weight tested = 1
weight asleep = 0
weight finished = 0
weight (running f) = 2

abbrev weights : List Worker → ℕ
weights [] = 0
weights (w ∷ ws) = weight w + weights ws

-- What the workers have left to do
abbrev pub work : ThreadPool → ℕ
work p = 2 * length p.task_queue + weights p.threads

weights-set :
    (ws : List Worker) (i : ℕ) (v w : Worker)
    → get_elem? ws i ≡ some v
    → weights (set ws i w) + weight v ≡ weights ws + weight w
weights-set [] i v w h = absurd (cc)
weights-set (x ∷ ws) zero v w h = omega (arith, ap weight (some_eq h))
weights-set (x ∷ ws) (suc i) v w h = omega (arith, weights-set ws i v w h)

Entered-work :
    (i : ℕ) (p p' : ThreadPool)
    → p.stop ≡ true
    → At p i ready
    → Entered i p p'
    → (p'.stop ≡ true) × (work p' + 1 ≡ work p)
Entered-work i p _ stop here (leaves s q) =
    (stop, omega (arith, weights-set p.threads i ready finished here))
Entered-work i p _ stop here (takes f fs q) =
    (stop, omega (arith, weights-set p.threads i ready (running f) here, ap length q))
Entered-work i p _ stop here (waits s q) = absurd (ground (arith, stop, s))

-- After the destructor has set the flag, and without new tasks and wake-ups, each step of a worker takes
-- one off the work: two for a task in the queue, two for a worker in its task, one for a worker that is
-- awake otherwise. So the workers come to rest after at most that many steps, in whatever order.
pub stopped-rests :
    (n : ℕ) (p p' : ThreadPool) → p.stop ≡ true → Steps n p p' → n + work p' ≡ work p
stopped-rests _ p _ stop (no_step _) = omega arith
stopped-rests _ p p'' stop (enters n i _ p' _ here run ss) =
    let (p₁, run₁, e) = thread_func-Entered i p in
    let (stop', less) =
      Entered-work i p p' stop here (subst (Entered i p) (ok_eq (sym run₁ ∙ run)) e) in
    omega (arith, less, stopped-rests n p' p'' stop' ss)
stopped-rests _ p p'' stop (blocks n i _ _ here ss) = omega (
  arith,
  weights-set p.threads i tested asleep here,
  stopped-rests n (become i asleep p) p'' stop ss,
)
stopped-rests _ p p'' stop (ends_task n i f _ _ here ss) = omega (
  arith,
  weights-set p.threads i (running f) ready here,
  stopped-rests n (become i ready p) p'' stop ss,
)
