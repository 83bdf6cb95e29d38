-- ===== src/ThreadPool/Schedule.antt =====
-- The workers of threadpool/threadpool.cpp under any interleaving.
use oula_server.Prelude.{
  ◌==◌, if◌then◌else◌, ==_iff, Bool-cases, get_elem?, set, get_elem?-set_ne, ok, ℕ, zero, suc, ◌<◌,
  ◌≡◌, refl, ap, ◌≢◌, ◌⊎◌, inl, inr, Bool, true, false, Option, none, some, List, [], ◌∷◌, ◌++◌,
  map, arith,
}
use oula_server.ThreadPool.{
  Worker, ready, tested, asleep, finished, running, Phase, alive, stopping, joining, ThreadPool,
  new, is_empty, become, wake, notify_one, add_task, thread_func, store_stop, notify_all, join_all,
}

abbrev pub At : ThreadPool → ℕ → Worker → Type 0
At pool i w = get_elem? pool.threads i ≡ some w

-- No thread is between its test and the wait, where it has the mutex.
abbrev pub MutexFree : ThreadPool → Type 0
MutexFree pool = (i : ℕ) → get_elem? pool.threads i ≢ some tested

-- `notify_one` wakes a thread, unless none sleeps.
abbrev pub WokenOne : ThreadPool → ℕ → Type 0
WokenOne pool k = At pool k asleep ⊎ ((i : ℕ) → get_elem? pool.threads i ≢ some asleep)

-- Before the destructor any thread adds tasks, and after that only the tasks do.
abbrev pub MayAdd : ThreadPool → Type 0
MayAdd pool = (pool.phase ≡ alive) ⊎ ((i : ℕ) × (f : ℕ) × At pool i (running f))

-- One step of some thread. `wakes` is a wake-up without a notification.
pub data Step : ThreadPool → ThreadPool → Type 0 where
  adds :
      (p : ThreadPool) (f k : ℕ) → MayAdd p → MutexFree p → WokenOne p k → Step p (add_task f k p)
  enters :
      (p p' : ThreadPool) (i : ℕ) → MutexFree p → At p i ready → thread_func i p ≡ ok p' → Step p p'
  blocks : (p : ThreadPool) (i : ℕ) → At p i tested → Step p (become i asleep p)
  wakes : (p : ThreadPool) (i : ℕ) → At p i asleep → Step p (become i ready p)
  ends_task : (p : ThreadPool) (i f : ℕ) → At p i (running f) → Step p (become i ready p)
  stops : (p : ThreadPool) → p.phase ≡ alive → Step p (store_stop p)
  notifies : (p : ThreadPool) → p.phase ≡ stopping → Step p (notify_all p)
  joins :
      (p : ThreadPool)
      → p.phase ≡ joining
      → ((i : ℕ) (w : Worker) → At p i w → w ≡ finished)
      → Step p (join_all p)

pub data Reached : ThreadPool → Type 0 where
  at_first : (thread_num : ℕ) → 0 < thread_num → Reached (new thread_num)
  then_step : {p p' : ThreadPool} → Reached p → Step p p' → Reached p'

abbrev pub is_awake : Option Worker → Bool
is_awake (some ready) = true
is_awake (some (running f)) = true
is_awake _ = false

abbrev pub stop_at : Phase → Bool
stop_at alive = false
stop_at _ = true

-- The tasks in the queue are those that were added and not begun. A thread that holds the mutex or
-- returned has seen an empty queue, and as long as there is a task some thread is awake to take it.
pub record Inv (pool : ThreadPool) : Type 0 where
  pub order : pool.added ≡ pool.begun ++ pool.task_queue
  pub flag : pool.stop ≡ stop_at pool.phase
  pub returned : (i : ℕ) → At pool i finished → pool.stop ≡ true
  pub testing : (i : ℕ) → At pool i tested → is_empty pool.task_queue ≡ true
  pub awake :
      is_empty pool.task_queue ≡ false → (i : ℕ) × (is_awake (get_elem? pool.threads i) ≡ true)
  pub some_thread : (w : Worker) × At pool 0 w

-- A thread and the others after one of them changed
changed_here :
    (ws : List Worker) (i : ℕ) (v w : Worker)
    → get_elem? ws i ≡ some v
    → get_elem? (set ws i w) i ≡ some w
changed_here [] i v w h = absurd (cc)
changed_here (x ∷ ws) zero v w h = refl
changed_here (x ∷ ws) (suc i) v w h = changed_here ws i v w h

pub changed :
    (ws : List Worker) (i j : ℕ) (v w : Worker)
    → get_elem? ws i ≡ some v
    → get_elem? (set ws i w) j ≡ (if i == j then some w else get_elem? ws j)
changed ws i j v w h = elim (Bool-cases (i == j)) [
  | inl e ↦ rw (e, ← (==_iff i j).0 e) (changed_here ws i v w h)
  | inr n ↦ rw n (get_elem?-set_ne ws i j w (λ e. ground (arith, ==_iff i j)))
]

-- A notification of one thread, and of all
abbrev pub wake_one : Option Worker → Option Worker
wake_one none = none
wake_one (some w) = some (wake w)

notified_here :
    (k : ℕ) (ws : List Worker) → get_elem? (notify_one k ws) k ≡ wake_one (get_elem? ws k)
notified_here k [] = refl
notified_here zero (w ∷ ws) = refl
notified_here (suc k) (w ∷ ws) = notified_here k ws

notified_other :
    (k : ℕ) (ws : List Worker) (j : ℕ) → k ≢ j → get_elem? (notify_one k ws) j ≡ get_elem? ws j
notified_other k [] j n = refl
notified_other zero (w ∷ ws) zero n = absurd (n refl)
notified_other zero (w ∷ ws) (suc j) n = refl
notified_other (suc k) (w ∷ ws) zero n = refl
notified_other (suc k) (w ∷ ws) (suc j) n = notified_other k ws j (λ e. n (ap suc e))

pub notified :
    (k : ℕ) (ws : List Worker) (j : ℕ)
    → get_elem? (notify_one k ws) j ≡ (if k == j then wake_one (get_elem? ws j) else get_elem? ws j)
notified k ws j = elim (Bool-cases (k == j)) [
  | inl e ↦ rw (e, ← (==_iff k j).0 e) (notified_here k ws)
  | inr n ↦ rw n (notified_other k ws j (λ e. ground (arith, ==_iff k j)))
]

pub all_notified :
    (ws : List Worker) (j : ℕ) → get_elem? (map wake ws) j ≡ wake_one (get_elem? ws j)
all_notified [] j = refl
all_notified (w ∷ ws) zero = refl
all_notified (w ∷ ws) (suc j) = all_notified ws j
