-- ===== src/ThreadPool.antt =====
-- threadpool/threadpool.h and threadpool/threadpool.cpp: worker threads over one queue of tasks. A task
-- is a number. The code of a thread is cut where another thread may come in between: each definition
-- is what happens under the mutex, or one access of shared state.
pub mod Schedule
pub mod Invariant
pub mod Draining
pub mod Shutdown
pub mod Missed
pub mod Ending
mod Examples
use oula_server.Prelude.{
  if◌then◌else◌, set, replicate, Outcome, out_of_bounds, ok, fault, ℕ, zero, suc, Bool, true, false,
  not, ◌&&◌, ◌||◌, Option, none, some, List, ◌∷◌, ◌++◌, map, [],
}

-- Where a worker is in `threadFunc`: before it takes the mutex; in `wait`, where it holds the mutex and
-- has seen that its predicate is false; blocked, without the mutex; in its task; returned.
pub data Worker : Type 0 where
  ready tested asleep finished : Worker
  running : ℕ → Worker

-- Where the destructor is: not called; after `m_bStop.store`; after `notify_all`; returned
pub data Phase : Type 0 where
  alive stopping joining joined : Phase

-- For the statements, `added` and `begun` are all tasks that were added and begun so far, in order.
pub record ThreadPool : Type 0 where
  pub threads : List Worker
  pub task_queue : List ℕ
  pub stop : Bool
  pub phase : Phase
  pub added : List ℕ
  pub begun : List ℕ

-- The constructor
unfoldable pub new : ℕ → ThreadPool
new thread_num = record {
  threads = replicate thread_num ready;
  task_queue = [];
  stop = false;
  phase = alive;
  added = [];
  begun = [];
}

-- `GetInstance`, over `m_pInstance`
unfoldable pub get_instance : Option ThreadPool → ThreadPool
get_instance none = new 4
get_instance (some pool) = pool

abbrev pub is_empty : List ℕ → Bool
is_empty [] = true
is_empty (f ∷ fs) = false

abbrev pub become : ℕ → Worker → ThreadPool → ThreadPool
become i worker pool = record pool { threads = set pool.threads i worker }

-- What a notification does to a worker
abbrev pub wake : Worker → Worker
wake ready = ready
wake tested = tested
wake asleep = ready
wake finished = finished
wake (running f) = running f

-- `notify_one`, which wakes the thread `k` if that sleeps
abbrev pub notify_one : ℕ → List Worker → List Worker
notify_one k [] = []
notify_one zero (w ∷ ws) = wake w ∷ ws
notify_one (suc k) (w ∷ ws) = w ∷ notify_one k ws

-- `addTask`, which holds the mutex throughout
unfoldable pub add_task : ℕ → ℕ → ThreadPool → ThreadPool
add_task f k pool = record pool {
  task_queue = pool.task_queue ++ f ∷ [];
  threads = notify_one k pool.threads;
  added = pool.added ++ f ∷ [];
}

-- `front` and `pop`; there is nothing at the front of an empty queue.
abbrev pub pop_front : ℕ → List ℕ → ThreadPool → Outcome ThreadPool
pop_front i [] pool = fault out_of_bounds
pop_front i (f ∷ fs) pool = ok (record pool {
  task_queue = fs;
  threads = set pool.threads i (running f);
  begun = pool.begun ++ f ∷ [];
})

-- The part of `threadFunc` under the mutex, for the thread `i`: the predicate of `wait`, and what follows it
unfoldable pub thread_func : ℕ → ThreadPool → Outcome ThreadPool
thread_func i pool =
    if pool.stop || not (is_empty pool.task_queue)
    then (if pool.stop && is_empty pool.task_queue
        then ok (become i finished pool)
        else pop_front i pool.task_queue pool)
    else ok (become i tested pool)

-- The destructor: `m_bStop.store`, `notify_all`, and the end of the loop of `join`
unfoldable pub store_stop : ThreadPool → ThreadPool
store_stop pool = record pool { stop = true; phase = stopping }

unfoldable pub notify_all : ThreadPool → ThreadPool
notify_all pool = record pool { threads = map wake pool.threads; phase = joining }

unfoldable pub join_all : ThreadPool → ThreadPool
join_all pool = record pool { phase = joined }
