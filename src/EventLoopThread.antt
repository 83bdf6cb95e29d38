-- ===== src/EventLoopThread.antt =====
-- net/EventLoopThread.h and net/EventLoopThread.cpp: a thread with a loop of its own, and the thread that
-- starts it. The code is cut where the other thread may come in between.
pub mod Handover
mod Examples
use oula_server.Prelude.{
  Outcome, assert, ok, ℕ, Bool, true, false, not, Option, none, some, ◌>>=◌, ◌>>◌,
}

-- Where the new thread is: not started; before it publishes its loop; in `ioLoop.loop()`; after that,
-- before it takes the loop back; at its end
pub data Worker : Type 0 where
  not_started preparing looping quitting ended : Worker

-- Where the thread of `startLoop` is: before the call; about to test the predicate of `wait`; blocked in
-- it; returned, with the pointer
pub data Starter : Type 0 where
  idle testing asleep : Starter
  returned : Option ℕ → Starter

-- `io_loop` is the address of the thread's own loop. `thread` says whether `thread_` is set.
pub record EventLoopThread : Type 0 where
  pub loop : Option ℕ
  pub thread : Bool
  pub io_loop : ℕ
  pub worker : Worker
  pub starter : Starter

-- The constructor, with the address that the loop will have
unfoldable pub new : ℕ → EventLoopThread
new io_loop = record {
  loop = none;
  thread = false;
  io_loop = io_loop;
  worker = not_started;
  starter = idle;
}

-- `startLoop` up to the mutex: `assert(!thread_)`, and the new thread
unfoldable pub start_loop : EventLoopThread → Outcome EventLoopThread
start_loop t = do
  assert (not t.thread)
  ok (record t { thread = true; worker = preparing; starter = testing })

-- The predicate of `wait`, and what follows when it holds
abbrev pub test_loop : Option ℕ → Starter
test_loop none = asleep
test_loop (some l) = returned (some l)

unfoldable pub wait_loop : EventLoopThread → EventLoopThread
wait_loop t = record t { starter = test_loop t.loop }

abbrev pub wake : Starter → Starter
wake asleep = testing
wake starter = starter

-- `threadFunc` under its first lock: `loop_ = &ioLoop` and `notify_one`
unfoldable pub publish : EventLoopThread → EventLoopThread
publish t = record t { loop = some t.io_loop; worker = looping; starter = wake t.starter }

-- `ioLoop.loop()` returns.
unfoldable pub loop_ends : EventLoopThread → EventLoopThread
loop_ends t = record t { worker = quitting }

-- `threadFunc` under its second lock
unfoldable pub take_back : EventLoopThread → EventLoopThread
take_back t = record t { loop = none; worker = ended }

-- The destructor joins the thread only while there is a loop.
unfoldable pub destructor_joins : EventLoopThread → Bool
destructor_joins t = joins t.loop
  where
    joins : Option ℕ → Bool
    joins none = false
    joins (some l) = t.thread
