-- ===== src/EventLoop.antt =====
-- net/Eventloop.h and net/Eventloop.cpp: the loop's cycle and the functors that threads queue in it. A
-- functor is a number. The code of one thread is cut where another thread may come in between: each
-- definition is what happens under the mutex, or one access of shared state.
pub mod Wakeup
pub mod Timers
mod Examples
use oula_server.Prelude.{
  if◌then◌else◌, ℕ, ◌+◌, ◌-◌, Bool, true, false, not, ◌||◌, List, ◌∷◌, ◌++◌, [],
}

-- Where the loop's thread is: before `loop()`; then in `loop()` and `handlePendingFunctors()`: in `poll`;
-- in the handlers of the active channels; before the swap; among the functors it swapped out; after `quit_` was seen.
pub data Phase : Type 0 where
  starting polling handling calling running stopped : Phase

-- `batch` is the local vector of `handlePendingFunctors`. `wakeups` is the counter of the eventfd. For
-- the statements, `queued` and `ran` are all functors that were queued and run so far, in order, and
-- `direct` those that `runInLoop` ran at once, the latest first; `early` are the functors that the loop's
-- thread queued before `loop()` and that no pass has taken yet. `on_the_way` counts the
-- other threads that have pushed a functor and not yet written to the eventfd.
pub record EventLoop : Type 0 where
  pub phase : Phase
  pub quit : Bool
  pub pending_functors : List ℕ
  pub is_calling_pending_functors : Bool
  pub wakeups : ℕ
  pub batch : List ℕ
  pub on_the_way : ℕ
  pub queued : List ℕ
  pub ran : List ℕ
  pub direct : List ℕ
  pub early : List ℕ

unfoldable pub new : EventLoop
new = record {
  phase = starting;
  quit = false;
  pending_functors = [];
  is_calling_pending_functors = false;
  wakeups = 0;
  batch = [];
  on_the_way = 0;
  queued = [];
  ran = [];
  direct = [];
  early = [];
}

-- `pendingFunctors_.push_back(cb)`, under the mutex
abbrev pub push_functor : ℕ → EventLoop → EventLoop
push_functor f l = record l {
  pending_functors = l.pending_functors ++ f ∷ [];
  queued = l.queued ++ f ∷ [];
}

-- `WakeupToHandlePendingFunctors`: write(2) adds 1 to the counter.
unfoldable pub wakeup : EventLoop → EventLoop
wakeup l = record l { wakeups = l.wakeups + 1 }

-- The end of `queueInLoop`, after the mutex is free again.
unfoldable pub notify : Bool → EventLoop → EventLoop
notify here l = if not here || l.is_calling_pending_functors then wakeup l else l

-- `queueInLoop` of one thread without another in between
unfoldable pub queue_in_loop : Bool → ℕ → EventLoop → EventLoop
queue_in_loop here f l = notify here (push_functor f l)

unfoldable pub run_in_loop : Bool → ℕ → EventLoop → EventLoop
run_in_loop here f l = if here then record l { direct = f ∷ l.direct } else queue_in_loop here f l

-- `queueInLoop` in the loop's thread before `loop()`
unfoldable pub queue_early : ℕ → EventLoop → EventLoop
queue_early f l = record (queue_in_loop true f l) { early = l.early ++ f ∷ [] }

-- `loop()` is called: the first test of `while(!quit_)`
unfoldable pub enter_loop : EventLoop → EventLoop
enter_loop l = record l { phase = if l.quit then stopped else polling }

-- Another thread's `queueInLoop`, in its two parts
unfoldable pub other_pushes : ℕ → EventLoop → EventLoop
other_pushes f l = record (push_functor f l) { on_the_way = l.on_the_way + 1 }

unfoldable pub other_notifies : EventLoop → EventLoop
other_notifies l = record (notify false l) { on_the_way = l.on_the_way - 1 }

-- `poll` returns, and the handlers of the active channels come next.
unfoldable pub poll_returns : EventLoop → EventLoop
poll_returns l = record l { phase = handling }

-- `handleWakeupChannelRaad`: read(2) takes the whole counter.
unfoldable pub handle_wakeup_channel_read : EventLoop → EventLoop
handle_wakeup_channel_read l = record l { wakeups = 0 }

-- `handlePendingFunctors`, in its parts: the flag, the swap under the mutex, one functor, the end
unfoldable pub begin_pending : EventLoop → EventLoop
begin_pending l = record l { phase = calling; is_calling_pending_functors = true }

unfoldable pub swap_pending : EventLoop → EventLoop
swap_pending l = record l {
  phase = running;
  batch = l.pending_functors;
  pending_functors = [];
  early = [];
}

abbrev pub run_first : List ℕ → EventLoop → EventLoop
run_first [] l = l
run_first (f ∷ fs) l = record l { batch = fs; ran = l.ran ++ f ∷ [] }

unfoldable pub run_functor : EventLoop → EventLoop
run_functor l = run_first l.batch l

-- The end of `handlePendingFunctors`, and the test of `while(!quit_)`
unfoldable pub end_pending : EventLoop → EventLoop
end_pending l = record l {
  phase = if l.quit then stopped else polling;
  is_calling_pending_functors = false;
}
