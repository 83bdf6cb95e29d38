-- ===== src/EventLoopThreadPool.antt =====
-- net/EventLoopThreadPool.h and net/EventLoopThreadPool.cpp: the loops that connections are spread
-- over. An `EventLoop*` is a number; `startLoop` of the i-th thread is a parameter.
pub mod RoundRobin
mod Examples
use oula_server.Prelude.{
  ◌==◌, if◌then◌else◌, length, get_elem?, Outcome, assert, in_loop, out_of_bounds, ok, fault, ℕ,
  zero, suc, ◌+◌, ◌%◌, Bool, true, false, not, ◌&&◌, Option, none, some, List, ◌∷◌, ◌++◌, [], ◌>>=◌,
  ◌>>◌,
}
use oula_server.Prelude.Int.{ℤ, pos, negsuc, eqb}

-- `next_loop_idx` is an int of the source that never leaves the range of `loops`.
pub record Pool : Type 0 where
  pub baseloop : ℕ
  pub started : Bool
  pub num_threads : ℤ
  pub next_loop_idx : ℕ
  pub loops : List ℕ

unfoldable pub new : ℕ → Pool
new baseloop = record {
  baseloop = baseloop;
  started = false;
  num_threads = pos 0;
  next_loop_idx = 0;
  loops = [];
}

unfoldable pub set_thread_num : Pool → ℤ → Pool
set_thread_num t n = record t { num_threads = n }

-- The loops of the threads i, i + 1, ..., of which `n` are left to start.
abbrev pub start_loops : (ℕ → ℕ) → ℕ → ℕ → List ℕ
start_loops start_loop i zero = []
start_loops start_loop i (suc n) = start_loop i ∷ start_loops start_loop (i + 1) n

-- How often `for(int i=0;i<numThreads_;i++)` runs its body
abbrev pub rounds : ℤ → ℕ
rounds (pos n) = n
rounds (negsuc n) = 0

-- `start`, with the loop, if any, that the callback is called on in this thread.
unfoldable pub start : Bool → (ℕ → ℕ) → Bool → Pool → Outcome (Pool × Option ℕ)
start here start_loop has_cb t = do
  assert (not t.started)
  in_loop here
  let t' = record t {
    started = true;
    loops = t.loops ++ start_loops start_loop 0 (rounds t.num_threads);
  }
  ok (t', if eqb t.num_threads (pos 0) && has_cb then some t.baseloop else none)

abbrev pub is_empty : List ℕ → Bool
is_empty [] = true
is_empty (x ∷ xs) = false

abbrev pub loop_at : Option ℕ → Outcome ℕ
loop_at none = fault out_of_bounds
loop_at (some l) = ok l

unfoldable pub get_next_loop : Bool → Pool → Outcome (Pool × ℕ)
get_next_loop here t = do
  in_loop here
  assert t.started
  let round_robin = (do
    loop ← loop_at (get_elem? t.loops t.next_loop_idx)
    ok (record t { next_loop_idx = (t.next_loop_idx + 1) % length t.loops }, loop))
  if is_empty t.loops then ok (t, t.baseloop) else round_robin

unfoldable pub get_all_loops : Bool → Pool → Outcome (List ℕ)
get_all_loops here t = do
  in_loop here
  assert t.started
  ok (if is_empty t.loops then t.baseloop ∷ [] else t.loops)
