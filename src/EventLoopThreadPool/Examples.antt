-- ===== src/EventLoopThreadPool/Examples.antt =====
-- The order of a pool of three loops.
use oula_server.Prelude.Int.{pos}
use oula_server.Prelude.{
  length, get_elem?, ok, ℕ, ◌+◌, ◌%◌, ◌<◌, ◌≡◌, refl, true, List, [], ◌∷◌, arith,
}
use oula_server.EventLoopThreadPool.{Pool}
use oula_server.EventLoopThreadPool.RoundRobin.{next_loops, Ready, next_loops-round_robin}

abbrev three : Pool
three = record {
  baseloop = 1;
  started = true;
  num_threads = pos 3;
  next_loop_idx = 2;
  loops = 10 ∷ 20 ∷ 30 ∷ [];
}

next_loops-round_robin_example :
    (r : Pool × List ℕ) × (next_loops 5 three ≡ ok r)
    × Ready r.0
    × (r.0.loops ≡ three.loops)
    × (length r.1 ≡ 5)
    × ((j : ℕ) → j < 5 → get_elem? r.1 j ≡ get_elem? three.loops ((2 + j) % 3))
next_loops-round_robin_example =
    next_loops-round_robin 5 three (record { is_started = refl; has_loop = omega arith })
