-- ===== src/TcpServer/Examples.antt =====
-- The server's books after some connections came and went.
use oula_server.Prelude.Int.{ℤ}
use oula_server.Prelude.{
  ◌^◌, ◌<◌, length, none, false, true, ◌+◌, ok, ◌≡◌, refl, inr, List, [], ◌∷◌, arith,
}
use oula_server.EventLoopThreadPool.{Pool}
use oula_server.EventLoopThreadPool
use oula_server.Timestamp.{to_int}
use oula_server.EventLoopThreadPool.{rounds}
use oula_server.TcpServer.{start, set_thread_num, TcpServer, new}
use oula_server.TcpServer.Accounts.{
  Event, accepted, closed, on_events, Inv, on_events-Inv, start-Inv,
}

abbrev fresh : TcpServer
fresh = record (new 1) {
  listening = true;
  thread_pool = record (EventLoopThreadPool.new 1) { started = true };
}

fresh-Inv : Inv fresh
unfolding new EventLoopThreadPool.new
fresh-Inv = record {
  pool_usable = inr (refl, refl);
  first_id = omega arith;
  names = λ n. tt;
  young = λ n h. refl;
  established = λ n. ground arith;
  accounts = λ n. refl;
}

abbrev traffic : List Event
traffic = accepted 30 ∷ accepted 31 ∷ closed 1 ∷ closed 1 ∷ accepted 30 ∷ closed 3 ∷ []

on_events-Inv_example : (s' : TcpServer) × (on_events traffic fresh ≡ ok s') × Inv s'
unfolding new
on_events-Inv_example = on_events-Inv traffic fresh fresh-Inv (omega arith)

start-Inv_example :
    (s : TcpServer) × (start true (λ i. i + 10) false (set_thread_num (new 1) 3) ≡ ok s)
    × (s.listening ≡ true)
    × ((k : ℤ) → s.connections k ≡ none)
    × (s.posted ≡ [])
    × Inv s
    × (s.thread_pool.started ≡ true)
    × (length s.thread_pool.loops ≡ rounds (to_int 3))
    × (3 < 2 ^ 31 → length s.thread_pool.loops ≡ 3)
start-Inv_example = start-Inv 1 3 (λ i. i + 10) false
