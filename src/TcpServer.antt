-- ===== src/TcpServer.antt =====
-- net/TcpServer.h and net/TcpServer.cpp: the server's table of connections. A connection's name, the
-- decimal numeral of its number, is that number. `posted` records, the latest first, the tasks that the
-- server gives to the connections' loops.
pub mod Accounts
mod Examples
use oula_server.Prelude.{
  ltb, if◌then◌else◌, Outcome, assert, in_loop, int_overflow, ok, fault, ℕ, ◌+◌, ◌*◌, ◌^◌, Bool,
  true, false, not, none, List, ◌∷◌, [], ◌>>=◌, ◌>>◌,
}
use oula_server.Prelude.Int.{ℤ, pos, IntMap, insert, erase, is_none}
use oula_server.Timestamp.{to_int}
use oula_server.EventLoopThreadPool.{Pool, get_next_loop}
use oula_server.EventLoopThreadPool

-- The server's part of a `TcpConnection`. The callbacks and the high-water mark are the same for all.
pub record Connection : Type 0 where
  pub name : ℕ
  pub sockfd : ℕ
  pub loop : ℕ
  pub high_water_mark : ℕ

-- `ConnectEstablished` and `ConnectDestoryed` of the connection with that name
pub data Task : Type 0 where
  connect_established connect_destroyed : ℕ → Task

pub record TcpServer : Type 0 where
  pub eventloop : ℕ
  pub listening : Bool
  pub connections : IntMap Connection
  pub next_conn_id : ℕ
  pub thread_pool : Pool
  pub high_water_mark : ℕ
  pub posted : List (ℕ × Task)

unfoldable pub new : ℕ → TcpServer
new eventloop = record {
  eventloop = eventloop;
  listening = false;
  connections = λ k. none;
  next_conn_id = 1;
  thread_pool = EventLoopThreadPool.new eventloop;
  high_water_mark = 64 * 1024;
  posted = [];
}

-- `setThreadNum`, whose size_t becomes an int when the pool takes it
unfoldable pub set_thread_num : TcpServer → ℕ → TcpServer
set_thread_num s n = record s {
  thread_pool = EventLoopThreadPool.set_thread_num s.thread_pool (to_int n);
}

unfoldable pub set_high_water_mark_callback : TcpServer → ℕ → TcpServer
set_high_water_mark_callback s n = record s { high_water_mark = n }

-- `start`, in the thread of the server's loop, where `runInLoop` makes the acceptor listen at once
unfoldable pub start : Bool → (ℕ → ℕ) → Bool → TcpServer → Outcome TcpServer
start here start_loop has_cb s = do
  started ← EventLoopThreadPool.start here start_loop has_cb s.thread_pool
  assert (not s.listening)
  ok (record s { thread_pool = started.0; listening = true })

-- `++nextConnId_`, of an int
abbrev pub next_id : ℕ → Outcome ℕ
next_id n = if ltb (n + 1) (2 ^ 31) then ok (n + 1) else fault int_overflow

unfoldable pub new_connection : Bool → ℕ → TcpServer → Outcome TcpServer
new_connection here sockfd s = do
  in_loop here
  chosen ← get_next_loop here s.thread_pool
  let conn : Connection = record {
    name = s.next_conn_id;
    sockfd = sockfd;
    loop = chosen.1;
    high_water_mark = s.high_water_mark;
  }
  next ← next_id s.next_conn_id
  ok (record s {
    thread_pool = chosen.0;
    connections = insert (pos s.next_conn_id) conn s.connections;
    posted = (chosen.1, connect_established s.next_conn_id) ∷ s.posted;
    next_conn_id = next;
  })

-- `removeConnection` runs it in the thread of the server's loop.
unfoldable pub remove_connection_in_loop : Bool → Connection → TcpServer → Outcome TcpServer
remove_connection_in_loop here conn s = do
  in_loop here
  assert (not (is_none (s.connections (pos conn.name))))
  ok (record s {
    connections = erase (pos conn.name) s.connections;
    posted = (conn.loop, connect_destroyed conn.name) ∷ s.posted;
  })
