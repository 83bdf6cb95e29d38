-- ===== src/TcpServer/Accounts.antt =====
-- What a server has told the loops of its connections (net/TcpServer.cpp).
use oula_server.Prelude.{
  Bool, zero, suc, length, refl, ◌⊎◌, inl, inr, Option-cases, ap, subst, ◌∙◌, lt→ltb, ◌>>=◌, false,
  ltb, leb, ◌==◌, if◌then◌else◌, Outcome, ok, ℕ, ◌+◌, ◌^◌, ◌≤◌, ◌<◌, ◌≡◌, true, ◌&&◌, Option, none,
  some, List, [], ◌∷◌, arith,
}
use oula_server.Prelude.Int.{negsuc, ℤ, pos, insert, erase, is_none}
use oula_server.EventLoopThreadPool.RoundRobin.{Ready, next_step, advanced, advanced-Ready}
use oula_server.EventLoopThreadPool
use oula_server.EventLoopThreadPool.{start_loops, get_next_loop, Pool}
use oula_server.Timestamp.{to_int}
use oula_server.EventLoopThreadPool.{rounds}
use oula_server.TcpServer.{
  new, start, set_thread_num, new_connection, remove_connection_in_loop, Connection, Task,
  connect_established, connect_destroyed, TcpServer,
}

pub data Event : Type 0 where
  accepted : ℕ → Event
  closed : ℕ → Event

abbrev pub close_known : Option Connection → TcpServer → Outcome TcpServer
close_known none s = ok s
close_known (some conn) s = remove_connection_in_loop true conn s

-- A connection of the table closes under its name; one that is gone has no callback left.
unfoldable pub on_event : Event → TcpServer → Outcome TcpServer
on_event (accepted sockfd) s = new_connection true sockfd s
on_event (closed name) s = close_known (s.connections (pos name)) s

unfoldable pub on_events : List Event → TcpServer → Outcome TcpServer
on_events [] s = ok s
on_events (e ∷ es) s = on_event e s >>= λ s'. on_events es s'

abbrev pub says_established : ℕ → Task → ℕ
says_established n (connect_established m) = if m == n then 1 else 0
says_established n (connect_destroyed m) = 0

abbrev pub says_destroyed : ℕ → Task → ℕ
says_destroyed n (connect_established m) = 0
says_destroyed n (connect_destroyed m) = if m == n then 1 else 0

-- How often the loops were told so of the connection `n`
abbrev pub total : (Task → ℕ) → List (ℕ × Task) → ℕ
total f [] = 0
total f ((l, t) ∷ ts) = f t + total f ts

abbrev pub lives : ℕ → TcpServer → ℕ
lives n s = if is_none (s.connections (pos n)) then 0 else 1

abbrev Named : Option Connection → ℕ → Type 0
Named none n = Unit {0}
Named (some conn) n = conn.name ≡ n

-- A pool that was started, with loops of its own or without
abbrev pub Usable : Pool → Type 0
Usable t = Ready t ⊎ ((t.started ≡ true) × (t.loops ≡ []))

Usable-next : (t : Pool) → Usable t → (r : Pool × ℕ) × (get_next_loop true t ≡ ok r) × Usable r.0
unfolding get_next_loop
Usable-next t (inl r) =
    let (l, run, e) = next_step t r in ((advanced t, l), run, inl (advanced-Ready t r))
Usable-next t (inr (on, e)) = ((t, t.baseloop), simp (on, e), inr (on, e))

pub record Inv (s : TcpServer) : Type 0 where
  pub pool_usable : Usable s.thread_pool
  pub first_id : 1 ≤ s.next_conn_id
  pub names : (n : ℕ) → Named (s.connections (pos n)) n
  pub young : (n : ℕ) → s.next_conn_id ≤ n → s.connections (pos n) ≡ none
  pub established :
      (n : ℕ)
      → total (says_established n) s.posted ≡ (if leb 1 n && ltb n s.next_conn_id then 1 else 0)
  pub accounts :
      (n : ℕ) → total (says_established n) s.posted ≡ total (says_destroyed n) s.posted + lives n s

length-start_loops : (f : ℕ → ℕ) (i n : ℕ) → length (start_loops f i n) ≡ n
length-start_loops f i zero = refl
length-start_loops f i (suc n) = ap suc (length-start_loops f (i + 1) n)

-- `start` in the loop's thread on a new server, whatever number `setThreadNum` was given: it returns, the
-- acceptor listens, no connection is in the table, no loop was told of any, and the books are right. The
-- pool is started with one loop for each thread, when the number is below 2^31: otherwise the int that
-- the number is converted to counts, and a negative one gives none.
pub start-Inv :
    (base n : ℕ) (start_loop : ℕ → ℕ) (has_cb : Bool)
    → (s : TcpServer) × (start true start_loop has_cb (set_thread_num (new base) n) ≡ ok s)
      × (s.listening ≡ true)
      × ((k : ℤ) → s.connections k ≡ none)
      × (s.posted ≡ [])
      × Inv s
      × (s.thread_pool.started ≡ true)
      × (length s.thread_pool.loops ≡ rounds (to_int n))
      × (n < 2 ^ 31 → length s.thread_pool.loops ≡ n)
unfolding start set_thread_num new EventLoopThreadPool.start EventLoopThreadPool.new
    EventLoopThreadPool.set_thread_num
start-Inv base n start_loop has_cb = (
  ready,
  refl,
  refl,
  λ k. refl,
  refl,
  record {
    pool_usable = usable (to_int n);
    first_id = omega arith;
    names = λ m. tt;
    young = λ m h. refl;
    established = λ m. ground arith;
    accounts = λ m. refl;
  },
  refl,
  length-start_loops start_loop 0 (rounds (to_int n)),
  λ small. length-start_loops start_loop 0 (rounds (to_int n)) ∙ as_given small,
)
  where
    as_given : n < 2 ^ 31 → rounds (to_int n) ≡ n
    as_given h = ground arith

    ready : TcpServer
    ready = record (new base) {
      listening = true;
      thread_pool = record (EventLoopThreadPool.new base) {
        started = true;
        num_threads = to_int n;
        loops = start_loops start_loop 0 (rounds (to_int n));
      };
    }

    usable :
        (k : ℤ)
        → Usable (record (EventLoopThreadPool.new base) {
          started = true;
          num_threads = k;
          loops = start_loops start_loop 0 (rounds k);
        })
    usable (pos zero) = inr (refl, refl)
    usable (negsuc k) = inr (refl, refl)
    usable (pos (suc k)) = inl (record {
      is_started = refl;
      has_loop = omega (arith, length-start_loops start_loop 0 (suc k));
    })

accepted-Inv :
    (s : TcpServer) (sockfd loop : ℕ) (pool : Pool) (conn : Connection)
    → Inv s
    → Usable pool
    → conn.name ≡ s.next_conn_id
    → Inv (record s {
      thread_pool = pool;
      connections = insert (pos s.next_conn_id) conn s.connections;
      posted = (loop, connect_established s.next_conn_id) ∷ s.posted;
      next_conn_id = s.next_conn_id + 1;
    })
accepted-Inv s sockfd loop pool conn v ready its = record {
  pool_usable = ready;
  first_id = omega arith;
  names = λ n. ground (arith, v.names n);
  young = λ n h. ground (arith, v.young n);
  established = λ n. ground (arith, v.established n, v.first_id);
  accounts = λ n. ground (arith, v.accounts n, v.young n, v.established n, v.first_id);
}

closed-Inv :
    (s : TcpServer) (conn : Connection)
    → Inv s
    → is_none (s.connections (pos conn.name)) ≡ false
    → Inv (record s {
      connections = erase (pos conn.name) s.connections;
      posted = (conn.loop, connect_destroyed conn.name) ∷ s.posted;
    })
closed-Inv s conn v there = record {
  pool_usable = v.pool_usable;
  first_id = v.first_id;
  names = λ n. ground (arith, v.names n);
  young = λ n h. ground (arith, v.young n);
  established = λ n. ground (arith, v.established n);
  accounts = λ n. ground (arith, v.accounts n);
}

accepted-returns :
    (s : TcpServer) (sockfd : ℕ)
    → Inv s
    → s.next_conn_id + 1 < 2 ^ 31
    → (s' : TcpServer) × (new_connection true sockfd s ≡ ok s')
      × Inv s'
      × (s'.next_conn_id ≡ s.next_conn_id + 1)
unfolding new_connection
accepted-returns s sockfd v small =
    let (chosen, run, usable) = Usable-next s.thread_pool v.pool_usable in
    let conn : Connection = record {
      name = s.next_conn_id;
      sockfd = sockfd;
      loop = chosen.1;
      high_water_mark = s.high_water_mark;
    } in
    (
      record s {
        thread_pool = chosen.0;
        connections = insert (pos s.next_conn_id) conn s.connections;
        posted = (chosen.1, connect_established s.next_conn_id) ∷ s.posted;
        next_conn_id = s.next_conn_id + 1;
      },
      rw (run, lt→ltb (s.next_conn_id + 1) (2 ^ 31) small),
      accepted-Inv s sockfd chosen.1 chosen.0 conn v usable refl,
      refl,
    )

closed-returns :
    (s : TcpServer) (name : ℕ)
    → Inv s
    → (s' : TcpServer) × (close_known (s.connections (pos name)) s ≡ ok s')
      × Inv s'
      × (s'.next_conn_id ≡ s.next_conn_id)
unfolding remove_connection_in_loop
closed-returns s name v = elim (Option-cases (s.connections (pos name))) [
  | inl e ↦ (s, rw e, v, refl)
  | inr (conn, e) ↦
      let its : conn.name ≡ name = subst (λ o. Named o name) e (v.names name) in
      let there : is_none (s.connections (pos conn.name)) ≡ false = rw (its, e) in
      (
        record s {
          connections = erase (pos conn.name) s.connections;
          posted = (conn.loop, connect_destroyed conn.name) ∷ s.posted;
        },
        ap (λ o. close_known o s) e ∙ rw there,
        closed-Inv s conn v there,
        refl,
      )
]

-- A server that keeps its books, through any sequence of accepted sockets and closed connections that
-- does not use up the numbers of an int: every call returns, no assertion fails, and the books are
-- kept. So every connection ever accepted was told once that it is established, and once that it
-- is destroyed just when it left the table; no other connection was told anything.
pub on_events-Inv :
    (es : List Event) (s : TcpServer)
    → Inv s
    → s.next_conn_id + length es < 2 ^ 31
    → (s' : TcpServer) × (on_events es s ≡ ok s') × Inv s'
unfolding on_events on_event
on_events-Inv [] s v small = (s, refl, v)
on_events-Inv (accepted sockfd ∷ es) s v small =
    let (s₁, run, v₁, e) = accepted-returns s sockfd v (omega arith) in
    let (s₂, runs, v₂) = on_events-Inv es s₁ v₁ (rw e (omega arith)) in (s₂, rw (run, runs), v₂)
on_events-Inv (closed name ∷ es) s v small =
    let (s₁, run, v₁, e) = closed-returns s name v in
    let (s₂, runs, v₂) = on_events-Inv es s₁ v₁ (rw e (omega arith)) in (s₂, rw (run, runs), v₂)
