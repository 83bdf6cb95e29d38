-- ===== src/TcpClient/Accounts.antt =====
-- Which connections a client of net/TcpClient.cpp has.
use oula_server.Prelude.{
  if◌then◌else◌, Bool-cases, Option-cases, some_eq, Outcome, Outcome-cases, ok, fault, ℕ, ◌+◌, ◌≡◌,
  refl, sym, ap, subst, ◌∙◌, inl, inr, Bool, true, false, Option, none, some, List, [], ◌∷◌,
}
use oula_server.Connector
use oula_server.Connector.{Connector, Errno, connected, is_connecting}
use oula_server.Connector.Runs
use oula_server.Connector.Sockets.{count}
use oula_server.Connector.Runs.{Act, act, started, restarted, stopped}
use oula_server.TcpConnection.Object.{
  writing, k_disconnecting, shuts_down, queue, Conn, is_open, is_disconnected, is_connected,
}
use oula_server.TcpConnection.Output.{shutdown, shutdown_in_loop, force_close}
use oula_server.TcpClient.{
  destroy_with, TcpClient, connect, disconnect, shutdown_connection, destroy,
}
use oula_server.TcpClient.Moves.{Quiet, AllOf, start_in_loop-Quiet}

abbrev pub AllClosed : List Conn → Type 0
AllClosed [] = Unit {0}
AllClosed (conn ∷ conns) = (is_disconnected conn.state ≡ true) × AllClosed conns

-- The descriptors of connections
abbrev pub fds : List Conn → List ℕ
fds [] = []
fds (conn ∷ conns) = conn.channel.fd ∷ fds conns

abbrev pub present : Option Conn → List ℕ
present none = []
present (some conn) = conn.channel.fd ∷ []

-- The connector is in a state that its events lead to. While there is a connection, it is open and the
-- connector is connected. What waits for `ConnectDestoryed` is closed. The connections have the
-- descriptors that were handed over, each as often as it was.
pub record Inv (client : TcpClient) : Type 0 where
  pub reached : Runs.Reached client.connector
  pub live :
      (conn : Conn)
      → client.connection ≡ some conn
      → (is_open conn.state ≡ true) × (client.connector.state ≡ connected)
  pub gone : AllClosed client.destroying
  pub sockets :
      (x : ℕ)
      → count x client.connector.handed_over
        ≡ count x (present client.connection)
          + count x (fds client.destroying)
          + count x (fds client.destroyed)

-- A call that returns leaves such a client.
abbrev pub Keeps : Outcome TcpClient → Type 0
Keeps (ok client) = Inv client
Keeps (fault e) = Unit {0}

pub holds :
    (P : Connector → Type 0) (m : Outcome Connector) (c : Connector) → m ≡ ok c → AllOf P m → P c
holds P m c e h = subst (AllOf P) e h

-- The connector made another step, and no socket was handed over.
pub quiet-Inv :
    (client : TcpClient) (c : Connector)
    → Inv client
    → Runs.Reached c
    → Quiet client.connector c
    → Inv (record client { connector = c })
quiet-Inv client c v r q = record {
  reached = r;
  live = λ conn h. let (o, s) = v.live conn h in (o, q.still s);
  gone = v.gone;
  sockets = λ x. ap (count x) q.same_sockets ∙ v.sockets x;
}

started_act :
    (here : Bool) (sockfd : ℕ) (save_error : Errno) (c c' : Connector)
    → Connector.start here sockfd save_error c ≡ ok c'
    → act (started here sockfd save_error) c ≡ ok c'
unfolding act
started_act here sockfd save_error c c' run = run

-- What another thread's `start` leaves
abbrev pub queued_start : Connector → Connector
queued_start c = record c { enable_connect = true; queued_starts = c.queued_starts + 1 }

started-Quiet :
    (here : Bool) (sockfd : ℕ) (save_error : Errno) (c c' : Connector)
    → Connector.start here sockfd save_error c ≡ ok c'
    → Quiet c c'
unfolding Connector.start
started-Quiet true sockfd save_error c c' run =
    let c₀ = record c { enable_connect = true } in
    let q = holds (Quiet c₀) _ c' run (start_in_loop-Quiet sockfd save_error c₀) in
    record { same_sockets = q.same_sockets; still = q.still }
started-Quiet false sockfd save_error c c' run =
    holds (Quiet c) (ok (queued_start c)) c' run (record { same_sockets = refl; still = λ e. e })

pub connect-Keeps :
    (here : Bool) (sockfd : ℕ) (save_error : Errno) (client : TcpClient)
    → Inv client
    → Keeps (connect here sockfd save_error client)
unfolding connect
connect-Keeps here sockfd save_error client v =
    elim (Outcome-cases (Connector.start here sockfd save_error client.connector)) [
      | inr (e, failed) ↦ rw failed tt
      | inl (c, run) ↦
          let v' =
            quiet-Inv client c v
              (Runs.then_did (started here sockfd save_error) v.reached tt
                (started_act here sockfd save_error client.connector c run))
              (started-Quiet here sockfd save_error client.connector c run) in
          rw run
            (record { reached = v'.reached; live = v'.live; gone = v'.gone; sockets = v'.sockets })
    ]

with_present :
    (client : TcpClient) (x : ℕ) {xs ys : List ℕ}
    → xs ≡ ys
    → count x xs + count x (fds client.destroying) + count x (fds client.destroyed)
      ≡ count x ys + count x (fds client.destroying) + count x (fds client.destroyed)
with_present client x e =
    ap (λ zs. count x zs + count x (fds client.destroying) + count x (fds client.destroyed)) e

-- The connection is shut down, or forced to close, and is still there.
open-Inv :
    (client : TcpClient) (conn conn' : Conn) (enable : Bool) (own : Bool)
    → Inv client
    → client.connection ≡ some conn
    → is_open conn'.state ≡ true
    → conn'.channel.fd ≡ conn.channel.fd
    → Inv (record client { connection = some conn'; enable_connect = enable; owned = own })
open-Inv client conn conn' enable own v here o same_fd = record {
  reached = v.reached;
  live = λ x h. (ap (λ (y : Conn). is_open y.state) (sym (some_eq h)) ∙ o, (v.live conn here).1);
  gone = v.gone;
  sockets =
      λ x. v.sockets x ∙ with_present client x (ap present here ∙ ap (λ fd. fd ∷ []) (sym same_fd));
}

shutdown_open :
    (here : Bool) (conn : Conn)
    → is_open conn.state ≡ true
    → (conn' : Conn) × (shutdown here conn ≡ ok conn')
      × (is_open conn'.state ≡ true)
      × (conn'.channel.fd ≡ conn.channel.fd)
unfolding shutdown shutdown_in_loop
shutdown_open here conn o = elim (Bool-cases (is_connected conn.state)) [
  | inr n ↦ (conn, rw n refl, o, refl)
  | inl y ↦ elim (Bool-cases here) [
    | inr away ↦
        (queue shuts_down (record conn { state = k_disconnecting }), rw (y, away) refl, refl, refl)
    | inl at_home ↦ elim (Bool-cases (writing conn)) [
      | inl w ↦ (record conn { state = k_disconnecting }, rw (y, at_home, w) refl, refl, refl)
      | inr w ↦ (
        record conn { state = k_disconnecting; write_shut = true },
        rw (y, at_home, w) refl,
        refl,
        refl,
      )
    ]
  ]
]

pub disconnect-Keeps :
    (here : Bool) (client : TcpClient) → Inv client → Keeps (disconnect here client)
unfolding disconnect
disconnect-Keeps here client v = elim (Option-cases client.connection) [
  | inl e ↦
      let run : shutdown_connection here client.connection ≡ ok none =
        ap (shutdown_connection here) e in
      rw run (record {
        reached = v.reached;
        live = λ conn h. absurd (cc);
        gone = v.gone;
        sockets = λ x. v.sockets x ∙ with_present client x (ap present e);
      })
  | inr (conn, e) ↦
      let (conn', run, o, same_fd) = shutdown_open here conn (v.live conn e).0 in
      let ran : shutdown_connection here client.connection ≡ ok (some conn') =
        ap (shutdown_connection here) e ∙ rw run refl in
      rw ran (open-Inv client conn conn' false client.owned v e o same_fd)
]

stopped_act : (c : Connector) → act stopped c ≡ ok (Connector.stop c)
unfolding act
stopped_act c = refl

stopped-Quiet : (c : Connector) → Quiet c (Connector.stop c)
unfolding Connector.stop
stopped-Quiet c = record { same_sockets = refl; still = λ e. e }

forced_open :
    (is_unique : Bool) (conn : Conn)
    → is_open conn.state ≡ true
    → is_open (if is_unique then force_close conn else conn).state ≡ true
unfolding force_close
forced_open is_unique conn o = elim (Bool-cases is_unique) [
  | inl y ↦ rw (y, o) refl
  | inr n ↦ rw n o
]

forced_fd :
    (is_unique : Bool) (conn : Conn)
    → (if is_unique then force_close conn else conn).channel.fd ≡ conn.channel.fd
unfolding force_close
forced_fd is_unique conn = elim (Bool-cases is_unique) [
  | inr n ↦ rw n refl
  | inl y ↦ elim (Bool-cases (is_open conn.state)) [
    | inl o ↦ rw (y, o) refl
    | inr o ↦ rw (y, o) refl
  ]
]

destroy_with-Inv :
    (is_unique : Bool) (o : Option Conn) (client : TcpClient)
    → Inv client
    → client.connection ≡ o
    → Inv (destroy_with is_unique o client)
destroy_with-Inv is_unique none client v e =
    let r = Runs.then_did stopped v.reached tt (stopped_act client.connector) in
    let v' =
      quiet-Inv client (Connector.stop client.connector) v r (stopped-Quiet client.connector) in
    record { reached = v'.reached; live = v'.live; gone = v'.gone; sockets = v'.sockets }
destroy_with-Inv is_unique (some conn) client v e =
    open-Inv client conn (if is_unique then force_close conn else conn) client.enable_connect false
      v e (forced_open is_unique conn (v.live conn e).0) (forced_fd is_unique conn)

pub destroy-Inv :
    (is_unique : Bool) (client : TcpClient) → Inv client → Inv (destroy is_unique client)
unfolding destroy
destroy-Inv is_unique client v = destroy_with-Inv is_unique client.connection client v refl
