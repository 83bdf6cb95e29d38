-- ===== src/TcpClient/Handover.antt =====
-- What net/TcpClient.cpp does with a new socket and with a closed connection.
use oula_server.Prelude.Int.{is_none}
use oula_server.Prelude.{
  ◌+◌, if◌then◌else◌, ==_refl, Option-cases, length, Outcome, ◌>>=◌, Outcome-cases, ok, ℕ, ◌≡◌,
  refl, ap, ◌∙◌, inl, inr, Bool, true, false, not, ◌&&◌, none, some, List, [], ◌∷◌, ◌++◌, arith,
}
use oula_server.Connector
use oula_server.Connector.{
  disconnected, init_retry_delay_ms, Connector, Errno, connected, connecting_now, is_connecting,
}
use oula_server.Connector.Runs
use oula_server.Connector.Runs.{
  retried, writable, reset_ran, stop_ran, writable, retried, Act, act, started, restarted, stopped,
}
use oula_server.TcpConnection.Object.{Conn, is_open, is_disconnected}
use oula_server.TcpClient.{TcpClient, queue_destroy, remove_connection, new_socket}
use oula_server.TcpClient.Moves.{start_in_loop-SameSockets}
use oula_server.Connector.Sockets.{count}
use oula_server.TcpClient.Accounts.{fds, Inv, AllClosed, present, Keeps, holds}

-- A connection callback of the user returns, neither opens nor ends the connection, and leaves it its
-- descriptor.
abbrev pub Polite : (Conn → Outcome Conn) → Type 0
Polite callback =
    (c : Conn)
    → (c' : Conn) × (callback c ≡ ok c')
      × (is_open c'.state ≡ is_open c.state)
      × (is_disconnected c'.state ≡ is_disconnected c.state)
      × (c'.channel.fd ≡ c.channel.fd)

pub no_new_socket : (xs : List ℕ) → new_socket (length xs) xs ≡ none
no_new_socket [] = refl
no_new_socket (x ∷ xs) = ground arith

pub one_new_socket : (x : ℕ) (xs : List ℕ) → new_socket (length xs) (x ∷ xs) ≡ some x
one_new_socket x xs = rw (==_refl (length xs)) refl

pub AllClosed-append :
    (conns : List Conn) (conn : Conn)
    → AllClosed conns
    → is_disconnected conn.state ≡ true
    → AllClosed (conns ++ conn ∷ [])
AllClosed-append [] conn all h = (h, tt)
AllClosed-append (c ∷ conns) conn (first, all) h = (first, AllClosed-append conns conn all h)

count-fds_append :
    (x : ℕ) (conns : List Conn) (conn : Conn)
    → count x (fds (conns ++ conn ∷ [])) ≡ count x (fds conns) + count x (conn.channel.fd ∷ [])
count-fds_append x [] conn = omega arith
count-fds_append x (c ∷ conns) conn = omega (arith, count-fds_append x conns conn)

-- The closed connection waits for `ConnectDestoryed`.
pub queue_destroy-Inv :
    (client : TcpClient) (conn conn' : Conn)
    → Inv client
    → client.connection ≡ some conn
    → is_disconnected conn'.state ≡ true
    → conn'.channel.fd ≡ conn.channel.fd
    → Inv (queue_destroy conn' client)
queue_destroy-Inv client conn conn' v here h same_fd = record {
  reached = v.reached;
  live = λ c e. absurd (cc);
  gone = AllClosed-append client.destroying conn' v.gone h;
  sockets = λ x. omega (
    arith,
    v.sockets x,
    ap (λ o. count x (present o)) here,
    ap (λ fd. count x (fd ∷ [])) same_fd,
    count-fds_append x client.destroying conn',
  );
}

pub restarted_act :
    (sockfd : ℕ) (save_error : Errno) (c c' : Connector)
    → Connector.restart true sockfd save_error c ≡ ok c'
    → act (restarted sockfd save_error) c ≡ ok c'
unfolding act
restarted_act sockfd save_error c c' run = run

pub restarted_sockets :
    (sockfd : ℕ) (save_error : Errno) (c c' : Connector)
    → Connector.restart true sockfd save_error c ≡ ok c'
    → c'.handed_over ≡ c.handed_over
unfolding Connector.restart
restarted_sockets sockfd save_error c c' run =
    let c₀ = record c {
      state = disconnected;
      retry_delay_ms = init_retry_delay_ms;
      enable_connect = true;
    } in
    holds (λ x. x.handed_over ≡ c₀.handed_over) _ c' run
      (start_in_loop-SameSockets sockfd save_error c₀)

pub Keeps-if : (b : Bool) (m n : Outcome TcpClient) → Keeps m → Keeps n → Keeps (if b then m else n)
Keeps-if true m n f g = f
Keeps-if false m n f g = g

-- The client lets go of the closed connection, and starts again if it is to.
pub remove_connection-Keeps :
    (sockfd : ℕ) (save_error : Errno) (client : TcpClient) (conn conn' : Conn)
    → Inv client
    → client.connection ≡ some conn
    → is_disconnected conn'.state ≡ true
    → conn'.channel.fd ≡ conn.channel.fd
    → Keeps (remove_connection true sockfd save_error conn' client)
unfolding remove_connection
remove_connection-Keeps sockfd save_error client conn conn' v here over same_fd =
    let known : not (is_none client.connection) ≡ true = ap (λ o. not (is_none o)) here in
    let q = queue_destroy-Inv client conn conn' v here over same_fd in
    rw known (Keeps-if (client.retry && client.enable_connect) _ _ reconnected q)
  where
    reconnected : Keeps (
        Connector.restart true sockfd save_error client.connector
        >>= (λ c. ok (record (queue_destroy conn' client) { connector = c })))
    reconnected = elim (Outcome-cases (Connector.restart true sockfd save_error client.connector)) [
      | inr (e, failed) ↦ rw failed tt
      | inl (c, run) ↦
          let q = queue_destroy-Inv client conn conn' v here over same_fd in
          let fits : is_connecting client.connector.state ≡ false =
            ap is_connecting (v.live conn here).1 in
          rw run (record {
            reached =
                Runs.then_did (restarted sockfd save_error) v.reached fits
                  (restarted_act sockfd save_error client.connector c run);
            live = λ x h. absurd (cc);
            gone = q.gone;
            sockets = λ x.
                ap (count x) (restarted_sockets sockfd save_error client.connector c run)
                ∙ q.sockets x;
          })
    ]

pub no_connection :
    (client : TcpClient)
    → Inv client
    → client.connector.state ≡ connecting_now
    → client.connection ≡ none
no_connection client v busy = elim (Option-cases client.connection) [
  | inl e ↦ e
  | inr (conn, e) ↦ absurd (cc ((v.live conn e).1))
]
