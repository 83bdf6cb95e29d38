-- ===== src/TcpClient/Reconnect.antt =====
-- `connect` of net/TcpClient.cpp after a connection.
use oula_server.Prelude.Int.{is_none}
use oula_server.Prelude.{
  ◌==◌, ◌+◌, if◌then◌else◌, Outcome, assert_failed, ok, fault, ℕ, ◌≡◌, refl, ap, subst, ◌∙◌, Bool,
  true, false, ◌&&◌, some, arith,
}
use oula_server.Connector
use oula_server.Connector.Runs.{act, start_ran}
use oula_server.Connector.{Connector, Errno, connected, is_disconnected}
use oula_server.TcpConnection.Object.{Conn}
use oula_server.TcpClient.{TcpClient, connect, remove_connection, the_connection, connection_closes}
use oula_server.TcpClient.Accounts.{queued_start, Inv}
use oula_server.TcpClient.Handover.{Polite}
use oula_server.TcpClient.Connections.{closed}

abbrev Leaves : Connector → Outcome TcpClient → Type 0
Leaves c (ok client) = client.connector ≡ c
Leaves c (fault e) = Unit {0}

Leaves-if :
    (c : Connector) (b : Bool) (m n : Outcome TcpClient)
    → (b ≡ true → Leaves c m)
    → (b ≡ false → Leaves c n)
    → Leaves c (if b then m else n)
Leaves-if c true m n f g = f refl
Leaves-if c false m n f g = g refl

remove_connection-Leaves :
    (sockfd : ℕ) (save_error : Errno) (conn : Conn) (client : TcpClient)
    → is_none client.connection ≡ false
    → client.retry && client.enable_connect ≡ false
    → Leaves client.connector (remove_connection true sockfd save_error conn client)
unfolding remove_connection
remove_connection-Leaves sockfd save_error conn client here off = rw here (
    Leaves-if client.connector (client.retry && client.enable_connect) _ _
      (λ on. absurd (ground (arith, on, off))) (λ n. refl))

busy_start :
    (sockfd : ℕ) (save_error : Errno) (c : Connector)
    → c.state ≡ connected
    → Connector.start true sockfd save_error c ≡ fault assert_failed
unfolding Connector.start Connector.start_in_loop
busy_start sockfd save_error c now =
    let busy : is_disconnected c.state ≡ false = ap is_disconnected now in rw busy refl

busy_connect :
    (sockfd : ℕ) (save_error : Errno) (client : TcpClient)
    → client.connector.state ≡ connected
    → connect true sockfd save_error client ≡ fault assert_failed
unfolding connect
busy_connect sockfd save_error client now =
    rw (busy_start sockfd save_error client.connector now) refl

busy_queued_start :
    (sockfd : ℕ) (save_error : Errno) (c : Connector)
    → c.state ≡ connected
    → act (start_ran sockfd save_error) (queued_start c) ≡ fault assert_failed
unfolding act Connector.run_queued_start Connector.start_in_loop
busy_queued_start sockfd save_error c now =
    let busy : is_disconnected c.state ≡ false = ap is_disconnected now in
    let some_due : (c.queued_starts + 1 == 0) ≡ false = ground arith in rw (some_due, busy) refl

module _ (connection_callback message_callback : Conn → Outcome Conn)
    (polite : Polite connection_callback) where
  closes-Leaves :
      (sockfd : ℕ) (save_error : Errno) (client : TcpClient) (conn : Conn)
      → Inv client
      → client.connection ≡ some conn
      → client.retry && client.enable_connect ≡ false
      → Leaves client.connector
          (connection_closes connection_callback message_callback true sockfd save_error client)
  unfolding connection_closes
  closes-Leaves sockfd save_error client conn v e off =
      let found : the_connection client.connection ≡ ok conn = ap the_connection e in
      let (conn', run, over, same_fd) =
        closed connection_callback message_callback polite conn (v.live conn e).0 in
      rw (found, run)
        (Leaves-if client.connector client.owned _ _
          (λ own. remove_connection-Leaves sockfd save_error conn' client (ap is_none e) off)
          (λ free. refl))

  -- When the connection of a client whose books are right has closed, its user's connection
  -- callback neither opens nor ends a connection, and the client is not to retry, the next
  -- `connect` ends in a failing assertion: at once in the loop's thread, and from another thread when
  -- the loop runs the task that it queued.
  pub connect_after_close :
      (client client' : TcpClient) (conn : Conn) (sockfd sockfd' : ℕ)
      (save_error save_error' : Errno)
      → Inv client
      → client.connection ≡ some conn
      → client.retry && client.enable_connect ≡ false
      → connection_closes connection_callback message_callback true sockfd save_error client
        ≡ ok client'
      → (connect true sockfd' save_error' client' ≡ fault assert_failed)
        × ((client'' : TcpClient) × (connect false sockfd' save_error' client' ≡ ok client'')
            × (act (start_ran sockfd' save_error') client''.connector ≡ fault assert_failed))
  unfolding connect Connector.start
  connect_after_close client client' conn sockfd sockfd' save_error save_error' v here off ran =
      let same =
        subst (Leaves client.connector) ran
          (closes-Leaves sockfd save_error client conn v here off) in
      let now : client'.connector.state ≡ connected =
        ap (λ (c : Connector). c.state) same ∙ (v.live conn here).1 in
      (
        busy_connect sockfd' save_error' client' now,
        (
          record client' { enable_connect = true; connector = queued_start client'.connector },
          refl,
          busy_queued_start sockfd' save_error' client'.connector now,
        ),
      )
