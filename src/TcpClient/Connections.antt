-- ===== src/TcpClient/Connections.antt =====
-- The connections of a client of net/TcpClient.cpp: made, closed, destroyed.
use oula_server.Prelude.{
  Option-cases, some_eq, length, Outcome, Outcome-cases, out_of_bounds, ok, fault, ℕ, ◌≡◌, refl,
  sym, ap, subst, ◌∙◌, ◌⊎◌, inl, inr, true, false, none, some, List, [], ◌∷◌, ◌++◌, arith,
}
use oula_server.Channel
use oula_server.Channel.{Events}
use oula_server.Connector.{Connector, Errno, connected}
use oula_server.Connector.Runs
use oula_server.Connector.Runs.{
  retried, writable, reset_ran, stop_ran, writable, retried, Act, act, started, start_ran,
  restarted, stopped,
}
use oula_server.TcpConnection.Object
use oula_server.TcpConnection.Object.{
  Conn, State, k_connected, k_disconnected, is_open, is_disconnected, is_connected, update, removes,
}
use oula_server.TcpConnection.Handlers.{connect_established, handle_close, connect_destroyed}
use oula_server.TcpServer.{next_id}
use oula_server.TcpClient.{
  let_go, TcpClient, the_connection, new_socket, new_connection, connector_acts, connection_closes,
  destroy_first, destroy_runs,
}
use oula_server.TcpClient.Moves.{Quiet, Hands, IsOwn, act-Moves}
use oula_server.Connector.Sockets.{count}
use oula_server.TcpClient.Accounts.{fds, Inv, AllClosed, present, Keeps, holds, quiet-Inv}
use oula_server.TcpClient.Handover.{
  Polite, no_new_socket, one_new_socket, queue_destroy-Inv, Keeps-if, remove_connection-Keeps,
  no_connection,
}

module _ (connection_callback message_callback : Conn → Outcome Conn)
    (polite : Polite connection_callback) where
  established :
      (sockfd : ℕ) (garbage : Events) (mark : ℕ)
      → (conn : Conn) × (connect_established connection_callback message_callback
            (λ c. ok c)
            true
            (Object.new sockfd garbage mark)
          ≡ ok conn)
        × (is_open conn.state ≡ true)
        × (conn.channel.fd ≡ sockfd)
  unfolding connect_established Object.new Channel.enable_read_event Channel.new
  established sockfd garbage mark =
      let c =
        update Channel.enable_read_event
          (record (Object.new sockfd garbage mark) { state = k_connected }) in
      let (conn, run, is_opened, rest, same_fd) = polite c in (conn, run, is_opened, same_fd)

  -- A socket that was handed over becomes the connection.
  new_connection-Keeps :
      (client : TcpClient) (c : Connector) (garbage : Events) (mark sockfd : ℕ)
      → Inv client
      → client.connection ≡ none
      → Runs.Reached c
      → c.state ≡ connected
      → c.handed_over ≡ sockfd ∷ client.connector.handed_over
      → Keeps (
          new_connection connection_callback message_callback true sockfd garbage mark
            (record client { connector = c }))
  unfolding new_connection
  new_connection-Keeps client c garbage mark sockfd v nothing r now more =
      let (conn, made, o, its_fd) = established sockfd garbage mark in
      let free : let_go client.connection ≡ ok tt = ap let_go nothing in
      elim (Outcome-cases (next_id client.next_conn_id)) [
        | inr (e, failed) ↦ rw failed tt
        | inl (next, counted) ↦
            rw (counted, free, made)
              (record {
                reached = r;
                live = λ x h. (ap (λ (y : Conn). is_open y.state) (sym (some_eq h)) ∙ o, now);
                gone = v.gone;
                sockets = λ x. omega (
                  arith,
                  v.sockets x,
                  ap (λ c'. count x (present c')) nothing,
                  ap (count x) more,
                  ap (λ fd. count x (fd ∷ [])) its_fd,
                );
              })
      ]

  own_Fits : (a : Act) (c : Connector) → IsOwn a → Runs.Fits a c
  own_Fits (started here sockfd save_error) c own = tt
  own_Fits (start_ran sockfd save_error) c own = tt
  own_Fits (restarted sockfd save_error) c own = absurd own
  own_Fits (retried sockfd save_error) c own = tt
  own_Fits (writable err self_connect) c own = tt
  own_Fits reset_ran c own = tt
  own_Fits stopped c own = tt
  own_Fits stop_ran c own = tt

  pub connector_acts-Keeps :
      (a : Act) (garbage : Events) (mark : ℕ) (client : TcpClient)
      → IsOwn a
      → Inv client
      → Keeps (connector_acts connection_callback message_callback a garbage mark client)
  unfolding connector_acts
  connector_acts-Keeps a garbage mark client own v =
      let before = client.connector in
      let n = length before.handed_over in
      elim (Outcome-cases (act a before)) [
        | inr (e, failed) ↦ rw failed tt
        | inl (c, run) ↦
            let r = Runs.then_did a v.reached (own_Fits a before own) run in
            elim (holds (λ c'. Quiet before c' ⊎ Hands before c') (act a before) c run
              (act-Moves a before own)) [
                | inl q ↦
                    let nothing_new : new_socket n c.handed_over ≡ none =
                      ap (new_socket n) q.same_sockets ∙ no_new_socket before.handed_over in
                    rw (run, nothing_new) (quiet-Inv client c v r q)
                | inr hands ↦
                    let new_one : new_socket n c.handed_over ≡ some hands.sockfd =
                      ap (new_socket n) hands.one_more
                      ∙ one_new_socket hands.sockfd before.handed_over in
                    rw (run, new_one)
                      (new_connection-Keeps client c garbage mark hands.sockfd v
                        (no_connection client v hands.was_connecting) r hands.is_now hands.one_more)
              ]
      ]

  pub closed :
      (conn : Conn)
      → is_open conn.state ≡ true
      → (conn' : Conn) × (handle_close connection_callback message_callback (λ c. ok c) true conn
          ≡ ok conn')
        × (is_disconnected conn'.state ≡ true)
        × (conn'.channel.fd ≡ conn.channel.fd)
  unfolding handle_close Channel.disable_all_event
  closed conn o =
      let c = update Channel.disable_all_event (record conn { state = k_disconnected }) in
      let (conn', run, rest, is_over, same_fd) = polite c in
      (conn', rw (o, run) refl, is_over, same_fd)

  pub connection_closes-Keeps :
      (sockfd : ℕ) (save_error : Errno) (client : TcpClient)
      → Inv client
      → Keeps (connection_closes connection_callback message_callback true sockfd save_error client)
  unfolding connection_closes
  connection_closes-Keeps sockfd save_error client v = elim (Option-cases client.connection) [
    | inl e ↦
        let found : the_connection client.connection ≡ fault out_of_bounds = ap the_connection e in
        rw found tt
    | inr (conn, e) ↦
        let found : the_connection client.connection ≡ ok conn = ap the_connection e in
        let (conn', run, over, same_fd) = closed conn (v.live conn e).0 in
        let queued = queue_destroy-Inv client conn conn' v e over same_fd in
        rw (found, run)
          (Keeps-if client.owned _ _
            (remove_connection-Keeps sockfd save_error client conn conn' v e over same_fd) queued)
  ]

  destroy_first-Inv :
      (client : TcpClient) (conns : List Conn)
      → Inv client
      → client.destroying ≡ conns
      → (client' : TcpClient) × (destroy_first connection_callback message_callback true conns
            client
          ≡ ok client')
        × Inv client'
  unfolding connect_destroyed Object.destroy
  destroy_first-Inv client [] v e = (client, refl, v)
  destroy_first-Inv client (conn ∷ conns) v e =
      let (over, rest) = subst AllClosed e v.gone in
      let down : is_connected conn.state ≡ false = ground (arith, over) in
      let conn' = record conn { poller_calls = conn.poller_calls ++ removes ∷ [] } in
      (
        record client { destroying = conns; destroyed = conn' ∷ client.destroyed },
        rw (down, over) refl,
        record {
          reached = v.reached;
          live = v.live;
          gone = rest;
          sockets = λ x. omega (arith, v.sockets x, ap (λ cs. count x (fds cs)) e);
        },
      )

  -- A closed connection is destroyed without the assertion of its destructor failing.
  pub destroy_runs-Inv :
      (client : TcpClient)
      → Inv client
      → (client' : TcpClient) × (destroy_runs connection_callback message_callback true client
          ≡ ok client')
        × Inv client'
  unfolding destroy_runs
  destroy_runs-Inv client v = destroy_first-Inv client client.destroying v refl
