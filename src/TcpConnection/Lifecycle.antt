-- ===== src/TcpConnection/Lifecycle.antt =====
-- The states of a connection over its life (net/TcpConnection.cpp).
use oula_server.Prelude.{
  ltb, ◌==◌, if◌then◌else◌, Bool-cases, Outcome, assert, in_loop, ok, ℕ, refl, inl, inr, Bool,
  Option, List, [], ◌∷◌, ◌++◌, arith,
}
use oula_server.Buffer
use oula_server.Buffer.{Buffer, sub_size, add_size}
use oula_server.Channel
use oula_server.Channel.{Channel, Events, Callbacks}
use oula_server.TcpConnection.Object.{
  k_connected, k_disconnected, is_open, removes, WriteResult, Conn, update, is_connecting,
  is_connected,
}
use oula_server.TcpConnection.Output.{
  shutdown_in_loop, send_in_loop, send, shutdown, force_close, force_close_with_delay, handle_write,
}
use oula_server.TcpConnection.Handlers.{
  connect_established, handle_close, connect_destroyed, count_read, handle_read,
  force_close_in_loop,
}
use oula_server.TcpConnection.Progress.{
  Forward, Forward-eq, Forward-trans, Forward-bind, Forward-after, Forward-if,
  shutdown_in_loop-Forward, send_in_loop-Forward, send-Forward, shutdown-Forward, force-Forward,
  handle_write-Forward, rank-le, connecting_later,
}

pub data Call : Type 0 where
  sends_data : Bool → List ℕ → WriteResult → Call
  sends_in_loop : Bool → List ℕ → WriteResult → Call
  shutdowns shuts_in_loop : Bool → Call
  force_close_calls force_close_delays : Call
  write_events : Bool → WriteResult → Call
  read_events : Bool → Option (List ℕ) → Call
  close_events force_closes_in_loop establishes destroys : Bool → Call

module _ (connection_callback message_callback close_callback : Conn → Outcome Conn) where
  unfoldable pub perform : Call → Conn → Outcome Conn
  perform (sends_data here bytes w) c = send here bytes w c
  perform (sends_in_loop here bytes w) c = send_in_loop here bytes w c
  perform (shutdowns here) c = shutdown here c
  perform (shuts_in_loop here) c = shutdown_in_loop here c
  perform force_close_calls c = ok (force_close c)
  perform force_close_delays c = ok (force_close_with_delay c)
  perform (write_events here w) c = handle_write here w c
  perform (read_events here r) c =
      handle_read connection_callback message_callback close_callback here r c
  perform (close_events here) c =
      handle_close connection_callback message_callback close_callback here c
  perform (force_closes_in_loop here) c =
      force_close_in_loop connection_callback message_callback close_callback here c
  perform (establishes here) c =
      connect_established connection_callback message_callback close_callback here c
  perform (destroys here) c =
      connect_destroyed connection_callback message_callback close_callback here c

module _ (connection_callback message_callback close_callback : Conn → Outcome Conn)
    (on_connection : (c : Conn) → Forward c (connection_callback c))
    (on_message : (c : Conn) → Forward c (message_callback c))
    (on_close : (c : Conn) → Forward c (close_callback c)) where
  handle_close-Forward :
      (here : Bool) (c : Conn)
      → Forward c (handle_close connection_callback message_callback close_callback here c)
  unfolding handle_close
  handle_close-Forward here c =
      let d = update Channel.disable_all_event (record c { state = k_disconnected }) in
      Forward-after c (in_loop here) _ λ _. Forward-after c (assert (is_open c.state)) _ λ _.
        Forward-bind c (connection_callback d) close_callback
          (Forward-trans c d _ (rank-le c.state) (on_connection d)) on_close

  connect_destroyed-Forward :
      (here : Bool) (c : Conn)
      → Forward c (connect_destroyed connection_callback message_callback close_callback here c)
  unfolding connect_destroyed
  connect_destroyed-Forward here c =
      let d = update Channel.disable_all_event (record c { state = k_disconnected }) in
      Forward-after c (in_loop here) _ λ _.
        Forward-bind c (if is_connected c.state then connection_callback d else ok c) _
          (Forward-if (is_connected c.state) c (connection_callback d) (ok c)
            (Forward-trans c d _ (rank-le c.state) (on_connection d)) (Forward-eq c c refl))
          (λ e. Forward-eq e (record e { poller_calls = e.poller_calls ++ removes ∷ [] }) refl)

  connect_established-Forward :
      (here : Bool) (c : Conn)
      → Forward c (connect_established connection_callback message_callback close_callback here c)
  unfolding connect_established
  connect_established-Forward here c = elim (Bool-cases (is_connecting c.state)) [
    | inl new_one ↦
        let d = update Channel.enable_read_event (record c { state = k_connected }) in
        rw new_one (
          Forward-after c (in_loop here) _
            λ _. Forward-trans c d _ (connecting_later c.state new_one) (on_connection d))
    | inr old ↦ rw old (Forward-after c (in_loop here) _ λ _. tt)
  ]

  handle_read-Forward :
      (here : Bool) (r : Option (List ℕ)) (c : Conn)
      → Forward c (handle_read connection_callback message_callback close_callback here r c)
  unfolding handle_read
  handle_read-Forward here r c = Forward-after c (Buffer.read_fd c.input_buffer r) _ λ got.
      let d : Conn = record c { input_buffer = got.1 } in
      let n = count_read got.0 in
      let close = handle_close connection_callback message_callback close_callback here d in
      Forward-if (ltb 0 n) c (message_callback d) (if n == 0 then close else ok d)
        (Forward-trans c d (message_callback d) (omega arith) (on_message d))
        (Forward-if (n == 0) c close (ok d)
          (Forward-trans c d close (omega arith) (handle_close-Forward here d))
          (Forward-eq c d refl))

  force_close_in_loop-Forward :
      (here : Bool) (c : Conn)
      → Forward c (force_close_in_loop connection_callback message_callback close_callback here c)
  unfolding force_close_in_loop
  force_close_in_loop-Forward here c = Forward-after c (in_loop here) _ λ _.
      Forward-if (is_open c.state) c
        (handle_close connection_callback message_callback close_callback here c) (ok c)
        (handle_close-Forward here c) (Forward-eq c c refl)

  -- No handler takes a connection back to an earlier state, in or out of its loop and whatever the
  -- system calls return, if the three callbacks do not.
  pub perform-Forward :
      (x : Call) (c : Conn)
      → Forward c (perform connection_callback message_callback close_callback x c)
  unfolding perform
  perform-Forward (sends_data here bytes w) c = send-Forward here bytes w c
  perform-Forward (sends_in_loop here bytes w) c = send_in_loop-Forward here bytes w c
  perform-Forward (shutdowns here) c = shutdown-Forward here c
  perform-Forward (shuts_in_loop here) c = shutdown_in_loop-Forward here c
  perform-Forward force_close_calls c = (force-Forward c).0
  perform-Forward force_close_delays c = (force-Forward c).1
  perform-Forward (write_events here w) c = handle_write-Forward here w c
  perform-Forward (read_events here r) c = handle_read-Forward here r c
  perform-Forward (close_events here) c = handle_close-Forward here c
  perform-Forward (force_closes_in_loop here) c = force_close_in_loop-Forward here c
  perform-Forward (establishes here) c = connect_established-Forward here c
  perform-Forward (destroys here) c = connect_destroyed-Forward here c
