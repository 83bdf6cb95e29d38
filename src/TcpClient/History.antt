-- ===== src/TcpClient/History.antt =====
-- What can happen to a client of net/TcpClient.cpp, in any order.
use oula_server.Prelude.{
  Outcome, ◌>>=◌, Outcome-cases, ok, ℕ, ◌≡◌, refl, subst, inl, inr, Bool, true, List, [], ◌∷◌,
}
use oula_server.Channel.{Events}
use oula_server.Connector
use oula_server.Connector.{Errno}
use oula_server.Connector.Runs
use oula_server.Connector.Runs.{Act}
use oula_server.TcpConnection.Object.{Conn}
use oula_server.TcpClient.{
  TcpClient, new, enable_retry, connect, disconnect, destroy, connector_acts, connection_closes,
  destroy_runs,
}
use oula_server.TcpClient.Moves.{IsOwn}
use oula_server.TcpClient.Accounts.{Inv, Keeps, connect-Keeps, disconnect-Keeps, destroy-Inv}
use oula_server.TcpClient.Handover.{Polite}
use oula_server.TcpClient.Connections.{
  connector_acts-Keeps, connection_closes-Keeps, destroy_runs-Inv,
}

pub data Event : Type 0 where
  connects : Bool → ℕ → Errno → Event
  disconnects : Bool → Event
  enables_retry destroys : Event
  ends : Bool → Event
  connector_event : (a : Act) → IsOwn a → Events → ℕ → Event
  closes : ℕ → Errno → Event

module _ (connection_callback message_callback : Conn → Outcome Conn) where
  unfoldable pub perform : Event → TcpClient → Outcome TcpClient
  perform (connects here sockfd save_error) client = connect here sockfd save_error client
  perform (disconnects here) client = disconnect here client
  perform enables_retry client = ok (enable_retry client)
  perform destroys client = destroy_runs connection_callback message_callback true client
  perform (ends is_unique) client = ok (destroy is_unique client)
  perform (connector_event a own garbage mark) client =
      connector_acts connection_callback message_callback a garbage mark client
  perform (closes sockfd save_error) client =
      connection_closes connection_callback message_callback true sockfd save_error client

  unfoldable pub run : List Event → TcpClient → Outcome TcpClient
  run [] client = ok client
  run (e ∷ es) client = do client' ← perform e client; run es client'

new-Inv : Inv new
unfolding new Connector.new
new-Inv = record {
  reached = Runs.at_first;
  live = λ c h. absurd (cc);
  gone = tt;
  sockets = λ x. refl;
}

module _ (connection_callback message_callback : Conn → Outcome Conn)
    (polite : Polite connection_callback) where
  perform-Keeps :
      (e : Event) (client : TcpClient)
      → Inv client
      → Keeps (perform connection_callback message_callback e client)
  unfolding perform enable_retry
  perform-Keeps (connects here sockfd save_error) client v =
      connect-Keeps here sockfd save_error client v
  perform-Keeps (disconnects here) client v = disconnect-Keeps here client v
  perform-Keeps enables_retry client v = record {
    reached = v.reached;
    live = v.live;
    gone = v.gone;
    sockets = v.sockets;
  }
  perform-Keeps destroys client v =
      let (client', ran, v') =
        destroy_runs-Inv connection_callback message_callback polite client v in
      rw ran v'
  perform-Keeps (ends is_unique) client v = destroy-Inv is_unique client v
  perform-Keeps (connector_event a own garbage mark) client v =
      connector_acts-Keeps connection_callback message_callback polite a garbage mark client own v
  perform-Keeps (closes sockfd save_error) client v =
      connection_closes-Keeps connection_callback message_callback polite sockfd save_error client v

  run-Keeps :
      (es : List Event) (client : TcpClient)
      → Inv client
      → Keeps (run connection_callback message_callback es client)
  unfolding run
  run-Keeps [] client v = v
  run-Keeps (e ∷ es) client v =
      elim (Outcome-cases (perform connection_callback message_callback e client)) [
        | inr (f, failed) ↦ rw failed tt
        | inl (client', ran) ↦
            rw ran (run-Keeps es client' (subst Keeps ran (perform-Keeps e client v)))
      ]

  -- After any events in the life of a client, whose user's connection callback neither opens nor ends a
  -- connection nor changes its descriptor: each descriptor was handed over by the connector as often as it
  -- is that of a connection, which is present, waits to be destroyed, or was destroyed; a present one is open and has a connected connector; and what
  -- waits is destroyed without a failing assertion.
  pub run-Inv :
      (es : List Event) (client : TcpClient)
      → run connection_callback message_callback es new ≡ ok client
      → Inv client
        × ((client' : TcpClient) × (destroy_runs connection_callback message_callback true client
              ≡ ok client')
            × Inv client')
  run-Inv es client ran =
      let v = subst Keeps ran (run-Keeps es new new-Inv) in
      (v, destroy_runs-Inv connection_callback message_callback polite client v)
