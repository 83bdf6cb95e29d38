-- ===== src/TcpClient/Examples.antt =====
-- A client of net/TcpClient.cpp that connects and whose connection closes.
use oula_server.Prelude.{
  Outcome, assert_failed, ok, fault, ◌≡◌, refl, true, false, ◌&&◌, Option, none, some, List, [],
  ◌∷◌,
}
use oula_server.Channel.{Events}
use oula_server.Connector
use oula_server.Connector.{Errno, no_error, econnrefused}
use oula_server.Connector.Runs
use oula_server.Connector.Runs.{Act, act}
use oula_server.TcpConnection.Object
use oula_server.TcpConnection.Object.{Conn}
use oula_server.TcpConnection.Handlers.{connect_established, handle_close}
use oula_server.TcpClient.{
  TcpClient, new, connect, connector_acts, connection_closes, destroy_runs, new_connection,
  remove_connection,
}
use oula_server.TcpClient.Accounts.{Inv}
use oula_server.TcpClient.Handover.{Polite}
use oula_server.TcpClient.History.{Event, connects, connector_event, perform, run, run-Inv}
use oula_server.TcpClient.Reconnect.{connect_after_close}

-- A callback that does nothing
does_nothing : Conn → Outcome Conn
does_nothing c = ok c

does_nothing-Polite : Polite does_nothing
unfolding does_nothing
does_nothing-Polite c = (c, refl, refl, refl, refl)

no_events : Events
no_events = record {
  pollin = false;
  pollpri = false;
  pollout = false;
  pollhup = false;
  pollrdhup = false;
  pollerr = false;
  pollnval = false;
}

-- Socket 5 connects; it becomes writable, and then the peer closes it.
abbrev life : List Event
life =
    connects true 5 no_error
    ∷ connector_event (Runs.writable false false) tt no_events 0
    ∷ connector_event Runs.reset_ran tt no_events 0
    ∷ []

result_of : Outcome TcpClient → TcpClient
result_of (ok client) = client
result_of (fault e) = new

abbrev with_connection : TcpClient
with_connection = result_of (run does_nothing does_nothing life new)

connected_run : run does_nothing does_nothing life new ≡ ok with_connection
unfolding run perform does_nothing result_of new connect connector_acts new_connection
    connect_established Object.new Connector.new Connector.start Connector.start_in_loop
    Connector.connect Connector.connecting Connector.handle_write Connector.remove_and_reset_channel
    Connector.reset_channel Runs.act
connected_run = refl

run-Inv_example :
    Inv with_connection
    × ((client' : TcpClient) × (destroy_runs does_nothing does_nothing true with_connection
          ≡ ok client')
        × Inv client')
run-Inv_example =
    run-Inv does_nothing does_nothing does_nothing-Polite life with_connection connected_run

with_connection-Inv : Inv with_connection
with_connection-Inv =
    (run-Inv does_nothing does_nothing does_nothing-Polite life with_connection connected_run).0

abbrev after_close : TcpClient
after_close =
    result_of (connection_closes does_nothing does_nothing true 6 no_error with_connection)

conn_of : Option Conn → Conn
conn_of none = Object.new 0 no_events 0
conn_of (some conn) = conn

abbrev the_conn : Conn
the_conn = conn_of with_connection.connection

is_there : with_connection.connection ≡ some the_conn
unfolding run perform does_nothing result_of new connect connector_acts new_connection
    connect_established conn_of Object.new Connector.new Connector.start Connector.start_in_loop
    Connector.connect Connector.connecting Connector.handle_write Connector.remove_and_reset_channel
    Connector.reset_channel Runs.act
is_there = refl

no_retry : with_connection.retry && with_connection.enable_connect ≡ false
unfolding run perform does_nothing result_of new connect connector_acts new_connection
    connect_established Object.new Connector.new Connector.start Connector.start_in_loop
    Connector.connect Connector.connecting Connector.handle_write Connector.remove_and_reset_channel
    Connector.reset_channel Runs.act
no_retry = refl

closed_run :
    connection_closes does_nothing does_nothing true 6 no_error with_connection ≡ ok after_close
unfolding run perform does_nothing result_of new connect connector_acts new_connection
    connect_established Object.new Connector.new Connector.start Connector.start_in_loop
    Connector.connect Connector.connecting Connector.handle_write Connector.remove_and_reset_channel
    Connector.reset_channel Runs.act connection_closes handle_close remove_connection
closed_run = refl

connect_after_close_example :
    (connect true 6 no_error after_close ≡ fault assert_failed)
    × ((client : TcpClient) × (connect false 6 no_error after_close ≡ ok client)
        × (act (Runs.start_ran 6 no_error) client.connector ≡ fault assert_failed))
connect_after_close_example =
    connect_after_close does_nothing does_nothing does_nothing-Polite with_connection after_close
      the_conn 6 6 no_error no_error with_connection-Inv is_there no_retry closed_run
