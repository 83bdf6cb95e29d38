-- ===== src/TcpClient.antt =====
-- net/TcpClient.h and net/TcpClient.cpp: a connector, and the connection that it gave.
pub mod Moves
pub mod Accounts
pub mod Handover
pub mod Connections
pub mod History
pub mod Reconnect
mod Examples
use oula_server.Prelude.{
  ◌==◌, if◌then◌else◌, length, Outcome, assert, in_loop, out_of_bounds, ok, fault, ℕ, Bool, true,
  false, not, ◌&&◌, Option, none, some, List, ◌∷◌, ◌++◌, [], ◌>>=◌, ◌>>◌,
}
use oula_server.Channel.{Events}
use oula_server.Connector
use oula_server.Connector.{Connector, Errno}
use oula_server.Connector.Runs.{Act, act}
use oula_server.TcpConnection.Object
use oula_server.TcpConnection.Object.{Conn}
use oula_server.TcpConnection.Output.{shutdown, force_close}
use oula_server.TcpConnection.Handlers.{connect_established, handle_close, connect_destroyed}
use oula_server.TcpServer.{next_id}
use oula_server.Prelude.Int.{is_none}

-- `destroying` are the connections for which `ConnectDestoryed` is queued in the loop, `destroyed` those
-- for which it ran. The destructor leaves `owned` false: the close callback of the connection is then
-- that of the namespace `details`.
pub record TcpClient : Type 0 where
  pub connector : Connector
  pub enable_connect : Bool
  pub retry : Bool
  pub next_conn_id : ℕ
  pub connection : Option Conn
  pub destroying : List Conn
  pub destroyed : List Conn
  pub owned : Bool

unfoldable pub new : TcpClient
new = record {
  connector = Connector.new;
  enable_connect = true;
  retry = false;
  next_conn_id = 0;
  connection = none;
  destroying = [];
  destroyed = [];
  owned = true;
}

unfoldable pub enable_retry : TcpClient → TcpClient
enable_retry client = record client { retry = true }

-- `here` says whether the caller runs in the loop's thread.
unfoldable pub connect : Bool → ℕ → Errno → TcpClient → Outcome TcpClient
connect here sockfd save_error client = do
  connector ← Connector.start here sockfd save_error client.connector
  ok (record client { enable_connect = true; connector = connector })

-- `disconnect`, with `here` as in `connect`
abbrev pub shutdown_connection : Bool → Option Conn → Outcome (Option Conn)
shutdown_connection here none = ok none
shutdown_connection here (some conn) = do conn' ← shutdown here conn; ok (some conn')

unfoldable pub disconnect : Bool → TcpClient → Outcome TcpClient
disconnect here client = do
  connection ← shutdown_connection here client.connection
  ok (record client { enable_connect = false; connection = connection })

-- `connection_ = conn` lets go of the connection that was there.
abbrev pub let_go : Option Conn → Outcome (Unit {0})
let_go none = ok tt
let_go (some conn) = Object.destroy conn

-- `loop->queueInLoop(&TcpConnection::ConnectDestoryed)`
abbrev pub queue_destroy : Conn → TcpClient → TcpClient
queue_destroy conn client = record client {
  connection = none;
  destroying = client.destroying ++ conn ∷ [];
}

-- `removeConnection`, of the connection that just closed, with what `restart` gets from the system
unfoldable pub remove_connection : Bool → ℕ → Errno → Conn → TcpClient → Outcome TcpClient
remove_connection here sockfd save_error conn client = do
  in_loop here
  assert (not (is_none client.connection))
  let client' = queue_destroy conn client
  let reconnected = (do
    connector ← Connector.restart here sockfd save_error client.connector
    ok (record client' { connector = connector }))
  if client.retry && client.enable_connect then reconnected else ok client'

abbrev pub destroy_with : Bool → Option Conn → TcpClient → TcpClient
destroy_with is_unique none client = record client {
  connector = Connector.stop client.connector;
  owned = false;
}
destroy_with is_unique (some conn) client = record client {
  connection = some (if is_unique then force_close conn else conn);
  owned = false;
}

-- The destructor, given `connection_.unique()`
unfoldable pub destroy : Bool → TcpClient → TcpClient
destroy is_unique client = destroy_with is_unique client.connection client

-- The connection of which a handler is called
abbrev pub the_connection : Option Conn → Outcome Conn
the_connection none = fault out_of_bounds
the_connection (some conn) = ok conn

-- The socket that was handed over, when there were `n` before
abbrev pub new_socket : ℕ → List ℕ → Option ℕ
new_socket n [] = none
new_socket n (sockfd ∷ sockfds) = if length sockfds == n then some sockfd else none

module _ (connection_callback message_callback : Conn → Outcome Conn) where
  -- `newConnection`, with what the new object's memory held
  unfoldable pub new_connection : Bool → ℕ → Events → ℕ → TcpClient → Outcome TcpClient
  new_connection here sockfd garbage mark client = do
    in_loop here
    next ← next_id client.next_conn_id
    let_go client.connection
    conn ←
        connect_established connection_callback message_callback (λ c. ok c) here
          (Object.new sockfd garbage mark)
    ok (record client { next_conn_id = next; connection = some conn })

  abbrev pub hand_over : Option ℕ → Events → ℕ → TcpClient → Outcome TcpClient
  hand_over none garbage mark client = ok client
  hand_over (some sockfd) garbage mark client = new_connection true sockfd garbage mark client

  -- An event or a task of the connector; a socket that it hands over becomes the connection.
  unfoldable pub connector_acts : Act → Events → ℕ → TcpClient → Outcome TcpClient
  connector_acts a garbage mark client = do
    connector ← act a client.connector
    hand_over (new_socket (length client.connector.handed_over) connector.handed_over) garbage mark
        (record client { connector = connector })

  -- The connection's `handleClose`, whose close callback is `removeConnection` of the client, or that of
  -- `details`
  unfoldable pub connection_closes : Bool → ℕ → Errno → TcpClient → Outcome TcpClient
  connection_closes here sockfd save_error client = do
    conn ← the_connection client.connection
    conn' ← handle_close connection_callback message_callback (λ c. ok c) here conn
    if client.owned
        then remove_connection here sockfd save_error conn' client
        else ok (queue_destroy conn' client)

  -- The loop runs the first `ConnectDestoryed` that is queued, and the object is freed.
  abbrev pub destroy_first : Bool → List Conn → TcpClient → Outcome TcpClient
  destroy_first here [] client = ok client
  destroy_first here (conn ∷ conns) client = do
    conn' ← connect_destroyed connection_callback message_callback (λ c. ok c) here conn
    Object.destroy conn'
    ok (record client { destroying = conns; destroyed = conn' ∷ client.destroyed })

  unfoldable pub destroy_runs : Bool → TcpClient → Outcome TcpClient
  destroy_runs here client = destroy_first here client.destroying client
