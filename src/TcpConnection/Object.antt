-- ===== src/TcpConnection/Object.antt =====
-- The class of net/TcpConnection.h: its fields, its constructor and destructor. What the handlers do
-- outside the object is kept in it: the bytes that write(2) took, the tasks queued in the loop or
-- left to a timer, the calls to the poller.
use oula_server.Prelude.{Outcome, assert, ℕ, Bool, true, false, List, [], ◌∷◌, ◌++◌}
use oula_server.Buffer
use oula_server.Buffer.{Buffer, sub_size, add_size}
use oula_server.Channel
use oula_server.Channel.{Channel, Events, Callbacks}

-- `StateE`
pub data State : Type 0 where
  k_connecting k_connected k_disconnecting k_disconnected : State

abbrev pub is_open : State → Bool
is_open k_connected = true
is_open k_disconnecting = true
is_open _ = false

-- The tasks that a connection hands to its loop. `sends` carries what the raw pointer points to.
pub data Task : Type 0 where
  write_completes force_closes shuts_down : Task
  high_waters : ℕ → Task
  sends : List ℕ → Task

pub data PollerCall : Type 0 where
  updates : Events → PollerCall
  removes : PollerCall

-- What write(2) returns, with `errno` when it is -1.
pub data Errno : Type 0 where
  ewouldblock epipe econnreset other_errno : Errno

pub data WriteResult : Type 0 where
  wrote : ℕ → WriteResult
  failed : Errno → WriteResult

pub record Conn : Type 0 where
  pub state : State
  pub channel : Channel
  pub input_buffer : Buffer
  pub output_buffer : Buffer
  pub high_water_mark : ℕ
  pub has_write_complete : Bool
  pub has_high_water_mark : Bool
  pub wire : List ℕ
  pub write_shut : Bool
  pub tasks : List Task
  pub delayed : List Task
  pub poller_calls : List PollerCall

-- The constructor, with what `highWaterMark_` happens to hold: it is set later, or never.
unfoldable pub new : ℕ → Events → ℕ → Conn
new fd garbage mark = record {
  state = k_connecting;
  channel = Channel.new fd garbage;
  input_buffer = Buffer.new Buffer.init_size;
  output_buffer = Buffer.new Buffer.init_size;
  high_water_mark = mark;
  has_write_complete = false;
  has_high_water_mark = false;
  wire = [];
  write_shut = false;
  tasks = [];
  delayed = [];
  poller_calls = [];
}

-- `EventLoop::queueInLoop`
abbrev pub queue : Task → Conn → Conn
queue t c = record c { tasks = c.tasks ++ t ∷ [] }

-- A method of the channel that ends in `update()`.
abbrev pub update : (Channel → Channel) → Conn → Conn
update f c = record c {
  channel = f c.channel;
  poller_calls = c.poller_calls ++ updates (f c.channel).events ∷ [];
}

abbrev pub writing : Conn → Bool
writing c = Channel.is_enable_write_event c.channel

abbrev pub is_connecting : State → Bool
is_connecting k_connecting = true
is_connecting _ = false

abbrev pub is_disconnected : State → Bool
is_disconnected k_disconnected = true
is_disconnected _ = false

-- The destructor: `assert(state_ == KDisconnected)`.
unfoldable pub destroy : Conn → Outcome (Unit {0})
destroy c = assert (is_disconnected c.state)

abbrev pub is_connected : State → Bool
is_connected k_connected = true
is_connected _ = false

abbrev pub is_disconnecting : State → Bool
is_disconnecting k_disconnecting = true
is_disconnecting _ = false
