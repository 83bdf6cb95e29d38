-- ===== src/Connector.antt =====
-- net/Connector.h and net/Connector.cpp: a connection attempt that is retried. Sockets are numbers;
-- what the system calls answer is given to each operation. `opened`, `closed`, `handed_over` and
-- `timers` record, the latest first, the sockets that were created, those given to `::close`, those
-- given to the new-connection callback, and the delays that `startInLoop` was scheduled with.
pub mod Runs
pub mod Sockets
pub mod Backoff
mod Examples
use oula_server.Prelude.{
  if◌then◌else◌, Outcome, assert, in_loop, out_of_bounds, ok, fault, ℕ, ◌+◌, ◌-◌, ◌*◌, min, Bool,
  true, false, ◌||◌, Option, none, some, List, ◌∷◌, [], ◌>>=◌, ◌>>◌,
}
use oula_server.Prelude.Int.{is_none}

-- `States`
pub data State : Type 0 where
  disconnected connecting_now connected : State

-- The values of `errno` that `connect()` names; `other_errno` is any other, and `no_error` is 0.
pub data Errno : Type 0 where
  no_error einprogress eintr eisconn eagain eaddrinuse eaddrnotavail econnrefused enetunreach :
      Errno
  eacces eperm eafnosupport ealready ebadf efault enotsock other_errno : Errno

-- `channel` is the descriptor of the channel that waits for the socket to be writable, and
-- `channel_listens` says whether it still does.
pub record Connector : Type 0 where
  pub enable_connect : Bool
  pub state : State
  pub retry_delay_ms : ℕ
  pub channel : Option ℕ
  pub channel_listens : Bool
  pub opened : List ℕ
  pub closed : List ℕ
  pub handed_over : List ℕ
  pub timers : List ℕ
  pub queued_starts : ℕ
  pub queued_stops : ℕ
  pub queued_resets : ℕ

abbrev pub max_retry_delay_ms : ℕ
max_retry_delay_ms = 30000

abbrev pub init_retry_delay_ms : ℕ
init_retry_delay_ms = 500

unfoldable pub new : Connector
new = record {
  enable_connect = false;
  state = disconnected;
  retry_delay_ms = init_retry_delay_ms;
  channel = none;
  channel_listens = false;
  opened = [];
  closed = [];
  handed_over = [];
  timers = [];
  queued_starts = 0;
  queued_stops = 0;
  queued_resets = 0;
}

abbrev pub is_disconnected : State → Bool
is_disconnected disconnected = true
is_disconnected _ = false

abbrev pub is_connecting : State → Bool
is_connecting connecting_now = true
is_connecting _ = false

-- The destructor: `assert(!channel_)`.
unfoldable pub destroy : Connector → Outcome (Unit {0})
destroy c = assert (is_none c.channel)

abbrev pub close_socket : ℕ → Connector → Connector
close_socket sockfd c = record c { closed = sockfd ∷ c.closed }

-- `retry`
unfoldable pub retry : ℕ → Connector → Connector
retry sockfd c =
    let c' = record c { closed = sockfd ∷ c.closed; state = disconnected } in
    if c.enable_connect
    then record c' {
      timers = c.retry_delay_ms ∷ c.timers;
      retry_delay_ms = min (c.retry_delay_ms * 2) max_retry_delay_ms;
    }
    else c'

-- `connecting`
unfoldable pub connecting : ℕ → Connector → Outcome Connector
connecting sockfd c = do
  assert (is_none c.channel)
  ok (record c { state = connecting_now; channel = some sockfd; channel_listens = true })

-- The three ways of the `switch` of `connect`
pub data Verdict : Type 0 where
  goes_on try_again gives_up : Verdict

abbrev pub verdict : Errno → Verdict
verdict no_error = goes_on
verdict einprogress = goes_on
verdict eintr = goes_on
verdict eisconn = goes_on
verdict eagain = try_again
verdict eaddrinuse = try_again
verdict eaddrnotavail = try_again
verdict econnrefused = try_again
verdict enetunreach = try_again
verdict _ = gives_up

abbrev pub after_connect : Verdict → ℕ → Connector → Outcome Connector
after_connect goes_on sockfd c = connecting sockfd c
after_connect try_again sockfd c = ok (retry sockfd c)
after_connect gives_up sockfd c = ok (close_socket sockfd c)

-- `connect`, with the new socket and what `::connect` answers
unfoldable pub connect : ℕ → Errno → Connector → Outcome Connector
connect sockfd save_error c =
    after_connect (verdict save_error) sockfd (record c { opened = sockfd ∷ c.opened })

unfoldable pub start_in_loop : Bool → ℕ → Errno → Connector → Outcome Connector
start_in_loop here sockfd save_error c = do
  in_loop here
  assert (is_disconnected c.state)
  let connected_to = connect sockfd save_error c
  if c.enable_connect then connected_to else ok c

-- `start`: in the loop's thread `runInLoop` runs `startInLoop` at once, with the socket and the answer given
-- here; another thread queues it.
unfoldable pub start : Bool → ℕ → Errno → Connector → Outcome Connector
start here sockfd save_error c =
    let c' = record c { enable_connect = true } in
    let started = start_in_loop true sockfd save_error c' in
    if here then started else ok (record c' { queued_starts = c.queued_starts + 1 })

-- The task that another thread's `start` queued
unfoldable pub run_queued_start : ℕ → Errno → Connector → Outcome Connector
run_queued_start sockfd save_error c =
    start_in_loop true sockfd save_error (record c { queued_starts = c.queued_starts - 1 })

unfoldable pub restart : Bool → ℕ → Errno → Connector → Outcome Connector
restart here sockfd save_error c = do
  in_loop here
  start_in_loop here sockfd save_error (record c {
    state = disconnected;
    retry_delay_ms = init_retry_delay_ms;
    enable_connect = true;
  })

-- A timer that `retry` set runs `startInLoop`.
unfoldable pub timer_fires : ℕ → Errno → Connector → Outcome Connector
timer_fires sockfd save_error c = start_in_loop true sockfd save_error c

-- `removeAndResetChannel`
unfoldable pub remove_and_reset_channel : Connector → Outcome (ℕ × Connector)
remove_and_reset_channel c = do
  sockfd ← channel_fd c.channel
  ok (sockfd, record c { channel_listens = false; queued_resets = c.queued_resets + 1 })
  where
    channel_fd : Option ℕ → Outcome ℕ
    channel_fd none = fault out_of_bounds
    channel_fd (some fd) = ok fd

-- `resetChannel`, which a call of the former queued
unfoldable pub reset_channel : Connector → Connector
reset_channel c = record c {
  channel = none;
  channel_listens = false;
  queued_resets = c.queued_resets - 1;
}

-- The end of `handleWrite`, when the socket is connected.
abbrev pub complete : Bool → ℕ → Connector → Connector
complete has_callback sockfd c =
    let c' = record c { state = connected } in
    if c.enable_connect
    then if has_callback then record c' { handed_over = sockfd ∷ c.handed_over } else c'
    else close_socket sockfd c'

-- `handleWrite`, given whether `SO_ERROR` is set, whether the socket is connected to itself, and
-- whether there is a callback.
unfoldable pub handle_write : Bool → Bool → Bool → Connector → Outcome Connector
handle_write err self_connect has_callback c =
    let while_connecting = (do
      removed ← remove_and_reset_channel c
      ok (
          if err || self_connect
          then retry removed.0 removed.1
          else complete has_callback removed.0 removed.1)) in
    let otherwise = (do assert (is_disconnected c.state); ok c) in
    if is_connecting c.state then while_connecting else otherwise

unfoldable pub stop : Connector → Connector
stop c = record c { enable_connect = false; queued_stops = c.queued_stops + 1 }

-- `stopInLoop`, which a call of the former queued
unfoldable pub stop_in_loop : Bool → Connector → Outcome Connector
stop_in_loop here c = do
  in_loop here
  let c₀ = record c { queued_stops = c.queued_stops - 1 }
  let while_connecting = (do
    removed ← remove_and_reset_channel (record c₀ { state = disconnected })
    ok (retry removed.0 removed.1))
  if is_connecting c.state then while_connecting else ok c₀
