-- ===== src/TcpConnection/Handlers.antt =====
-- The handlers of net/TcpConnection.cpp that call back: the connection and message callbacks of the
-- user, and the close callback of the server or the client, are functions on the connection.
use oula_server.Prelude.{
  ltb, ◌==◌, if◌then◌else◌, Outcome, ◌>>=◌, ◌>>◌, assert, in_loop, ok, ℕ, ◌-◌, ◌^◌, Bool, true,
  Option, none, some, List, [], ◌∷◌, ◌++◌,
}
use oula_server.Buffer
use oula_server.Buffer.{Buffer, sub_size, add_size}
use oula_server.Channel
use oula_server.Channel.{Channel, Events, Callbacks}
use oula_server.TcpConnection.Object.{
  k_connected, k_disconnected, is_open, removes, WriteResult, Conn, update, is_connecting,
  is_connected,
}
use oula_server.TcpConnection.Output.{handle_write}

-- `size_t n = readFd(...)`: the conversion takes -1 to the largest value.
abbrev pub count_read : Option ℕ → ℕ
count_read none = 2 ^ 64 - 1
count_read (some n) = n

module _ (connection_callback message_callback close_callback : Conn → Outcome Conn) where
  unfoldable pub connect_established : Bool → Conn → Outcome Conn
  connect_established here c = do
    in_loop here
    assert (is_connecting c.state)
    connection_callback (update Channel.enable_read_event (record c { state = k_connected }))

  unfoldable pub handle_close : Bool → Conn → Outcome Conn
  handle_close here c = do
    in_loop here
    assert (is_open c.state)
    c' ←
        connection_callback (update Channel.disable_all_event (record c { state = k_disconnected }))
    close_callback c'

  -- `ConnectDestoryed`; `remove()` takes the channel out of the poller.
  unfoldable pub connect_destroyed : Bool → Conn → Outcome Conn
  connect_destroyed here c = do
    in_loop here
    let down =
        connection_callback (update Channel.disable_all_event (record c { state = k_disconnected }))
    c' ← if is_connected c.state then down else ok c
    ok (record c' { poller_calls = c'.poller_calls ++ removes ∷ [] })

  -- `handleRead`, with what readv returns.
  unfoldable pub handle_read : Bool → Option (List ℕ) → Conn → Outcome Conn
  handle_read here received c = do
    r ← Buffer.read_fd c.input_buffer received
    let n = count_read r.0
    let c' = record c { input_buffer = r.1 }
    if ltb 0 n then message_callback c' else if n == 0 then handle_close here c' else ok c'

  unfoldable pub force_close_in_loop : Bool → Conn → Outcome Conn
  force_close_in_loop here c = do
    in_loop here
    if is_open c.state then handle_close here c else ok c

  -- The callbacks that the constructor gives to the channel, with the results of readv and write.
  unfoldable pub callbacks : Option (List ℕ) → WriteResult → Callbacks Conn
  callbacks received w = record {
    read_callback = some (handle_read true received);
    write_callback = some (handle_write true w);
    close_callback = some (handle_close true);
    set_event_handling = λ b c. record c { channel = record c.channel { event_handling = b } };
  }
