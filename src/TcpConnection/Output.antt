-- ===== src/TcpConnection/Output.antt =====
-- The sending half of net/TcpConnection.cpp. What write(2) returns is an argument of each handler
-- that calls it; `here` tells whether the caller runs in the thread of the loop.
use oula_server.Prelude.{
  ltb, leb, ◌==◌, if◌then◌else◌, length, take, drop, Outcome, ◌>>=◌, ◌>>◌, assert, in_loop,
  out_of_bounds, ok, fault, ℕ, ◌+◌, Bool, true, false, not, ◌&&◌, List, [], ◌∷◌, ◌++◌,
}
use oula_server.Prelude.Int.{ℤ, pos, negsuc}
use oula_server.Buffer
use oula_server.Buffer.{Buffer, sub_size, add_size}
use oula_server.Channel
use oula_server.Channel.{Channel, Events, Callbacks}
use oula_server.TcpConnection.Object.{
  k_disconnecting, is_open, write_completes, force_closes, shuts_down, high_waters, sends, Errno,
  epipe, econnreset, WriteResult, wrote, failed, Conn, queue, update, writing, is_disconnected,
  is_connected, is_disconnecting,
}

unfoldable pub shutdown_in_loop : Bool → Conn → Outcome Conn
shutdown_in_loop here c = do
  in_loop here
  ok (if writing c then c else record c { write_shut = true })

-- The `len` bytes at `data + offset`; `data` points to `bytes`.
abbrev pub bytes_at : List ℕ → ℤ → ℕ → Outcome (List ℕ)
bytes_at bytes (pos k) len =
    if leb (k + len) (length bytes) then ok (take len (drop k bytes)) else fault out_of_bounds
bytes_at bytes (negsuc k) len = fault out_of_bounds

-- The variables of `sendInLoop` after its direct write.
pub record Attempt : Type 0 where
  pub conn : Conn
  pub n_wrote : ℤ
  pub remaining : ℕ
  pub error_occurs : Bool

abbrev pub is_peer_closed : Errno → Bool
is_peer_closed epipe = true
is_peer_closed econnreset = true
is_peer_closed _ = false

-- `write(fd, data, len)` of `sendInLoop`, and what follows on its result.
unfoldable pub write_direct : Conn → List ℕ → WriteResult → Attempt
write_direct c bytes (wrote n) =
    let left = sub_size (length bytes) n in
    let c' = record c { wire = c.wire ++ take n bytes } in
    record {
      conn = if left == 0 && c.has_write_complete then queue write_completes c' else c';
      n_wrote = pos n;
      remaining = left;
      error_occurs = false;
    }
write_direct c bytes (failed e) = record {
  conn = c;
  n_wrote = negsuc 0;
  remaining = length bytes;
  error_occurs = is_peer_closed e;
}

abbrev pub no_attempt : Conn → List ℕ → Attempt
no_attempt c bytes = record {
  conn = c;
  n_wrote = pos 0;
  remaining = length bytes;
  error_occurs = false;
}

-- The task of the high water mark, queued when this call crosses the mark.
unfoldable pub note_high_water : Conn → ℕ → Conn
note_high_water c remaining =
    let old_len = Buffer.readable_bytes c.output_buffer in
    let new_len = add_size old_len remaining in
    if leb c.high_water_mark new_len && ltb old_len c.high_water_mark && c.has_high_water_mark
    then queue (high_waters new_len) c
    else c

-- The rest of `sendInLoop`: keep what was not written, and ask for writability.
unfoldable pub keep_rest : List ℕ → Attempt → Outcome Conn
keep_rest bytes a = do
  let c = note_high_water a.conn a.remaining
  rest ← bytes_at bytes a.n_wrote a.remaining
  out ← Buffer.append c.output_buffer rest
  let c' = record c { output_buffer = out }
  ok (if writing c' then c' else update Channel.enable_write_event c')

-- The direct write is made when nothing waits to be written.
unfoldable pub first_attempt : Conn → List ℕ → WriteResult → Attempt
first_attempt c bytes w =
    if not (writing c) && Buffer.readable_bytes c.output_buffer == 0
    then write_direct c bytes w
    else no_attempt c bytes

unfoldable pub finish_send : List ℕ → Attempt → Outcome Conn
finish_send bytes a = do
  assert (leb a.remaining (length bytes))
  if not a.error_occurs && ltb 0 a.remaining then keep_rest bytes a else ok a.conn

unfoldable pub send_in_loop : Bool → List ℕ → WriteResult → Conn → Outcome Conn
send_in_loop here bytes w c = do
  in_loop here
  if is_disconnected c.state then ok c else finish_send bytes (first_attempt c bytes w)

-- `send`: another thread leaves the call, with the pointer, to the loop.
unfoldable pub send : Bool → List ℕ → WriteResult → Conn → Outcome Conn
send here bytes w c =
    let now = send_in_loop true bytes w c in
    if is_connected c.state then (if here then now else ok (queue (sends bytes) c)) else ok c

unfoldable pub shutdown : Bool → Conn → Outcome Conn
shutdown here c =
    let c' = record c { state = k_disconnecting } in
    if is_connected c.state
    then (if here then shutdown_in_loop true c' else ok (queue shuts_down c'))
    else ok c

unfoldable pub force_close : Conn → Conn
force_close c =
    if is_open c.state then queue force_closes (record c { state = k_disconnecting }) else c

-- The task goes to a timer.
unfoldable pub force_close_with_delay : Conn → Conn
force_close_with_delay c =
    if is_open c.state
    then record c { state = k_disconnecting; delayed = c.delayed ++ force_closes ∷ [] }
    else c

-- `handleWirte` once the output buffer is empty.
unfoldable pub finish_write : Conn → Outcome Conn
finish_write c =
    let c₁ = update Channel.disable_write_event c in
    let c₂ = if c₁.has_write_complete then queue write_completes c₁ else c₁ in
    if is_disconnecting c₂.state then shutdown_in_loop true c₂ else ok c₂

-- `handleWirte` once write(2) took `n > 0` bytes of the output buffer.
unfoldable pub retrieve_written : ℕ → Conn → Outcome Conn
retrieve_written n c = do
  let out = c.output_buffer
  rest ← Buffer.retrieve out n
  let c' = record c {
    output_buffer = rest;
    wire = c.wire ++ take n (Buffer.peek out (Buffer.readable_bytes out));
  }
  if Buffer.readable_bytes rest == 0 then finish_write c' else ok c'

abbrev pub on_written : WriteResult → Conn → Outcome Conn
on_written (wrote n) c = if ltb 0 n then retrieve_written n c else ok c
on_written (failed e) c = ok c

-- `handleWirte`, with what write(2) returns for the readable bytes of the output buffer.
unfoldable pub handle_write : Bool → WriteResult → Conn → Outcome Conn
handle_write here w c = do in_loop here; if writing c then on_written w c else ok c
