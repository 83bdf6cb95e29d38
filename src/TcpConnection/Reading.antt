-- ===== src/TcpConnection/Reading.antt =====
-- `handleRead` of net/TcpConnection.cpp on every result of readv.
use oula_server.Prelude.{
  lt→ltb, length, Outcome, ok, ℕ, ◌+◌, ◌≤◌, ◌<◌, ◌≡◌, refl, true, none, some, List, [], ◌∷◌, ◌++◌,
  arith,
}
use oula_server.Buffer
use oula_server.Buffer.{Buffer, sub_size, add_size}
use oula_server.TcpConnection.Object.{Conn, new}
use oula_server.TcpConnection.Handlers.{handle_close, handle_read}
use oula_server.Buffer.Contents.{IsValid, contents}
use oula_server.Buffer.ReadFd.{read_fd_lem}

-- What `handleRead` has made of the input buffer before it calls back.
pub record Heard (b : Buffer) (bytes : List ℕ) (b' : Buffer) : Type 0 where
  pub heard_valid : IsValid b'
  pub heard_bytes : contents b' ≡ contents b ++ bytes
  pub heard_index : b'.writer_idx ≤ b.writer_idx + length bytes

module _ (connection_callback message_callback close_callback : Conn → Outcome Conn)
    (c : Conn) where
  read_any :
      (bytes : List ℕ)
      → IsValid c.input_buffer
      → c.input_buffer.writer_idx + length bytes ≤ Buffer.max_size
      → length bytes ≤ Buffer.read_room c.input_buffer
      → (b' : Buffer) × (Buffer.read_fd c.input_buffer (some bytes) ≡ ok (some (length bytes), b'))
        × Heard c.input_buffer bytes b'
  read_any bytes v small fits =
      let (b', e, v', new, index) = read_fd_lem v bytes small fits in
      (b', e, record { heard_valid = v'; heard_bytes = new; heard_index = index })

  pub read_bytes :
      (bytes : List ℕ)
      → IsValid c.input_buffer
      → c.input_buffer.writer_idx + length bytes ≤ Buffer.max_size
      → length bytes ≤ Buffer.read_room c.input_buffer
      → 0 < length bytes
      → (b' : Buffer) × (handle_read connection_callback message_callback close_callback true
            (some bytes)
            c
          ≡ message_callback (record c { input_buffer = b' }))
        × Heard c.input_buffer bytes b'
  unfolding handle_read
  read_bytes bytes v small fits more =
      let (b', e, h) = read_any bytes v small fits in (b', rw (e, lt→ltb 0 (length bytes) more), h)

  read_end :
      IsValid c.input_buffer
      → c.input_buffer.writer_idx + 0 ≤ Buffer.max_size
      → (b' : Buffer) × (handle_read connection_callback message_callback close_callback true
            (some [])
            c
          ≡ handle_close connection_callback message_callback close_callback true
              (record c { input_buffer = b' }))
        × Heard c.input_buffer [] b'
  unfolding handle_read
  read_end v small = let (b', e, h) = read_any [] v small (omega arith) in (b', rw e, h)

  read_failure :
      handle_read connection_callback message_callback close_callback true none c
      ≡ message_callback c
  unfolding handle_read Buffer.read_fd
  read_failure = refl

  -- `handleRead` puts what it read behind the unread input and then calls back; it closes the
  -- connection when the peer has; and when readv fails it calls the message callback, as if bytes had
  -- come, since -1 is converted to an unsigned number.
  pub handle_read_lem :
      (bytes : List ℕ) (b : ℕ)
      → IsValid c.input_buffer
      → c.input_buffer.writer_idx + length (b ∷ bytes) ≤ Buffer.max_size
      → length (b ∷ bytes) ≤ Buffer.read_room c.input_buffer
      → ((b' : Buffer) × (handle_read connection_callback message_callback close_callback true
              (some (b ∷ bytes))
              c
            ≡ message_callback (record c { input_buffer = b' }))
          × Heard c.input_buffer (b ∷ bytes) b')
        × ((b' : Buffer) × (handle_read connection_callback message_callback close_callback true
                (some [])
                c
              ≡ handle_close connection_callback message_callback close_callback true
                  (record c { input_buffer = b' }))
            × Heard c.input_buffer [] b')
        × (handle_read connection_callback message_callback close_callback true none c
            ≡ message_callback c)
  handle_read_lem bytes b v small fits =
      (read_bytes (b ∷ bytes) v small fits (omega arith), read_end v (omega arith), read_failure)
