-- ===== src/Callback.antt =====
-- net/Callback.cpp: the message callback that a server has by default echoes what it reads.
mod Examples
use oula_server.Prelude.{
  length, Outcome, ◌>>=◌, ok, ℕ, ◌+◌, ◌≤◌, ◌<◌, min, ◌≡◌, refl, sym, ap, subst, ◌∙◌, Bool, true,
  some, List, [], ◌∷◌, ◌++◌, append-nil, append_assoc, arith,
}
use oula_server.Buffer
use oula_server.Buffer.{Buffer, sub_size, add_size}
use oula_server.TcpConnection.Object.{WriteResult, wrote, Conn, is_connected}
use oula_server.TcpConnection.Output.{send, handle_write}
use oula_server.TcpConnection.Handlers.{handle_read}
use oula_server.Buffer.Contents.{IsValid, contents}
use oula_server.Buffer.Retrieve.{retrieve_all_as_string_lem}
use oula_server.Buffer.ReadFd.{read_room_le}
use oula_server.TcpConnection.Stream.{stream}
use oula_server.TcpConnection.Steps.{act, Live, write_step, drains_step}
use oula_server.TcpConnection.Reading.{read_bytes}

-- `defaultMessageCallback`, with what write(2) would return in `send`.
unfoldable pub default_message_callback : Bool → WriteResult → Conn → Outcome Conn
default_message_callback here w c = do
  r ← Buffer.retrieve_all_as_string c.input_buffer
  send here r.0 w (record c { input_buffer = r.1 })

-- A connection that echoes, between two events: no input waits.
pub record Echoing (c : Conn) : Type 0 where
  pub live : Live c
  pub connected : is_connected c.state ≡ true
  pub in_valid : IsValid c.input_buffer
  pub in_empty : contents c.input_buffer ≡ []

-- An event: `bytes` arrive, and a write(2) takes `n` at most; or the socket becomes writable.
pub data Event : Type 0 where
  hears : List ℕ → ℕ → Event
  flushes : ℕ → Event

module _ (connection_callback close_callback : Conn → Outcome Conn) where
  unfoldable pub serve : Event → Conn → Outcome Conn
  serve (hears bytes n) c =
      handle_read connection_callback (default_message_callback true (wrote (min n (length bytes))))
        close_callback true (some bytes) c
  serve (flushes n) c = handle_write true (wrote (min n (length (contents c.output_buffer)))) c

  unfoldable pub serve_all : List Event → Conn → Outcome Conn
  serve_all [] c = ok c
  serve_all (e ∷ es) c = do c' ← serve e c; serve_all es c'

abbrev pub heard : List Event → List ℕ
heard [] = []
heard (hears bytes n ∷ es) = bytes ++ heard es
heard (flushes n ∷ es) = heard es

-- Each arrival brings a byte at least, and 65535 at most; together they fit.
abbrev pub Arrives : ℕ → ℕ → List Event → Type 0
Arrives i o [] = Unit {0}
Arrives i o (hears bytes n ∷ es) =
    (0 < length bytes)
    × (length bytes ≤ Buffer.extra_buf_size)
    × (i + length bytes ≤ Buffer.max_size)
    × (o + length bytes ≤ Buffer.max_size)
    × Arrives (i + length bytes) (o + length bytes) es
Arrives i o (flushes n ∷ es) = Arrives i o es

-- What one event has done.
record Served (c : Conn) (bytes : List ℕ) (gained : ℕ) (c' : Conn) : Type 0 where
  echoing : Echoing c'
  echoed : stream c' ≡ stream c ++ bytes
  in_index : c'.input_buffer.writer_idx ≤ c.input_buffer.writer_idx + gained
  out_index : c'.output_buffer.writer_idx ≤ c.output_buffer.writer_idx + length bytes

echo_step :
    (c : Conn) (bytes : List ℕ) (n : ℕ)
    → Live c
    → is_connected c.state ≡ true
    → IsValid c.input_buffer
    → contents c.input_buffer ≡ bytes
    → c.output_buffer.writer_idx + length bytes ≤ Buffer.max_size
    → (c' : Conn) × (default_message_callback true (wrote (min n (length bytes))) c ≡ ok c')
      × Served c bytes 0 c'
unfolding default_message_callback act
echo_step c bytes n l up v e small =
    let (b, taken, v', none_left, index) = retrieve_all_as_string_lem v in
    let d : Conn = record c { input_buffer = b } in
    let live : Live d = record {
      ready = record { out_valid = l.ready.out_valid; interest = l.ready.interest };
      opened = l.opened;
      shut_late = l.shut_late;
    } in
    let (c', written, s, same) = write_step d bytes n live up small in
    (
      c',
      rw (taken, e) written,
      record {
        echoing = record {
          live = s.live;
          connected = ap is_connected same ∙ up;
          in_valid = subst IsValid (sym s.input) v';
          in_empty = ap contents s.input ∙ none_left;
        };
        echoed = s.added;
        in_index = omega (arith, ap (λ (x : Buffer). x.writer_idx) s.input, index);
        out_index = s.index;
      },
    )

hear_step :
    (c : Conn) (bytes : List ℕ) (n : ℕ)
    → Echoing c
    → 0 < length bytes
    → length bytes ≤ Buffer.extra_buf_size
    → c.input_buffer.writer_idx + length bytes ≤ Buffer.max_size
    → c.output_buffer.writer_idx + length bytes ≤ Buffer.max_size
    → (connection_callback close_callback : Conn → Outcome Conn)
    → (c' : Conn) × (serve connection_callback close_callback (hears bytes n) c ≡ ok c')
      × Served c bytes (length bytes) c'
unfolding serve
hear_step c bytes n h more few small_in small_out cb cl =
    let (b, e, k) =
      read_bytes cb (default_message_callback true (wrote (min n (length bytes)))) cl c bytes
        h.in_valid small_in (omega (arith, few, read_room_le h.in_valid)) more in
    let live : Live (record c { input_buffer = b }) = record {
      ready = record { out_valid = h.live.ready.out_valid; interest = h.live.ready.interest };
      opened = h.live.opened;
      shut_late = h.live.shut_late;
    } in
    let all_new = k.heard_bytes ∙ ap (λ xs. xs ++ bytes) h.in_empty in
    let (c', e', s) =
      echo_step (record c { input_buffer = b }) bytes n live h.connected k.heard_valid all_new
        small_out in
    (
      c',
      e ∙ e',
      record {
        echoing = s.echoing;
        echoed = s.echoed;
        in_index = omega (arith, s.in_index, k.heard_index);
        out_index = s.out_index;
      },
    )

flush_step :
    (c : Conn) (n : ℕ)
    → Echoing c
    → (connection_callback close_callback : Conn → Outcome Conn)
    → (c' : Conn) × (serve connection_callback close_callback (flushes n) c ≡ ok c')
      × Served c [] 0 c'
unfolding serve act
flush_step c n h cb cl =
    let (c', e, s, same) = drains_step c n h.live in
    (
      c',
      e,
      record {
        echoing = record {
          live = s.live;
          connected = ap is_connected same ∙ h.connected;
          in_valid = subst IsValid (sym s.input) h.in_valid;
          in_empty = ap contents s.input ∙ h.in_empty;
        };
        echoed = s.added;
        in_index = omega (arith, ap (λ (x : Buffer). x.writer_idx) s.input);
        out_index = s.index;
      },
    )

Arrives-le : (i j o p : ℕ) (es : List Event) → i ≤ j → o ≤ p → Arrives j p es → Arrives i o es
Arrives-le i j o p [] h k a = tt
Arrives-le i j o p (hears bytes n ∷ es) h k (more, few, small_in, small_out, rest) = (
  more,
  few,
  omega arith,
  omega arith,
  Arrives-le (i + length bytes) (j + length bytes) (o + length bytes) (p + length bytes) es
      (omega arith) (omega arith) rest,
)
Arrives-le i j o p (flushes n ∷ es) h k a = Arrives-le i j o p es h k a

module _ (connection_callback close_callback : Conn → Outcome Conn) where
  abbrev Echoes : List Event → Conn → Type 0
  Echoes es c =
      (c' : Conn) × (serve_all connection_callback close_callback es c ≡ ok c')
      × Echoing c'
      × (stream c' ≡ stream c ++ heard es)

  abbrev Onward : List Event → Type 0
  Onward es =
      (d : Conn)
      → Echoing d
      → Arrives d.input_buffer.writer_idx d.output_buffer.writer_idx es
      → Echoes es d

  hear_next :
      (bytes : List ℕ) (n : ℕ) (es : List Event) (c : Conn)
      → Onward es
      → Echoing c
      → Arrives c.input_buffer.writer_idx c.output_buffer.writer_idx (hears bytes n ∷ es)
      → Echoes (hears bytes n ∷ es) c
  unfolding serve_all
  hear_next bytes n es c onward h (more, few, small_in, small_out, rest) =
      let (d, e, s) =
        hear_step c bytes n h more few small_in small_out connection_callback close_callback in
      let (c', e', k, t) = onward d s.echoing (Arrives-le _ _ _ _ es s.in_index s.out_index rest) in
      (
        c',
        rw e e',
        k,
        t ∙ ap (λ ys. ys ++ heard es) s.echoed ∙ append_assoc (stream c) bytes (heard es),
      )

  flush_next :
      (n : ℕ) (es : List Event) (c : Conn)
      → Onward es
      → Echoing c
      → Arrives c.input_buffer.writer_idx c.output_buffer.writer_idx es
      → Echoes (flushes n ∷ es) c
  unfolding serve_all
  flush_next n es c onward h rest =
      let (d, e, s) = flush_step c n h connection_callback close_callback in
      let (c', e', k, t) = onward d s.echoing (
        Arrives-le d.input_buffer.writer_idx c.input_buffer.writer_idx d.output_buffer.writer_idx
          c.output_buffer.writer_idx es (omega (arith, s.in_index)) (omega (arith, s.out_index))
          rest) in
      (c', rw e e', k, t ∙ ap (λ ys. ys ++ heard es) (s.echoed ∙ append-nil (stream c)))

  -- A connection with the default message callback echoes. Suppose that data arrives in pieces of 1 to
  -- 65535 bytes, that each write(2) succeeds, taking any number of the bytes it is given, and that all
  -- bytes which arrive, added to the write index of either buffer, stay within the size that a vector
  -- may have. Then no call fails, the input buffer is empty after each event, and the bytes on the
  -- wire followed by those that wait are what they were, followed by all bytes that arrived, in order.
  pub echoes :
      (es : List Event) (c : Conn)
      → Echoing c
      → Arrives c.input_buffer.writer_idx c.output_buffer.writer_idx es
      → (c' : Conn) × (serve_all connection_callback close_callback es c ≡ ok c')
        × Echoing c'
        × (stream c' ≡ stream c ++ heard es)
  unfolding serve_all
  echoes [] c h a = (c, refl, h, sym (append-nil (stream c)))
  echoes (hears bytes n ∷ es) c h a = hear_next bytes n es c (echoes es) h a
  echoes (flushes n ∷ es) c h a = flush_next n es c (echoes es) h a
