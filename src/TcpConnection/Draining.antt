-- ===== src/TcpConnection/Draining.antt =====
-- What `handleWirte` does to the stream of bytes, and to the write end of the socket.
use oula_server.Prelude.{
  ltb, ◌==◌, if◌then◌else◌, lt→ltb, ==_ne, Bool-cases, length, take, drop, take-append-drop, ok, ℕ,
  suc, ◌≤◌, ◌≡◌, refl, sym, ap, ◌∙◌, inl, inr, Bool, true, false, ◌&&◌, ◌||◌, List, [], ◌∷◌, ◌++◌,
  append_assoc, arith,
}
use oula_server.Buffer
use oula_server.Buffer.{Buffer, sub_size, add_size}
use oula_server.Channel
use oula_server.Channel.{Channel, Events, Callbacks}
use oula_server.TcpConnection.Object.{
  Task, write_completes, wrote, Conn, update, writing, is_disconnecting,
}
use oula_server.TcpConnection.Output.{
  shutdown_in_loop, finish_write, retrieve_written, handle_write,
}
use oula_server.Buffer.Contents.{IsValid, contents, readable_bytes_lem}
use oula_server.Buffer.Retrieve.{retrieve_lem}
use oula_server.TcpConnection.Stream.{
  queue_if, stream, OutputReady, disable_write, readable_bytes-length,
}
use oula_server.TcpConnection.Sending.{length_zero}

abbrev pub is_empty : List ℕ → Bool
is_empty [] = true
is_empty (x ∷ xs) = false

pub is_empty-length : (xs : List ℕ) → is_empty xs ≡ (length xs == 0)
is_empty-length [] = refl
is_empty-length (x ∷ xs) = sym (==_ne (suc (length xs)) 0 (omega arith))

-- `handleWirte` leaves the stream as it is. It closes the write end of a connection that is shutting
-- down if it wrote the last byte, and else leaves the write end alone.
pub record Flushed (c c' : Conn) : Type 0 where
  pub flushed_ready : OutputReady c'
  pub flushed_stream : stream c' ≡ stream c
  pub flushed_state : c'.state ≡ c.state
  pub flushed_input : c'.input_buffer ≡ c.input_buffer
  pub flushed_index : c'.output_buffer.writer_idx ≤ c.output_buffer.writer_idx
  pub flushed_shut :
      c'.write_shut
      ≡ (c.write_shut || (is_disconnecting c.state && is_empty (contents c'.output_buffer)))

-- The connection after write(2) took `n` bytes, with `rest` for its output buffer.
abbrev took : Conn → ℕ → Buffer → Conn
took c n rest = record c {
  output_buffer = rest;
  wire = c.wire ++ take n (contents c.output_buffer);
}

stream-took :
    (c : Conn) (n : ℕ) (rest : Buffer)
    → contents rest ≡ drop n (contents c.output_buffer)
    → stream (took c n rest) ≡ stream c
stream-took c n rest e =
    rw (e, append_assoc) (ap (◌++◌ c.wire) (take-append-drop n (contents c.output_buffer)))

peek_all : (b : Buffer) → IsValid b → Buffer.peek b (Buffer.readable_bytes b) ≡ contents b
unfolding Buffer.peek
peek_all b v = rw (readable_bytes_lem v)

-- The tail of `finish_write`, on a connection that asks for writability no more.
finish_shut :
    (c : Conn)
    → OutputReady c
    → writing c ≡ false
    → is_empty (contents c.output_buffer) ≡ true
    → (c' : Conn) × ((if is_disconnecting c.state then shutdown_in_loop true c else ok c) ≡ ok c')
      × Flushed c c'
unfolding shutdown_in_loop
finish_shut c r off none_left = elim (Bool-cases (is_disconnecting c.state)) [
  | inl closing ↦ (
    record c { write_shut = true },
    rw (closing, off),
    record {
      flushed_ready = record { out_valid = r.out_valid; interest = r.interest };
      flushed_stream = refl;
      flushed_state = refl;
      flushed_input = refl;
      flushed_index = omega arith;
      flushed_shut = shut_eq closing;
    },
  )
  | inr up ↦ (
    c,
    rw up,
    record {
      flushed_ready = r;
      flushed_stream = refl;
      flushed_state = refl;
      flushed_input = refl;
      flushed_index = omega arith;
      flushed_shut = open_eq up;
    },
  )
]
  where
    shut_eq :
        is_disconnecting c.state ≡ true
        → true ≡ (c.write_shut || (is_disconnecting c.state && is_empty (contents c.output_buffer)))
    shut_eq e = ground arith

    open_eq :
        is_disconnecting c.state ≡ false
        → c.write_shut
          ≡ (c.write_shut || (is_disconnecting c.state && is_empty (contents c.output_buffer)))
    open_eq e = ground arith

-- The connection of `finish_write` before its last test.
abbrev quiet : Conn → List Task → Conn
quiet c ts = record (update Channel.disable_write_event c) { tasks = ts }

-- What `finish_write` does, for a connection whose output buffer is empty.
finish_write_lem :
    (c : Conn)
    → IsValid c.output_buffer
    → contents c.output_buffer ≡ []
    → (c' : Conn) × (finish_write c ≡ ok c') × Flushed c c'
unfolding finish_write
finish_write_lem c v none_left =
    let (ts, e) =
      queue_if c.has_write_complete write_completes (update Channel.disable_write_event c) in
    let off = disable_write c.channel in
    let ready : OutputReady (quiet c ts) = record {
      out_valid = v;
      interest = off ∙ ap (λ xs. ltb 0 (length xs)) (sym none_left);
    } in
    let (c', e', f) = finish_shut (quiet c ts) ready off (ap is_empty none_left) in
    (
      c',
      rw e e',
      record {
        flushed_ready = f.flushed_ready;
        flushed_stream = f.flushed_stream;
        flushed_state = f.flushed_state;
        flushed_input = f.flushed_input;
        flushed_index = f.flushed_index;
        flushed_shut = f.flushed_shut;
      },
    )

took_ready :
    (c : Conn) (n : ℕ) (rest : Buffer)
    → writing c ≡ true
    → IsValid rest
    → (length (contents rest) == 0) ≡ false
    → OutputReady (took c n rest)
took_ready c n rest on v some_left = record {
  out_valid = v;
  interest = on ∙ sym (lt→ltb 0 (length (contents rest)) (ground arith));
}

unread :
    (c : Conn) (n : ℕ) (rest : Buffer)
    → (length (contents rest) == 0) ≡ false
    → c.write_shut ≡ (c.write_shut || (is_disconnecting c.state && is_empty (contents rest)))
unread c n rest some_left = ground (arith, is_empty-length (contents rest))

retrieve_written_lem :
    (c : Conn) (n : ℕ)
    → OutputReady c
    → writing c ≡ true
    → n ≤ length (contents c.output_buffer)
    → (c' : Conn) × (retrieve_written n c ≡ ok c') × Flushed c c'
unfolding retrieve_written
retrieve_written_lem c n r on le =
    let (rest, e, d) = retrieve_lem r.out_valid n le in
    let (v, left, index) = d in
    let same = stream-took c n rest left in
    rw (e, peek_all c.output_buffer r.out_valid, readable_bytes-length (took c n rest) v)
      (elim (Bool-cases (length (contents rest) == 0)) [
        | inl all ↦
            let (c', e', f) =
              finish_write_lem (took c n rest) v (length_zero (contents rest) (ground arith)) in
            (
              c',
              rw all e',
              record {
                flushed_ready = f.flushed_ready;
                flushed_stream = f.flushed_stream ∙ same;
                flushed_state = f.flushed_state;
                flushed_input = f.flushed_input;
                flushed_index = omega (arith, f.flushed_index);
                flushed_shut = f.flushed_shut;
              },
            )
        | inr some_left ↦ (
          took c n rest,
          rw some_left,
          record {
            flushed_ready = took_ready c n rest on v some_left;
            flushed_stream = same;
            flushed_state = refl;
            flushed_input = refl;
            flushed_index = index;
            flushed_shut = unread c n rest some_left;
          },
        )
      ])

nothing_taken :
    (c : Conn)
    → OutputReady c
    → writing c ≡ true
    → c.write_shut
      ≡ (c.write_shut || (is_disconnecting c.state && is_empty (contents c.output_buffer)))
nothing_taken c r on = ground (arith, r.interest, is_empty-length (contents c.output_buffer))

-- `handleWirte` on a channel that asks for writability, when write(2) takes `n` bytes at most of
-- those in the output buffer.
pub handle_write_lem :
    (c : Conn) (n : ℕ)
    → OutputReady c
    → writing c ≡ true
    → n ≤ length (contents c.output_buffer)
    → (c' : Conn) × (handle_write true (wrote n) c ≡ ok c') × Flushed c c'
unfolding handle_write
handle_write_lem c n r on le = elim (Bool-cases (ltb 0 n)) [
  | inl more ↦ rw (on, more) (retrieve_written_lem c n r on le)
  | inr zero_bytes ↦ (
    c,
    rw (on, zero_bytes),
    record {
      flushed_ready = r;
      flushed_stream = refl;
      flushed_state = refl;
      flushed_input = refl;
      flushed_index = omega arith;
      flushed_shut = nothing_taken c r on;
    },
  )
]
