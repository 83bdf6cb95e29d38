-- ===== src/TcpConnection/Steps.antt =====
-- The steps of a connection in the thread of its loop: `send`, `shutdown`, and writable events.
use oula_server.Prelude.{
  Bool-cases, length, Outcome, ◌>>=◌, ok, ℕ, ◌+◌, ◌≤◌, min, ◌≡◌, refl, sym, ap, ◌∙◌, inl, inr, Bool,
  true, false, ◌&&◌, ◌||◌, List, [], ◌∷◌, ◌++◌, append-nil, arith,
}
use oula_server.Buffer
use oula_server.Buffer.{Buffer, sub_size, add_size}
use oula_server.TcpConnection.Object.{
  k_disconnecting, is_open, Errno, WriteResult, wrote, failed, Conn, writing, is_connected,
  is_disconnecting,
}
use oula_server.TcpConnection.Output.{shutdown_in_loop, send, shutdown, handle_write}
use oula_server.Buffer.Contents.{contents}
use oula_server.TcpConnection.Stream.{stream, OutputReady}
use oula_server.TcpConnection.Sending.{send_in_loop_lem}
use oula_server.TcpConnection.Draining.{is_empty, is_empty-length, handle_write_lem}

-- `writes bytes n`: a call of `send`; if it calls write(2), that takes `n` bytes, or all if there are
-- fewer. `drains n`: a writable event, with a write(2) that takes so many of the waiting bytes.
-- `stalls e`: a writable event with a write(2) that fails.
pub data Act : Type 0 where
  writes : List ℕ → ℕ → Act
  drains : ℕ → Act
  stalls : Errno → Act
  shuts : Act

unfoldable pub act : Act → Conn → Outcome Conn
act (writes bytes n) c = send true bytes (wrote (min n (length bytes))) c
act (drains n) c = handle_write true (wrote (min n (length (contents c.output_buffer)))) c
act (stalls e) c = handle_write true (failed e) c
act shuts c = shutdown true c

abbrev pub act_all : List Act → Conn → Outcome Conn
act_all [] c = ok c
act_all (x ∷ xs) c = do c' ← act x c; act_all xs c'

-- The bytes of the sends before the first shutdown.
abbrev pub accepted : List Act → List ℕ
accepted [] = []
accepted (writes bytes n ∷ xs) = bytes ++ accepted xs
accepted (drains n ∷ xs) = accepted xs
accepted (stalls e ∷ xs) = accepted xs
accepted (shuts ∷ xs) = []

-- An open connection whose write end is closed exactly if it is shutting down and nothing waits.
pub record Live (c : Conn) : Type 0 where
  pub ready : OutputReady c
  pub opened : is_open c.state ≡ true
  pub shut_late : c.write_shut ≡ (is_disconnecting c.state && is_empty (contents c.output_buffer))

-- What one step adds to the stream, and where it leaves the connection.
pub record Stepped (c : Conn) (bytes : List ℕ) (c' : Conn) : Type 0 where
  pub live : Live c'
  pub added : stream c' ≡ stream c ++ bytes
  pub input : c'.input_buffer ≡ c.input_buffer
  pub index : c'.output_buffer.writer_idx ≤ c.output_buffer.writer_idx + length bytes

pub stay : (c : Conn) → Live c → Stepped c [] c
stay c l = record {
  live = l;
  added = sym (append-nil (stream c));
  input = refl;
  index = omega arith;
}

late_sent :
    (c c' : Conn)
    → is_connected c.state ≡ true
    → c.write_shut ≡ (is_disconnecting c.state && is_empty (contents c.output_buffer))
    → c'.state ≡ c.state
    → c'.write_shut ≡ c.write_shut
    → c'.write_shut ≡ (is_disconnecting c'.state && is_empty (contents c'.output_buffer))
late_sent c c' up late st sh = rw (sh, st, late) (ground arith)

late_flushed :
    (c c' : Conn)
    → Live c
    → writing c ≡ true
    → c'.state ≡ c.state
    → c'.write_shut
      ≡ (c.write_shut || (is_disconnecting c.state && is_empty (contents c'.output_buffer)))
    → c'.write_shut ≡ (is_disconnecting c'.state && is_empty (contents c'.output_buffer))
late_flushed c c' l on st sh =
    rw (sh, st)
      (ground (arith, l.shut_late, l.ready.interest, is_empty-length (contents c.output_buffer)))

pub write_step :
    (c : Conn) (bytes : List ℕ) (n : ℕ)
    → Live c
    → is_connected c.state ≡ true
    → c.output_buffer.writer_idx + length bytes ≤ Buffer.max_size
    → (c' : Conn) × (act (writes bytes n) c ≡ ok c') × Stepped c bytes c' × (c'.state ≡ c.state)
unfolding act send
write_step c bytes n l up small =
    let k = min n (length bytes) in
    let (c', e, s) = send_in_loop_lem c bytes k l.ready (omega arith) (ground arith) small in
    (
      c',
      rw (up, e),
      record {
        live = record {
          ready = s.sent_ready;
          opened = ap is_open s.sent_state ∙ l.opened;
          shut_late = late_sent c c' up l.shut_late s.sent_state s.sent_shut;
        };
        added = s.sent_stream;
        input = s.sent_input;
        index = s.sent_index;
      },
      s.sent_state,
    )

-- A writable event, with the room that write(2) found in the socket.
abbrev Offered : Conn → WriteResult → Type 0
Offered c (wrote n) = n ≤ length (contents c.output_buffer)
Offered c (failed e) = Unit {0}

drain_step :
    (c : Conn) (w : WriteResult)
    → Live c
    → Offered c w
    → (c' : Conn) × (handle_write true w c ≡ ok c') × Stepped c [] c' × (c'.state ≡ c.state)
unfolding handle_write
drain_step c (failed e) l h = (c, ground arith, stay c l, refl)
drain_step c (wrote n) l h = elim (Bool-cases (writing c)) [
  | inl on ↦
      let (c', e, f) = handle_write_lem c n l.ready on h in
      (
        c',
        e,
        record {
          live = record {
            ready = f.flushed_ready;
            opened = ap is_open f.flushed_state ∙ l.opened;
            shut_late = late_flushed c c' l on f.flushed_state f.flushed_shut;
          };
          added = f.flushed_stream ∙ sym (append-nil (stream c));
          input = f.flushed_input;
          index = omega (arith, f.flushed_index);
        },
        f.flushed_state,
      )
  | inr off ↦ (c, rw off, stay c l, refl)
]

pub drains_step :
    (c : Conn) (n : ℕ)
    → Live c
    → (c' : Conn) × (act (drains n) c ≡ ok c') × Stepped c [] c' × (c'.state ≡ c.state)
unfolding act
drains_step c n l = drain_step c (wrote (min n (length (contents c.output_buffer)))) l (omega arith)

pub stalls_step :
    (c : Conn) (e : Errno)
    → Live c
    → (c' : Conn) × (act (stalls e) c ≡ ok c') × Stepped c [] c' × (c'.state ≡ c.state)
unfolding act
stalls_step c e l = drain_step c (failed e) l tt

abbrev closing : Conn → Bool → Conn
closing c b = record c { state = k_disconnecting; write_shut = b }

closing-Stepped :
    (c : Conn) (b : Bool)
    → Live c
    → b ≡ is_empty (contents c.output_buffer)
    → Stepped c [] (closing c b)
closing-Stepped c b l e = record {
  live = record {
    ready = record { out_valid = l.ready.out_valid; interest = l.ready.interest };
    opened = refl;
    shut_late = e;
  };
  added = sym (append-nil (stream c));
  input = refl;
  index = omega arith;
}

pub shut_step :
    (c : Conn)
    → Live c
    → (c' : Conn) × (act shuts c ≡ ok c') × Stepped c [] c' × (is_connected c'.state ≡ false)
unfolding act shutdown shutdown_in_loop
shut_step c l = elim (Bool-cases (is_connected c.state)) [
  | inr down ↦ (c, rw down, stay c l, down)
  | inl up ↦ elim (Bool-cases (writing c)) [
    | inl on ↦ (
      closing c c.write_shut,
      rw (up, on),
      closing-Stepped c c.write_shut l (
          ground
            (arith, l.shut_late, l.ready.interest, is_empty-length (contents c.output_buffer))),
      refl,
    )
    | inr off ↦ (
      closing c true,
      rw (up, off),
      closing-Stepped c true l
          (ground (arith, l.ready.interest, is_empty-length (contents c.output_buffer))),
      refl,
    )
  ]
]

-- A send on a connection that is shutting down does nothing.
pub refused_step :
    (c : Conn) (bytes : List ℕ) (n : ℕ)
    → is_connected c.state ≡ false
    → act (writes bytes n) c ≡ ok c
unfolding act send
refused_step c bytes n down = rw down
