-- ===== src/TcpConnection/Sending.antt =====
-- What `sendInLoop` does to the stream of bytes.
use oula_server.Prelude.{
  ltb, ◌==◌, if◌then◌else◌, ltb→lt, lt→ltb, le→leb, ==_ne, Bool-cases, length, take, drop,
  length-append, length-drop, take_all, take-append-drop, ok, ℕ, ◌+◌, ◌-◌, ◌≤◌, ◌≡◌, refl, sym, ap,
  ap₂, subst, ◌∙◌, inl, inr, true, false, ◌&&◌, List, [], ◌∷◌, ◌++◌, append-nil, append_assoc,
  arith,
}
use oula_server.Prelude.Int.{pos}
use oula_server.Buffer
use oula_server.Buffer.{Buffer, sub_size, add_size}
use oula_server.TcpConnection.Object.{
  write_completes, WriteResult, wrote, Conn, queue, writing, is_disconnected,
}
use oula_server.TcpConnection.Output.{
  Attempt, write_direct, first_attempt, finish_send, send_in_loop,
}
use oula_server.Buffer.Contents.{contents}
use oula_server.TcpConnection.Stream.{
  stream, OutputReady, queue_if, readable_bytes-length, Kept, keep_rest_lem,
}

-- One call of `sendInLoop` that write(2) does not refuse, and what it does to the stream.
pub record Sent (c : Conn) (bytes : List ℕ) (c' : Conn) : Type 0 where
  pub sent_ready : OutputReady c'
  pub sent_stream : stream c' ≡ stream c ++ bytes
  pub sent_state : c'.state ≡ c.state
  pub sent_shut : c'.write_shut ≡ c.write_shut
  pub sent_input : c'.input_buffer ≡ c.input_buffer
  pub sent_index : c'.output_buffer.writer_idx ≤ c.output_buffer.writer_idx + length bytes

Kept-Sent :
    (c₀ c d : Conn) (taken rest : List ℕ)
    → Kept c rest d
    → ltb 0 (length rest) ≡ true
    → stream c ≡ stream c₀ ++ taken
    → c.state ≡ c₀.state
    → c.write_shut ≡ c₀.write_shut
    → c.output_buffer ≡ c₀.output_buffer
    → c.input_buffer ≡ c₀.input_buffer
    → Sent c₀ (taken ++ rest) d
Kept-Sent c₀ c d taken rest k more e st sh out inp = record {
  sent_ready = record {
    out_valid = k.kept_valid;
    interest =
        k.kept_writing
        ∙ sym (
            lt→ltb 0 (length (contents d.output_buffer)) (
              omega (
                arith,
                ap length k.kept_bytes,
                length-append (contents c.output_buffer) rest,
                ltb→lt 0 (length rest) more,
              )));
  };
  sent_stream =
      ap₂ ◌++◌ k.kept_wire k.kept_bytes
      ∙ sym (append_assoc c.wire (contents c.output_buffer) rest)
      ∙ ap (λ xs. xs ++ rest) e
      ∙ append_assoc (stream c₀) taken rest;
  sent_state = k.kept_state ∙ st;
  sent_shut = k.kept_shut ∙ sh;
  sent_input = k.kept_input ∙ inp;
  sent_index =
      omega (arith, k.kept_index, ap (λ (b : Buffer). b.writer_idx) out, length-append taken rest);
}

pub length_zero : (xs : List ℕ) → ltb 0 (length xs) ≡ false → xs ≡ []
length_zero [] h = refl
length_zero (x ∷ xs) h = absurd (ground arith)

pub empty_output :
    {c : Conn} → OutputReady c → writing c ≡ false → length (contents c.output_buffer) ≡ 0
empty_output {c} r off =
    let e : ltb 0 (length (contents c.output_buffer)) ≡ false = sym r.interest ∙ off in ground arith

module _ (c : Conn) (bytes : List ℕ) (r : OutputReady c)
    (small : c.output_buffer.writer_idx + length bytes ≤ Buffer.max_size) where
  -- The output buffer is not empty: everything goes behind it.
  send_behind :
      (w : WriteResult)
      → writing c ≡ true
      → (c' : Conn) × (finish_send bytes (first_attempt c bytes w) ≡ ok c') × Sent c bytes c'
  unfolding finish_send first_attempt
  send_behind w on = elim (Bool-cases (ltb 0 (length bytes))) [
    | inl more ↦
        let (d, e, k) = keep_rest_lem c bytes 0 (length bytes) r.out_valid (omega arith) small in
        (
          d,
          rw (on, more, le→leb (length bytes) (length bytes) (omega arith)) e,
          Kept-Sent c c d [] bytes k more (sym (append-nil (stream c))) refl refl refl refl,
        )
    | inr no_bytes ↦ (
      c,
      rw (on, no_bytes, le→leb (length bytes) (length bytes) (omega arith)),
      let empty : bytes ≡ [] = length_zero bytes no_bytes in
          record {
            sent_ready = r;
            sent_stream = rw empty (sym (append-nil (stream c)));
            sent_state = refl;
            sent_shut = refl;
            sent_input = refl;
            sent_index = omega arith;
          },
    )
  ]

  -- The connection after a direct write of `n` bytes.
  abbrev after_write : ℕ → Conn
  after_write n = record c { wire = c.wire ++ take n bytes }

  abbrev attempted : ℕ → Attempt
  attempted n = record {
    conn =
        if length bytes - n == 0 && c.has_write_complete
        then queue write_completes (after_write n)
        else after_write n;
    n_wrote = pos n;
    remaining = length bytes - n;
    error_occurs = false;
  }

  stream_after : (n : ℕ) → writing c ≡ false → stream (after_write n) ≡ stream c ++ take n bytes
  stream_after n off =
      let none_left = length_zero (contents c.output_buffer) (sym r.interest ∙ off) in
      rw (none_left, append-nil (c.wire ++ take n bytes), append-nil c.wire)

  send_rest :
      (n : ℕ)
      → n ≤ length bytes
      → writing c ≡ false
      → ltb 0 (length bytes - n) ≡ true
      → (c' : Conn) × (finish_send bytes (attempted n) ≡ ok c') × Sent c bytes c'
  unfolding finish_send
  send_rest n le off more =
      let (d, e, k) =
        keep_rest_lem (after_write n) bytes n (length bytes - n) r.out_valid (omega arith)
          (omega arith) in
      let more' : ltb 0 (length (drop n bytes)) ≡ true = rw (length-drop n bytes) more in
      (
        d,
        rw
            (
              ==_ne (length bytes - n) 0 (ground arith),
              more,
              le→leb (length bytes - n) (length bytes) (omega arith),
            )
            e,
        subst (λ xs. Sent c xs d) (take-append-drop n bytes)
            (Kept-Sent c (after_write n) d (take n bytes) (drop n bytes) k more'
              (stream_after n off) refl refl refl refl),
      )

  send_whole :
      (n : ℕ)
      → n ≤ length bytes
      → writing c ≡ false
      → ltb 0 (length bytes - n) ≡ false
      → (c' : Conn) × (finish_send bytes (attempted n) ≡ ok c') × Sent c bytes c'
  unfolding finish_send
  send_whole n le off all =
      let (ts, e) =
        queue_if (length bytes - n == 0 && c.has_write_complete) write_completes (after_write n) in
      let whole : take n bytes ≡ bytes = take_all n bytes (ground arith) in
      (
        record (after_write n) { tasks = ts },
        rw (all, le→leb (length bytes - n) (length bytes) (omega arith)) (ap ok e),
        record {
          sent_ready = record { out_valid = r.out_valid; interest = r.interest };
          sent_stream = stream_after n off ∙ ap (◌++◌ (stream c)) whole;
          sent_state = refl;
          sent_shut = refl;
          sent_input = refl;
          sent_index = omega arith;
        },
      )

  -- The output buffer is empty: write(2) takes the first `n` bytes, and the buffer the others.
  send_direct :
      (n : ℕ)
      → n ≤ length bytes
      → writing c ≡ false
      → (c' : Conn) × (finish_send bytes (first_attempt c bytes (wrote n)) ≡ ok c')
        × Sent c bytes c'
  unfolding first_attempt write_direct
  send_direct n le off =
      let nothing : length (contents c.output_buffer) ≡ 0 = empty_output r off in
      let left : sub_size (length bytes) n ≡ length bytes - n = omega arith in
      rw (off, readable_bytes-length c r.out_valid, nothing, left)
        (elim (Bool-cases (ltb 0 (length bytes - n))) [
          | inl more ↦ send_rest n le off more
          | inr all ↦ send_whole n le off all
        ])

-- `sendInLoop` on a connection that is not disconnected, with a write(2) that takes `n` bytes at most
-- of those offered: it returns, no byte is lost, doubled or reordered, and the channel asks for
-- writability exactly if bytes are left.
pub send_in_loop_lem :
    (c : Conn) (bytes : List ℕ) (n : ℕ)
    → OutputReady c
    → n ≤ length bytes
    → is_disconnected c.state ≡ false
    → c.output_buffer.writer_idx + length bytes ≤ Buffer.max_size
    → (c' : Conn) × (send_in_loop true bytes (wrote n) c ≡ ok c') × Sent c bytes c'
unfolding send_in_loop
send_in_loop_lem c bytes n r le up small = rw up (elim (Bool-cases (writing c)) [
  | inl on ↦ send_behind c bytes r small (wrote n) on
  | inr off ↦ send_direct c bytes r small n le off
])
