-- ===== src/TcpConnection/Stream.antt =====
-- The bytes of a connection on their way out: what write(2) took, then what the output buffer holds.
use oula_server.Prelude.{
  ltb, if◌then◌else◌, le→leb, Bool-cases, length, take, drop, length-drop, take_all, ok, ℕ, ◌+◌,
  ◌≤◌, ◌≡◌, refl, sym, ap, ◌∙◌, inl, inr, Bool, true, false, List, [], ◌∷◌, ◌++◌, arith,
}
use oula_server.Prelude.Int.{pos}
use oula_server.Buffer
use oula_server.Buffer.{Buffer, sub_size, add_size}
use oula_server.Channel
use oula_server.Channel.{Channel, Events, Callbacks}
use oula_server.TcpConnection.Object.{Task, Conn, new, queue, update, writing}
use oula_server.TcpConnection.Output.{note_high_water, keep_rest}
use oula_server.Buffer.Contents.{IsValid, contents, readable_bytes_lem, length-contents}
use oula_server.Buffer.Append.{append_lem}

abbrev pub stream : Conn → List ℕ
stream c = c.wire ++ contents c.output_buffer

-- The channel asks for writability exactly while the output buffer holds bytes.
pub record OutputReady (c : Conn) : Type 0 where
  pub out_valid : IsValid c.output_buffer
  pub interest : writing c ≡ ltb 0 (length (contents c.output_buffer))

pub enable_write :
    (ch : Channel) → Channel.is_enable_write_event (Channel.enable_write_event ch) ≡ true
unfolding Channel.is_enable_write_event Channel.enable_write_event
enable_write ch = ground arith

pub disable_write :
    (ch : Channel) → Channel.is_enable_write_event (Channel.disable_write_event ch) ≡ false
unfolding Channel.is_enable_write_event Channel.disable_write_event
disable_write ch = ground arith

-- Only the queue of tasks may differ.
abbrev pub SameButTasks : Conn → Conn → Type 0
SameButTasks c c' = (ts : List Task) × (c' ≡ record c { tasks = ts })

pub queue_if : (b : Bool) (t : Task) (c : Conn) → SameButTasks c (if b then queue t c else c)
queue_if true t c = (c.tasks ++ t ∷ [], refl)
queue_if false t c = (c.tasks, refl)

pub note_high_water_lem : (c : Conn) (n : ℕ) → SameButTasks c (note_high_water c n)
unfolding note_high_water
note_high_water_lem c n = queue_if _ _ c

pub readable_bytes-length :
    (c : Conn)
    → IsValid c.output_buffer
    → Buffer.readable_bytes c.output_buffer ≡ length (contents c.output_buffer)
readable_bytes-length c v = readable_bytes_lem v ∙ sym (length-contents v)

-- What `sendInLoop` has done when it kept `rest` in the output buffer.
pub record Kept (c : Conn) (rest : List ℕ) (c' : Conn) : Type 0 where
  pub kept_valid : IsValid c'.output_buffer
  pub kept_bytes : contents c'.output_buffer ≡ contents c.output_buffer ++ rest
  pub kept_wire : c'.wire ≡ c.wire
  pub kept_writing : writing c' ≡ true
  pub kept_state : c'.state ≡ c.state
  pub kept_shut : c'.write_shut ≡ c.write_shut
  pub kept_input : c'.input_buffer ≡ c.input_buffer
  pub kept_index : c'.output_buffer.writer_idx ≤ c.output_buffer.writer_idx + length rest

ask_to_write :
    (c : Conn) (out : Buffer) (rest : List ℕ)
    → IsValid out
    → contents out ≡ contents c.output_buffer ++ rest
    → out.writer_idx ≤ c.output_buffer.writer_idx + length rest
    → let c' = record c { output_buffer = out } in
      (d : Conn) × ((if writing c' then c' else update Channel.enable_write_event c') ≡ d)
      × Kept c rest d
ask_to_write c out rest v e i = elim (Bool-cases (writing c)) [
  | inl on ↦ (
    record c { output_buffer = out },
    rw on,
    record {
      kept_valid = v;
      kept_bytes = e;
      kept_wire = refl;
      kept_writing = on;
      kept_state = refl;
      kept_shut = refl;
      kept_input = refl;
      kept_index = i;
    },
  )
  | inr off ↦ (
    update Channel.enable_write_event (record c { output_buffer = out }),
    rw off,
    record {
      kept_valid = v;
      kept_bytes = e;
      kept_wire = refl;
      kept_writing = enable_write c.channel;
      kept_state = refl;
      kept_shut = refl;
      kept_input = refl;
      kept_index = i;
    },
  )
]

pub keep_rest_lem :
    (c : Conn) (bytes : List ℕ) (n left : ℕ)
    → IsValid c.output_buffer
    → n + left ≡ length bytes
    → c.output_buffer.writer_idx + left ≤ Buffer.max_size
    → (c' : Conn) × (keep_rest bytes
          (record { conn = c; n_wrote = pos n; remaining = left; error_occurs = false })
        ≡ ok c')
      × Kept c (drop n bytes) c'
unfolding keep_rest
keep_rest_lem c bytes n left v e small =
    let (ts, same) = note_high_water_lem c left in
    let whole : take left (drop n bytes) ≡ drop n bytes =
      take_all left (drop n bytes) (omega (arith, length-drop n bytes)) in
    let (out, appended, valid, new, index) =
      append_lem (drop n bytes) v (omega (arith, length-drop n bytes)) in
    let (d, written, kept) =
      ask_to_write (record c { tasks = ts }) out (drop n bytes) valid new index in
    (
      d,
      rw (same, le→leb (n + left) (length bytes) (omega arith), whole, appended) (ap ok written),
      record {
        kept_valid = kept.kept_valid;
        kept_bytes = kept.kept_bytes;
        kept_wire = kept.kept_wire;
        kept_writing = kept.kept_writing;
        kept_state = kept.kept_state;
        kept_shut = kept.kept_shut;
        kept_input = kept.kept_input;
        kept_index = kept.kept_index;
      },
    )
