-- ===== src/Buffer/ReadFd.antt =====
-- `readFd` of net/Buffer.cpp: one `readv` into the writable bytes and a buffer on the stack.
use oula_server.Prelude.{
  ltb, leb, if◌then◌else◌, le→ltb, leb→le, le→leb, Bool-cases, length, take, drop, length-take,
  length-drop, take_all, take-append-drop, ok, ℕ, ◌+◌, ◌-◌, ◌≤◌, ◌<◌, ◌≡◌, ap, subst, ◌∙◌, inl, inr,
  false, some, List, ◌++◌, append_assoc, arith,
}
use oula_server.Buffer.{Buffer, max_size, extra_buf_size, add_size, overwrite, read_room, read_fd}
use oula_server.Buffer.Contents.{IsValid, contents, writable_bytes_lem, length-overwrite}
use oula_server.Buffer.Append.{append_lem, write_behind, Appended}

-- `readv` is offered room for 65535 bytes at least.
pub read_room_le : {b : Buffer} → IsValid b → extra_buf_size ≤ read_room b
unfolding read_room
read_room_le v = rw (writable_bytes_lem v) (ground arith)

abbrev pub Received : Buffer → List ℕ → Type 0
Received b bytes =
    (b' : Buffer) × (read_fd b (some bytes) ≡ ok (some (length bytes), b'))
    × IsValid b'
    × (contents b' ≡ contents b ++ bytes)
    × (b'.writer_idx ≤ b.writer_idx + length bytes)

-- What is left for `extraBuf` fits into it.
read_room_extra :
    {b : Buffer}
    → IsValid b
    → {n : ℕ} → length b.buffer - b.writer_idx < n
    → n ≤ read_room b
    → n - (length b.buffer - b.writer_idx) ≤ extra_buf_size
unfolding read_room
read_room_extra {b} v {n} h fits =
    let fits' : n ≤ (if ltb room extra_buf_size then room + extra_buf_size else room) =
      rw (writable_bytes_lem v) at fits in
    ground arith
  where
    room : ℕ
    room = length b.buffer - b.writer_idx

leb_of_lt : {a b : ℕ} → b < a → leb a b ≡ false
leb_of_lt h = ground arith

module _ {b : Buffer} (v : IsValid b) (bytes : List ℕ)
    (small : b.writer_idx + length bytes ≤ max_size) where
  read_fd_within : length bytes ≤ length b.buffer - b.writer_idx → Received b bytes
  unfolding read_fd
  read_fd_within h =
      let n : add_size b.writer_idx (length bytes) ≡ b.writer_idx + length bytes = omega arith in
      let (valid, new) = write_behind bytes v h in
      (
        record b {
          buffer = overwrite b.buffer b.writer_idx bytes;
          writer_idx = b.writer_idx + length bytes;
        },
        rw (
          writable_bytes_lem v,
          take_all (length b.buffer - b.writer_idx) bytes h,
          le→leb _ _ h,
          n,
        ),
        valid,
        new,
        omega arith,
      )

  read_fd_spills :
      length b.buffer - b.writer_idx < length bytes → length bytes ≤ read_room b → Received b bytes
  unfolding read_fd
  read_fd_spills h fits =
      let room = length b.buffer - b.writer_idx in
      let front = take room bytes in
      let buffer = overwrite b.buffer b.writer_idx front in
      let f : length front ≡ room = omega (arith, length-take room bytes) in
      let n = length-overwrite b.buffer b.writer_idx front (omega (arith, f)) in
      let full : b.writer_idx + length front ≡ length buffer = omega (arith, f, n) in
      let (valid, new) =
        subst (λ k. Appended b front (record b { buffer = buffer; writer_idx = k })) full
          (write_behind front v (omega (arith, f))) in
      let tail = length-drop room bytes in
      let (b', e, valid', new', back) =
        append_lem (drop room bytes) valid (omega (arith, n, tail)) in
      let extra : ltb extra_buf_size (length bytes - room) ≡ false =
        le→ltb _ _ (read_room_extra v h fits) in
      (
        b',
        rw (writable_bytes_lem v, leb_of_lt h, extra, e),
        valid',
        new'
            ∙ ap (λ xs. xs ++ drop room bytes) new
            ∙ append_assoc (contents b) front (drop room bytes)
            ∙ ap (◌++◌ (contents b)) (take-append-drop room bytes),
        omega (arith, n, tail),
      )

  -- Whatever `readv` read, up to the room that it was offered, is put behind the readable bytes in
  -- order; the second part of it comes from the stack. Nothing is read outside `extraBuf`.
  pub read_fd_lem : length bytes ≤ read_room b → Received b bytes
  read_fd_lem fits = elim (Bool-cases (leb (length bytes) (length b.buffer - b.writer_idx))) [
    | inl h ↦ read_fd_within (leb→le _ _ h)
    | inr h ↦ read_fd_spills (ground arith) fits
  ]
