-- ===== src/Buffer/Append.antt =====
-- `makeSpace`, `ensureWritableBytes`, `hasWritten` and `append` of net/Buffer.h.
use oula_server.Prelude.{
  ltb, if◌then◌else◌, ltb→lt, lt→ltb, le→ltb, le→leb, Bool-cases, length, take, drop, replicate,
  length-append, length-take, length-drop, length-replicate, take_all, take-append_le,
  drop-append_le, take-append_length, ok, ℕ, ◌+◌, ◌-◌, ◌≤◌, ◌<◌, ◌≡◌, refl, inl, inr, List, ◌++◌,
  arith,
}
use oula_server.Buffer.{
  Buffer, max_size, add_size, overwrite, writable_bytes, prependable_bytes, make_space,
  ensure_writable_bytes, has_written, append,
}
use oula_server.Buffer.Contents.{
  IsValid, contents, readable_bytes_lem, writable_bytes_lem, length-contents, length-overwrite,
  window-overwrite,
}

-- A vector that is resized to a larger size keeps the window of the readable bytes.
window-resize :
    (xs : List ℕ) (r w n : ℕ)
    → r ≤ w
    → w ≤ length xs
    → length xs ≤ n
    → take (w - r) (drop r (take n xs ++ replicate (n - length xs) 0)) ≡ take (w - r) (drop r xs)
window-resize xs r w n h k l =
    rw (take_all n xs l, drop-append_le r xs (replicate (n - length xs) 0) (omega arith))
      (take-append_le (w - r) (drop r xs) (replicate (n - length xs) 0)
        (omega (arith, length-drop r xs)))

length-resize :
    (xs : List ℕ) (n : ℕ) → length xs ≤ n → length (take n xs ++ replicate (n - length xs) 0) ≡ n
length-resize xs n l = omega (
  arith,
  length-append (take n xs) (replicate (n - length xs) 0),
  length-take n xs,
  length-replicate {A = ℕ} (n - length xs) 0,
)

abbrev pub HasRoom : Buffer → ℕ → Buffer → Type 0
HasRoom b len b' =
    IsValid b'
    × (contents b' ≡ contents b)
    × (len ≤ length b'.buffer - b'.writer_idx)
    × (b'.writer_idx ≤ b.writer_idx)

abbrev grown : Buffer → ℕ → Buffer
grown b len =
    let n = b.writer_idx + len in
    record b { buffer = take n b.buffer ++ replicate (n - length b.buffer) 0 }

abbrev moved : Buffer → Buffer
moved b = record b {
  buffer = overwrite b.buffer 0 (contents b);
  reader_idx = 0;
  writer_idx = b.writer_idx - b.reader_idx;
}

grown-HasRoom :
    {b : Buffer} (len : ℕ)
    → IsValid b
    → length b.buffer ≤ b.writer_idx + len
    → b.writer_idx + len ≤ max_size
    → HasRoom b len (grown b len)
grown-HasRoom {b} len v l small =
    let n = b.writer_idx + len in
    let e = length-resize b.buffer n l in
    (
      record {
        readable_ordered = v.readable_ordered;
        within = omega (arith, e);
        allocated = omega (arith, e);
      },
      window-resize b.buffer b.reader_idx b.writer_idx n v.readable_ordered v.within l,
      omega (arith, e),
      omega arith,
    )

length-moved : {b : Buffer} → IsValid b → length (moved b).buffer ≡ length b.buffer
length-moved {b} v = length-overwrite b.buffer 0 (contents b) (omega (arith, length-contents v))

moved-IsValid : {b : Buffer} → IsValid b → IsValid (moved b)
moved-IsValid {b} v =
    let e = length-moved v in
    record {
      readable_ordered = omega arith;
      within = omega (arith, e);
      allocated = omega (arith, e);
    }

moved-HasRoom :
    {b : Buffer} (len : ℕ)
    → IsValid b
    → len ≤ length b.buffer - b.writer_idx + b.reader_idx
    → HasRoom b len (moved b)
moved-HasRoom {b} len v enough = (
  moved-IsValid v,
  take-append_length (b.writer_idx - b.reader_idx - 0) (contents b)
      (drop (0 + length (contents b)) b.buffer) (omega (arith, length-contents v)),
  omega (arith, length-moved v),
  omega arith,
)

module _ {b : Buffer} (v : IsValid b) (len : ℕ) (short : length b.buffer - b.writer_idx < len) where
  -- The branch that resizes the vector.
  make_space_grows :
      length b.buffer - b.writer_idx + b.reader_idx < len
      → b.writer_idx + len ≤ max_size
      → make_space b len ≡ ok (grown b len)
  unfolding make_space prependable_bytes
  make_space_grows few small =
      let n : add_size b.writer_idx len ≡ b.writer_idx + len = omega arith in
      let room = length b.buffer - b.writer_idx in
      rw (writable_bytes_lem v, n)
        (rw (
          lt→ltb (add_size room b.reader_idx) (add_size len 0) (omega arith),
          le→ltb max_size (b.writer_idx + len) small,
        ))

  -- The branch that moves the readable bytes to the front; its assertions hold.
  make_space_moves :
      len ≤ length b.buffer - b.writer_idx + b.reader_idx → make_space b len ≡ ok (moved b)
  unfolding make_space prependable_bytes
  make_space_moves enough =
      let room = length b.buffer - b.writer_idx in
      let n : add_size 0 (b.writer_idx - b.reader_idx) ≡ b.writer_idx - b.reader_idx =
        omega arith in
      rw (writable_bytes_lem v, readable_bytes_lem v, n)
        (rw
          (
            le→ltb (add_size room b.reader_idx) (add_size len 0) (omega arith),
            lt→ltb 0 b.reader_idx (omega arith),
          )
          (rw (readable_bytes_lem (moved-IsValid v)) (ground arith)))

room_made :
    {b : Buffer} (len : ℕ)
    → IsValid b
    → b.writer_idx + len ≤ max_size
    → (b' : Buffer) × ((if ltb (writable_bytes b) len then make_space b len else ok b) ≡ ok b')
      × HasRoom b len b'
room_made {b} len v small = rw (writable_bytes_lem v) (elim (Bool-cases (ltb room len)) [
  | inl few ↦ elim (Bool-cases (ltb (room + b.reader_idx) len)) [
    | inl grow ↦ (
      grown b len,
      rw few (make_space_grows v len (ltb→lt _ _ few) (ltb→lt _ _ grow) small),
      grown-HasRoom len v (ground arith) small,
    )
    | inr move ↦
        let le : len ≤ room + b.reader_idx = ground arith in
        (moved b, rw few (make_space_moves v len (ltb→lt _ _ few) le), moved-HasRoom len v le)
  ]
  | inr enough ↦ (b, rw enough, (v, refl, ground arith, omega arith))
])
  where
    room : ℕ
    room = length b.buffer - b.writer_idx

-- Room is made without losing a readable byte, whatever the layout, and no assertion fails.
pub ensure_writable_bytes-HasRoom :
    {b : Buffer} (len : ℕ)
    → IsValid b
    → b.writer_idx + len ≤ max_size
    → (b' : Buffer) × (ensure_writable_bytes b len ≡ ok b') × HasRoom b len b'
unfolding ensure_writable_bytes
ensure_writable_bytes-HasRoom {b} len v small =
    let (b', e, h) = room_made len v small in
    (b', rw (e, writable_bytes_lem h.0) (rw (le→leb len _ h.2)), h)

abbrev pub Appended : Buffer → List ℕ → Buffer → Type 0
Appended b bytes b' = IsValid b' × (contents b' ≡ contents b ++ bytes)

-- Writing behind the readable bytes, where there is room, and moving the index.
pub write_behind :
    {b : Buffer} (bytes : List ℕ)
    → IsValid b
    → length bytes ≤ length b.buffer - b.writer_idx
    → Appended b bytes (record b {
      buffer = overwrite b.buffer b.writer_idx bytes;
      writer_idx = b.writer_idx + length bytes;
    })
write_behind {b} bytes v room =
    let e = length-overwrite b.buffer b.writer_idx bytes (omega arith) in
    (
      record {
        readable_ordered = omega arith;
        within = omega (arith, e);
        allocated = omega (arith, e);
      },
      window-overwrite b.buffer b.reader_idx b.writer_idx bytes v.readable_ordered v.within,
    )

has_written_lem :
    {b : Buffer} (len : ℕ)
    → IsValid b
    → len ≤ length b.buffer - b.writer_idx
    → has_written b len ≡ ok (record b { writer_idx = b.writer_idx + len })
unfolding has_written
has_written_lem {b} len v room =
    let n : add_size b.writer_idx len ≡ b.writer_idx + len = omega arith in
    rw (writable_bytes_lem v, n) (rw (le→leb len _ room))

-- `append` returns, keeps the buffer valid, and puts the bytes behind the readable ones, as long as
-- the vector stays within its maximal size; the write index moves by their number at most.
pub append_lem :
    {b : Buffer} (bytes : List ℕ)
    → IsValid b
    → b.writer_idx + length bytes ≤ max_size
    → (b' : Buffer) × (append b bytes ≡ ok b')
      × IsValid b'
      × (contents b' ≡ contents b ++ bytes)
      × (b'.writer_idx ≤ b.writer_idx + length bytes)
unfolding append
append_lem {b} bytes v small =
    let (c, e, h) = ensure_writable_bytes-HasRoom (length bytes) v small in
    let (valid, same, room, back) = h in
    let d : Buffer = record c { buffer = overwrite c.buffer c.writer_idx bytes } in
    let n = length-overwrite c.buffer c.writer_idx bytes (omega arith) in
    let d-valid : IsValid d = record {
      readable_ordered = valid.readable_ordered;
      within = omega (arith, n);
      allocated = omega (arith, n);
    } in
    let (valid', new) = write_behind bytes valid room in
    (
      record d { writer_idx = c.writer_idx + length bytes },
      rw e (has_written_lem (length bytes) d-valid (omega (arith, n))),
      valid',
      rw (← same) new,
      omega arith,
    )
