-- ===== src/Buffer/Contents.antt =====
-- What a buffer holds: its readable bytes, and the invariant 0 <= reader <= writer <= size of the
-- comment in net/Buffer.h.
use oula_server.Prelude.{
  ℕ, ◌+◌, ◌-◌, ◌≤◌, ◌≡◌, List, ◌++◌, length, take, drop, arith, length-append, length-take,
  length-drop, drop-append_le, drop-take, append_assoc, take-append_length,
}
use oula_server.Buffer.{
  Buffer, max_size, overwrite, readable_bytes, writable_bytes, prependable_bytes,
}

pub record IsValid (b : Buffer) : Type 0 where
  pub readable_ordered : b.reader_idx ≤ b.writer_idx
  pub within : b.writer_idx ≤ length b.buffer
  pub allocated : length b.buffer ≤ max_size

abbrev pub contents : Buffer → List ℕ
contents b = take (b.writer_idx - b.reader_idx) (drop b.reader_idx b.buffer)

module _ {b : Buffer} (v : IsValid b) where
  pub readable_bytes_lem : readable_bytes b ≡ b.writer_idx - b.reader_idx
  unfolding readable_bytes
  readable_bytes_lem = omega arith

  pub writable_bytes_lem : writable_bytes b ≡ length b.buffer - b.writer_idx
  unfolding writable_bytes
  writable_bytes_lem = omega arith

  pub length-contents : length (contents b) ≡ b.writer_idx - b.reader_idx
  length-contents = omega (
    arith,
    length-take (b.writer_idx - b.reader_idx) (drop b.reader_idx b.buffer),
    length-drop b.reader_idx b.buffer,
  )

-- The sizes of the three zones add up to the size of the vector.
pub zones_add_up :
    {b : Buffer}
    → IsValid b
    → prependable_bytes b + readable_bytes b + writable_bytes b ≡ length b.buffer
unfolding prependable_bytes
zones_add_up v = omega (arith, readable_bytes_lem v, writable_bytes_lem v)

pub length-overwrite :
    (xs : List ℕ) (i : ℕ) (ys : List ℕ)
    → i + length ys ≤ length xs
    → length (overwrite xs i ys) ≡ length xs
length-overwrite xs i ys h = omega (
  arith,
  length-append (take i xs) (ys ++ drop (i + length ys) xs),
  length-append ys (drop (i + length ys) xs),
  length-take i xs,
  length-drop (i + length ys) xs,
)

-- Reading across the end of a window into bytes that were written just behind it.
pub window-overwrite :
    (xs : List ℕ) (r w : ℕ) (ys : List ℕ)
    → r ≤ w
    → w ≤ length xs
    → take (w + length ys - r) (drop r (overwrite xs w ys)) ≡ take (w - r) (drop r xs) ++ ys
window-overwrite xs r w ys h k =
    let front = take (w - r) (drop r xs) in
    let rest = drop (w + length ys) xs in
    rw (drop-append_le r (take w xs) (ys ++ rest) (omega (arith, length-take w xs)), drop-take)
      (rw (← append_assoc front ys rest) (
        take-append_length (w + length ys - r) (front ++ ys) rest (
          omega
            (arith, length-append front ys, length-take (w - r) (drop r xs), length-drop r xs))))
