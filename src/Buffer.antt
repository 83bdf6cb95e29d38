-- ===== src/Buffer.antt =====
-- net/Buffer.h and net/Buffer.cpp: the byte buffer of a connection.
-- `size_t` is 64 bits wide; its sums and differences wrap. A byte is a number that is only moved.
pub mod Contents
pub mod Append
pub mod Retrieve
pub mod ReadFd
pub mod Refine
mod Examples
use oula_server.Prelude.{
  ℕ, ◌+◌, ◌-◌, ◌*◌, ◌%◌, ◌^◌, ◌≤◌, List, [], ◌++◌, Option, none, some, Outcome, ok, fault,
  length_error, out_of_bounds, ◌>>=◌, ◌>>◌, assert, length, take, drop, replicate, ltb, leb, ◌==◌,
  if◌then◌else◌,
}

pub record Buffer : Type 0 where
  pub reader_idx : ℕ
  pub writer_idx : ℕ
  pub buffer : List ℕ

abbrev pub cheap_prepend : ℕ
cheap_prepend = 0

abbrev pub init_size : ℕ
init_size = 1024

-- `ExtraBufSize` of Buffer.cpp
abbrev pub extra_buf_size : ℕ
extra_buf_size = 65535

abbrev pub add_size : ℕ → ℕ → ℕ
add_size a b = (a + b) % 2 ^ 64

abbrev pub sub_size : ℕ → ℕ → ℕ
sub_size a b = (a + 2 ^ 64 - b) % 2 ^ 64

-- `std::vector<char>::max_size()`
abbrev pub max_size : ℕ
max_size = 2 ^ 63 - 1

unfoldable pub new : ℕ → Buffer
new size = record {
  reader_idx = cheap_prepend;
  writer_idx = cheap_prepend;
  buffer = replicate size 0;
}

unfoldable pub readable_bytes : Buffer → ℕ
readable_bytes b = sub_size b.writer_idx b.reader_idx

unfoldable pub writable_bytes : Buffer → ℕ
writable_bytes b = sub_size (length b.buffer) b.writer_idx

unfoldable pub prependable_bytes : Buffer → ℕ
prependable_bytes b = b.reader_idx

-- `std::vector::resize`: new bytes are 0.
abbrev pub resize : List ℕ → ℕ → Outcome (List ℕ)
resize xs n =
    if ltb max_size n then fault length_error else ok (take n xs ++ replicate (n - length xs) 0)

-- `std::copy` into a vector at index `i`, which has room for the bytes.
abbrev pub overwrite : List ℕ → ℕ → List ℕ → List ℕ
overwrite xs i ys = take i xs ++ (ys ++ drop (i + length ys) xs)

unfoldable pub has_written : Buffer → ℕ → Outcome Buffer
has_written b len = do
  assert (leb len (writable_bytes b))
  ok (record b { writer_idx = add_size b.writer_idx len })

-- `make_space` moves the readable bytes to the front, or resizes.
unfoldable pub make_space : Buffer → ℕ → Outcome Buffer
make_space b len =
    let grown = (do
      bytes ← resize b.buffer (add_size b.writer_idx len)
      ok (record b { buffer = bytes })) in
    let readable = readable_bytes b in
    let moved = record b {
      buffer = overwrite b.buffer cheap_prepend (take readable (drop b.reader_idx b.buffer));
      reader_idx = cheap_prepend;
      writer_idx = add_size cheap_prepend readable;
    } in
    if ltb (add_size (writable_bytes b) (prependable_bytes b)) (add_size len cheap_prepend)
    then grown
    else (do
      assert (ltb cheap_prepend b.reader_idx)
      assert (readable == readable_bytes moved)
      ok moved)

unfoldable pub ensure_writable_bytes : Buffer → ℕ → Outcome Buffer
ensure_writable_bytes b len = do
  b' ← if ltb (writable_bytes b) len then make_space b len else ok b
  assert (leb len (writable_bytes b'))
  ok b'

-- `append(data, len)` with `len` the length of `data`.
unfoldable pub append : Buffer → List ℕ → Outcome Buffer
append b bytes = do
  b' ← ensure_writable_bytes b (length bytes)
  has_written (record b' { buffer = overwrite b'.buffer b'.writer_idx bytes }) (length bytes)

unfoldable pub retrieve_all : Buffer → Buffer
retrieve_all b = record b { reader_idx = cheap_prepend; writer_idx = cheap_prepend }

unfoldable pub retrieve : Buffer → ℕ → Outcome Buffer
retrieve b len = do
  assert (leb len (readable_bytes b))
  ok (
      if ltb len (readable_bytes b)
      then record b { reader_idx = add_size b.reader_idx len }
      else if len == readable_bytes b
      then retrieve_all b
      else b)

-- The `len` bytes that start at `peek()`.
unfoldable pub peek : Buffer → ℕ → List ℕ
peek b len = take len (drop b.reader_idx b.buffer)

unfoldable pub retrieve_as_string : Buffer → ℕ → Outcome (List ℕ × Buffer)
retrieve_as_string b len = do
  assert (leb len (readable_bytes b))
  let str = peek b len
  b' ← retrieve b len
  ok (str, b')

unfoldable pub retrieve_all_as_string : Buffer → Outcome (List ℕ × Buffer)
retrieve_all_as_string b = retrieve_as_string b (readable_bytes b)

-- The room that `readFd` offers to `readv`: the writable bytes, and `extraBuf` if they are few.
unfoldable pub read_room : Buffer → ℕ
read_room b =
    if ltb (writable_bytes b) extra_buf_size
    then writable_bytes b + extra_buf_size
    else writable_bytes b

-- Reading `len` bytes of `extraBuf`.
abbrev in_extra_buf : ℕ → Outcome (Unit {0})
in_extra_buf len = if ltb extra_buf_size len then fault out_of_bounds else ok tt

-- `readFd`, where `readv` failed, or read `bytes`, filling the writable part first and then
-- `extraBuf`. The result is the return value, none for -1.
unfoldable pub read_fd : Buffer → Option (List ℕ) → Outcome (Option ℕ × Buffer)
read_fd b none = ok (none, b)
read_fd b (some bytes) =
    let writable = writable_bytes b in
    let n = length bytes in
    let filled = record b { buffer = overwrite b.buffer b.writer_idx (take writable bytes) } in
    let spilled = (do
      in_extra_buf (n - writable)
      b' ← append (record filled { writer_idx = length filled.buffer }) (drop writable bytes)
      ok (some n, b')) in
    if leb n writable
    then ok (some n, record filled { writer_idx = add_size b.writer_idx n })
    else spilled
