-- ===== src/Buffer/Retrieve.antt =====
-- `retrieve`, `retrieveAll`, `retrieveAsString` and `retrieveAllAsString` of net/Buffer.h.
use oula_server.Prelude.{
  ltb, ltb→lt, le→leb, ==_iff, Bool-cases, length, take, drop, take_all, drop_all, take-take,
  drop-drop, drop-take, assert_failed, ok, fault, ℕ, ◌+◌, ◌-◌, ◌≤◌, ◌<◌, ◌≡◌, sym, ap, ◌∙◌, inl,
  inr, [], arith,
}
use oula_server.Buffer.{
  Buffer, add_size, retrieve, retrieve_all, retrieve_as_string, retrieve_all_as_string, peek,
}
use oula_server.Buffer.Contents.{IsValid, contents, readable_bytes_lem, length-contents}

-- What is left behind the first `len` readable bytes.
abbrev pub Drained : Buffer → ℕ → Buffer → Type 0
Drained b len b' =
    IsValid b' × (contents b' ≡ drop len (contents b)) × (b'.writer_idx ≤ b.writer_idx)

module _ {b : Buffer} (v : IsValid b) (len : ℕ) where
  retrieve_some :
      len < b.writer_idx - b.reader_idx
      → Drained b len (record b { reader_idx = b.reader_idx + len })
  retrieve_some h = (
    record { readable_ordered = omega arith; within = v.within; allocated = v.allocated },
    rw (drop-take, drop-drop) (ap (λ k. take k (drop (b.reader_idx + len) b.buffer)) (omega arith)),
    omega arith,
  )

  retrieve_rest : len ≡ b.writer_idx - b.reader_idx → Drained b len (retrieve_all b)
  unfolding retrieve_all
  retrieve_rest h = (
    record { readable_ordered = omega arith; within = omega arith; allocated = v.allocated },
    sym (drop_all len (contents b) (omega (arith, length-contents v))),
    omega arith,
  )

  -- `retrieve` drops the first `len` readable bytes, if there are so many.
  pub retrieve_lem :
      len ≤ length (contents b) → (b' : Buffer) × (retrieve b len ≡ ok b') × Drained b len b'
  unfolding retrieve
  retrieve_lem h =
      let n = length-contents v in
      let size = b.writer_idx - b.reader_idx in
      rw (readable_bytes_lem v, le→leb len size (omega (arith, n)))
        (elim (Bool-cases (ltb len size)) [
          | inl few ↦
              let e : add_size b.reader_idx len ≡ b.reader_idx + len = ground arith in
              (
                record b { reader_idx = b.reader_idx + len },
                rw (few, e),
                retrieve_some (ltb→lt _ _ few),
              )
          | inr all ↦
              let e : len ≡ size = ground (arith, n) in
              (retrieve_all b, rw (all, (==_iff len size).1 e), retrieve_rest e)
        ])

  -- Otherwise its assertion fails.
  pub retrieve_too_many : length (contents b) < len → retrieve b len ≡ fault assert_failed
  unfolding retrieve
  retrieve_too_many h = rw (readable_bytes_lem v) (ground (arith, length-contents v))

  -- The string that is returned is the part that is dropped.
  pub retrieve_as_string_lem :
      len ≤ length (contents b)
      → (b' : Buffer) × (retrieve_as_string b len ≡ ok (take len (contents b), b'))
        × Drained b len b'
  unfolding retrieve_as_string peek
  retrieve_as_string_lem h =
      let n = length-contents v in
      let (b', e, d) = retrieve_lem h in
      (
        b',
        rw (
          readable_bytes_lem v,
          le→leb len (b.writer_idx - b.reader_idx) (omega (arith, n)),
          e,
          take-take len (b.writer_idx - b.reader_idx) (drop b.reader_idx b.buffer)
              (omega (arith, n)),
        ),
        d,
      )

  pub retrieve_as_string_too_many :
      length (contents b) < len → retrieve_as_string b len ≡ fault assert_failed
  unfolding retrieve_as_string
  retrieve_as_string_too_many h = rw (readable_bytes_lem v) (ground (arith, length-contents v))

-- `retrieveAllAsString` returns all readable bytes, in order, and leaves none.
pub retrieve_all_as_string_lem :
    {b : Buffer}
    → IsValid b
    → (b' : Buffer) × (retrieve_all_as_string b ≡ ok (contents b, b'))
      × IsValid b'
      × (contents b' ≡ [])
      × (b'.writer_idx ≤ b.writer_idx)
unfolding retrieve_all_as_string
retrieve_all_as_string_lem {b} v =
    let n = length-contents v in
    let size = b.writer_idx - b.reader_idx in
    let (b', e, d) = retrieve_as_string_lem v size (omega (arith, n)) in
    (
      b',
      rw (readable_bytes_lem v, e, take_all size (contents b) (omega (arith, n))),
      d.0,
      d.1 ∙ drop_all size (contents b) (omega (arith, n)),
      d.2,
    )
