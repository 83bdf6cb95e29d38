-- ===== src/Buffer/Refine.antt =====
-- The contract of a buffer, as the rest of the program uses it: a queue of bytes.
use oula_server.Prelude.{
  leb, if◌then◌else◌, leb→le, Bool-cases, length, take, drop, Outcome, ◌>>=◌, assert_failed, ok,
  fault, ℕ, ◌+◌, ◌≤◌, ◌≡◌, refl, ap, inl, inr, some, List, [], ◌∷◌, ◌++◌, arith,
}
use oula_server.Buffer.{
  Buffer, max_size, extra_buf_size, append, retrieve, retrieve_as_string, retrieve_all_as_string,
  read_fd,
}
use oula_server.Buffer.Contents.{IsValid, contents}
use oula_server.Buffer.Append.{append_lem}
use oula_server.Buffer.Retrieve.{
  retrieve_lem, retrieve_too_many, retrieve_as_string_lem, retrieve_as_string_too_many,
  retrieve_all_as_string_lem,
}
use oula_server.Buffer.ReadFd.{read_room_le, read_fd_lem}

-- The calls of a buffer's owner. `receives` is `readFd` with the bytes that `readv` hands over.
pub data Op : Type 0 where
  appends receives : List ℕ → Op
  retrieves takes : ℕ → Op
  takes_all : Op

-- What a call returns: some bytes, or none, and the queue or the buffer.
abbrev pub Reply : Type 0 → Type 0
Reply S = Outcome (List ℕ × S)

unfoldable pub step : Buffer → Op → Reply Buffer
step b (appends bytes) = do b' ← append b bytes; ok ([], b')
step b (receives bytes) = do r ← read_fd b (some bytes); ok ([], r.1)
step b (retrieves len) = do b' ← retrieve b len; ok ([], b')
step b (takes len) = retrieve_as_string b len
step b takes_all = retrieve_all_as_string b

-- The same calls of a byte queue.
unfoldable pub queue_step : List ℕ → Op → Reply (List ℕ)
queue_step q (appends bytes) = ok ([], q ++ bytes)
queue_step q (receives bytes) = ok ([], q ++ bytes)
queue_step q (retrieves len) =
    if leb len (length q) then ok ([], drop len q) else fault assert_failed
queue_step q (takes len) =
    if leb len (length q) then ok (take len q, drop len q) else fault assert_failed
queue_step q takes_all = ok (q, [])

-- A run of calls, with what each returned.
abbrev pub run_of : {S : Type 0} → (S → Op → Reply S) → S → List Op → Outcome (List (List ℕ))
run_of f s [] = ok []
run_of f s (op ∷ ops) = do r ← f s op; rest ← run_of f r.1 ops; ok (r.0 ∷ rest)

-- How many bytes a call brings in.
abbrev pub weight : Op → ℕ
weight (appends bytes) = length bytes
weight (receives bytes) = length bytes
weight _ = 0

-- No single `readv` brings more than `extraBuf` holds, and the bytes that ever come in, on top of
-- the write index, stay below the maximal size of a vector.
abbrev pub Fits : ℕ → List Op → Type 0
Fits n [] = n ≤ max_size
Fits n (receives bytes ∷ ops) = (length bytes ≤ extra_buf_size) × Fits (n + length bytes) ops
Fits n (op ∷ ops) = Fits (n + weight op) ops

-- The buffer's step against the queue's: the same bytes or the same fault, and the invariant again.
abbrev Agrees : ℕ → Reply Buffer → Reply (List ℕ) → Type 0
Agrees n (ok (out, b)) (ok (out', q)) =
    (out ≡ out') × IsValid b × (contents b ≡ q) × (b.writer_idx ≤ n)
Agrees n (fault e) (fault e') = e ≡ e'
Agrees n _ _ = ⊥

Fits-le : (n : ℕ) (ops : List Op) → Fits n ops → n ≤ max_size
Fits-le n [] h = h
Fits-le n (receives bytes ∷ ops) h = omega (arith, Fits-le (n + length bytes) ops h.1)
Fits-le n (appends bytes ∷ ops) h = omega (arith, Fits-le (n + length bytes) ops h)
Fits-le n (retrieves len ∷ ops) h = omega (arith, Fits-le (n + 0) ops h)
Fits-le n (takes len ∷ ops) h = omega (arith, Fits-le (n + 0) ops h)
Fits-le n (takes_all ∷ ops) h = omega (arith, Fits-le (n + 0) ops h)

step-Agrees :
    (b : Buffer) (n : ℕ) (op : Op) (ops : List Op)
    → IsValid b
    → b.writer_idx ≤ n
    → Fits n (op ∷ ops)
    → Agrees (n + weight op) (step b op) (queue_step (contents b) op)
unfolding step queue_step
step-Agrees b n (appends bytes) ops v w h =
    let (b', e, v', c, back) =
      append_lem bytes v (omega (arith, Fits-le (n + length bytes) ops h)) in
    rw e (refl, v', c, omega arith)
step-Agrees b n (receives bytes) ops v w h =
    let (b', e, v', c, back) =
      read_fd_lem v bytes (omega (arith, Fits-le (n + length bytes) ops h.1))
        (omega (arith, h.0, read_room_le v)) in
    rw e (refl, v', c, omega arith)
step-Agrees b n (retrieves len) ops v w h = elim (Bool-cases (leb len (length (contents b)))) [
  | inl few ↦
      let (b', e, d) = retrieve_lem v len (leb→le _ _ few) in
      let (v', c, back) = d in rw (e, few) (refl, v', c, omega arith)
  | inr many ↦ rw (retrieve_too_many v len (ground arith), many) refl
]
step-Agrees b n (takes len) ops v w h = elim (Bool-cases (leb len (length (contents b)))) [
  | inl few ↦
      let (b', e, d) = retrieve_as_string_lem v len (leb→le _ _ few) in
      let (v', c, back) = d in rw (e, few) (refl, v', c, omega arith)
  | inr many ↦ rw (retrieve_as_string_too_many v len (ground arith), many) refl
]
step-Agrees b n takes_all ops v w h =
    let (b', e, v', c, back) = retrieve_all_as_string_lem v in rw e (refl, v', c, omega arith)

Fits-tail : (n : ℕ) (op : Op) (ops : List Op) → Fits n (op ∷ ops) → Fits (n + weight op) ops
Fits-tail n (receives bytes) ops h = h.1
Fits-tail n (appends bytes) ops h = h
Fits-tail n (retrieves len) ops h = h
Fits-tail n (takes len) ops h = h
Fits-tail n takes_all ops h = h

-- One agreeing step, then runs that agree.
run_next :
    (n : ℕ) (ops : List Op) (r : Reply Buffer) (s : Reply (List ℕ))
    → Agrees n r s
    → ((b : Buffer)
        → IsValid b
        → b.writer_idx ≤ n
        → run_of step b ops ≡ run_of queue_step (contents b) ops)
    → (do x ← r; rest ← run_of step x.1 ops; ok (x.0 ∷ rest))
      ≡ (do x ← s; rest ← run_of queue_step x.1 ops; ok (x.0 ∷ rest))
run_next n ops (ok (out, b)) (ok (out', q)) (e, v, c, w) later = rw (e, ← c, later b v w)
run_next n ops (fault e) (fault e') h later = ap fault h
run_next n ops (ok x) (fault e) h later = absurd h
run_next n ops (fault e) (ok x) h later = absurd h

run_refines_from :
    (ops : List Op) (n : ℕ) (b : Buffer)
    → IsValid b
    → b.writer_idx ≤ n
    → Fits n ops
    → run_of step b ops ≡ run_of queue_step (contents b) ops
run_refines_from [] n b v w h = refl
run_refines_from (op ∷ ops) n b v w h =
    run_next (n + weight op) ops (step b op) (queue_step (contents b) op)
      (step-Agrees b n op ops v w h)
      (λ b' v' w'. run_refines_from ops (n + weight op) b' v' w' (Fits-tail n op ops h))

-- Any run of `append`, `readFd`, `retrieve`, `retrieveAsString` and `retrieveAllAsString` on a valid
-- buffer returns what the same run returns on the queue of its readable bytes, failed assertions
-- included, as long as each `readv` brings 65535 bytes at most and the write index, plus all bytes
-- that come in, stays within the maximal size of a vector.
pub run_refines :
    (ops : List Op) {b : Buffer}
    → IsValid b
    → Fits b.writer_idx ops
    → run_of step b ops ≡ run_of queue_step (contents b) ops
run_refines ops {b} v h = run_refines_from ops b.writer_idx b v (omega arith) h
