-- ===== src/Buffer/Examples.antt =====
-- Runs of the buffer on small inputs, and the theorems at such inputs.
use oula_server.Prelude.{ok, ◌≤◌, ◌≡◌, refl, some, List, [], ◌∷◌, arith}
use oula_server.Buffer.{
  Buffer, append, read_fd, make_space, ensure_writable_bytes, has_written, readable_bytes,
  writable_bytes, prependable_bytes, read_room,
}
use oula_server.Buffer.Contents.{IsValid, contents}
use oula_server.Buffer.ReadFd.{read_fd_lem}
use oula_server.Buffer.Refine.{
  Op, appends, receives, retrieves, takes, takes_all, step, queue_step, run_of, run_refines,
}

-- Two bytes between a byte that was read and one that is free.
abbrev sample : Buffer
sample = record { reader_idx = 1; writer_idx = 3; buffer = 10 ∷ 11 ∷ 12 ∷ 13 ∷ [] }

sample-IsValid : IsValid sample
sample-IsValid = omega arith

-- Two more bytes fit after the readable ones are moved; three make the vector grow.
append_moves :
    append sample (20 ∷ 21 ∷ [])
    ≡ ok (record { reader_idx = 0; writer_idx = 4; buffer = 11 ∷ 12 ∷ 20 ∷ 21 ∷ [] })
unfolding append ensure_writable_bytes make_space has_written writable_bytes readable_bytes
    prependable_bytes
append_moves = refl

append_grows :
    append sample (20 ∷ 21 ∷ 22 ∷ [])
    ≡ ok (record { reader_idx = 1; writer_idx = 6; buffer = 10 ∷ 11 ∷ 12 ∷ 20 ∷ 21 ∷ 22 ∷ [] })
unfolding append ensure_writable_bytes make_space has_written writable_bytes readable_bytes
    prependable_bytes
append_grows = refl

read_fd_lem_example :
    (b : Buffer) × (read_fd sample (some (20 ∷ 21 ∷ [])) ≡ ok (some 2, b))
    × IsValid b
    × (contents b ≡ 11 ∷ 12 ∷ 20 ∷ 21 ∷ [])
    × (b.writer_idx ≤ 5)
unfolding read_room writable_bytes
read_fd_lem_example = read_fd_lem sample-IsValid (20 ∷ 21 ∷ []) (omega arith) (omega arith)

abbrev script : List Op
script = appends (20 ∷ 21 ∷ []) ∷ takes 3 ∷ receives (30 ∷ []) ∷ takes_all ∷ retrieves 1 ∷ []

run_refines_example : run_of step sample script ≡ run_of queue_step (11 ∷ 12 ∷ []) script
run_refines_example = run_refines script sample-IsValid (omega arith)
