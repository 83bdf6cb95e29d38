-- ===== src/TcpConnection/Delivery.antt =====
-- Histories of a connection in the thread of its loop: what becomes of the bytes that were sent.
use oula_server.Prelude.{
  ltb, if◌then◌else◌, Bool-cases, length, ok, ℕ, ◌+◌, ◌≤◌, ◌≡◌, refl, sym, ap, subst, ◌∙◌, inl, inr,
  Bool, true, false, ◌&&◌, List, [], ◌∷◌, ◌++◌, append-nil, append_assoc, arith,
}
use oula_server.Buffer
use oula_server.Buffer.{Buffer, sub_size, add_size}
use oula_server.TcpConnection.Object.{Errno, Conn, writing, is_connected, is_disconnecting}
use oula_server.Buffer.Contents.{contents}
use oula_server.TcpConnection.Stream.{stream}
use oula_server.TcpConnection.Draining.{is_empty}
use oula_server.TcpConnection.Steps.{
  Act, writes, drains, stalls, shuts, act, act_all, accepted, Live, Stepped, stay, write_step,
  drains_step, stalls_step, shut_step, refused_step,
}

-- How many bytes the sends of a history hand over.
abbrev pub weight : List Act → ℕ
weight [] = 0
weight (writes bytes n ∷ xs) = length bytes + weight xs
weight (x ∷ xs) = weight xs

abbrev owed : Bool → List Act → List ℕ
owed up xs = if up then accepted xs else []

abbrev Delivered : Conn → List Act → List ℕ → Type 0
Delivered c xs bytes =
    (c' : Conn) × (act_all xs c ≡ ok c') × Live c' × (stream c' ≡ stream c ++ bytes)

-- One step, then the rest of the history.
after_step :
    (x : Act) (xs : List Act) (c d : Conn) (bytes rest : List ℕ)
    → act x c ≡ ok d
    → stream d ≡ stream c ++ bytes
    → Delivered d xs rest
    → Delivered c (x ∷ xs) (bytes ++ rest)
after_step x xs c d bytes rest e added (c', e', l, s) =
    (c', rw e e', l, s ∙ ap (λ ys. ys ++ rest) added ∙ append_assoc (stream c) bytes rest)

owed_down : (up : Bool) (xs : List Act) → up ≡ false → owed up xs ≡ []
owed_down up xs e = rw e

owed_nil : (up : Bool) → owed up [] ≡ []
owed_nil true = refl
owed_nil false = refl

owed_shut : (up : Bool) (xs : List Act) → owed up (shuts ∷ xs) ≡ []
owed_shut true xs = refl
owed_shut false xs = refl

-- What the rest of a history does to any connection that it starts with.
abbrev Later : List Act → Type 0
Later xs =
    (d : Conn)
    → Live d
    → d.output_buffer.writer_idx + weight xs ≤ Buffer.max_size
    → Delivered d xs (owed (is_connected d.state) xs)

-- A step that adds nothing and keeps the state.
same_next :
    (x : Act) (xs : List Act) (c d : Conn)
    → Later xs
    → act x c ≡ ok d
    → Stepped c [] d
    → d.state ≡ c.state
    → c.output_buffer.writer_idx + weight xs ≤ Buffer.max_size
    → Delivered c (x ∷ xs) (owed (is_connected c.state) xs)
same_next x xs c d later e s same small =
    after_step x xs c d [] (owed (is_connected c.state) xs) e s.added (
      subst (λ st. Delivered d xs (owed (is_connected st) xs)) same
        (later d s.live (omega (arith, s.index))))

written_next :
    (bytes : List ℕ) (n : ℕ) (xs : List Act) (c : Conn)
    → Later xs
    → Live c
    → is_connected c.state ≡ true
    → c.output_buffer.writer_idx + (length bytes + weight xs) ≤ Buffer.max_size
    → Delivered c (writes bytes n ∷ xs) (bytes ++ accepted xs)
written_next bytes n xs c later l up small =
    let (d, e, s, same) = write_step c bytes n l up (omega arith) in
    after_step (writes bytes n) xs c d bytes (accepted xs) e s.added (
      subst (λ b. Delivered d xs (owed b xs)) (ap is_connected same ∙ up)
        (later d s.live (omega (arith, s.index))))

write_next :
    (bytes : List ℕ) (n : ℕ) (xs : List Act) (c : Conn)
    → Later xs
    → Live c
    → c.output_buffer.writer_idx + (length bytes + weight xs) ≤ Buffer.max_size
    → Delivered c (writes bytes n ∷ xs) (owed (is_connected c.state) (writes bytes n ∷ xs))
write_next bytes n xs c later l small = elim (Bool-cases (is_connected c.state)) [
  | inl up ↦ rw up (written_next bytes n xs c later l up small)
  | inr down ↦ rw (owed_down (is_connected c.state) (writes bytes n ∷ xs) down) (
      subst (Delivered c (writes bytes n ∷ xs)) (owed_down (is_connected c.state) xs down) (
        same_next (writes bytes n) xs c c later (refused_step c bytes n down) (stay c l) refl
          (omega arith)))
]

shut_next :
    (xs : List Act) (c : Conn)
    → Later xs
    → Live c
    → c.output_buffer.writer_idx + weight xs ≤ Buffer.max_size
    → Delivered c (shuts ∷ xs) (owed (is_connected c.state) (shuts ∷ xs))
shut_next xs c later l small =
    let (d, e, s, down) = shut_step c l in
    rw (owed_shut (is_connected c.state) xs) (
      after_step shuts xs c d [] [] e s.added (
        subst (Delivered d xs) (owed_down (is_connected d.state) xs down)
          (later d s.live (omega (arith, s.index)))))

drains_next :
    (n : ℕ) (xs : List Act) (c : Conn)
    → Later xs
    → Live c
    → c.output_buffer.writer_idx + weight xs ≤ Buffer.max_size
    → Delivered c (drains n ∷ xs) (owed (is_connected c.state) xs)
drains_next n xs c later l small =
    let (d, e, s, same) = drains_step c n l in same_next (drains n) xs c d later e s same small

stalls_next :
    (err : Errno) (xs : List Act) (c : Conn)
    → Later xs
    → Live c
    → c.output_buffer.writer_idx + weight xs ≤ Buffer.max_size
    → Delivered c (stalls err ∷ xs) (owed (is_connected c.state) xs)
stalls_next err xs c later l small =
    let (d, e, s, same) = stalls_step c err l in same_next (stalls err) xs c d later e s same small

Delivered-none : (c : Conn) → Live c → Delivered c [] (owed (is_connected c.state) [])
Delivered-none c l = (
  c,
  refl,
  l,
  sym (append-nil (stream c)) ∙ ap (◌++◌ (stream c)) (sym (owed_nil (is_connected c.state))),
)

delivered_from : (xs : List Act) → Later xs
delivered_from [] c l small = Delivered-none c l
delivered_from (writes bytes n ∷ xs) c l small = write_next bytes n xs c (delivered_from xs) l small
delivered_from (drains n ∷ xs) c l small = drains_next n xs c (delivered_from xs) l small
delivered_from (stalls err ∷ xs) c l small = stalls_next err xs c (delivered_from xs) l small
delivered_from (shuts ∷ xs) c l small = shut_next xs c (delivered_from xs) l small

-- In the thread of its loop, whatever the calls of `send` and `shutdown` and the writable events are,
-- and however many bytes each write(2) takes, an open connection does not fail; the bytes on the wire
-- followed by those in the output buffer are what they were, followed by the bytes of all sends up
-- to the first shutdown, in order; and the write end is closed exactly if the connection is shutting
-- down and every byte has been written. The first write(2) of a send is assumed not to fail.
pub delivered :
    (xs : List Act) (c : Conn)
    → Live c
    → is_connected c.state ≡ true
    → c.output_buffer.writer_idx + weight xs ≤ Buffer.max_size
    → (c' : Conn) × (act_all xs c ≡ ok c')
      × (stream c' ≡ stream c ++ accepted xs)
      × (writing c' ≡ ltb 0 (length (contents c'.output_buffer)))
      × (c'.write_shut ≡ (is_disconnecting c'.state && is_empty (contents c'.output_buffer)))
delivered xs c l up small =
    let (c', e, l', s) = delivered_from xs c l small in
    (c', e, s ∙ ap (λ b. stream c ++ owed b xs) up, l'.ready.interest, l'.shut_late)
