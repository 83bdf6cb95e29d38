-- ===== src/TcpConnection/Progress.antt =====
-- What leaves the state of a connection alone or takes it on, in the sending half of
-- net/TcpConnection.cpp.
use oula_server.Prelude.{
  ltb, leb, ◌==◌, if◌then◌else◌, Bool-cases, length, take, Outcome, ◌>>=◌, assert, in_loop, ok,
  fault, ℕ, ◌≤◌, ◌≡◌, refl, inl, inr, Bool, true, false, not, ◌&&◌, List, ◌++◌, arith,
}
use oula_server.Buffer
use oula_server.Buffer.{Buffer, sub_size, add_size}
use oula_server.Channel
use oula_server.Channel.{Channel, Events, Callbacks}
use oula_server.TcpConnection.Object.{
  State, k_connecting, k_connected, k_disconnecting, k_disconnected, write_completes, sends,
  WriteResult, wrote, failed, Conn, queue, update, writing, is_connecting, is_disconnected,
  is_connected, is_disconnecting,
}
use oula_server.TcpConnection.Output.{
  shutdown_in_loop, bytes_at, Attempt, write_direct, note_high_water, keep_rest, first_attempt,
  finish_send, send_in_loop, send, shutdown, force_close, force_close_with_delay, finish_write,
  retrieve_written, on_written, handle_write,
}

-- Connecting, connected, disconnecting, disconnected.
abbrev pub rank : State → ℕ
rank k_connecting = 0
rank k_connected = 1
rank k_disconnecting = 2
rank k_disconnected = 3

-- If the call returns, it has not gone back to an earlier state.
abbrev pub Forward : Conn → Outcome Conn → Type 0
Forward c (ok c') = rank c.state ≤ rank c'.state
Forward c (fault e) = Unit {0}

pub Forward-eq : (c d : Conn) → d.state ≡ c.state → Forward c (ok d)
Forward-eq c d e = rw e (omega arith)

pub Forward-trans :
    (c d : Conn) (m : Outcome Conn) → rank c.state ≤ rank d.state → Forward d m → Forward c m
Forward-trans c d (ok c') h k = omega arith
Forward-trans c d (fault e) h k = tt

pub Forward-bind :
    (c : Conn) (m : Outcome Conn) (f : Conn → Outcome Conn)
    → Forward c m
    → ((d : Conn) → Forward d (f d))
    → Forward c (m >>= f)
Forward-bind c (ok d) f h k = Forward-trans c d (f d) h (k d)
Forward-bind c (fault e) f h k = tt

pub Forward-after :
    {A : Type 0} (c : Conn) (m : Outcome A) (f : A → Outcome Conn)
    → ((a : A) → Forward c (f a))
    → Forward c (m >>= f)
Forward-after c (ok a) f k = k a
Forward-after c (fault e) f k = tt

pub Forward-if :
    (b : Bool) (c : Conn) (m n : Outcome Conn)
    → Forward c m
    → Forward c n
    → Forward c (if b then m else n)
Forward-if true c m n h k = h
Forward-if false c m n h k = k

state-if :
    (b : Bool) (c d e : Conn)
    → d.state ≡ c.state
    → e.state ≡ c.state
    → (if b then d else e).state ≡ c.state
state-if true c d e h k = h
state-if false c d e h k = k

Forward-keep :
    (b : Bool) (c d e : Conn)
    → d.state ≡ c.state
    → e.state ≡ c.state
    → Forward c (ok (if b then d else e))
Forward-keep true c d e h k = Forward-eq c d h
Forward-keep false c d e h k = Forward-eq c e k

pub shutdown_in_loop-Forward : (here : Bool) (c : Conn) → Forward c (shutdown_in_loop here c)
unfolding shutdown_in_loop
shutdown_in_loop-Forward here c =
    Forward-after c (in_loop here) _
      (λ _. Forward-keep (writing c) c c (record c { write_shut = true }) refl refl)

keep_rest-Forward :
    (bytes : List ℕ) (c : Conn) (a : Attempt)
    → a.conn.state ≡ c.state
    → Forward c (keep_rest bytes a)
unfolding keep_rest note_high_water
keep_rest-Forward bytes c a e =
    let noted = note_high_water a.conn a.remaining in
    let same : noted.state ≡ c.state = state-if _ c (queue _ a.conn) a.conn e e in
    Forward-after c (bytes_at bytes a.n_wrote a.remaining) _ λ rest.
      Forward-after c (Buffer.append noted.output_buffer rest) _ λ out.
        let d : Conn = record noted { output_buffer = out } in
        Forward-keep (writing d) c d (update Channel.enable_write_event d) same same

first_attempt-state :
    (c : Conn) (bytes : List ℕ) (w : WriteResult) → (first_attempt c bytes w).conn.state ≡ c.state
unfolding first_attempt write_direct
first_attempt-state c bytes w = ground arith

pub send_in_loop-Forward :
    (here : Bool) (bytes : List ℕ) (w : WriteResult) (c : Conn)
    → Forward c (send_in_loop here bytes w c)
unfolding send_in_loop finish_send
send_in_loop-Forward here bytes w c =
    let a = first_attempt c bytes w in
    let e = first_attempt-state c bytes w in
    Forward-after c (in_loop here) _ λ _.
      Forward-if (is_disconnected c.state) c (ok c) (finish_send bytes a) (Forward-eq c c refl) (
        Forward-after c (assert (leb a.remaining (length bytes))) _ λ _.
          Forward-if (not a.error_occurs && ltb 0 a.remaining) c (keep_rest bytes a) (ok a.conn)
            (keep_rest-Forward bytes c a e) (Forward-eq c a.conn e))

pub send-Forward :
    (here : Bool) (bytes : List ℕ) (w : WriteResult) (c : Conn) → Forward c (send here bytes w c)
unfolding send
send-Forward here bytes w c =
    Forward-if (is_connected c.state) c _ (ok c)
      (Forward-if here c _ _ (send_in_loop-Forward true bytes w c)
        (Forward-eq c (queue (sends bytes) c) refl))
      (Forward-eq c c refl)

disconnecting_later : (s : State) → is_connected s ≡ true → rank s ≤ 2
disconnecting_later s h = ground arith

pub shutdown-Forward : (here : Bool) (c : Conn) → Forward c (shutdown here c)
unfolding shutdown
shutdown-Forward here c = elim (Bool-cases (is_connected c.state)) [
  | inl up ↦ rw up (
      Forward-if here c _ _
        (Forward-trans c (record c { state = k_disconnecting }) _ (disconnecting_later c.state up)
          (shutdown_in_loop-Forward true (record c { state = k_disconnecting })))
        (disconnecting_later c.state up))
  | inr down ↦ rw down (Forward-eq c c refl)
]

pub force-Forward :
    (c : Conn) → Forward c (ok (force_close c)) × Forward c (ok (force_close_with_delay c))
unfolding force_close force_close_with_delay
force-Forward c = ground arith

finish_write-Forward : (c d : Conn) → d.state ≡ c.state → Forward c (finish_write d)
unfolding finish_write
finish_write-Forward c d e =
    let d₁ = update Channel.disable_write_event d in
    let d₂ = if d₁.has_write_complete then queue write_completes d₁ else d₁ in
    let same : d₂.state ≡ c.state =
      state-if d₁.has_write_complete c (queue write_completes d₁) d₁ e e in
    Forward-if (is_disconnecting d₂.state) c _ (ok d₂)
      (Forward-trans c d₂ _ (rw same (omega arith)) (shutdown_in_loop-Forward true d₂))
      (Forward-eq c d₂ same)

retrieve_written-Forward : (n : ℕ) (c : Conn) → Forward c (retrieve_written n c)
unfolding retrieve_written
retrieve_written-Forward n c = Forward-after c (Buffer.retrieve c.output_buffer n) _ λ rest.
    let d : Conn = record c {
      output_buffer = rest;
      wire = c.wire ++ take n (Buffer.peek c.output_buffer (Buffer.readable_bytes c.output_buffer));
    } in
    Forward-if (Buffer.readable_bytes rest == 0) c (finish_write d) (ok d)
      (finish_write-Forward c d refl) (Forward-eq c d refl)

on_written-Forward : (w : WriteResult) (c : Conn) → Forward c (on_written w c)
on_written-Forward (wrote n) c =
    Forward-if (ltb 0 n) c _ (ok c) (retrieve_written-Forward n c) (Forward-eq c c refl)
on_written-Forward (failed e) c = Forward-eq c c refl

pub handle_write-Forward :
    (here : Bool) (w : WriteResult) (c : Conn) → Forward c (handle_write here w c)
unfolding handle_write
handle_write-Forward here w c =
    Forward-after c (in_loop here) _
      λ _. Forward-if (writing c) c _ (ok c) (on_written-Forward w c) (Forward-eq c c refl)

pub rank-le : (s : State) → rank s ≤ 3
rank-le s = ground arith

pub connecting_later : (s : State) → is_connecting s ≡ true → rank s ≤ 1
connecting_later s h = ground arith
