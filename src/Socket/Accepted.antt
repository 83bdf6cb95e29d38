-- ===== src/Socket/Accepted.antt =====
-- The sockets that net/Socket.cpp accepts, over fcntl(2) as it is documented.
use oula_server.Prelude.{ℕ, suc, ◌≡◌, refl, ap, ◌∙◌, Bool, true, Option, some}
use oula_server.Prelude.Int.{pos}
use oula_server.Socket.{
  Address, Flags, word, set_non_blocking_and_close_on_exec, accept, accept_peer,
}

-- `F_SETFL` sets `O_NONBLOCK` of an open file as told, leaves no open file without flags, and does not touch
-- whether the descriptor closes on exec.
pub record Documented {Kernel : Type 0} (get_status : ℕ → Kernel → Option Flags)
    (set_status : ℕ → Flags → Kernel → Kernel) (closes_on_exec : ℕ → Kernel → Bool) : Type 0 where
  pub sets_nonblock :
      (fd : ℕ) (flags old : Flags) (k : Kernel)
      → get_status fd k ≡ some old
      → (new : Flags) × (get_status fd (set_status fd flags k) ≡ some new)
        × (new.nonblock ≡ flags.nonblock)
  pub keeps_close_on_exec :
      (fd n : ℕ) (flags : Flags) (k : Kernel)
      → closes_on_exec n (set_status fd flags k) ≡ closes_on_exec n k

-- Over an fcntl(2) as it is documented, when accept(2) gave a positive descriptor with flags: the
-- socket does not block afterwards; it closes on exec just if it did before, since `FD_CLOEXEC`
-- goes to the wrong flags; and the address that the caller gets is not that of the peer, but what
-- an uninitialised variable held.
pub accept_peer_lem :
    {Kernel : Type 0} (get_status : ℕ → Kernel → Option Flags)
    (set_status : ℕ → Flags → Kernel → Kernel) (closes_on_exec : ℕ → Kernel → Bool)
    → Documented get_status set_status closes_on_exec
    → (n : ℕ) (conn_addr garbage peeraddr : Address) (k : Kernel) (old : Flags)
    → get_status (suc n) k ≡ some old
    → (k' : Kernel) × (accept_peer get_status set_status
          (some (suc n, conn_addr))
          garbage
          peeraddr
          k
        ≡ (pos (suc n), garbage, k'))
      × (closes_on_exec (suc n) k' ≡ closes_on_exec (suc n) k)
      × ((new : Flags) × (get_status (suc n) k' ≡ some new) × (new.nonblock ≡ true))
unfolding accept_peer accept set_non_blocking_and_close_on_exec
accept_peer_lem get_status set_status closes_on_exec d n conn_addr garbage peeraddr k old here =
    let first = record (word (get_status (suc n) k)) { nonblock = true } in
    let k₁ = set_status (suc n) first k in
    let (mid, here₁, on₁) = d.sets_nonblock (suc n) first old k here in
    let second = record (word (get_status (suc n) k₁)) { cloexec_bit = true } in
    let (new, here₂, on₂) = d.sets_nonblock (suc n) second mid k₁ here₁ in
    (
      set_status (suc n) second k₁,
      refl,
      d.keeps_close_on_exec (suc n) (suc n) second k₁
          ∙ d.keeps_close_on_exec (suc n) (suc n) first k,
      (new, here₂, on₂ ∙ ap (λ o. (word o).nonblock) here₁ ∙ on₁),
    )
