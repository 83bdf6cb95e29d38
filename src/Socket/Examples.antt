-- ===== src/Socket/Examples.antt =====
-- A kernel with one descriptor, and sockets without a name.
use oula_server.Prelude.{ℕ, ◌≡◌, refl, Bool, true, false, Option, none, some}
use oula_server.Prelude.Int.{pos}
use oula_server.Socket.{Address, zeroed, get_addr, is_self_connect, Flags, accept_peer}
use oula_server.Socket.Accepted.{Documented, accept_peer_lem}

-- The status flags of the descriptor, and whether it closes on exec
abbrev Kernel : Type 0
Kernel = Flags × Bool

get_status : ℕ → Kernel → Option Flags
get_status fd k = some k.0

set_status : ℕ → Flags → Kernel → Kernel
set_status fd flags k = (record k.0 { nonblock = flags.nonblock }, k.1)

closes_on_exec : ℕ → Kernel → Bool
closes_on_exec fd k = k.1

kernel-Documented : Documented get_status set_status closes_on_exec
unfolding get_status set_status closes_on_exec
kernel-Documented = record {
  sets_nonblock = λ fd flags old k h. (record k.0 { nonblock = flags.nonblock }, refl, refl);
  keeps_close_on_exec = λ fd n flags k. refl;
}

abbrev fresh : Kernel
fresh = (record { nonblock = false; cloexec_bit = false; others = 2 }, false)

abbrev peer : Address
peer = record { sin_family = 2; sin_port = 8080; sin_addr = 16777343 }

is_open : get_status 4 fresh ≡ some fresh.0
unfolding get_status
is_open = refl

accept_peer_lem_example :
    (k' : Kernel) × (accept_peer get_status set_status (some (4, peer)) zeroed peer fresh
      ≡ (pos 4, zeroed, k'))
    × (closes_on_exec 4 k' ≡ closes_on_exec 4 fresh)
    × ((new : Flags) × (get_status 4 k' ≡ some new) × (new.nonblock ≡ true))
accept_peer_lem_example =
    accept_peer_lem get_status set_status closes_on_exec kernel-Documented 3 peer zeroed peer fresh
      fresh.0 is_open

-- Two names that the system does not tell are the same name.
nameless : is_self_connect none none ≡ true
unfolding is_self_connect get_addr
nameless = refl
