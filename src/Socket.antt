-- ===== src/Socket.antt =====
-- net/SocketHelper.cpp and net/Socket.cpp: what the wrappers do with the answers of the system calls.
pub mod Accepted
mod Examples
use oula_server.Prelude.{
  ◌==◌, ℕ, suc, ◌-◌, ◌^◌, ◌⊎◌, inl, inr, Bool, true, ◌&&◌, Option, none, some,
}
use oula_server.Prelude.Int.{ℤ, pos, negsuc}

-- `sockaddr_in`
pub record Address : Type 0 where
  pub sin_family : ℕ
  pub sin_port : ℕ
  pub sin_addr : ℕ

-- After `memset`
abbrev pub zeroed : Address
zeroed = record { sin_family = 0; sin_port = 0; sin_addr = 0 }

-- `getLocalAddr` and `getPeerAddr`, given what getsockname(2) or getpeername(2) answers
unfoldable pub get_addr : Option Address → Address
get_addr none = zeroed
get_addr (some addr) = addr

unfoldable pub is_self_connect : Option Address → Option Address → Bool
is_self_connect local_name peer_name =
    let local_addr = get_addr local_name in
    let peer_addr = get_addr peer_name in
    local_addr.sin_port == peer_addr.sin_port && local_addr.sin_addr == peer_addr.sin_addr

-- `getSocketError`: getsockopt(2) fails with `errno`, or gives `SO_ERROR`.
unfoldable pub get_socket_error : ℕ ⊎ ℕ → ℕ
get_socket_error (inl errno) = errno
get_socket_error (inr optval) = optval

-- A word of flags, by the bits of `O_NONBLOCK` and `FD_CLOEXEC`, and the others. -1 has them all.
pub record Flags : Type 0 where
  pub nonblock : Bool
  pub cloexec_bit : Bool
  pub others : ℕ

abbrev pub word : Option Flags → Flags
word none = record { nonblock = true; cloexec_bit = true; others = 2 ^ 32 - 1 - 2048 - 1 }
word (some flags) = flags

module _ {Kernel : Type 0} (get_status : ℕ → Kernel → Option Flags)
    (set_status : ℕ → Flags → Kernel → Kernel) where
  -- `_SetNonBlockingAndCloseOnExec`, over `fcntl` with `F_GETFL` and `F_SETFL`
  unfoldable pub set_non_blocking_and_close_on_exec : ℕ → Kernel → Kernel
  set_non_blocking_and_close_on_exec sockfd k =
      let k' = set_status sockfd (record (word (get_status sockfd k)) { nonblock = true }) k in
      set_status sockfd (record (word (get_status sockfd k')) { cloexec_bit = true }) k'

  -- `CreateNonblockingOrDie`, given the new socket
  unfoldable pub create_nonblocking_or_die : ℕ → Kernel → Kernel
  create_nonblocking_or_die sockfd k = set_non_blocking_and_close_on_exec sockfd k

  -- `accept` of net/SocketHelper.cpp, given what accept(2) answers and what `*addr` holds; fcntl(2) does
  -- nothing with the descriptor -1.
  unfoldable pub accept : Option (ℕ × Address) → Address → Kernel → ℤ × Address × Kernel
  accept none addr k = (negsuc 0, addr, k)
  accept (some (connfd, conn_addr)) addr k =
      (pos connfd, addr, set_non_blocking_and_close_on_exec connfd k)

  -- `Socket::accept`; `garbage` is what its variable `addr` holds, and `peeraddr` the caller's object.
  unfoldable pub accept_peer :
      Option (ℕ × Address) → Address → Address → Kernel → ℤ × Address × Kernel
  accept_peer answer garbage peeraddr k = set_peer (accept answer garbage k)
    where
      set_peer : ℤ × Address × Kernel → ℤ × Address × Kernel
      set_peer (pos (suc n), addr, k') = (pos (suc n), addr, k')
      set_peer (connfd, addr, k') = (connfd, peeraddr, k')
