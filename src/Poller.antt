-- ===== src/Poller.antt =====
-- net/Poller.h, net/Poller.cpp and net/poller/: which channels a loop watches.
-- A `Channel*` is a number, and a call that gets one is given the channel that it points to as well.
pub mod PollPoller
pub mod EpollPoller
use oula_server.Prelude.{◌==◌, if◌then◌else◌, ℕ, Bool, false, Option, none, some}
use oula_server.Prelude.Int.{ℤ, pos, IntMap}
use oula_server.Channel.{Channel}

-- `ChannelMap`, by file descriptor
abbrev pub ChannelMap : Type 0
ChannelMap = IntMap ℕ

abbrev pub points_to : Option ℕ → ℕ → Bool
points_to none p = false
points_to (some q) p = q == p

-- `Poller::HasChannel`
unfoldable pub has_channel : ChannelMap → ℕ → Channel → Bool
has_channel channels p c = points_to (channels (pos c.fd)) p

pub data PollerType : Type 0 where
  poll_poller epoll_poller : PollerType

-- `NewDefaultPoller`, given whether `USE_POLL_TYPE` is "Poll", or is not set.
unfoldable pub new_default_poller : Option Bool → PollerType
new_default_poller none = epoll_poller
new_default_poller (some is_poll) = if is_poll then poll_poller else epoll_poller
