-- ===== src/Channel.antt =====
-- net/Channel.h and net/Channel.cpp: a file descriptor with the events that it asks for, and the
-- dispatch of the events that occurred. The constants of <poll.h> are distinct bits, so an event
-- mask is the set of its flags.
pub mod Interest
pub mod Dispatch
mod Examples
use oula_server.Prelude.{
  Outcome, assert, ok, ℕ, Bool, true, false, not, ◌&&◌, ◌||◌, Option, none, some, ◌>>=◌, ◌>>◌,
}

pub record Events : Type 0 where
  pub pollin : Bool
  pub pollpri : Bool
  pub pollout : Bool
  pub pollhup : Bool
  pub pollrdhup : Bool
  pub pollerr : Bool
  pub pollnval : Bool

-- `KNoneEvent`
abbrev pub none_event : Events
none_event = record {
  pollin = false;
  pollpri = false;
  pollout = false;
  pollhup = false;
  pollrdhup = false;
  pollerr = false;
  pollnval = false;
}

-- `KReadEvent = POLLIN | POLLPRI`
abbrev pub read_event : Events
read_event = record none_event { pollin = true; pollpri = true }

-- `KWriteEvent = POLLOUT`
abbrev pub write_event : Events
write_event = record none_event { pollout = true }

-- `a | b`
abbrev pub union : Events → Events → Events
union a b = record {
  pollin = a.pollin || b.pollin;
  pollpri = a.pollpri || b.pollpri;
  pollout = a.pollout || b.pollout;
  pollhup = a.pollhup || b.pollhup;
  pollrdhup = a.pollrdhup || b.pollrdhup;
  pollerr = a.pollerr || b.pollerr;
  pollnval = a.pollnval || b.pollnval;
}

-- `a & ~b`
abbrev pub without : Events → Events → Events
without a b = record {
  pollin = a.pollin && not b.pollin;
  pollpri = a.pollpri && not b.pollpri;
  pollout = a.pollout && not b.pollout;
  pollhup = a.pollhup && not b.pollhup;
  pollrdhup = a.pollrdhup && not b.pollrdhup;
  pollerr = a.pollerr && not b.pollerr;
  pollnval = a.pollnval && not b.pollnval;
}

-- `e != 0`
abbrev pub any_event : Events → Bool
any_event e =
    e.pollin
    || (e.pollpri || (e.pollout || (e.pollhup || (e.pollrdhup || (e.pollerr || e.pollnval)))))

-- `(a & b) != 0`
abbrev pub meets : Events → Events → Bool
meets a b =
    (a.pollin && b.pollin)
    || ((a.pollpri && b.pollpri)
        || ((a.pollout && b.pollout)
            || ((a.pollhup && b.pollhup)
                || ((a.pollrdhup && b.pollrdhup)
                    || ((a.pollerr && b.pollerr) || (a.pollnval && b.pollnval))))))

abbrev same_flag : Bool → Bool → Bool
same_flag true b = b
same_flag false b = not b

-- `a == b`
abbrev pub same_events : Events → Events → Bool
same_events a b =
    same_flag a.pollin b.pollin
    && (same_flag a.pollpri b.pollpri
        && (same_flag a.pollout b.pollout
            && (same_flag a.pollhup b.pollhup
                && (same_flag a.pollrdhup b.pollrdhup
                    && (same_flag a.pollerr b.pollerr && same_flag a.pollnval b.pollnval)))))

-- `ChannelInPollerStatus`
pub data PollerStatus : Type 0 where
  k_init k_added k_deleted : PollerStatus

-- The fields that the code uses. The callbacks are in `Callbacks`.
pub record Channel : Type 0 where
  pub fd : ℕ
  pub events : Events
  pub r_events : Events
  pub in_poller_status : PollerStatus
  pub event_handling : Bool

-- The constructor does not set `rEvents_`: it is whatever `garbage` was there.
unfoldable pub new : ℕ → Events → Channel
new fd garbage = record {
  fd = fd;
  events = none_event;
  r_events = garbage;
  in_poller_status = k_init;
  event_handling = false;
}

-- The five methods below end in `update()`, which hands the channel to the poller.
unfoldable pub enable_read_event : Channel → Channel
enable_read_event c = record c { events = union c.events read_event }

unfoldable pub disable_read_event : Channel → Channel
disable_read_event c = record c { events = without c.events read_event }

unfoldable pub enable_write_event : Channel → Channel
enable_write_event c = record c { events = union c.events write_event }

unfoldable pub disable_write_event : Channel → Channel
disable_write_event c = record c { events = without c.events write_event }

unfoldable pub disable_all_event : Channel → Channel
disable_all_event c = record c { events = none_event }

unfoldable pub is_none_event : Channel → Bool
is_none_event c = not (any_event c.events)

unfoldable pub is_enable_read_event : Channel → Bool
is_enable_read_event c = meets c.events read_event

unfoldable pub is_enable_write_event : Channel → Bool
is_enable_write_event c = meets c.events write_event

unfoldable pub set_receive_event : Channel → Events → Channel
set_receive_event c revt = record c { r_events = revt }

-- A channel's owner has the state `S`, which holds the channel: the three callbacks (none is an
-- empty std::function), and how `eventHandling_` is set.
pub record Callbacks (S : Type 0) : Type 0 where
  pub read_callback : Option (S → Outcome S)
  pub write_callback : Option (S → Outcome S)
  pub close_callback : Option (S → Outcome S)
  pub set_event_handling : Bool → S → S

-- The destructor: `assert(!eventHandling_)`.
unfoldable pub destroy : Channel → Outcome (Unit {0})
destroy c = assert (not c.event_handling)

module _ {S : Type 0} where
  -- `if (cb) cb();` under a test
  abbrev pub call_if : Bool → Option (S → Outcome S) → S → Outcome S
  call_if false cb s = ok s
  call_if true none s = ok s
  call_if true (some cb) s = cb s

  -- `HandleEvent`. Only the poller writes `rEvents_`, so the callbacks leave it alone.
  unfoldable pub handle_event : Callbacks S → Events → S → Outcome S
  handle_event cbs r s = do
    let s₀ = cbs.set_event_handling true s
    s₁ ← call_if (r.pollhup && not r.pollin) cbs.close_callback s₀
    s₂ ← call_if (r.pollin || (r.pollpri || r.pollrdhup)) cbs.read_callback s₁
    s₃ ← call_if r.pollout cbs.write_callback s₂
    ok (cbs.set_event_handling false s₃)
