-- ===== src/Poller/PollPoller.antt =====
-- net/poller/PollPoller.h and net/poller/PollPoller.cpp: the poller over poll(2). A channel that asks
-- for nothing stays in the array with the file descriptor -(fd + 1), which is `negsuc fd`.
pub mod Containers
pub mod Invariant
pub mod TakeOut
pub mod Removal
pub mod Active
mod Examples
use oula_server.Prelude.{
  ltb, ◌==◌, if◌then◌else◌, length, get_elem?, set, take, Outcome, assert, in_loop, out_of_bounds,
  ok, fault, ℕ, ◌-◌, Bool, not, ◌&&◌, ◌||◌, Option, none, some, List, ◌∷◌, ◌++◌, [], ◌>>=◌, ◌>>◌,
}
use oula_server.Prelude.Int.{ℤ, pos, negsuc, eqb, IntMap, insert, erase, is_none}
use oula_server.Channel.{
  Channel, Events, none_event, k_added, is_none_event, same_events, any_event,
}
use oula_server.Poller.{ChannelMap, points_to}

-- `struct pollfd`
pub record PollFd : Type 0 where
  pub fd : ℤ
  pub events : Events
  pub revents : Events

pub record PollPoller : Type 0 where
  pub pollfds : List PollFd
  pub channels : ChannelMap
  pub fd_in_pollfds_idx : IntMap ℕ

unfoldable pub new : PollPoller
new = record { pollfds = []; channels = λ k. none; fd_in_pollfds_idx = λ k. none }

-- `*it`, or the fault of leaving the container
abbrev pub the {ℓ} : {A : Type ℓ} → Option A → Outcome A
the none = fault out_of_bounds
the (some a) = ok a

-- A channel that the array does not hold yet.
unfoldable pub add_channel : PollPoller → ℕ → Channel → Outcome (PollPoller × Channel)
add_channel p ptr c = do
  assert (is_none (p.channels (pos c.fd)))
  let pfd : PollFd = record { fd = pos c.fd; events = c.events; revents = none_event }
  let p' = record p {
    pollfds = p.pollfds ++ pfd ∷ [];
    channels = insert (pos c.fd) ptr p.channels;
    fd_in_pollfds_idx = insert (pos c.fd) (length p.pollfds) p.fd_in_pollfds_idx;
  }
  ok (p', record c { in_poller_status = k_added })

-- One that it holds at index `idx`.
unfoldable pub modify_channel : PollPoller → ℕ → Channel → ℕ → Outcome (PollPoller × Channel)
modify_channel p ptr c idx = do
  assert (not (is_none (p.channels (pos c.fd))))
  assert (points_to (p.channels (pos c.fd)) ptr)
  assert (ltb idx (length p.pollfds))
  pfd ← the (get_elem? p.pollfds idx)
  assert (eqb pfd.fd (pos c.fd) || eqb pfd.fd (negsuc c.fd))
  let pfd' : PollFd = record {
    fd = if is_none_event c then negsuc c.fd else pos c.fd;
    events = c.events;
    revents = none_event;
  }
  ok (record p { pollfds = set p.pollfds idx pfd' }, c)

abbrev add_or_modify : Option ℕ → PollPoller → ℕ → Channel → Outcome (PollPoller × Channel)
add_or_modify none p ptr c = add_channel p ptr c
add_or_modify (some idx) p ptr c = modify_channel p ptr c idx

unfoldable pub update_channel : Bool → PollPoller → ℕ → Channel → Outcome (PollPoller × Channel)
update_channel here p ptr c = do
  in_loop here
  add_or_modify (p.fd_in_pollfds_idx (pos c.fd)) p ptr c

-- Taking entry `idx` out of the array: the last entry takes its place.
unfoldable pub take_out : PollPoller → ℕ → ℕ → Outcome PollPoller
take_out p fd idx =
    let last_idx = length p.pollfds - 1 in
    let popped = record p { pollfds = take last_idx p.pollfds } in
    let swapped = (do
      last ← the (get_elem? p.pollfds last_idx)
      ok (record p {
        pollfds = take last_idx (set p.pollfds idx last);
        fd_in_pollfds_idx = insert last.fd idx p.fd_in_pollfds_idx;
      })) in
    do
      p' ← if idx == last_idx then ok popped else swapped
      ok (record p' { fd_in_pollfds_idx = erase (pos fd) p'.fd_in_pollfds_idx })

unfoldable pub remove_channel : Bool → PollPoller → ℕ → Channel → Outcome PollPoller
remove_channel here p ptr c = do
  in_loop here
  assert (not (is_none (p.channels (pos c.fd))))
  assert (points_to (p.channels (pos c.fd)) ptr)
  assert (is_none_event c)
  assert (not (is_none (p.fd_in_pollfds_idx (pos c.fd))))
  idx ← the (p.fd_in_pollfds_idx (pos c.fd))
  pfd ← the (get_elem? p.pollfds idx)
  assert (eqb pfd.fd (negsuc c.fd) && same_events pfd.events c.events)
  take_out (record p { channels = erase (pos c.fd) p.channels }) c.fd idx

-- `fillActiveChannels` (a null pointer is 0): the channels to notify, with the events that each one is given.
unfoldable pub fill_active_channels : ChannelMap → List PollFd → ℕ → Outcome (List (ℕ × Events))
fill_active_channels channels [] num_events = ok []
fill_active_channels channels (pfd ∷ rest) num_events =
    let happened = any_event pfd.revents in
    let others =
      fill_active_channels channels rest (if happened then num_events - 1 else num_events) in
    let found = (do
      assert (not (is_none (channels pfd.fd)))
      ptr ← the (channels pfd.fd)
      assert (ltb 0 ptr)
      more ← others
      ok ((ptr, pfd.revents) ∷ more)) in
    if num_events == 0 then ok [] else if happened then found else others

-- What poll(2) writes into the array: the events that occurred at each entry.
abbrev pub with_revents : List PollFd → List Events → List PollFd
with_revents (pfd ∷ rest) (e ∷ es) = record pfd { revents = e } ∷ with_revents rest es
with_revents pfds _ = pfds

-- `poll`, with the number that poll(2) returns, none for -1, and the events that it wrote
unfoldable pub poll : Option ℕ → List Events → PollPoller → Outcome (PollPoller × List (ℕ × Events))
poll none occurred p = ok (record p { pollfds = with_revents p.pollfds occurred }, [])
poll (some num_events) occurred p = do
  let p' = record p { pollfds = with_revents p.pollfds occurred }
  active ←
      if ltb 0 num_events then fill_active_channels p'.channels p'.pollfds num_events else ok []
  ok (p', active)
