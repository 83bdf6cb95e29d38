-- ===== src/Poller/EpollPoller.antt =====
-- net/poller/EpollPoller.h and net/poller/EpollPoller.cpp: the poller over epoll. The kernel's part is
-- a parameter: its state `K` and `epoll_ctl`, which returns the next state and whether it succeeded.
pub mod Registration
mod Examples
use oula_server.Prelude.{
  ltb, ◌==◌, if◌then◌else◌, length, Outcome, assert, in_loop, ok, ℕ, ◌*◌, Bool, true, false, not,
  none, List, ◌>>=◌, ◌>>◌,
}
use oula_server.Prelude.Int.{pos, IntMap, insert, erase, is_none}
use oula_server.Channel.{Channel, Events, PollerStatus, k_init, k_added, k_deleted, is_none_event}
use oula_server.Poller.{ChannelMap, points_to}

-- `EPOLL_CTL_ADD`, `EPOLL_CTL_MOD` and `EPOLL_CTL_DEL`
pub data CtlOp : Type 0 where
  ctl_add ctl_mod ctl_del : CtlOp

-- `events_size` is the size of the vector that `epoll_wait` fills.
pub record EpollPoller (K : Type 0) : Type 0 where
  pub channels : ChannelMap
  pub events_size : ℕ
  pub kernel : K

abbrev pub k_init_event_list_size : ℕ
k_init_event_list_size = 16

-- The type of `epoll_ctl`: the file descriptor, its events and the `data.ptr` of the event.
abbrev pub EpollCtl : Type 0 → Type 0
EpollCtl K = CtlOp → ℕ → Events → ℕ → K → K × Bool

abbrev is_registered : PollerStatus → Bool
is_registered k_added = true
is_registered _ = false

abbrev is_new : PollerStatus → Bool
is_new k_init = true
is_new _ = false

module _ {K : Type 0} where
  unfoldable pub new : K → EpollPoller K
  new created = record {
    channels = λ k. none;
    events_size = k_init_event_list_size;
    kernel = created;
  }

  -- `updateOperator2Poller`: a failure is only logged.
  unfoldable pub update_operator : EpollCtl K → CtlOp → ℕ → Channel → EpollPoller K → EpollPoller K
  update_operator epoll_ctl op ptr c p = record p {
    kernel = (epoll_ctl op c.fd c.events ptr p.kernel).0;
  }

  abbrev update_known : EpollCtl K → EpollPoller K → ℕ → Channel → Outcome (EpollPoller K × Channel)
  update_known epoll_ctl p ptr c = do
    assert (not (is_none (p.channels (pos c.fd))))
    assert (points_to (p.channels (pos c.fd)) ptr)
    ok (
        if is_none_event c
        then (update_operator epoll_ctl ctl_del ptr c p, record c { in_poller_status = k_deleted })
        else (update_operator epoll_ctl ctl_mod ptr c p, c))

  abbrev update_by_status :
      EpollCtl K → PollerStatus → EpollPoller K → ℕ → Channel → Outcome (EpollPoller K × Channel)
  update_by_status epoll_ctl k_init p ptr c =
      let c' = record c { in_poller_status = k_added } in
      let p' = record p { channels = insert (pos c.fd) ptr p.channels } in
      ok (update_operator epoll_ctl ctl_add ptr c' p', c')
  update_by_status epoll_ctl k_deleted p ptr c = do
    assert (not (is_none (p.channels (pos c.fd))))
    assert (points_to (p.channels (pos c.fd)) ptr)
    let c' = record c { in_poller_status = k_added }
    ok (update_operator epoll_ctl ctl_add ptr c' p, c')
  update_by_status epoll_ctl k_added p ptr c = update_known epoll_ctl p ptr c

  unfoldable pub update_channel :
      EpollCtl K → Bool → EpollPoller K → ℕ → Channel → Outcome (EpollPoller K × Channel)
  update_channel epoll_ctl here p ptr c = do
    in_loop here
    update_by_status epoll_ctl c.in_poller_status p ptr c

  unfoldable pub remove_channel :
      EpollCtl K → Bool → EpollPoller K → ℕ → Channel → Outcome (EpollPoller K × Channel)
  remove_channel epoll_ctl here p ptr c = do
    in_loop here
    assert (not (is_none (p.channels (pos c.fd))))
    assert (points_to (p.channels (pos c.fd)) ptr)
    assert (is_none_event c)
    assert (not (is_new c.in_poller_status))
    let p' = record p { channels = erase (pos c.fd) p.channels }
    let p'' =
        if is_registered c.in_poller_status then update_operator epoll_ctl ctl_del ptr c p' else p'
    ok (p'', record c { in_poller_status = k_init })

  -- `poll`, after `epoll_wait` put `reported` into the vector: each channel gets its events, and a
  -- vector that is full grows to twice its size.
  unfoldable pub poll : List (ℕ × Events) → EpollPoller K → EpollPoller K × List (ℕ × Events)
  poll reported p = (
    record p {
      events_size =
          if (if ltb 0 (length reported) then length reported == p.events_size else false)
          then p.events_size * 2
          else p.events_size;
    },
    reported,
  )
