-- ===== src/Poller/EpollPoller/Examples.antt =====
-- The theorems on the epoll poller at a concrete interest list.
use oula_server.Prelude.{
  ◌==◌, if◌then◌else◌, ok, ℕ, ◌≡◌, refl, Bool, true, false, Option, none, some, arith,
}
use oula_server.Prelude.Int.{pos, insert}
use oula_server.Channel.{Channel, Events, read_event, none_event, k_added}
use oula_server.Poller.EpollPoller.{
  CtlOp, ctl_add, ctl_mod, ctl_del, EpollPoller, EpollCtl, update_channel,
}
use oula_server.Poller.EpollPoller.Registration.{Documented, Tracked, update_channel-Tracked}

abbrev Interest : Type 0
Interest = ℕ → Option (Events × ℕ)

abbrev put : ℕ → Option (Events × ℕ) → Interest → Interest
put fd o k other = if fd == other then o else k other

abbrev listed : Option (Events × ℕ) → Bool
listed none = false
listed (some e) = true

abbrev ctl : EpollCtl Interest
ctl ctl_add fd e ptr k = if listed (k fd) then (k, false) else (put fd (some (e, ptr)) k, true)
ctl ctl_mod fd e ptr k = if listed (k fd) then (put fd (some (e, ptr)) k, true) else (k, false)
ctl ctl_del fd e ptr k = if listed (k fd) then (put fd none k, true) else (k, false)

ctl-Documented : Documented ctl (λ k. k)
ctl-Documented = record {
  added = λ fd e ptr k h. ground arith;
  modified = λ fd e ptr k h. ground arith;
  deleted = λ fd e ptr k h. ground arith;
  untouched = untouched_by;
}
  where
    untouched_by :
        (op : CtlOp) (fd : ℕ) (e : Events) (ptr : ℕ) (k : Interest) (other : ℕ)
        → (fd == other) ≡ false
        → (ctl op fd e ptr k).0 other ≡ k other
    untouched_by ctl_add fd e ptr k other h = ground arith
    untouched_by ctl_mod fd e ptr k other h = ground arith
    untouched_by ctl_del fd e ptr k other h = ground arith

abbrev known : EpollPoller Interest
known = record {
  channels = insert (pos 5) 105 (λ k. none);
  events_size = 16;
  kernel = put 5 (some (read_event, 105)) (λ fd. none);
}

abbrev quiet : Channel
quiet = record {
  fd = 5;
  events = none_event;
  r_events = none_event;
  in_poller_status = k_added;
  event_handling = false;
}

update_channel-Tracked_example :
    (r : EpollPoller Interest × Channel) × (update_channel ctl true known 105 quiet ≡ ok r)
    × Tracked (λ k. k) known 105 quiet r
update_channel-Tracked_example =
    update_channel-Tracked ctl (λ k. k) known 105 quiet ctl-Documented (refl, refl)
