-- ===== src/Poller/PollPoller/Examples.antt =====
-- The theorems on the poll poller at an array of two channels.
use oula_server.Prelude.{
  List, zero, suc, length, some, none, refl, ◌≡◌, ◌∙◌, inl, inr, fault, assert_failed, ok, true,
  get_elem?, Bool-cases, ◌∷◌, [], ℕ, arith, false,
}
use oula_server.Prelude.Int.{ℤ, eqb, eqb_iff, pos, negsuc, insert}
use oula_server.Channel.{Events, read_event, is_none_event, none_event, Channel, k_added}
use oula_server.Poller.PollPoller.Active.{Reports, happened, poll-Reports}
use oula_server.Poller.PollPoller.{
  with_revents, poll, remove_channel, update_channel, PollFd, PollPoller,
}
use oula_server.Poller.PollPoller.Containers.{Inv, key}
use oula_server.Poller.PollPoller.Invariant.{Watched, update_channel-Inv}
use oula_server.Poller.PollPoller.TakeOut.{Removable}
use oula_server.Poller.PollPoller.Removal.{remove_channel-Inv, remove_channel-stale}

abbrev channel : ℕ → Channel
channel fd = record {
  fd = fd;
  events = read_event;
  r_events = none_event;
  in_poller_status = k_added;
  event_handling = false;
}

abbrev quiet : ℕ → Channel
quiet fd = record (channel fd) { events = none_event }

-- The descriptors 5 and 7, of the channels at 105 and 107; `last` is the entry of 7.
abbrev two : PollFd → PollPoller
two last = record {
  pollfds = record { fd = negsuc 5; events = none_event; revents = none_event } ∷ last ∷ [];
  channels = insert (pos 7) 107 (insert (pos 5) 105 (λ k. none));
  fd_in_pollfds_idx = insert (pos 7) 1 (insert (pos 5) 0 (λ k. none));
}

abbrev enabled : PollFd
enabled = record { fd = pos 7; events = read_event; revents = none_event }

abbrev ignored : PollFd
ignored = record { fd = negsuc 7; events = none_event; revents = none_event }

two-Inv : (last : PollFd) → key last.fd ≡ pos 7 → Inv (two last)
two-Inv last its = record { listed = by_entry; indexed = by_key; known = λ k. ground arith }
  where
    by_entry :
        (i : ℕ) (e : PollFd)
        → get_elem? (two last).pollfds i ≡ some e
        → (two last).fd_in_pollfds_idx (key e.fd) ≡ some i
    by_entry zero e h = ground arith
    by_entry (suc zero) e h = ground (arith, its)
    by_entry (suc (suc i)) e h = ground arith

    by_key :
        (k : ℤ) (i : ℕ)
        → (two last).fd_in_pollfds_idx k ≡ some i
        → (e : PollFd) × (get_elem? (two last).pollfds i ≡ some e) × (key e.fd ≡ k)
    by_key k i h = elim (Bool-cases (eqb (pos 7) k)) [
      | inl is_7 ↦
          let one : 1 ≡ i = ground arith in
          (last, rw (← one) refl, its ∙ (eqb_iff (pos 7) k).0 is_7)
      | inr not_7 ↦ elim (Bool-cases (eqb (pos 5) k)) [
        | inl is_5 ↦
            let none_before : 0 ≡ i = ground arith in
            (
              record { fd = negsuc 5; events = none_event; revents = none_event },
              rw (← none_before) refl,
              (eqb_iff (pos 5) k).0 is_5,
            )
        | inr not_5 ↦ absurd (ground arith)
      ]
    ]

update_channel-Inv_example :
    (r : PollPoller × Channel) × (update_channel true (two enabled) 107 (quiet 7) ≡ ok r)
    × Inv r.0
    × Watched (two enabled) 107 (quiet 7) r.0
update_channel-Inv_example =
    update_channel-Inv (two enabled) 107 (quiet 7) (two-Inv enabled refl) (inr refl)

Removable-5 : (last : PollFd) → Removable (two last) 105 (quiet 5) 0
unfolding is_none_event
Removable-5 last = record {
  entry = record { fd = negsuc 5; events = none_event; revents = none_event };
  indexed_at = refl;
  is_known = refl;
  asks_nothing = refl;
  is_there = refl;
  is_ignored = refl;
  same = refl;
}

remove_channel-Inv_example :
    (q : PollPoller) × (remove_channel true (two enabled) 105 (quiet 5) ≡ ok q)
    × Inv q
    × (q.channels (pos 5) ≡ none)
    × (suc (length q.pollfds) ≡ 2)
remove_channel-Inv_example =
    remove_channel-Inv (two enabled) 105 (quiet 5) 0 enabled (two-Inv enabled refl)
      (Removable-5 enabled) refl (inr (7, refl))

remove_channel-stale_example :
    (q : PollPoller) × (remove_channel true (two ignored) 105 (quiet 5) ≡ ok q)
    × (get_elem? q.pollfds 0 ≡ some ignored)
    × (q.fd_in_pollfds_idx (pos 7) ≡ some (length q.pollfds))
    × ((ptr' : ℕ) (d : Channel) → d.fd ≡ 7 → update_channel true q ptr' d ≡ fault assert_failed)
remove_channel-stale_example =
    remove_channel-stale (two ignored) 105 (quiet 5) 0 ignored 7 (two-Inv ignored refl)
      (Removable-5 ignored) refl (omega arith) refl

abbrev occurred : List Events
occurred = none_event ∷ read_event ∷ []

poll-Reports_example :
    (r : List (ℕ × Events)) × (poll (some 1) occurred (two enabled)
      ≡ ok (record (two enabled) { pollfds = with_revents (two enabled).pollfds occurred }, r))
    × Reports (two enabled).channels (happened (with_revents (two enabled).pollfds occurred)) r
poll-Reports_example =
    poll-Reports (two enabled) occurred ((λ e. cc), ((λ e. (107, refl, omega arith)), tt))
