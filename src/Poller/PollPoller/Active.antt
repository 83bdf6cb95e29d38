-- ===== src/Poller/PollPoller/Active.antt =====
-- Which channels `poll` of net/poller/PollPoller.cpp reports.
use oula_server.Prelude.{
  ltb, ◌==◌, if◌then◌else◌, lt→ltb, Bool-cases, length, ok, ℕ, suc, ◌-◌, ◌<◌, ◌≡◌, refl, inl, inr,
  true, false, some, List, [], ◌∷◌, arith,
}
use oula_server.Channel.{Events, any_event}
use oula_server.Poller.{ChannelMap}
use oula_server.Poller.PollPoller.{PollFd, PollPoller, with_revents, fill_active_channels, poll}

-- The entries at which an event occurred
abbrev pub happened : List PollFd → List PollFd
happened [] = []
happened (pfd ∷ rest) =
    let others = happened rest in if any_event pfd.revents then pfd ∷ others else others

-- An entry at which an event occurred belongs to a channel that is known, and whose address is not null.
abbrev pub Known : ChannelMap → List PollFd → Type 0
Known channels [] = Unit {0}
Known channels (pfd ∷ rest) =
    (any_event pfd.revents ≡ true → (ptr : ℕ) × (channels pfd.fd ≡ some ptr) × (0 < ptr))
    × Known channels rest

-- The channels of the entries, in order, each with its entry's events
abbrev pub Reports : ChannelMap → List PollFd → List (ℕ × Events) → Type 0
Reports channels [] [] = Unit {0}
Reports channels (pfd ∷ rest) ((ptr, e) ∷ more) =
    (channels pfd.fd ≡ some ptr) × (pfd.revents ≡ e) × Reports channels rest more
Reports channels _ _ = ⊥

none_happened :
    (channels : ChannelMap) (pfds : List PollFd) → length pfds ≡ 0 → Reports channels pfds []
none_happened channels [] h = tt
none_happened channels (pfd ∷ rest) h = absurd (omega arith)

fill_lem :
    (channels : ChannelMap) (pfds : List PollFd)
    → Known channels pfds
    → (r : List (ℕ × Events)) × (fill_active_channels channels pfds (length (happened pfds)) ≡ ok r)
      × Reports channels (happened pfds) r
unfolding fill_active_channels
fill_lem channels [] k = ([], refl, tt)
fill_lem channels (pfd ∷ rest) (known, k) =
    let (r, run, reports) = fill_lem channels rest k in
    elim (Bool-cases (any_event pfd.revents)) [
      | inl yes_event ↦
          let (ptr, e, real) = known yes_event in
          let n = length (happened rest) in
          let nonzero : (suc n == 0) ≡ false = ground arith in
          let one_less : suc n - 1 ≡ n = omega arith in
          (
            (ptr, pfd.revents) ∷ r,
            rw (yes_event, nonzero, e, lt→ltb 0 ptr real) (rw (one_less, run)),
            rw yes_event (e, refl, reports),
          )
      | inr no_event ↦ elim (Bool-cases (length (happened rest) == 0)) [
        | inl zero_left ↦ (
          [],
          rw (no_event, zero_left),
          rw no_event (none_happened channels (happened rest) (ground arith)),
        )
        | inr some_left ↦ (r, rw (no_event, some_left) run, rw no_event reports)
      ]
    ]

-- `poll`, when poll(2) returns the number of entries at which an event occurred, each of a channel that
-- is known: no assertion fails, and exactly the channels of those entries are reported, in order,
-- each with its entry's events; the rest of the poller is what it was.
pub poll-Reports :
    (p : PollPoller) (occurred : List Events)
    → let pfds = with_revents p.pollfds occurred in
      Known p.channels pfds
      → (r : List (ℕ × Events)) × (poll (some (length (happened pfds))) occurred p
          ≡ ok (record p { pollfds = pfds }, r))
        × Reports p.channels (happened pfds) r
unfolding poll
poll-Reports p occurred k =
    let pfds = with_revents p.pollfds occurred in
    let (r, run, reports) = fill_lem p.channels pfds k in
    elim (Bool-cases (ltb 0 (length (happened pfds)))) [
      | inl some_events ↦ (r, rw (some_events, run), reports)
      | inr no_events ↦ ([], rw no_events, none_happened p.channels (happened pfds) (ground arith))
    ]
