-- ===== src/Poller/PollPoller/Removal.antt =====
-- `RemoveChannel` of net/poller/PollPoller.cpp.
use oula_server.Prelude.{
  le→ltb, ap, subst, length-take, length-set, get_elem?-set_self, fault, assert_failed, ◌⊎◌, ltb,
  ==_refl, Bool-cases, length, get_elem?, set, ok, ℕ, suc, ◌-◌, ◌<◌, ◌≢◌, ==_ne, lt→ltb, ◌≡◌, ◌∙◌,
  inl, inr, true, false, none, some, arith,
}
use oula_server.Prelude.Int.{pos, negsuc, is_none}
use oula_server.Channel.{Channel}
use oula_server.Poller.{points_to}
use oula_server.Poller.PollPoller.{
  PollFd, PollPoller, remove_channel, update_channel, modify_channel,
}
use native.Mathlib.Decide.{ℕ_discrete}
use oula_server.Poller.PollPoller.Containers.{key, Inv, get_elem?-lt}
use oula_server.Poller.PollPoller.TakeOut.{
  Removable, remove_step, get_elem?-take, popped, popped-Inv, swapped, take_out_lem, swapped-Inv,
}

-- `RemoveChannel` in the loop's thread, for a channel that may be removed, when its entry is the last
-- one or the last entry is enabled: no assertion fails, the three containers agree again, the channel
-- is unknown, and the array is one shorter.
pub remove_channel-Inv :
    (p : PollPoller) (ptr : ℕ) (c : Channel) (idx : ℕ) (last : PollFd)
    → Inv p
    → Removable p ptr c idx
    → get_elem? p.pollfds (length p.pollfds - 1) ≡ some last
    → (idx ≡ length p.pollfds - 1) ⊎ ((g : ℕ) × (last.fd ≡ pos g))
    → (q : PollPoller) × (remove_channel true p ptr c ≡ ok q)
      × Inv q
      × (q.channels (pos c.fd) ≡ none)
      × (suc (length q.pollfds) ≡ length p.pollfds)
remove_channel-Inv p ptr c idx last v r there cases =
    let step = remove_step p ptr c idx r ∙ take_out_lem p c idx last there in
    let some_entry = get_elem?-lt p.pollfds idx r.entry r.is_there in
    let n = length p.pollfds - 1 in
    let shorter = length-take n p.pollfds in
    let shorter' = length-take n (set p.pollfds idx last) in
    let same_length = length-set p.pollfds idx last in
    elim (ℕ_discrete idx n) [
      | yes e ↦ (
        popped p c,
        step ∙ rw (e, ==_refl n),
        popped-Inv p ptr c idx v r e,
        rw (==_refl c.fd),
        omega (arith, shorter, some_entry),
      )
      | no ne ↦
          let (g, enabled) = enabled_last cases ne in
          (
            swapped p c idx last,
            step ∙ rw (==_ne idx n ne),
            swapped-Inv p ptr c idx last g v r there ne enabled,
            rw (==_refl c.fd),
            omega (arith, shorter', same_length, some_entry),
          )
    ]
  where
    enabled_last :
        (idx ≡ length p.pollfds - 1) ⊎ ((g : ℕ) × (last.fd ≡ pos g))
        → idx ≢ length p.pollfds - 1
        → (g : ℕ) × (last.fd ≡ pos g)
    enabled_last (inl e) ne = absurd (ne e)
    enabled_last (inr f) ne = f

-- A descriptor whose index is past the end cannot be updated.
stale_aborts :
    (q : PollPoller) (ptr : ℕ) (d : Channel)
    → q.fd_in_pollfds_idx (pos d.fd) ≡ some (length q.pollfds)
    → update_channel true q ptr d ≡ fault assert_failed
unfolding update_channel modify_channel
stale_aborts q ptr d h =
    let outside : ltb (length q.pollfds) (length q.pollfds) ≡ false =
      le→ltb (length q.pollfds) (length q.pollfds) (omega arith) in
    elim (Bool-cases (is_none (q.channels (pos d.fd)))) [
      | inl absent ↦ rw (h, absent)
      | inr present ↦ elim (Bool-cases (points_to (q.channels (pos d.fd)) ptr)) [
        | inl same ↦ rw (h, present, same, outside)
        | inr other ↦ rw (h, present, other)
      ]
    ]

-- `RemoveChannel` when the entry taken out is not the last one and the last one, of the descriptor
-- `g`, is ignored: it returns, the entry of `g` now stands at `idx`, and the index of `g` still says
-- that it is one past the end of the shorter array. The next `updateChannel` of `g` then aborts,
-- under any pointer.
pub remove_channel-stale :
    (p : PollPoller) (ptr : ℕ) (c : Channel) (idx : ℕ) (last : PollFd) (g : ℕ)
    → Inv p
    → Removable p ptr c idx
    → get_elem? p.pollfds (length p.pollfds - 1) ≡ some last
    → idx ≢ length p.pollfds - 1
    → last.fd ≡ negsuc g
    → (q : PollPoller) × (remove_channel true p ptr c ≡ ok q)
      × (get_elem? q.pollfds idx ≡ some last)
      × (q.fd_in_pollfds_idx (pos g) ≡ some (length q.pollfds))
      × ((ptr' : ℕ) (d : Channel) → d.fd ≡ g → update_channel true q ptr' d ≡ fault assert_failed)
remove_channel-stale p ptr c idx last g v r there ne ignored = (
  swapped p c idx last,
  remove_step p ptr c idx r ∙ take_out_lem p c idx last there ∙ rw (==_ne idx n ne),
  rw (get_elem?-take n (set p.pollfds idx last) idx, lt→ltb idx n (omega (arith, within)))
      (get_elem?-set_self p.pollfds idx last within),
  stale,
  λ ptr' d same.
      stale_aborts (swapped p c idx last) ptr' d
        (ap (λ f. (swapped p c idx last).fd_in_pollfds_idx (pos f)) same ∙ stale),
)
  where
    n : ℕ
    n = length p.pollfds - 1

    within : idx < length p.pollfds
    within = get_elem?-lt p.pollfds idx r.entry r.is_there

    long : length (swapped p c idx last).pollfds ≡ n
    long = omega (arith, length-take n (set p.pollfds idx last), length-set p.pollfds idx last)

    indexed_last : p.fd_in_pollfds_idx (pos g) ≡ some n
    indexed_last = subst (λ z. p.fd_in_pollfds_idx (key z) ≡ some n) ignored (v.listed n last there)

    stale :
        (swapped p c idx last).fd_in_pollfds_idx (pos g)
        ≡ some (length (swapped p c idx last).pollfds)
    stale = ground (arith, long, indexed_last, r.indexed_at, ignored, within)
