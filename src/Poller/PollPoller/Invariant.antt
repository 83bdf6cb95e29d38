-- ===== src/Poller/PollPoller/Invariant.antt =====
-- `updateChannel` of net/poller/PollPoller.cpp.
use oula_server.Prelude.{
  ==_iff, ◌&&◌, Option, not, inl, inr, ◌⊎◌, Option-cases, if◌then◌else◌, lt→ltb, ==_refl,
  Option-cases, length, get_elem?, set, get_elem?-set_self, Outcome, ok, ℕ, ◌≡◌, refl, ap, ◌∙◌, ◌⊎◌,
  inl, inr, Bool, true, false, ◌||◌, none, some, [], ◌∷◌, ◌++◌, arith,
}
use oula_server.Prelude.Int.{ℤ, pos, negsuc, eqb, eqb_refl, insert, is_none}
use oula_server.Channel.{Channel, none_event, k_added, is_none_event}
use oula_server.Poller.{points_to}
use oula_server.Poller.PollPoller.{PollFd, PollPoller, add_channel, modify_channel, update_channel}
use oula_server.Poller.PollPoller.Containers.{
  key, Inv, get_elem?-lt, get_elem?-append_last, add_channel-Inv, modify_channel-Inv,
}

points_to-some : (o : Option ℕ) (ptr : ℕ) → points_to o ptr ≡ true → o ≡ some ptr
points_to-some none ptr h = absurd (cc)
points_to-some (some a) ptr h = ap some ((==_iff a ptr).0 h)

key_cases : (z : ℤ) (f : ℕ) → key z ≡ pos f → (eqb z (pos f) || eqb z (negsuc f)) ≡ true
key_cases z f h = ground arith

-- The descriptor of a channel's entry: a channel that was known and asks for nothing is ignored.
abbrev pub entry_fd : PollPoller → Channel → ℤ
entry_fd p c =
    if not (is_none (p.channels (pos c.fd))) && is_none_event c then negsuc c.fd else pos c.fd

-- The channel is known under its pointer and is in the array, with its descriptor and the events that it
-- asks for; the others are where they were.
pub record Watched (p : PollPoller) (ptr : ℕ) (c : Channel) (q : PollPoller) : Type 0 where
  pub at_idx : ℕ
  pub entry : PollFd
  pub is_indexed : q.fd_in_pollfds_idx (pos c.fd) ≡ some at_idx
  pub is_there : get_elem? q.pollfds at_idx ≡ some entry
  pub has_fd : entry.fd ≡ entry_fd p c
  pub asks : entry.events ≡ c.events
  pub others_stay :
      (k : ℤ) → eqb (pos c.fd) k ≡ false → q.fd_in_pollfds_idx k ≡ p.fd_in_pollfds_idx k
  pub known_as : q.channels (pos c.fd) ≡ some ptr
  pub others_known : (k : ℤ) → eqb (pos c.fd) k ≡ false → q.channels k ≡ p.channels k

abbrev Updated : PollPoller → ℕ → Channel → Outcome (PollPoller × Channel) → Type 0
Updated p ptr c m = (r : PollPoller × Channel) × (m ≡ ok r) × Inv r.0 × Watched p ptr c r.0

abbrev entry_of : Channel → ℤ → PollFd
entry_of c fd = record { fd = fd; events = c.events; revents = none_event }

abbrev with_new : PollPoller → ℕ → Channel → PollPoller
with_new p ptr c = record p {
  pollfds = p.pollfds ++ entry_of c (pos c.fd) ∷ [];
  channels = insert (pos c.fd) ptr p.channels;
  fd_in_pollfds_idx = insert (pos c.fd) (length p.pollfds) p.fd_in_pollfds_idx;
}

update_new :
    (p : PollPoller) (ptr : ℕ) (c : Channel)
    → Inv p
    → p.fd_in_pollfds_idx (pos c.fd) ≡ none
    → Updated p ptr c (add_channel p ptr c)
unfolding add_channel
update_new p ptr c v fresh = (
  (with_new p ptr c, record c { in_poller_status = k_added }),
  rw (v.known (pos c.fd), fresh),
  add_channel-Inv p ptr c v fresh,
  record {
    at_idx = length p.pollfds;
    entry = entry_of c (pos c.fd);
    is_indexed = rw (eqb_refl (pos c.fd));
    is_there = rw (
      get_elem?-append_last p.pollfds (entry_of c (pos c.fd)) (length p.pollfds),
      ==_refl (length p.pollfds),
    );
    has_fd = rw (v.known (pos c.fd), fresh);
    asks = refl;
    others_stay = λ k h. rw h;
    known_as = rw (eqb_refl (pos c.fd));
    others_known = λ k h. rw h;
  },
)

abbrev watched_fd : Channel → ℤ
watched_fd c = if is_none_event c then negsuc c.fd else pos c.fd

key-watched : (b : Bool) (f : ℕ) → key (if b then negsuc f else pos f) ≡ pos f
key-watched true f = refl
key-watched false f = refl

known_some :
    (p : PollPoller) (k : ℤ) (i : ℕ)
    → Inv p
    → p.fd_in_pollfds_idx k ≡ some i
    → is_none (p.channels k) ≡ false
known_some p k i v h = v.known k ∙ ap is_none h

update_old :
    (p : PollPoller) (ptr : ℕ) (c : Channel) (idx : ℕ)
    → Inv p
    → p.fd_in_pollfds_idx (pos c.fd) ≡ some idx
    → points_to (p.channels (pos c.fd)) ptr ≡ true
    → Updated p ptr c (modify_channel p ptr c idx)
unfolding modify_channel
update_old p ptr c idx v old same =
    let (e, g, ke) = v.indexed (pos c.fd) idx old in
    let within = get_elem?-lt p.pollfds idx e g in
    let e' = entry_of c (watched_fd c) in
    let its = key-watched (is_none_event c) c.fd in
    (
      (record p { pollfds = set p.pollfds idx e' }, c),
      rw (
        known_some p (pos c.fd) idx v old,
        same,
        lt→ltb idx (length p.pollfds) within,
        g,
        key_cases e.fd c.fd ke,
      ),
      modify_channel-Inv p idx e' v (rw its old) within,
      record {
        at_idx = idx;
        entry = e';
        is_indexed = old;
        is_there = get_elem?-set_self p.pollfds idx e' within;
        has_fd = rw (known_some p (pos c.fd) idx v old);
        asks = refl;
        others_stay = λ k h. refl;
        known_as = points_to-some (p.channels (pos c.fd)) ptr same;
        others_known = λ k h. refl;
      },
    )

none_indexed : (p : PollPoller) (k : ℤ) → Inv p → p.channels k ≡ none → p.fd_in_pollfds_idx k ≡ none
none_indexed p k v absent = elim (Option-cases (p.fd_in_pollfds_idx k)) [
  | inl e ↦ e
  | inr (i, e) ↦ absurd (ground (arith, v.known k))
]

pub some_indexed :
    (p : PollPoller) (k : ℤ) (ptr : ℕ)
    → Inv p
    → points_to (p.channels k) ptr ≡ true
    → (i : ℕ) × (p.fd_in_pollfds_idx k ≡ some i)
some_indexed p k ptr v same = elim (Option-cases (p.fd_in_pollfds_idx k)) [
  | inl e ↦ absurd (ground (arith, v.known k))
  | inr (i, e) ↦ (i, e)
]

-- `updateChannel` in the loop's thread, for a channel that is new or known under its own pointer: no
-- assertion fails, the three containers agree again, the channel is known under its pointer, and its
-- entry asks for its events, with the descriptor -(fd + 1) when the channel was known and asks for
-- none, and its own descriptor otherwise. No other channel's pointer or index changes.
pub update_channel-Inv :
    (p : PollPoller) (ptr : ℕ) (c : Channel)
    → Inv p
    → (p.channels (pos c.fd) ≡ none) ⊎ (points_to (p.channels (pos c.fd)) ptr ≡ true)
    → (r : PollPoller × Channel) × (update_channel true p ptr c ≡ ok r)
      × Inv r.0
      × Watched p ptr c r.0
unfolding update_channel
update_channel-Inv p ptr c v (inl absent) =
    let fresh = none_indexed p (pos c.fd) v absent in rw fresh (update_new p ptr c v fresh)
update_channel-Inv p ptr c v (inr same) =
    let (idx, old) = some_indexed p (pos c.fd) ptr v same in
    rw old (update_old p ptr c idx v old same)
