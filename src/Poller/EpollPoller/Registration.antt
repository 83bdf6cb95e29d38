-- ===== src/Poller/EpollPoller/Registration.antt =====
-- What the kernel watches follows from what the channels ask for (net/poller/EpollPoller.cpp).
use oula_server.Prelude.{
  ◌≢◌, ◌==◌, Bool-cases, ok, ℕ, ◌≡◌, refl, sym, ap, subst, ◌∙◌, ◌⊎◌, inl, inr, true, false, Option,
  none, some, arith,
}
use oula_server.Prelude.Int.{pos, insert, is_none}
use oula_server.Channel.{Channel, Events, PollerStatus, k_init, k_added, k_deleted, is_none_event}
use oula_server.Poller.{points_to}
use oula_server.Poller.EpollPoller.{
  CtlOp, ctl_add, ctl_mod, ctl_del, EpollPoller, EpollCtl, update_channel, update_operator,
  update_by_status,
}

-- What epoll_ctl(2) documents: a descriptor is added when it is absent, and modified or deleted when it
-- is present; `watch` is the interest list.
pub record Documented {K : Type 0} (epoll_ctl : EpollCtl K) (watch : K → ℕ → Option (Events × ℕ))
    : Type 0 where
  pub added :
      (fd : ℕ) (e : Events) (ptr : ℕ) (k : K)
      → watch k fd ≡ none
      → ((epoll_ctl ctl_add fd e ptr k).1 ≡ true)
        × (watch (epoll_ctl ctl_add fd e ptr k).0 fd ≡ some (e, ptr))
  pub modified :
      (fd : ℕ) (e : Events) (ptr : ℕ) (k : K)
      → is_none (watch k fd) ≡ false
      → ((epoll_ctl ctl_mod fd e ptr k).1 ≡ true)
        × (watch (epoll_ctl ctl_mod fd e ptr k).0 fd ≡ some (e, ptr))
  pub deleted :
      (fd : ℕ) (e : Events) (ptr : ℕ) (k : K)
      → is_none (watch k fd) ≡ false
      → ((epoll_ctl ctl_del fd e ptr k).1 ≡ true)
        × (watch (epoll_ctl ctl_del fd e ptr k).0 fd ≡ none)
  pub untouched :
      (op : CtlOp) (fd : ℕ) (e : Events) (ptr : ℕ) (k : K) (other : ℕ)
      → (fd == other) ≡ false
      → watch (epoll_ctl op fd e ptr k).0 other ≡ watch k other

-- The poller's view of a channel and the kernel's agree. The events that the kernel has may be those
-- before the last change.
abbrev pub Agrees :
    {K : Type 0}
    → (K → ℕ → Option (Events × ℕ))
    → EpollPoller K
    → ℕ
    → Channel
    → PollerStatus
    → Type 0
Agrees watch p ptr c k_init = (p.channels (pos c.fd) ≡ none) × (watch p.kernel c.fd ≡ none)
Agrees watch p ptr c k_added =
    (points_to (p.channels (pos c.fd)) ptr ≡ true) × (is_none (watch p.kernel c.fd) ≡ false)
Agrees watch p ptr c k_deleted =
    (points_to (p.channels (pos c.fd)) ptr ≡ true) × (watch p.kernel c.fd ≡ none)

-- The outcome of an update: a channel that asks for something, or was not registered, is watched for
-- its events under its pointer; one that asks for nothing and was registered is set aside. No other
-- descriptor changes.
pub record Tracked {K : Type 0} (watch : K → ℕ → Option (Events × ℕ)) (p : EpollPoller K) (ptr : ℕ)
    (c : Channel) (r : EpollPoller K × Channel) : Type 0 where
  pub agrees : Agrees watch r.0 ptr r.1 r.1.in_poller_status
  pub same_channel : (r.1.fd ≡ c.fd) × (r.1.events ≡ c.events)
  pub is_watched :
      (is_none_event c ≡ false) ⊎ (c.in_poller_status ≢ k_added)
      → (watch r.0.kernel c.fd ≡ some (c.events, ptr)) × (r.1.in_poller_status ≡ k_added)
  pub is_let_go :
      is_none_event c ≡ true
      → c.in_poller_status ≡ k_added
      → (watch r.0.kernel c.fd ≡ none) × (r.1.in_poller_status ≡ k_deleted)
  pub others_stay :
      (other : ℕ) → (c.fd == other) ≡ false → watch r.0.kernel other ≡ watch p.kernel other

pub present : (o : Option ℕ) (q : ℕ) → points_to o q ≡ true → is_none o ≡ false
present none q h = cc
present (some a) q h = refl

-- `updateChannel` in the loop's thread, for a channel on which the poller and the kernel agree and
-- whose events may have changed since: no assertion fails, and afterwards they agree again. If the
-- channel asks for any event, or was not registered, the kernel watches it for the events that it asks
-- for, under its pointer; if it asks for none and was registered, the kernel watches it no more. No
-- other descriptor changes.
pub update_channel-Tracked :
    {K : Type 0} (epoll_ctl : EpollCtl K) (watch : K → ℕ → Option (Events × ℕ)) (p : EpollPoller K)
    (ptr : ℕ) (c : Channel)
    → Documented epoll_ctl watch
    → Agrees watch p ptr c c.in_poller_status
    → (r : EpollPoller K × Channel) × (update_channel epoll_ctl true p ptr c ≡ ok r)
      × Tracked watch p ptr c r
unfolding update_channel update_operator
update_channel-Tracked {K} epoll_ctl watch p ptr c doc a = elim (status_cases c.in_poller_status) [
  | inl fresh ↦
      let (absent, out) = subst (Agrees watch p ptr c) fresh a in
      let (done, seen) = doc.added c.fd c.events ptr p.kernel out in
      (
        (
          record p {
            channels = insert (pos c.fd) ptr p.channels;
            kernel = (epoll_ctl ctl_add c.fd c.events ptr p.kernel).0;
          },
          record c { in_poller_status = k_added },
        ),
        step fresh,
        record {
          agrees = (ground arith, rw seen);
          same_channel = (refl, refl);
          is_watched = λ o. (seen, refl);
          is_let_go = λ n t. absurd (cc (fresh));
          others_stay = λ other ne. doc.untouched ctl_add c.fd c.events ptr p.kernel other ne;
        },
      )
  | inr (inl aside) ↦
      let (known, out) = subst (Agrees watch p ptr c) aside a in
      let (done, seen) = doc.added c.fd c.events ptr p.kernel out in
      (
        (
          record p { kernel = (epoll_ctl ctl_add c.fd c.events ptr p.kernel).0 },
          record c { in_poller_status = k_added },
        ),
        step aside ∙ rw (present (p.channels (pos c.fd)) ptr known, known),
        record {
          agrees = (known, rw seen);
          same_channel = (refl, refl);
          is_watched = λ o. (seen, refl);
          is_let_go = λ n t. absurd (cc (aside));
          others_stay = λ other ne. doc.untouched ctl_add c.fd c.events ptr p.kernel other ne;
        },
      )
  | inr (inr there) ↦
      let (known, seen) = subst (Agrees watch p ptr c) there a in
      let (done, changed) = doc.modified c.fd c.events ptr p.kernel seen in
      let (dropped, gone) = doc.deleted c.fd c.events ptr p.kernel seen in
      elim (Bool-cases (is_none_event c)) [
        | inl nothing ↦ (
          (
            record p { kernel = (epoll_ctl ctl_del c.fd c.events ptr p.kernel).0 },
            record c { in_poller_status = k_deleted },
          ),
          step there ∙ rw (present (p.channels (pos c.fd)) ptr known, known, nothing),
          record {
            agrees = (known, gone);
            same_channel = (refl, refl);
            is_watched =
                λ o. elim o [ inl some_event ↦ absurd (cc) | inr other ↦ absurd (other there) ];
            is_let_go = λ n t. (gone, refl);
            others_stay = λ other ne. doc.untouched ctl_del c.fd c.events ptr p.kernel other ne;
          },
        )
        | inr something ↦ (
          (record p { kernel = (epoll_ctl ctl_mod c.fd c.events ptr p.kernel).0 }, c),
          step there ∙ rw (present (p.channels (pos c.fd)) ptr known, known, something),
          record {
            agrees = subst (Agrees watch (after ctl_mod) ptr c) (sym there) (known, rw changed);
            same_channel = (refl, refl);
            is_watched = λ o. (changed, there);
            is_let_go = λ n t. absurd (cc);
            others_stay = λ other ne. doc.untouched ctl_mod c.fd c.events ptr p.kernel other ne;
          },
        )
      ]
]
  where
    step :
        {s : PollerStatus}
        → c.in_poller_status ≡ s
        → update_by_status epoll_ctl c.in_poller_status p ptr c
          ≡ update_by_status epoll_ctl s p ptr c
    step e = ap (λ s. update_by_status epoll_ctl s p ptr c) e

    after : CtlOp → EpollPoller K
    after op = record p { kernel = (epoll_ctl op c.fd c.events ptr p.kernel).0 }

    status_cases : (s : PollerStatus) → (s ≡ k_init) ⊎ ((s ≡ k_deleted) ⊎ (s ≡ k_added))
    status_cases k_init = inl refl
    status_cases k_deleted = inr (inl refl)
    status_cases k_added = inr (inr refl)
