-- ===== src/EventLoopThread/Handover.antt =====
-- What `startLoop` of net/EventLoopThread.cpp returns, and when it does not.
use oula_server.Prelude.{
  Bool-cases, ok_eq, assert_failed, ok, fault, ℕ, ◌≡◌, refl, sym, ap, subst, ◌∙◌, ◌≢◌, ◌⊎◌, inl,
  inr, true, Option, none, some,
}
use oula_server.EventLoopThread.{
  Worker, not_started, preparing, looping, quitting, ended, Starter, idle, testing, asleep,
  returned, EventLoopThread, new, start_loop, test_loop, wait_loop, wake, publish, loop_ends,
  take_back,
}

-- One step of a thread. `wakes` is a wake-up without a notification.
pub data Step : EventLoopThread → EventLoopThread → Type 0 where
  starts : (t t' : EventLoopThread) → t.starter ≡ idle → start_loop t ≡ ok t' → Step t t'
  tests : (t : EventLoopThread) → t.starter ≡ testing → Step t (wait_loop t)
  wakes : (t : EventLoopThread) → t.starter ≡ asleep → Step t (record t { starter = testing })
  publishes : (t : EventLoopThread) → t.worker ≡ preparing → Step t (publish t)
  quits : (t : EventLoopThread) → t.worker ≡ looping → Step t (loop_ends t)
  takes_back : (t : EventLoopThread) → t.worker ≡ quitting → Step t (take_back t)

pub data Reached : EventLoopThread → Type 0 where
  at_first : (io_loop : ℕ) → Reached (new io_loop)
  then_step : {t t' : EventLoopThread} → Reached t → Step t t' → Reached t'

-- The loop that the thread shows at that point
abbrev pub shown : Worker → ℕ → Option ℕ
shown looping l = some l
shown quitting l = some l
shown _ l = none

-- What a thread in `startLoop` has to do with the new thread
abbrev pub Agrees : Starter → Worker → ℕ → Type 0
Agrees idle w l = w ≡ not_started
Agrees testing w l = w ≢ not_started
Agrees asleep w l = (w ≡ preparing) ⊎ (w ≡ ended)
Agrees (returned r) w l = (w ≢ not_started) × (w ≢ preparing) × (r ≡ some l)

pub record Inv (t : EventLoopThread) : Type 0 where
  pub shows : t.loop ≡ shown t.worker t.io_loop
  pub agrees : Agrees t.starter t.worker t.io_loop

tested-Agrees : (w : Worker) (l : ℕ) → w ≢ not_started → Agrees (test_loop (shown w l)) w l
tested-Agrees not_started l n = absurd (n refl)
tested-Agrees preparing l n = inl refl
tested-Agrees looping l n = (n, (λ e. cc), refl)
tested-Agrees quitting l n = (n, (λ e. cc), refl)
tested-Agrees ended l n = inr refl

published-Agrees : (s : Starter) (l : ℕ) → Agrees s preparing l → Agrees (wake s) looping l
published-Agrees idle l a = absurd (cc)
published-Agrees testing l a = λ e. cc
published-Agrees asleep l a = λ e. cc
published-Agrees (returned r) l (n, m, e) = absurd (m refl)

-- The loop ends, and is taken back, while no one sleeps for it.
quit-Agrees : (s : Starter) (l : ℕ) → Agrees s looping l → Agrees s quitting l
quit-Agrees idle l a = absurd (cc)
quit-Agrees testing l a = λ e. cc
quit-Agrees asleep l a = elim a [ inl e ↦ absurd (cc) | inr e ↦ absurd (cc) ]
quit-Agrees (returned r) l (n, m, e) = ((λ f. cc), (λ f. cc), e)

taken-Agrees : (s : Starter) (l : ℕ) → Agrees s quitting l → Agrees s ended l
taken-Agrees idle l a = absurd (cc)
taken-Agrees testing l a = λ e. cc
taken-Agrees asleep l a = elim a [ inl e ↦ absurd (cc) | inr e ↦ absurd (cc) ]
taken-Agrees (returned r) l (n, m, e) = ((λ f. cc), (λ f. cc), e)

abbrev At : EventLoopThread → Starter → Worker → Type 0
At t s w = Agrees s w t.io_loop

started-Inv : (t t' : EventLoopThread) → start_loop t ≡ ok t' → Inv t → t.starter ≡ idle → Inv t'
unfolding start_loop
started-Inv t t' run v here = elim (Bool-cases t.thread) [
  | inl again ↦
      let failed : start_loop t ≡ fault assert_failed = rw again refl in
      absurd (cc (sym failed ∙ run))
  | inr fresh ↦
      let next = record t { thread = true; worker = preparing; starter = testing } in
      let made : start_loop t ≡ ok next = rw fresh refl in
      subst Inv (ok_eq (sym made ∙ run)) (record {
        shows = v.shows ∙ ap (λ w. shown w t.io_loop) (subst (λ s. At t s t.worker) here v.agrees);
        agrees = λ e. cc;
      })
]

Step-Inv : (t t' : EventLoopThread) → Inv t → Step t t' → Inv t'
unfolding wait_loop publish loop_ends take_back
Step-Inv t t' v (starts _ _ here run) = started-Inv t t' run v here
Step-Inv t _ v (tests _ here) = record {
  shows = v.shows;
  agrees =
      subst (λ o. At t (test_loop o) t.worker) (sym v.shows)
        (tested-Agrees t.worker t.io_loop (subst (λ s. At t s t.worker) here v.agrees));
}
Step-Inv t _ v (wakes _ here) = record {
  shows = v.shows;
  agrees = λ e. elim (subst (λ s. At t s t.worker) here v.agrees) [ inl w ↦ cc | inr w ↦ cc ];
}
Step-Inv t _ v (publishes _ here) = record {
  shows = refl;
  agrees = published-Agrees t.starter t.io_loop (subst (λ w. At t t.starter w) here v.agrees);
}
Step-Inv t _ v (quits _ here) = record {
  shows = v.shows ∙ ap (λ w. shown w t.io_loop) here;
  agrees = quit-Agrees t.starter t.io_loop (subst (λ w. At t t.starter w) here v.agrees);
}
Step-Inv t _ v (takes_back _ here) = record {
  shows = refl;
  agrees = taken-Agrees t.starter t.io_loop (subst (λ w. At t t.starter w) here v.agrees);
}

Reached-Inv : {t : EventLoopThread} → Reached t → Inv t
unfolding new
Reached-Inv (at_first io_loop) = record { shows = refl; agrees = refl }
Reached-Inv (then_step {t} {t'} r s) = Step-Inv t t' (Reached-Inv r) s

-- Under any interleaving of both threads: what `startLoop` returns is the loop of the new thread, never
-- null, and not before that thread has published it; and the caller sleeps only while the loop is not
-- published yet, or after it was taken back.
pub Reached-handover :
    (t : EventLoopThread)
    → Reached t
    → ((r : Option ℕ) → t.starter ≡ returned r → (r ≡ some t.io_loop) × (t.worker ≢ preparing))
      × (t.starter ≡ asleep → (t.worker ≡ preparing) ⊎ (t.worker ≡ ended))
Reached-handover t r =
    let v = Reached-Inv r in
    (
      (λ x here. let (n, m, e) = subst (λ s. At t s t.worker) here v.agrees in (e, m)),
      λ here. subst (λ s. At t s t.worker) here v.agrees,
    )
