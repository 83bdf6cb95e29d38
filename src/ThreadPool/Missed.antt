-- ===== src/ThreadPool/Missed.antt =====
-- `m_bStop` of threadpool/threadpool.cpp is set without the mutex.
use oula_server.Prelude.{
  ◌==◌, ==_iff, ==_refl, Bool-cases, some_eq, get_elem?, set, ok_eq, ℕ, ◌≡◌, refl, sym, ap, subst,
  ◌∙◌, ◌≢◌, inl, inr, Bool, true, false, some, [], map, arith,
}
use oula_server.ThreadPool.{
  Worker, ready, tested, asleep, finished, running, alive, stopping, joining, ThreadPool, become,
  wake, store_stop, notify_all,
}
use oula_server.ThreadPool.Schedule.{
  At, Step, Reached, adds, enters, blocks, wakes, ends_task, stops, notifies, joins, then_step,
  changed, all_notified, wake_one,
}
use oula_server.ThreadPool.Invariant.{Entered, leaves, takes, waits, thread_func-Entered, not_made}

abbrev pub NoneRuns : ThreadPool → Type 0
NoneRuns p = (j f : ℕ) → get_elem? p.threads j ≢ some (running f)

-- The destructor waits for a thread that sleeps, and there is nothing to do for the others.
pub record Stuck (i : ℕ) (p : ThreadPool) : Type 0 where
  pub waiting : p.phase ≡ joining
  pub stop_set : p.stop ≡ true
  pub no_task : p.task_queue ≡ []
  pub sleeps : At p i asleep
  pub none_runs : NoneRuns p

-- A step that is no wake-up without a notification
abbrev pub is_caused : {p p' : ThreadPool} → Step p p' → Bool
is_caused (wakes p i here) = false
is_caused _ = true

pub data CausedSteps : ThreadPool → ThreadPool → Type 0 where
  no_step : (p : ThreadPool) → CausedSteps p p
  one_more :
      (p p' p'' : ThreadPool) (s : Step p p')
      → is_caused s ≡ true
      → CausedSteps p' p''
      → CausedSteps p p''

become-Stuck :
    (p : ThreadPool) (i j : ℕ) (v w : Worker)
    → Stuck i p
    → At p j v
    → (v ≡ asleep → w ≡ asleep)
    → ((f : ℕ) → w ≢ running f)
    → Stuck i (become j w p)
become-Stuck p i j v w st here keep no_run = record {
  waiting = st.waiting;
  stop_set = st.stop_set;
  no_task = st.no_task;
  sleeps = elim (Bool-cases (j == i)) [
    | inl e ↦
        let same : v ≡ asleep =
          some_eq (sym here ∙ ap (get_elem? p.threads) ((==_iff j i).0 e) ∙ st.sleeps) in
        rw (changed p.threads j i v w here, e) (ap some (keep same))
    | inr n ↦ rw (changed p.threads j i v w here, n) st.sleeps
  ];
  none_runs = λ k f h. elim (Bool-cases (j == k)) [
    | inl e ↦ no_run f (some_eq (sym (rw (changed p.threads j k v w here, e) refl) ∙ h))
    | inr n ↦ st.none_runs k f (sym (rw (changed p.threads j k v w here, n) refl) ∙ h)
  ];
}

Entered-Stuck :
    (p p' : ThreadPool) (i j : ℕ) → Stuck i p → At p j ready → Entered j p p' → Stuck i p'
Entered-Stuck p _ i j st here (leaves s q) =
    become-Stuck p i j ready finished st here (λ e. absurd (cc)) (λ f e. cc)
Entered-Stuck p _ i j st here (takes f fs q) = absurd (cc (st.no_task))
Entered-Stuck p _ i j st here (waits s q) = absurd (ground (arith, st.stop_set))

Step-Stuck :
    (p p' : ThreadPool) (i : ℕ) → Stuck i p → (s : Step p p') → is_caused s ≡ true → Stuck i p'
Step-Stuck p _ i st (adds _ f k may free woken) c = elim may [
  | inl here ↦ absurd (cc (st.waiting))
  | inr (j, g, runs) ↦ absurd (st.none_runs j g runs)
]
Step-Stuck p p' i st (enters _ _ j free here run) c =
    let (p₁, run₁, e) = thread_func-Entered j p in
    Entered-Stuck p p' i j st here (subst (Entered j p) (ok_eq (sym run₁ ∙ run)) e)
Step-Stuck p _ i st (blocks _ j here) c =
    become-Stuck p i j tested asleep st here (λ e. refl) (λ f e. cc)
Step-Stuck p _ i st (wakes _ j here) c = absurd (cc)
Step-Stuck p _ i st (ends_task _ j f here) c = absurd (st.none_runs j f here)
Step-Stuck p _ i st (stops _ here) c = absurd (cc (st.waiting))
Step-Stuck p _ i st (notifies _ here) c = absurd (cc (st.waiting))
Step-Stuck p _ i st (joins _ here all) c = absurd (cc (all i asleep st.sleeps))

CausedSteps-Stuck : (p p' : ThreadPool) (i : ℕ) → Stuck i p → CausedSteps p p' → Stuck i p'
CausedSteps-Stuck p _ i st (no_step _) = st
CausedSteps-Stuck p p' i st (one_more _ q _ s c ss) =
    CausedSteps-Stuck q p' i (Step-Stuck p q i st s c) ss

-- Suppose that a worker has seen, under the mutex, that there is neither a task nor an order to stop, that
-- the destructor has not been called, and that no task is running. Then the destructor can set the flag and
-- notify before that worker sleeps, and from the state in which the worker then sleeps, the worker sleeps
-- and the destructor waits for as long as no thread wakes up without a notification.
pub tested-Stuck :
    (p : ThreadPool) (i : ℕ)
    → Reached p
    → p.phase ≡ alive
    → p.task_queue ≡ []
    → NoneRuns p
    → At p i tested
    → (p₁ : ThreadPool) × (p₁ ≡ become i asleep (notify_all (store_stop p)))
      × CausedSteps p p₁
      × Reached p₁
      × ((p₂ : ThreadPool) → CausedSteps p₁ p₂ → (p₂.phase ≡ joining) × At p₂ i asleep)
unfolding store_stop notify_all
tested-Stuck p i r here q quiet at_test =
    let p₁ = store_stop p in
    let p₂ = notify_all p₁ in
    let r₁ = then_step r (stops p here) in
    let r₂ = then_step r₁ (notifies p₁ is_stopping) in
    (
      become i asleep p₂,
      refl,
      one_more p p₁ (become i asleep p₂) (stops p here) refl (
          one_more p₁ p₂ (become i asleep p₂) (notifies p₁ is_stopping) refl (
            one_more p₂ (become i asleep p₂) (become i asleep p₂) (blocks p₂ i still_tests) refl
              (no_step (become i asleep p₂)))),
      then_step r₂ (blocks p₂ i still_tests),
      λ p₃ ss.
          let s = CausedSteps-Stuck (become i asleep p₂) p₃ i blocked ss in (s.waiting, s.sleeps),
    )
  where
    is_stopping : (store_stop p).phase ≡ stopping
    is_stopping = refl

    still_tests : At (notify_all (store_stop p)) i tested
    still_tests = all_notified p.threads i ∙ ap wake_one at_test

    blocked : Stuck i (become i asleep (notify_all (store_stop p)))
    blocked = record {
      waiting = refl;
      stop_set = refl;
      no_task = q;
      sleeps = rw (changed (map wake p.threads) i i tested asleep still_tests, ==_refl i) refl;
      none_runs = λ k f h. elim (Bool-cases (i == k)) [
        | inl e ↦
            let now : get_elem? (set (map wake p.threads) i asleep) k ≡ some asleep =
              rw (changed (map wake p.threads) i k tested asleep still_tests, e) refl in
            cc (sym now ∙ h)
        | inr n ↦
            let same : get_elem? (set (map wake p.threads) i asleep) k
                ≡ wake_one (get_elem? p.threads k) =
              rw (changed (map wake p.threads) i k tested asleep still_tests, n)
                (all_notified p.threads k) in
            quiet k f (not_made (running f) (get_elem? p.threads k) (λ e. cc) (sym same ∙ h))
      ];
    }
