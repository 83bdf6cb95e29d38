-- ===== src/ThreadPool/Shutdown.antt =====
-- Every interleaving of threadpool/threadpool.cpp, and the end of its destructor.
use oula_server.Prelude.{
  none, append-nil, inr, inl, Bool-cases, Option, true, List, some_eq, get_elem?, replicate, ok_eq,
  ℕ, zero, suc, ◌<◌, ◌≡◌, refl, sym, ap, subst, ◌∙◌, some, [], ◌∷◌, ◌++◌, append_assoc, arith,
}
use oula_server.ThreadPool.{
  joined, add_task, Worker, ready, tested, asleep, finished, running, stopping, ThreadPool, new,
  is_empty, wake, store_stop, notify_all, join_all,
}
use oula_server.ThreadPool.Schedule.{
  is_awake, Step, Reached, adds, enters, blocks, wakes, ends_task, stops, notifies, joins, at_first,
  then_step, At, stop_at, Inv, all_notified, wake_one,
}
use oula_server.ThreadPool.Invariant.{
  Entered, leaves, takes, waits, thread_func-Entered, become-Inv, added-Inv, not_made, awake_still,
}

notify_all-Inv : (p : ThreadPool) → Inv p → p.phase ≡ stopping → Inv (notify_all p)
unfolding notify_all
notify_all-Inv p inv here = record {
  order = inv.order;
  flag = inv.flag ∙ ap stop_at here;
  returned = λ j h. inv.returned j (
      not_made finished (get_elem? p.threads j) (λ e. absurd (cc))
        (sym (all_notified p.threads j) ∙ h));
  testing = λ j h. inv.testing j (
      not_made tested (get_elem? p.threads j) (λ e. absurd (cc))
        (sym (all_notified p.threads j) ∙ h));
  awake = λ n.
      let (j, a) = inv.awake n in
      (j, rw (all_notified p.threads j) (awake_still (get_elem? p.threads j) a));
  some_thread = let (w, h) = inv.some_thread in (wake w, all_notified p.threads 0 ∙ ap wake_one h);
}

Entered-Inv : (p p' : ThreadPool) (i : ℕ) → Inv p → At p i ready → Entered i p p' → Inv p'
Entered-Inv p _ i inv here (leaves s q) =
    become-Inv p i ready finished inv here (λ e. s) (λ e. absurd (cc))
      (λ n a. absurd (ground (arith, n, ap is_empty q)))
Entered-Inv p _ i inv here (waits s q) =
    become-Inv p i ready tested inv here (λ e. absurd (cc)) (λ e. ap is_empty q)
      (λ n a. absurd (ground (arith, n, ap is_empty q)))
Entered-Inv p _ i inv here (takes f fs q) =
    become-Inv (record p { task_queue = fs; begun = p.begun ++ f ∷ [] }) i ready (running f)
      (record {
        order = inv.order ∙ ap (λ l. p.begun ++ l) q ∙ sym (append_assoc p.begun (f ∷ []) fs);
        flag = inv.flag;
        returned = inv.returned;
        testing = λ j h. absurd (ground (arith, inv.testing j h, ap is_empty q));
        awake = λ n. inv.awake (ap is_empty q);
        some_thread = inv.some_thread;
      })
      here (λ e. absurd (cc)) (λ e. absurd (cc)) (λ n a. refl)

Step-Inv : (p p' : ThreadPool) → Inv p → Step p p' → Inv p'
unfolding store_stop join_all
Step-Inv p _ inv (adds _ f k may free woken) = added-Inv p f k inv may free woken
Step-Inv p p' inv (enters _ _ i free here run) =
    let (p₁, run₁, e) = thread_func-Entered i p in
    Entered-Inv p p' i inv here (subst (Entered i p) (ok_eq (sym run₁ ∙ run)) e)
Step-Inv p _ inv (blocks _ i here) =
    become-Inv p i tested asleep inv here (λ e. absurd (cc)) (λ e. absurd (cc)) (λ n a. absurd (cc))
Step-Inv p _ inv (wakes _ i here) =
    become-Inv p i asleep ready inv here (λ e. absurd (cc)) (λ e. absurd (cc)) (λ n a. refl)
Step-Inv p _ inv (ends_task _ i f here) =
    become-Inv p i (running f) ready inv here (λ e. absurd (cc)) (λ e. absurd (cc)) (λ n a. refl)
Step-Inv p _ inv (stops _ here) = record {
  order = inv.order;
  flag = refl;
  returned = λ j h. refl;
  testing = inv.testing;
  awake = inv.awake;
  some_thread = inv.some_thread;
}
Step-Inv p _ inv (notifies _ here) = notify_all-Inv p inv here
Step-Inv p _ inv (joins _ here all) = record {
  order = inv.order;
  flag = inv.flag ∙ ap stop_at here;
  returned = inv.returned;
  testing = inv.testing;
  awake = inv.awake;
  some_thread = inv.some_thread;
}

new-Inv : (thread_num : ℕ) → 0 < thread_num → Inv (new thread_num)
unfolding new
new-Inv zero h = absurd (ground arith)
new-Inv (suc n) h = record {
  order = refl;
  flag = refl;
  returned = λ j e. absurd (never finished (suc n) j (λ x. absurd (cc)) e);
  testing = λ j e. refl;
  awake = λ e. absurd (cc);
  some_thread = (ready, refl);
}
  where
    never : (w : Worker) (k j : ℕ) → (w ≡ ready → ⊥) → get_elem? (replicate k ready) j ≡ some w → ⊥
    never w zero j n e = absurd (cc)
    never w (suc k) zero n e = n (sym (some_eq e))
    never w (suc k) (suc j) n e = never w k j n e

-- Under any interleaving of any number of workers with other threads, the tasks that were added are
-- those that were begun, in their order, followed by those in the queue; a thread that holds the mutex
-- to wait, or that has returned, means an empty queue or a pool that stops; and as long as there is a
-- task in the queue, some worker is awake.
pub Reached-no_lost_task : (p : ThreadPool) → Reached p → Inv p
Reached-no_lost_task _ (at_first n h) = new-Inv n h
Reached-no_lost_task _ (then_step {p} {p'} r s) = Step-Inv p p' (Reached-no_lost_task p r) s

abbrev pub AllFinished : ThreadPool → Type 0
AllFinished p = (i : ℕ) (w : Worker) → At p i w → w ≡ finished

Entered-phase : (p p' : ThreadPool) (i : ℕ) → Entered i p p' → p.phase ≡ p'.phase
Entered-phase p _ i (leaves s q) = refl
Entered-phase p _ i (takes f fs q) = refl
Entered-phase p _ i (waits s q) = refl

Step-after_join :
    (p p' : ThreadPool)
    → Step p p'
    → (p.phase ≡ joined → AllFinished p)
    → p'.phase ≡ joined
    → AllFinished p'
unfolding add_task store_stop notify_all join_all
Step-after_join p _ (adds _ f k may free woken) all h = elim may [
  | inl here ↦ absurd (cc)
  | inr (i, g, runs) ↦ absurd (cc (all h i (running g) runs))
]
Step-after_join p p' (enters _ _ i free here run) all h =
    let (p₁, run₁, e) = thread_func-Entered i p in
    let same = Entered-phase p p₁ i e ∙ ap (λ (x : ThreadPool). x.phase) (ok_eq (sym run₁ ∙ run)) in
    absurd (cc (all (same ∙ h) i ready here))
Step-after_join p _ (blocks _ i here) all h = absurd (cc (all h i tested here))
Step-after_join p _ (wakes _ i here) all h = absurd (cc (all h i asleep here))
Step-after_join p _ (ends_task _ i f here) all h = absurd (cc (all h i (running f) here))
Step-after_join p _ (stops _ here) all h = absurd (cc)
Step-after_join p _ (notifies _ here) all h = absurd (cc)
Step-after_join p _ (joins _ here done) all h = done

all_finished : (p : ThreadPool) → Reached p → p.phase ≡ joined → AllFinished p
unfolding new
all_finished _ (at_first n h) e = absurd (cc)
all_finished _ (then_step {p} {p'} r s) e = Step-after_join p p' s (all_finished p r) e

-- Under any interleaving in which only the pool's own tasks add tasks once the destructor was
-- called: when the destructor has joined its threads, all of them have returned, and every task
-- that was ever added was begun, in order.
pub Reached-joined :
    (p : ThreadPool) → Reached p → p.phase ≡ joined → AllFinished p × (p.begun ≡ p.added)
Reached-joined p r e =
    let done = all_finished p r e in
    let inv = Reached-no_lost_task p r in
    (
      done,
      elim (Bool-cases (is_empty p.task_queue)) [
        | inl none_left ↦
            sym (append-nil p.begun)
            ∙ ap (λ l. p.begun ++ l) (sym (emptied p.task_queue none_left))
            ∙ sym inv.order
        | inr some_left ↦
            let (i, a) = inv.awake some_left in
            absurd (not_awake (get_elem? p.threads i) (done i) a)
      ],
    )
  where
    emptied : (q : List ℕ) → is_empty q ≡ true → q ≡ []
    emptied [] h = refl
    emptied (f ∷ fs) h = absurd (cc)

    not_awake :
        (x : Option Worker) → ((w : Worker) → x ≡ some w → w ≡ finished) → is_awake x ≡ true → ⊥
    not_awake none d a = cc
    not_awake (some ready) d a = cc (d ready refl)
    not_awake (some (running f)) d a = cc (d (running f) refl)
    not_awake (some tested) d a = cc
    not_awake (some asleep) d a = cc
    not_awake (some finished) d a = cc
