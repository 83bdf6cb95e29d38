-- ===== src/ThreadPool/Invariant.antt =====
-- No task of threadpool/threadpool.cpp is lost, and none waits while all workers sleep.
use oula_server.Prelude.{
  ◌==◌, ==_iff, ==_refl, Bool-cases, some_eq, get_elem?, ok, ℕ, ◌≡◌, refl, sym, ap, ◌∙◌, ◌≢◌, ◌⊎◌,
  inl, inr, true, false, Option, none, some, List, [], ◌∷◌, ◌++◌, append_assoc, arith,
}
use oula_server.ThreadPool.{
  Worker, ready, tested, asleep, finished, running, ThreadPool, is_empty, become, wake, add_task,
  thread_func,
}
use oula_server.ThreadPool.Schedule.{
  At, MutexFree, WokenOne, MayAdd, is_awake, stop_at, Inv, changed, notified, wake_one,
}

-- What `threadFunc` does under the mutex
pub data Entered (i : ℕ) (p : ThreadPool) : ThreadPool → Type 0 where
  leaves : p.stop ≡ true → p.task_queue ≡ [] → Entered i p (become i finished p)
  takes :
      (f : ℕ) (fs : List ℕ)
      → p.task_queue ≡ f ∷ fs
      → Entered i p (become i (running f) (record p { task_queue = fs; begun = p.begun ++ f ∷ [] }))
  waits : p.stop ≡ false → p.task_queue ≡ [] → Entered i p (become i tested p)

queue-cases : (q : List ℕ) → (q ≡ []) ⊎ ((f : ℕ) × (fs : List ℕ) × (q ≡ f ∷ fs))
queue-cases [] = inl refl
queue-cases (f ∷ fs) = inr (f, fs, refl)

-- It never takes the front of an empty queue.
pub thread_func-Entered :
    (i : ℕ) (p : ThreadPool) → (p' : ThreadPool) × (thread_func i p ≡ ok p') × Entered i p p'
unfolding thread_func
thread_func-Entered i p = elim (queue-cases p.task_queue) [
  | inr (f, fs, q) ↦ (
    become i (running f) (record p { task_queue = fs; begun = p.begun ++ f ∷ [] }),
    rw q (elim (Bool-cases p.stop) [ inl s ↦ rw s refl | inr n ↦ rw n refl ]),
    takes f fs q,
  )
  | inl q ↦ elim (Bool-cases p.stop) [
    | inl s ↦ (become i finished p, rw (q, s) refl, leaves s q)
    | inr n ↦ (become i tested p, rw (q, n) refl, waits n q)
  ]
]

pub become-Inv :
    (p : ThreadPool) (i : ℕ) (v w : Worker)
    → Inv p
    → At p i v
    → (w ≡ finished → p.stop ≡ true)
    → (w ≡ tested → is_empty p.task_queue ≡ true)
    → (is_empty p.task_queue ≡ false → is_awake (some v) ≡ true → is_awake (some w) ≡ true)
    → Inv (become i w p)
become-Inv p i v w inv here leave_ok test_ok stays = record {
  order = inv.order;
  flag = inv.flag;
  returned = λ j h. at_or j finished h leave_ok (inv.returned j);
  testing = λ j h. at_or j tested h test_ok (inv.testing j);
  awake = λ n.
      let (j, a) = inv.awake n in
      (
        j,
        elim (Bool-cases (i == j)) [
          | inl e ↦
              let same = (==_iff i j).0 e in
              let a' : is_awake (some v) ≡ true =
                ap is_awake (sym here ∙ ap (get_elem? p.threads) same) ∙ a in
              rw (changed p.threads i j v w here, e) (stays n a')
          | inr ne ↦ rw (changed p.threads i j v w here, ne) a
        ],
      );
  some_thread =
      let (x, h) = inv.some_thread in
      elim (Bool-cases (i == 0)) [
        | inl e ↦ (w, rw (changed p.threads i 0 v w here, e) refl)
        | inr ne ↦ (x, rw (changed p.threads i 0 v w here, ne) h)
      ];
}
  where
    at_or :
        {P : Type 0} (j : ℕ) (x : Worker) → At (become i w p) j x → (w ≡ x → P) → (At p j x → P) → P
    at_or j x h this other = elim (Bool-cases (i == j)) [
      | inl e ↦ this (some_eq (sym (rw (changed p.threads i j v w here, e) refl) ∙ h))
      | inr ne ↦ other (sym (rw (changed p.threads i j v w here, ne) refl) ∙ h)
    ]

-- A notification makes no thread anything but ready, and keeps those awake that are.
pub not_made : (w : Worker) (x : Option Worker) → (w ≡ ready → ⊥) → wake_one x ≡ some w → x ≡ some w
not_made w none n h = h
not_made w (some ready) n h = h
not_made w (some tested) n h = h
not_made w (some asleep) n h = absurd (n (sym (some_eq h)))
not_made w (some finished) n h = h
not_made w (some (running g)) n h = h

pub awake_still : (x : Option Worker) → is_awake x ≡ true → is_awake (wake_one x) ≡ true
awake_still (some ready) h = refl
awake_still (some (running g)) h = refl
awake_still none h = absurd (cc)
awake_still (some tested) h = absurd (cc)
awake_still (some asleep) h = absurd (cc)
awake_still (some finished) h = absurd (cc)

pub added-Inv :
    (p : ThreadPool) (f k : ℕ)
    → Inv p
    → MayAdd p
    → MutexFree p
    → WokenOne p k
    → Inv (add_task f k p)
unfolding add_task
added-Inv p f k inv may free woken = record {
  order = ap (λ l. l ++ f ∷ []) inv.order ∙ append_assoc p.begun p.task_queue (f ∷ []);
  flag = inv.flag;
  returned = λ j h. inv.returned j (still j finished (λ e. absurd (cc)) h);
  testing = λ j h. absurd (free j (still j tested (λ e. absurd (cc)) h));
  awake = λ n. someone;
  some_thread =
      let (w, h) = inv.some_thread in
      elim (Bool-cases (k == 0)) [
        | inl e ↦ (wake w, rw (notified k p.threads 0, e, h) refl)
        | inr ne ↦ (w, rw (notified k p.threads 0, ne, h) refl)
      ];
}
  where
    still : (j : ℕ) (w : Worker) → (w ≡ ready → ⊥) → At (add_task f k p) j w → At p j w
    still j w n h = elim (Bool-cases (k == j)) [
      | inl e ↦ not_made w (get_elem? p.threads j) n (sym (rw (notified k p.threads j, e) refl) ∙ h)
      | inr ne ↦ sym (rw (notified k p.threads j, ne) refl) ∙ h
    ]

    awake_now :
        (j : ℕ)
        → is_awake (get_elem? p.threads j) ≡ true
        → is_awake (get_elem? (add_task f k p).threads j) ≡ true
    awake_now j h = elim (Bool-cases (k == j)) [
      | inl e ↦ rw (notified k p.threads j, e) (awake_still (get_elem? p.threads j) h)
      | inr ne ↦ rw (notified k p.threads j, ne) h
    ]

    -- If no thread sleeps and none has returned, the first one is awake.
    first_awake :
        (w : Worker)
        → At p 0 w
        → p.stop ≡ false
        → ((i : ℕ) → get_elem? p.threads i ≢ some asleep)
        → is_awake (some w) ≡ true
    first_awake ready h s n = refl
    first_awake (running g) h s n = refl
    first_awake tested h s n = absurd (free 0 h)
    first_awake asleep h s n = absurd (n 0 h)
    first_awake finished h s n = absurd (ground (arith, inv.returned 0 h))

    someone : (i : ℕ) × (is_awake (get_elem? (add_task f k p).threads i) ≡ true)
    someone = elim woken [
      | inl sleeps ↦ (k, rw (notified k p.threads k, ==_refl k, sleeps) refl)
      | inr nobody ↦ elim may [
        | inr (i, g, runs) ↦ (i, awake_now i (rw runs refl))
        | inl here ↦
            let (w, h) = inv.some_thread in
            let s : p.stop ≡ false = inv.flag ∙ ap stop_at here in
            (0, awake_now 0 (rw h (first_awake w h s nobody)))
      ]
    ]
