-- ===== src/TimerQueue/Settling.antt =====
-- One timer in `reset` of net/TimerQueue.cpp, and `restart` of net/Timer.cpp.
use oula_server.TimerQueue.Pending.{insert_lem}
use oula_server.Prelude.{
  Bool, not, if◌then◌else◌, ◌&&◌, none, ok, [], ◌==◌, ==_iff, ==_refl, Bool-cases, some_eq, ℕ, ◌<◌,
  ◌≡◌, refl, sym, ap, ap₂, ◌∙◌, inl, inr, true, false, Option, some, List, ◌∷◌, arith,
}
use oula_server.Prelude.Sets
use oula_server.Timestamp.{add_time, restart, Timestamp, Timer}
use oula_server.TimerQueue.{
  restart_timer, with_timer, reset_one, Entry, ActiveTimer, active_less, TimerQueue, write,
}
use oula_server.TimerQueue.Books.{
  active_elsewhere, active-Order, with_timer-Inv, Idle, is_loose, Inv,
}

elsewhere :
    (q : TimerQueue) (p k : ℕ) (o : Option Timer) (x : Timer)
    → (p == k) ≡ false
    → q.memory k ≡ some x
    → write p o q.memory k ≡ some x
elsewhere q p k o x n h = rw (n, h)

pub loose_elsewhere :
    (e : Entry) (es : List Entry) (k : ℕ)
    → is_loose e.1 es ≡ false
    → is_loose k es ≡ true
    → (e.1 == k) ≡ false
loose_elsewhere e es k once l = elim (Bool-cases (e.1 == k)) [
  | inr n ↦ n
  | inl h ↦ absurd (ground (arith, ap (λ (x : ℕ). is_loose x es) ((==_iff e.1 k).0 h)))
]

first : (e : Entry) (es : List Entry) → is_loose e.1 (e ∷ es) ≡ true
first e es = rw (==_refl e.1) refl

-- A loose timer is written to or deleted, and loose no longer.
settled-Inv :
    (q : TimerQueue) (e : Entry) (es : List Entry) (o : Option Timer)
    → Inv q (e ∷ es)
    → ((t : Timer) → o ≡ some t → t.seq < q.seq_total)
    → Inv (record q { memory = write e.1 o q.memory }) es
settled-Inv q e es o v small = record {
  timers_sorted = v.timers_sorted;
  active_sorted = v.active_sorted;
  sizes = v.sizes;
  pending = λ c h.
      let (x, m, w, a) = v.pending c h in
      (
        x,
        elsewhere q e.1 c.1 o x (active_elsewhere q (e ∷ es) e.1 c.1 x v (first e es) m a) m,
        w,
        a,
      );
  active = λ a h.
      let (x, m, s, c) = v.active a h in
      let is_in : Sets.member active_less (a.0, x.seq) q.active_timers ≡ true =
        ap (λ n. Sets.member active_less (a.0, n) q.active_timers) s ∙ h in
      (
        x,
        elsewhere q e.1 a.0 o x (active_elsewhere q (e ∷ es) e.1 a.0 x v (first e es) m is_in) m,
        s,
        c,
      );
  loose_live = λ k h.
      let (x, m, n) = v.loose_live k (ground (arith, h)) in
      (x, elsewhere q e.1 k o x (loose_elsewhere e es k v.loose_distinct.0 h) m, n);
  loose_distinct = v.loose_distinct.1;
  addresses = λ k x h.
      let (t, m, n) = v.loose_live e.1 (first e es) in
      elim (Bool-cases (e.1 == k)) [
        | inl here ↦ let same = (==_iff e.1 k).0 here in rw (← same) (v.addresses e.1 t m)
        | inr ne ↦ v.addresses k x (rw ne at h)
      ];
  numbers = λ k x h. elim (Bool-cases (e.1 == k)) [
    | inl here ↦ small x (rw here at h)
    | inr ne ↦ v.numbers k x (rw ne at h)
  ];
}

-- It repeats, and was not cancelled while the callbacks ran.
abbrev pub is_kept : TimerQueue → ℕ → Timer → Bool
is_kept q p t = t.repeat && not (Sets.member active_less (p, t.seq) q.canceling_timers)

-- One that is kept expires again when its interval has passed from now on.
abbrev pub fate : TimerQueue → ℕ → Timer → Timestamp → Option Timer
fate q p t now =
    if is_kept q p t then some (record t { expiration = add_time now t.interval }) else none

-- The expired timers were settled: one that repeats and was not cancelled waits again, with the
-- expiration that its interval gives, and any other is deleted.
pub record Settled (q : TimerQueue) (rest : List Entry) (now : Timestamp) (expired : List Entry)
    (q' : TimerQueue) : Type 0 where
  pub books : Inv q' rest
  pub ends :
      (p : ℕ) (t : Timer)
      → is_loose p expired ≡ true
      → q.memory p ≡ some t
      → q'.memory p ≡ fate q p t now
  pub waits :
      (p : ℕ) (t : Timer)
      → is_loose p expired ≡ true
      → q.memory p ≡ some t
      → is_kept q p t ≡ true
      → Sets.member active_less (p, t.seq) q'.active_timers ≡ true
  pub others : (p : ℕ) → is_loose p expired ≡ false → q'.memory p ≡ q.memory p
  pub still :
      (a : ActiveTimer)
      → Sets.member active_less a q.active_timers ≡ true
      → Sets.member active_less a q'.active_timers ≡ true
  pub same_canceling : q'.canceling_timers ≡ q.canceling_timers
  pub same_calling : q'.calling_expired_timers ≡ q.calling_expired_timers
  pub same_timefd : q'.timefd ≡ q.timefd

restart_lem :
    (t : Timer) (now : Timestamp)
    → t.repeat ≡ true
    → restart t now ≡ record t { expiration = add_time now t.interval }
unfolding restart
restart_lem t now repeats = rw repeats refl

abbrev id_of : ℕ → Timer → ActiveTimer
id_of p t = (p, t.seq)

abbrev rewritten : TimerQueue → ℕ → Option Timer → TimerQueue
rewritten q p o = record q { memory = write p o q.memory }

-- One timer alone
alone : (e : Entry) (p : ℕ) → is_loose p (e ∷ []) ≡ true → e.1 ≡ p
alone e p h = (==_iff e.1 p).0 (ground (arith, h))

apart : (e : Entry) (p : ℕ) → is_loose p (e ∷ []) ≡ false → (e.1 == p) ≡ false
apart e p h = ground (arith, h)

module _ (q : TimerQueue) (now : Timestamp) (e : Entry) (es : List Entry) (v : Inv q (e ∷ es))
    (t : Timer) (there : q.memory e.1 ≡ some t)
    (out : Sets.member active_less (e.1, t.seq) q.active_timers ≡ false) where
  same_timer : (p : ℕ) (x : Timer) → e.1 ≡ p → q.memory p ≡ some x → t ≡ x
  same_timer p x k m = some_eq (sym there ∙ ap q.memory k ∙ m)

  same_id : (p : ℕ) (x : Timer) → e.1 ≡ p → q.memory p ≡ some x → id_of e.1 t ≡ id_of p x
  same_id p x k m = ap₂ id_of k (same_timer p x k m)

  written : (p : ℕ) (o : Option Timer) → e.1 ≡ p → write e.1 o q.memory p ≡ o
  written p o k = rw ((==_iff e.1 p).1 k)

  same_fate :
      (p : ℕ) (x : Timer) → e.1 ≡ p → q.memory p ≡ some x → fate q e.1 t now ≡ fate q p x now
  same_fate p x k m = ap₂ (λ a y. fate q a y now) k (same_timer p x k m)

  waits_again :
      is_kept q e.1 t ≡ true
      → (q' : TimerQueue) × (restart_timer true now e.1 t q ≡ ok q') × Settled q es now (e ∷ []) q'
  waits_again on =
      let t' : Timer = record t { expiration = add_time now t.interval } in
      let again = restart_lem t now (ground (arith, on)) in
      let q₀ = rewritten q e.1 (some t') in
      let v₀ = settled-Inv q e es (some t') v small in
      let i : Idle q₀ e.1 t' = record { is_there = written e.1 (some t') refl; not_active = out } in
      let once = v.loose_distinct.0 in
      let in_active = λ (a : ActiveTimer).
        Sets.member-insert active_less active-Order (e.1, t.seq) a q.active_timers in
      (
        with_timer e.1 t' q₀,
        rw (again, insert_lem q₀ es e.1 t' v₀ i once),
        record {
          books = with_timer-Inv q₀ es e.1 t' v₀ i once;
          ends = λ p x l m.
              let k = alone e p l in written p (some t') k ∙ sym (rw on) ∙ same_fate p x k m;
          waits = λ p x l m g.
              let k = alone e p l in
              ground (
                arith,
                in_active (p, x.seq),
                ap (λ a. Sets.same active_less a (id_of e.1 t)) (sym (same_id p x k m))
                    ∙ Sets.same_refl active_less active-Order (e.1, t.seq),
              );
          others = λ p l. rw (apart e p l);
          still = λ a h. ground (arith, in_active a);
          same_canceling = refl;
          same_calling = refl;
          same_timefd = refl;
        },
      )
    where
      small :
          (x : Timer)
          → some (record t { expiration = add_time now t.interval }) ≡ some x
          → x.seq < q.seq_total
      small x h =
          let same : t.seq ≡ x.seq = ap (λ (z : Timer). z.seq) (some_eq h) in
          let bound = v.numbers e.1 t there in omega (arith, same, bound)

  is_deleted : is_kept q e.1 t ≡ false → Settled q es now (e ∷ []) (rewritten q e.1 none)
  is_deleted off = record {
    books = settled-Inv q e es none v (λ x h. absurd (cc));
    ends = λ p x l m. let k = alone e p l in written p none k ∙ sym (rw off) ∙ same_fate p x k m;
    waits = λ p x l m g.
        let k = alone e p l in
        absurd (ground (arith, off, g, ap₂ (λ a y. is_kept q a y) k (same_timer p x k m)));
    others = λ p l. rw (apart e p l);
    still = λ a h. h;
    same_canceling = refl;
    same_calling = refl;
    same_timefd = refl;
  }

pub reset_one-Settled :
    (q : TimerQueue) (now : Timestamp) (e : Entry) (es : List Entry)
    → Inv q (e ∷ es)
    → (q' : TimerQueue) × (reset_one true now e q ≡ ok q') × Settled q es now (e ∷ []) q'
unfolding reset_one
reset_one-Settled q now e es v =
    let (t, there, out) = v.loose_live e.1 (first e es) in
    elim (Bool-cases (is_kept q e.1 t)) [
      | inl on ↦
          let (q', run, settled) = waits_again q now e es v t there out on in
          (q', rw (there, on, run), settled)
      | inr off ↦ (rewritten q e.1 none, rw (there, off), is_deleted q now e es v t there out off)
    ]
