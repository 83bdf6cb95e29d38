-- ===== src/TimerQueue/Pending.antt =====
-- `addTimer` and `insert` of net/TimerQueue.cpp.
use oula_server.Prelude.{
  ◌==◌, if◌then◌else◌, ==_iff, ==_refl, Bool-cases, length, ok, ℕ, ◌<◌, ◌≡◌, refl, ap, inl, inr,
  Bool, true, false, Option, none, some, List, arith,
}
use oula_server.Prelude.Sets
use oula_server.Timestamp.{Seconds, Timestamp, Timer, Timespec, new_timer, how_much_time_from_now}
use oula_server.TimerQueue.{
  Entry, ActiveTimer, entry_less, active_less, TimerQueue, write, with_timer, comes_first,
  same_size, insert, reset_timer_fd, add_timer_in_loop, allocate, add_timer, uintptr_max,
}
use oula_server.TimerQueue.Books.{
  apart-Inv, pending-active, entry-Order, active-Order, is_loose, Inv, Idle, with_timer-Inv,
}

pub sizes_agree : (q : TimerQueue) (loose : List Entry) → Inv q loose → same_size q ≡ true
sizes_agree q loose v = (==_iff (length q.timers) (length q.active_timers)).1 v.sizes

pub insert_lem :
    (q : TimerQueue) (loose : List Entry) (p : ℕ) (t : Timer)
    → Inv q loose
    → Idle q p t
    → is_loose p loose ≡ false
    → insert true p q ≡ ok (with_timer p t q, comes_first t.expiration q.timers)
unfolding insert
insert_lem q loose p t v i free = rw (
  sizes_agree q loose v,
  i.is_there,
  pending-active q loose p t v i.is_there,
  i.not_active,
  sizes_agree (with_timer p t q) loose (with_timer-Inv q loose p t v i free),
)

-- Writing where no timer was leaves the others as they are.
write_other :
    (q : TimerQueue) (p k : ℕ) (o : Option Timer) (t : Timer)
    → q.memory p ≡ none
    → q.memory k ≡ some t
    → write p o q.memory k ≡ some t
write_other q p k o t free h = elim (Bool-cases (p == k)) [
  | inl e ↦ let same = (==_iff p k).0 e in absurd (ground (arith, ap q.memory same))
  | inr n ↦ rw (n, h)
]

abbrev pub made : TimerQueue → Timestamp → Seconds → Timer
made q when interval = record {
  expiration = when;
  interval = interval;
  repeat = interval.is_positive;
  seq = q.seq_total;
}

pub not_loose :
    (q : TimerQueue) (loose : List Entry) (p : ℕ)
    → Inv q loose
    → q.memory p ≡ none
    → is_loose p loose ≡ false
not_loose q loose p v free = elim (Bool-cases (is_loose p loose)) [
  | inr n ↦ n
  | inl l ↦ let (t, m, a) = v.loose_live p l in absurd (ground (arith, m, free))
]

allocate-Inv :
    (q : TimerQueue) (loose : List Entry) (p : ℕ) (when : Timestamp) (interval : Seconds)
    → Inv q loose
    → q.memory p ≡ none
    → p < uintptr_max
    → Inv (allocate p when interval q) loose
      × Idle (allocate p when interval q) p (made q when interval)
unfolding allocate new_timer
allocate-Inv q loose p when interval v free small = (
  record {
    timers_sorted = v.timers_sorted;
    active_sorted = v.active_sorted;
    sizes = v.sizes;
    pending =
        λ e h. let (t, m, w, a) = v.pending e h in (t, write_other q p e.1 new_one t free m, w, a);
    active =
        λ a h. let (t, m, w, e) = v.active a h in (t, write_other q p a.0 new_one t free m, w, e);
    loose_live =
        λ k h. let (t, m, n) = v.loose_live k h in (t, write_other q p k new_one t free m, n);
    loose_distinct = v.loose_distinct;
    addresses = λ k t h. ground (arith, ==_iff p k, v.addresses k t);
    numbers = λ k t h. ground (arith, ==_iff p k, v.numbers k t);
  },
  record { is_there = rw (==_refl p); not_active = unused },
)
  where
    new_one : Option Timer
    new_one = some (made q when interval)

    unused : Sets.member active_less (p, q.seq_total) q.active_timers ≡ false
    unused = elim (Bool-cases (Sets.member active_less (p, q.seq_total) q.active_timers)) [
      | inr n ↦ n
      | inl l ↦ let (t, m, s, e) = v.active (p, q.seq_total) l in absurd (ground (arith, m, free))
    ]

armed_if :
    (b : Bool) (q : TimerQueue) (fd : Option Timespec)
    → (if b then record q { timefd = fd } else q) ≡ record q { timefd = if b then fd else q.timefd }
armed_if true q fd = refl
armed_if false q fd = refl

-- A timer was added: it is pending under the identifier that the caller got, the books are right,
-- and the timer of the kernel was set anew exactly if no timer comes before it.
pub record Added (q : TimerQueue) (loose : List Entry) (now : Timestamp) (p : ℕ) (when : Timestamp)
    (interval : Seconds) (q' : TimerQueue) : Type 0 where
  pub books : Inv q' loose
  pub is_active : Sets.member active_less (p, q.seq_total) q'.active_timers ≡ true
  pub is_pending : Sets.member entry_less (when, p) q'.timers ≡ true
  pub object : q'.memory p ≡ some (made q when interval)
  pub others :
      (a : ActiveTimer)
      → Sets.member active_less a q.active_timers ≡ true
      → Sets.member active_less a q'.active_timers ≡ true
  pub objects : (k : ℕ) → (p == k) ≡ false → q'.memory k ≡ q.memory k
  pub armed :
      q'.timefd
      ≡ (if comes_first when q.timers then some (how_much_time_from_now when now) else q.timefd)
  pub same_calling : q'.calling_expired_timers ≡ q.calling_expired_timers
  pub same_canceling : q'.canceling_timers ≡ q.canceling_timers

-- `addTimer` in the loop's thread, on a queue whose books are right and with an address that held
-- no timer: no assertion fails, and the books are right. The new timer is in both sets and in
-- memory under the identifier that the caller gets, the other timers are as they were, and the
-- kernel's timer is set anew exactly if the new one comes before all others.
pub add_timer-Added :
    (q : TimerQueue) (loose : List Entry) (now : Timestamp) (p : ℕ) (when : Timestamp)
    (interval : Seconds)
    → Inv q loose
    → q.memory p ≡ none
    → p < uintptr_max
    → (q' : TimerQueue) × (add_timer true now p when interval q ≡ ok (q', (p, q.seq_total)))
      × Added q loose now p when interval q'
unfolding add_timer add_timer_in_loop reset_timer_fd allocate new_timer
add_timer-Added q loose now p when interval v free small =
    let (v', i) = allocate-Inv q loose p when interval v free small in
    let lonely = not_loose q loose p v free in
    let q₀ = allocate p when interval q in
    let t = made q when interval in
    let q₁ = with_timer p t q₀ in
    let first = comes_first when q.timers in
    let fd = if first then some (how_much_time_from_now when now) else q.timefd in
    let in_active = λ (a : ActiveTimer).
      Sets.member-insert active_less active-Order (p, q.seq_total) a q.active_timers in
    let in_timers = Sets.member-insert entry_less entry-Order (when, p) (when, p) q.timers in
    (
      record q₁ { timefd = fd },
      rw (insert_lem q₀ loose p t v' i lonely, i.is_there)
          (ap (λ r. ok (r, (p, q.seq_total)))
            (armed_if first q₁ (some (how_much_time_from_now when now)))),
      record {
        books =
            apart-Inv q₁ loose q.calling_expired_timers q.canceling_timers fd
              (with_timer-Inv q₀ loose p t v' i lonely);
        is_active = ground (
          arith,
          in_active (p, q.seq_total),
          Sets.same_refl active_less active-Order (p, q.seq_total),
        );
        is_pending = ground (arith, in_timers, Sets.same_refl entry_less entry-Order (when, p));
        object = i.is_there;
        others = λ a h. ground (arith, in_active a);
        objects = λ k n. rw n;
        armed = refl;
        same_calling = refl;
        same_canceling = refl;
      },
    )
