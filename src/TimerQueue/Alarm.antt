-- ===== src/TimerQueue/Alarm.antt =====
-- `reset` and `handelRead` of net/TimerQueue.cpp.
use oula_server.Prelude.{
  ◌==◌, if◌then◌else◌, ==_iff, ==_refl, Bool-cases, Outcome, ok, ℕ, ◌<◌, ◌≡◌, refl, ap, ◌∙◌, inl,
  inr, true, false, Option, none, some, List, [], ◌∷◌, arith,
}
use oula_server.Prelude.Sets
use oula_server.Timestamp.{
  Seconds, Timestamp, Timer, Timespec, is_valid, get_invalid, how_much_time_from_now, less,
}
use oula_server.TimerQueue.{
  get_expired, Entry, ActiveTimer, entry_less, active_less, TimerQueue, reset_timer_fd, next_expire,
  reset, run_all, handle_read, cancel_in_loop, add_timer, uintptr_max,
}
use oula_server.TimerQueue.Books.{entry-Order, is_loose, Inv, Backed, apart-Inv}
use oula_server.TimerQueue.Pending.{not_loose, add_timer-Added}
use oula_server.TimerQueue.Cancel.{cancel_in_loop-Cancelled}
use oula_server.TimerQueue.Expiry.{Expired, get_expired-Expired}
use oula_server.TimerQueue.Erasing.{member_loose}
use oula_server.TimerQueue.Reset.{reset_all-Settled}
use oula_server.TimerQueue.Settling.{is_kept, Settled, fate}

-- The delay that `reset` leaves in the kernel: that of the first entry, if its expiration is valid
abbrev alarm : Timestamp → List Entry → Option Timespec → Option Timespec
alarm later [] timefd = timefd
alarm later (e ∷ es) timefd =
    if is_valid e.0 then some (how_much_time_from_now e.0 later) else timefd

abbrev with_alarm : Timestamp → TimerQueue → TimerQueue
with_alarm later q = record q { timefd = alarm later q.timers q.timefd }

no_alarm : is_valid get_invalid ≡ false
unfolding is_valid get_invalid
no_alarm = refl

first_alarm :
    (q : TimerQueue) (later : Timestamp) (es : List Entry)
    → ((e : Entry) → Sets.member entry_less e es ≡ true → Backed q e)
    → (next : Timestamp) × (next_expire q.memory es ≡ ok next)
      × ((if is_valid next then reset_timer_fd next later q else q)
          ≡ record q { timefd = alarm later es q.timefd })
unfolding reset_timer_fd
first_alarm q later [] pending = (get_invalid, refl, rw no_alarm refl)
first_alarm q later (e ∷ es) pending =
    let (t, there, when, a) = pending e (rw (Sets.same_refl entry_less entry-Order e) refl) in
    (
      e.0,
      rw (there, when),
      elim (Bool-cases (is_valid e.0)) [ inl y ↦ rw y refl | inr n ↦ rw n refl ],
    )

reset_lem :
    (q : TimerQueue) (now later : Timestamp) (expired : List Entry)
    → Inv q expired
    → (q₁ : TimerQueue) × (reset true expired now later q ≡ ok (with_alarm later q₁))
      × Settled q [] now expired q₁
unfolding reset
reset_lem q now later expired v =
    let (q₁, run, s) = reset_all-Settled q now expired v in
    let (next, found, arm) = first_alarm q₁ later q₁.timers s.books.pending in
    (q₁, rw (run, found) (ap ok arm), s)

-- What a callback does to the queue while it runs: the books stay right, the expired timers are not
-- touched, and what is marked stays marked.
pub record Kept (q : TimerQueue) (loose : List Entry) (q' : TimerQueue) : Type 0 where
  pub books : Inv q' loose
  pub objects : (p : ℕ) → is_loose p loose ≡ true → q'.memory p ≡ q.memory p
  pub marks_stay :
      (a : ActiveTimer)
      → Sets.member active_less a q.canceling_timers ≡ true
      → Sets.member active_less a q'.canceling_timers ≡ true
  pub same_calling : q'.calling_expired_timers ≡ q.calling_expired_timers

-- Callbacks that use the queue by its operations only
abbrev pub Keeps : (ℕ → TimerQueue → Outcome TimerQueue) → Type 0
Keeps run =
    (p : ℕ) (q : TimerQueue) (loose : List Entry)
    → Inv q loose
    → (q' : TimerQueue) × (run p q ≡ ok q') × Kept q loose q'

pub cancel_in_loop-Kept :
    (q : TimerQueue) (loose : List Entry) (id : ActiveTimer)
    → Inv q loose
    → (q' : TimerQueue) × (cancel_in_loop true id q ≡ ok q') × Kept q loose q'
cancel_in_loop-Kept q loose id v =
    let (q', run, c) = cancel_in_loop-Cancelled q loose id v in
    (
      q',
      run,
      record {
        books = c.books;
        objects = c.objects;
        marks_stay = c.marks_stay;
        same_calling = c.same_calling;
      },
    )

pub add_timer-Kept :
    (q : TimerQueue) (loose : List Entry) (now : Timestamp) (p : ℕ) (when : Timestamp)
    (interval : Seconds)
    → Inv q loose
    → q.memory p ≡ none
    → p < uintptr_max
    → (q' : TimerQueue) × (add_timer true now p when interval q ≡ ok (q', (p, q.seq_total)))
      × Kept q loose q'
add_timer-Kept q loose now p when interval v free small =
    let (q', run, a) = add_timer-Added q loose now p when interval v free small in
    (
      q',
      run,
      record {
        books = a.books;
        objects = λ k l. a.objects k (elim (Bool-cases (p == k)) [
          | inr n ↦ n
          | inl e ↦
              let same = ap (λ (x : ℕ). is_loose x loose) ((==_iff p k).0 e) in
              absurd (ground (arith, same, not_loose q loose p v free))
        ]);
        marks_stay = λ x h. rw a.same_canceling h;
        same_calling = a.same_calling;
      },
    )

-- The callbacks of timers that are all loose
run_all-Kept :
    (run : ℕ → TimerQueue → Outcome TimerQueue) (q : TimerQueue) (loose es : List Entry)
    → Keeps run
    → Inv q loose
    → ((p : ℕ) → is_loose p es ≡ true → is_loose p loose ≡ true)
    → (q' : TimerQueue) × (run_all run es q ≡ ok q') × Kept q loose q'
unfolding run_all
run_all-Kept run q loose [] keeps v all = (
  q,
  refl,
  record { books = v; objects = λ p l. refl; marks_stay = λ a h. h; same_calling = refl },
)
run_all-Kept run q loose (e ∷ es) keeps v all =
    let (t, there, out) = v.loose_live e.1 (all e.1 (rw (==_refl e.1) refl)) in
    let (q₁, run₁, k₁) = keeps e.1 q loose v in
    let (q₂, run₂, k₂) =
      run_all-Kept run q₁ loose es keeps k₁.books (λ p l. all p (ground (arith, l))) in
    (
      q₂,
      rw (there, run₁, run₂),
      record {
        books = k₂.books;
        objects = λ p l. k₂.objects p l ∙ k₁.objects p l;
        marks_stay = λ a h. k₂.marks_stay a (k₁.marks_stay a h);
        same_calling = k₂.same_calling ∙ k₁.same_calling;
      },
    )

-- The alarm was handled, and `after` is the queue when the last callback returned. A timer that was due
-- waits again if it repeats and `after` does not mark it, and is deleted otherwise; a timer that `after`
-- has still waits; and the kernel's timer is set for the first one.
pub record Handled (run : ℕ → TimerQueue → Outcome TimerQueue) (now later : Timestamp)
    (q : TimerQueue) (after : TimerQueue) (q' : TimerQueue) : Type 0 where
  pub ran :
      (q₀ : TimerQueue) × (expired : List Entry) × (done : TimerQueue) × (get_expired now q
        ≡ ok (q₀, expired))
      × (run_all run expired (record q₀ { calling_expired_timers = true; canceling_timers = [] })
          ≡ ok done)
      × (after ≡ record done { calling_expired_timers = false })
  pub books : Inv q' []
  pub due_ends :
      (e : Entry) (t : Timer)
      → Sets.member entry_less e q.timers ≡ true
      → less now e.0 ≡ false
      → q.memory e.1 ≡ some t
      → q'.memory e.1 ≡ fate after e.1 t now
  pub due_waits :
      (e : Entry) (t : Timer)
      → Sets.member entry_less e q.timers ≡ true
      → less now e.0 ≡ false
      → q.memory e.1 ≡ some t
      → is_kept after e.1 t ≡ true
      → Sets.member active_less (e.1, t.seq) q'.active_timers ≡ true
  pub still :
      (a : ActiveTimer)
      → Sets.member active_less a after.active_timers ≡ true
      → Sets.member active_less a q'.active_timers ≡ true
  pub armed : q'.timefd ≡ alarm later q'.timers after.timefd
  pub not_calling : q'.calling_expired_timers ≡ false

-- `handelRead` in the loop's thread, on a queue whose books are right and with callbacks that use
-- the queue by its operations: no assertion fails, and the books are right. A timer that was due
-- waits again, with the expiration that its interval gives, if it repeats and was not cancelled
-- while the callbacks ran, and is deleted otherwise; a timer that was active when the last callback
-- returned still is; and the kernel's timer is set for the first entry, if that has a valid time.
pub handle_read-Handled :
    (run : ℕ → TimerQueue → Outcome TimerQueue) (now later : Timestamp) (q : TimerQueue)
    → Keeps run
    → Inv q []
    → (q' : TimerQueue) × (after : TimerQueue) × (handle_read run true now later q ≡ ok q')
      × Handled run now later q after q'
unfolding handle_read
handle_read-Handled run now later q keeps v =
    let (q₀, expired, split, x) = get_expired-Expired q now v in
    let start = record q₀ { calling_expired_timers = true; canceling_timers = [] } in
    let v₀ : Inv start expired = apart-Inv q₀ expired true [] q₀.timefd x.books in
    let (q₁, ran, k) = run_all-Kept run start expired expired keeps v₀ (λ p l. l) in
    let after = record q₁ { calling_expired_timers = false } in
    let v₁ : Inv after expired = apart-Inv q₁ expired false q₁.canceling_timers q₁.timefd k.books in
    let (q₂, settled, s) = reset_lem after now later expired v₁ in
    (
      with_alarm later q₂,
      after,
      rw (split, ran, settled) refl,
      record {
        ran = (q₀, expired, q₁, split, ran, refl);
        books =
            apart-Inv q₂ [] q₂.calling_expired_timers q₂.canceling_timers
              (alarm later q₂.timers q₂.timefd) s.books;
        due_ends = λ e t m d there.
            s.ends e.1 t (is_due x e m d)
              (k.objects e.1 (is_due x e m d) ∙ ap (λ f. f e.1) x.same_memory ∙ there);
        due_waits = λ e t m d there g.
            s.waits e.1 t (is_due x e m d)
              (k.objects e.1 (is_due x e m d) ∙ ap (λ f. f e.1) x.same_memory ∙ there) g;
        still = s.still;
        armed = ap (alarm later q₂.timers) s.same_timefd;
        not_calling = s.same_calling;
      },
    )
  where
    is_due :
        {q₀ : TimerQueue} {expired : List Entry}
        → Expired q now q₀ expired
        → (e : Entry) → Sets.member entry_less e q.timers ≡ true
        → less now e.0 ≡ false
        → is_loose e.1 expired ≡ true
    is_due {q₀} {expired} x e m d = member_loose e expired (
        ground (
          arith,
          Sets.member-append entry_less entry-Order e expired q₀.timers,
          x.rest_later e,
          ap (Sets.member entry_less e) x.all,
        ))
