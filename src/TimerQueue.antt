-- ===== src/TimerQueue.antt =====
-- net/TimerQueue.h, net/TimerQueue.cpp and net/TimerId.h: the timers of a loop. A `Timer*` is a number that `memory`
-- leads to the object; what is not there was deleted. `seq_total` is the counter of net/Timer.cpp.
pub mod Books
pub mod Pending
pub mod Deleting
pub mod Cancel
pub mod Erasing
pub mod Expiry
pub mod Due
pub mod Settling
pub mod Reset
pub mod Alarm
pub mod History
mod Examples
use oula_server.Prelude.{
  ltb, ◌==◌, if◌then◌else◌, length, Outcome, assert, in_loop, out_of_bounds, ok, fault, ℕ, ◌-◌, ◌^◌,
  Bool, true, false, not, ◌&&◌, Option, none, some, List, ◌∷◌, [], ◌>>=◌, ◌>>◌,
}
use oula_server.Prelude.Sets
use oula_server.Prelude.Int.{ℤ}
use oula_server.Timestamp.{
  Seconds, Timestamp, Timer, Timespec, less, is_valid, get_invalid, new_timer, restart,
  how_much_time_from_now,
}

-- `Entry` and `ActiveTimer`, two pairs, with the order of std::pair
abbrev pub Entry : Type 0
Entry = Timestamp × ℕ

abbrev pub ActiveTimer : Type 0
ActiveTimer = ℕ × ℕ

unfoldable pub entry_less : Entry → Entry → Bool
entry_less a b = if less a.0 b.0 then true else if less b.0 a.0 then false else ltb a.1 b.1

unfoldable pub active_less : ActiveTimer → ActiveTimer → Bool
active_less a b = if ltb a.0 b.0 then true else if ltb b.0 a.0 then false else ltb a.1 b.1

-- `timefd` is the delay that timerfd_settime(2) got last.
pub record TimerQueue : Type 0 where
  pub timers : List Entry
  pub active_timers : List ActiveTimer
  pub canceling_timers : List ActiveTimer
  pub calling_expired_timers : Bool
  pub memory : ℕ → Option Timer
  pub seq_total : ℕ
  pub timefd : Option Timespec

-- The constructor; `memory` and `seq_total` are what they are.
unfoldable pub new : (ℕ → Option Timer) → ℕ → TimerQueue
new memory seq_total = record {
  timers = [];
  active_timers = [];
  canceling_timers = [];
  calling_expired_timers = false;
  memory = memory;
  seq_total = seq_total;
  timefd = none;
}

-- `*timer`, of an object that may have been deleted
abbrev pub the {ℓ} : {A : Type ℓ} → Option A → Outcome A
the none = fault out_of_bounds
the (some a) = ok a

-- `*p = t`, and `delete p`
abbrev pub write : ℕ → Option Timer → (ℕ → Option Timer) → ℕ → Option Timer
write p o memory k = if p == k then o else memory k

-- `when` comes before all entries.
abbrev pub comes_first : Timestamp → List Entry → Bool
comes_first when [] = true
comes_first when (e ∷ es) = less when e.0

abbrev pub same_size : TimerQueue → Bool
same_size q = length q.timers == length q.active_timers

abbrev pub with_timer : ℕ → Timer → TimerQueue → TimerQueue
with_timer p timer q = record q {
  timers = Sets.insert entry_less (timer.expiration, p) q.timers;
  active_timers = Sets.insert active_less (p, timer.seq) q.active_timers;
}

unfoldable pub insert : Bool → ℕ → TimerQueue → Outcome (TimerQueue × Bool)
insert here p q = do
  in_loop here
  assert (same_size q)
  timer ← the (q.memory p)
  let earliest_changed = comes_first timer.expiration q.timers
  assert (not (Sets.member entry_less (timer.expiration, p) q.timers))
  assert (not (Sets.member active_less (p, timer.seq) q.active_timers))
  assert (same_size (with_timer p timer q))
  ok (with_timer p timer q, earliest_changed)

-- `resetTimerFd`, given what `getNow` returns
unfoldable pub reset_timer_fd : Timestamp → Timestamp → TimerQueue → TimerQueue
reset_timer_fd expiration now q = record q { timefd = some (how_much_time_from_now expiration now) }

unfoldable pub add_timer_in_loop : Bool → Timestamp → ℕ → TimerQueue → Outcome TimerQueue
add_timer_in_loop here now p q = do
  r ← insert here p q
  timer ← the (r.0.memory p)
  ok (if r.1 then reset_timer_fd timer.expiration now r.0 else r.0)

-- `new Timer`, at the address `p`
unfoldable pub allocate : ℕ → Timestamp → Seconds → TimerQueue → TimerQueue
allocate p when interval q =
    let made = new_timer q.seq_total when interval in
    record q { memory = write p (some made.0) q.memory; seq_total = made.1 }

-- `addTimer`, with the address of the new object; another thread leaves the rest to the loop.
unfoldable pub add_timer :
    Bool → Timestamp → ℕ → Timestamp → Seconds → TimerQueue → Outcome (TimerQueue × ActiveTimer)
add_timer here now p when interval q = do
  let q₀ = allocate p when interval q
  q₁ ← if here then add_timer_in_loop true now p q₀ else ok q₀
  ok (q₁, (p, q.seq_total))

abbrev pub cancel_active : ActiveTimer → TimerQueue → Outcome TimerQueue
cancel_active id q = do
  timer ← the (q.memory id.0)
  assert (Sets.member entry_less (timer.expiration, id.0) q.timers)
  ok (record q {
    timers = Sets.erase entry_less (timer.expiration, id.0) q.timers;
    memory = write id.0 none q.memory;
    active_timers = Sets.erase active_less id q.active_timers;
  })

abbrev pub cancel_expired : ActiveTimer → TimerQueue → TimerQueue
cancel_expired id q =
    if q.calling_expired_timers
    then record q { canceling_timers = Sets.insert active_less id q.canceling_timers }
    else q

unfoldable pub cancel_in_loop : Bool → ActiveTimer → TimerQueue → Outcome TimerQueue
cancel_in_loop here id q = do
  in_loop here
  assert (same_size q)
  q' ←
      if Sets.member active_less id q.active_timers
      then cancel_active id q
      else ok (cancel_expired id q)
  assert (same_size q')
  ok q'

-- `cancle`: another thread leaves the call to the loop.
unfoldable pub cancel : Bool → ActiveTimer → TimerQueue → Outcome TimerQueue
cancel here id q = if here then cancel_in_loop here id q else ok q

abbrev pub uintptr_max : ℕ
uintptr_max = 2 ^ 64 - 1

-- The loop of `getExpired` that takes the expired timers out of `activeTimers_`
unfoldable pub erase_active :
    (ℕ → Option Timer) → List Entry → List ActiveTimer → Outcome (List ActiveTimer)
erase_active memory [] active = ok active
erase_active memory (e ∷ es) active = do
  timer ← the (memory e.1)
  assert (Sets.member active_less (e.1, timer.seq) active)
  erase_active memory es (Sets.erase active_less (e.1, timer.seq) active)

unfoldable pub get_expired : Timestamp → TimerQueue → Outcome (TimerQueue × List Entry)
get_expired now q = do
  assert (same_size q)
  let rest = Sets.from entry_less (now, uintptr_max) q.timers
  assert (comes_first now rest)
  let expired = Sets.before entry_less (now, uintptr_max) q.timers
  active ← erase_active q.memory expired q.active_timers
  assert (length rest == length active)
  ok (record q { timers = rest; active_timers = active }, expired)

-- One expired timer of `reset`: it is started again, or deleted.
abbrev pub restart_timer : Bool → Timestamp → ℕ → Timer → TimerQueue → Outcome TimerQueue
restart_timer here now p timer q = do
  r ← insert here p (record q { memory = write p (some (restart timer now)) q.memory })
  ok r.0

abbrev pub goes_on : TimerQueue → ℕ → Timer → Bool
goes_on q p timer = timer.repeat && not (Sets.member active_less (p, timer.seq) q.canceling_timers)

unfoldable pub reset_one : Bool → Timestamp → Entry → TimerQueue → Outcome TimerQueue
reset_one here now e q = do
  timer ← the (q.memory e.1)
  if goes_on q e.1 timer
      then restart_timer here now e.1 timer q
      else ok (record q { memory = write e.1 none q.memory })

unfoldable pub reset_all : Bool → Timestamp → List Entry → TimerQueue → Outcome TimerQueue
reset_all here now [] q = ok q
reset_all here now (e ∷ es) q = do q' ← reset_one here now e q; reset_all here now es q'

-- The expiration of the first timer, or the invalid time
abbrev pub next_expire : (ℕ → Option Timer) → List Entry → Outcome Timestamp
next_expire memory [] = ok get_invalid
next_expire memory (e ∷ es) = do timer ← the (memory e.1); ok timer.expiration

-- `reset`; `later` is what `getNow` returns in `resetTimerFd`.
unfoldable pub reset : Bool → List Entry → Timestamp → Timestamp → TimerQueue → Outcome TimerQueue
reset here expired now later q = do
  q' ← reset_all here now expired q
  next ← next_expire q'.memory q'.timers
  ok (if is_valid next then reset_timer_fd next later q' else q')

-- The callbacks of the expired timers; `run p` is what the timer at `p` does to the queue.
unfoldable pub run_all :
    (ℕ → TimerQueue → Outcome TimerQueue) → List Entry → TimerQueue → Outcome TimerQueue
run_all run [] q = ok q
run_all run (e ∷ es) q = do timer ← the (q.memory e.1); q' ← run e.1 q; run_all run es q'

-- `handelRead`
unfoldable pub handle_read :
    (ℕ → TimerQueue → Outcome TimerQueue)
    → Bool
    → Timestamp
    → Timestamp
    → TimerQueue
    → Outcome TimerQueue
handle_read run here now later q = do
  in_loop here
  r ← get_expired now q
  q' ← run_all run r.1 (record r.0 { calling_expired_timers = true; canceling_timers = [] })
  reset here r.1 now later (record q' { calling_expired_timers = false })
