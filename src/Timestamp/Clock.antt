-- ===== src/Timestamp/Clock.antt =====
-- When the clock of net/utils/Timestamp.cpp is right, and how long the timer of net/TimerQueue.cpp waits.
use oula_server.Prelude.{ℕ, ◌+◌, ◌*◌, ◌^◌, ◌≤◌, ◌<◌, ◌≡◌, refl, ◌↔◌, arith}
use oula_server.Prelude.Int.{neg_part, negsuc, ℤ, pos, ◌+ℤ◌, ◌-ℤ◌, ◌≤ℤ◌, pos_part}
use oula_server.Timestamp.{
  wrap64, Timestamp, get_now, micro_seconds_per_second, to_int, int_bits, at_least_100,
  how_much_time_from_now,
}

to_int_small : (n : ℕ) → n < 2 ^ 31 → to_int n ≡ pos n
to_int_small n h = ground arith

int_bits_small : (n : ℕ) → n < 2 ^ 31 → int_bits (pos n) ≡ n
int_bits_small n h = ground arith

-- A signed 32-bit value is under 2 ^ 31.
to_int_bound : (n : ℕ) → pos_part (to_int n) < 2 ^ 31
to_int_bound n = ground arith

-- `getNow` in a second before 2038 is the time of day, in microseconds, just when fewer than 2148
-- seconds have passed since 1970; in every later second the product has overflowed.
pub get_now_exact :
    (tv_sec tv_usec : ℕ)
    → tv_sec < 2 ^ 31
    → tv_usec < micro_seconds_per_second
    → ((get_now tv_sec tv_usec).micro_seconds ≡ pos (tv_sec * micro_seconds_per_second + tv_usec))
      ↔ (tv_sec < 2148)
unfolding get_now ◌+ℤ◌
get_now_exact tv_sec tv_usec h k =
    rw (to_int_small tv_sec h, int_bits_small tv_sec h)
      (
        (λ e. ground (arith, to_int_bound (tv_sec * 1000000), e)),
        (λ early. rw (to_int_small (tv_sec * 1000000) (omega arith)) (ground arith)),
      )

-- The values of an int64_t, which `wrap64` leaves alone
abbrev Fits64 : ℤ → Type 0
Fits64 (pos n) = n < 2 ^ 63
Fits64 (negsuc n) = n < 2 ^ 63

wrap64_small : (z : ℤ) → Fits64 z → wrap64 z ≡ z
wrap64_small (pos n) h = ground arith
wrap64_small (negsuc n) h = ground arith

fits : (z : ℤ) → pos_part z ≤ 100 → neg_part z ≤ 2 ^ 63 → Fits64 z
fits (pos n) h k = omega arith
fits (negsuc n) h k = omega arith

-- The timer waits for 100 microseconds at least, and its nanoseconds are fewer than a second's, whatever
-- the two times are. When 100 microseconds or more are left until `when`, and fewer than 2^63, it waits
-- exactly so long; when at most 100 are left, or `when` is past by 2^63 microseconds at most, it waits
-- for 100. (Between times further apart the difference of the source overflows.)
pub how_much_time_from_now-total :
    (when now : Timestamp)
    → let ts = how_much_time_from_now when now in
      let waited = ts.tv_sec * 1000000000 + ts.tv_nsec in
      (ts.tv_nsec < 1000000000)
      × (100000 ≤ waited)
      × ((left : ℕ)
          → 100 ≤ left
          → left < 2 ^ 63
          → when.micro_seconds ≡ now.micro_seconds +ℤ pos left
          → waited ≡ left * 1000)
      × ((late : ℕ)
          → late ≤ 100
          → now.micro_seconds ≤ℤ when.micro_seconds +ℤ pos (2 ^ 63)
          → when.micro_seconds ≤ℤ now.micro_seconds +ℤ pos late
          → waited ≡ 100000)
unfolding how_much_time_from_now ◌-ℤ◌ ◌+ℤ◌
how_much_time_from_now-total when now = (
  omega arith,
  omega (arith, at_least (wrap64 (when.micro_seconds -ℤ now.micro_seconds))),
  λ left enough fits e.
      rw (exactly when.micro_seconds now.micro_seconds left enough fits e) (omega arith),
  λ late little near e. rw (too_late when.micro_seconds now.micro_seconds late little near e) refl,
)
  where
    at_least : (z : ℤ) → 100 ≤ at_least_100 z
    at_least z = ground arith

    exactly :
        (a b : ℤ) (left : ℕ)
        → 100 ≤ left
        → left < 2 ^ 63
        → a ≡ b +ℤ pos left
        → at_least_100 (wrap64 (a -ℤ b)) ≡ left
    exactly a b left enough fits e =
        let difference : a -ℤ b ≡ pos left = ground (arith, e) in
        rw (difference, wrap64_small (pos left) fits) (ground arith)

    too_late :
        (a b : ℤ) (late : ℕ)
        → late ≤ 100
        → b ≤ℤ a +ℤ pos (2 ^ 63)
        → a ≤ℤ b +ℤ pos late
        → at_least_100 (wrap64 (a -ℤ b)) ≡ 100
    too_late a b late little near e =
        let in_range : Fits64 (a -ℤ b) = fits (a -ℤ b) (ground (arith, e)) (ground (arith, near)) in
        rw (wrap64_small (a -ℤ b) in_range) (ground (arith, e))
