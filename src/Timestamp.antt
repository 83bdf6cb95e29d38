-- ===== src/Timestamp.antt =====
-- net/utils/Timestamp.h, net/utils/Timestamp.cpp, net/Timer.h, net/Timer.cpp and `howMuchTimeFromNow`
-- of net/TimerQueue.cpp: points in time, in microseconds. A Timestamp holds an int64_t, here an integer.
pub mod Clock
pub mod Text
mod Examples
use oula_server.Prelude.{ltb, if◌then◌else◌, ℕ, ◌+◌, ◌-◌, ◌*◌, ◌/◌, ◌%◌, ◌^◌, Bool}
use oula_server.Prelude.Int.{ℤ, pos, negsuc, ◌+ℤ◌, ◌-ℤ◌, ltb_ℤ, eqb}

abbrev pub micro_seconds_per_second : ℕ
micro_seconds_per_second = 1000000

-- `Timestamp`, by its field `microSecondsSinceEpoch_`
pub record Timestamp : Type 0 where
  pub micro_seconds : ℤ

unfoldable pub get_invalid : Timestamp
get_invalid = record { micro_seconds = pos 0 }

unfoldable pub is_valid : Timestamp → Bool
is_valid t = ltb_ℤ (pos 0) t.micro_seconds

-- The division of C++ rounds to 0.
abbrev pub quotient : ℤ → ℕ → ℤ
quotient (pos a) d = pos (a / d)
quotient (negsuc a) d = pos 0 -ℤ pos ((a + 1) / d)

unfoldable pub seconds_since_epoch : Timestamp → ℤ
seconds_since_epoch t = quotient t.micro_seconds micro_seconds_per_second

-- A 32-bit int, by its bits
abbrev pub to_int : ℕ → ℤ
to_int bits =
    let low = bits % 2 ^ 32 in if ltb low (2 ^ 31) then pos low else negsuc (2 ^ 32 - 1 - low)

-- The bits of a 32-bit int
abbrev pub int_bits : ℤ → ℕ
int_bits (pos n) = n % 2 ^ 32
int_bits (negsuc n) = 2 ^ 32 - 1 - n % 2 ^ 32

-- A 64-bit int, by its low 64 bits; the sums and differences of int64_t wrap on the machines at hand (the
-- C++ standard leaves an overflow undefined).
abbrev pub from_bits : ℕ → ℤ
from_bits low = if ltb low (2 ^ 63) then pos low else negsuc (2 ^ 64 - 1 - low)

abbrev pub wrap64 : ℤ → ℤ
wrap64 (pos n) = from_bits (n % 2 ^ 64)
wrap64 (negsuc n) = from_bits (2 ^ 64 - 1 - n % 2 ^ 64)

-- `getNow`, given what `gettimeofday` answers. The seconds are an int, and their product is one: it
-- wraps, as it does on the machines at hand (the C++ standard leaves an overflow undefined). The sum
-- with `tv_usec`, a long, is taken in 64 bits.
unfoldable pub get_now : ℕ → ℕ → Timestamp
get_now tv_sec tv_usec =
    let seconds = to_int tv_sec in
    record { micro_seconds = to_int (int_bits seconds * micro_seconds_per_second) +ℤ pos tv_usec }

-- `operator<` and `operator==`
unfoldable pub less : Timestamp → Timestamp → Bool
less a b = ltb_ℤ a.micro_seconds b.micro_seconds

unfoldable pub equal : Timestamp → Timestamp → Bool
equal a b = eqb a.micro_seconds b.micro_seconds

-- A number of seconds that the source holds in a double, by what the code takes from it: the product
-- `seconds * kMicroSecondsPerSecond` as an int64_t, and the answer of `seconds > 0`.
pub record Seconds : Type 0 where
  pub product : ℤ
  pub is_positive : Bool

-- `addTime`
unfoldable pub add_time : Timestamp → Seconds → Timestamp
add_time t seconds = record { micro_seconds = wrap64 (t.micro_seconds +ℤ seconds.product) }

-- `Timer`, without its callback
pub record Timer : Type 0 where
  pub expiration : Timestamp
  pub interval : Seconds
  pub repeat : Bool
  pub seq : ℕ

-- The constructor, with `seqTotal` before and after it
unfoldable pub new_timer : ℕ → Timestamp → Seconds → Timer × ℕ
new_timer seq_total when interval = (
  record { expiration = when; interval = interval; repeat = interval.is_positive; seq = seq_total },
  seq_total + 1,
)

-- `Timer::restart`
unfoldable pub restart : Timer → Timestamp → Timer
restart timer t = record timer {
  expiration = if timer.repeat then add_time t timer.interval else get_invalid;
}

-- `struct timespec`
pub record Timespec : Type 0 where
  pub tv_sec : ℕ
  pub tv_nsec : ℕ

-- `microseconds`, when it is under 100, is 100.
abbrev pub at_least_100 : ℤ → ℕ
at_least_100 (pos n) = if ltb n 100 then 100 else n
at_least_100 (negsuc n) = 100

-- `howMuchTimeFromNow`, given what `getNow` returns
unfoldable pub how_much_time_from_now : Timestamp → Timestamp → Timespec
how_much_time_from_now when now =
    let microseconds = at_least_100 (wrap64 (when.micro_seconds -ℤ now.micro_seconds)) in
    record {
      tv_sec = microseconds / micro_seconds_per_second;
      tv_nsec = microseconds % micro_seconds_per_second * 1000;
    }
