-- ===== src/Timestamp/Text.antt =====
-- `toString` of net/utils/Timestamp.cpp.
use oula_server.Prelude.{
  ltb, ◌==◌, if◌then◌else◌, length, take, replicate, ℕ, zero, suc, ◌+◌, ◌-◌, ◌*◌, ◌/◌, ◌%◌, ◌^◌,
  ◌≡◌, Bool, true, false, not, ◌&&◌, List, [], ◌∷◌, ◌++◌,
}
use oula_server.Prelude.Int.{ℤ, pos, negsuc}
use oula_server.Timestamp.{Timestamp, micro_seconds_per_second}

-- The decimal digits of a number, as printf(3) writes them; with fuel for 19 of them, which an int64_t has
-- at most.
abbrev digits : ℕ → ℕ → List ℕ
digits zero n = (48 + n % 10) ∷ []
digits (suc fuel) n =
    let rest = digits fuel (n / 10) in
    if ltb n 10 then (48 + n) ∷ [] else rest ++ (48 + n % 10) ∷ []

abbrev pad : ℕ → List ℕ → List ℕ
pad width text = replicate (width - length text) 48 ++ text

-- The conversion of an int64_t, by sign and absolute value, padded with zeros
abbrev print : ℕ → Bool → ℕ → List ℕ
print width is_negative n =
    if is_negative && not (n == 0)
    then 45 ∷ pad (width - 1) (digits 18 n)
    else pad width (digits 18 n)

-- `snprintf(buf, 32, "%ld.%06ld", seconds, microseconds)`; the quotient and the remainder have the sign of
-- the time.
abbrev print_time : Bool → ℕ → List ℕ
print_time is_negative n = take 31 (
    print 0 is_negative (n / micro_seconds_per_second)
    ++ 46 ∷ print 6 is_negative (n % micro_seconds_per_second))

abbrev print_micros : ℤ → List ℕ
print_micros (pos n) = print_time false n
print_micros (negsuc n) = print_time true (n + 1)

unfoldable pub to_string : Timestamp → List ℕ
to_string t = print_micros t.micro_seconds

-- Reading such a text: the number before the dot, in seconds, and the decimal fraction of a second after
-- it, to the microsecond
abbrev value : ℕ → List ℕ → ℕ
value acc [] = acc
value acc (c ∷ cs) = value (acc * 10 + (c - 48)) cs

abbrev before_dot : List ℕ → List ℕ
before_dot [] = []
before_dot (c ∷ cs) = let rest = before_dot cs in if c == 46 then [] else c ∷ rest

abbrev after_dot : List ℕ → List ℕ
after_dot [] = []
after_dot (c ∷ cs) = let rest = after_dot cs in if c == 46 then cs else rest

abbrev fraction : List ℕ → ℕ
fraction cs = value 0 cs * 10 ^ (6 - length cs)

unfoldable pub read_micros : List ℕ → ℕ
read_micros text = value 0 (before_dot text) * micro_seconds_per_second + fraction (after_dot text)

abbrev NoDot : List ℕ → Type 0
NoDot [] = Unit {0}
NoDot (c ∷ cs) = ((c == 46) ≡ false) × NoDot cs
