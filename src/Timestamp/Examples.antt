-- ===== src/Timestamp/Examples.antt =====
-- The clock at two seconds, and a wait.
use oula_server.Prelude.{◌^◌, refl, [], ◌∷◌, ℕ, ◌+◌, ◌*◌, ◌≤◌, ◌<◌, ◌≡◌, ◌↔◌, arith}
use oula_server.Prelude.Int.{negsuc, pos, ◌≤ℤ◌, ◌+ℤ◌}
use oula_server.Timestamp.{Timestamp, get_now, how_much_time_from_now}
use oula_server.Timestamp.Text.{to_string}
use oula_server.Timestamp.Clock.{get_now_exact, how_much_time_from_now-total}

get_now_exact_example : ((get_now 2148 5).micro_seconds ≡ pos 2148000005) ↔ (2148 < 2148)
get_now_exact_example = get_now_exact 2148 5 (omega arith) (omega arith)

abbrev later : Timestamp
later = record { micro_seconds = pos 3500000 }

abbrev sooner : Timestamp
sooner = record { micro_seconds = pos 2000000 }

how_much_time_from_now-total_example :
    let ts = how_much_time_from_now later sooner in
    let waited = ts.tv_sec * 1000000000 + ts.tv_nsec in
    (ts.tv_nsec < 1000000000)
    × (100000 ≤ waited)
    × ((left : ℕ)
        → 100 ≤ left
        → left < 2 ^ 63
        → pos 3500000 ≡ pos 2000000 +ℤ pos left
        → waited ≡ left * 1000)
    × ((late : ℕ)
        → late ≤ 100
        → pos 2000000 ≤ℤ pos 3500000 +ℤ pos (2 ^ 63)
        → pos 3500000 ≤ℤ pos 2000000 +ℤ pos late
        → waited ≡ 100000)
how_much_time_from_now-total_example = how_much_time_from_now-total later sooner

-- One microsecond before the epoch is 0.-00001.
negative_text :
    to_string (record { micro_seconds = negsuc 0 }) ≡ 48 ∷ 46 ∷ 45 ∷ 48 ∷ 48 ∷ 48 ∷ 48 ∷ 49 ∷ []
unfolding to_string
negative_text = refl
