-- ===== src/Connector/Examples.antt =====
-- The theorems on the connector at concrete runs.
use oula_server.Prelude.{ok, ℕ, ◌+◌, ◌≡◌, refl, true, false, some, List, [], ◌∷◌, arith}
use oula_server.Prelude.Int.{is_none}
use oula_server.Connector.{
  run_queued_start, Connector, connecting_now, Errno, no_error, econnrefused, eagain, new, connect,
  connecting, retry, start_in_loop, start, timer_fires, is_connecting,
}
use oula_server.Connector.Runs.{start_ran, started, retried, act, Reached, at_first, then_did}
use oula_server.Connector.Sockets.{count, Reached-accounts}
use oula_server.Connector.Backoff.{attempts, capped, delays, attempts-delays}

-- Refused, tried again, and waiting with the socket 11
abbrev waiting : Connector
waiting = record new {
  enable_connect = true;
  state = connecting_now;
  retry_delay_ms = 1000;
  channel = some 11;
  channel_listens = true;
  opened = 11 ∷ 10 ∷ [];
  closed = 10 ∷ [];
  timers = 500 ∷ [];
}

abbrev refused : Connector
refused = record new {
  enable_connect = true;
  retry_delay_ms = 1000;
  opened = 10 ∷ [];
  closed = 10 ∷ [];
  timers = 500 ∷ [];
}

-- Another thread called `start`.
abbrev start_queued : Connector
start_queued = record new { enable_connect = true; queued_starts = 1 }

waiting-Reached : Reached waiting
unfolding new act start run_queued_start start_in_loop connect retry timer_fires connecting
waiting-Reached =
    then_did {c = refused} (retried 11 no_error)
      (then_did {c = start_queued} (start_ran 10 econnrefused)
        (then_did {c = new} (started false 10 econnrefused) at_first tt refl) tt refl)
      tt refl

Reached-accounts_example :
    ((x : ℕ) → count x (11 ∷ 10 ∷ []) ≡ count x (10 ∷ []) + count x [] + count x (11 ∷ []))
    × (is_connecting connecting_now ≡ true → is_none waiting.channel ≡ false)
    × (is_connecting connecting_now ≡ false
        → waiting.queued_resets ≡ 0
        → is_none waiting.channel ≡ true)
unfolding new
Reached-accounts_example = Reached-accounts waiting-Reached

abbrev tries : List (ℕ × Errno)
tries = (11, econnrefused) ∷ (12, eagain) ∷ []

attempts-delays_example :
    attempts tries refused
    ≡ ok (record refused {
      opened = 12 ∷ 11 ∷ 10 ∷ [];
      closed = 12 ∷ 11 ∷ 10 ∷ [];
      timers = 2000 ∷ 1000 ∷ 500 ∷ [];
      retry_delay_ms = 4000;
    })
unfolding new capped delays
attempts-delays_example = attempts-delays tries refused refl refl (omega arith) (refl, (refl, tt))
