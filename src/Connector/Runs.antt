-- ===== src/Connector/Runs.antt =====
-- The runs of a connector (net/Connector.cpp): what the program and its loop do to it, in any order.
use oula_server.Prelude.{false, ◌==◌, if◌then◌else◌, Bool, true, Outcome, ok, ℕ, ◌≡◌}
use oula_server.Connector.{
  reset_channel, stop, start, run_queued_start, restart, timer_fires, Connector, Errno, new,
  is_connecting, handle_write, stop_in_loop,
}

-- What the program and its loop do to a connector. A queued task runs only when it is there.
pub data Act : Type 0 where
  started : Bool → ℕ → Errno → Act
  start_ran restarted retried : ℕ → Errno → Act
  writable : Bool → Bool → Act
  reset_ran stopped stop_ran : Act

unfoldable pub act : Act → Connector → Outcome Connector
act (started here sockfd save_error) c = start here sockfd save_error c
act (start_ran sockfd save_error) c =
    if c.queued_starts == 0 then ok c else run_queued_start sockfd save_error c
act (restarted sockfd save_error) c = restart true sockfd save_error c
act (retried sockfd save_error) c = timer_fires sockfd save_error c
act (writable err self_connect) c = handle_write err self_connect true c
act reset_ran c = ok (if c.queued_resets == 0 then c else reset_channel c)
act stopped c = ok (stop c)
act stop_ran c = if c.queued_stops == 0 then ok c else stop_in_loop true c

-- The client restarts its connector when its connection is gone, not during an attempt.
abbrev pub Fits : Act → Connector → Type 0
Fits (restarted sockfd save_error) c = is_connecting c.state ≡ false
Fits _ c = Unit {0}

pub data Reached : Connector → Type 0 where
  at_first : Reached new
  then_did :
      {c : Connector} {c' : Connector} (a : Act)
      → Reached c
      → Fits a c
      → act a c ≡ ok c'
      → Reached c'
