-- ===== src/Channel/Examples.antt =====
-- The theorems of the channel at concrete inputs.
use oula_server.Prelude.{ok, ◌≡◌, true, false, [], ◌∷◌}
use oula_server.Channel.{
  Events, none_event, new, handle_event, is_none_event, is_enable_read_event, is_enable_write_event,
}
use oula_server.Channel.Interest
use oula_server.Channel.Interest.{Change, read_on, write_on, read_off, apply_all, interest_lem}
use oula_server.Channel.Dispatch.{close_it, read_it, write_it, recorders, dispatch_order}

-- Reading and writing on, then reading off: only writing is left.
interest_lem_example :
    let c = apply_all (read_on ∷ write_on ∷ read_off ∷ []) (new 5 none_event) in
    (is_enable_read_event c ≡ false) × (is_enable_write_event c ≡ true) × (is_none_event c ≡ false)
unfolding Interest.wanted
interest_lem_example = interest_lem (read_on ∷ write_on ∷ read_off ∷ []) 5 none_event

-- A hang-up with POLLRDHUP and POLLOUT, and no POLLIN: all three callbacks.
abbrev hung_up : Events
hung_up = record none_event { pollhup = true; pollrdhup = true; pollout = true }

dispatch_order_example :
    handle_event recorders hung_up (record { calls = []; handling = false })
    ≡ ok (record { calls = close_it ∷ read_it ∷ write_it ∷ []; handling = false })
dispatch_order_example = dispatch_order hung_up []
