-- ===== src/Channel/Interest.antt =====
-- The interest of a channel: which of the two masks it asks for.
use oula_server.Prelude.{ℕ, ◌≡◌, Bool, true, false, not, ◌||◌, List, [], ◌∷◌, arith}
use oula_server.Channel.{
  Events, Channel, new, enable_read_event, disable_read_event, enable_write_event,
  disable_write_event, disable_all_event, is_none_event, is_enable_read_event,
  is_enable_write_event,
}

-- The methods that change the interest.
pub data Change : Type 0 where
  read_on read_off write_on write_off all_off : Change

unfoldable pub apply : Change → Channel → Channel
apply read_on c = enable_read_event c
apply read_off c = disable_read_event c
apply write_on c = enable_write_event c
apply write_off c = disable_write_event c
apply all_off c = disable_all_event c

unfoldable pub apply_all : List Change → Channel → Channel
apply_all [] c = c
apply_all (x ∷ xs) c = apply_all xs (apply x c)

-- What a history of changes asks for: reading, and writing.
unfoldable pub wanted : Bool × Bool → Change → Bool × Bool
wanted (r, w) read_on = (true, w)
wanted (r, w) read_off = (false, w)
wanted (r, w) write_on = (r, true)
wanted (r, w) write_off = (r, false)
wanted (r, w) all_off = (false, false)

abbrev pub wanted_all : List Change → Bool × Bool → Bool × Bool
wanted_all [] s = s
wanted_all (x ∷ xs) s = wanted_all xs (wanted s x)

-- The two masks are set as a whole, and no other flag is ever set.
pub record Shows (c : Channel) (s : Bool × Bool) : Type 0 where
  pub in_shown : c.events.pollin ≡ s.0
  pub pri_shown : c.events.pollpri ≡ s.0
  pub out_shown : c.events.pollout ≡ s.1
  pub no_hup : c.events.pollhup ≡ false
  pub no_rdhup : c.events.pollrdhup ≡ false
  pub no_err : c.events.pollerr ≡ false
  pub no_nval : c.events.pollnval ≡ false

apply-Shows :
    (x : Change) (c : Channel) (r w : Bool) → Shows c (r, w) → Shows (apply x c) (wanted (r, w) x)
unfolding apply wanted enable_read_event disable_read_event enable_write_event disable_write_event
    disable_all_event
apply-Shows read_on c r w h = ground arith
apply-Shows read_off c r w h = ground arith
apply-Shows write_on c r w h = ground arith
apply-Shows write_off c r w h = ground arith
apply-Shows all_off c r w h = ground arith

apply_all-Shows :
    (xs : List Change) (c : Channel) (s : Bool × Bool)
    → Shows c s
    → Shows (apply_all xs c) (wanted_all xs s)
unfolding apply_all
apply_all-Shows [] c s h = h
apply_all-Shows (x ∷ xs) c (r, w) h =
    apply_all-Shows xs (apply x c) (wanted (r, w) x) (apply-Shows x c r w h)

Shows-tests :
    (c : Channel) (s : Bool × Bool)
    → Shows c s
    → (is_enable_read_event c ≡ s.0)
      × (is_enable_write_event c ≡ s.1)
      × (is_none_event c ≡ not (s.0 || s.1))
unfolding is_enable_read_event is_enable_write_event is_none_event
Shows-tests c s h = ground arith

-- After any calls of the five methods on a new channel, `IsEnableReadEvent`, `IsEnableWriteEvent`
-- and `IsNoneEvent` answer what the calls asked for: reading and writing do not disturb each other,
-- and the interest is empty exactly when neither is asked for.
pub interest_lem :
    (xs : List Change) (fd : ℕ) (garbage : Events)
    → let c = apply_all xs (new fd garbage) in
      let s = wanted_all xs (false, false) in
      (is_enable_read_event c ≡ s.0)
      × (is_enable_write_event c ≡ s.1)
      × (is_none_event c ≡ not (s.0 || s.1))
unfolding new
interest_lem xs fd garbage =
    Shows-tests _ (wanted_all xs (false, false))
      (apply_all-Shows xs _ (false, false) (ground arith))
