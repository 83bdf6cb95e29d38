-- ===== src/Channel/Dispatch.antt =====
-- Which callbacks `HandleEvent` calls, and in which order.
use oula_server.Prelude.{
  if◌then◌else◌, Outcome, ◌>>◌, assert, ok, ◌≡◌, Bool, false, not, ◌&&◌, ◌||◌, some, List, [], ◌∷◌,
  ◌++◌, append-nil, append_assoc, arith,
}
use oula_server.Channel.{Events, Callbacks, handle_event}

pub data Which : Type 0 where
  close_it read_it write_it : Which

-- The owner's state: the calls so far, and the flag `eventHandling_`.
pub record Calls : Type 0 where
  pub calls : List Which
  pub handling : Bool

-- A call that finds the flag unset fails.
abbrev pub record_call : Which → Calls → Outcome Calls
record_call x s = do assert s.handling; ok (record s { calls = s.calls ++ x ∷ [] })

-- Callbacks that are all set, and write down that they were called.
abbrev pub recorders : Callbacks Calls
recorders = record {
  read_callback = some (record_call read_it);
  write_callback = some (record_call write_it);
  close_callback = some (record_call close_it);
  set_event_handling = λ b s. record s { handling = b };
}

abbrev pub wants : Events → Which → Bool
wants r close_it = r.pollhup && not r.pollin
wants r read_it = r.pollin || (r.pollpri || r.pollrdhup)
wants r write_it = r.pollout

abbrev pub keep : (Which → Bool) → List Which → List Which
keep p [] = []
keep p (x ∷ xs) = if p x then x ∷ keep p xs else keep p xs

-- Each callback is called once at most, when its flags are set, in the order close, read, write, and
-- with `eventHandling_` set, which is cleared again at the end.
pub dispatch_order :
    (r : Events) (done : List Which)
    → handle_event recorders r (record { calls = done; handling = false })
      ≡ ok (record {
        calls = done ++ keep (wants r) (close_it ∷ read_it ∷ write_it ∷ []);
        handling = false;
      })
unfolding handle_event
dispatch_order r done = ground (
  arith,
  append-nil done,
  append_assoc done (close_it ∷ []) (read_it ∷ []),
  append_assoc done (close_it ∷ []) (write_it ∷ []),
  append_assoc done (read_it ∷ []) (write_it ∷ []),
  append_assoc done (close_it ∷ read_it ∷ []) (write_it ∷ []),
)
