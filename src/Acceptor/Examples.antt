-- ===== src/Acceptor/Examples.antt =====
-- The acceptor in a run.
use oula_server.Prelude.{◌≡◌, refl, true, none, some, List, [], ◌∷◌}
use oula_server.Channel
use oula_server.Channel.{none_event}
use oula_server.Acceptor.{Acceptor, new, set_new_connection_callback}
use oula_server.Acceptor.Listening.{Call, listens_now, reads, call_all, Sound, calls-Sound}

abbrev ready : Acceptor
ready = set_new_connection_callback (new 4 none_event)

ready-Sound : Sound ready
unfolding set_new_connection_callback new Channel.new Channel.is_enable_read_event
ready-Sound = record { once = refl; asks = refl; can_hand = refl }

abbrev calls : List Call
calls = listens_now ∷ reads (some 9) ∷ listens_now ∷ reads none ∷ reads (some 10) ∷ []

calls-Sound_example :
    Sound (call_all calls ready)
    × ((call_all calls ready).is_listening ≡ true)
    × ((call_all calls ready).handed ≡ 10 ∷ 9 ∷ [])
unfolding set_new_connection_callback new
calls-Sound_example = calls-Sound calls ready ready-Sound
