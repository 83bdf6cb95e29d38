-- ===== src/Callback/Examples.antt =====
-- The echo theorem at a connection and three events.
use oula_server.Prelude.{ok, ◌≡◌, refl, true, false, List, [], ◌∷◌, arith}
use oula_server.Buffer.{Buffer}
use oula_server.Channel.{read_event, none_event, k_added, is_enable_write_event}
use oula_server.TcpConnection.Object.{k_connected, Conn}
use oula_server.TcpConnection.Stream.{stream}
use oula_server.Callback.{Echoing, Event, hears, flushes, serve_all, echoes}

abbrev empty_bytes : Buffer
empty_bytes = record { reader_idx = 1; writer_idx = 1; buffer = 10 ∷ 11 ∷ 12 ∷ 13 ∷ [] }

abbrev open_conn : Conn
open_conn = record {
  state = k_connected;
  channel = record {
    fd = 5;
    events = read_event;
    r_events = none_event;
    in_poller_status = k_added;
    event_handling = false;
  };
  input_buffer = empty_bytes;
  output_buffer = empty_bytes;
  high_water_mark = 65536;
  has_write_complete = true;
  has_high_water_mark = true;
  wire = 9 ∷ [];
  write_shut = false;
  tasks = [];
  delayed = [];
  poller_calls = [];
}

open_conn-Echoing : Echoing open_conn
unfolding is_enable_write_event
open_conn-Echoing = record {
  live = record {
    ready = record { out_valid = omega arith; interest = refl };
    opened = refl;
    shut_late = refl;
  };
  connected = refl;
  in_valid = omega arith;
  in_empty = refl;
}

abbrev events : List Event
events = hears (20 ∷ 21 ∷ []) 1 ∷ hears (22 ∷ []) 5 ∷ flushes 1 ∷ []

echoes_example :
    (c' : Conn) × (serve_all (λ c. ok c) (λ c. ok c) events open_conn ≡ ok c')
    × Echoing c'
    × (stream c' ≡ 9 ∷ 20 ∷ 21 ∷ 22 ∷ [])
echoes_example = echoes (λ c. ok c) (λ c. ok c) events open_conn open_conn-Echoing (omega arith)
