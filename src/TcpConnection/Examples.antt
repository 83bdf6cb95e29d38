-- ===== src/TcpConnection/Examples.antt =====
-- The theorems on connections at a connection that has two bytes to send.
use oula_server.Prelude.{
  ltb, length, ok, ◌≡◌, refl, true, false, ◌&&◌, none, some, List, [], ◌∷◌, arith,
}
use oula_server.Buffer
use oula_server.Buffer.{Buffer}
use oula_server.Channel.{read_event, write_event, union, none_event, k_added, is_enable_write_event}
use oula_server.Buffer.Contents.{contents}
use oula_server.TcpConnection.Object.{k_connected, ewouldblock, Conn, writing, is_disconnecting}
use oula_server.TcpConnection.Handlers.{handle_read, handle_close}
use oula_server.TcpConnection.Stream.{stream}
use oula_server.TcpConnection.Steps.{Act, writes, drains, stalls, shuts, act_all, Live}
use oula_server.TcpConnection.Draining.{is_empty}
use oula_server.TcpConnection.Delivery.{delivered}
use oula_server.TcpConnection.Reading.{Heard, handle_read_lem}
use oula_server.TcpConnection.Progress.{Forward}
use oula_server.TcpConnection.Lifecycle.{close_events, perform, perform-Forward}

abbrev waiting_bytes : Buffer
waiting_bytes = record { reader_idx = 1; writer_idx = 3; buffer = 10 ∷ 11 ∷ 12 ∷ 13 ∷ [] }

abbrev empty_bytes : Buffer
empty_bytes = record { reader_idx = 1; writer_idx = 1; buffer = 10 ∷ 11 ∷ 12 ∷ 13 ∷ [] }

abbrev busy : Conn
busy = record {
  state = k_connected;
  channel = record {
    fd = 5;
    events = union read_event write_event;
    r_events = none_event;
    in_poller_status = k_added;
    event_handling = false;
  };
  input_buffer = empty_bytes;
  output_buffer = waiting_bytes;
  high_water_mark = 65536;
  has_write_complete = true;
  has_high_water_mark = true;
  wire = 9 ∷ [];
  write_shut = false;
  tasks = [];
  delayed = [];
  poller_calls = [];
}

abbrev idle : Conn
idle = record busy {
  channel = record {
    fd = 5;
    events = read_event;
    r_events = none_event;
    in_poller_status = k_added;
    event_handling = false;
  };
  output_buffer = empty_bytes;
}

busy-Live : Live busy
unfolding is_enable_write_event
busy-Live = record {
  ready = record { out_valid = omega arith; interest = refl };
  opened = refl;
  shut_late = refl;
}

abbrev script : List Act
script =
    writes (20 ∷ 21 ∷ []) 1
    ∷ drains 3
    ∷ stalls ewouldblock
    ∷ shuts
    ∷ drains 9
    ∷ writes (22 ∷ []) 1
    ∷ []

delivered_example :
    (c' : Conn) × (act_all script busy ≡ ok c')
    × (stream c' ≡ 9 ∷ 11 ∷ 12 ∷ 20 ∷ 21 ∷ [])
    × (writing c' ≡ ltb 0 (length (contents c'.output_buffer)))
    × (c'.write_shut ≡ (is_disconnecting c'.state && is_empty (contents c'.output_buffer)))
delivered_example = delivered script busy busy-Live refl (omega arith)

handle_read_lem_example :
    ((b' : Buffer) × (handle_read
          (λ c. ok c)
          (λ c. ok c)
          (λ c. ok c)
          true
          (some (30 ∷ 31 ∷ []))
          busy
        ≡ ok (record busy { input_buffer = b' }))
      × Heard empty_bytes (30 ∷ 31 ∷ []) b')
    × ((b' : Buffer) × (handle_read (λ c. ok c) (λ c. ok c) (λ c. ok c) true (some []) busy
          ≡ handle_close
              (λ c. ok c)
              (λ c. ok c)
              (λ c. ok c)
              true
              (record busy { input_buffer = b' }))
        × Heard empty_bytes [] b')
    × (handle_read (λ c. ok c) (λ c. ok c) (λ c. ok c) true none busy ≡ ok busy)
unfolding Buffer.read_room Buffer.writable_bytes
handle_read_lem_example =
    handle_read_lem (λ c. ok c) (λ c. ok c) (λ c. ok c) busy (31 ∷ []) 30 (omega arith)
      (omega arith) (omega arith)

stays : (c : Conn) → Forward c (ok c)
stays c = omega arith

perform-Forward_example :
    Forward busy (perform (λ c. ok c) (λ c. ok c) (λ c. ok c) (close_events true) busy)
perform-Forward_example =
    perform-Forward (λ c. ok c) (λ c. ok c) (λ c. ok c) stays stays stays (close_events true) busy
