-- ===== src/Acceptor.antt =====
-- net/Acceptor.h and net/Acceptor.cpp: the listening socket. `listens` counts the calls of listen(2),
-- and `accepted` and `handed` record, the latest first, the sockets that accept(2) returned and those
-- given to the new-connection callback.
pub mod Listening
mod Examples
use oula_server.Prelude.{
  if◌then◌else◌, ℕ, ◌+◌, Bool, true, false, Option, none, some, List, ◌∷◌, [],
}
use oula_server.Channel
use oula_server.Channel.{Channel, Events}

pub record Acceptor : Type 0 where
  pub is_listening : Bool
  pub accept_channel : Channel
  pub has_callback : Bool
  pub listens : ℕ
  pub accepted : List ℕ
  pub handed : List ℕ

-- The constructor, with the new socket and what the channel's received events happen to be
unfoldable pub new : ℕ → Events → Acceptor
new sockfd garbage = record {
  is_listening = false;
  accept_channel = Channel.new sockfd garbage;
  has_callback = false;
  listens = 0;
  accepted = [];
  handed = [];
}

unfoldable pub set_new_connection_callback : Acceptor → Acceptor
set_new_connection_callback a = record a { has_callback = true }

unfoldable pub listen : Acceptor → Acceptor
listen a = if a.is_listening then a else record a {
  is_listening = true;
  listens = a.listens + 1;
  accept_channel = Channel.enable_read_event a.accept_channel;
}

-- `HandleRead`, with what accept(2) returns, none for a negative number
unfoldable pub handle_read : Option ℕ → Acceptor → Acceptor
handle_read none a = a
handle_read (some connfd) a =
    let a' = record a { accepted = connfd ∷ a.accepted } in
    if a.has_callback then record a' { handed = connfd ∷ a.handed } else a'
