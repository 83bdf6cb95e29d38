-- ===== src/Acceptor/Listening.antt =====
-- Runs of the acceptor of net/Acceptor.cpp.
use oula_server.Prelude.{
  if◌then◌else◌, ℕ, ◌≡◌, refl, sym, ap, subst, ◌∙◌, Bool, true, false, ◌||◌, Option, none, some,
  List, [], ◌∷◌, arith,
}
use oula_server.Channel
use oula_server.Channel.{Channel, Events}
use oula_server.Acceptor.{Acceptor, listen, handle_read}

pub data Call : Type 0 where
  listens_now : Call
  reads : Option ℕ → Call

unfoldable pub call_all : List Call → Acceptor → Acceptor
call_all [] a = a
call_all (listens_now ∷ cs) a = call_all cs (listen a)
call_all (reads r ∷ cs) a = call_all cs (handle_read r a)

abbrev pub has_listen : List Call → Bool
has_listen [] = false
has_listen (listens_now ∷ cs) = true
has_listen (reads r ∷ cs) = has_listen cs

-- The sockets that accept(2) returned, on top of earlier ones
abbrev pub sockets : List Call → List ℕ → List ℕ
sockets [] earlier = earlier
sockets (listens_now ∷ cs) earlier = sockets cs earlier
sockets (reads none ∷ cs) earlier = sockets cs earlier
sockets (reads (some fd) ∷ cs) earlier = sockets cs (fd ∷ earlier)

-- What an acceptor with a callback keeps
pub record Sound (a : Acceptor) : Type 0 where
  pub once : a.listens ≡ (if a.is_listening then 1 else 0)
  pub asks : Channel.is_enable_read_event a.accept_channel ≡ a.is_listening
  pub can_hand : a.has_callback ≡ true

abbrev Listened : Acceptor → Acceptor → Type 0
Listened a b = Sound b × (b.is_listening ≡ true) × (b.handed ≡ a.handed)

Listened-if :
    (t : Bool) (a b c : Acceptor)
    → (t ≡ true → Listened a b)
    → (t ≡ false → Listened a c)
    → Listened a (if t then b else c)
Listened-if true a b c f g = f refl
Listened-if false a b c f g = g refl

enable_read-asks : (c : Channel) → Channel.is_enable_read_event (Channel.enable_read_event c) ≡ true
unfolding Channel.enable_read_event Channel.is_enable_read_event
enable_read-asks c = ground arith

listen-Sound : (a : Acceptor) → Sound a → Listened a (listen a)
unfolding listen
listen-Sound a s =
    Listened-if a.is_listening a _ _ (λ on. (s, on, refl))
      (λ off. (
        record {
          once = ground (arith, s.once);
          asks = enable_read-asks a.accept_channel;
          can_hand = s.can_hand;
        },
        refl,
        refl,
      ))

abbrev Ran : List Call → Acceptor → List ℕ → Acceptor → Type 0
Ran cs a handed b =
    Sound (call_all cs b)
    × ((call_all cs b).is_listening ≡ a.is_listening || has_listen cs)
    × ((call_all cs b).handed ≡ sockets cs handed)

handed_step :
    (a : Acceptor) (fd : ℕ)
    → a.has_callback ≡ true
    → handle_read (some fd) a ≡ record a { accepted = fd ∷ a.accepted; handed = fd ∷ a.handed }
unfolding handle_read
handed_step a fd h =
    let a' : Acceptor = record a { accepted = fd ∷ a.accepted } in
    ap (λ b. if b then record a' { handed = fd ∷ a.handed } else a') h

none_step : (a : Acceptor) → handle_read none a ≡ a
unfolding handle_read
none_step a = refl

-- Any calls of `listen` and `HandleRead` on an acceptor with a callback, whose channel asks for reading
-- exactly while it listens: listen(2) has been called once if the acceptor listens and not at all
-- otherwise, the channel still asks for reading exactly while it listens, it listens if it did or
-- `listen` was called, and every socket that accept(2) returned was given to the callback, in order.
pub calls-Sound :
    (cs : List Call) (a : Acceptor)
    → Sound a
    → Sound (call_all cs a)
      × ((call_all cs a).is_listening ≡ a.is_listening || has_listen cs)
      × ((call_all cs a).handed ≡ sockets cs a.handed)
unfolding call_all
calls-Sound [] a s = (s, ground arith, refl)
calls-Sound (listens_now ∷ cs) a s =
    let (s₁, on, same) = listen-Sound a s in
    let (s₂, e, h) = calls-Sound cs (listen a) s₁ in
    (s₂, ground (arith, e, on), h ∙ ap (sockets cs) same)
calls-Sound (reads none ∷ cs) a s =
    subst (Ran cs a a.handed) (sym (none_step a)) (calls-Sound cs a s)
calls-Sound (reads (some fd) ∷ cs) a s =
    subst (Ran cs a (fd ∷ a.handed)) (sym (handed_step a fd s.can_hand)) (
      calls-Sound cs (record a { accepted = fd ∷ a.accepted; handed = fd ∷ a.handed })
        (record { once = s.once; asks = s.asks; can_hand = s.can_hand }))
