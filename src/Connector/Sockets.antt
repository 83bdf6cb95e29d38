-- ===== src/Connector/Sockets.antt =====
-- Where the sockets of net/Connector.cpp end.
use oula_server.Prelude.{
  false, ◌-◌, ◌==◌, ◌+◌, refl, subst, if◌then◌else◌, Bool, Option-cases, Bool-cases, ◌||◌, inl, inr,
  true, fault, some, none, Outcome, ok, ℕ, ◌≡◌, Option, List, [], ◌∷◌, arith,
}
use oula_server.Prelude.Int.{is_none}
use oula_server.Connector.{
  complete, init_retry_delay_ms, reset_channel, stop, start, run_queued_start, restart, timer_fires,
  is_disconnected, goes_on, try_again, gives_up, Verdict, start_in_loop, remove_and_reset_channel,
  verdict, connect, connecting, after_connect, Connector, State, disconnected, connecting_now,
  Errno, new, is_connecting, retry, handle_write, stop_in_loop,
}
use oula_server.Connector.Runs.{
  Act, started, start_ran, restarted, retried, writable, reset_ran, stopped, stop_ran, act, Fits,
  Reached, at_first, then_did,
}

-- How often a socket is in a list.
abbrev pub count : ℕ → List ℕ → ℕ
count x [] = 0
count x (y ∷ ys) = (if y == x then 1 else 0) + count x ys

-- The socket of the attempt that is under way
abbrev pub under_way : State → Option ℕ → List ℕ
under_way connecting_now (some fd) = fd ∷ []
under_way _ _ = []

abbrev pub resets_due : State → Option ℕ → ℕ
resets_due connecting_now (some fd) = 0
resets_due _ (some fd) = 1
resets_due _ none = 0

pub record Inv (c : Connector) : Type 0 where
  pub waits : is_connecting c.state ≡ true → is_none c.channel ≡ false
  pub resets : c.queued_resets ≡ resets_due c.state c.channel
  pub accounts :
      (x : ℕ)
      → count x c.opened
        ≡ count x c.closed + count x c.handed_over + count x (under_way c.state c.channel)

new-Inv : Inv new
unfolding new
new-Inv = record { waits = λ h. cc; resets = refl; accounts = λ x. refl }

retry-Inv :
    (c : Connector) (sockfd : ℕ)
    → c.queued_resets ≡ resets_due disconnected c.channel
    → ((x : ℕ)
        → count x c.opened ≡ count x c.closed + count x c.handed_over + count x (sockfd ∷ []))
    → Inv (retry sockfd c)
unfolding retry
retry-Inv c sockfd q acc = record {
  waits = ground arith;
  resets = ground arith;
  accounts = λ x. ground (arith, acc x);
}

-- An operation that returns keeps the invariant.
abbrev Keeps : Outcome Connector → Type 0
Keeps (ok c) = Inv c
Keeps (fault e) = Unit {0}

after_connect-Keeps :
    (w : Verdict) (c : Connector) (sockfd : ℕ)
    → Inv c
    → is_disconnected c.state ≡ true
    → Keeps (after_connect w sockfd (record c { opened = sockfd ∷ c.opened }))
unfolding connecting
after_connect-Keeps goes_on c sockfd v idle = elim (Option-cases c.channel) [
  | inl e ↦ rw e (record {
    waits = λ h. refl;
    resets = ground (arith, v.resets, e);
    accounts = λ x. ground (arith, v.accounts x, e);
  })
  | inr (fd, e) ↦ rw e tt
]
after_connect-Keeps try_again c sockfd v idle =
    retry-Inv (record c { opened = sockfd ∷ c.opened }) sockfd (ground (arith, v.resets))
      (λ x. ground (arith, v.accounts x))
after_connect-Keeps gives_up c sockfd v idle = record {
  waits = v.waits;
  resets = v.resets;
  accounts = λ x. ground (arith, v.accounts x);
}

-- Both ends of a test
Keeps-if :
    (b : Bool) (m n : Outcome Connector)
    → (b ≡ true → Keeps m)
    → (b ≡ false → Keeps n)
    → Keeps (if b then m else n)
Keeps-if true m n f g = f refl
Keeps-if false m n f g = g refl

Inv-if :
    (b : Bool) {c d : Connector}
    → (b ≡ true → Inv c)
    → (b ≡ false → Inv d)
    → Inv (if b then c else d)
Inv-if true f g = f refl
Inv-if false f g = g refl

start_in_loop-Keeps :
    (c : Connector) (sockfd : ℕ) (save_error : Errno)
    → Inv c
    → Keeps (start_in_loop true sockfd save_error c)
unfolding start_in_loop connect
start_in_loop-Keeps c sockfd save_error v = elim (Bool-cases (is_disconnected c.state)) [
  | inl idle ↦ rw idle (
      Keeps-if c.enable_connect _ _ (λ on. after_connect-Keeps (verdict save_error) c sockfd v idle)
        (λ off. v))
  | inr busy ↦ rw busy tt
]

-- The attempt that is under way, with its socket
attempt_of :
    (c : Connector) → Inv c → is_connecting c.state ≡ true → (fd : ℕ) × (c.channel ≡ some fd)
attempt_of c v busy = elim (Option-cases c.channel) [
  | inl e ↦ absurd (ground (arith, v.waits))
  | inr found ↦ found
]

-- After `removeAndResetChannel`
abbrev removed : Connector → ℕ → Connector
removed c fd = record c {
  channel = some fd;
  channel_listens = false;
  queued_resets = c.queued_resets + 1;
}

complete-Inv :
    (c : Connector) (fd : ℕ)
    → Inv c
    → is_connecting c.state ≡ true
    → c.channel ≡ some fd
    → Inv (complete true fd (removed c fd))
complete-Inv c fd v busy e =
    Inv-if c.enable_connect
      (λ on. record {
        waits = λ h. refl;
        resets = ground (arith, v.resets);
        accounts = λ x. ground (arith, v.accounts x);
      })
      (λ off. record {
        waits = λ h. refl;
        resets = ground (arith, v.resets);
        accounts = λ x. ground (arith, v.accounts x);
      })

handle_write-Keeps :
    (c : Connector) (err self_connect : Bool) → Inv c → Keeps (handle_write err self_connect true c)
unfolding handle_write remove_and_reset_channel
handle_write-Keeps c err self_connect v =
    Keeps-if (is_connecting c.state) _ _
      (λ busy.
        let (fd, e) = attempt_of c v busy in
        rw e (
          Inv-if (err || self_connect)
            (λ failed.
              retry-Inv (removed c fd) fd (ground (arith, v.resets))
                (λ x. ground (arith, v.accounts x)))
            (λ fine. complete-Inv c fd v busy e)))
      (λ idle. elim (Bool-cases (is_disconnected c.state)) [
        | inl off ↦ rw off v
        | inr on ↦ rw on tt
      ])

stop_in_loop-Keeps : (c : Connector) → Inv c → Keeps (stop_in_loop true c)
unfolding stop_in_loop remove_and_reset_channel
stop_in_loop-Keeps c v =
    Keeps-if (is_connecting c.state) _ _
      (λ busy.
        let (fd, e) = attempt_of c v busy in
        rw e (
          retry-Inv
            (record (removed c fd) { state = disconnected; queued_stops = c.queued_stops - 1 }) fd
            (ground (arith, v.resets)) (λ x. ground (arith, v.accounts x))))
      (λ idle. record { waits = v.waits; resets = v.resets; accounts = v.accounts })

act-Keeps : (a : Act) (c : Connector) → Inv c → Fits a c → Keeps (act a c)
unfolding act start run_queued_start restart timer_fires reset_channel stop
act-Keeps (started here sockfd save_error) c v f =
    Keeps-if here _ _
      (λ y.
        start_in_loop-Keeps (record c { enable_connect = true }) sockfd save_error
          (record { waits = v.waits; resets = v.resets; accounts = v.accounts }))
      (λ n. record { waits = v.waits; resets = v.resets; accounts = v.accounts })
act-Keeps (start_ran sockfd save_error) c v f =
    Keeps-if (c.queued_starts == 0) _ _ (λ none_due. v)
      (λ due.
        start_in_loop-Keeps (record c { queued_starts = c.queued_starts - 1 }) sockfd save_error
          (record { waits = v.waits; resets = v.resets; accounts = v.accounts }))
act-Keeps (restarted sockfd save_error) c v f =
    start_in_loop-Keeps
      (record c {
        state = disconnected;
        retry_delay_ms = init_retry_delay_ms;
        enable_connect = true;
      })
      sockfd save_error
      (record {
        waits = λ h. cc;
        resets = ground (arith, v.resets, f);
        accounts = λ x. ground (arith, v.accounts x, f);
      })
act-Keeps (retried sockfd save_error) c v f = start_in_loop-Keeps c sockfd save_error v
act-Keeps (writable err self_connect) c v f = handle_write-Keeps c err self_connect v
act-Keeps reset_ran c v f =
    Inv-if (c.queued_resets == 0) (λ none_due. v)
      (λ due. record {
        waits = ground (arith, v.resets, v.waits);
        resets = ground (arith, v.resets);
        accounts = λ x. ground (arith, v.accounts x, v.resets);
      })
act-Keeps stopped c v f = record { waits = v.waits; resets = v.resets; accounts = v.accounts }
act-Keeps stop_ran c v f =
    Keeps-if (c.queued_stops == 0) _ _ (λ none_due. v) (λ due. stop_in_loop-Keeps c v)

Reached-Inv : {c : Connector} → Reached c → Inv c
Reached-Inv at_first = new-Inv
Reached-Inv (then_did {c} {c'} a r f e) = subst Keeps e (act-Keeps a c (Reached-Inv r) f)

-- In every state that a connector comes to from a fresh one, started from any thread, with a callback and no
-- restart during an attempt: each socket was closed or handed over as often as it was opened, but for the one of the
-- attempt under way; during an attempt the channel is there; and when no reset of the channel is
-- queued and no attempt is under way, `connecting` finds no channel, so its assertion holds.
pub Reached-accounts :
    {c : Connector}
    → Reached c
    → ((x : ℕ)
        → count x c.opened
          ≡ count x c.closed + count x c.handed_over + count x (under_way c.state c.channel))
      × (is_connecting c.state ≡ true → is_none c.channel ≡ false)
      × (is_connecting c.state ≡ false → c.queued_resets ≡ 0 → is_none c.channel ≡ true)
Reached-accounts {c} r =
    let v = Reached-Inv r in (v.accounts, v.waits, λ idle quiet. ground (arith, v.resets))
