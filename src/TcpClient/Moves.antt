-- ===== src/TcpClient/Moves.antt =====
-- What a client sees of the events of net/Connector.cpp.
use oula_server.Prelude.{
  ◌-◌, ◌==◌, if◌then◌else◌, Bool-cases, Option-cases, Outcome, ok, fault, ℕ, ◌+◌, ◌≡◌, refl, ap,
  ◌⊎◌, inl, inr, Bool, true, false, ◌||◌, some, ◌∷◌, arith,
}
use oula_server.Connector.{
  run_queued_start, complete, retry, reset_channel, timer_fires, is_disconnected, is_connecting,
  goes_on, try_again, gives_up, Verdict, start_in_loop, remove_and_reset_channel, verdict, connect,
  connecting, after_connect, Connector, State, disconnected, connecting_now, connected, Errno,
  handle_write, stop_in_loop,
}
use oula_server.Connector.Runs.{
  Act, started, start_ran, restarted, retried, writable, reset_ran, stopped, stop_ran, act,
}

-- No socket was handed over, and a connector that was connected still is.
pub record Quiet (c c' : Connector) : Type 0 where
  pub same_sockets : c'.handed_over ≡ c.handed_over
  pub still : c.state ≡ connected → c'.state ≡ connected

-- A socket was handed over at the end of an attempt.
pub record Hands (c c' : Connector) : Type 0 where
  pub sockfd : ℕ
  pub one_more : c'.handed_over ≡ sockfd ∷ c.handed_over
  pub was_connecting : c.state ≡ connecting_now
  pub is_now : c'.state ≡ connected

abbrev pub AllOf : (Connector → Type 0) → Outcome Connector → Type 0
AllOf P (ok c) = P c
AllOf P (fault e) = Unit {0}

AllOf-map :
    (P Q : Connector → Type 0) (m : Outcome Connector)
    → ((c : Connector) → P c → Q c)
    → AllOf P m
    → AllOf Q m
AllOf-map P Q (ok c) f h = f c h
AllOf-map P Q (fault e) f h = tt

AllOf-if :
    (P : Connector → Type 0) (b : Bool) (m n : Outcome Connector)
    → AllOf P m
    → AllOf P n
    → AllOf P (if b then m else n)
AllOf-if P true m n f g = f
AllOf-if P false m n f g = g

abbrev SameSockets : Connector → Connector → Type 0
SameSockets c c' = c'.handed_over ≡ c.handed_over

after_connect-SameSockets :
    (w : Verdict) (sockfd : ℕ) (c : Connector) → AllOf (SameSockets c) (after_connect w sockfd c)
unfolding connecting retry
after_connect-SameSockets goes_on sockfd c = elim (Option-cases c.channel) [
  | inl e ↦ rw e refl
  | inr (fd, e) ↦ rw e tt
]
after_connect-SameSockets try_again sockfd c = ground arith
after_connect-SameSockets gives_up sockfd c = refl

pub start_in_loop-SameSockets :
    (sockfd : ℕ) (save_error : Errno) (c : Connector)
    → AllOf (SameSockets c) (start_in_loop true sockfd save_error c)
unfolding start_in_loop connect
start_in_loop-SameSockets sockfd save_error c = elim (Bool-cases (is_disconnected c.state)) [
  | inl idle ↦ rw idle (
      AllOf-if (SameSockets c) c.enable_connect _ _
        (after_connect-SameSockets (verdict save_error) sockfd
          (record c { opened = sockfd ∷ c.opened }))
        refl)
  | inr busy ↦ rw busy tt
]

pub start_in_loop-Quiet :
    (sockfd : ℕ) (save_error : Errno) (c : Connector)
    → AllOf (Quiet c) (start_in_loop true sockfd save_error c)
unfolding start_in_loop
start_in_loop-Quiet sockfd save_error c = elim (Bool-cases (is_disconnected c.state)) [
  | inl idle ↦
      AllOf-map (SameSockets c) (Quiet c) (start_in_loop true sockfd save_error c)
        (λ c' h. record {
          same_sockets = h;
          still = λ e. absurd (ground (arith, ap is_disconnected e));
        })
        (start_in_loop-SameSockets sockfd save_error c)
  | inr busy ↦ rw busy tt
]

connecting_state : (s : State) → is_connecting s ≡ true → s ≡ connecting_now
connecting_state connecting_now h = refl
connecting_state disconnected h = absurd (cc)
connecting_state connected h = absurd (cc)

-- At the end of an attempt
tried :
    (err self_connect : Bool) (sockfd : ℕ) (c c₀ : Connector)
    → is_connecting c.state ≡ true
    → c₀.handed_over ≡ c.handed_over
    → let c' = (if err || self_connect then retry sockfd c₀ else complete true sockfd c₀) in
      Quiet c c' ⊎ Hands c c'
unfolding retry
tried err self_connect sockfd c c₀ busy same = elim (Bool-cases (err || self_connect)) [
  | inl failed ↦ inl (record {
    same_sockets = ground (arith, same);
    still = λ e. absurd (ground (arith, ap is_connecting e));
  })
  | inr fine ↦ elim (Bool-cases c₀.enable_connect) [
    | inl on ↦ inr (record {
      sockfd = sockfd;
      one_more = ground (arith, same);
      was_connecting = connecting_state c.state busy;
      is_now = ground arith;
    })
    | inr off ↦ inl (record {
      same_sockets = ground (arith, same);
      still = λ e. absurd (ground (arith, ap is_connecting e));
    })
  ]
]

pub handle_write-Moves :
    (err self_connect : Bool) (c : Connector)
    → AllOf (λ c'. Quiet c c' ⊎ Hands c c') (handle_write err self_connect true c)
unfolding handle_write remove_and_reset_channel
handle_write-Moves err self_connect c = elim (Bool-cases (is_connecting c.state)) [
  | inr idle ↦ elim (Bool-cases (is_disconnected c.state)) [
    | inl off ↦ rw (idle, off) (inl (record { same_sockets = refl; still = λ e. e }))
    | inr on ↦ rw (idle, on) tt
  ]
  | inl busy ↦ elim (Option-cases c.channel) [
    | inl e ↦ rw (busy, e) tt
    | inr (fd, e) ↦
        rw (busy, e)
          (tried err self_connect fd (record c { channel = some fd })
            (record c {
              channel = some fd;
              channel_listens = false;
              queued_resets = c.queued_resets + 1;
            })
            busy refl)
  ]
]

stop_in_loop-Quiet : (c : Connector) → AllOf (Quiet c) (stop_in_loop true c)
unfolding stop_in_loop remove_and_reset_channel retry
stop_in_loop-Quiet c = elim (Bool-cases (is_connecting c.state)) [
  | inr idle ↦ rw idle (record { same_sockets = refl; still = λ e. e })
  | inl busy ↦ elim (Option-cases c.channel) [
    | inl e ↦ rw (busy, e) tt
    | inr (fd, e) ↦
        rw (busy, e)
          (record {
            same_sockets = ground arith;
            still = λ h. absurd (ground (arith, ap is_connecting h));
          })
  ]
]

-- What happens to a connector without its client: an alarm, an event of its channel, a queued task
abbrev pub IsOwn : Act → Type 0
IsOwn (started here sockfd save_error) = ⊥
IsOwn (restarted sockfd save_error) = ⊥
IsOwn stopped = ⊥
IsOwn _ = Unit {0}

pub act-Moves :
    (a : Act) (c : Connector) → IsOwn a → AllOf (λ c'. Quiet c c' ⊎ Hands c c') (act a c)
unfolding act run_queued_start timer_fires reset_channel
act-Moves (started here sockfd save_error) c own = absurd own
act-Moves (restarted sockfd save_error) c own = absurd own
act-Moves stopped c own = absurd own
act-Moves (start_ran sockfd save_error) c own = elim (Bool-cases (c.queued_starts == 0)) [
  | inl none_due ↦ rw none_due (inl (record { same_sockets = refl; still = λ e. e }))
  | inr due ↦
      let c₀ = record c { queued_starts = c.queued_starts - 1 } in
      rw due (
        AllOf-map (Quiet c₀) _ (start_in_loop true sockfd save_error c₀)
          (λ c' q. inl (record { same_sockets = q.same_sockets; still = q.still }))
          (start_in_loop-Quiet sockfd save_error c₀))
]
act-Moves (retried sockfd save_error) c own =
    AllOf-map (Quiet c) _ (start_in_loop true sockfd save_error c) (λ c' q. inl q)
      (start_in_loop-Quiet sockfd save_error c)
act-Moves (writable err self_connect) c own = handle_write-Moves err self_connect c
act-Moves reset_ran c own = elim (Bool-cases (c.queued_resets == 0)) [
  | inl none_due ↦ rw none_due (inl (record { same_sockets = refl; still = λ e. e }))
  | inr due ↦ rw due (inl (record { same_sockets = refl; still = λ e. e }))
]
act-Moves stop_ran c own = elim (Bool-cases (c.queued_stops == 0)) [
  | inl none_due ↦ rw none_due (inl (record { same_sockets = refl; still = λ e. e }))
  | inr due ↦
      rw due (AllOf-map (Quiet c) _ (stop_in_loop true c) (λ c' q. inl q) (stop_in_loop-Quiet c))
]
