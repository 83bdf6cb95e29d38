-- ===== src/Connector/Backoff.antt =====
-- The delays between the attempts of net/Connector.cpp.
use oula_server.Prelude.{
  map, length, ◌≤◌, Outcome, ◌>>=◌, ok, ℕ, zero, suc, ◌*◌, min, ◌≡◌, refl, sym, ap, ap₂, ◌∙◌, true,
  List, [], ◌∷◌, arith,
}
use oula_server.Connector.{
  Connector, disconnected, Errno, try_again, verdict, retry, connect, start_in_loop, timer_fires,
  max_retry_delay_ms,
}

-- One refusal after the other: the sockets and the errors of the attempts, first to last.
unfoldable pub attempts : List (ℕ × Errno) → Connector → Outcome Connector
attempts [] c = ok c
attempts ((sockfd, save_error) ∷ rest) c =
    timer_fires sockfd save_error c >>= λ c'. attempts rest c'

-- Every attempt fails in a way that is tried again.
abbrev pub Refused : List (ℕ × Errno) → Type 0
Refused [] = Unit {0}
Refused ((sockfd, save_error) ∷ rest) = (verdict save_error ≡ try_again) × Refused rest

abbrev pub reverse_onto : List ℕ → List ℕ → List ℕ
reverse_onto [] ys = ys
reverse_onto (x ∷ xs) ys = reverse_onto xs (x ∷ ys)

-- `d` doubled `n` times, and at most 30 seconds.
unfoldable pub capped : ℕ → ℕ → ℕ
capped zero d = min d max_retry_delay_ms
capped (suc n) d = capped n (d * 2)

-- The delays of `n` attempts, the latest first, on top of `earlier`.
unfoldable pub delays : ℕ → ℕ → List ℕ → List ℕ
delays zero d earlier = earlier
delays (suc n) d earlier = delays n (d * 2) (min d max_retry_delay_ms ∷ earlier)

capped-min : (n d : ℕ) → capped n (min d max_retry_delay_ms) ≡ capped n d
unfolding capped
capped-min zero d = omega arith
capped-min (suc n) d =
    sym (capped-min n (min d max_retry_delay_ms * 2)) ∙ ap (capped n) same ∙ capped-min n (d * 2)
  where
    same : min (min d max_retry_delay_ms * 2) max_retry_delay_ms ≡ min (d * 2) max_retry_delay_ms
    same = omega arith

delays-min : (n d : ℕ) (e : List ℕ) → delays n (min d max_retry_delay_ms) e ≡ delays n d e
unfolding delays
delays-min zero d e = refl
delays-min (suc n) d e =
    sym (
      delays-min n (min d max_retry_delay_ms * 2)
        (min (min d max_retry_delay_ms) max_retry_delay_ms ∷ e))
    ∙ ap₂ (λ x y. delays n x (y ∷ e)) same same'
    ∙ delays-min n (d * 2) (min d max_retry_delay_ms ∷ e)
  where
    same : min (min d max_retry_delay_ms * 2) max_retry_delay_ms ≡ min (d * 2) max_retry_delay_ms
    same = omega arith

    same' : min (min d max_retry_delay_ms) max_retry_delay_ms ≡ min d max_retry_delay_ms
    same' = omega arith

refused_step :
    (c : Connector) (sockfd : ℕ) (save_error : Errno)
    → c.state ≡ disconnected
    → c.enable_connect ≡ true
    → verdict save_error ≡ try_again
    → timer_fires sockfd save_error c
      ≡ ok (record c {
        opened = sockfd ∷ c.opened;
        closed = sockfd ∷ c.closed;
        state = disconnected;
        timers = c.retry_delay_ms ∷ c.timers;
        retry_delay_ms = min (c.retry_delay_ms * 2) max_retry_delay_ms;
      })
unfolding timer_fires start_in_loop connect retry
refused_step c sockfd save_error idle on refused = rw (idle, on, refused)

abbrev tried : Connector → ℕ → Connector
tried c sockfd = record c {
  opened = sockfd ∷ c.opened;
  closed = sockfd ∷ c.closed;
  state = disconnected;
  timers = c.retry_delay_ms ∷ c.timers;
  retry_delay_ms = min (c.retry_delay_ms * 2) max_retry_delay_ms;
}

capped_small : {d : ℕ} → d ≤ max_retry_delay_ms → d ≡ min d max_retry_delay_ms
capped_small {d} small = omega arith

-- Attempts that all fail in a way that is tried again, from an idle connector that is enabled: the run
-- returns, the connector is idle and enabled again, every socket was closed, and the delays scheduled
-- were the first one, doubled each time, at most 30 seconds each; the next one is the doubled one.
pub attempts-delays :
    (tries : List (ℕ × Errno)) (c : Connector)
    → c.state ≡ disconnected
    → c.enable_connect ≡ true
    → c.retry_delay_ms ≤ max_retry_delay_ms
    → Refused tries
    → attempts tries c
      ≡ ok (record c {
        opened = reverse_onto (map (λ t. t.0) tries) c.opened;
        closed = reverse_onto (map (λ t. t.0) tries) c.closed;
        state = disconnected;
        timers = delays (length tries) c.retry_delay_ms c.timers;
        retry_delay_ms = capped (length tries) c.retry_delay_ms;
      })
unfolding attempts delays capped
attempts-delays [] c idle on small r =
    ap₂ (λ s d. ok (record c { state = s; retry_delay_ms = d })) idle (capped_small small)
attempts-delays ((sockfd, save_error) ∷ rest) c idle on small (refused, more) =
    ap (λ m. m >>= λ c'. attempts rest c') (refused_step c sockfd save_error idle on refused)
    ∙ attempts-delays rest (tried c sockfd) refl on (omega arith) more
    ∙ rw (capped-min (length rest) (c.retry_delay_ms * 2)) (
        ap (λ e. ok (ended e))
          (delays-min (length rest) (c.retry_delay_ms * 2) (c.retry_delay_ms ∷ c.timers)
            ∙ ap (λ d. delays (length rest) (c.retry_delay_ms * 2) (d ∷ c.timers))
                (capped_small small)))
  where
    ended : List ℕ → Connector
    ended e = record c {
      opened = reverse_onto (map (λ t. t.0) rest) (sockfd ∷ c.opened);
      closed = reverse_onto (map (λ t. t.0) rest) (sockfd ∷ c.closed);
      state = disconnected;
      timers = e;
      retry_delay_ms = capped (length rest) (c.retry_delay_ms * 2);
    }
