-- ===== src/TimerQueue/Reset.antt =====
-- The loop of `reset` of net/TimerQueue.cpp.
use oula_server.Prelude.{
  not, if◌then◌else◌, ◌&&◌, none, ok, [], Bool-cases, ℕ, ◌≡◌, refl, ap, ◌∙◌, inl, inr, true, false,
  some, List, ◌∷◌, arith,
}
use oula_server.Prelude.Sets
use oula_server.Timestamp.{add_time, Timestamp, Timer}
use oula_server.TimerQueue.{reset_all, Entry, active_less, TimerQueue}
use oula_server.TimerQueue.Books.{is_loose, Inv}
use oula_server.TimerQueue.Settling.{loose_elsewhere, is_kept, Settled, reset_one-Settled}

module _ (q q₁ q₂ : TimerQueue) (now : Timestamp) (e : Entry) (es : List Entry)
    (once : is_loose e.1 es ≡ false) (s₁ : Settled q es now (e ∷ []) q₁)
    (s₂ : Settled q₁ [] now es q₂) where
  same_goes_on : (p : ℕ) (t : Timer) → is_kept q₁ p t ≡ is_kept q p t
  same_goes_on p t =
      ap (λ c. t.repeat && not (Sets.member active_less (p, t.seq) c)) s₁.same_canceling

  -- A timer that is to be settled later was not touched yet.
  untouched : (p : ℕ) → is_loose p es ≡ true → q₁.memory p ≡ q.memory p
  untouched p l = s₁.others p (rw (loose_elsewhere e es p once l) refl)

  settled_first :
      (p : ℕ) → is_loose p (e ∷ es) ≡ true → is_loose p es ≡ false → is_loose p (e ∷ []) ≡ true
  settled_first p l n = ground (arith, l, n)

  both-Settled : Settled q [] now (e ∷ es) q₂
  both-Settled = record {
    books = s₂.books;
    ends = λ p t l m. elim (Bool-cases (is_loose p es)) [
      | inl later ↦
          s₂.ends p t later (untouched p later ∙ m)
          ∙ ap (λ b. if b then some (record t { expiration = add_time now t.interval }) else none)
              (same_goes_on p t)
      | inr n ↦ s₂.others p n ∙ s₁.ends p t (settled_first p l n) m
    ];
    waits = λ p t l m g. elim (Bool-cases (is_loose p es)) [
      | inl later ↦ s₂.waits p t later (untouched p later ∙ m) (same_goes_on p t ∙ g)
      | inr n ↦ s₂.still (p, t.seq) (s₁.waits p t (settled_first p l n) m g)
    ];
    others = λ p l. s₂.others p (ground (arith, l)) ∙ s₁.others p (ground (arith, l));
    still = λ a h. s₂.still a (s₁.still a h);
    same_canceling = s₂.same_canceling ∙ s₁.same_canceling;
    same_calling = s₂.same_calling ∙ s₁.same_calling;
    same_timefd = s₂.same_timefd ∙ s₁.same_timefd;
  }

pub reset_all-Settled :
    (q : TimerQueue) (now : Timestamp) (expired : List Entry)
    → Inv q expired
    → (q' : TimerQueue) × (reset_all true now expired q ≡ ok q') × Settled q [] now expired q'
unfolding reset_all
reset_all-Settled q now [] v = (
  q,
  refl,
  record {
    books = v;
    ends = λ p t l m. absurd (cc);
    waits = λ p t l m g. absurd (cc);
    others = λ p l. refl;
    still = λ a h. h;
    same_canceling = refl;
    same_calling = refl;
    same_timefd = refl;
  },
)
reset_all-Settled q now (e ∷ es) v =
    let (q₁, run₁, s₁) = reset_one-Settled q now e es v in
    let (q₂, run₂, s₂) = reset_all-Settled q₁ now es s₁.books in
    (q₂, rw (run₁, run₂), both-Settled q q₁ q₂ now e es v.loose_distinct.0 s₁ s₂)
