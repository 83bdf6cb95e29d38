-- ===== src/EventLoopThreadPool/RoundRobin.antt =====
-- The order in which net/EventLoopThreadPool.cpp hands out its loops.
use oula_server.Prelude.{
  length, get_elem?, Outcome, ◌>>=◌, ok, ℕ, zero, suc, ◌+◌, ◌%◌, ◌<◌, ◌≡◌, refl, sym, ap, ◌∙◌, true,
  false, some, List, [], ◌∷◌, arith,
}
use oula_server.EventLoopThreadPool.{Pool, get_next_loop, is_empty}
use native.Mathlib.Nat.{mod-lt, mod-add-mod, mod-eq_of_lt}

-- `n` calls of `getNextLoop`, one after the other
unfoldable pub next_loops : ℕ → Pool → Outcome (Pool × List ℕ)
next_loops zero t = ok (t, [])
next_loops (suc n) t = do
  first ← get_next_loop true t
  rest ← next_loops n first.0
  ok (rest.0, first.1 ∷ rest.1)

-- A pool that was started and has a loop of its own
pub record Ready (t : Pool) : Type 0 where
  pub is_started : t.started ≡ true
  pub has_loop : t.next_loop_idx < length t.loops

get_elem?-within {ℓ} :
    {A : Type ℓ} (xs : List A) (i : ℕ) → i < length xs → (a : A) × (get_elem? xs i ≡ some a)
get_elem?-within [] i h = absurd (omega arith)
get_elem?-within (x ∷ xs) zero h = (x, refl)
get_elem?-within (x ∷ xs) (suc i) h = get_elem?-within xs i (omega arith)

abbrev pub advanced : Pool → Pool
advanced t = record t { next_loop_idx = (t.next_loop_idx + 1) % length t.loops }

not_empty : (xs : List ℕ) (i : ℕ) → i < length xs → is_empty xs ≡ false
not_empty [] i h = absurd (omega arith)
not_empty (x ∷ xs) i h = refl

pub next_step :
    (t : Pool)
    → Ready t
    → (l : ℕ) × (get_next_loop true t ≡ ok (advanced t, l))
      × (get_elem? t.loops t.next_loop_idx ≡ some l)
unfolding get_next_loop
next_step t r =
    let (l, e) = get_elem?-within t.loops t.next_loop_idx r.has_loop in
    (l, simp (r.is_started, not_empty t.loops t.next_loop_idx r.has_loop, e), e)

pub advanced-Ready : (t : Pool) → Ready t → Ready (advanced t)
advanced-Ready t r = record {
  is_started = r.is_started;
  has_loop = mod-lt (t.next_loop_idx + 1) (omega (arith, r.has_loop));
}

-- `n` calls of `getNextLoop` on a pool that was started with loops of its own: all return, the loops
-- stay what they are, and the j-th call gets the loop j places after the first one's, around the end.
pub next_loops-round_robin :
    (n : ℕ) (t : Pool)
    → Ready t
    → (r : Pool × List ℕ) × (next_loops n t ≡ ok r)
      × Ready r.0
      × (r.0.loops ≡ t.loops)
      × (length r.1 ≡ n)
      × ((j : ℕ)
          → j < n
          → get_elem? r.1 j ≡ get_elem? t.loops ((t.next_loop_idx + j) % length t.loops))
unfolding next_loops
next_loops-round_robin zero t r = ((t, []), refl, r, refl, refl, λ j h. absurd (omega arith))
next_loops-round_robin (suc n) t r =
    let (l, run, e) = next_step t r in
    let (after, runs, ready, same, long, each) =
      next_loops-round_robin n (advanced t) (advanced-Ready t r) in
    (
      (after.0, l ∷ after.1),
      rw (run, runs),
      ready,
      same,
      ap suc long,
      λ j h. at j h l e after.1 each,
    )
  where
    at :
        (j : ℕ)
        → j < suc n
        → (l : ℕ) → get_elem? t.loops t.next_loop_idx ≡ some l
        → (ls : List ℕ)
        → ((i : ℕ)
            → i < n
            → get_elem? ls i
              ≡ get_elem? t.loops (((t.next_loop_idx + 1) % length t.loops + i) % length t.loops))
        → get_elem? (l ∷ ls) j ≡ get_elem? t.loops ((t.next_loop_idx + j) % length t.loops)
    at zero h l e ls each =
        let here : (t.next_loop_idx + 0) % length t.loops ≡ t.next_loop_idx =
          ap (λ k. k % length t.loops) (omega arith) ∙ mod-eq_of_lt r.has_loop in
        rw here (sym e)
    at (suc i) h l e ls each =
        each i (omega arith)
        ∙ ap (get_elem? t.loops) (
            mod-add-mod (t.next_loop_idx + 1) (length t.loops) i
            ∙ ap (λ k. k % length t.loops) (omega arith))
