-- ===== src/Prelude/Sets.antt =====
-- A `std::set` as the sorted list of its elements, over its `operator<`.
use Prim.Native.Nat.{suc}
use mathlib.Core.Path.{◌≡◌, refl}
use mathlib.Core.Logic.{inl, inr}
use mathlib.Core.Bool.{Bool, true, false, not, ◌&&◌, ◌||◌}
use mathlib.Core.List.{List, [], ◌∷◌, ◌++◌}
use native.Mathlib.Omega.{arith}
use oula_server.Prelude.Tests.{if◌then◌else◌, Bool-cases}
use oula_server.Prelude.Lists.{length}

pub record Order {A : Type 0} (less : A → A → Bool) : Type 0 where
  pub irreflexive : (a : A) → less a a ≡ false
  pub transitive : (a b c : A) → less a b ≡ true → less b c ≡ true → less a c ≡ true
  pub connected : (a b : A) → less a b ≡ false → less b a ≡ false → a ≡ b

module _ {A : Type 0} (less : A → A → Bool) where
  -- Elements of which neither is less are the same to the set.
  abbrev pub same : A → A → Bool
  same a b = if less a b then false else not (less b a)

  -- `find(a) != end()`
  abbrev pub member : A → List A → Bool
  member a [] = false
  member a (b ∷ s) = same a b || member a s

  -- `insert(a)`, whose `second` is `not (member a s)`
  abbrev pub insert : A → List A → List A
  insert a [] = a ∷ []
  insert a (b ∷ s) =
      let rest = insert a s in if less a b then a ∷ b ∷ s else if less b a then b ∷ rest else b ∷ s

  -- `erase(a)`, which returns 1 if `member a s`, and else 0
  abbrev pub erase : A → List A → List A
  erase a [] = []
  erase a (b ∷ s) = let rest = erase a s in if same a b then s else b ∷ rest

  -- The elements before `lower_bound(a)`, and those from there on
  abbrev pub before : A → List A → List A
  before a [] = []
  before a (b ∷ s) = let rest = before a s in if less b a then b ∷ rest else []

  abbrev pub from : A → List A → List A
  from a [] = []
  from a (b ∷ s) = let rest = from a s in if less b a then rest else b ∷ s

  abbrev pub Above : A → List A → Type 0
  Above a s = (b : A) → member b s ≡ true → less a b ≡ true

  abbrev pub Sorted : List A → Type 0
  Sorted [] = Unit {0}
  Sorted (a ∷ s) = Above a s × Sorted s

module _ {A : Type 0} (less : A → A → Bool) (o : Order less) where
  pub same_refl : (a : A) → same less a a ≡ true
  same_refl a = ground (arith, o.irreflexive a)

  pub same_eq : (a b : A) → same less a b ≡ true → a ≡ b
  same_eq a b h = elim (Bool-cases (less a b)) [
    | inl l ↦ absurd (ground arith)
    | inr l ↦ elim (Bool-cases (less b a)) [
      | inl m ↦ absurd (ground arith)
      | inr m ↦ o.connected a b l m
    ]
  ]

  less_same : (a b : A) → less a b ≡ true → same less a b ≡ false
  less_same a b h = rw h

  less_same_flip : (a b : A) → less b a ≡ true → same less a b ≡ false
  less_same_flip a b h = ground arith

  pub not_member-Above :
      (a b : A) (s : List A) → Above less b s → less a b ≡ true → member less a s ≡ false
  not_member-Above a b s above h = elim (Bool-cases (member less a s)) [
    | inr out ↦ out
    | inl is_in ↦ absurd (ground (arith, o.transitive a b a h (above a is_in), o.irreflexive a))
  ]

  pub member-insert :
      (a b : A) (s : List A) → member less b (insert less a s) ≡ same less b a || member less b s
  member-insert a b [] = refl
  member-insert a b (c ∷ s) = elim (Bool-cases (less a c)) [
    | inl l ↦ rw l
    | inr l ↦ elim (Bool-cases (less c a)) [
      | inl m ↦ rw (l, m) (ground (arith, member-insert a b s))
      | inr m ↦ let e = o.connected a c l m in rw (l, m) (rw e (ground arith))
    ]
  ]

  pub member-erase :
      (a b : A) (s : List A)
      → Sorted less s
      → member less b (erase less a s) ≡ not (same less b a) && member less b s
  member-erase a b [] sorted = ground arith
  member-erase a b (c ∷ s) (above, sorted) = elim (Bool-cases (same less a c)) [
    | inl e ↦ ground (arith, same_eq a c e, above b)
    | inr n ↦
        ground
          (arith, member-erase a b s sorted, same_eq b c, same_eq b a, same_refl a, same_refl c)
  ]

  pub length-insert :
      (a : A) (s : List A)
      → Sorted less s
      → member less a s ≡ false
      → length (insert less a s) ≡ suc (length s)
  length-insert a [] sorted out = refl
  length-insert a (c ∷ s) (above, sorted) out = ground (arith, length-insert a s sorted)

  pub length-erase :
      (a : A) (s : List A) → member less a s ≡ true → suc (length (erase less a s)) ≡ length s
  length-erase a [] is_in = cc
  length-erase a (c ∷ s) is_in = ground (arith, length-erase a s)

  pub insert-Sorted : (a : A) (s : List A) → Sorted less s → Sorted less (insert less a s)
  insert-Sorted a [] sorted = ((λ b h. cc), tt)
  insert-Sorted a (c ∷ s) (above, sorted) = elim (Bool-cases (less a c)) [
    | inl l ↦ rw l ((λ b h. reaches l b (above b) h), (above, sorted))
    | inr l ↦ elim (Bool-cases (less c a)) [
      | inl m ↦
          rw (l, m)
            (
              (λ b h. ground (arith, member-insert a b s, above b, same_eq a b)),
              insert-Sorted a s sorted,
            )
      | inr m ↦ rw (l, m) (above, sorted)
    ]
  ]
    where
      reaches :
          less a c ≡ true
          → (b : A) → (member less b s ≡ true → less c b ≡ true)
          → (same less b c || member less b s) ≡ true
          → less a b ≡ true
      reaches l b above_b h = ground (arith, o.transitive a c b l, same_eq b c)

  pub erase-Sorted : (a : A) (s : List A) → Sorted less s → Sorted less (erase less a s)
  erase-Sorted a [] sorted = tt
  erase-Sorted a (c ∷ s) (above, sorted) = elim (Bool-cases (same less a c)) [
    | inl e ↦ rw e sorted
    | inr n ↦
        rw n ((λ b h. above b (ground (arith, member-erase a b s sorted))), erase-Sorted a s sorted)
  ]

  pub member-append :
      (b : A) (s s' : List A) → member less b (s ++ s') ≡ member less b s || member less b s'
  member-append b [] s' = refl
  member-append b (c ∷ s) s' = ground (arith, member-append b s s')

  pub before-append-from : (a : A) (s : List A) → before less a s ++ from less a s ≡ s
  before-append-from a [] = refl
  before-append-from a (c ∷ s) = ground (arith, before-append-from a s)

  pub member-before-from :
      (a b : A) (s : List A)
      → member less b s ≡ member less b (before less a s) || member less b (from less a s)
  member-before-from a b [] = refl
  member-before-from a b (c ∷ s) = ground (arith, member-before-from a b s)

  -- What stands before `lower_bound(a)` is less than `a`, and what stands after it is not.
  pub before-less :
      (a b : A) (s : List A) → member less b (before less a s) ≡ true → less b a ≡ true
  before-less a b [] h = cc
  before-less a b (c ∷ s) h = ground (arith, before-less a b s, same_eq b c)

  pub from_not_less :
      (a b : A) (s : List A)
      → Sorted less s
      → member less b (from less a s) ≡ true
      → less b a ≡ false
  from_not_less a b [] sorted h = cc
  from_not_less a b (c ∷ s) (above, sorted) h = elim (Bool-cases (less c a)) [
    | inl l ↦ from_not_less a b s sorted (rw l at h)
    | inr l ↦ elim (Bool-cases (less b a)) [
      | inr m ↦ m
      | inl m ↦ absurd (ground (arith, o.transitive c b a, above b, same_eq b c))
    ]
  ]

  pub from-Sorted : (a : A) (s : List A) → Sorted less s → Sorted less (from less a s)
  from-Sorted a [] sorted = tt
  from-Sorted a (c ∷ s) (above, sorted) = elim (Bool-cases (less c a)) [
    | inl l ↦ rw l (from-Sorted a s sorted)
    | inr l ↦ rw l (above, sorted)
  ]

  pub before-Sorted : (a : A) (s : List A) → Sorted less s → Sorted less (before less a s)
  before-Sorted a [] sorted = tt
  before-Sorted a (c ∷ s) (above, sorted) = elim (Bool-cases (less c a)) [
    | inl l ↦
        rw l ((λ b h. above b (ground (arith, member-before-from a b s))), before-Sorted a s sorted)
    | inr l ↦ rw l tt
  ]
