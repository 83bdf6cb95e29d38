-- ===== src/Poller/PollPoller/Containers.antt =====
-- What the three containers of net/poller/PollPoller.cpp have in common, and a change of one entry.
use oula_server.Prelude.{
  inl, inr, ◌==◌, if◌then◌else◌, ==_iff, ==_refl, ==_ne, Bool-cases, length, get_elem?, set,
  get_elem?-set_self, get_elem?-set_ne, ℕ, zero, suc, ◌<◌, ◌≡◌, refl, sym, ap, ◌∙◌, inl, inr, true,
  none, some, List, [], ◌∷◌, ◌++◌, arith,
}
use oula_server.Prelude.Int.{ℤ, pos, negsuc, eqb, eqb_iff, eqb_refl, insert, is_none}
use native.Mathlib.Decide.{ℕ_discrete}
use oula_server.Channel.{Channel, none_event}
use oula_server.Poller.PollPoller.{PollFd, PollPoller, new}

-- The key of an entry's channel.
abbrev pub key : ℤ → ℤ
key (pos f) = pos f
key (negsuc f) = pos f

-- Every entry is indexed under its channel's descriptor, every index leads to such an entry, and the
-- channels that are known are the ones that are indexed.
pub record Inv (p : PollPoller) : Type 0 where
  pub listed :
      (i : ℕ) (e : PollFd)
      → get_elem? p.pollfds i ≡ some e
      → p.fd_in_pollfds_idx (key e.fd) ≡ some i
  pub indexed :
      (k : ℤ) (i : ℕ)
      → p.fd_in_pollfds_idx k ≡ some i
      → (e : PollFd) × (get_elem? p.pollfds i ≡ some e) × (key e.fd ≡ k)
  pub known : (k : ℤ) → is_none (p.channels k) ≡ is_none (p.fd_in_pollfds_idx k)

pub new-Inv : Inv new
unfolding new
new-Inv = record { listed = λ i e h. cc; indexed = λ k i h. cc; known = λ k. refl }

pub get_elem?-lt {ℓ} :
    {A : Type ℓ} (xs : List A) (i : ℕ) (a : A) → get_elem? xs i ≡ some a → i < length xs
get_elem?-lt [] i a h = cc
get_elem?-lt (x ∷ xs) zero a h = omega arith
get_elem?-lt (x ∷ xs) (suc i) a h = omega (arith, get_elem?-lt xs i a h)

pub get_elem?-append_last {ℓ} :
    {A : Type ℓ} (xs : List A) (a : A) (i : ℕ)
    → get_elem? (xs ++ a ∷ []) i ≡ (if i == length xs then some a else get_elem? xs i)
get_elem?-append_last [] a zero = refl
get_elem?-append_last [] a (suc i) = ground arith
get_elem?-append_last (x ∷ xs) a zero = ground arith
get_elem?-append_last (x ∷ xs) a (suc i) = ground (arith, get_elem?-append_last xs a i)

pub get_elem?-set {ℓ} :
    {A : Type ℓ} (xs : List A) (i : ℕ) (v : A) (j : ℕ)
    → i < length xs
    → get_elem? (set xs i v) j ≡ (if i == j then some v else get_elem? xs j)
get_elem?-set xs i v j h = elim (ℕ_discrete i j) [
  | yes e ↦ rw (← e, ==_refl i) (get_elem?-set_self xs i v h)
  | no ne ↦ rw (==_ne i j ne) (get_elem?-set_ne xs i j v ne)
]

pub add_channel-Inv :
    (p : PollPoller) (ptr : ℕ) (c : Channel)
    → Inv p
    → p.fd_in_pollfds_idx (pos c.fd) ≡ none
    → Inv (record p {
      pollfds = p.pollfds ++ record { fd = pos c.fd; events = c.events; revents = none_event } ∷ [];
      channels = insert (pos c.fd) ptr p.channels;
      fd_in_pollfds_idx = insert (pos c.fd) (length p.pollfds) p.fd_in_pollfds_idx;
    })
add_channel-Inv p ptr c v fresh = record {
  listed = λ i e h. ground (
    arith,
    get_elem?-append_last p.pollfds new_entry i,
    v.listed i e,
    eqb_iff (pos c.fd) (key e.fd),
    eqb_refl (pos c.fd),
  );
  indexed = λ k i h. elim (Bool-cases (eqb (pos c.fd) k)) [
    | inl same ↦ (
      new_entry,
      rw (get_elem?-append_last p.pollfds new_entry i) (ground arith),
      (eqb_iff (pos c.fd) k).0 same,
    )
    | inr other ↦
        let (e, g, ke) = v.indexed k i (rw other at h) in
        (
          e,
          rw (get_elem?-append_last p.pollfds new_entry i)
              (ground (arith, g, get_elem?-lt p.pollfds i e g)),
          ke,
        )
  ];
  known = λ k. ground (arith, v.known k);
}
  where
    new_entry : PollFd
    new_entry = record { fd = pos c.fd; events = c.events; revents = none_event }

pub modify_channel-Inv :
    (p : PollPoller) (idx : ℕ) (new_entry : PollFd)
    → Inv p
    → p.fd_in_pollfds_idx (key new_entry.fd) ≡ some idx
    → idx < length p.pollfds
    → Inv (record p { pollfds = set p.pollfds idx new_entry })
modify_channel-Inv p idx new_entry v at_idx within = record {
  listed =
      λ i e h. ground (arith, get_elem?-set p.pollfds idx new_entry i, v.listed i e, ==_iff idx i);
  indexed = λ k i h. elim (Bool-cases (idx == i)) [
    | inl same ↦
        let (e, g, ke) = v.indexed k i h in
        (
          new_entry,
          rw (get_elem?-set p.pollfds idx new_entry i within, same),
          same_key (idx_eq idx i same) g ke,
        )
    | inr other ↦
        let (e, g, ke) = v.indexed k i h in
        (e, rw (get_elem?-set p.pollfds idx new_entry i within, other) g, ke)
  ];
  known = v.known;
}
  where
    idx_eq : (a b : ℕ) → (a == b) ≡ true → a ≡ b
    idx_eq a b h = (==_iff a b).0 h

    same_key :
        {k : ℤ} {i : ℕ} {e : PollFd}
        → idx ≡ i
        → get_elem? p.pollfds i ≡ some e
        → key e.fd ≡ k
        → key new_entry.fd ≡ k
    same_key {k} {i} {e} ie g ke =
        let (e₀, g₀, k₀) = v.indexed (key new_entry.fd) idx at_idx in
        let same : some e₀ ≡ some e = sym g₀ ∙ ap (get_elem? p.pollfds) ie ∙ g in ground arith
