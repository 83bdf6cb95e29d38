-- ===== src/Poller/PollPoller/TakeOut.antt =====
-- How `RemoveChannel` of net/poller/PollPoller.cpp takes an entry out of the array.
use oula_server.Prelude.{
  ltb, ◌==◌, if◌then◌else◌, ==_refl, Bool-cases, length, get_elem?, set, take, ok, ℕ, zero, suc,
  ◌-◌, ◌<◌, ◌≢◌, ==_ne, lt→ltb, ==_iff, ◌≡◌, refl, sym, ◌∙◌, inl, inr, true, false, Option, none,
  some, List, [], ◌∷◌, arith,
}
use oula_server.Prelude.Int.{ℤ, pos, negsuc, eqb, eqb_iff, insert, erase, is_none}
use oula_server.Channel.{Channel, is_none_event, same_events}
use oula_server.Poller.{points_to}
use oula_server.Poller.PollPoller.{PollFd, PollPoller, take_out, remove_channel}
use oula_server.Poller.PollPoller.Containers.{key, Inv, get_elem?-lt, get_elem?-set}

-- The assertions of `RemoveChannel`: the channel is known, asks for nothing, and its entry, at `idx`,
-- is ignored.
pub record Removable (p : PollPoller) (ptr : ℕ) (c : Channel) (idx : ℕ) : Type 0 where
  pub entry : PollFd
  pub indexed_at : p.fd_in_pollfds_idx (pos c.fd) ≡ some idx
  pub is_known : points_to (p.channels (pos c.fd)) ptr ≡ true
  pub asks_nothing : is_none_event c ≡ true
  pub is_there : get_elem? p.pollfds idx ≡ some entry
  pub is_ignored : entry.fd ≡ negsuc c.fd
  pub same : same_events entry.events c.events ≡ true

abbrev pub forgotten : PollPoller → Channel → PollPoller
forgotten p c = record p { channels = erase (pos c.fd) p.channels }

pub remove_step :
    (p : PollPoller) (ptr : ℕ) (c : Channel) (idx : ℕ)
    → Removable p ptr c idx
    → remove_channel true p ptr c ≡ take_out (forgotten p c) c.fd idx
unfolding remove_channel
remove_step p ptr c idx r =
    let present : is_none (p.channels (pos c.fd)) ≡ false =
      present_of (p.channels (pos c.fd)) ptr r.is_known in
    rw (present, r.is_known, r.asks_nothing, r.indexed_at)
      (rw (r.is_there, r.is_ignored, ==_refl c.fd, r.same))
  where
    present_of : (o : Option ℕ) (q : ℕ) → points_to o q ≡ true → is_none o ≡ false
    present_of none q h = cc
    present_of (some a) q h = refl

pub get_elem?-take {ℓ} :
    {A : Type ℓ} (n : ℕ) (xs : List A) (i : ℕ)
    → get_elem? (take n xs) i ≡ (if ltb i n then get_elem? xs i else none)
get_elem?-take zero xs i = ground arith
get_elem?-take (suc n) [] i = ground arith
get_elem?-take (suc n) (x ∷ xs) zero = ground arith
get_elem?-take (suc n) (x ∷ xs) (suc i) = ground (arith, get_elem?-take n xs i)

-- Two keys do not share an index.
pub index_injective :
    (p : PollPoller) (k j : ℤ) (i : ℕ)
    → Inv p
    → p.fd_in_pollfds_idx k ≡ some i
    → p.fd_in_pollfds_idx j ≡ some i
    → k ≡ j
index_injective p k j i v h l =
    let (e, g, ke) = v.indexed k i h in
    let (f, g', kf) = v.indexed j i l in let same : some e ≡ some f = sym g ∙ g' in ground arith

-- The entry taken out is the last one.
abbrev pub popped : PollPoller → Channel → PollPoller
popped p c = record p {
  pollfds = take (length p.pollfds - 1) p.pollfds;
  channels = erase (pos c.fd) p.channels;
  fd_in_pollfds_idx = erase (pos c.fd) p.fd_in_pollfds_idx;
}

pub popped-Inv :
    (p : PollPoller) (ptr : ℕ) (c : Channel) (idx : ℕ)
    → Inv p
    → Removable p ptr c idx
    → idx ≡ length p.pollfds - 1
    → Inv (popped p c)
popped-Inv p ptr c idx v r last = record {
  listed = λ i e h. ground (
    arith,
    get_elem?-take (length p.pollfds - 1) p.pollfds i,
    v.listed i e,
    eqb_iff (pos c.fd) (key e.fd),
    r.indexed_at,
  );
  indexed = λ k i h. elim (Bool-cases (eqb (pos c.fd) k)) [
    | inl same ↦ absurd (ground arith)
    | inr other ↦
        let h' : p.fd_in_pollfds_idx k ≡ some i = rw other at h in
        let (e, g, ke) = v.indexed k i h' in
        (
          e,
          rw (get_elem?-take (length p.pollfds - 1) p.pollfds i) (
              ground (
                arith,
                g,
                get_elem?-lt p.pollfds i e g,
                index_injective p (pos c.fd) k i v,
                r.indexed_at,
                h',
                eqb_iff (pos c.fd) k,
              )),
          ke,
        )
  ];
  known = λ k. ground (arith, v.known k);
}

-- The last entry takes the place of the one taken out.
abbrev pub swapped : PollPoller → Channel → ℕ → PollFd → PollPoller
swapped p c idx last = record p {
  pollfds = take (length p.pollfds - 1) (set p.pollfds idx last);
  channels = erase (pos c.fd) p.channels;
  fd_in_pollfds_idx = erase (pos c.fd) (insert last.fd idx p.fd_in_pollfds_idx);
}

pub take_out_lem :
    (p : PollPoller) (c : Channel) (idx : ℕ) (last : PollFd)
    → get_elem? p.pollfds (length p.pollfds - 1) ≡ some last
    → take_out (forgotten p c) c.fd idx
      ≡ ok (if idx == length p.pollfds - 1 then popped p c else swapped p c idx last)
unfolding take_out
take_out_lem p c idx last h = elim (Bool-cases (idx == length p.pollfds - 1)) [
  | inl e ↦ rw e
  | inr e ↦ rw (e, h)
]

pub swapped-Inv :
    (p : PollPoller) (ptr : ℕ) (c : Channel) (idx : ℕ) (last : PollFd) (g : ℕ)
    → Inv p
    → Removable p ptr c idx
    → get_elem? p.pollfds (length p.pollfds - 1) ≡ some last
    → idx ≢ length p.pollfds - 1
    → last.fd ≡ pos g
    → Inv (swapped p c idx last)
swapped-Inv p ptr c idx last g v r there ne enabled = record {
  listed = λ i e h. ground (
    arith,
    get_elem?-take n (set p.pollfds idx last) i,
    get_elem?-set p.pollfds idx last i within,
    v.listed i e,
    v.listed n last there,
    eqb_iff (pos c.fd) (key e.fd),
    eqb_iff last.fd (key e.fd),
    ==_iff idx i,
    r.indexed_at,
    enabled,
  );
  indexed = λ k i h. moved k i h;
  known = λ k. ground (arith, v.known k, v.listed n last there, eqb_iff last.fd k, enabled);
}
  where
    n : ℕ
    n = length p.pollfds - 1

    within : idx < length p.pollfds
    within = get_elem?-lt p.pollfds idx r.entry r.is_there

    moved :
        (k : ℤ) (i : ℕ)
        → (swapped p c idx last).fd_in_pollfds_idx k ≡ some i
        → (e : PollFd) × (get_elem? (swapped p c idx last).pollfds i ≡ some e) × (key e.fd ≡ k)
    moved k i h = elim (Bool-cases (eqb (pos c.fd) k)) [
      | inl same ↦ absurd (ground arith)
      | inr other ↦
          let gone = index_injective p (pos c.fd) k idx v r.indexed_at in
          elim (Bool-cases (eqb last.fd k)) [
            | inl its ↦
                let at_idx : idx ≡ i = ground arith in
                let before : idx < n = omega (arith, within) in
                let as_last : (idx == i) ≡ true = (==_iff idx i).1 at_idx in
                let shorter : ltb i n ≡ true = lt→ltb i n (omega arith) in
                (
                  last,
                  rw (
                    get_elem?-take n (set p.pollfds idx last) i,
                    get_elem?-set p.pollfds idx last i within,
                    as_last,
                    shorter,
                  ),
                  ground (arith, eqb_iff last.fd k),
                )
            | inr elsewhere ↦
                let h' : p.fd_in_pollfds_idx k ≡ some i = rw (other, elsewhere) at h in
                let (e, g, ke) = v.indexed k i h' in
                let away : (idx == i) ≡ false =
                  ==_ne idx i (λ e. ground (arith, gone, h', eqb_iff (pos c.fd) k)) in
                let up_to = get_elem?-lt p.pollfds i e g in
                let not_last : i ≢ n =
                  (λ e'. ground (arith, g, there, elsewhere, eqb_iff last.fd k, enabled)) in
                let shorter : ltb i n ≡ true = lt→ltb i n (omega arith) in
                (
                  e,
                  rw
                      (
                        get_elem?-take n (set p.pollfds idx last) i,
                        get_elem?-set p.pollfds idx last i within,
                        away,
                        shorter,
                      )
                      g,
                  ke,
                )
          ]
    ]
