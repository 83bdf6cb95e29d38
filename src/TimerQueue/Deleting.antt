-- ===== src/TimerQueue/Deleting.antt =====
-- A timer of net/TimerQueue.cpp that is taken out and deleted.
use oula_server.Prelude.{
  ◌==◌, ==_iff, Bool-cases, some_eq, ℕ, ◌≡◌, sym, ap, ap₂, ◌∙◌, inl, inr, true, false, not, ◌&&◌,
  none, some, List, arith,
}
use oula_server.Prelude.Sets
use oula_server.Timestamp.{Timer}
use oula_server.TimerQueue.{Entry, ActiveTimer, entry_less, active_less, TimerQueue, write}
use oula_server.TimerQueue.Books.{entry-Order, active-Order, is_loose, Inv, Backed, Listed, Loose}

abbrev pub cancelled : TimerQueue → ActiveTimer → Timer → TimerQueue
cancelled q id t = record q {
  timers = Sets.erase entry_less (t.expiration, id.0) q.timers;
  memory = write id.0 none q.memory;
  active_timers = Sets.erase active_less id q.active_timers;
}

-- A deleted timer is not among the others.
kept :
    (q : TimerQueue) (p k : ℕ) (t : Timer)
    → (p == k) ≡ false
    → q.memory k ≡ some t
    → write p none q.memory k ≡ some t
kept q p k t n h = rw (n, h)

pub cancelled-Inv :
    (q : TimerQueue) (loose : List Entry) (id : ActiveTimer) (t : Timer)
    → Inv q loose
    → Sets.member active_less id q.active_timers ≡ true
    → q.memory id.0 ≡ some t
    → t.seq ≡ id.1
    → Sets.member entry_less (t.expiration, id.0) q.timers ≡ true
    → Inv (cancelled q id t) loose
cancelled-Inv q loose id t v is_active there num is_pending = record {
  timers_sorted =
      Sets.erase-Sorted entry_less entry-Order (t.expiration, id.0) q.timers v.timers_sorted;
  active_sorted = Sets.erase-Sorted active_less active-Order id q.active_timers v.active_sorted;
  sizes = omega (
    arith,
    Sets.length-erase entry_less entry-Order (t.expiration, id.0) q.timers is_pending,
    Sets.length-erase active_less active-Order id q.active_timers is_active,
    v.sizes,
  );
  pending = pending_now;
  active = active_now;
  loose_live = loose_now;
  loose_distinct = v.loose_distinct;
  addresses = λ k x h. ground (arith, v.addresses k x);
  numbers = λ k x h. ground (arith, v.numbers k x);
}
  where
    in_active :
        (a : ActiveTimer)
        → Sets.member active_less a (cancelled q id t).active_timers
          ≡ not (Sets.same active_less a id) && Sets.member active_less a q.active_timers
    in_active a = Sets.member-erase active_less active-Order id a q.active_timers v.active_sorted

    in_timers :
        (e : Entry)
        → Sets.member entry_less e (cancelled q id t).timers
          ≡ not (Sets.same entry_less e (t.expiration, id.0)) && Sets.member entry_less e q.timers
    in_timers e =
        Sets.member-erase entry_less entry-Order (t.expiration, id.0) e q.timers v.timers_sorted

    owner : (k : ℕ) (x : Timer) → id.0 ≡ k → q.memory k ≡ some x → x ≡ t
    owner k x e m = some_eq (sym m ∙ ap q.memory (sym e) ∙ there)

    pending_now :
        (e : Entry)
        → Sets.member entry_less e (cancelled q id t).timers ≡ true
        → Backed (cancelled q id t) e
    pending_now e h =
        let (x, m, w, a) = v.pending e (ground (arith, in_timers e)) in
        elim (Bool-cases (id.0 == e.1)) [
          | inl here ↦
              let k = (==_iff id.0 e.1).0 here in
              let xt = owner e.1 x k m in
              let it : e ≡ (t.expiration, id.0) =
                ap₂ (λ w p. (w, p)) (sym w ∙ ap (λ (z : Timer). z.expiration) xt) (sym k) in
              absurd (
                ground (
                  arith,
                  in_timers e,
                  ap (Sets.same entry_less e) (sym it) ∙ Sets.same_refl entry_less entry-Order e,
                ))
          | inr ne ↦ (
            x,
            kept q id.0 e.1 x ne m,
            w,
            ground (
              arith,
              in_active (e.1, x.seq),
              Sets.same_eq active_less active-Order (e.1, x.seq) id,
              ==_iff id.0 e.1,
            ),
          )
        ]

    active_now :
        (a : ActiveTimer)
        → Sets.member active_less a (cancelled q id t).active_timers ≡ true
        → Listed (cancelled q id t) a
    active_now a h =
        let (x, m, s, e) = v.active a (ground (arith, in_active a)) in
        elim (Bool-cases (id.0 == a.0)) [
          | inl here ↦
              let k = (==_iff id.0 a.0).0 here in
              let xt = owner a.0 x k m in
              let it : a ≡ id =
                ap₂ (λ p n. (p, n)) (sym k) (sym s ∙ ap (λ (z : Timer). z.seq) xt ∙ num) in
              absurd (
                ground (
                  arith,
                  in_active a,
                  ap (Sets.same active_less a) (sym it) ∙ Sets.same_refl active_less active-Order a,
                ))
          | inr ne ↦ (
            x,
            kept q id.0 a.0 x ne m,
            s,
            ground (
              arith,
              in_timers (x.expiration, a.0),
              Sets.same_eq entry_less entry-Order (x.expiration, a.0) (t.expiration, id.0),
              ==_iff id.0 a.0,
            ),
          )
        ]

    loose_now : (k : ℕ) → is_loose k loose ≡ true → Loose (cancelled q id t) k
    loose_now k h =
        let (x, m, n) = v.loose_live k h in
        elim (Bool-cases (id.0 == k)) [
          | inl here ↦
              let e = (==_iff id.0 k).0 here in
              let xt = owner k x e m in
              let it : (k, x.seq) ≡ id =
                ap₂ (λ p n. (p, n)) (sym e) (ap (λ (z : Timer). z.seq) xt ∙ num) in
              absurd (ground (arith, ap (λ a. Sets.member active_less a q.active_timers) it))
          | inr ne ↦ (x, kept q id.0 k x ne m, ground (arith, in_active (k, x.seq)))
        ]
