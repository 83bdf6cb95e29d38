-- ===== src/TimerQueue/Due.antt =====
-- `getExpired` of net/TimerQueue.cpp against a plain definition of what is due.
use oula_server.Prelude.{
  if◌then◌else◌, ok, ◌≡◌, refl, sym, ap, subst, ◌∙◌, Bool, true, false, List, [], ◌∷◌, ◌++◌, arith,
}
use oula_server.Prelude.Sets
use oula_server.Timestamp.{Timestamp, less}
use oula_server.TimerQueue.{Entry, entry_less, TimerQueue, get_expired}
use oula_server.TimerQueue.Books.{Inv, entry-Order}
use oula_server.TimerQueue.Expiry.{get_expired-Expired}

-- The entries whose time is not after `now`, or those whose time is, one by one
abbrev pub select : Bool → Timestamp → List Entry → List Entry
select later now [] = []
select later now (e ∷ es) =
    let rest = select later now es in
    if less now e.0 then (if later then e ∷ rest else rest) else if later then rest else e ∷ rest

abbrev AllAre : Bool → Timestamp → List Entry → Type 0
AllAre b now [] = Unit {0}
AllAre b now (e ∷ es) = (less now e.0 ≡ b) × AllAre b now es

every_member :
    (b : Bool) (now : Timestamp) (es : List Entry)
    → ((e : Entry) → Sets.member entry_less e es ≡ true → less now e.0 ≡ b)
    → AllAre b now es
every_member b now [] h = tt
every_member b now (e ∷ es) h = (
  h e (rw (Sets.same_refl entry_less entry-Order e) refl),
  every_member b now es (λ c k. h c (ground (arith, k))),
)

select-none : (now : Timestamp) (es : List Entry) → AllAre true now es → select false now es ≡ []
select-none now [] h = refl
select-none now (e ∷ es) (l, h) = rw (l, select-none now es h) refl

select-all : (now : Timestamp) (es : List Entry) → AllAre true now es → select true now es ≡ es
select-all now [] h = refl
select-all now (e ∷ es) (l, h) = rw (l, select-all now es h) refl

select-due :
    (now : Timestamp) (es es' : List Entry)
    → AllAre false now es
    → AllAre true now es'
    → select false now (es ++ es') ≡ es
select-due now [] es' h k = select-none now es' k
select-due now (e ∷ es) es' (n, h) k = rw (n, select-due now es es' h k) refl

select-later :
    (now : Timestamp) (es es' : List Entry)
    → AllAre false now es
    → AllAre true now es'
    → select true now (es ++ es') ≡ es'
select-later now [] es' h k = select-all now es' k
select-later now (e ∷ es) es' (n, h) k = rw n (select-later now es es' h k)

-- `getExpired`, on a queue whose books are right: no assertion fails, and although it searches the sorted
-- set for one bound only, it returns exactly the entries whose time is not after `now`, in their order,
-- and keeps exactly the others; the books are right with the returned timers loose, and none is freed.
pub get_expired-select :
    (q : TimerQueue) (now : Timestamp)
    → Inv q []
    → (q' : TimerQueue) × (get_expired now q ≡ ok (q', select false now q.timers))
      × (q'.timers ≡ select true now q.timers)
      × Inv q' (select false now q.timers)
      × (q'.memory ≡ q.memory)
get_expired-select q now v =
    let (q', expired, run, x) = get_expired-Expired q now v in
    let due = every_member false now expired x.expired_due in
    let rest = every_member true now q'.timers x.rest_later in
    let these : expired ≡ select false now q.timers =
      sym (select-due now expired q'.timers due rest) ∙ ap (select false now) x.all in
    (
      q',
      run ∙ ap (λ es. ok (q', es)) these,
      sym (select-later now expired q'.timers due rest) ∙ ap (select true now) x.all,
      subst (Inv q') these x.books,
      x.same_memory,
    )
