-- ===== src/EventLoop/Wakeup.antt =====
-- The functors of net/Eventloop.cpp under any interleaving of the loop's thread with others.
use oula_server.Prelude.{
  ◌⊎◌, inr, inl, if◌then◌else◌, ℕ, ◌+◌, ◌<◌, ◌≡◌, refl, sym, ap, ◌∙◌, ◌≢◌, Bool, true, false, List,
  [], ◌∷◌, ◌++◌, append-nil, append_assoc, arith,
}
use oula_server.EventLoop.{
  enter_loop, queue_early, Phase, starting, polling, handling, calling, running, EventLoop, new,
  wakeup, notify, queue_in_loop, other_pushes, other_notifies, poll_returns,
  handle_wakeup_channel_read, begin_pending, swap_pending, run_first, run_functor, end_pending,
}

abbrev pub is_empty : List ℕ → Bool
is_empty [] = true
is_empty (x ∷ xs) = false

-- One step of some thread. The loop's own thread queues functors before `loop()`, from a handler or from a
-- functor.
pub data Step : EventLoop → EventLoop → Type 0 where
  pushes : (l : EventLoop) (f : ℕ) → Step l (other_pushes f l)
  notifies : (l : EventLoop) → 0 < l.on_the_way → Step l (other_notifies l)
  queues_early : (l : EventLoop) (f : ℕ) → l.phase ≡ starting → Step l (queue_early f l)
  starts : (l : EventLoop) → l.phase ≡ starting → Step l (enter_loop l)
  polls : (l : EventLoop) → l.phase ≡ polling → Step l (poll_returns l)
  reads_wakeup : (l : EventLoop) → l.phase ≡ handling → Step l (handle_wakeup_channel_read l)
  handler_queues : (l : EventLoop) (f : ℕ) → l.phase ≡ handling → Step l (queue_in_loop true f l)
  begins : (l : EventLoop) → l.phase ≡ handling → Step l (begin_pending l)
  swaps : (l : EventLoop) → l.phase ≡ calling → Step l (swap_pending l)
  runs : (l : EventLoop) → l.phase ≡ running → Step l (run_functor l)
  functor_queues : (l : EventLoop) (f : ℕ) → l.phase ≡ running → Step l (queue_in_loop true f l)
  ends : (l : EventLoop) → l.phase ≡ running → is_empty l.batch ≡ true → Step l (end_pending l)

pub data Reached : EventLoop → Type 0 where
  at_first : Reached new
  then_step : {l : EventLoop} {l' : EventLoop} → Reached l → Step l l' → Reached l'

-- Before the swap the pending functors are about to be taken, and need no wake-up.
abbrev needs_wakeup : Phase → Bool
needs_wakeup handling = false
needs_wakeup calling = false
needs_wakeup _ = true

abbrev in_functors : Phase → Bool
in_functors calling = true
in_functors running = true
in_functors _ = false

record Inv (l : EventLoop) : Type 0 where
  order : l.queued ≡ l.ran ++ (l.batch ++ l.pending_functors)
  flag : l.is_calling_pending_functors ≡ in_functors l.phase
  no_batch : l.phase ≢ running → l.batch ≡ []
  awake :
      needs_wakeup l.phase ≡ true → (l.pending_functors ≡ l.early) ⊎ (0 < l.wakeups + l.on_the_way)

pushed_order :
    (q r b p : List ℕ) (f : ℕ) → q ≡ r ++ (b ++ p) → q ++ f ∷ [] ≡ r ++ (b ++ (p ++ f ∷ []))
pushed_order q r b p f e = rw (e, append_assoc r (b ++ p) (f ∷ []), append_assoc b p (f ∷ []))

Inv-if :
    (b : Bool) {l l' : EventLoop}
    → (b ≡ true → Inv l)
    → (b ≡ false → Inv l')
    → Inv (if b then l else l')
Inv-if true f g = f refl
Inv-if false f g = g refl

-- The loop's own thread queues: it wakes itself up when the pending functors were swapped out.
own-Inv :
    (l : EventLoop) (f : ℕ)
    → Inv l
    → (l.is_calling_pending_functors ≡ false → needs_wakeup l.phase ≡ false)
    → Inv (queue_in_loop true f l)
unfolding queue_in_loop notify wakeup
own-Inv l f v quiet =
    Inv-if l.is_calling_pending_functors
      (λ busy. record {
        order = pushed_order l.queued l.ran l.batch l.pending_functors f v.order;
        flag = v.flag;
        no_batch = v.no_batch;
        awake = λ n. inr (omega arith);
      })
      (λ idle. record {
        order = pushed_order l.queued l.ran l.batch l.pending_functors f v.order;
        flag = v.flag;
        no_batch = v.no_batch;
        awake = λ n. absurd (ground (arith, quiet idle));
      })

-- Before `loop()` the own thread queues without a wake-up.
early-Inv : (l : EventLoop) (f : ℕ) → Inv l → l.phase ≡ starting → Inv (queue_early f l)
unfolding queue_early queue_in_loop notify wakeup
early-Inv l f v h =
    let idle : l.is_calling_pending_functors ≡ false = v.flag ∙ ap in_functors h in
    rw idle (record {
      order = pushed_order l.queued l.ran l.batch l.pending_functors f v.order;
      flag = sym idle ∙ v.flag;
      no_batch = v.no_batch;
      awake =
          λ n. elim (v.awake n) [ inl same ↦ inl (ap (λ p. p ++ f ∷ []) same) | inr on ↦ inr on ];
    })

start-Inv : (l : EventLoop) → Inv l → l.phase ≡ starting → Inv (enter_loop l)
unfolding enter_loop
start-Inv l v h = record {
  order = v.order;
  flag = ground (arith, v.flag, ap in_functors h);
  no_batch = λ ne. v.no_batch (λ e. cc);
  awake = λ n. v.awake (ap needs_wakeup h);
}

-- One functor of the batch runs.
run-Inv : (l : EventLoop) → Inv l → l.phase ≡ running → Inv (run_first l.batch l)
run-Inv l v h = go l.batch refl
  where
    go : (b : List ℕ) → l.batch ≡ b → Inv (run_first b l)
    go [] e = v
    go (f ∷ fs) e = record {
      order =
          v.order
          ∙ ap (λ b. l.ran ++ (b ++ l.pending_functors)) e
          ∙ sym (append_assoc l.ran (f ∷ []) (fs ++ l.pending_functors));
      flag = v.flag;
      no_batch = λ ne. absurd (ne h);
      awake = v.awake;
    }

swap-Inv : (l : EventLoop) → Inv l → l.phase ≡ calling → Inv (swap_pending l)
unfolding swap_pending
swap-Inv l v h = record {
  order =
      v.order
      ∙ ap (λ b. l.ran ++ (b ++ l.pending_functors)) (v.no_batch (λ e. cc))
      ∙ ap (λ p. l.ran ++ p) (sym (append-nil l.pending_functors));
  flag = v.flag ∙ ap in_functors h;
  no_batch = λ ne. absurd (ne refl);
  awake = λ n. inl refl;
}

end-Inv :
    (l : EventLoop) → Inv l → l.phase ≡ running → is_empty l.batch ≡ true → Inv (end_pending l)
unfolding end_pending
end-Inv l v h e = record {
  order = v.order;
  flag = ground arith;
  no_batch = λ ne. none_left l.batch e;
  awake = λ n. v.awake (ap needs_wakeup h);
}
  where
    none_left : (xs : List ℕ) → is_empty xs ≡ true → xs ≡ []
    none_left [] h = refl
    none_left (x ∷ xs) h = cc

Step-Inv : {l : EventLoop} {l' : EventLoop} → Inv l → Step l l' → Inv l'
unfolding other_pushes other_notifies notify wakeup queue_in_loop poll_returns
    handle_wakeup_channel_read begin_pending swap_pending run_functor end_pending
Step-Inv v (pushes l f) = record {
  order = pushed_order l.queued l.ran l.batch l.pending_functors f v.order;
  flag = v.flag;
  no_batch = v.no_batch;
  awake = λ n. inr (omega arith);
}
Step-Inv v (notifies l h) = record {
  order = v.order;
  flag = v.flag;
  no_batch = v.no_batch;
  awake = λ n. inr (omega arith);
}
Step-Inv v (queues_early l f h) = early-Inv l f v h
Step-Inv v (starts l h) = start-Inv l v h
Step-Inv v (polls l h) = record {
  order = v.order;
  flag = v.flag ∙ ap in_functors h;
  no_batch = λ ne. v.no_batch (ground (arith, h));
  awake = λ n. cc;
}
Step-Inv v (reads_wakeup l h) = record {
  order = v.order;
  flag = v.flag;
  no_batch = v.no_batch;
  awake = λ n. absurd (ground (arith, h));
}
Step-Inv v (handler_queues l f h) = own-Inv l f v (λ idle. ap needs_wakeup h)
Step-Inv v (begins l h) = record {
  order = v.order;
  flag = refl;
  no_batch = λ ne. v.no_batch (ground (arith, h));
  awake = λ n. cc;
}
Step-Inv v (swaps l h) = swap-Inv l v h
Step-Inv v (runs l h) = run-Inv l v h
Step-Inv v (functor_queues l f h) = own-Inv l f v (λ idle. ground (arith, v.flag, h))
Step-Inv v (ends l h e) = end-Inv l v h e

Reached-Inv : {l : EventLoop} → Reached l → Inv l
unfolding new
Reached-Inv at_first = record {
  order = refl;
  flag = refl;
  no_batch = λ ne. refl;
  awake = λ n. inl refl;
}
Reached-Inv (then_step r s) = Step-Inv (Reached-Inv r) s

-- In every state that a loop comes to from its constructor on, however its steps and those of other threads
-- are interleaved: the functors queued so far are, in order, those that have run, those swapped out and
-- those still pending, so none is lost, run twice or overtaken; and when the loop's thread waits in
-- `poll`, the wake-up counter is positive, or another thread is about to add to it, or no functor is
-- pending but those that the loop's own thread queued before `loop()`, which no pass has taken yet.
pub Reached-no_lost_wakeup :
    {l : EventLoop}
    → Reached l
    → (l.queued ≡ l.ran ++ (l.batch ++ l.pending_functors))
      × (l.phase ≡ polling → (l.pending_functors ≡ l.early) ⊎ (0 < l.wakeups + l.on_the_way))
Reached-no_lost_wakeup r = let v = Reached-Inv r in (v.order, λ h. v.awake (ap needs_wakeup h))
