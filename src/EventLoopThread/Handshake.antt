-- ===== src/EventLoopThread/Handshake.antt =====
-- EventLoopThread: what `startLoop` returns, and that it is not left asleep.
use mynuduo.Base.{ℕ, ◌≡◌, refl, sym, ap, subst, ◌∙◌, Bool, true, false, not, Option, none, some}
use mynuduo.EventLoopThread.{
  Worker, starting, ready, published, running, ended, Waiter, checking, sleeping, returned,
  quitting_loop, joining, destroyed, crashed, notify_one, EventLoopThread, Step, call_back, publish,
  loop_begins, user_quits, loop_ends, finds_null, finds_loop, wakes_up, destroys_ended, sees_loop,
  quits, quits_null, joins, Reach, here, next,
}

-- The loop of the thread is there.
abbrev pub has_loop : Worker → Bool
has_loop published = true
has_loop running = true
has_loop _ = false

abbrev pub in_start_loop : Waiter → Bool
in_start_loop checking = true
in_start_loop sleeping = true
in_start_loop _ = false

abbrev is_starting : Worker → Bool
is_starting starting = true
is_starting _ = false

abbrev pub is_ended : Worker → Bool
is_ended ended = true
is_ended _ = false

-- `loop_` has been set.
abbrev pub was_published : Worker → Bool
was_published starting = false
was_published ready = false
was_published _ = true

module _ (a : ℕ) where
  -- What `loop_` holds.
  abbrev pub loop_of : Worker → Option ℕ
  loop_of published = some a
  loop_of running = some a
  loop_of _ = none

  -- What holds of the owner beside the new thread.
  abbrev pub WaitsWell : Waiter → Worker → Type 0
  WaitsWell checking w = Unit {0}
  WaitsWell sleeping w = has_loop w ≡ false
  WaitsWell (returned l) w = (l ≡ a) × (was_published w ≡ true)
  WaitsWell quitting_loop w = was_published w ≡ true
  WaitsWell joining w = was_published w ≡ true
  WaitsWell destroyed w = is_ended w ≡ true
  WaitsWell crashed w = is_ended w ≡ true

  pub record Inv (s : EventLoopThread) : Type 0 where
    pub loop : s.loop ≡ loop_of s.worker
    pub initialised : s.initialised ≡ not (is_starting s.worker)
    pub waiter : WaitsWell s.waiter s.worker

  true_is_false : true ≡ false → ⊥
  true_is_false q = cc

  called : (x : Waiter) → WaitsWell x starting → WaitsWell x ready
  called checking r = tt
  called sleeping r = refl
  called (returned l) r = (r.0, r.1)
  called quitting_loop r = r
  called joining r = r
  called destroyed r = r
  called crashed r = r

  notified : (x : Waiter) → WaitsWell x ready → WaitsWell (notify_one x) published
  notified checking r = tt
  notified sleeping r = tt
  notified (returned l) r = (r.0, refl)
  notified quitting_loop r = refl
  notified joining r = refl
  notified destroyed r = r
  notified crashed r = r

  begun : (x : Waiter) → WaitsWell x published → WaitsWell x running
  begun checking r = tt
  begun sleeping r = r
  begun (returned l) r = r
  begun quitting_loop r = r
  begun joining r = r
  begun destroyed r = r
  begun crashed r = r

  over : (x : Waiter) → WaitsWell x running → WaitsWell x ended
  over checking r = tt
  over sleeping r = refl
  over (returned l) r = r
  over quitting_loop r = r
  over joining r = r
  over destroyed r = refl
  over crashed r = refl

  has_loop-loop_of : (w : Worker) → has_loop w ≡ true → loop_of w ≡ some a
  has_loop-loop_of starting h = cc
  has_loop-loop_of ready h = cc
  has_loop-loop_of published h = refl
  has_loop-loop_of running h = refl
  has_loop-loop_of ended h = cc

  loop_known : (w : Worker) (l : ℕ) → loop_of w ≡ some l → (l ≡ a) × (was_published w ≡ true)
  loop_known starting l h = cc
  loop_known ready l h = cc
  loop_known published l h = (cc, refl)
  loop_known running l h = (cc, refl)
  loop_known ended l h = cc

  no_loop : (w : Worker) → loop_of w ≡ none → has_loop w ≡ false
  no_loop starting h = refl
  no_loop ready h = refl
  no_loop published h = cc
  no_loop running h = cc
  no_loop ended h = refl

  gone : (w : Worker) → was_published w ≡ true → loop_of w ≡ none → is_ended w ≡ true
  gone starting h k = cc
  gone ready h k = cc
  gone published h k = cc
  gone running h k = cc
  gone ended h k = refl

  begun_early : (w : Worker) → was_published w ≡ true → is_starting w ≡ false
  begun_early starting h = absurd (true_is_false (sym h))
  begun_early ready h = refl
  begun_early published h = refl
  begun_early running h = refl
  begun_early ended h = refl

  -- What the invariant says of the owner where it stands at `x`, or of the new thread at `w`.
  pub at : {s : EventLoopThread} (x : Waiter) → s.waiter ≡ x → Inv s → WaitsWell x s.worker
  at {s} x e v = subst (λ x. WaitsWell x s.worker) e v.waiter

  beside : {s : EventLoopThread} (w : Worker) → s.worker ≡ w → Inv s → WaitsWell s.waiter w
  beside {s} w e v = subst (WaitsWell s.waiter) e v.waiter

  Step-Inv : {s t : EventLoopThread} → Step a s t → Inv s → Inv t
  Step-Inv {s} (call_back e) v = record {
    loop = v.loop ∙ ap loop_of e;
    initialised = refl;
    waiter = called s.waiter (beside _ e v);
  }
  Step-Inv {s} (publish e) v = record {
    loop = refl;
    initialised = v.initialised ∙ ap (λ w. not (is_starting w)) e;
    waiter = notified s.waiter (beside _ e v);
  }
  Step-Inv {s} (loop_begins e) v = record {
    loop = v.loop ∙ ap loop_of e;
    initialised = v.initialised ∙ ap (λ w. not (is_starting w)) e;
    waiter = begun s.waiter (beside _ e v);
  }
  Step-Inv {s} (user_quits l e) v = record {
    loop = v.loop;
    initialised = v.initialised;
    waiter = v.waiter;
  }
  Step-Inv {s} (loop_ends e q) v = record {
    loop = refl;
    initialised = v.initialised ∙ ap (λ w. not (is_starting w)) e;
    waiter = over s.waiter (beside _ e v);
  }
  Step-Inv {s} (finds_null e n) v = record {
    loop = v.loop;
    initialised = v.initialised;
    waiter = no_loop s.worker (sym v.loop ∙ n);
  }
  Step-Inv {s} (finds_loop l e n) v = record {
    loop = v.loop;
    initialised = v.initialised;
    waiter = loop_known s.worker l (sym v.loop ∙ n);
  }
  Step-Inv {s} (wakes_up e) v = record { loop = v.loop; initialised = v.initialised; waiter = tt }
  Step-Inv {s} (destroys_ended l e n) v = record {
    loop = v.loop;
    initialised = v.initialised;
    waiter = gone s.worker (at (returned l) e v).1 (sym v.loop ∙ n);
  }
  Step-Inv {s} (sees_loop l m e n) v = record {
    loop = v.loop;
    initialised = v.initialised;
    waiter = (at (returned l) e v).1;
  }
  Step-Inv {s} (quits m e n) v = record {
    loop = v.loop;
    initialised = v.initialised;
    waiter = at quitting_loop e v;
  }
  Step-Inv {s} (quits_null e n) v = record {
    loop = v.loop;
    initialised = v.initialised;
    waiter = gone s.worker (at quitting_loop e v) (sym v.loop ∙ n);
  }
  Step-Inv {s} (joins e d) v = record {
    loop = v.loop;
    initialised = v.initialised;
    waiter = ap is_ended d;
  }

  pub Reach-Inv_of : {s : EventLoopThread} → Reach a s → Inv s
  Reach-Inv_of here = record { loop = refl; initialised = refl; waiter = tt }
  Reach-Inv_of (next r st) = Step-Inv st (Reach-Inv_of r)

  -- In every state that the two threads can reach: what `startLoop` has returned is the loop of the
  -- new thread, never null, and the callback has been called before.
  pub start_loop-returned :
      {s : EventLoopThread} (l : ℕ)
      → Reach a s
      → s.waiter ≡ returned l
      → (l ≡ a) × (s.initialised ≡ true)
  start_loop-returned {s} l r e =
      let v = Reach-Inv_of r in
      let (same, known) = at (returned l) e v in
      (same, v.initialised ∙ ap not (begun_early s.worker known))

  -- In every state that the two threads can reach where the loop is published and has not ended:
  -- an owner still in `startLoop` is not left asleep, it returns that loop in one step.
  pub start_loop-awake :
      {s : EventLoopThread}
      → Reach a s
      → has_loop s.worker ≡ true
      → in_start_loop s.waiter ≡ true
      → Step a s (record s { waiter = returned a })
  start_loop-awake {s} r there waiting = by_waiter s.waiter refl
    where
      v : Inv s
      v = Reach-Inv_of r

      by_waiter : (x : Waiter) → s.waiter ≡ x → Step a s (record s { waiter = returned a })
      by_waiter checking h = finds_loop a h (v.loop ∙ has_loop-loop_of s.worker there)
      by_waiter sleeping h = absurd (true_is_false (sym there ∙ at sleeping h v))
      by_waiter (returned l) h = absurd (true_is_false (sym waiting ∙ ap in_start_loop h))
      by_waiter quitting_loop h = absurd (true_is_false (sym waiting ∙ ap in_start_loop h))
      by_waiter joining h = absurd (true_is_false (sym waiting ∙ ap in_start_loop h))
      by_waiter destroyed h = absurd (true_is_false (sym waiting ∙ ap in_start_loop h))
      by_waiter crashed h = absurd (true_is_false (sym waiting ∙ ap in_start_loop h))
