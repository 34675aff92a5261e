-- ===== src/EventLoop/Threads.antt =====
-- EventLoop under several threads: `queueInLoop` and `quit` from other threads, in their atomic parts,
-- against the loop's own thread before, in and after `loop`, as a step relation.
use mynuduo.Base.{
  if_rule, ℕ, suc, ◌+◌, ◌<◌, ◌≡◌, ◌≢◌, refl, subst, ◌∙◌, sym, ap, Bool, true, false, List, [], ◌∷◌,
  ◌++◌, append_assoc, append-nil, arith,
}
use mynuduo.EventLoop.{EventLoop, new, push, wakeup, handle_read, queue_in_loop, quit}

-- Where the loop's thread is: outside `loop`, in `poll`, calling the active channels' handlers, or in
-- `doPendingFunctors` with these functors still to call.
pub data Phase (F : Type 0) : Type 0 where
  outside polling handling : Phase F
  calling : List F → Phase F

abbrev pub left : {F : Type 0} → Phase F → List F
left outside = []
left polling = []
left handling = []
left (calling fs) = fs

-- `writers` counts the other threads that have pushed a functor, or set `quit_`, and not yet written the
-- eventfd; `early` says that the loop's own thread has queued a functor outside `loop`, for which
-- nothing is written, and that no round has taken the functors since; `ran` lists the functors called,
-- `queued` those handed over, oldest first.
pub record System (F : Type 0) : Type 0 where
  pub loop : EventLoop F
  pub phase : Phase F
  pub writers : ℕ
  pub early : Bool
  pub ran : List F
  pub queued : List F

abbrev pub start : (F : Type 0) → System F
start F = record {
  loop = new F;
  phase = outside;
  writers = 0;
  early = false;
  ran = [];
  queued = [];
}

abbrev pub is_polling : {F : Type 0} → Phase F → Bool
is_polling polling = true
is_polling _ = false

true_is_false : true ≡ false → ⊥
true_is_false h = cc

module _ {F : Type 0} where
  -- One step of a thread. `poll` may return at any time, since other descriptors may be ready. In
  -- `enters_and_ends` another thread sets `quit_` between its reset by `loop` and the first test of it.
  pub data Step (s : System F) : System F → Type 0 where
    other_push :
        (f : F)
        → Step s (record s {
          loop = push f s.loop;
          writers = suc s.writers;
          queued = s.queued ++ f ∷ [];
        })
    other_wake :
        (n : ℕ) → s.writers ≡ suc n → Step s (record s { loop = wakeup s.loop; writers = n })
    other_quits :
        Step s (record s { loop = record (s.loop) { quitting = true }; writers = suc s.writers })
    owner_queues :
        (f : F)
        → s.phase ≡ outside
        → Step s (record s {
          loop = queue_in_loop true f s.loop;
          queued = s.queued ++ f ∷ [];
          early = true;
        })
    enters :
        s.phase ≡ outside
        → Step s (record s {
          loop = record (s.loop) { looping = true; quitting = false };
          phase = polling;
        })
    enters_and_ends :
        s.phase ≡ outside
        → Step s (record s {
          loop = record (s.loop) { looping = false; quitting = true };
          writers = suc s.writers;
        })
    owner_quits : is_polling s.phase ≡ false → Step s (record s { loop = quit true s.loop })
    poll_returns : s.phase ≡ polling → Step s (record s { phase = handling })
    wakeup_handled : s.phase ≡ handling → Step s (record s { loop = handle_read s.loop })
    handler_queues :
        (f : F)
        → s.phase ≡ handling
        → Step s (record s { loop = queue_in_loop true f s.loop; queued = s.queued ++ f ∷ [] })
    swap :
        s.phase ≡ handling
        → Step s (record s {
          loop = record (s.loop) { pending = []; calling_pending = true };
          phase = calling s.loop.pending;
          early = false;
        })
    call :
        (f : F) (fs : List F)
        → s.phase ≡ calling (f ∷ fs)
        → Step s (record s { phase = calling fs; ran = s.ran ++ f ∷ [] })
    functor_queues :
        (f : F) (fs : List F)
        → s.phase ≡ calling fs
        → Step s (record s { loop = queue_in_loop true f s.loop; queued = s.queued ++ f ∷ [] })
    finish :
        s.phase ≡ calling []
        → s.loop.quitting ≡ false
        → Step s (record s { loop = record (s.loop) { calling_pending = false }; phase = polling })
    ends :
        s.phase ≡ calling []
        → s.loop.quitting ≡ true
        → Step s (record s {
          loop = record (s.loop) { calling_pending = false; looping = false };
          phase = outside;
        })

  pub data Reach : System F → Type 0 where
    here : Reach (start F)
    next : {s t : System F} → Reach s → Step s t → Reach t

  abbrev pub is_handling : Phase F → Bool
  is_handling handling = true
  is_handling _ = false

  abbrev is_calling : Phase F → Bool
  is_calling (calling fs) = true
  is_calling _ = false

  -- Except while the handlers of channels are called, a waiting functor is announced: the eventfd can be
  -- read, or some thread is about to write it; so is, in `poll`, a `quit`. Functors are called in the
  -- order in which they came.
  pub record Inv (s : System F) : Type 0 where
    pub announced :
        is_handling s.phase ≡ false
        → s.early ≡ false
        → s.loop.pending ≢ []
        → 0 < s.loop.wakeups + s.writers
    pub asked : is_polling s.phase ≡ true → s.loop.quitting ≡ true → 0 < s.loop.wakeups + s.writers
    pub order : s.ran ++ (left s.phase ++ s.loop.pending) ≡ s.queued
    pub flag : s.loop.calling_pending ≡ is_calling s.phase

  -- The thread is not in `poll`.
  away : {q p : Phase F} {A : Type 0} → q ≡ p → is_polling p ≡ false → is_polling q ≡ true → A
  away e no_poll h = absurd (true_is_false (sym h ∙ ap is_polling e ∙ no_poll))

  order_at :
      {s : System F} {p : Phase F}
      → s.phase ≡ p
      → Inv s
      → s.ran ++ (left p ++ s.loop.pending) ≡ s.queued
  order_at {s} e v = subst (λ p. s.ran ++ (left p ++ s.loop.pending) ≡ s.queued) e v.order

  flag_at :
      {s : System F} {p : Phase F} → s.phase ≡ p → Inv s → s.loop.calling_pending ≡ is_calling p
  flag_at e v = v.flag ∙ ap is_calling e

  append_last :
      (f : F) (xs ys zs : List F) {qs : List F}
      → xs ++ (ys ++ zs) ≡ qs
      → xs ++ (ys ++ (zs ++ f ∷ [])) ≡ qs ++ f ∷ []
  append_last f xs ys zs e = rw (← e) (simp append_assoc)

  Step-Inv : {s t : System F} → Step s t → Inv s → Inv t
  unfolding push wakeup handle_read queue_in_loop quit
  Step-Inv {s} (other_push f) v = record {
    announced = λ _ _ _. omega arith;
    asked = λ _ _. omega arith;
    order = append_last f s.ran (left s.phase) s.loop.pending v.order;
    flag = v.flag;
  }
  Step-Inv {s} (other_wake n e) v = record {
    announced = λ _ _ _. omega arith;
    asked = λ _ _. omega arith;
    order = v.order;
    flag = v.flag;
  }
  Step-Inv {s} other_quits v = record {
    announced = λ _ _ _. omega arith;
    asked = λ _ _. omega arith;
    order = v.order;
    flag = v.flag;
  }
  Step-Inv {s} (owner_queues f e) v =
      if_rule (λ l. Inv (record s { loop = l; queued = s.queued ++ f ∷ []; early = true }))
        s.loop.calling_pending (λ c. absurd (true_is_false (sym c ∙ flag_at e v)))
        λ _. record {
          announced = λ _ h. absurd (true_is_false h);
          asked = away e refl;
          order = append_last f s.ran (left s.phase) s.loop.pending v.order;
          flag = v.flag;
        }
  Step-Inv {s} (enters e) v = record {
    announced = λ _ timely some. v.announced (ap is_handling e) timely some;
    asked = λ _ h. absurd (true_is_false (sym h));
    order = order_at e v;
    flag = flag_at e v;
  }
  Step-Inv {s} (enters_and_ends e) v = record {
    announced = λ _ _ _. omega arith;
    asked = λ _ _. omega arith;
    order = v.order;
    flag = v.flag;
  }
  Step-Inv {s} (owner_quits h) v = record {
    announced = v.announced;
    asked = λ poll. absurd (true_is_false (sym poll ∙ h));
    order = v.order;
    flag = v.flag;
  }
  Step-Inv {s} (poll_returns e) v = record {
    announced = λ h. cc;
    asked = λ h. absurd (true_is_false (sym h));
    order = order_at e v;
    flag = flag_at e v;
  }
  Step-Inv {s} (wakeup_handled e) v = record {
    announced = λ h. absurd (true_is_false (sym (ap is_handling e) ∙ h));
    asked = away e refl;
    order = v.order;
    flag = v.flag;
  }
  Step-Inv {s} (handler_queues f e) v =
      if_rule (λ l. Inv (record s { loop = l; queued = s.queued ++ f ∷ [] })) s.loop.calling_pending
        (λ c. absurd (true_is_false (sym c ∙ flag_at e v)))
        λ _. record {
          announced = λ h. absurd (true_is_false (sym (ap is_handling e) ∙ h));
          asked = away e refl;
          order = append_last f s.ran (left s.phase) s.loop.pending v.order;
          flag = v.flag;
        }
  Step-Inv {s} (swap e) v = record {
    announced = λ _ _ none. absurd (none refl);
    asked = λ h. absurd (true_is_false (sym h));
    order = rw append-nil (order_at e v);
    flag = refl;
  }
  Step-Inv {s} (call f fs e) v = record {
    announced = λ _ timely some. v.announced (ap is_handling e) timely some;
    asked = λ h. absurd (true_is_false (sym h));
    order = rw append_assoc (order_at e v);
    flag = flag_at e v;
  }
  Step-Inv {s} (functor_queues f fs e) v =
      if_rule (λ l. Inv (record s { loop = l; queued = s.queued ++ f ∷ [] })) s.loop.calling_pending
        (λ _. record {
          announced = λ _ _ _. omega arith;
          asked = λ _ _. omega arith;
          order = append_last f s.ran (left s.phase) s.loop.pending v.order;
          flag = v.flag;
        })
        λ c. absurd (true_is_false (sym (flag_at e v) ∙ c))
  Step-Inv {s} (finish e goes_on) v = record {
    announced = λ _ timely some. v.announced (ap is_handling e) timely some;
    asked = λ _ h. absurd (true_is_false (sym h ∙ goes_on));
    order = order_at e v;
    flag = refl;
  }
  Step-Inv {s} (ends e over) v = record {
    announced = λ _ timely some. v.announced (ap is_handling e) timely some;
    asked = λ h. absurd (true_is_false (sym h));
    order = order_at e v;
    flag = refl;
  }

  start-Inv : Inv (start F)
  start-Inv = record {
    announced = λ _ _ none. absurd (none refl);
    asked = λ h. absurd (true_is_false (sym h));
    order = refl;
    flag = refl;
  }

  -- In every state that the threads can reach, before, in and after `loop`: except while handlers of
  -- channels are called, a functor that waits is announced, so that `poll` cannot sleep on it, unless
  -- the loop's own thread has queued one outside `loop` and no round has taken the functors since; in
  -- `poll` a `quit` is announced too; functors are called in the order in which they were handed over,
  -- each once and none left out; and the flag by which `queueInLoop` decides to wake is right.
  pub Reach-Inv : {s : System F} → Reach s → Inv s
  Reach-Inv here = start-Inv
  Reach-Inv (next r st) = Step-Inv st (Reach-Inv r)
