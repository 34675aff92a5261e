-- ===== src/EventLoop/Pending.antt =====
-- EventLoop: `doPendingFunctors` and `queueInLoop` on the loop's own thread.
use mynuduo.Base.{
  ◌+◌, ◌≡◌, refl, ◌∙◌, ap, true, false, List, [], ◌∷◌, ◌++◌, length, append_assoc, append-nil,
  arith, length-append,
}
use mynuduo.EventLoop.{EventLoop, push, wakeup, queue_in_loop, run_all, do_pending_functors}

module _ {F : Type 0} where
  -- Every functor of `fs` handed to the loop, in order.
  pub queue_all : List F → EventLoop F → EventLoop F
  queue_all [] l = l
  queue_all (f ∷ fs) l = queue_all fs (queue_in_loop true f l)

  -- What the functors of `fs` hand to the loop, in order.
  abbrev pub spawned : (F → List F) → List F → List F
  spawned spawn [] = []
  spawned spawn (f ∷ fs) = spawn f ++ spawned spawn fs

  -- A functor does what it does to the loop by `queueInLoop` alone.
  abbrev pub ByQueueing : (F → EventLoop F → EventLoop F) → (F → List F) → Type 0
  ByQueueing exec spawn = (f : F) (l : EventLoop F) → exec f l ≡ queue_all (spawn f) l

  -- Queueing while functors are called: each wakes the loop.
  record Queued (l m : EventLoop F) (fs : List F) : Type 0 where
    calling : m.calling_pending ≡ true
    pending : m.pending ≡ l.pending ++ fs
    wakeups : m.wakeups ≡ l.wakeups + length fs
    quitting : m.quitting ≡ l.quitting
    looping : m.looping ≡ l.looping

  pub pending-queue :
      (f : F) (l : EventLoop F) → (queue_in_loop true f l).pending ≡ l.pending ++ f ∷ []
  unfolding queue_in_loop push wakeup
  pending-queue f l = ground arith

  queue_all-Queued :
      (fs : List F) (l : EventLoop F) → l.calling_pending ≡ true → Queued l (queue_all fs l) fs
  unfolding queue_all queue_in_loop push wakeup
  queue_all-Queued [] l c = record {
    calling = c;
    pending = rw append-nil;
    wakeups = omega arith;
    quitting = refl;
    looping = refl;
  }
  queue_all-Queued (f ∷ fs) l c =
      let q = queue_all-Queued fs (queue_in_loop true f l) (ground arith) in
      record {
        calling = q.calling;
        pending =
            q.pending ∙ ap (λ p. p ++ fs) (pending-queue f l) ∙ append_assoc l.pending (f ∷ []) fs;
        wakeups = ground (arith, q.wakeups);
        quitting = ground (arith, q.quitting);
        looping = ground (arith, q.looping);
      }

  record Ran (l m : EventLoop F) (fs : List F) (spawn : F → List F) : Type 0 where
    calling : m.calling_pending ≡ true
    pending : m.pending ≡ l.pending ++ spawned spawn fs
    wakeups : m.wakeups ≡ l.wakeups + length (spawned spawn fs)
    quitting : m.quitting ≡ l.quitting
    looping : m.looping ≡ l.looping

  run_all-Ran :
      (exec : F → EventLoop F → EventLoop F) (spawn : F → List F) (fs : List F) (l : EventLoop F)
      → ByQueueing exec spawn
      → l.calling_pending ≡ true
      → Ran l (run_all exec fs l) fs spawn
  unfolding run_all
  run_all-Ran exec spawn [] l by c = record {
    calling = c;
    pending = rw append-nil;
    wakeups = omega arith;
    quitting = refl;
    looping = refl;
  }
  run_all-Ran exec spawn (f ∷ fs) l by c =
      let q = queue_all-Queued (spawn f) l c in
      rw (by f l) (after_first (run_all-Ran exec spawn fs (queue_all (spawn f) l) by q.calling) q)
    where
      after_first :
          {m n : EventLoop F} → Ran m n fs spawn → Queued l m (spawn f) → Ran l n (f ∷ fs) spawn
      after_first r q = record {
        calling = r.calling;
        pending =
            r.pending
            ∙ ap (λ p. p ++ spawned spawn fs) q.pending
            ∙ append_assoc l.pending (spawn f) (spawned spawn fs);
        wakeups = omega (arith, r.wakeups, q.wakeups, length-append (spawn f) (spawned spawn fs));
        quitting = r.quitting ∙ q.quitting;
        looping = r.looping ∙ q.looping;
      }

  -- `doPendingFunctors`, where functors act on the loop by `queueInLoop` alone: what waits
  -- afterwards is exactly what the functors called have queued, in order, so a functor that queues
  -- itself again cannot keep the round from ending; each of these has written the eventfd, so the
  -- next `poll` does not sleep; and the flags are as before.
  pub do_pending_functors_lem :
      (exec : F → EventLoop F → EventLoop F) (spawn : F → List F) (l : EventLoop F)
      → ByQueueing exec spawn
      → let m = do_pending_functors exec l in
        (m.pending ≡ spawned spawn l.pending)
        × (m.wakeups ≡ l.wakeups + length (spawned spawn l.pending))
        × (m.calling_pending ≡ false)
        × (m.quitting ≡ l.quitting)
        × (m.looping ≡ l.looping)
  unfolding do_pending_functors
  do_pending_functors_lem exec spawn l by =
      let r =
        run_all-Ran exec spawn l.pending (record l { pending = []; calling_pending = true }) by
          refl in
      (r.pending, r.wakeups, refl, r.quitting, r.looping)
