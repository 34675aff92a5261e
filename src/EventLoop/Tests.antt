-- ===== src/EventLoop/Tests.antt =====
-- The theorems about the loop at concrete inputs.
use mynuduo.Poller.Table.{table}
use mynuduo.EventLoop.Reactor.{
  Made, Unmade, fresh_poller, construct_default, destruct, construct_default-destruct,
}
use mynuduo.Base.{
  Returns, Bool, Option, ◌⊎◌, some, none, zero, suc, ◌<◌, arith, ℕ, ◌+◌, ◌≡◌, refl, true, false,
  List, [], ◌∷◌,
}
use mynuduo.EventLoop.{EventLoop, round, push, do_pending_functors, loop, quit}
use mynuduo.EventLoop.Progress.{Done, Left, Reach-Done}
use mynuduo.EventLoop.Quit.{after_rounds, loop-after_rounds}
use mynuduo.EventLoop.Pending.{queue_all, do_pending_functors_lem}
use mynuduo.EventLoop.Threads.{
  System, Inv, here, next, other_push, enters, start, polling, Reach-Inv,
}

-- Functor `n` queues functor `n + 1`.
abbrev spawn_next : ℕ → List ℕ
spawn_next n = (n + 1) ∷ []

abbrev two_pending : EventLoop ℕ
two_pending = record {
  looping = true;
  quitting = false;
  calling_pending = false;
  pending = 4 ∷ 8 ∷ [];
  wakeups = 0;
}

do_pending_functors_lem_example :
    let m = do_pending_functors (λ f. queue_all (spawn_next f)) two_pending in
    (m.pending ≡ 5 ∷ 9 ∷ [])
    × (m.wakeups ≡ 2)
    × (m.calling_pending ≡ false)
    × (m.quitting ≡ false)
    × (m.looping ≡ true)
do_pending_functors_lem_example =
    do_pending_functors_lem (λ f. queue_all (spawn_next f)) spawn_next two_pending (λ f l. refl)

Reach-Inv_example :
    Inv (record (start ℕ) { loop = push 3 (start ℕ).loop; writers = 1; queued = 3 ∷ [] })
Reach-Inv_example = Reach-Inv (next here (other_push 3))

-- Another thread has handed over functor 3, and is about to write the eventfd.
Reach-Done_example :
    let s = record (start ℕ) {
      loop = record (push 3 (start ℕ).loop) { looping = true; quitting = false };
      phase = polling;
      writers = 1;
      queued = 3 ∷ [];
    } in
    (s.loop.quitting ≡ false → (t : System ℕ) × Done s t)
    × (s.loop.quitting ≡ true → (t : System ℕ) × Left s t)
Reach-Done_example =
    Reach-Done (next (next here (other_push 3)) (enters refl)) (λ h. ground (arith, h)) refl

-- Functor 0 quits, every other does nothing.
abbrev run : ℕ → EventLoop ℕ → EventLoop ℕ
run zero l = quit true l
run (suc f) l = l

-- The handlers of a round hand the loop the functor 0.
abbrev poll : EventLoop ℕ → EventLoop ℕ
poll l = push 0 l

abbrev two_started : EventLoop ℕ
two_started = record two_pending { looping = true; quitting = false }

early : (i : ℕ) → i < 1 → (after_rounds poll run i two_started).quitting ≡ false
unfolding after_rounds
early zero lt = refl
early (suc i) lt = absurd (omega arith)

loop-after_rounds_example :
    loop 7 poll run two_pending
    ≡ record two_pending { looping = false; quitting = true; pending = [] }
unfolding after_rounds round push quit
loop-after_rounds_example = loop-after_rounds poll run 1 7 two_pending (omega arith) early refl

construct_default-destruct_example :
    Returns
      (λ r.
        Made table ℕ 1 100 4 (fresh_poller table ℕ (λ j. none)) r
        × Returns (Unmade table ℕ 4 (fresh_poller table ℕ (λ j. none))) (destruct table ℕ r))
      (construct_default table ℕ false (some (λ j. none)) (some 4) 1 100 none)
    × ((use_poll : Bool) (made_set : Option table.Set) (made : Option ℕ)
        → (use_poll ≡ true) ⊎ (made_set ≡ none)
        → construct_default table ℕ use_poll made_set made 1 100 none ≡ none)
construct_default-destruct_example = construct_default-destruct table ℕ 1 100 4 (λ j. none) refl
