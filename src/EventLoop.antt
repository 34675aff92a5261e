-- ===== src/EventLoop.antt =====
-- EventLoop.h and EventLoop.cc: the queue of functors that other threads and callbacks hand to the
-- loop, and the eventfd that wakes it. A functor is any type `F`; the counter of the eventfd, a
-- kernel object, is the number `wakeups`: a write of one adds to it, a read takes it to 0.
pub mod Pending
pub mod Quit
pub mod Reactor
pub mod Threads
pub mod Progress
mod Tests
use mynuduo.Base.{
  ℕ, zero, suc, ◌+◌, Bool, true, false, not, ◌||◌, List, [], ◌∷◌, ◌++◌, if◌then◌else◌,
}

module _ (F : Type 0) where
  pub record EventLoop : Type 0 where
    pub looping : Bool
    pub quitting : Bool
    pub calling_pending : Bool
    pub pending : List F
    pub wakeups : ℕ

abbrev pub new : (F : Type 0) → EventLoop F
new F = record {
  looping = false;
  quitting = false;
  calling_pending = false;
  pending = [];
  wakeups = 0;
}

module _ {F : Type 0} where
  unfoldable pub wakeup : EventLoop F → EventLoop F
  wakeup l = record l { wakeups = l.wakeups + 1 }

  -- `wakeupChannel_`'s read callback.
  unfoldable pub handle_read : EventLoop F → EventLoop F
  handle_read l = record l { wakeups = 0 }

  -- The part of `queueInLoop` under the lock.
  unfoldable pub push : F → EventLoop F → EventLoop F
  push f l = record l { pending = l.pending ++ f ∷ [] }

  -- `in_loop` is `isInLoopThread()`.
  unfoldable pub queue_in_loop : Bool → F → EventLoop F → EventLoop F
  unfolding push wakeup
  queue_in_loop in_loop f l =
      let l' = push f l in if not in_loop || l'.calling_pending then wakeup l' else l'

  -- `now` is the functor's body.
  unfoldable pub run_in_loop : Bool → (EventLoop F → EventLoop F) → F → EventLoop F → EventLoop F
  unfolding queue_in_loop
  run_in_loop in_loop now f l = if in_loop then now l else queue_in_loop false f l

  unfoldable pub quit : Bool → EventLoop F → EventLoop F
  unfolding wakeup
  quit in_loop l = let l' = record l { quitting = true } in if not in_loop then wakeup l' else l'

  -- `exec` is what calling a functor does to the loop.
  pub run_all : (F → EventLoop F → EventLoop F) → List F → EventLoop F → EventLoop F
  run_all exec [] l = l
  run_all exec (f ∷ fs) l = run_all exec fs (exec f l)

  pub do_pending_functors : (F → EventLoop F → EventLoop F) → EventLoop F → EventLoop F
  unfolding run_all
  do_pending_functors exec l =
      let l' = run_all exec l.pending (record l { pending = []; calling_pending = true }) in
      record l' { calling_pending = false }

  -- One round of `while (!quit_)`; `handle` is the poll and the handlers of the active channels.
  pub round :
      (EventLoop F → EventLoop F) → (F → EventLoop F → EventLoop F) → EventLoop F → EventLoop F
  unfolding do_pending_functors
  round handle exec l = do_pending_functors exec (handle l)

  -- At most `fuel` rounds.
  pub rounds :
      ℕ → (EventLoop F → EventLoop F) → (F → EventLoop F → EventLoop F) → EventLoop F → EventLoop F
  unfolding round
  rounds zero handle exec l = l
  rounds (suc fuel) handle exec l = elim l.quitting [
    | true ↦ l
    | false ↦ rounds fuel handle exec (round handle exec l)
  ]

  pub loop :
      ℕ → (EventLoop F → EventLoop F) → (F → EventLoop F → EventLoop F) → EventLoop F → EventLoop F
  unfolding rounds
  loop fuel handle exec l =
      let l' = rounds fuel handle exec (record l { looping = true; quitting = false }) in
      record l' { looping = false }
