-- ===== src/EventLoopThread/Destroy.antt =====
-- EventLoopThread: how the destructor ends, and how it does not.
use mynuduo.Base.{ℕ, ◌≡◌, refl, ap, ◌∙◌, true, false, none}
use mynuduo.EventLoopThread.{Worker, running, ended, joining, destroyed, EventLoopThread, Reach}
use mynuduo.EventLoopThread.Handshake.{is_ended, loop_of, Reach-Inv_of, at}

module _ (a : ℕ) where
  worker_ended : (w : Worker) → is_ended w ≡ true → w ≡ ended
  worker_ended ended h = refl
  worker_ended _ h = cc

  -- In every state that the two threads can reach, whoever else calls `quit`: where the
  -- destructor is over, the loop has ended, and `loop_` no longer points to it.
  pub destroyed-ended :
      {s : EventLoopThread}
      → Reach a s
      → s.waiter ≡ destroyed
      → (s.worker ≡ ended) × (s.loop ≡ none)
  destroyed-ended {s} r e =
      let v = Reach-Inv_of a r in
      let over = worker_ended s.worker (at a destroyed e v) in (over, v.loop ∙ ap (loop_of a) over)

  -- The destructor is in `join`, and the loop runs as if `quit` had not been called.
  pub record Lost (s : EventLoopThread) : Type 0 where
    pub reached : Reach a s
    pub joining : s.waiter ≡ joining
    pub running : s.worker ≡ running
    pub quit_unset : s.quitting ≡ false
