-- ===== src/TimerQueue/RunAt.antt =====
-- EventLoop.cc: `runAt` and `runAfter` on the loop's thread. `queue` is `timerQueue_`, which may be null;
-- the result `none` is the call through a null pointer. `nought` is the `double` 0.0.
use mynuduo.Base.{ℕ, Option, none, some}
use mynuduo.TimerQueue.{Seconds, TimerId, TimerQueue, add_time, add_timer}

module _ (s : Seconds) (nought : s.Double) where
  pub run_at : Option (TimerQueue s) → ℕ → ℕ → ℕ → Option (TimerId × TimerQueue s)
  run_at none clock a time = none
  run_at (some q) clock a time = some (add_timer s clock a time nought q)

  pub run_after : Option (TimerQueue s) → ℕ → ℕ → ℕ → s.Double → Option (TimerId × TimerQueue s)
  unfolding run_at
  run_after queue clock a now delay = run_at queue clock a (add_time s now delay)
