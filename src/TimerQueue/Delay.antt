-- ===== src/TimerQueue/Delay.antt =====
-- TimerQueue: the time that `timerfd_settime` is given.
use mynuduo.Base.{ℕ, ◌+◌, ◌-◌, ◌*◌, ◌/◌, ◌≤◌, ◌<◌, ◌≡◌, ltb, if◌then◌else◌, arith}
use mynuduo.TimerQueue.{how_much_time_from_now}

-- What `howMuchTimeFromNow` gives can be read back: its nanoseconds are less than a second, as
-- `timerfd_settime` demands, and with its seconds they are exactly the microseconds from `now` until
-- `when`, or 100 where that is less, so that the timer fires no sooner than `when`.
pub how_much_time_from_now_lem :
    (now when : ℕ)
    → let (seconds, nanoseconds) = how_much_time_from_now now when in
      (nanoseconds < 1000000000)
      × ((seconds * 1000000000 + nanoseconds) / 1000
          ≡ (if ltb when (now + 100) then 100 else when - now))
      × (when ≤ now + (seconds * 1000000000 + nanoseconds) / 1000)
      × (0 < seconds * 1000000000 + nanoseconds)
unfolding how_much_time_from_now
how_much_time_from_now_lem now when = ground arith
