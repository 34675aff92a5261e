-- ===== src/TimerQueue/Expire.antt =====
-- TimerQueue: what `getExpired` takes out.
use mynuduo.Base.{ℕ, ◌≡◌, refl, List, [], ◌∷◌}
use mynuduo.TimerQueue.{
  Seconds, TimerQueue, Entry, split_before, sentry, erase_expired, get_expired,
}
use mynuduo.TimerQueue.Order.{Each, IsSorted, IsAddr, CutAt, split_before-CutAt}

module _ (s : Seconds) where
  timers-erase_expired :
      (es : List Entry) (q : TimerQueue s) → (erase_expired s es q).timers ≡ q.timers
  unfolding erase_expired
  timers-erase_expired [] q = refl
  timers-erase_expired (e ∷ es) q = timers-erase_expired es _

  -- `getExpired`, where `timers_` is in order and holds real addresses: it takes out exactly the
  -- timers that are due at `now`, the ones due at this very time included, keeps exactly those that
  -- are due later, and loses none.
  pub get_expired-CutAt :
      (now : ℕ) (q : TimerQueue s)
      → IsSorted q.timers
      → Each IsAddr q.timers
      → CutAt now q.timers (get_expired s now q).0 (get_expired s now q).1.timers
  unfolding get_expired
  get_expired-CutAt now q h a =
      let c = split_before-CutAt now q.timers h a in
      let same =
        timers-erase_expired (split_before (sentry now) q.timers).0
          (record q { timers = (split_before (sentry now) q.timers).1 }) in
      rw same c
