-- ===== src/TimerQueue/Life.antt =====
-- TimerQueue: the timers from the constructor to the destructor.
use mynuduo.Base.{ℕ, ◌<◌, ◌≡◌, refl, false, not, ◌&&◌, List, [], ◌∷◌, arith}
use mynuduo.TimerQueue.{
  Seconds, TimerQueue, Timer, TimerId, Entry, new, add_timer, new_timer, cancel_in_loop,
  handle_read, has_id, addr_max, delete, delete_all, destruct,
}
use mynuduo.TimerQueue.Store.{has_addr, is_in, is_in-remove_addr}
use mynuduo.TimerQueue.Armed.{IsArmed, add_timer_in_loop-IsArmed, cancel_in_loop-IsArmed}
use mynuduo.TimerQueue.Running.{Running}
use mynuduo.TimerQueue.Steps.{add_timer-Running, cancel_in_loop-Running}
use mynuduo.TimerQueue.Round.{KeepsRunning, Idle, handle_read-Idle}

module _ (s : Seconds) where
  -- One call on the loop's thread, the only one that has the queue. `new` gives an address of the
  -- machine where no timer is alive.
  pub data Step (q : TimerQueue s) : TimerQueue s → Type 0 where
    adds :
        (clock a when : ℕ) (interval : s.Double)
        → is_in a q.live ≡ false
        → a < addr_max
        → 0 < when
        → Step q (add_timer s clock a when interval q).1
    cancels : (i : TimerId) → Step q (cancel_in_loop s i q)
    fires :
        (now clock : ℕ) (callback : ℕ → TimerQueue s → TimerQueue s)
        → 0 < now
        → KeepsRunning s callback
        → Step q (handle_read s now clock callback q)

  pub data Reach (m : ℕ → Timer s) : TimerQueue s → Type 0 where
    here : Reach m (new s m)
    next : {q t : TimerQueue s} → Reach m q → Step q t → Reach m t

  armed-Idle : {q : TimerQueue s} → Running s [] q → IsArmed s q → Idle s q
  armed-Idle v a = record { running = v; fires = a.fires }

  Step-Idle : {q t : TimerQueue s} → Step q t → Idle s q → Idle s t
  unfolding add_timer new_timer
  Step-Idle {q} (adds clock a when interval unused below soon) v =
      armed-Idle (add_timer-Running s clock a when interval v.running unused below soon) (
        add_timer_in_loop-IsArmed s clock a (new_timer s a when interval q)
          (record { sorted = v.running.sorted; fires = v.fires }))
  Step-Idle {q} (cancels i) v =
      armed-Idle (cancel_in_loop-Running s i v.running)
        (cancel_in_loop-IsArmed s i q (record { sorted = v.running.sorted; fires = v.fires }))
  Step-Idle {q} (fires now clock callback pos keeps) v =
      handle_read-Idle s now clock callback q pos keeps v

  new-Idle : (m : ℕ → Timer s) → Idle s (new s m)
  unfolding has_addr is_in has_id
  new-Idle m = record {
    running = record {
      sorted = tt;
      distinct = tt;
      timed = tt;
      valid = tt;
      real = tt;
      in_hand = tt;
      real_in_hand = tt;
      apart = λ a. refl;
      live = λ a. refl;
      active = λ i. refl;
    };
    fires = tt;
  }

  Reach-Idle_of : {m : ℕ → Timer s} {q : TimerQueue s} → Reach m q → Idle s q
  Reach-Idle_of {m} here = new-Idle m
  Reach-Idle_of (next r st) = Step-Idle st (Reach-Idle_of r)

  live-delete_all :
      (a : ℕ) (es : List Entry) (q : TimerQueue s)
      → is_in a (delete_all s es q).live ≡ (is_in a q.live && not (has_addr a es))
  unfolding delete_all delete has_addr
  live-delete_all a [] q = ground arith
  live-delete_all a (e ∷ es) q =
      ground (arith, live-delete_all a es (delete s e.addr q), is_in-remove_addr a e.addr q.live)

  -- In every state that a queue can reach by `addTimer`, `cancel` and `handleRead` on its loop's thread,
  -- with no `addTimer` from another thread, and with callbacks that keep the timers that they find in
  -- order: it is in order, with the timerfd set for no later than its first timer, or than 100
  -- microseconds after it was set where that is later, and its destructor deletes every timer that is
  -- alive.
  pub Reach-Idle :
      {m : ℕ → Timer s} {q : TimerQueue s}
      → Reach m q
      → Idle s q × ((a : ℕ) → is_in a (destruct s q).live ≡ false)
  unfolding destruct has_addr
  Reach-Idle {m} {q} r =
      let v = Reach-Idle_of r in
      (v, λ a. ground (arith, v.running.live a, live-delete_all a q.timers q))
