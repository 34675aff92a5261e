-- ===== src/TimerQueue/Tests.antt =====
-- The theorems about the timers at concrete inputs.
use mynuduo.Base.{
  ℕ, ◌+◌, ◌-◌, ◌*◌, ◌/◌, ◌≤◌, ◌<◌, ◌≡◌, refl, false, true, some, [], ◌∷◌, List, ltb, if◌then◌else◌,
  arith,
}
use mynuduo.TimerQueue.{
  Seconds, TimerQueue, Timer, Entry, get_expired, add_timer, cancel_in_loop, handle_read, reset,
  has_id, how_much_time_from_now, destruct, new,
}
use mynuduo.TimerQueue.Order.{CutAt}
use mynuduo.TimerQueue.Store.{has_addr, is_in}
use mynuduo.TimerQueue.Expire.{get_expired-CutAt}
use mynuduo.TimerQueue.Armed.{IsArmed}
use mynuduo.TimerQueue.Running.{Running}
use mynuduo.TimerQueue.Steps.{cancel_in_loop-Running}
use mynuduo.TimerQueue.Round.{KeepsRunning, Idle, handle_read-Idle}
use mynuduo.TimerQueue.Restart.{reset-cancel_in_loop}
use mynuduo.TimerQueue.Delay.{how_much_time_from_now_lem}
use mynuduo.TimerQueue.Life.{Reach, Reach-Idle, here, next, adds, fires}

abbrev whole_seconds : Seconds
whole_seconds = record { Double = ℕ; is_positive = ltb 0; micros = λ n. n * 1000000 }

-- The timer at address `a` is due at the time `a`.
abbrev timer_at : ℕ → Timer whole_seconds
timer_at a = record { expiration = a; interval = 0; repeat = false; sequence = a }

-- Timers due at 10, 20 and 30.
abbrev three_timers : TimerQueue whole_seconds
three_timers = record {
  memory = timer_at;
  live = 10 ∷ 20 ∷ 30 ∷ [];
  timers =
      record { when = 10; addr = 10 }
      ∷ record { when = 20; addr = 20 }
      ∷ record { when = 30; addr = 30 }
      ∷ [];
  active =
      record { addr = 10; sequence = 10 }
      ∷ record { addr = 20; sequence = 20 }
      ∷ record { addr = 30; sequence = 30 }
      ∷ [];
  calling = false;
  canceling = [];
  created = 3;
  armed = some (record { at = 5; seconds = 0; nanoseconds = 100000 });
}

three_timers-IsArmed : IsArmed whole_seconds three_timers
three_timers-IsArmed = record {
  sorted = ((refl, (refl, tt)), ((refl, tt), (tt, tt)));
  fires = omega arith;
}

get_expired-CutAt_example :
    CutAt 20 three_timers.timers
      (get_expired whole_seconds 20 three_timers).0
      (get_expired whole_seconds 20 three_timers).1.timers
get_expired-CutAt_example =
    get_expired-CutAt whole_seconds 20 three_timers three_timers-IsArmed.sorted
      (omega arith, (omega arith, (omega arith, tt)))

three_timers-Idle : Idle whole_seconds three_timers
unfolding has_addr is_in has_id
three_timers-Idle = record {
  running = record {
    sorted = three_timers-IsArmed.sorted;
    distinct = (refl, (refl, (refl, tt)));
    timed = (refl, (refl, (refl, tt)));
    valid = omega arith;
    real = omega arith;
    in_hand = tt;
    real_in_hand = tt;
    apart = λ a. ground arith;
    live = λ a. ground arith;
    active = λ i. ground arith;
  };
  fires = omega arith;
}

-- The timer called cancels itself.
abbrev cancels_itself : ℕ → TimerQueue whole_seconds → TimerQueue whole_seconds
cancels_itself a = cancel_in_loop whole_seconds (record { addr = a; sequence = a })

cancels_itself-KeepsRunning : KeepsRunning whole_seconds cancels_itself
cancels_itself-KeepsRunning a es q v =
    cancel_in_loop-Running whole_seconds (record { addr = a; sequence = a }) v

handle_read-Idle_example :
    Idle whole_seconds (handle_read whole_seconds 25 26 cancels_itself three_timers)
handle_read-Idle_example =
    handle_read-Idle whole_seconds 25 26 cancels_itself three_timers (omega arith)
      cancels_itself-KeepsRunning three_timers-Idle

-- The timer at 10, which repeats every five seconds, is in hand, and the one at 30 waits.
abbrev in_hand : List Entry
in_hand = record { when = 10; addr = 10 } ∷ []

abbrev one_in_hand : TimerQueue whole_seconds
one_in_hand = record {
  memory = λ a. record (timer_at a) { interval = 5; repeat = true };
  live = 30 ∷ 10 ∷ [];
  timers = record { when = 30; addr = 30 } ∷ [];
  active = record { addr = 30; sequence = 30 } ∷ [];
  calling = true;
  canceling = [];
  created = 2;
  armed = some (record { at = 5; seconds = 0; nanoseconds = 100000 });
}

one_in_hand-Running : Running whole_seconds in_hand one_in_hand
unfolding has_addr is_in has_id
one_in_hand-Running = record {
  sorted = (tt, tt);
  distinct = (refl, tt);
  timed = (refl, tt);
  valid = omega arith;
  real = omega arith;
  in_hand = (refl, tt);
  real_in_hand = omega arith;
  apart = λ a. ground arith;
  live = λ a. ground arith;
  active = λ i. ground arith;
}

in_hand_has : has_addr 10 in_hand ≡ true
unfolding has_addr
in_hand_has = refl

reset-cancel_in_loop_example :
    let t = reset whole_seconds in_hand 12 13 (cancels_itself 10 one_in_hand) in
    (has_addr 10 t.timers ≡ false) × (is_in 10 t.live ≡ false)
reset-cancel_in_loop_example =
    reset-cancel_in_loop whole_seconds 12 13 in_hand (record { addr = 10; sequence = 10 })
      one_in_hand (omega arith) one_in_hand-Running refl in_hand_has refl

how_much_time_from_now_lem_example :
    let (seconds, nanoseconds) = how_much_time_from_now 7 2500007 in
    (nanoseconds < 1000000000)
    × ((seconds * 1000000000 + nanoseconds) / 1000
        ≡ (if ltb 2500007 (7 + 100) then 100 else 2500007 - 7))
    × (2500007 ≤ 7 + (seconds * 1000000000 + nanoseconds) / 1000)
    × (0 < seconds * 1000000000 + nanoseconds)
how_much_time_from_now_lem_example = how_much_time_from_now_lem 7 2500007

-- A timer is added and fires.
abbrev fired : TimerQueue whole_seconds
fired =
    handle_read whole_seconds 25 26 cancels_itself
      (add_timer whole_seconds 1 40 20 5 (new whole_seconds timer_at)).1

fired-Reach : Reach whole_seconds timer_at fired
unfolding is_in
fired-Reach =
    next (next here (adds 1 40 20 5 refl (omega arith) (omega arith)))
      (fires 25 26 cancels_itself (omega arith) cancels_itself-KeepsRunning)

Reach-Idle_example :
    Idle whole_seconds fired × ((a : ℕ) → is_in a (destruct whole_seconds fired).live ≡ false)
Reach-Idle_example = Reach-Idle whole_seconds fired-Reach
