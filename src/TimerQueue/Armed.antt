-- ===== src/TimerQueue/Armed.antt =====
-- TimerQueue: what the timerfd is set for.
use mynuduo.Base.{
  if_rule, Bool-cases, inl, inr, if◌then◌else◌, ℕ, ◌+◌, ◌*◌, ◌/◌, ◌≤◌, max, Option, none, some,
  List, [], ◌∷◌, arith,
}
use mynuduo.TimerQueue.{
  Alarm, how_much_time_from_now, Seconds, TimerQueue, TimerId, Entry, insert_entry, erase_entry,
  is_earliest, insert, arm, add_timer_in_loop, cancel_in_loop, delete, has_id,
}
use mynuduo.TimerQueue.Delay.{how_much_time_from_now_lem}
use mynuduo.TimerQueue.Order.{IsSorted, insert_entry-IsSorted, erase_entry-IsSorted}

-- The microseconds that an alarm waits.
abbrev pub delay : Alarm → ℕ
delay a = (a.seconds * 1000000000 + a.nanoseconds) / 1000

-- Nothing waits, or the timerfd was set for no later than the first time, or than 100 microseconds after
-- it was set where that is later.
abbrev pub FiresBy : List Entry → Option Alarm → Type 0
FiresBy [] armed = Unit {0}
FiresBy (e ∷ es) none = ⊥
FiresBy (e ∷ es) (some a) = a.at + delay a ≤ max e.when (a.at + 100)

-- What `resetTimerfd` sets.
pub arm_lem :
    (clock when : ℕ)
    → let (seconds, nanoseconds) = how_much_time_from_now clock when in
      clock + (seconds * 1000000000 + nanoseconds) / 1000 ≤ max when (clock + 100)
arm_lem clock when = ground (arith, how_much_time_from_now_lem clock when)

insert_entry-FiresBy :
    (e : Entry) (xs : List Entry) (armed : Option Alarm) (a : Alarm)
    → a.at + delay a ≤ max e.when (a.at + 100)
    → FiresBy xs armed
    → FiresBy (insert_entry e xs) (if is_earliest e.when xs then some a else armed)
unfolding insert_entry
insert_entry-FiresBy e [] armed a h f = h
insert_entry-FiresBy e (x ∷ xs) none a h f = absurd f
insert_entry-FiresBy e (x ∷ xs) (some t) a h f = ground arith

erase_entry-FiresBy :
    (e : Entry) (xs : List Entry) (armed : Option Alarm)
    → IsSorted xs
    → FiresBy xs armed
    → FiresBy (erase_entry e xs) armed
unfolding erase_entry
erase_entry-FiresBy e [] armed h f = tt
erase_entry-FiresBy e (x ∷ xs) none h f = absurd f
erase_entry-FiresBy e (x ∷ []) (some t) h f = ground arith
erase_entry-FiresBy e (x ∷ y ∷ ys) (some t) h f = ground arith

module _ (s : Seconds) where
  -- `timers_` is in order, and the timerfd was last set for no later than the first, but for 100 microseconds.
  pub record IsArmed (q : TimerQueue s) : Type 0 where
    pub sorted : IsSorted q.timers
    pub fires : FiresBy q.timers q.armed

  -- `addTimerInLoop` keeps `timers_` in order and the timerfd set as `FiresBy` says, whatever
  -- timer is added.
  pub add_timer_in_loop-IsArmed :
      (clock a : ℕ) (q : TimerQueue s) → IsArmed q → IsArmed (add_timer_in_loop s clock a q)
  unfolding add_timer_in_loop insert arm how_much_time_from_now
  add_timer_in_loop-IsArmed clock a q v =
      let e : Entry = record { when = (q.memory a).expiration; addr = a } in
      let (seconds, nanoseconds) = how_much_time_from_now clock e.when in
      let alarm : Alarm = record { at = clock; seconds = seconds; nanoseconds = nanoseconds } in
      let f = insert_entry-FiresBy e q.timers q.armed alarm (arm_lem clock e.when) v.fires in
      elim (Bool-cases (is_earliest e.when q.timers)) [
        | inl first ↦
            rw first
              (record { sorted = insert_entry-IsSorted e q.timers v.sorted; fires = rw first at f })
        | inr not_first ↦ rw not_first (record {
          sorted = insert_entry-IsSorted e q.timers v.sorted;
          fires = rw not_first at f;
        })
      ]

  -- `cancelInLoop` keeps `timers_` in order and the timerfd set as `FiresBy` says, whatever `TimerId` it is given.
  pub cancel_in_loop-IsArmed :
      (i : TimerId) (q : TimerQueue s) → IsArmed q → IsArmed (cancel_in_loop s i q)
  unfolding cancel_in_loop delete
  cancel_in_loop-IsArmed i q v =
      let e : Entry = record { when = (q.memory i.addr).expiration; addr = i.addr } in
      if_rule IsArmed (has_id i q.active)
        (λ _. record {
          sorted = erase_entry-IsSorted e q.timers v.sorted;
          fires = erase_entry-FiresBy e q.timers q.armed v.sorted v.fires;
        })
        λ _. if_rule IsArmed q.calling (λ _. record { sorted = v.sorted; fires = v.fires }) λ _. v
