-- ===== src/TimerQueue/Steps.antt =====
-- TimerQueue: the operations that callbacks and `reset` use, on timers of which some are in hand.
use mynuduo.Base.{if_rule, ℕ, ◌<◌, ◌≡◌, Bool, false, not, ◌&&◌, Option, List, [], ◌∷◌, arith}
use mynuduo.TimerQueue.{
  Alarm, Seconds, TimerQueue, TimerId, Entry, insert, arm, new_timer, add_timer_in_loop, add_timer,
  cancel_in_loop, delete, has_id, id_of, restart, add_time, reset_one, reset_all, addr_max,
}
use mynuduo.TimerQueue.Order.{Each, Each-mono, IsAddr, erase_entry-IsSorted, erase_entry-Each}
use mynuduo.TimerQueue.Store.{
  has_addr, is_in, Bears, has_addr-erase_entry, erase_entry-Distinct, is_in-remove_addr,
  has_id-erase_id,
}
use mynuduo.TimerQueue.Running.{
  Running, IsTimed, update-Each, write-Running, insert-Running, delete-Running,
}

module _ (s : Seconds) where
  -- The timerfd and the marks of `handleRead` do not matter.
  pub marks-Running :
      (armed : Option Alarm) (calling : Bool) (canceling : List TimerId) {es : List Entry}
      {q : TimerQueue s}
      → Running s es q
      → Running s es (record q { armed = armed; calling = calling; canceling = canceling })
  marks-Running armed calling canceling v = record {
    sorted = v.sorted;
    distinct = v.distinct;
    timed = v.timed;
    valid = v.valid;
    real = v.real;
    in_hand = v.in_hand;
    real_in_hand = v.real_in_hand;
    apart = v.apart;
    live = v.live;
    active = v.active;
  }

  -- `new Timer`, at an address where none is alive.
  new_timer-Running :
      (a when : ℕ) (interval : s.Double) {es : List Entry} {q : TimerQueue s}
      → Running s es q
      → is_in a q.live ≡ false
      → a < addr_max
      → Running s (record { when = when; addr = a } ∷ es) (new_timer s a when interval q)
  unfolding new_timer has_addr is_in
  new_timer-Running a when interval {es} {q} v unused below =
      let out : has_addr a q.timers ≡ false = ground (arith, v.live a) in
      let out_hand : has_addr a es ≡ false = ground (arith, v.live a) in
      record {
        sorted = v.sorted;
        distinct = v.distinct;
        timed = update-Each s q.memory a _ q.timers out v.timed;
        valid = v.valid;
        real = v.real;
        in_hand = (out_hand, v.in_hand);
        real_in_hand = (below, v.real_in_hand);
        apart = λ b. ground (arith, v.apart b, out);
        live = λ b. ground (arith, v.live b);
        active = λ i. ground (arith, v.active i, out);
      }

  add_timer_in_loop-Running :
      (clock : ℕ) (e : Entry) {es : List Entry} {q : TimerQueue s}
      → Running s (e ∷ es) q
      → 0 < (q.memory e.addr).expiration
      → Running s es (add_timer_in_loop s clock e.addr q)
  unfolding add_timer_in_loop arm
  add_timer_in_loop-Running clock e {es} {q} v soon =
      let w = insert-Running s e v soon in
      if_rule (Running s es) (insert s e.addr q).0 (λ _. marks-Running _ _ _ w) λ _. w

  -- `addTimer` on the loop's thread, of a valid time and at an unused address of the machine, keeps
  -- the timers in order, also from a callback while some are in hand.
  pub add_timer-Running :
      (clock a when : ℕ) (interval : s.Double) {es : List Entry} {q : TimerQueue s}
      → Running s es q
      → is_in a q.live ≡ false
      → a < addr_max
      → 0 < when
      → Running s es (add_timer s clock a when interval q).1
  unfolding add_timer
  add_timer-Running clock a when interval {es} {q} v unused below soon =
      add_timer_in_loop-Running clock (record { when = when; addr = a })
        (new_timer-Running a when interval v unused below) (ground arith)

  -- `cancelInLoop` of any id keeps the timers in order, also from a callback.
  pub cancel_in_loop-Running :
      (i : TimerId) {es : List Entry} {q : TimerQueue s}
      → Running s es q
      → Running s es (cancel_in_loop s i q)
  unfolding cancel_in_loop delete
  cancel_in_loop-Running i {es} {q} v =
      if_rule (Running s es) (has_id i q.active)
        (λ known.
          let x : Entry = record { when = (q.memory i.addr).expiration; addr = i.addr } in
          let bears : Each (Bears x) q.timers =
            Each-mono (IsTimed s q.memory) (Bears x) q.timers (λ y e same. ground arith) v.timed in
          record {
            sorted = erase_entry-IsSorted x q.timers v.sorted;
            distinct = erase_entry-Distinct x q.timers bears v.distinct;
            timed = erase_entry-Each (IsTimed s q.memory) x q.timers v.timed;
            valid = erase_entry-Each (λ e. 0 < e.when) x q.timers v.valid;
            real = erase_entry-Each IsAddr x q.timers v.real;
            in_hand = v.in_hand;
            real_in_hand = v.real_in_hand;
            apart =
                λ a. ground (arith, has_addr-erase_entry a x q.timers bears v.distinct, v.apart a);
            live = λ a. ground (
              arith,
              has_addr-erase_entry a x q.timers bears v.distinct,
              v.apart a,
              v.live a,
              is_in-remove_addr a i.addr q.live,
              v.active i,
            );
            active = λ j. ground (
              arith,
              has_addr-erase_entry j.addr x q.timers bears v.distinct,
              v.active j,
              v.active i,
              has_id-erase_id i j q.active,
            );
          })
        λ _. if_rule (Running s es) q.calling (λ _. marks-Running _ _ _ v) λ _. v

  pub reset_one-Running :
      (now : ℕ) (e : Entry) {es : List Entry} {q : TimerQueue s}
      → 0 < now
      → Running s (e ∷ es) q
      → Running s es (reset_one s now e q)
  unfolding reset_one restart add_time
  reset_one-Running now e {es} {q} pos v =
      if_rule (Running s es)
        ((q.memory e.addr).repeat && not (has_id (id_of s q e.addr) q.canceling))
        (λ again. insert-Running s e (write-Running s e _ v) (ground arith))
        λ _. delete-Running s e v

  pub reset_all-Running :
      (now : ℕ) (es : List Entry) {q : TimerQueue s}
      → 0 < now
      → Running s es q
      → Running s [] (reset_all s now es q)
  unfolding reset_all
  reset_all-Running now [] pos v = v
  reset_all-Running now (e ∷ es) pos v =
      reset_all-Running now es pos (reset_one-Running now e pos v)
