-- ===== src/TimerQueue/Round.antt =====
-- TimerQueue: `handleRead` as a whole.
use mynuduo.Base.{
  ℕ, ◌<◌, ◌≡◌, refl, sym, subst, ap, true, false, not, ◌&&◌, none, List, [], ◌∷◌, ◌++◌, ◌==◌, arith,
  if_rule, if◌then◌else◌,
}
use mynuduo.TimerQueue.{
  Seconds, TimerQueue, TimerId, Entry, has_id, id_of, erase_id, erase_expired, get_expired, run_all,
  reset, reset_all, next_expire, arm, how_much_time_from_now, read_timerfd, handle_read,
  is_valid_time,
}
use mynuduo.TimerQueue.Order.{Each, IsSorted, IsAddr, split_before-CutAt}
use mynuduo.TimerQueue.Store.{has_addr, Distinct, has_addr-append, has_id-erase_id}
use mynuduo.TimerQueue.Armed.{arm_lem, FiresBy}
use mynuduo.TimerQueue.Running.{Running, IsTimed}
use mynuduo.TimerQueue.Steps.{marks-Running, reset_all-Running}

Each-append : (P : Entry → Type 0) (xs ys : List Entry) → Each P (xs ++ ys) → Each P xs × Each P ys
Each-append P [] ys h = (tt, h)
Each-append P (x ∷ xs) ys h = let r = Each-append P xs ys h.1 in ((h.0, r.0), r.1)

Distinct-append :
    (xs ys : List Entry)
    → Distinct (xs ++ ys)
    → Distinct xs × Distinct ys × ((a : ℕ) → (has_addr a ys && has_addr a xs) ≡ false)
unfolding has_addr
Distinct-append [] ys d = (tt, d, λ a. ground arith)
Distinct-append (x ∷ xs) ys d =
    let (front, back, apart) = Distinct-append xs ys d.1 in
    (
      (ground (arith, has_addr-append x.addr xs ys, d.0), front),
      back,
      λ a. ground (arith, apart a, has_addr-append x.addr xs ys, d.0),
    )

module _ (s : Seconds) where
  -- Only `activeTimers_` changes.
  erase_expired-eq :
      (es : List Entry) (q : TimerQueue s)
      → erase_expired s es q ≡ record q { active = (erase_expired s es q).active }
  unfolding erase_expired
  erase_expired-eq [] q = refl
  erase_expired-eq (e ∷ es) q = erase_expired-eq es _

  has_id-erase_expired :
      (i : TimerId) (es : List Entry) (q : TimerQueue s)
      → has_id i (erase_expired s es q).active ≡ (
          has_id i q.active && not (has_addr i.addr es && (q.memory i.addr).sequence == i.sequence))
  unfolding erase_expired has_addr
  has_id-erase_expired i [] q = ground arith
  has_id-erase_expired i (e ∷ es) q =
      let q1 : TimerQueue s = record q { active = erase_id (id_of s q e.addr) q.active } in
      ground (arith, has_id-erase_expired i es q1, has_id-erase_id (id_of s q e.addr) i q.active)

  -- Idle timers, cut in two.
  cut-Running :
      (before rest : List Entry) (q : TimerQueue s)
      → before ++ rest ≡ q.timers
      → IsSorted rest
      → Running s [] q
      → Running s before (erase_expired s before (record q { timers = rest }))
  unfolding has_addr
  cut-Running before rest q whole sorted v =
      let (front, back, apart) =
        Distinct-append before rest (subst Distinct (sym whole) v.distinct) in
      let both = λ (a : ℕ). ap (has_addr a) (sym whole) in
      let q0 : TimerQueue s = record q { timers = rest } in
      subst (Running s before) (sym (erase_expired-eq before q0)) (record {
        sorted = sorted;
        distinct = back;
        timed =
            (Each-append (IsTimed s q.memory) before rest
              (subst (Each (IsTimed s q.memory)) (sym whole) v.timed)).1;
        valid =
            (Each-append (λ e. 0 < e.when) before rest
              (subst (Each (λ e. 0 < e.when)) (sym whole) v.valid)).1;
        real = (Each-append IsAddr before rest (subst (Each IsAddr) (sym whole) v.real)).1;
        in_hand = front;
        real_in_hand = (Each-append IsAddr before rest (subst (Each IsAddr) (sym whole) v.real)).0;
        apart = apart;
        live = λ a. ground (arith, v.live a, both a, has_addr-append a before rest);
        active = λ i. ground (
          arith,
          has_id-erase_expired i before q0,
          v.active i,
          both i.addr,
          apart i.addr,
          has_addr-append i.addr before rest,
        );
      })

  pub get_expired-Running :
      (now : ℕ) (q : TimerQueue s)
      → Running s [] q
      → Running s (get_expired s now q).0 (get_expired s now q).1
  unfolding get_expired
  get_expired-Running now q v =
      let c = split_before-CutAt now q.timers v.sorted v.real in
      cut-Running _ _ q c.whole c.sorted v

  -- Whatever timers `handleRead` has in hand, the callback of any of them keeps the rest in order.
  abbrev pub KeepsRunning : (ℕ → TimerQueue s → TimerQueue s) → Type 0
  KeepsRunning callback =
      (a : ℕ) (es : List Entry) (q : TimerQueue s) → Running s es q → Running s es (callback a q)

  run_all-Running :
      (callback : ℕ → TimerQueue s → TimerQueue s) (fs : List Entry) {es : List Entry}
      {q : TimerQueue s}
      → KeepsRunning callback
      → Running s es q
      → Running s es (run_all s callback fs q)
  unfolding run_all
  run_all-Running callback [] keeps v = v
  run_all-Running callback (f ∷ fs) {es} {q} keeps v =
      run_all-Running callback fs keeps (keeps f.addr es q v)

  -- Between two calls: no timer is in hand, and the timerfd is set for no later than the first, or than
  -- 100 microseconds after it was set.
  pub record Idle (q : TimerQueue s) : Type 0 where
    pub running : Running s [] q
    pub fires : FiresBy q.timers q.armed

  arm_first :
      (clock : ℕ) (ts : List Entry) (q : TimerQueue s)
      → let r : TimerQueue s = record q { timers = ts } in
        Running s [] r
        → Idle (if is_valid_time (next_expire s r) then arm s clock (next_expire s r) r else r)
  unfolding next_expire arm how_much_time_from_now
  arm_first clock [] q v = record { running = v; fires = tt }
  arm_first clock (e ∷ es) q v =
      if_rule Idle (is_valid_time (q.memory e.addr).expiration)
        (λ soon. record {
          running = marks-Running s _ _ _ v;
          fires = omega (arith, v.timed.0, arm_lem clock (q.memory e.addr).expiration);
        })
        λ never. absurd (ground (arith, v.timed.0, v.valid.0))

  pub reset-Idle :
      (es : List Entry) (now clock : ℕ) {q : TimerQueue s}
      → 0 < now
      → Running s es q
      → Idle (reset s es now clock q)
  unfolding reset
  reset-Idle es now clock {q} pos v =
      let r = reset_all s now es q in arm_first clock r.timers r (reset_all-Running s now es pos v)

  -- `handleRead`, at a time after the epoch, where the callbacks keep the timers that they find in
  -- order: afterwards they are in order, `activeTimers_` and memory hold exactly the timers of
  -- `timers_`, none lost and none dangling, and the timerfd, which has fired, is set again for no
  -- later than the first of them, or than 100 microseconds after it was set where that is later.
  pub handle_read-Idle :
      (now clock : ℕ) (callback : ℕ → TimerQueue s → TimerQueue s) (q : TimerQueue s)
      → 0 < now
      → KeepsRunning callback
      → Idle q
      → Idle (handle_read s now clock callback q)
  unfolding handle_read read_timerfd
  handle_read-Idle now clock callback q pos keeps v =
      let q0 = read_timerfd s q in
      let (expired, q1) = get_expired s now q0 in
      let g = get_expired-Running now q0 (marks-Running s none q.calling q.canceling v.running) in
      let called = run_all-Running callback expired keeps (marks-Running s q1.armed true [] g) in
      let q2 = run_all s callback expired (record q1 { calling = true; canceling = [] }) in
      reset-Idle expired now clock pos (marks-Running s q2.armed false q2.canceling called)
