-- ===== src/TimerQueue/Restart.antt =====
-- TimerQueue: which of the expired timers `reset` puts back.
use mynuduo.Base.{
  ==_iff, sym, subst, ℕ, ◌<◌, ◌≡◌, refl, ap, ap₂, ◌∙◌, Bool, true, false, not, ◌&&◌, ◌||◌, List, [],
  ◌∷◌, ◌==◌, arith, if_rule, if◌then◌else◌, Bool-cases, inl, inr,
}
use mynuduo.TimerQueue.{
  Seconds, TimerQueue, Timer, TimerId, Entry, has_id, id_of, insert, delete, restart, reset,
  reset_one, reset_all, cancel_in_loop, insert_id, arm, next_expire, is_valid_time,
}
use mynuduo.TimerQueue.Store.{has_addr, is_in, has_addr-insert_entry, has_id-insert_id}
use mynuduo.TimerQueue.Running.{Running, hand_fresh}
use mynuduo.TimerQueue.Steps.{cancel_in_loop-Running, reset_one-Running}
use mynuduo.TimerQueue.Round.{reset-Idle}

module _ (s : Seconds) where
  -- Whether `reset` puts an expired timer back: it repeats, and no callback has cancelled it.
  abbrev pub goes_on : TimerQueue s → ℕ → Bool
  goes_on q a = (q.memory a).repeat && not (has_id (id_of s q a) q.canceling)

  -- What `reset` promises of its result `t` for the expired timers `es`.
  pub record Restarted (now : ℕ) (es : List Entry) (q t : TimerQueue s) : Type 0 where
    pub waiting :
        (a : ℕ) → has_addr a t.timers ≡ (has_addr a q.timers || (has_addr a es && goes_on q a))
    pub memory :
        (a : ℕ)
        → t.memory a
          ≡ (if has_addr a es && goes_on q a then restart s now (q.memory a) else q.memory a)
    pub canceling : t.canceling ≡ q.canceling

  same_timer :
      (q : TimerQueue s) (b a : ℕ)
      → (b == a) ≡ true
      → (goes_on q a ≡ goes_on q b) × (q.memory a ≡ q.memory b)
  same_timer q b a h = let e = (==_iff b a).0 h in (ap (goes_on q) (sym e), ap q.memory (sym e))

  one-Restarted :
      (now : ℕ) (e : Entry) (es : List Entry) (q : TimerQueue s)
      → Running s (e ∷ es) q
      → Restarted now (e ∷ []) q (reset_one s now e q)
  unfolding reset_one insert delete has_addr
  one-Restarted now e es q v =
      let x : Entry = record {
        when = (restart s now (q.memory e.addr)).expiration;
        addr = e.addr;
      } in
      let out = hand_fresh s e v in
      if_rule (Restarted now (e ∷ []) q) (goes_on q e.addr)
        (λ yes_. record {
          waiting = λ a.
              ground (arith, has_addr-insert_entry a x q.timers out, same_timer q e.addr a, out);
          memory = λ a. ground (arith, same_timer q e.addr a);
          canceling = refl;
        })
        λ no_. record {
          waiting = λ a. ground (arith, same_timer q e.addr a);
          memory = λ a. ground (arith, same_timer q e.addr a);
          canceling = refl;
        }

  -- One step does not touch another timer.
  other_timer :
      (now : ℕ) (e : Entry) (q t : TimerQueue s) (a : ℕ)
      → Restarted now (e ∷ []) q t
      → (e.addr == a) ≡ false
      → (t.memory a ≡ q.memory a) × (goes_on t a ≡ goes_on q a)
  unfolding has_addr
  other_timer now e q t a r other =
      let same : t.memory a ≡ q.memory a = ground (arith, r.memory a) in
      (
        same,
        ap₂
            (λ (m : Timer s) (c : List TimerId).
              m.repeat && not (has_id (record { addr = a; sequence = m.sequence }) c))
            same r.canceling,
      )

  all-Restarted :
      (now : ℕ) (es : List Entry) (q : TimerQueue s)
      → 0 < now
      → Running s es q
      → Restarted now es q (reset_all s now es q)
  unfolding reset_all has_addr
  all-Restarted now [] q pos v = record {
    waiting = λ a. ground arith;
    memory = λ a. refl;
    canceling = refl;
  }
  all-Restarted now (e ∷ es) q pos v =
      let q1 = reset_one s now e q in
      let first = one-Restarted now e es q v in
      let later = all-Restarted now es q1 pos (reset_one-Running s now e pos v) in
      let not_again = λ (a : ℕ) (same : (e.addr == a) ≡ true).
        ap (λ b. has_addr b es) (sym ((==_iff e.addr a).0 same)) ∙ v.in_hand.0 in
      record {
        waiting = λ a. elim (Bool-cases (e.addr == a)) [
          | inl same ↦ ground (arith, later.waiting a, first.waiting a, not_again a same)
          | inr other ↦
              ground
                (arith, later.waiting a, first.waiting a, (other_timer now e q q1 a first other).1)
        ];
        memory = λ a. elim (Bool-cases (e.addr == a)) [
          | inl same ↦ ground (arith, later.memory a, first.memory a, not_again a same)
          | inr other ↦ ground (arith, later.memory a, other_timer now e q q1 a first other)
        ];
        canceling = later.canceling ∙ first.canceling;
      }

  arm-Restarted :
      (now clock : ℕ) (es : List Entry) (q t : TimerQueue s)
      → Restarted now es q t
      → Restarted now es q
          (if is_valid_time (next_expire s t) then arm s clock (next_expire s t) t else t)
  unfolding arm
  arm-Restarted now clock es q t r =
      if_rule (Restarted now es q) (is_valid_time (next_expire s t))
        (λ _. record { waiting = r.waiting; memory = r.memory; canceling = r.canceling }) λ _. r

  -- `reset`, at a time after the epoch, with expired timers in hand: it puts back exactly those that
  -- repeat and that no callback has cancelled, each at `now` and its interval, and every other timer
  -- stays as it is.
  pub reset-Restarted :
      (now clock : ℕ) (es : List Entry) (q : TimerQueue s)
      → 0 < now
      → Running s es q
      → Restarted now es q (reset s es now clock q)
  unfolding reset
  reset-Restarted now clock es q pos v =
      arm-Restarted now clock es q (reset_all s now es q) (all-Restarted now es q pos v)

  -- A cancellation of a timer in hand is noted.
  noted :
      (es : List Entry) (i : TimerId) (q : TimerQueue s)
      → Running s es q
      → q.calling ≡ true
      → has_addr i.addr es ≡ true
      → cancel_in_loop s i q ≡ record q { canceling = insert_id i q.canceling }
  unfolding cancel_in_loop
  noted es i q v calling hand =
      let Noted : TimerQueue s → Type 0 =
        λ t. t ≡ record q { canceling = insert_id i q.canceling } in
      if_rule Noted (has_id i q.active)
        (λ known. absurd (ground (arith, v.active i, v.apart i.addr)))
        λ _. if_rule Noted q.calling (λ _. refl) λ idle. absurd (ground arith)

  -- A timer that is cancelled while `handleRead` has it in hand, as by its own callback, is not put
  -- back and does not stay in memory, though it repeats.
  pub reset-cancel_in_loop :
      (now clock : ℕ) (es : List Entry) (i : TimerId) (q : TimerQueue s)
      → 0 < now
      → Running s es q
      → q.calling ≡ true
      → has_addr i.addr es ≡ true
      → (q.memory i.addr).sequence ≡ i.sequence
      → let t = reset s es now clock (cancel_in_loop s i q) in
        (has_addr i.addr t.timers ≡ false) × (is_in i.addr t.live ≡ false)
  unfolding has_addr
  reset-cancel_in_loop now clock es i q pos v calling hand seq =
      let t = reset s es now clock (cancel_in_loop s i q) in
      let w = cancel_in_loop-Running s i v in
      let r = reset-Restarted now clock es (cancel_in_loop s i q) pos w in
      let e = noted es i q v calling hand in
      let stops : goes_on (cancel_in_loop s i q) i.addr ≡ false =
        subst (λ (x : TimerQueue s). goes_on x i.addr ≡ false) (sym e)
          (ground (arith, has_id-insert_id i (id_of s q i.addr) q.canceling)) in
      let out : has_addr i.addr (cancel_in_loop s i q).timers ≡ false =
        subst (λ (x : TimerQueue s). has_addr i.addr x.timers ≡ false) (sym e)
          (ground (arith, v.apart i.addr)) in
      let gone : has_addr i.addr t.timers ≡ false = ground (arith, r.waiting i.addr, stops, out) in
      (gone, ground (arith, (reset-Idle s es now clock pos w).running.live i.addr, gone))
