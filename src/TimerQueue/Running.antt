-- ===== src/TimerQueue/Running.antt =====
-- TimerQueue: what holds of the timers while `handleRead` has some of them in hand, and that adding,
-- cancelling, restarting and deleting a timer keep it.
use mynuduo.Base.{ℕ, ◌<◌, ◌≡◌, refl, false, ◌&&◌, ◌||◌, List, [], ◌∷◌, ◌==◌, arith}
use mynuduo.TimerQueue.{
  Seconds, TimerQueue, Timer, TimerId, Entry, update, insert, delete, has_id, id_of,
}
use mynuduo.TimerQueue.Order.{Each, IsSorted, IsAddr, insert_entry-IsSorted, insert_entry-Each}
use mynuduo.TimerQueue.Store.{
  has_addr, is_in, Distinct, has_addr-insert_entry, insert_entry-Distinct, is_in-remove_addr,
  has_id-insert_id,
}

module _ (s : Seconds) where
  -- An entry bears the time that its timer has in memory.
  abbrev pub IsTimed : (ℕ → Timer s) → Entry → Type 0
  IsTimed m e = (m e.addr).expiration ≡ e.when

  -- The timers of `es` have been taken out of `timers_` and are neither put back nor deleted yet. The
  -- others are in order, each once and at the time that it has in memory; `activeTimers_` has exactly
  -- these; and memory holds exactly these and those of `es`.
  pub record Running (es : List Entry) (q : TimerQueue s) : Type 0 where
    pub sorted : IsSorted q.timers
    pub distinct : Distinct q.timers
    pub timed : Each (IsTimed q.memory) q.timers
    pub valid : Each (λ e. 0 < e.when) q.timers
    pub real : Each IsAddr q.timers
    pub in_hand : Distinct es
    pub real_in_hand : Each IsAddr es
    pub apart : (a : ℕ) → (has_addr a q.timers && has_addr a es) ≡ false
    pub live : (a : ℕ) → is_in a q.live ≡ (has_addr a q.timers || has_addr a es)
    pub active :
        (i : TimerId)
        → has_id i q.active ≡ (has_addr i.addr q.timers && (q.memory i.addr).sequence == i.sequence)

  pub update-Each :
      (m : ℕ → Timer s) (a : ℕ) (t : Timer s) (xs : List Entry)
      → has_addr a xs ≡ false
      → Each (IsTimed m) xs
      → Each (IsTimed (update s m a t)) xs
  unfolding has_addr
  update-Each m a t [] h v = tt
  update-Each m a t (x ∷ xs) h v = (ground (arith, v.0), update-Each m a t xs (ground arith) v.1)

  pub hand_fresh :
      (e : Entry) {es : List Entry} {q : TimerQueue s}
      → Running (e ∷ es) q
      → has_addr e.addr q.timers ≡ false
  unfolding has_addr
  hand_fresh e v = ground (arith, v.apart e.addr)

  -- A timer in hand may be written to.
  pub write-Running :
      (e : Entry) (t : Timer s) {es : List Entry} {q : TimerQueue s}
      → Running (e ∷ es) q
      → Running (e ∷ es) (record q { memory = update s q.memory e.addr t })
  write-Running e t {es} {q} v =
      let out = hand_fresh e v in
      record {
        sorted = v.sorted;
        distinct = v.distinct;
        timed = update-Each q.memory e.addr t q.timers out v.timed;
        valid = v.valid;
        real = v.real;
        in_hand = v.in_hand;
        real_in_hand = v.real_in_hand;
        apart = v.apart;
        live = v.live;
        active = λ i. ground (arith, v.active i, out);
      }

  -- A timer in hand with a valid time may be put back.
  pub insert-Running :
      (e : Entry) {es : List Entry} {q : TimerQueue s}
      → Running (e ∷ es) q
      → 0 < (q.memory e.addr).expiration
      → Running es (insert s e.addr q).1
  unfolding insert has_addr
  insert-Running e {es} {q} v soon =
      let out = hand_fresh e v in
      let x : Entry = record { when = (q.memory e.addr).expiration; addr = e.addr } in
      record {
        sorted = insert_entry-IsSorted x q.timers v.sorted;
        distinct = insert_entry-Distinct x q.timers out v.distinct;
        timed = insert_entry-Each (IsTimed q.memory) x q.timers refl v.timed;
        valid = insert_entry-Each (λ e. 0 < e.when) x q.timers soon v.valid;
        real = insert_entry-Each IsAddr x q.timers v.real_in_hand.0 v.real;
        in_hand = v.in_hand.1;
        real_in_hand = v.real_in_hand.1;
        apart = λ a. ground (arith, has_addr-insert_entry a x q.timers out, v.apart a, v.in_hand.0);
        live = λ a. ground (arith, has_addr-insert_entry a x q.timers out, v.live a);
        active = λ i. ground (
          arith,
          has_id-insert_id (id_of s q e.addr) i q.active,
          has_addr-insert_entry i.addr x q.timers out,
          v.active i,
          out,
        );
      }

  -- A timer in hand may be deleted.
  pub delete-Running :
      (e : Entry) {es : List Entry} {q : TimerQueue s}
      → Running (e ∷ es) q
      → Running es (delete s e.addr q)
  unfolding delete has_addr
  delete-Running e {es} {q} v = record {
    sorted = v.sorted;
    distinct = v.distinct;
    timed = v.timed;
    valid = v.valid;
    real = v.real;
    in_hand = v.in_hand.1;
    real_in_hand = v.real_in_hand.1;
    apart = λ a. ground (arith, v.apart a);
    live = λ a. ground (arith, is_in-remove_addr a e.addr q.live, v.live a, v.apart a, v.in_hand.0);
    active = v.active;
  }
