-- ===== src/TcpConnection/Onward.antt =====
-- TcpConnection: its operations only go forward, in the state and in the bytes given to the kernel,
-- whatever the kernel answers.
use mynuduo.Base.{
  Bool-cases, inl, inr, IfReturns, IfReturns-bind, IfReturns-mono, IfReturns-chain, if_rule, ℕ, ◌≤◌,
  ◌≡◌, refl, sym, ap, subst, ◌∙◌, Bool, true, false, some, List, ltb, ◌==◌, if◌then◌else◌, arith,
}
use mynuduo.Buffer.{WriteResult, wrote, write_failed, readable_bytes, retrieve, write_fd}
use mynuduo.Channel.{Channel, Mask, is_writing, none_event, writing_off}
use mynuduo.Poller.{Epoll, Poller, change_events}
use mynuduo.Poller.Events.{Asks, change_events-Asks}
use mynuduo.TcpConnection.{
  Connection, State, connecting, connected, disconnecting, disconnected, is_disconnected,
  is_disconnecting, write_complete, set_events, after_write, after_result, handle_write, queue_if,
  shutdown_in_loop, send_in_loop,
}
use mynuduo.TcpConnection.Keeps.{
  Extends, Extends-refl, Extends-append, Extends-trans, Same, send_in_loop-Same,
}

-- The order in which a connection goes through its states.
abbrev pub rank : State → ℕ
rank connecting = 0
rank connected = 1
rank disconnecting = 2
rank disconnected = 3

is_disconnected-rank : (s : State) → 3 ≤ rank s → is_disconnected s ≡ true
is_disconnected-rank connecting h = absurd (omega arith)
is_disconnected-rank connected h = absurd (omega arith)
is_disconnected-rank disconnecting h = absurd (omega arith)
is_disconnected-rank disconnected h = refl

pub rank-is_disconnected : (s : State) → is_disconnected s ≡ true → 3 ≤ rank s
rank-is_disconnected disconnected h = omega arith
rank-is_disconnected _ h = absurd cc

pub rank_le : (s : State) → rank s ≤ 3
rank_le connecting = omega arith
rank_le connected = omega arith
rank_le disconnecting = omega arith
rank_le disconnected = omega arith

module _ (k : Epoll) where
  -- A connection that is down does not wait for EPOLLOUT.
  abbrev pub Quiet : Connection k → Type 0
  Quiet w = is_disconnected w.state ≡ true → is_writing w.channel ≡ false

  -- From `s` to `t` the connection has gone forward: its state is the same or a later one, what the
  -- kernel has been given stays given, a write side that is shut stays shut, and a connection that is
  -- down has given it nothing more.
  pub record Onward (s t : Connection k) : Type 0 where
    pub rank : rank s.state ≤ rank t.state
    pub sent : Extends s.sent t.sent
    pub shut : s.write_shut ≡ true → t.write_shut ≡ true
    pub quiet : Quiet s → Quiet t
    pub silent : Quiet s → is_disconnected s.state ≡ true → t.sent ≡ s.sent

  pub Onward-refl : (s : Connection k) → Onward s s
  Onward-refl s = record {
    rank = omega arith;
    sent = Extends-refl s.sent;
    shut = λ h. h;
    quiet = λ h. h;
    silent = λ h d. refl;
  }

  down_stays :
      {s t : Connection k}
      → Onward s t
      → is_disconnected s.state ≡ true
      → is_disconnected t.state ≡ true
  down_stays {s} {t} a d =
      is_disconnected-rank t.state (omega (arith, a.rank, rank-is_disconnected s.state d))

  pub Onward-trans : {s t u : Connection k} → Onward s t → Onward t u → Onward s u
  Onward-trans {s} {t} {u} a b = record {
    rank = omega (arith, a.rank, b.rank);
    sent = Extends-trans s.sent t.sent u.sent a.sent b.sent;
    shut = λ h. b.shut (a.shut h);
    quiet = λ h. b.quiet (a.quiet h);
    silent = λ h d. b.silent (a.quiet h) (down_stays a d) ∙ a.silent h d;
  }

  -- An operation on a connection that is not down.
  pub live-Onward :
      {s t : Connection k}
      → is_disconnected s.state ≡ false
      → is_disconnected t.state ≡ false
      → rank s.state ≤ rank t.state
      → Extends s.sent t.sent
      → (s.write_shut ≡ true → t.write_shut ≡ true)
      → Onward s t
  live-Onward up still le more shut = record {
    rank = le;
    sent = more;
    shut = shut;
    quiet = λ h d. absurd cc;
    silent = λ h d. absurd cc;
  }

  send_in_loop-down :
      (sys_write : List ℕ → WriteResult) (d : List ℕ) (w : Connection k)
      → is_disconnected w.state ≡ true
      → send_in_loop k sys_write d w ≡ some w
  unfolding send_in_loop
  send_in_loop-down sys_write d w down = rw down refl

  pub send_in_loop-Onward :
      (sys_write : List ℕ → WriteResult) (d : List ℕ) (w : Connection k)
      → IfReturns (Onward w) (send_in_loop k sys_write d w)
  send_in_loop-Onward sys_write d w = elim (Bool-cases (is_disconnected w.state)) [
    | inl down ↦
        subst (IfReturns (Onward w)) (sym (send_in_loop-down sys_write d w down)) (Onward-refl w)
    | inr up ↦
        IfReturns-mono (Same k w.state w.input w.write_shut w.sent) (Onward w) _
          (send_in_loop-Same k w.state w.input w.write_shut w.sent sys_write d w
            (record { state = refl; input = refl; write_shut = refl; grows = Extends-refl w.sent }))
          λ t h.
            live-Onward up (ap is_disconnected h.state ∙ up) (omega (arith, ap rank h.state))
              h.grows (λ shut. h.write_shut ∙ shut)
  ]

  -- Closing: the state is the last one, and the channel asks for nothing.
  pub down-Onward :
      (w : Connection k)
      → IfReturns (Onward w) (set_events k (λ m. none_event) (record w { state = disconnected }))
  unfolding set_events
  down-Onward w =
      IfReturns-chain {A = Channel × Poller k} (Asks k none_event) (Onward w)
        (change_events k none_event w.channel w.poller)
        (λ (c, p). some (record w { state = disconnected; channel = c; poller = p }))
        (change_events-Asks k none_event w.channel w.poller)
        λ r asks. record {
          rank = rank_le w.state;
          sent = Extends-refl w.sent;
          shut = λ h. h;
          quiet = λ h d. ap (λ m. m.out) asks;
          silent = λ h d. refl;
        }

  -- `handleWrite` gives the kernel more and may shut the write side.
  record Wrote (w t : Connection k) : Type 0 where
    state : t.state ≡ w.state
    sent : Extends w.sent t.sent
    shut : w.write_shut ≡ true → t.write_shut ≡ true

  set_events-Wrote :
      (f : Mask → Mask) (base w : Connection k)
      → Wrote base w
      → IfReturns (Wrote base) (set_events k f w)
  unfolding set_events
  set_events-Wrote f base w h =
      IfReturns-bind {A = Channel × Poller k} (Wrote base)
        (change_events k (f w.channel.events) w.channel w.poller)
        (λ (c, p). some (record w { channel = c; poller = p }))
        λ r. record { state = h.state; sent = h.sent; shut = h.shut }

  shut-Wrote : (base w : Connection k) → Wrote base w → Wrote base (shutdown_in_loop k w)
  unfolding shutdown_in_loop
  shut-Wrote base w h = record {
    state = h.state;
    sent = h.sent;
    shut = λ shut. ground (arith, h.shut shut);
  }

  -- What follows once the output buffer is empty.
  flushed-Wrote :
      (base w : Connection k)
      → Wrote base w
      → Wrote base (
          let w3 = queue_if k w.has_write_complete write_complete w in
          if is_disconnecting w3.state then shutdown_in_loop k w3 else w3)
  unfolding queue_if
  flushed-Wrote base w h =
      if_rule (Wrote base) (is_disconnecting w.state)
        (λ _. shut-Wrote base _ (record { state = h.state; sent = h.sent; shut = h.shut }))
        λ _. record { state = h.state; sent = h.sent; shut = h.shut }

  after_write-Wrote :
      (n : ℕ) (base w : Connection k) → Wrote base w → IfReturns (Wrote base) (after_write k n w)
  unfolding after_write
  after_write-Wrote n base w h =
      let w1 : Connection k = record w { output = retrieve w.output n } in
      let h1 : Wrote base w1 = record { state = h.state; sent = h.sent; shut = h.shut } in
      if_rule (IfReturns (Wrote base)) (readable_bytes w1.output == 0)
        (λ _.
          IfReturns-chain (Wrote base) (Wrote base) (set_events k writing_off w1) _
            (set_events-Wrote writing_off base w1 h1) (flushed-Wrote base))
        λ _. h1

  after_result-Wrote :
      (r : WriteResult) (w : Connection k) → IfReturns (Wrote w) (after_result k r w)
  unfolding after_result
  after_result-Wrote (wrote n) w =
      if_rule (IfReturns (Wrote w)) (ltb 0 n)
        (λ _. after_write-Wrote n w _ (record {
          state = refl;
          sent = Extends-append w.sent w.sent _ (Extends-refl w.sent);
          shut = λ h. h;
        }))
        λ _. record { state = refl; sent = Extends-refl w.sent; shut = λ h. h }
  after_result-Wrote (write_failed e) w = record {
    state = refl;
    sent = Extends-refl w.sent;
    shut = λ h. h;
  }

  -- A connection that is down and quiet writes nothing.
  pub handle_write-Onward :
      (sys_write : List ℕ → WriteResult) (w : Connection k)
      → IfReturns (Onward w) (handle_write k sys_write w)
  unfolding handle_write
  handle_write-Onward sys_write w =
      if_rule (IfReturns (Onward w)) (is_writing w.channel)
        (λ writing.
          IfReturns-mono (Wrote w) (Onward w) _ (after_result-Wrote (write_fd w.output sys_write) w)
            λ t h. record {
              rank = omega (arith, ap rank h.state);
              sent = h.sent;
              shut = h.shut;
              quiet = λ q d. absurd (on_and_off writing (q (sym (ap is_disconnected h.state) ∙ d)));
              silent = λ q d. absurd (on_and_off writing (q d));
            })
        λ _. Onward-refl w
    where
      on_and_off : {b : Bool} → b ≡ true → b ≡ false → ⊥
      on_and_off h l = cc
