-- ===== src/TcpConnection/Life.antt =====
-- TcpConnection: the program's calls, the handlers and the functors only go forward, whatever the kernel
-- answers.
use mynuduo.Base.{
  append-nil, IfReturns, IfReturns-bind, IfReturns-mono, IfReturns-chain, if_rule, ℕ, ◌≤◌, ◌≡◌,
  refl, sym, ap, ◌∙◌, Bool, true, false, ◌||◌, Option, some, List, [], ◌∷◌, take, arith, ◌>>=◌,
}
use mynuduo.Buffer.{ReadResult, received, read_failed, WriteResult, read_fd}
use mynuduo.Channel.{Channel, is_writing, reading_on, tie}
use mynuduo.Poller.{Epoll, Poller, change_events, remove_channel}
use mynuduo.Poller.Events.{Asks, remove_channel-Asks}
use mynuduo.TcpConnection.{
  Connection, State, UserCallbacks, connecting, connected, disconnecting, disconnected,
  is_connected, is_disconnecting, is_disconnected, set_events, send, shutdown, shutdown_in_loop,
  force_close, force_close_in_loop, connect_established, connect_destroyed, handle_close,
  handle_read, handle_error, after_read,
}
use mynuduo.TcpConnection.Keeps.{Extends-refl}
use mynuduo.TcpConnection.Onward.{
  rank, Onward, Onward-refl, Onward-trans, live-Onward, send_in_loop-Onward, down-Onward,
}

module _ (k : Epoll) where
  -- The same state and bytes sent, and the channel waits for EPOLLOUT as before.
  pub unmoved :
      {s t : Connection k}
      → t.state ≡ s.state
      → is_writing t.channel ≡ is_writing s.channel
      → t.sent ≡ s.sent
      → (s.write_shut ≡ true → t.write_shut ≡ true)
      → Onward k s t
  unmoved {s} {t} state writing sent shut = record {
    rank = omega (arith, ap rank state);
    sent = ([], sent ∙ sym (append-nil s.sent));
    shut = shut;
    quiet = λ q d. writing ∙ q (sym (ap is_disconnected state) ∙ d);
    silent = λ q d. sent;
  }

  pub shutdown_in_loop-Onward : (w : Connection k) → Onward k w (shutdown_in_loop k w)
  unfolding shutdown_in_loop
  shutdown_in_loop-Onward w = unmoved refl refl refl (λ h. ground (arith, h))

  is_live :
      (s : State)
      → (is_connected s || is_disconnecting s) ≡ true
      → (is_disconnected s ≡ false) × (rank s ≤ 2)
  is_live connecting h = absurd cc
  is_live connected h = (refl, omega arith)
  is_live disconnecting h = (refl, omega arith)
  is_live disconnected h = absurd cc

  closes :
      (w : Connection k)
      → (is_connected w.state || is_disconnecting w.state) ≡ true
      → Onward k w (record w { state = disconnecting })
  closes w h =
      let live = is_live w.state h in
      live-Onward k live.0 refl live.1 (Extends-refl w.sent) λ shut. shut

  -- What the program calls.
  pub send-Onward :
      (in_loop : Bool) (memory : ℕ → List ℕ) (sys_write : List ℕ → WriteResult) (ptr len : ℕ)
      (w : Connection k)
      → IfReturns (Onward k w) (send k in_loop memory sys_write ptr len w)
  unfolding send
  send-Onward in_loop memory sys_write ptr len w =
      if_rule (IfReturns (Onward k w)) (is_connected w.state)
        (λ _.
          if_rule (IfReturns (Onward k w)) in_loop
            (λ _. send_in_loop-Onward k sys_write (take len (memory ptr)) w)
            λ _. unmoved refl refl refl λ h. h)
        λ _. Onward-refl k w

  pub shutdown-Onward : (in_loop : Bool) (w : Connection k) → Onward k w (shutdown k in_loop w)
  unfolding shutdown
  shutdown-Onward in_loop w =
      if_rule (Onward k w) (is_connected w.state)
        (λ up.
          if_rule (Onward k w) in_loop (λ _. Onward-trans k (begins up) (shutdown_in_loop-Onward _))
            λ _. Onward-trans k (begins up) (unmoved refl refl refl λ h. h))
        λ _. Onward-refl k w
    where
      begins : is_connected w.state ≡ true → Onward k w (record w { state = disconnecting })
      begins up = closes w (ground (arith, up))

  pub force_close-Onward :
      (in_loop : Bool) (w : Connection k) → Onward k w (force_close k in_loop w)
  unfolding force_close
  force_close-Onward in_loop w =
      if_rule (Onward k w) (is_connected w.state || is_disconnecting w.state)
        (λ up. Onward-trans k (closes w up) (unmoved refl refl refl λ h. h)) λ _. Onward-refl k w

  -- The user's callbacks go forward, as `send`, `shutdown` and `forceClose` do.
  pub record GoesOnward (user : UserCallbacks k) : Type 0 where
    pub connection : (w : Connection k) → IfReturns (Onward k w) (user.on_connection w)
    pub message : (w : Connection k) → IfReturns (Onward k w) (user.on_message w)
    pub close : (w : Connection k) → IfReturns (Onward k w) (user.on_close w)

  -- One call after another.
  pub then_Onward :
      (w : Connection k) (m : Option (Connection k)) (f : Connection k → Option (Connection k))
      → IfReturns (Onward k w) m
      → ((t : Connection k) → IfReturns (Onward k t) (f t))
      → IfReturns (Onward k w) (m >>= f)
  then_Onward w m f h g =
      IfReturns-chain (Onward k w) (Onward k w) m f h
        λ t a. IfReturns-mono (Onward k t) (Onward k w) (f t) (g t) λ u b. Onward-trans k a b

  module _ (user : UserCallbacks k) (onward : GoesOnward user) where
    pub handle_close-Onward : (w : Connection k) → IfReturns (Onward k w) (handle_close k user w)
    unfolding handle_close
    handle_close-Onward w =
        then_Onward w _ _ (down-Onward k w)
          λ t. then_Onward t _ _ (onward.connection t) onward.close

    pub force_close_in_loop-Onward :
        (w : Connection k) → IfReturns (Onward k w) (force_close_in_loop k user w)
    unfolding force_close_in_loop
    force_close_in_loop-Onward w =
        if_rule (IfReturns (Onward k w)) (is_connected w.state || is_disconnecting w.state)
          (λ _. handle_close-Onward w) λ _. Onward-refl k w

    after_read-Onward :
        (r : ReadResult) (w : Connection k) → IfReturns (Onward k w) (after_read k user r w)
    unfolding after_read handle_error
    after_read-Onward (received []) w = handle_close-Onward w
    after_read-Onward (received (x ∷ d)) w = onward.message w
    after_read-Onward (read_failed e) w = Onward-refl k w

    pub handle_read-Onward :
        (readv : ℕ → ReadResult) (w : Connection k)
        → IfReturns (Onward k w) (handle_read k user readv w)
    unfolding handle_read
    handle_read-Onward readv w =
        let w1 : Connection k = record w { input = (read_fd w.input readv).1 } in
        IfReturns-mono (Onward k w1) (Onward k w) _ (after_read-Onward (read_fd w.input readv).0 w1)
          λ t a. Onward-trans k (unmoved refl refl refl λ h. h) a

    pub connect_established-Onward :
        (self : ℕ) (w : Connection k)
        → w.state ≡ connecting
        → IfReturns (Onward k w) (connect_established k user self w)
    unfolding connect_established tie set_events
    connect_established-Onward self w begins =
        let w1 : Connection k = record w { state = connected; channel = tie self w.channel } in
        then_Onward w (set_events k reading_on w1) user.on_connection
          (IfReturns-bind {A = Channel × Poller k} (Onward k w)
            (change_events k (reading_on w1.channel.events) w1.channel w1.poller)
            (λ (c, p). some (record w1 { channel = c; poller = p }))
            λ r.
              live-Onward k (ap is_disconnected begins) refl (omega (arith, ap rank begins))
                (Extends-refl w.sent) λ h. h)
          onward.connection

    removed :
        (w : Connection k)
        → IfReturns (Onward k w) (do
          (c, p) ← remove_channel k w.channel w.poller
          some (record w { channel = c; poller = p }))
    removed w =
        IfReturns-chain {A = Channel × Poller k} (Asks k w.channel.events) (Onward k w)
          (remove_channel k w.channel w.poller)
          (λ (c, p). some (record w { channel = c; poller = p }))
          (remove_channel-Asks k w.channel w.poller)
          λ r asks. record {
            rank = omega arith;
            sent = Extends-refl w.sent;
            shut = λ h. h;
            quiet = λ q d. ap (λ m. m.out) asks ∙ q d;
            silent = λ q d. refl;
          }

    pub connect_destroyed-Onward :
        (w : Connection k) → IfReturns (Onward k w) (connect_destroyed k user w)
    unfolding connect_destroyed
    connect_destroyed-Onward w =
        then_Onward w _ _
          (if_rule (IfReturns (Onward k w)) (is_connected w.state)
            (λ _. then_Onward w _ _ (down-Onward k w) onward.connection) λ _. Onward-refl k w)
          removed
