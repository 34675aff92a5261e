-- ===== src/TcpConnection/Shutdown.antt =====
-- TcpConnection: `shutdown` and `forceClose` from the user's side.
use mynuduo.Base.{
  ℕ, ◌≡◌, refl, Bool, true, false, not, ◌||◌, some, List, [], if◌then◌else◌, if_rule, arith, ◌⊎◌,
  inl, inr, Bool-cases,
}
use mynuduo.Buffer.{contents, WriteResult}
use mynuduo.Channel.{is_writing}
use mynuduo.Poller.{Epoll}
use mynuduo.TcpConnection.{
  Connection, State, disconnecting, is_disconnected, is_connected, is_disconnecting, shutdown,
  shutdown_in_loop, Task, force_close, send,
}
use mynuduo.EventLoop.{EventLoop}
use mynuduo.TcpConnection.Inv.{Inv, readable-nil}
use mynuduo.TcpConnection.Stream.{accepted}

module _ (k : Epoll) where
  -- What `shutdown` promises of its result `t`.
  pub record ShutDown (w t : Connection k) : Type 0 where
    pub inv : Inv k t
    pub bytes : accepted k t ≡ accepted k w
    pub input : t.input ≡ w.input
    pub closing : is_connected w.state ≡ true → is_disconnecting t.state ≡ true
    pub nothing_cut : t.write_shut ≡ true → (w.write_shut ≡ true) ⊎ (contents t.output ≡ [])

  up_of_connected : (s : State) → is_connected s ≡ true → is_disconnected s ≡ false
  up_of_connected s h = ground arith

  was_shut : (b x : Bool) → (if not b then true else x) ≡ true → b ≡ true → x ≡ true
  was_shut b x h e = ground arith

  -- `shutdown` of a connection in order, from any thread: the invariant holds, the bytes taken on
  -- stay, a connection that is up begins to close, and the write side of the socket is shut only
  -- if no byte is kept back.
  pub shutdown-ShutDown :
      (in_loop : Bool) (w : Connection k) → Inv k w → ShutDown w (shutdown k in_loop w)
  unfolding shutdown shutdown_in_loop
  shutdown-ShutDown in_loop w v =
      if_rule (ShutDown w) (is_connected w.state)
        (λ up.
          if_rule (ShutDown w) in_loop
            (λ here. record {
              inv = moved up _ _;
              bytes = refl;
              input = refl;
              closing = λ _. refl;
              nothing_cut = λ h. elim (Bool-cases (is_writing w.channel)) [
                | inl writing ↦ inl (was_shut (is_writing w.channel) w.write_shut h writing)
                | inr idle ↦ inr (
                    readable-nil v.output_valid
                      (ground (arith, v.waits (up_of_connected w.state up))))
              ];
            })
            λ away. record {
              inv = moved up _ _;
              bytes = refl;
              input = refl;
              closing = λ _. refl;
              nothing_cut = inl;
            })
        λ down. record {
          inv = v;
          bytes = refl;
          input = refl;
          closing = λ up. cc;
          nothing_cut = inl;
        }
    where
      moved :
          is_connected w.state ≡ true
          → (s : Bool) (l : EventLoop Task)
          → Inv k (record w { state = disconnecting; write_shut = s; loop = l })
      moved up s l = record {
        synced = v.synced;
        input_valid = v.input_valid;
        output_valid = v.output_valid;
        waits = λ _. v.waits (up_of_connected w.state up);
      }

  send_down :
      (a : Bool) (memory : ℕ → List ℕ) (sys_write : List ℕ → WriteResult) (ptr len : ℕ)
      (t : Connection k)
      → is_connected t.state ≡ false
      → send k a memory sys_write ptr len t ≡ some t
  unfolding send
  send_down a memory sys_write ptr len t down =
      if_rule (λ r. r ≡ some t) (is_connected t.state) (λ up. cc) λ _. refl

  shutdown_down : (b : Bool) (w : Connection k) → is_connected (shutdown k b w).state ≡ false
  unfolding shutdown shutdown_in_loop
  shutdown_down b w =
      if_rule (λ (t : Connection k). is_connected t.state ≡ false) (is_connected w.state)
        (λ _. if_rule (λ (t : Connection k). is_connected t.state ≡ false) b (λ _. refl) λ _. refl)
        λ down. down

  force_close_down : (c : Bool) (w : Connection k) → is_connected (force_close k c w).state ≡ false
  unfolding force_close
  force_close_down c w =
      if_rule (λ (t : Connection k). is_connected t.state ≡ false)
        (is_connected w.state || is_disconnecting w.state) (λ _. refl) λ down. ground arith

  -- Once `shutdown` or `forceClose` has been called, `send` does nothing,
  -- from whatever thread.
  pub send_after_close :
      (a b c : Bool) (memory : ℕ → List ℕ) (sys_write : List ℕ → WriteResult) (ptr len : ℕ)
      (w : Connection k)
      → (send k a memory sys_write ptr len (shutdown k b w) ≡ some (shutdown k b w))
        × (send k a memory sys_write ptr len (force_close k c w) ≡ some (force_close k c w))
  send_after_close a b c memory sys_write ptr len w = (
    send_down a memory sys_write ptr len _ (shutdown_down b w),
    send_down a memory sys_write ptr len _ (force_close_down c w),
  )
