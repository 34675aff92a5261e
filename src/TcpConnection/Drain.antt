-- ===== src/TcpConnection/Drain.antt =====
-- TcpConnection: `handleWrite` moves kept bytes to the kernel, and ends what `shutdown` began.
use mynuduo.Base.{
  Returns, if_rule, ℕ, ◌≡◌, refl, true, false, some, List, [], ◌++◌, take, ltb, ◌==◌, if◌then◌else◌,
  ◌>>=◌, arith, append_assoc, take-append-drop,
}
use mynuduo.Buffer.{
  Buffer, contents, readable_bytes, WriteResult, wrote, write_failed, retrieve, peek, write_fd,
}
use mynuduo.Buffer.Retrieve.{Retrieved, retrieve-Retrieved, peek_all}
use mynuduo.Channel.{is_writing, writing_off}
use mynuduo.Poller.{Epoll}
use mynuduo.TcpConnection.{
  Connection, State, write_complete, after_result, is_disconnected, is_disconnecting, after_write,
  handle_write, shutdown_in_loop, set_events, queue_if,
}
use mynuduo.TcpConnection.Inv.{Inv, nil-readable, set_events-HasEvents}
use mynuduo.TcpConnection.Stream.{accepted}

module _ (k : Epoll) where
  -- What `handleWrite` promises of its result `t`: the invariant, the same bytes taken on, the same
  -- state and input, and, once everything is with the kernel, the end of a shutdown.
  pub record Drained (w t : Connection k) : Type 0 where
    pub inv : Inv k t
    pub bytes : accepted k t ≡ accepted k w
    pub state : t.state ≡ w.state
    pub input : t.input ≡ w.input
    pub shut :
        is_writing w.channel ≡ true
        → is_disconnecting w.state ≡ true
        → contents t.output ≡ []
        → t.write_shut ≡ true

  moved :
      (n : ℕ) (w : Connection k)
      → Inv k w
      → (w.sent ++ take n (peek w.output (readable_bytes w.output)))
          ++ contents (retrieve w.output n)
        ≡ accepted k w
  moved n w v = rw (
    peek_all v.output_valid,
    (retrieve-Retrieved n v.output_valid).bytes,
    append_assoc,
    take-append-drop,
  )

  after_write-Drained :
      (n : ℕ) (w : Connection k)
      → Inv k w
      → is_writing w.channel ≡ true
      → Returns (Drained w) (
          after_write k n
            (record w { sent = w.sent ++ take n (peek w.output (readable_bytes w.output)) }))
  unfolding after_write queue_if shutdown_in_loop
  after_write-Drained n w v writing =
      if_rule (Returns (Drained w)) (readable_bytes rest == 0) (λ empty. flushed (ground arith))
        λ more. record {
          inv = record {
            synced = v.synced;
            input_valid = v.input_valid;
            output_valid = r.valid;
            waits = λ _. ground arith;
          };
          bytes = moved n w v;
          state = refl;
          input = refl;
          shut = λ _ _ e. absurd (ground (arith, nil-readable r.valid e));
        }
    where
      rest : Buffer
      rest = retrieve w.output n

      r : Retrieved w.output rest n
      r = retrieve-Retrieved n v.output_valid

      flushed :
          readable_bytes rest ≡ 0
          → Returns (Drained w) (do
            w2 ← set_events k writing_off (record w {
              sent = w.sent ++ take n (peek w.output (readable_bytes w.output));
              output = rest;
            })
            let w3 = queue_if k w2.has_write_complete write_complete w2
            some (if is_disconnecting w3.state then shutdown_in_loop k w3 else w3))
      flushed empty =
          let c =
            set_events-HasEvents k writing_off
              (record w {
                sent = w.sent ++ take n (peek w.output (readable_bytes w.output));
                output = rest;
              })
              v.synced in
          rw c.returns (
            if_rule (Drained w) (is_disconnecting w.state)
              (λ down. record {
                inv = record {
                  synced = c.synced;
                  input_valid = v.input_valid;
                  output_valid = r.valid;
                  waits = λ _. ground arith;
                };
                bytes = moved n w v;
                state = refl;
                input = refl;
                shut = λ _ _ _. ground arith;
              })
              λ up. record {
                inv = record {
                  synced = c.synced;
                  input_valid = v.input_valid;
                  output_valid = r.valid;
                  waits = λ _. ground arith;
                };
                bytes = moved n w v;
                state = refl;
                input = refl;
                shut = λ _ d _. absurd (ground arith);
              })

  disconnecting_up : (s : State) → is_disconnecting s ≡ true → is_disconnected s ≡ false
  disconnecting_up s h = ground arith

  unchanged : (w : Connection k) → Inv k w → Drained w w
  unchanged w v = record {
    inv = v;
    bytes = refl;
    state = refl;
    input = refl;
    shut = λ writing closing e.
        absurd (
          ground
            (arith, v.waits (disconnecting_up w.state closing), nil-readable v.output_valid e));
  }

  wrote-Drained :
      (r : WriteResult) (w : Connection k)
      → Inv k w
      → is_writing w.channel ≡ true
      → Returns (Drained w) (after_result k r w)
  unfolding after_result
  wrote-Drained (wrote n) w v writing =
      if_rule (Returns (Drained w)) (ltb 0 n) (λ some_sent. after_write-Drained n w v writing)
        λ none_sent. unchanged w v
  wrote-Drained (write_failed e) w v writing = unchanged w v

  -- `handleWrite` on a connection in order, whatever `write` answers: it returns, the invariant
  -- holds, no byte is lost, doubled or moved, and where the last kept byte has gone to the kernel
  -- while the connection is shutting down, the write side of the socket is shut.
  pub handle_write-Drained :
      (sys_write : List ℕ → WriteResult) (w : Connection k)
      → Inv k w
      → Returns (Drained w) (handle_write k sys_write w)
  unfolding handle_write
  handle_write-Drained sys_write w v =
      if_rule (Returns (Drained w)) (is_writing w.channel)
        (λ writing. wrote-Drained (write_fd w.output sys_write) w v writing) λ idle. unchanged w v
