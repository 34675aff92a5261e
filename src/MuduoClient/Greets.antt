-- ===== src/MuduoClient/Greets.antt =====
-- MuduoClient: the greeting goes out once, and what comes is taken out of the buffer.
use mynuduo.Base.{
  Returns, Returns-mono, ℕ, ◌+◌, ◌≤◌, ◌≡◌, refl, sym, ap, ap₂, ◌∙◌, false, if_rule, Option, List,
  [], ◌∷◌, ◌++◌, length, arith, append-nil, max_size,
}
use mynuduo.Buffer.{contents, ReadResult, received, WriteResult, extra_size, read_limit}
use mynuduo.Buffer.Append.{read_fd-Appended}
use mynuduo.Buffer.Retrieve.{retrieve_all_as_string_lem}
use mynuduo.Poller.{Epoll}
use mynuduo.TcpConnection.{
  Connection, is_connected, is_disconnected, connect_established, handle_read,
}
use mynuduo.TcpConnection.Inv.{Inv}
use mynuduo.TcpConnection.Close.{connect_established-calls}
use mynuduo.TcpConnection.Stream.{accepted, WritesPart, Fails}
use mynuduo.TcpConnection.Keeps.{Extends-refl, handle_read-received}
use mynuduo.EchoServer.Echoed.{Sent, send-Sent}
use mynuduo.MuduoServer.Relayed.{IsServing, Relayed}
use mynuduo.MuduoClient.{greeting, on_connection, on_message, callbacks}

module _ (k : Epoll) where
  -- The connection is up, in order, with nothing unread, and has taken on the greeting.
  pub record Greeted (w t : Connection k) : Type 0 where
    pub serving : IsServing k t
    pub bytes : accepted k t ≡ accepted k w ++ greeting

  pub connect_established-Greeted :
      (sys_write : List ℕ → WriteResult) (on_close : Connection k → Option (Connection k))
      (self : ℕ) (w : Connection k)
      → Inv k w
      → is_disconnected w.state ≡ false
      → contents w.input ≡ []
      → WritesPart k sys_write
      → ¬ Fails k sys_write greeting
      → length greeting + w.output.writer ≤ max_size
      → Returns (Greeted w) (connect_established k (callbacks k sys_write on_close) self w)
  unfolding on_connection
  connect_established-Greeted sys_write on_close self w v up empty part alive room =
      connect_established-calls k (callbacks k sys_write on_close) (Greeted w) self w v up λ t h.
        if_rule (Returns (Greeted w)) (is_connected t.state)
          (λ _.
            Returns-mono (Sent k greeting t) (Greeted w) _
              (send-Sent k sys_write greeting greeting t refl h.inv h.up part alive
                (omega (arith, ap (λ b. b.writer) h.output)))
              λ u s. record {
                serving = record {
                  inv = s.taken.0;
                  up = ap is_connected s.same.state ∙ h.up;
                  empty = ap contents (s.same.input ∙ h.input) ∙ empty;
                };
                bytes =
                    s.taken.1
                    ∙ ap₂ (λ sent output. (sent ++ contents output) ++ greeting) h.sent h.output;
              })
          λ down. absurd (ground (arith, h.up, down))

  -- `handleRead` with the bytes `x ∷ d`, where there is room for them.
  pub handle_read-Heard :
      (sys_write : List ℕ → WriteResult) (on_close : Connection k → Option (Connection k)) (x : ℕ)
      (d : List ℕ) (w : Connection k)
      → IsServing k w
      → length (x ∷ d) ≤ read_limit w.input
      → length w.input.bytes + extra_size ≤ max_size
      → Returns
          (Relayed k [] w)
          (handle_read k (callbacks k sys_write on_close) (λ room. received (x ∷ d)) w)
  unfolding on_message
  handle_read-Heard sys_write on_close x d w v short grow =
      let readv : ℕ → ReadResult = λ room. received (x ∷ d) in
      let a = read_fd-Appended readv (x ∷ d) v.inv.input_valid refl short grow in
      let out = retrieve_all_as_string_lem a.valid in
      rw (handle_read-received k (callbacks k sys_write on_close) readv x d w refl) (record {
        serving = record {
          inv = record {
            synced = v.inv.synced;
            input_valid = out.1.valid;
            output_valid = v.inv.output_valid;
            waits = v.inv.waits;
          };
          up = v.up;
          empty = out.2;
        };
        bytes = sym (append-nil (accepted k w));
        grows = Extends-refl w.sent;
      })
