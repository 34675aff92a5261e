-- ===== src/EchoServer/Echoed.antt =====
-- EchoServer: what a connection reads comes back on it, from the socket through both buffers.
use mynuduo.Base.{
  Returns, Returns-mono, Returns-bind, Returns-also, ℕ, ◌+◌, ◌≤◌, ◌≡◌, refl, sym, ap, subst, ◌∙◌,
  true, false, Option, some, ◌⊎◌, inl, inr, List, [], ◌∷◌, ◌++◌, length, take, take_all, arith,
  max_size,
}
use mynuduo.Buffer.{
  contents, ReadResult, received, WriteResult, extra_size, read_limit, read_fd,
  retrieve_all_as_string,
}
use mynuduo.Buffer.Append.{read_fd-Appended}
use mynuduo.Buffer.Retrieve.{retrieve_all_as_string_lem}
use mynuduo.Poller.{Epoll}
use mynuduo.TcpConnection.{
  Connection, State, is_connected, is_disconnected, is_disconnecting, send, send_in_loop, shutdown,
  handle_read,
}
use mynuduo.TcpConnection.Inv.{Inv}
use mynuduo.TcpConnection.Stream.{accepted, WritesPart, Fails, send_in_loop-accepted}
use mynuduo.TcpConnection.Keeps.{
  Same, Extends-refl, send_in_loop-Same, send-connected, handle_read-received,
}
use mynuduo.TcpConnection.Shutdown.{shutdown-ShutDown}
use mynuduo.EchoServer.{on_message, callbacks}

module _ (k : Epoll) where
  -- All of `msg` has been taken on for the peer, and the connection is closing.
  pub record Echoed (msg : List ℕ) (w t : Connection k) : Type 0 where
    pub inv : Inv k t
    pub bytes : accepted k t ≡ accepted k w ++ msg
    pub consumed : contents t.input ≡ []
    pub closing : is_disconnecting t.state ≡ true
    pub nothing_cut : t.write_shut ≡ true → (w.write_shut ≡ true) ⊎ (contents t.output ≡ [])

  not_down : (s : State) → is_connected s ≡ true → is_disconnected s ≡ false
  not_down s h = ground arith

  -- What sending `msg` leaves of `w`.
  pub record Sent (msg : List ℕ) (w t : Connection k) : Type 0 where
    pub taken : Inv k t × (accepted k t ≡ accepted k w ++ msg)
    pub same : Same k w.state w.input w.write_shut w.sent t

  pub send-Sent :
      (sys_write : List ℕ → WriteResult) (msg text : List ℕ) (w : Connection k)
      → text ≡ msg
      → Inv k w
      → is_connected w.state ≡ true
      → WritesPart k sys_write
      → ¬ Fails k sys_write msg
      → length msg + w.output.writer ≤ max_size
      → Returns (Sent msg w) (send k true (λ p. text) sys_write 0 (length text) w)
  send-Sent sys_write msg text w e v up part alive room =
      let Taken : Connection k → Type 0 = λ t. Inv k t × (accepted k t ≡ accepted k w ++ msg) in
      let Kept : Connection k → Type 0 = Same k w.state w.input w.write_shut w.sent in
      let all : take (length text) text ≡ msg = take_all _ _ (omega arith) ∙ e in
      rw (send-connected k (λ p. text) sys_write 0 (length text) w up, all)
        (Returns-mono (λ t. Taken t × Kept t) (Sent msg w) (send_in_loop k sys_write msg w)
          (Returns-also Taken Kept (send_in_loop k sys_write msg w)
            (send_in_loop-accepted k sys_write msg w v (not_down w.state up) part alive room)
            (send_in_loop-Same k w.state w.input w.write_shut w.sent sys_write msg w (record {
              state = refl;
              input = refl;
              write_shut = refl;
              grows = Extends-refl w.sent;
            })))
          λ t h. record { taken = h.0; same = h.1 })

  shut-Echoed :
      (msg : List ℕ) (w t : Connection k)
      → contents w.input ≡ []
      → is_connected w.state ≡ true
      → Sent msg w t
      → Echoed msg w (shutdown k true t)
  shut-Echoed msg w t empty up h =
      let d = shutdown-ShutDown k true t h.taken.0 in
      record {
        inv = d.inv;
        bytes = d.bytes ∙ h.taken.1;
        consumed = ap contents (d.input ∙ h.same.input) ∙ empty;
        closing = d.closing (ap is_connected h.same.state ∙ up);
        nothing_cut = λ cut. elim (d.nothing_cut cut) [
          | inl before ↦ inl (sym h.same.write_shut ∙ before)
          | inr out ↦ inr out
        ];
      }

  on_message-Echoed :
      (sys_write : List ℕ → WriteResult) (w : Connection k)
      → Inv k w
      → is_connected w.state ≡ true
      → WritesPart k sys_write
      → ¬ Fails k sys_write (contents w.input)
      → length (contents w.input) + w.output.writer ≤ max_size
      → Returns (Echoed (contents w.input) w) (on_message k sys_write w)
  unfolding on_message
  on_message-Echoed sys_write w v up part alive room =
      let msg = contents w.input in
      let out = retrieve_all_as_string_lem v.input_valid in
      let w1 : Connection k = record w { input = (retrieve_all_as_string w.input).1 } in
      let v1 : Inv k w1 = record {
        synced = v.synced;
        input_valid = out.1.valid;
        output_valid = v.output_valid;
        waits = v.waits;
      } in
      let text = retrieve_all_as_string w.input in
      Returns-bind (Echoed msg w) (Sent msg w1)
        (send k true (λ p. text.0) sys_write 0 (length text.0) w1) (λ t. some (shutdown k true t))
        (send-Sent sys_write msg text.0 w1 out.0 v1 up part alive room)
        λ t h.
          let e = shut-Echoed msg w1 t out.2 up h in
          record {
            inv = e.inv;
            bytes = e.bytes;
            consumed = e.consumed;
            closing = e.closing;
            nothing_cut = e.nothing_cut;
          }

  -- The echo server's connection, up and in order with nothing unread, where `readv` gives the bytes
  -- `x ∷ d`, no more than it was offered room for, `write` takes no more than it is given, the peer
  -- has not gone and both buffers may still grow: `handleRead` returns, exactly these bytes have been
  -- taken on for the peer behind those before, the input buffer is empty, the connection is
  -- closing, and the write side is shut by this only if no byte is kept back.
  pub handle_read-Echoed :
      (sys_write : List ℕ → WriteResult) (on_close : Connection k → Option (Connection k))
      (readv : ℕ → ReadResult) (x : ℕ) (d : List ℕ) (w : Connection k)
      → Inv k w
      → is_connected w.state ≡ true
      → contents w.input ≡ []
      → readv (read_limit w.input) ≡ received (x ∷ d)
      → length (x ∷ d) ≤ read_limit w.input
      → length w.input.bytes + extra_size ≤ max_size
      → WritesPart k sys_write
      → ¬ Fails k sys_write (x ∷ d)
      → length (x ∷ d) + w.output.writer ≤ max_size
      → Returns (Echoed (x ∷ d) w) (handle_read k (callbacks k sys_write on_close) readv w)
  handle_read-Echoed sys_write on_close readv x d w v up empty e short grow part alive room =
      let a = read_fd-Appended readv (x ∷ d) v.input_valid e short grow in
      let w1 : Connection k = record w { input = (read_fd w.input readv).1 } in
      let v1 : Inv k w1 = record {
        synced = v.synced;
        input_valid = a.valid;
        output_valid = v.output_valid;
        waits = v.waits;
      } in
      let all : contents w1.input ≡ x ∷ d = a.bytes ∙ ap (λ c. c ++ x ∷ d) empty in
      rw (handle_read-received k (callbacks k sys_write on_close) readv x d w e) (
        Returns-mono (Echoed (contents w1.input) w1) (Echoed (x ∷ d) w) _
          (on_message-Echoed sys_write w1 v1 up part (λ f. alive (subst (Fails k sys_write) all f))
            (omega (arith, ap length all)))
          λ t h. record {
            inv = h.inv;
            bytes = h.bytes ∙ ap (◌++◌ (accepted k w)) all;
            consumed = h.consumed;
            closing = h.closing;
            nothing_cut = h.nothing_cut;
          })
