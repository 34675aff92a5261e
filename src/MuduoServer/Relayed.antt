-- ===== src/MuduoServer/Relayed.antt =====
-- MuduoServer: over any sequence of events the connection gives back exactly what it gets.
use mynuduo.Base.{
  Returns, Returns-mono, Returns-bind, Returns-also, IfReturns, ℕ, ◌+◌, ◌≤◌, ◌≡◌, refl, sym, ap,
  ap₂, subst, ◌∙◌, true, false, Option, List, [], ◌∷◌, ◌++◌, length, arith, append_assoc,
  append-nil, max_size,
}
use mynuduo.Buffer.{
  contents, ReadResult, received, WriteResult, extra_size, read_limit, read_fd,
  retrieve_all_as_string,
}
use mynuduo.Buffer.Append.{read_fd-Appended}
use mynuduo.Buffer.Retrieve.{retrieve_all_as_string_lem}
use mynuduo.Poller.{Epoll}
use mynuduo.TcpConnection.{Connection, is_connected, is_disconnected, connect_established}
use mynuduo.TcpConnection.Inv.{Inv}
use mynuduo.TcpConnection.Close.{connect_established-calls}
use mynuduo.TcpConnection.Stream.{accepted, WritesPart, Fails}
use mynuduo.TcpConnection.Drain.{Drained, handle_write-Drained}
use mynuduo.TcpConnection.Keeps.{Extends, Extends-refl, Extends-trans, handle_read-received}
use mynuduo.TcpConnection.Onward.{Onward, handle_write-Onward}
use mynuduo.EchoServer.Echoed.{Sent, send-Sent}
use mynuduo.MuduoServer.{
  Event, reads, writes, on_connection, on_message, callbacks, handle, run, got,
}

module _ (k : Epoll) where
  -- Up, in order, and with nothing unread.
  pub record IsServing (w : Connection k) : Type 0 where
    pub inv : Inv k w
    pub up : is_connected w.state ≡ true
    pub empty : contents w.input ≡ []

  -- `msg` has been taken on for the peer.
  pub record Relayed (msg : List ℕ) (w t : Connection k) : Type 0 where
    pub serving : IsServing t
    pub bytes : accepted k t ≡ accepted k w ++ msg
    pub grows : Extends w.sent t.sent

  -- The connection is up with nothing unread, and its buffers and what it has sent are as before.
  pub record CameUp (w t : Connection k) : Type 0 where
    pub serving : IsServing t
    pub input : t.input ≡ w.input
    pub output : t.output ≡ w.output
    pub bytes : accepted k t ≡ accepted k w

  pub connect_established-CameUp :
      (sys_write : List ℕ → WriteResult) (on_close : Connection k → Option (Connection k))
      (self : ℕ) (w : Connection k)
      → Inv k w
      → is_disconnected w.state ≡ false
      → contents w.input ≡ []
      → Returns (CameUp w) (connect_established k (callbacks k sys_write on_close) self w)
  unfolding on_connection
  connect_established-CameUp sys_write on_close self w v up empty =
      connect_established-calls k (callbacks k sys_write on_close) (CameUp w) self w v up λ t h.
        record {
          serving = record { inv = h.inv; up = h.up; empty = ap contents h.input ∙ empty };
          input = h.input;
          output = h.output;
          bytes = ap₂ (λ sent output. sent ++ contents output) h.sent h.output;
        }

  on_message-Relayed :
      (sys_write : List ℕ → WriteResult) (w : Connection k)
      → Inv k w
      → is_connected w.state ≡ true
      → WritesPart k sys_write
      → ¬ Fails k sys_write (contents w.input)
      → length (contents w.input) + w.output.writer ≤ max_size
      → Returns (Relayed (contents w.input) w) (on_message k sys_write w)
  unfolding on_message
  on_message-Relayed sys_write w v up part alive room =
      let msg = contents w.input in
      let out = retrieve_all_as_string_lem v.input_valid in
      let w1 : Connection k = record w { input = (retrieve_all_as_string w.input).1 } in
      let v1 : Inv k w1 = record {
        synced = v.synced;
        input_valid = out.1.valid;
        output_valid = v.output_valid;
        waits = v.waits;
      } in
      Returns-mono (Sent k msg w1) (Relayed msg w) _
        (send-Sent k sys_write msg (retrieve_all_as_string w.input).0 w1 out.0 v1 up part alive
          room)
        λ t h. record {
          serving = record {
            inv = h.taken.0;
            up = ap is_connected h.same.state ∙ up;
            empty = ap contents h.same.input ∙ out.2;
          };
          bytes = h.taken.1;
          grows = h.same.grows;
        }

  -- What an event relies on: the kernel reads no more than it was offered room for and writes no more
  -- than it is given, the peer has not gone, and both buffers may still grow.
  abbrev pub Allowed : Event k → Connection k → Type 0
  Allowed (reads x d sys_write) w =
      (length (x ∷ d) ≤ read_limit w.input)
      × (length w.input.bytes + extra_size ≤ max_size)
      × WritesPart k sys_write
      × ¬ Fails k sys_write (x ∷ d)
      × (length (x ∷ d) + w.output.writer ≤ max_size)
  Allowed (writes sys_write) w = Unit {0}

  module _ (on_close : Connection k → Option (Connection k)) where
    pub handle-Relayed :
        (e : Event k) (w : Connection k)
        → IsServing w
        → Allowed e w
        → Returns (Relayed (got k (e ∷ [])) w) (handle k on_close e w)
    unfolding handle
    handle-Relayed (reads x d sys_write) w v (short, grow, part, alive, room) =
        let readv : ℕ → ReadResult = λ room. received (x ∷ d) in
        let a = read_fd-Appended readv (x ∷ d) v.inv.input_valid refl short grow in
        let w1 : Connection k = record w { input = (read_fd w.input readv).1 } in
        let v1 : Inv k w1 = record {
          synced = v.inv.synced;
          input_valid = a.valid;
          output_valid = v.inv.output_valid;
          waits = v.inv.waits;
        } in
        let all : contents w1.input ≡ x ∷ d = a.bytes ∙ ap (λ c. c ++ x ∷ d) v.empty in
        rw (handle_read-received k (callbacks k sys_write on_close) readv x d w refl) (
          Returns-mono (Relayed (contents w1.input) w1) (Relayed (x ∷ (d ++ [])) w) _
            (on_message-Relayed sys_write w1 v1 v.up part
              (λ f. alive (subst (Fails k sys_write) all f)) (omega (arith, ap length all)))
            λ t h. record {
              serving = h.serving;
              bytes = h.bytes ∙ ap (◌++◌ (accepted k w)) (all ∙ ap (◌∷◌ x) (sym (append-nil d)));
              grows = h.grows;
            })
    handle-Relayed (writes sys_write) w v a =
        Returns-mono (λ t. Drained k w t × Onward k w t) (Relayed [] w) _
          (Returns-also (Drained k w) (Onward k w) _ (handle_write-Drained k sys_write w v.inv)
            (handle_write-Onward k sys_write w))
          λ t (h, o). record {
            serving = record {
              inv = h.inv;
              up = ap is_connected h.state ∙ v.up;
              empty = ap contents h.input ∙ v.empty;
            };
            bytes = h.bytes ∙ sym (append-nil (accepted k w));
            grows = o.sent;
          }

    -- Every event is allowed where the events before it have left the connection.
    abbrev pub AllAllowed : List (Event k) → Connection k → Type 0
    AllAllowed [] w = Unit {0}
    AllAllowed (e ∷ es) w = Allowed e w × IfReturns (AllAllowed es) (handle k on_close e w)

    got-cons : (e : Event k) (es : List (Event k)) → got k (e ∷ es) ≡ got k (e ∷ []) ++ got k es
    got-cons (reads x d sys_write) es = ap (◌∷◌ x) (ap (λ l. l ++ got k es) (sym (append-nil d)))
    got-cons (writes sys_write) es = refl

    -- The server's connection, up and in order with nothing unread, over any sequence of reads and of
    -- room to write in any order, each allowed where it comes: the handlers return, the connection is
    -- as before, and what it has taken on for the peer has grown by exactly the bytes that came, in
    -- their order, however little the kernel takes at a time.
    pub run-Relayed :
        (es : List (Event k)) (w : Connection k)
        → IsServing w
        → AllAllowed es w
        → Returns (Relayed (got k es) w) (run k on_close es w)
    unfolding run
    run-Relayed [] w v a = record {
      serving = v;
      bytes = sym (append-nil (accepted k w));
      grows = Extends-refl w.sent;
    }
    run-Relayed (e ∷ es) w v (now, later) =
        let Moved : Connection k → Type 0 = λ t. Relayed (got k (e ∷ [])) w t × AllAllowed es t in
        Returns-bind (Relayed (got k (e ∷ es)) w) Moved (handle k on_close e w) (run k on_close es)
          (Returns-also (Relayed (got k (e ∷ [])) w) (AllAllowed es) _ (handle-Relayed e w v now)
            later)
          λ t (h, allowed).
            Returns-mono (Relayed (got k es) t) (Relayed (got k (e ∷ es)) w) _
              (run-Relayed es t h.serving allowed)
              λ u g. record {
                serving = g.serving;
                bytes =
                    g.bytes
                    ∙ ap (λ l. l ++ got k es) h.bytes
                    ∙ append_assoc (accepted k w) (got k (e ∷ [])) (got k es)
                    ∙ ap (◌++◌ (accepted k w)) (sym (got-cons e es));
                grows = Extends-trans w.sent t.sent u.sent h.grows g.grows;
              }
