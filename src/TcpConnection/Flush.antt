-- ===== src/TcpConnection/Flush.antt =====
-- TcpConnection: events of EPOLLOUT empty the output buffer, if the kernel takes a byte at each.
use mynuduo.Base.{
  Bool-cases, inl, inr, Returns, Returns-bind, Returns-also, Returns-mono, IfReturns,
  IfReturns-bind, IfReturns-chain, if_rule, ℕ, zero, suc, ◌≤◌, ◌<◌, ◌≡◌, refl, sym, ap, subst, ◌∙◌,
  Bool, true, false, Option, some, List, [], ◌∷◌, ◌++◌, length, take, ltb, ◌==◌, if◌then◌else◌,
  arith, append-nil, length-append, ◌>>=◌,
}
use mynuduo.Buffer.{contents, readable_bytes, WriteResult, wrote, retrieve}
use mynuduo.Buffer.Retrieve.{peek_all, write_fd_lem}
use mynuduo.Channel.{Channel, is_writing, writing_off}
use mynuduo.Poller.{Epoll, Poller, change_events}
use mynuduo.TcpConnection.{
  Connection, handle_write, after_write, after_result, set_events, queue_if, shutdown_in_loop,
  is_disconnected, is_disconnecting, write_complete,
}
use mynuduo.TcpConnection.Inv.{Inv, nil-readable, readable-nil}
use mynuduo.TcpConnection.Stream.{accepted}
use mynuduo.Buffer.Space.{length-contents}
use mynuduo.TcpConnection.Onward.{Onward, handle_write-Onward}
use mynuduo.TcpConnection.Drain.{Drained, handle_write-Drained}

module _ (k : Epoll) (sys_write : List ℕ → WriteResult) where
  -- `n` events of EPOLLOUT.
  pub flush : ℕ → Connection k → Option (Connection k)
  flush zero w = some w
  flush (suc n) w = handle_write k sys_write w >>= flush n

  -- A `write` of something takes a byte or more.
  abbrev pub TakesSome : Type 0
  TakesSome = (x : ℕ) (d : List ℕ) → (n : ℕ) × (sys_write (x ∷ d) ≡ wrote (suc n))

  -- Everything taken on is with the kernel, and a shutdown that was waiting for it is over.
  pub record Flushed (w t : Connection k) : Type 0 where
    pub inv : Inv k t
    pub state : t.state ≡ w.state
    pub empty : contents t.output ≡ []
    pub sent : t.sent ≡ accepted k w
    pub idle : is_writing t.channel ≡ false
    pub shut : is_writing w.channel ≡ true → is_disconnecting w.state ≡ true → t.write_shut ≡ true
    pub stays_shut : w.write_shut ≡ true → t.write_shut ≡ true

  on_and_off : {b : Bool} → b ≡ true → b ≡ false → ⊥
  on_and_off h l = cc

  handle_write-idle :
      (w : Connection k) → is_writing w.channel ≡ false → handle_write k sys_write w ≡ some w
  unfolding handle_write
  handle_write-idle w h =
      if_rule (λ o. o ≡ some w) (is_writing w.channel) (λ on. absurd (on_and_off on h)) λ _. refl

  flush-idle : (n : ℕ) (w : Connection k) → is_writing w.channel ≡ false → flush n w ≡ some w
  unfolding flush
  flush-idle zero w h = refl
  flush-idle (suc n) w h = ap (λ o. o >>= flush n) (handle_write-idle w h) ∙ flush-idle n w h

  idle_when_empty :
      (w : Connection k)
      → Inv k w
      → is_disconnected w.state ≡ false
      → contents w.output ≡ []
      → is_writing w.channel ≡ false
  idle_when_empty w v up e = ground (arith, v.waits up, nil-readable v.output_valid e)

  -- The bytes that the kernel has are these.
  abbrev Gave : List ℕ → Connection k → Type 0
  Gave d t = t.sent ≡ d

  flushed-Gave :
      (d : List ℕ) (w : Connection k)
      → Gave d w
      → Gave d (
          let w3 = queue_if k w.has_write_complete write_complete w in
          if is_disconnecting w3.state then shutdown_in_loop k w3 else w3)
  unfolding queue_if shutdown_in_loop
  flushed-Gave d w h =
      if_rule (λ (t : Connection k). t.sent ≡ d) (is_disconnecting w.state) (λ _. h) λ _. h

  after_write-Gave : (n : ℕ) (w : Connection k) → IfReturns (Gave w.sent) (after_write k n w)
  unfolding after_write set_events
  after_write-Gave n w =
      let w1 : Connection k = record w { output = retrieve w.output n } in
      if_rule (IfReturns (Gave w.sent)) (readable_bytes w1.output == 0)
        (λ _.
          IfReturns-chain (Gave w.sent) (Gave w.sent) (set_events k writing_off w1) _ (off w1)
            (flushed-Gave w.sent))
        λ _. same w
    where
      off : (w : Connection k) → IfReturns (Gave w.sent) (set_events k writing_off w)
      off w =
          IfReturns-bind {A = Channel × Poller k} (Gave w.sent)
            (change_events k (writing_off w.channel.events) w.channel w.poller)
            (λ (c, p). some (record w { channel = c; poller = p })) λ r. refl

      same : (w : Connection k) → Gave w.sent w
      same w = refl

  -- One event on which the kernel takes something.
  handle_write-Gave :
      (n : ℕ) (w : Connection k)
      → Inv k w
      → is_writing w.channel ≡ true
      → sys_write (contents w.output) ≡ wrote (suc n)
      → IfReturns (Gave (w.sent ++ take (suc n) (contents w.output))) (handle_write k sys_write w)
  unfolding handle_write after_result
  handle_write-Gave n w v on takes =
      if_rule (IfReturns (Gave (w.sent ++ take (suc n) (contents w.output)))) (is_writing w.channel)
        (λ _.
          rw (write_fd_lem sys_write v.output_valid, takes, peek_all v.output_valid)
            (if_rule (IfReturns (Gave (w.sent ++ take (suc n) (contents w.output)))) (ltb 0 (suc n))
              (λ _.
                after_write-Gave (suc n)
                  (record w { sent = w.sent ++ take (suc n) (contents w.output) }))
              λ no. absurd (ground (arith, no))))
        λ off. absurd (on_and_off on off)

  -- Fewer bytes are left.
  less_left :
      (w t : Connection k) (x n : ℕ) (d : List ℕ)
      → contents w.output ≡ x ∷ d
      → accepted k t ≡ accepted k w
      → t.sent ≡ w.sent ++ take (suc n) (contents w.output)
      → length (contents t.output) < length (contents w.output)
  less_left w t x n d e same gave = omega (
    arith,
    ap length same,
    ap length gave,
    length-append t.sent (contents t.output),
    length-append w.sent (contents w.output),
    length-append w.sent (take (suc n) (contents w.output)),
    ap (λ l. length (take (suc n) l)) e,
  )

  flushed :
      (w : Connection k)
      → Inv k w
      → is_disconnected w.state ≡ false
      → contents w.output ≡ []
      → Flushed w w
  flushed w v up e =
      let off = idle_when_empty w v up e in
      record {
        inv = v;
        state = refl;
        empty = e;
        sent = sym (append-nil w.sent) ∙ ap (◌++◌ w.sent) (sym e);
        idle = off;
        shut = λ on closing. absurd (on_and_off on off);
        stays_shut = λ h. h;
      }

  busy_when_left :
      (w : Connection k) (x : ℕ) (d : List ℕ)
      → Inv k w
      → is_disconnected w.state ≡ false
      → contents w.output ≡ x ∷ d
      → is_writing w.channel ≡ true
  busy_when_left w x d v up e =
      ground (arith, v.waits up, length-contents v.output_valid, ap length e)

  empty_when_idle :
      (w : Connection k)
      → Inv k w
      → is_disconnected w.state ≡ false
      → is_writing w.channel ≡ false
      → contents w.output ≡ []
  empty_when_idle w v up off = readable-nil v.output_valid (ground (arith, v.waits up, off))

  -- What one event leaves for the others.
  after_one :
      (w t u : Connection k)
      → Drained k w t
      → is_disconnected w.state ≡ false
      → is_writing w.channel ≡ true
      → Onward k w t
      → Flushed t u
      → Flushed w u
  after_one w t u h up on o g = record {
    inv = g.inv;
    state = g.state ∙ h.state;
    empty = g.empty;
    sent = g.sent ∙ h.bytes;
    idle = g.idle;
    shut = λ _ closing. elim (Bool-cases (is_writing t.channel)) [
      | inl more ↦ g.shut more (ap is_disconnecting h.state ∙ closing)
      | inr off ↦
          g.stays_shut
            (h.shut on closing (empty_when_idle t h.inv (ap is_disconnected h.state ∙ up) off))
    ];
    stays_shut = λ shut. g.stays_shut (o.shut shut);
  }

  flush_left :
      (n : ℕ) (left : List ℕ) (w : Connection k)
      → TakesSome
      → Inv k w
      → is_disconnected w.state ≡ false
      → contents w.output ≡ left
      → length (contents w.output) ≤ n
      → Returns (Flushed w) (flush n w)
  unfolding flush
  flush_left n [] w takes v up e le =
      subst (Returns (Flushed w)) (sym (flush-idle n w (idle_when_empty w v up e)))
        (flushed w v up e)
  flush_left zero (x ∷ d) w takes v up e le = absurd (omega (arith, ap length e))
  flush_left (suc n) (x ∷ d) w takes v up e le =
      let on = busy_when_left w x d v up e in
      let (m, wrote_some) = takes x d in
      let Gone : Connection k → Type 0 = Gave (w.sent ++ take (suc m) (contents w.output)) in
      Returns-bind (Flushed w) (λ t. (Drained k w t × Gone t) × Onward k w t)
        (handle_write k sys_write w) (flush n)
        (Returns-also (λ t. Drained k w t × Gone t) (Onward k w) _
          (Returns-also (Drained k w) Gone _ (handle_write-Drained k sys_write w v)
            (handle_write-Gave m w v on (ap sys_write e ∙ wrote_some)))
          (handle_write-Onward k sys_write w))
        λ t ((h, gave), o).
          Returns-mono (Flushed t) (Flushed w) (flush n t)
            (flush_left n (contents t.output) t takes h.inv (ap is_disconnected h.state ∙ up) refl
              (omega (arith, less_left w t x m d e h.bytes gave)))
            λ u g. after_one w t u h up on o g

  -- A connection that is up or closing, in order, with a kernel that takes a byte or more of each
  -- `write`: after as many events of EPOLLOUT as there are bytes kept back, or more, the kernel has
  -- all that was taken on, in order, the channel waits no longer, and a shutdown that had to wait for it
  -- has shut the write side.
  pub flush-Flushed :
      (n : ℕ) (w : Connection k)
      → TakesSome
      → Inv k w
      → is_disconnected w.state ≡ false
      → length (contents w.output) ≤ n
      → Returns (Flushed w) (flush n w)
  flush-Flushed n w takes v up enough = flush_left n (contents w.output) w takes v up refl enough
