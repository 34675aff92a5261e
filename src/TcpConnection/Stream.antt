-- ===== src/TcpConnection/Stream.antt =====
-- TcpConnection: no byte is lost, doubled or moved on its way to the kernel.
use mynuduo.Base.{
  Returns, Returns-mono, if_rule, not, ◌⊎◌, ℕ, ◌+◌, ◌-◌, ◌≤◌, ◌<◌, ◌≡◌, refl, Bool, true, false,
  ◌&&◌, List, [], ◌++◌, length, take, drop, ltb, ◌==◌, ◌∙◌, ap, sym, arith, max_size, inl, inr,
  Bool-cases, length-append, append_assoc, append-nil, length-drop, drop_all, take-append-drop,
}
use mynuduo.Base.Errno.{Errno}
use mynuduo.Buffer
use mynuduo.Buffer.{Buffer, contents, readable_bytes, WriteResult, wrote, write_failed, append}
use mynuduo.Buffer.Space.{length-contents}
use mynuduo.Buffer.Append.{append-Appended}
use mynuduo.Channel.{is_writing, writing_on}
use mynuduo.Poller.{Epoll}
use mynuduo.Poller.Sync.{IsSynced}
use mynuduo.TcpConnection.{
  Attempt, Connection, is_disconnected, wait_writable, keep_rest, tried, write_now, finish_send,
  send_in_loop, is_fault, queue_if,
}
use mynuduo.TcpConnection.Inv.{Inv, readable-nil, set_events-HasEvents}

module _ (k : Epoll) where
  -- The bytes that the connection has taken on: those that the kernel has, then those kept back.
  abbrev pub accepted : Connection k → List ℕ
  accepted w = w.sent ++ contents w.output

  -- In order, with these bytes sent and kept back.
  abbrev Holds : List ℕ → Buffer → Connection k → Type 0
  Holds sent output t = Inv k t × (t.sent ≡ sent) × (t.output ≡ output)

  wait_writable-Inv :
      (b : Bool) (w : Connection k)
      → is_writing w.channel ≡ b
      → IsSynced k w.poller w.channel
      → Buffer.IsValid w.input
      → Buffer.IsValid w.output
      → 0 < readable_bytes w.output
      → Returns (Holds w.sent w.output) (wait_writable k b w)
  unfolding wait_writable
  wait_writable-Inv true w e s i o h = (
    record { synced = s; input_valid = i; output_valid = o; waits = λ _. ground arith },
    refl,
    refl,
  )
  wait_writable-Inv false w e s i o h =
      let c = set_events-HasEvents k writing_on w s in
      rw c.returns (
        record { synced = c.synced; input_valid = i; output_valid = o; waits = λ _. ground arith },
        refl,
        refl,
      )

  -- What keeping `rest` back promises.
  record Kept (w t : Connection k) (rest : List ℕ) : Type 0 where
    inv : Inv k t
    sent : t.sent ≡ w.sent
    output : contents t.output ≡ contents w.output ++ rest

  keep_rest-Kept :
      (rest : List ℕ) (w : Connection k)
      → Inv k w
      → 0 < length rest
      → length rest + w.output.writer ≤ max_size
      → Returns (λ t. Kept w t rest) (keep_rest k rest w)
  unfolding keep_rest queue_if
  keep_rest-Kept rest w v some_left room =
      let a = append-Appended rest v.output_valid room in
      let kept : 0 < readable_bytes (append w.output rest) = omega (
        arith,
        length-contents a.valid,
        ap length a.bytes,
        length-append (contents w.output) rest,
      ) in
      Returns-mono (Holds w.sent (append w.output rest)) (λ t. Kept w t rest) _
        (wait_writable-Inv (is_writing w.channel) _ refl v.synced v.input_valid a.valid kept)
        λ t (inv, sent, output). record {
          inv = inv;
          sent = sent;
          output = ap contents output ∙ a.bytes;
        }

  -- `write` takes no more than it is given.
  abbrev pub WritesPart : (List ℕ → WriteResult) → Type 0
  WritesPart sys_write = (d : List ℕ) (n : ℕ) → sys_write d ≡ wrote n → n ≤ length d

  -- The peer has gone: what is being sent is given up.
  abbrev pub Fails : (List ℕ → WriteResult) → List ℕ → Type 0
  Fails sys_write d = (e : Errno) × (sys_write d ≡ write_failed e) × (is_fault e ≡ true)

  -- The bytes `d` when the kernel took the first `n` of them at once.
  part_sent :
      (n : ℕ) (d : List ℕ) (w t : Connection k)
      → (n ≡ 0) ⊎ (contents w.output ≡ [])
      → t.sent ≡ w.sent ++ take n d
      → contents t.output ≡ contents w.output ++ drop n d
      → accepted t ≡ accepted w ++ d
  part_sent n d w t (inl e) s o = rw (s, o) (rw e (rw (append-nil, ← append_assoc)))
  part_sent n d w t (inr empty) s o = rw (s, o, empty, append_assoc, take-append-drop, append-nil)

  -- The first `write` has gone as it may.
  record Tried (d : List ℕ) (w : Connection k) (a : Attempt k) : Type 0 where
    inv : Inv k a.conn
    output : a.conn.output ≡ w.output
    sent : a.conn.sent ≡ w.sent ++ take a.nwrote d
    part : a.nwrote ≤ length d
    first : (a.nwrote ≡ 0) ⊎ (contents w.output ≡ [])
    no_fault : a.fault ≡ false

  -- Nothing is left to keep back.
  all_taken :
      (n : ℕ) (d : List ℕ) (b : Bool)
      → b ≡ false
      → not b && ltb 0 (length d - n) ≡ false
      → drop n d ≡ []
  all_taken n d b f h = drop_all n d (ground arith)

  finish_send-accepted :
      (d : List ℕ) (w : Connection k) (a : Attempt k)
      → Tried d w a
      → length d + w.output.writer ≤ max_size
      → Returns (λ t. Inv k t × (accepted t ≡ accepted w ++ d)) (finish_send k d a)
  unfolding finish_send
  finish_send-accepted d w a r room =
      if_rule (Returns (λ t. Inv k t × (accepted t ≡ accepted w ++ d)))
        (not a.fault && ltb 0 (length d - a.nwrote))
        (λ more.
          Returns-mono (λ t. Kept a.conn t (drop a.nwrote d)) _ _
            (keep_rest-Kept (drop a.nwrote d) a.conn r.inv (ground (arith, length-drop a.nwrote d))
              (omega (arith, length-drop a.nwrote d, ap (λ b. b.writer) r.output)))
            λ t q. (
              q.inv,
              part_sent a.nwrote d w t r.first (q.sent ∙ r.sent)
                  (q.output ∙ ap (λ b. contents b ++ drop a.nwrote d) r.output),
            ))
        λ done. (
          r.inv,
          part_sent a.nwrote d w a.conn r.first r.sent (
              ap contents r.output
              ∙ sym (append-nil (contents w.output))
              ∙ ap (◌++◌ (contents w.output)) (sym (all_taken a.nwrote d a.fault r.no_fault done))),
        )

  tried-Tried :
      (sys_write : List ℕ → WriteResult) (d : List ℕ) (w : Connection k) (r : WriteResult)
      → sys_write d ≡ r
      → Inv k w
      → WritesPart sys_write
      → ¬ Fails sys_write d
      → readable_bytes w.output ≡ 0
      → Tried d w (tried k r d w)
  unfolding tried queue_if
  tried-Tried sys_write d w (wrote n) e v part alive none_left = record {
    inv = record {
      synced = v.synced;
      input_valid = v.input_valid;
      output_valid = v.output_valid;
      waits = v.waits;
    };
    output = refl;
    sent = refl;
    part = part d n e;
    first = inr (readable-nil v.output_valid none_left);
    no_fault = refl;
  }
  tried-Tried sys_write d w (write_failed err) e v part alive none_left = record {
    inv = v;
    output = refl;
    sent = sym (append-nil w.sent);
    part = omega arith;
    first = inl refl;
    no_fault = elim (Bool-cases (is_fault err)) [
      | inl bad ↦ absurd (alive (err, e, bad))
      | inr fine ↦ fine
    ];
  }

  -- `sendInLoop` on a connection in order that is not down, where `write` takes no more than it is
  -- given, the peer has not gone and the output buffer may still grow: it returns, the invariant
  -- holds, and the bytes taken on so far are followed by exactly those of this call, whatever part
  -- of them the kernel took.
  pub send_in_loop-accepted :
      (sys_write : List ℕ → WriteResult) (d : List ℕ) (w : Connection k)
      → Inv k w
      → is_disconnected w.state ≡ false
      → WritesPart sys_write
      → ¬ Fails sys_write d
      → length d + w.output.writer ≤ max_size
      → Returns (λ t. Inv k t × (accepted t ≡ accepted w ++ d)) (send_in_loop k sys_write d w)
  unfolding send_in_loop write_now
  send_in_loop-accepted sys_write d w v up part alive room =
      if_rule (Returns (λ t. Inv k t × (accepted t ≡ accepted w ++ d))) (is_disconnected w.state)
        (λ down. cc)
        λ _.
          finish_send-accepted d w _
            (if_rule (Tried d w) (not (is_writing w.channel) && readable_bytes w.output == 0)
              (λ direct. tried-Tried sys_write d w (sys_write d) refl v part alive (ground arith))
              λ later. record {
                inv = v;
                output = refl;
                sent = sym (append-nil w.sent);
                part = omega arith;
                first = inl refl;
                no_fault = refl;
              })
            room
