-- ===== src/TcpConnection/HighWater.antt =====
-- TcpConnection: which callbacks `sendInLoop` asks the loop for.
use mynuduo.Base.{
  Returns, Returns-mono, if_rule, if◌then◌else◌, not, ℕ, ◌+◌, ◌-◌, ◌≤◌, ◌<◌, ◌≡◌, refl, Bool, true,
  false, ◌&&◌, List, [], ◌∷◌, ◌++◌, length, take, drop, ltb, leb, ◌==◌, ◌∙◌, ap, sym, arith,
  max_size, add_size, append-nil, length-append, length-drop, length-take,
}
use mynuduo.Buffer.{contents, readable_bytes, WriteResult, wrote, write_failed, append}
use mynuduo.Buffer.Space.{length-contents, readable_lem}
use mynuduo.Buffer.Append.{append-Appended}
use mynuduo.Channel.{is_writing, writing_on}
use mynuduo.EventLoop.Pending.{pending-queue}
use mynuduo.Poller.{Epoll}
use mynuduo.Poller.Sync.{IsSynced}
use mynuduo.TcpConnection.{
  Attempt, Connection, Task, write_complete, high_water, is_disconnected, wait_writable, keep_rest,
  tried, write_now, finish_send, send_in_loop, queue_if,
}
use mynuduo.TcpConnection.Inv.{Inv, set_events-HasEvents}
use mynuduo.TcpConnection.Stream.{WritesPart}

module _ (k : Epoll) where
  -- The user is told that all of `d` was written, if it went at once, and that the bytes kept back
  -- have reached the mark, if they were below it, with their number.
  abbrev pub complete_told : Connection k → List ℕ → Connection k → List Task
  complete_told w d t =
      if length t.sent == length w.sent + length d && w.has_write_complete
      then write_complete ∷ []
      else []

  abbrev pub crossing : ℕ → Bool → ℕ → ℕ → List Task
  crossing mark has_mark old new =
      if (leb mark new && ltb old mark) && has_mark then high_water new ∷ [] else []

  abbrev pub mark_told : Connection k → Connection k → List Task
  mark_told w t =
      crossing w.high_water_mark w.has_high_water (readable_bytes w.output)
        (readable_bytes t.output)

  -- What the loop is told by taking on `d`.
  abbrev pub Told : List ℕ → Connection k → Connection k → Type 0
  Told d w t = t.loop.pending ≡ w.loop.pending ++ complete_told w d t ++ mark_told w t

  -- Where nothing is written and nothing kept, nothing is told.
  unmoved-Told :
      (d : List ℕ) (w t : Connection k)
      → t.output ≡ w.output
      → t.loop.pending ≡ w.loop.pending ++ complete_told w d t
      → Told d w t
  unmoved-Told d w t o p =
      let still : mark_told w t ≡ [] = ground (arith, ap readable_bytes o) in
      p
      ∙ sym (append-nil (w.loop.pending ++ complete_told w d t))
      ∙ ap (λ ts. w.loop.pending ++ complete_told w d t ++ ts) (sym still)

  unwritten-Told :
      (d : List ℕ) (w : Connection k)
      → 0 < length d
      → w.loop.pending ≡ w.loop.pending ++ complete_told w d w
  unwritten-Told d w h = ground (arith, append-nil w.loop.pending)

  pending-queue_if :
      (b : Bool) (f : Task) (w : Connection k)
      → (queue_if k b f w).loop.pending ≡ w.loop.pending ++ (if b then f ∷ [] else [])
  unfolding queue_if
  pending-queue_if true f w = pending-queue f w.loop
  pending-queue_if false f w = sym (append-nil w.loop.pending)

  -- What waiting for EPOLLOUT leaves alone.
  abbrev Same : Connection k → Connection k → Type 0
  Same w t = (t.loop ≡ w.loop) × (t.sent ≡ w.sent) × (t.output ≡ w.output)

  wait_writable-Same :
      (b : Bool) (w : Connection k)
      → IsSynced k w.poller w.channel
      → Returns (Same w) (wait_writable k b w)
  unfolding wait_writable
  wait_writable-Same true w s = (refl, refl, refl)
  wait_writable-Same false w s =
      let c = set_events-HasEvents k writing_on w s in rw c.returns (refl, refl, refl)

  -- What `t` shows of keeping `rest` back.
  record Rest (w t : Connection k) : Type 0 where
    sent : t.sent ≡ w.sent
    pending : t.loop.pending ≡ w.loop.pending ++ mark_told w t

  keep_rest-Rest :
      (rest : List ℕ) (w : Connection k)
      → Inv k w
      → length rest + w.output.writer ≤ max_size
      → Returns (Rest w) (keep_rest k rest w)
  unfolding keep_rest queue_if
  keep_rest-Rest rest w v room =
      let a = append-Appended rest v.output_valid room in
      let kept : readable_bytes (append w.output rest)
          ≡ add_size (readable_bytes w.output) (length rest) =
        omega (
          arith,
          length-contents a.valid,
          ap length a.bytes,
          length-append (contents w.output) rest,
          length-contents v.output_valid,
          readable_lem a.valid,
          a.valid.fits,
          a.valid.bounded,
        ) in
      let old = readable_bytes w.output in
      let new = add_size old (length rest) in
      let crossed = leb w.high_water_mark new && ltb old w.high_water_mark in
      let w1 = queue_if k (crossed && w.has_high_water) (high_water new) w in
      let w2 : Connection k = record w1 { output = append w1.output rest } in
      Returns-mono (Same w2) (Rest w) _ (wait_writable-Same (is_writing w.channel) w2 v.synced)
        λ t (loop, sent, output). record {
          sent = sent;
          pending =
              ap (λ l. l.pending) loop
              ∙ pending-queue_if (crossed && w.has_high_water) (high_water new) w
              ∙ ap (λ n. w.loop.pending ++ crossing w.high_water_mark w.has_high_water old n)
                  (sym (ap readable_bytes output ∙ kept));
        }

  -- The first `write` has gone as it may.
  record Asked (d : List ℕ) (w : Connection k) (a : Attempt k) : Type 0 where
    inv : Inv k a.conn
    output : a.conn.output ≡ w.output
    mark : a.conn.high_water_mark ≡ w.high_water_mark
    has_mark : a.conn.has_high_water ≡ w.has_high_water
    pending : a.conn.loop.pending ≡ w.loop.pending ++ complete_told w d a.conn

  tried-Asked :
      (sys_write : List ℕ → WriteResult) (d : List ℕ) (w : Connection k) (r : WriteResult)
      → sys_write d ≡ r
      → Inv k w
      → WritesPart k sys_write
      → 0 < length d
      → Asked d w (tried k r d w)
  unfolding tried queue_if
  tried-Asked sys_write d w (wrote n) e v part some_ = record {
    inv = record {
      synced = v.synced;
      input_valid = v.input_valid;
      output_valid = v.output_valid;
      waits = v.waits;
    };
    output = refl;
    mark = refl;
    has_mark = refl;
    pending =
        pending-queue_if (length d - n == 0 && w.has_write_complete) write_complete
          (record w { sent = w.sent ++ take n d })
        ∙ ap (λ b. w.loop.pending ++ (if b then write_complete ∷ [] else []))
            (ground (arith, part d n e, length-append w.sent (take n d), length-take n d));
  }
  tried-Asked sys_write d w (write_failed err) e v part some_ = record {
    inv = v;
    output = refl;
    mark = refl;
    has_mark = refl;
    pending = unwritten-Told d w some_;
  }

  finish_send-Told :
      (d : List ℕ) (w : Connection k) (a : Attempt k)
      → Asked d w a
      → length d + w.output.writer ≤ max_size
      → Returns (Told d w) (finish_send k d a)
  unfolding finish_send
  finish_send-Told d w a r room =
      if_rule (Returns (Told d w)) (not a.fault && ltb 0 (length d - a.nwrote))
        (λ more.
          Returns-mono (Rest a.conn) _ _
            (keep_rest-Rest (drop a.nwrote d) a.conn r.inv
              (omega (arith, length-drop a.nwrote d, ap (λ b. b.writer) r.output)))
            λ t q.
              q.pending
              ∙ (λ i.
                  r.pending i
                  ++ crossing (r.mark i) (r.has_mark i) (readable_bytes (r.output i))
                      (readable_bytes t.output))
              ∙ ap
                  (λ s.
                    w.loop.pending
                    ++ (if length s == length w.sent + length d && w.has_write_complete
                        then write_complete ∷ []
                        else [])
                    ++ mark_told w t)
                  (sym q.sent))
        λ done. unmoved-Told d w a.conn r.output r.pending

  -- `sendInLoop` of at least one byte, on a connection in order, where `write` takes no more than it is
  -- given and the output buffer may still grow: it returns, and it hands the loop, behind what waits
  -- there, the write-complete callback exactly where all bytes were written at once, and the
  -- high-water callback, with the number of the bytes kept back, exactly where that number has come
  -- from below the mark to it or past it; nothing else.
  pub send_in_loop-Told :
      (sys_write : List ℕ → WriteResult) (d : List ℕ) (w : Connection k)
      → Inv k w
      → WritesPart k sys_write
      → 0 < length d
      → length d + w.output.writer ≤ max_size
      → Returns (Told d w) (send_in_loop k sys_write d w)
  unfolding send_in_loop write_now
  send_in_loop-Told sys_write d w v part some_ room =
      if_rule (Returns (Told d w)) (is_disconnected w.state)
        (λ down. unmoved-Told d w w refl (unwritten-Told d w some_))
        λ _.
          finish_send-Told d w _
            (if_rule (Asked d w) (not (is_writing w.channel) && readable_bytes w.output == 0)
              (λ direct. tried-Asked sys_write d w (sys_write d) refl v part some_)
              λ later. record {
                inv = v;
                output = refl;
                mark = refl;
                has_mark = refl;
                pending = unwritten-Told d w some_;
              })
            room
