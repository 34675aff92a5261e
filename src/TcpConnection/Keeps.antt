-- ===== src/TcpConnection/Keeps.antt =====
-- TcpConnection: what `sendInLoop` leaves alone, and two calls of a program's callbacks.
use mynuduo.Base.{
  IfReturns, IfReturns-bind, if_rule, not, ◌&&◌, ℕ, ◌-◌, ◌≡◌, refl, Bool, true, false, List, length,
  drop, take, some, [], ◌∷◌, ◌++◌, ap, sym, ◌∙◌, append-nil, append_assoc, ltb, ◌==◌,
}
use mynuduo.Buffer.{
  Buffer, readable_bytes, WriteResult, wrote, write_failed, ReadResult, received, read_limit,
  read_fd,
}
use mynuduo.Channel.{Channel, is_writing, writing_on}
use mynuduo.Poller.{Epoll, Poller, change_events}
use mynuduo.TcpConnection.{
  State, Attempt, Connection, is_disconnected, set_events, wait_writable, keep_rest, tried,
  write_now, finish_send, send_in_loop, queue_if, send, is_connected, handle_read, after_read,
  UserCallbacks,
}

-- `base` with more behind it.
abbrev pub Extends : List ℕ → List ℕ → Type 0
Extends base l = (more : List ℕ) × (l ≡ base ++ more)

pub Extends-refl : (base : List ℕ) → Extends base base
Extends-refl base = ([], sym (append-nil base))

pub Extends-append : (base l d : List ℕ) → Extends base l → Extends base (l ++ d)
Extends-append base l d (more, e) = (more ++ d, ap (λ l. l ++ d) e ∙ append_assoc base more d)

pub Extends-trans : (xs ys zs : List ℕ) → Extends xs ys → Extends ys zs → Extends xs zs
Extends-trans xs ys zs (d, e) (f, h) = (d ++ f, h ∙ ap (λ l. l ++ f) e ∙ append_assoc xs d f)

module _ (k : Epoll) (s : State) (b : Buffer) (shut : Bool) (base : List ℕ) where
  -- The state, the input buffer and the write side of the socket are these, and the bytes that the
  -- kernel has begin with `base`.
  pub record Same (t : Connection k) : Type 0 where
    pub state : t.state ≡ s
    pub input : t.input ≡ b
    pub write_shut : t.write_shut ≡ shut
    pub grows : Extends base t.sent

  wait_writable-Same :
      (on : Bool) (w : Connection k) → Same w → IfReturns Same (wait_writable k on w)
  unfolding wait_writable set_events
  wait_writable-Same true w h = h
  wait_writable-Same false w h =
      IfReturns-bind {A = Channel × Poller k} Same
        (change_events k (writing_on w.channel.events) w.channel w.poller)
        (λ (c, p). some (record w { channel = c; poller = p }))
        λ r. record { state = h.state; input = h.input; write_shut = h.write_shut; grows = h.grows }

  keep_rest-Same : (rest : List ℕ) (w : Connection k) → Same w → IfReturns Same (keep_rest k rest w)
  unfolding keep_rest queue_if
  keep_rest-Same rest w h =
      wait_writable-Same _ _
        (record { state = h.state; input = h.input; write_shut = h.write_shut; grows = h.grows })

  tried-Same :
      (r : WriteResult) (d : List ℕ) (w : Connection k) → Same w → Same (tried k r d w).conn
  unfolding tried queue_if
  tried-Same (wrote n) d w h = record {
    state = h.state;
    input = h.input;
    write_shut = h.write_shut;
    grows = Extends-append base w.sent (take n d) h.grows;
  }
  tried-Same (write_failed e) d w h = h

  finish_send-Same : (d : List ℕ) (a : Attempt k) → Same a.conn → IfReturns Same (finish_send k d a)
  unfolding finish_send
  finish_send-Same d a h =
      if_rule (IfReturns Same) (not a.fault && ltb 0 (length d - a.nwrote))
        (λ _. keep_rest-Same (drop a.nwrote d) a.conn h) λ _. h

  pub send_in_loop-Same :
      (sys_write : List ℕ → WriteResult) (d : List ℕ) (w : Connection k)
      → Same w
      → IfReturns Same (send_in_loop k sys_write d w)
  unfolding send_in_loop write_now
  send_in_loop-Same sys_write d w h =
      if_rule (IfReturns Same) (is_disconnected w.state) (λ _. h)
        λ _. finish_send-Same d _ (
          if_rule (λ (a : Attempt k). Same a.conn)
            (not (is_writing w.channel) && readable_bytes w.output == 0)
            (λ _. tried-Same (sys_write d) d w h) λ _. h)

module _ (k : Epoll) where
  pub send-connected :
      (memory : ℕ → List ℕ) (sys_write : List ℕ → WriteResult) (ptr len : ℕ) (w : Connection k)
      → is_connected w.state ≡ true
      → send k true memory sys_write ptr len w ≡ send_in_loop k sys_write (take len (memory ptr)) w
  unfolding send
  send-connected memory sys_write ptr len w up = rw up refl

  pub handle_read-received :
      (user : UserCallbacks k) (readv : ℕ → ReadResult) (x : ℕ) (d : List ℕ) (w : Connection k)
      → readv (read_limit w.input) ≡ received (x ∷ d)
      → handle_read k user readv w
        ≡ user.on_message (record w { input = (read_fd w.input readv).1 })
  unfolding handle_read read_fd after_read
  handle_read-received user readv x d w e =
      ap (λ r. after_read k user r (record w { input = (read_fd w.input readv).1 })) e
