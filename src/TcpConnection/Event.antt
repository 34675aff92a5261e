-- ===== src/TcpConnection/Event.antt =====
-- TcpConnection: a whole event on its channel, as `handleEvent` hands it to the callbacks that the
-- constructor has set.
use mynuduo.Base.{
  Returns, Returns-bind, Returns-mono, ℕ, ◌+◌, ◌≤◌, ◌≡◌, refl, sym, subst, Bool, true, false, not,
  ◌&&◌, some, List, length, max_size,
}
use mynuduo.Buffer.{ReadResult, WriteResult, received, read_limit, extra_size}
use mynuduo.Channel.{Mask, fire, handle_event, handle_event_with_guard}
use mynuduo.Channel.Dispatch.{handle_event-cases}
use mynuduo.Poller.{Epoll}
use mynuduo.TcpConnection.{
  Connection, UserCallbacks, channel_callbacks, handle_close, handle_error, handle_read,
  handle_write,
}
use mynuduo.TcpConnection.Inv.{Inv}
use mynuduo.TcpConnection.Close.{KeepsInv, handle_close-Inv, handle_read-Inv}
use mynuduo.TcpConnection.Drain.{handle_write-Drained}

module _ (k : Epoll) (user : UserCallbacks k) (keeps : KeepsInv k user) (readv : ℕ → ReadResult)
    (sys_write : List ℕ → WriteResult) where
  -- The connection is as `w` until the close callback has run.
  Before : Bool → Connection k → Connection k → Type 0
  Before reads w t = Inv k t × (reads ≡ true → t ≡ w)

  module _ (w : Connection k) (v : Inv k w) where
    closing :
        (reads hup : Bool)
        → Returns (Before reads w) (fire (hup && not reads) (some (handle_close k user)) w)
    unfolding Before
    closing true true = (v, λ _. refl)
    closing true false = (v, λ _. refl)
    closing false false = (v, λ _. refl)
    closing false true =
        Returns-mono (Inv k) (Before false w) _ (handle_close-Inv k user keeps w v)
          λ t u. (u, λ h. cc)

    erring :
        (reads err : Bool) (t : Connection k)
        → Before reads w t
        → Returns (Before reads w) (fire err (some (handle_error k user)) t)
    unfolding handle_error
    erring reads true t b = b
    erring reads false t b = b

    writing :
        (out : Bool) (t : Connection k)
        → Inv k t
        → Returns (Inv k) (fire out (some (handle_write k sys_write)) t)
    writing true t u = Returns-mono _ (Inv k) _ (handle_write-Drained k sys_write t u) λ x d. d.inv
    writing false t u = u

    module _
        (part : (d : List ℕ)
          → readv (read_limit w.input) ≡ received d
          → length d ≤ read_limit w.input)
        (room : length w.input.bytes + extra_size ≤ max_size) where
      reading :
          (reads : Bool) (t : Connection k)
          → Before reads w t
          → Returns (Inv k) (fire reads (some (handle_read k user readv)) t)
      unfolding Before
      reading true t b =
          subst (λ x. Returns (Inv k) (handle_read k user readv x)) (sym (b.1 refl))
            (handle_read-Inv k user keeps readv w v part room)
      reading false t b = b.0

      guarded :
          (m : Mask)
          → Returns (Inv k) (handle_event_with_guard m (channel_callbacks k user readv sys_write) w)
      unfolding handle_event_with_guard channel_callbacks
      guarded m = Returns-bind (Inv k) (Before m.pollin w) _ _ (closing m.pollin m.hup) λ w1 b1.
          Returns-bind (Inv k) (Before m.pollin w) _ _ (erring m.pollin m.err w1 b1) λ w2 b2.
            Returns-bind (Inv k) (Inv k) _ _ (reading m.pollin w2 b2) λ w3 b3. writing m.out w3 b3

      -- Any event on the channel of a connection in order, with any flags reported at once, where
      -- `readv` returns no more than it was offered room for, the input buffer may still grow and the
      -- user's callbacks keep the invariant: `handleEvent` returns and keeps the invariant, whether it
      -- closes, reads, writes or does several of these, and whatever `write` answers.
      pub handle_event-Inv :
          (alive : ℕ → Bool)
          → Returns
              (Inv k)
              (handle_event alive w.channel (channel_callbacks k user readv sys_write) w)
      handle_event-Inv alive =
          handle_event-cases (Returns (Inv k)) alive w.channel _ w v (guarded w.channel.revents)
