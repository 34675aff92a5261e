-- ===== src/TcpConnection/Run.antt =====
-- TcpConnection: its life as a sequence of steps, in any order and whatever the kernel answers: the
-- program's calls, the events on its channel and the functors that it has handed to its loop.
use mynuduo.Base.{
  IfReturns, IfReturns-mono, Option, refl, ℕ, ◌≡◌, subst, Bool, true, false, not, ◌&&◌, some, List,
}
use mynuduo.Buffer.{ReadResult, WriteResult}
use mynuduo.Channel.{Mask, set_revents, fire, handle_event, handle_event_with_guard}
use mynuduo.Channel.Dispatch.{handle_event-cases}
use mynuduo.Poller.{Epoll}
use mynuduo.TcpConnection.{
  Connection, UserCallbacks, connecting, send, send_in_loop, shutdown, shutdown_in_loop,
  force_close, force_close_in_loop, connect_established, connect_destroyed, handle_close,
  handle_read, handle_write, handle_error, channel_callbacks,
}
use mynuduo.TcpConnection.Onward.{
  Onward, Onward-refl, Onward-trans, send_in_loop-Onward, handle_write-Onward,
}
use mynuduo.TcpConnection.Life.{
  GoesOnward, unmoved, then_Onward, send-Onward, shutdown-Onward, shutdown_in_loop-Onward,
  force_close-Onward, handle_close-Onward, force_close_in_loop-Onward, handle_read-Onward,
  connect_established-Onward, connect_destroyed-Onward,
}

module _ (k : Epoll) (user : UserCallbacks k) where
  -- The poller has set the flags `m` on the channel.
  abbrev pub reported : Mask → Connection k → Connection k
  reported m w = record w { channel = set_revents m w.channel }

  -- One step of a connection. `send` may be called from another thread (`in_loop` is false), which hands
  -- a functor over; `shutdown` and `forceClose` are called on the loop's own thread, since their test of
  -- the state and what follows it are otherwise no one step. The steps `late_send` and so on are the
  -- functors, called by the loop at any time after.
  pub data Step (s : Connection k) (t : Connection k) : Type 0 where
    establishes :
        (self : ℕ) → s.state ≡ connecting → connect_established k user self s ≡ some t → Step s t
    happens :
        (alive : ℕ → Bool) (m : Mask) (readv : ℕ → ReadResult) (sys_write : List ℕ → WriteResult)
        → handle_event alive
            (set_revents m s.channel)
            (channel_callbacks k user readv sys_write)
            (reported m s)
          ≡ some t
        → Step s t
    sends :
        (in_loop : Bool) (memory : ℕ → List ℕ) (sys_write : List ℕ → WriteResult) (ptr len : ℕ)
        → send k in_loop memory sys_write ptr len s ≡ some t
        → Step s t
    shuts : shutdown k true s ≡ t → Step s t
    force_closes : force_close k true s ≡ t → Step s t
    late_send :
        (sys_write : List ℕ → WriteResult) (d : List ℕ)
        → send_in_loop k sys_write d s ≡ some t
        → Step s t
    late_shutdown : shutdown_in_loop k s ≡ t → Step s t
    late_close : force_close_in_loop k user s ≡ some t → Step s t
    destroys : connect_destroyed k user s ≡ some t → Step s t

  pub data Steps (s : Connection k) : Connection k → Type 0 where
    here : Steps s s
    next : {t u : Connection k} → Steps s t → Step t u → Steps s u

  module _ (onward : GoesOnward k user) where
    fire-Onward :
        (b : Bool) (f : Connection k → Option (Connection k)) (w : Connection k)
        → IfReturns (Onward k w) (f w)
        → IfReturns (Onward k w) (fire b (some f) w)
    fire-Onward true f w h = h
    fire-Onward false f w h = Onward-refl k w

    guarded :
        (m : Mask) (readv : ℕ → ReadResult) (sys_write : List ℕ → WriteResult) (w : Connection k)
        → IfReturns
            (Onward k w)
            (handle_event_with_guard m (channel_callbacks k user readv sys_write) w)
    unfolding handle_event_with_guard channel_callbacks handle_error
    guarded m readv sys_write w =
        then_Onward k w (fire (m.hup && not m.pollin) (some (handle_close k user)) w) _
          (fire-Onward _ (handle_close k user) w (handle_close-Onward k user onward w))
          λ w1.
            then_Onward k w1 (fire m.err (some (handle_error k user)) w1) _
              (fire-Onward m.err (handle_error k user) w1 (Onward-refl k w1))
              λ w2.
                then_Onward k w2 (fire m.pollin (some (handle_read k user readv)) w2) _
                  (fire-Onward m.pollin (handle_read k user readv) w2
                    (handle_read-Onward k user onward readv w2))
                  λ w3.
                    fire-Onward m.out (handle_write k sys_write) w3
                      (handle_write-Onward k sys_write w3)

    returned :
        (s t : Connection k) {m : Option (Connection k)}
        → m ≡ some t
        → IfReturns (Onward k s) m
        → Onward k s t
    returned s t e h = subst (IfReturns (Onward k s)) e h

    flagged : (m : Mask) (s : Connection k) → Onward k s (reported m s)
    flagged m s = unmoved k refl refl refl λ h. h

    Step-Onward : {s t : Connection k} → Step s t → Onward k s t
    Step-Onward {s} {t} (establishes self begins e) =
        returned s t e (connect_established-Onward k user onward self s begins)
    Step-Onward {s} {t} (happens alive m readv sys_write e) =
        let u = reported m s in
        returned s t e (
          IfReturns-mono (Onward k u) (Onward k s) _
            (handle_event-cases (IfReturns (Onward k u)) alive (set_revents m s.channel) _ u
              (Onward-refl k u) (guarded m readv sys_write u))
            λ v a. Onward-trans k (flagged m s) a)
    Step-Onward {s} {t} (sends in_loop memory sys_write ptr len e) =
        returned s t e (send-Onward k in_loop memory sys_write ptr len s)
    Step-Onward {s} (shuts e) = subst (Onward k s) e (shutdown-Onward k true s)
    Step-Onward {s} (force_closes e) = subst (Onward k s) e (force_close-Onward k true s)
    Step-Onward {s} {t} (late_send sys_write d e) =
        returned s t e (send_in_loop-Onward k sys_write d s)
    Step-Onward {s} (late_shutdown e) = subst (Onward k s) e (shutdown_in_loop-Onward k s)
    Step-Onward {s} {t} (late_close e) = returned s t e (force_close_in_loop-Onward k user onward s)
    Step-Onward {s} {t} (destroys e) = returned s t e (connect_destroyed-Onward k user onward s)

    -- Over any steps of a connection on which `shutdown` and `forceClose` are called on the loop's own
    -- thread alone, and whose user's callbacks do no more to it than they and `send` do, whatever the
    -- kernel answers: it goes through its states in order and never back, the bytes given to the kernel
    -- only grow at their end, a write side that is shut stays shut, and from when it is down, with its
    -- channel asking for nothing, no byte more is given.
    pub Steps-Onward : {s t : Connection k} → Steps s t → Onward k s t
    Steps-Onward {s} here = Onward-refl k s
    Steps-Onward (next r st) = Onward-trans k (Steps-Onward r) (Step-Onward st)
