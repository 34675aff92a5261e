-- ===== src/TcpConnection/Close.antt =====
-- TcpConnection: opening, closing and reading keep the invariant, whatever the kernel answers, if
-- the user's callbacks keep it.
use mynuduo.Base.{
  Returns, Returns-bind, if_rule, ℕ, ◌+◌, ◌≤◌, ◌≡◌, refl, true, false, ◌||◌, none, some, List, [],
  ◌∷◌, length, ◌>>=◌, arith, max_size,
}
use mynuduo.Buffer.{ReadResult, received, read_failed, read_limit, extra_size, read_fd}
use mynuduo.Buffer.Append.{read_fd-IsValid}
use mynuduo.Channel.{fresh, none_event, reading_on, tie}
use mynuduo.Poller.{Epoll, remove_channel}
use mynuduo.Poller.Sync.{remove_channel-Changed}
use mynuduo.TcpConnection.{
  Connection, UserCallbacks, disconnected, connected, is_disconnected, is_connected,
  is_disconnecting, set_events, handle_close, handle_read, handle_error, after_read,
  connect_established, connect_destroyed, force_close_in_loop,
}
use mynuduo.TcpConnection.Inv.{Inv, set_events-HasEvents}

module _ (k : Epoll) (user : UserCallbacks k) where
  -- The user's callbacks return, and leave a connection in order if they find it so.
  pub record KeepsInv : Type 0 where
    pub connection : (w : Connection k) → Inv k w → Returns (Inv k) (user.on_connection w)
    pub message : (w : Connection k) → Inv k w → Returns (Inv k) (user.on_message w)
    pub close : (w : Connection k) → Inv k w → Returns (Inv k) (user.on_close w)

  -- The channel is unknown to the poller and to the kernel.
  abbrev pub Gone : Connection k → Type 0
  Gone t = (t.channel.index ≡ fresh) × (k.registered t.poller.epoll t.channel.fd ≡ none)

  down-Inv :
      (w : Connection k)
      → Inv k w
      → Returns (Inv k) (set_events k (λ m. none_event) (record w { state = disconnected }))
  down-Inv w v =
      let c =
        set_events-HasEvents k (λ m. none_event) (record w { state = disconnected }) v.synced in
      rw c.returns (record {
        synced = c.synced;
        input_valid = v.input_valid;
        output_valid = v.output_valid;
        waits = λ h. cc;
      })

  -- What the connection callback finds when the connection comes up.
  pub record Opened (w t : Connection k) : Type 0 where
    pub inv : Inv k t
    pub up : is_connected t.state ≡ true
    pub input : t.input ≡ w.input
    pub output : t.output ≡ w.output
    pub sent : t.sent ≡ w.sent
    pub fd : t.channel.fd ≡ w.channel.fd

  -- `connectEstablished` does what the connection callback does of what it finds.
  pub connect_established-calls :
      (P : Connection k → Type 0) (self : ℕ) (w : Connection k)
      → Inv k w
      → is_disconnected w.state ≡ false
      → ((t : Connection k) → Opened w t → Returns P (user.on_connection t))
      → Returns P (connect_established k user self w)
  unfolding connect_established tie
  connect_established-calls P self w v up callback =
      let w1 : Connection k = record w { state = connected; channel = tie self w.channel } in
      let c =
        set_events-HasEvents k reading_on w1
          (record { in_kernel = v.synced.in_kernel; in_map = v.synced.in_map }) in
      rw c.returns (
        callback _ (record {
          inv = record {
            synced = c.synced;
            input_valid = v.input_valid;
            output_valid = v.output_valid;
            waits = λ h. ground (arith, v.waits up);
          };
          up = refl;
          input = refl;
          output = refl;
          sent = refl;
          fd = refl;
        }))

  module _ (keeps : KeepsInv) where
    -- `handleClose` returns and keeps the invariant.
    pub handle_close-Inv : (w : Connection k) → Inv k w → Returns (Inv k) (handle_close k user w)
    unfolding handle_close
    handle_close-Inv w v =
        Returns-bind (Inv k) (Inv k) _ _ (down-Inv w v)
          λ w1 v1. Returns-bind (Inv k) (Inv k) _ _ (keeps.connection w1 v1) keeps.close

    pub force_close_in_loop-Inv :
        (w : Connection k) → Inv k w → Returns (Inv k) (force_close_in_loop k user w)
    unfolding force_close_in_loop
    force_close_in_loop-Inv w v =
        if_rule (Returns (Inv k)) (is_connected w.state || is_disconnecting w.state)
          (λ _. handle_close-Inv w v) λ _. v

    -- `connectEstablished` on a connection that is not down returns and keeps the invariant, if
    -- the user's callbacks keep it.
    pub connect_established-Inv :
        (self : ℕ) (w : Connection k)
        → Inv k w
        → is_disconnected w.state ≡ false
        → Returns (Inv k) (connect_established k user self w)
    connect_established-Inv self w v up =
        connect_established-calls (Inv k) self w v up λ t h. keeps.connection t h.inv

    removed :
        (w : Connection k)
        → Inv k w
        → Returns
            (λ t. Inv k t × Gone t)
            (do
              (c, p) ← remove_channel k w.channel w.poller
              some (record w { channel = c; poller = p }))
    removed w v =
        let r = remove_channel-Changed k v.synced in
        rw r.returns (
          record {
            synced = r.synced;
            input_valid = v.input_valid;
            output_valid = v.output_valid;
            waits = v.waits;
          },
          (refl, r.synced.in_kernel),
        )

    -- `connectDestroyed`, in whatever state it finds the connection, if the user's callbacks keep
    -- the invariant: it returns, the invariant holds, and neither the poller nor the kernel knows
    -- the channel any more.
    pub connect_destroyed-Gone :
        (w : Connection k) → Inv k w → Returns (λ t. Inv k t × Gone t) (connect_destroyed k user w)
    unfolding connect_destroyed
    connect_destroyed-Gone w v =
        Returns-bind (λ t. Inv k t × Gone t) (Inv k) _ _
          (if_rule (Returns (Inv k)) (is_connected w.state)
            (λ up. Returns-bind (Inv k) (Inv k) _ _ (down-Inv w v) keeps.connection) λ _. v)
          removed

    after_read-Inv :
        (r : ReadResult) (w : Connection k) → Inv k w → Returns (Inv k) (after_read k user r w)
    unfolding after_read handle_error
    after_read-Inv (received []) w v = handle_close-Inv w v
    after_read-Inv (received (x ∷ d)) w v = keeps.message w v
    after_read-Inv (read_failed e) w v = v

    -- `handleRead`, where `readv` returns no more than it was offered room for, the input buffer
    -- may still grow, and the user's callbacks keep the invariant: it returns and keeps the
    -- invariant, at data, at the end of the stream and at an error.
    pub handle_read-Inv :
        (readv : ℕ → ReadResult) (w : Connection k)
        → Inv k w
        → ((d : List ℕ) → readv (read_limit w.input) ≡ received d → length d ≤ read_limit w.input)
        → length w.input.bytes + extra_size ≤ max_size
        → Returns (Inv k) (handle_read k user readv w)
    unfolding handle_read
    handle_read-Inv readv w v part room =
        after_read-Inv (read_fd w.input readv).0 (record w { input = (read_fd w.input readv).1 })
          (record {
            synced = v.synced;
            input_valid = read_fd-IsValid readv v.input_valid part room;
            output_valid = v.output_valid;
            waits = v.waits;
          })
