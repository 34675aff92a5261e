-- ===== src/Connector/Sockets.antt =====
-- Connector: what becomes of the socket of an attempt.
use mynuduo.Base.{
  Option, Returns-mono, Bool-cases, ◌>>=◌, Returns, if_rule, ap, ◌∙◌, ◌⊎◌, ◌&&◌, not, ℕ, ◌≡◌, refl,
  sym, subst, Bool, true, false, none, some, [], ◌∷◌, ◌++◌, arith, inl, inr,
}
use mynuduo.Base.Dict.{lookup}
use mynuduo.Channel.{Channel, none_event}
use mynuduo.EventLoop.Pending.{pending-queue}
use mynuduo.Poller.{Epoll}
use mynuduo.Poller.Sync.{IsSynced, change_events-Changed, remove_channel-Changed}
use mynuduo.Connector.{
  Connector, reset_task, disconnected, is_connecting, drop_channel, queue, retry, run_after, settle,
  remove_and_reset_channel, handle_write, stop_in_loop, stop,
}

true_is_false : true ≡ false → ⊥
true_is_false h = cc

module _ (k : Epoll) where
  -- `t` is `w` with its channel out of the poller, and the deletion of it waiting in the loop.
  pub record Dropped (c : Channel) (w t : Connector k) : Type 0 where
    pub unregistered : k.registered t.poller.epoll c.fd ≡ none
    pub unmapped : lookup c.fd t.poller.channels ≡ none
    pub deletion : t.loop.pending ≡ w.loop.pending ++ reset_task ∷ []
    pub state : t.state ≡ w.state
    pub wanted : t.wanted ≡ w.wanted
    pub closed : t.closed ≡ w.closed
    pub handed : t.handed ≡ w.handed

  drop_channel-Dropped :
      (c : Channel) (w : Connector k)
      → IsSynced k w.poller c
      → Returns (λ r. (r.0 ≡ c.fd) × Dropped c w r.1) (drop_channel k (some c) w)
  unfolding drop_channel queue
  drop_channel-Dropped c w v =
      let p = change_events-Changed k none_event v in
      let q = remove_channel-Changed k p.synced in
      rw (p.returns, q.returns)
        (
          refl,
          record {
            unregistered = q.synced.in_kernel;
            unmapped = q.synced.in_map;
            deletion = pending-queue reset_task w.loop;
            state = refl;
            wanted = refl;
            closed = refl;
            handed = refl;
          },
        )

  -- The socket was closed, with nothing asked of the loop.
  pub record Retried (fd : ℕ) (w t : Connector k) : Type 0 where
    pub closed : t.closed ≡ fd ∷ w.closed
    pub handed : t.handed ≡ w.handed
    pub state : t.state ≡ disconnected
    pub loop : t.loop ≡ w.loop
    pub poller : t.poller ≡ w.poller

  -- A connector that is not wanted does not go on.
  retry-Retried :
      (fd : ℕ) (w : Connector k) → w.wanted ≡ false → Returns (Retried fd w) (retry k fd w)
  unfolding retry
  retry-Retried fd w stops =
      if_rule (Returns (Retried fd w)) w.wanted
        (λ wants. absurd (true_is_false (sym wants ∙ stops)))
        λ _. record { closed = refl; handed = refl; state = refl; loop = refl; poller = refl }

  -- One that is wanted ends the process.
  retry-none : (fd : ℕ) (w : Connector k) → w.wanted ≡ true → retry k fd w ≡ none
  unfolding retry run_after
  retry-none fd w wants =
      if_rule (λ o. o ≡ none) w.wanted (λ _. refl)
        λ stops. absurd (true_is_false (sym wants ∙ stops))

  -- The attempt on the channel `c` is over: the kernel no longer knows the channel, its deletion is
  -- queued, and the socket was either closed or handed on, never both; it was handed on only where
  -- `good` and the connector is wanted.
  pub record Settled (c : Channel) (good : Bool) (w t : Connector k) : Type 0 where
    pub unregistered : k.registered t.poller.epoll c.fd ≡ none
    pub unmapped : lookup c.fd t.poller.channels ≡ none
    pub deletion : t.loop.pending ≡ w.loop.pending ++ reset_task ∷ []
    pub idle : is_connecting t.state ≡ false
    pub socket :
        (t.closed ≡ c.fd ∷ w.closed) × (t.handed ≡ w.handed) × ((good && w.wanted) ≡ false)
        ⊎ (t.closed ≡ w.closed) × (t.handed ≡ c.fd ∷ w.handed) × ((good && w.wanted) ≡ true)

  retried-Settled :
      (c : Channel) {w v : Connector k}
      → Dropped c w v
      → w.wanted ≡ false
      → Returns (Settled c false w) (retry k c.fd v)
  retried-Settled c {w} {v} d stops =
      Returns-mono (Retried c.fd v) (Settled c false w) _ (retry-Retried c.fd v (d.wanted ∙ stops))
        λ t r. record {
          unregistered = ap (λ p. k.registered p.epoll c.fd) r.poller ∙ d.unregistered;
          unmapped = ap (λ p. lookup c.fd p.channels) r.poller ∙ d.unmapped;
          deletion = ap (λ l. l.pending) r.loop ∙ d.deletion;
          idle = ap is_connecting r.state;
          socket = inl (r.closed ∙ ap (◌∷◌ c.fd) d.closed, r.handed ∙ d.handed, refl);
        }

  -- What becomes of an attempt: it is settled, or, where it failed and the connector is wanted, the
  -- process ends.
  abbrev pub Ends : Channel → Bool → Connector k → Option (Connector k) → Type 0
  Ends c good w o =
      ((w.wanted && not good) ≡ true) × (o ≡ none)
      ⊎ ((w.wanted && not good) ≡ false) × Returns (Settled c good w) o

  retry-Ends : (c : Channel) {w v : Connector k} → Dropped c w v → Ends c false w (retry k c.fd v)
  retry-Ends c {w} {v} d = elim (Bool-cases w.wanted) [
    | inl wants ↦ inl (ground (arith, wants), retry-none c.fd v (d.wanted ∙ wants))
    | inr stops ↦ inr (ground (arith, stops), retried-Settled c d stops)
  ]

  settle-Ends :
      (err self_connect : Bool) (c : Channel) {w v : Connector k}
      → Dropped c w v
      → Ends c (not err && not self_connect) w (settle k err self_connect c.fd v)
  unfolding settle
  settle-Ends true self_connect c {w} {v} d = retry-Ends c d
  settle-Ends false true c {w} {v} d = retry-Ends c d
  settle-Ends false false c {w} {v} d = inr (
    ground arith,
    if_rule (Returns (Settled c true w)) v.wanted
        (λ wants. record {
          unregistered = d.unregistered;
          unmapped = d.unmapped;
          deletion = d.deletion;
          idle = refl;
          socket = inr (d.closed, ap (◌∷◌ c.fd) d.handed, ground (arith, d.wanted));
        })
        λ stops. record {
          unregistered = d.unregistered;
          unmapped = d.unmapped;
          deletion = d.deletion;
          idle = refl;
          socket = inl (ap (◌∷◌ c.fd) d.closed, d.handed, ground (arith, d.wanted));
        },
  )

  -- `drop_channel` returns, and then `f` goes on.
  dropped_then :
      (c : Channel) (w : Connector k) (P : Option (Connector k) → Type 0)
      (f : ℕ × Connector k → Option (Connector k))
      → w.channel ≡ some c
      → IsSynced k w.poller c
      → ((v : Connector k) → Dropped c w v → P (f (c.fd, v)))
      → P (drop_channel k w.channel w >>= f)
  dropped_then c w P f on v h =
      subst (λ o. P (drop_channel k o w >>= f)) (sym on)
        (by_result (drop_channel k (some c) w) (drop_channel-Dropped c w v))
    where
      by_result :
          (o : Option (ℕ × Connector k))
          → Returns (λ r. (r.0 ≡ c.fd) × Dropped c w r.1) o
          → P (o >>= f)
      by_result none r = absurd r
      by_result (some (fd, t)) (e, d) = subst (λ x. P (f (x, t))) (sym e) (h t d)

  -- `handleWrite` of a connector that is connecting over the channel `c`, in step with the poller: where
  -- the socket has an error or has met itself and the connector is wanted, the process ends, since
  -- `retry` calls through the null `timerQueue_`; in every other case it returns, the channel is out of
  -- the kernel's set with its deletion queued, and the socket is handed on where it is good and the
  -- connector is wanted, and is closed otherwise, never both.
  pub handle_write-Ends :
      (err self_connect : Bool) (c : Channel) (w : Connector k)
      → is_connecting w.state ≡ true
      → w.channel ≡ some c
      → IsSynced k w.poller c
      → Ends c (not err && not self_connect) w (handle_write k err self_connect w)
  unfolding handle_write remove_and_reset_channel
  handle_write-Ends err self_connect c w busy on v =
      if_rule (Ends c (not err && not self_connect) w) (is_connecting w.state)
        (λ _.
          dropped_then c w (Ends c (not err && not self_connect) w)
            (λ (fd, w1). settle k err self_connect fd w1) on v
            λ t d. settle-Ends err self_connect c d)
        λ idle. absurd (ground arith)

  -- `stop` on the loop's thread, of a connector that is connecting over the channel `c`, in step
  -- with the poller: it returns, the channel is out of the kernel's set with its deletion queued,
  -- and the socket is closed.
  pub stop-Settled :
      (c : Channel) (w : Connector k)
      → is_connecting w.state ≡ true
      → w.channel ≡ some c
      → IsSynced k w.poller c
      → Returns (Settled c false (record w { wanted = false })) (stop k true w)
  unfolding stop stop_in_loop remove_and_reset_channel
  stop-Settled c w busy on v =
      let w1 : Connector k = record w { wanted = false; state = disconnected } in
      let Over : Connector k → Type 0 = Settled c false (record w { wanted = false }) in
      if_rule (Returns Over) (is_connecting w.state)
        (λ _.
          dropped_then c w1 (Returns Over) (λ (fd, t). retry k fd t) on v
            λ t d. Returns-mono (Settled c false w1) Over _ (retried-Settled c d refl) λ u s.
              record {
                unregistered = s.unregistered;
                unmapped = s.unmapped;
                deletion = s.deletion;
                idle = s.idle;
                socket = s.socket;
              })
        λ idle. absurd (ground arith)
