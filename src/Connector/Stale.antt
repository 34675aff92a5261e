-- ===== src/Connector/Stale.antt =====
-- Connector: the deletion of a channel that is queued, and the channel of a new attempt.
use mynuduo.Base.{
  Returns, Returns-bind, Returns-mono, if_rule, ℕ, ◌≡◌, refl, arith, sym, subst, Bool, true, false,
  Option, none, some, ◌>>=◌,
}
use mynuduo.Base.Dict.{lookup}
use mynuduo.Channel
use mynuduo.Channel.{Channel, none_event, write_event, writing_on}
use mynuduo.Poller.{Epoll}
use mynuduo.Poller.Sync.{IsSynced, change_events-Changed}
use mynuduo.Connector.{
  Connector, connecting, is_connecting, start, start_in_loop, connect, attempt, classify,
  connecting_on, settle, stop, reset_channel, handle_write, remove_and_reset_channel, drop_channel,
}
use mynuduo.Connector.Sockets.{Settled, stop-Settled}

module _ (k : Epoll) where
  -- `stop`, then `start` on a new socket with a new channel, in one callback of the loop; then the
  -- functor that `stop` has queued.
  pub stop_start_reset : ℕ → ℕ → Connector k → Option (Connector k)
  stop_start_reset self fd w = do
    w1 ← stop k true w
    w2 ← start k true self fd none w1
    some (reset_channel k w2)

  -- The new channel is gone, and the kernel still has its address.
  pub record Dangling (self fd : ℕ) (t : Connector k) : Type 0 where
    pub channel : t.channel ≡ none
    pub state : t.state ≡ connecting
    pub registered :
        k.registered t.poller.epoll fd ≡ some (record { mask = write_event; ptr = self })

  restarted :
      (self fd : ℕ) (w : Connector k)
      → k.registered w.poller.epoll fd ≡ none
      → lookup fd w.poller.channels ≡ none
      → Returns (Dangling self fd) (start k true self fd none w >>= λ t. some (reset_channel k t))
  unfolding start start_in_loop connect classify attempt connecting_on reset_channel Channel.new
  restarted self fd w unregistered unmapped =
      let v : IsSynced k w.poller (Channel.new self fd) = record {
        in_kernel = unregistered;
        in_map = unmapped;
      } in
      let c = change_events-Changed k (writing_on none_event) v in
      rw c.returns (record { channel = refl; state = refl; registered = c.synced.in_kernel })

  crashes :
      (err self_connect : Bool) (self fd : ℕ) (t : Connector k)
      → Dangling self fd t
      → handle_write k err self_connect t ≡ none
  unfolding handle_write remove_and_reset_channel drop_channel
  crashes err self_connect self fd t d =
      if_rule (λ o. o ≡ none) (is_connecting t.state)
        (λ _.
          subst (λ o. (drop_channel k o t >>= λ r. settle k err self_connect r.0 r.1) ≡ none)
            (sym d.channel) refl)
        λ idle. absurd (ground (arith, d.state))

  -- A connector that is connecting over the channel `c`, in step with the poller, and is stopped and
  -- started in one callback of the loop, where the new socket gets the old one's descriptor and its
  -- `connect` proceeds: the calls return, the queued deletion takes the channel of the new attempt,
  -- the kernel still has that channel's address, and `handleWrite` then meets a null pointer.
  pub stop_start_reset-Dangling :
      (self : ℕ) (c : Channel) (w : Connector k)
      → is_connecting w.state ≡ true
      → w.channel ≡ some c
      → IsSynced k w.poller c
      → Returns
          (λ t.
            Dangling self c.fd t
            × ((err self_connect : Bool) → handle_write k err self_connect t ≡ none))
          (stop_start_reset self c.fd w)
  unfolding stop_start_reset
  stop_start_reset-Dangling self c w busy on v =
      Returns-bind _ (Settled k c false (record w { wanted = false })) (stop k true w) _
        (stop-Settled k c w busy on v)
        λ t s.
          Returns-mono (Dangling self c.fd) _ _ (restarted self c.fd t s.unregistered s.unmapped)
            λ u d. (d, λ err self_connect. crashes err self_connect self c.fd u d)
