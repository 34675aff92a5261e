-- ===== src/Poller/Events.antt =====
-- Poller: the events of a channel after its calls, whatever the kernel answers.
use mynuduo.Base.{IfReturns, if_rule, ◌≡◌, refl, Option, none, some, ◌>>=◌}
use mynuduo.Channel.{Mask, Channel, Index, fresh, added, deleted, is_none_event, set_index}
use mynuduo.Poller.{
  Epoll, Poller, ctl_mod, ctl_del, update, update_channel, change_events, remove_channel,
}

module _ (k : Epoll) where
  -- The channel asks for `m`.
  abbrev pub Asks : Mask → Channel × Poller k → Type 0
  Asks m r = r.0.events ≡ m

  with_poller :
      (c : Channel) (o : Option (Poller k)) → IfReturns (Asks c.events) (o >>= λ q. some (c, q))
  with_poller c none = tt
  with_poller c (some q) = refl

  update_channel-Asks :
      (c : Channel) (p : Poller k) (i : Index)
      → IfReturns (Asks c.events) (update_channel k (record c { index = i }) p)
  unfolding update_channel
  update_channel-Asks c p fresh = with_poller (set_index added c) _
  update_channel-Asks c p deleted = with_poller (set_index added c) _
  update_channel-Asks c p added =
      if_rule (IfReturns (Asks c.events)) (is_none_event c)
        (λ _. with_poller (set_index deleted c) (update k ctl_del (set_index added c) p))
        λ _. with_poller (set_index added c) (update k ctl_mod (set_index added c) p)

  pub change_events-Asks :
      (m : Mask) (c : Channel) (p : Poller k) → IfReturns (Asks m) (change_events k m c p)
  unfolding change_events
  change_events-Asks m c p = update_channel-Asks (record c { events = m }) p c.index

  pub remove_channel-Asks :
      (c : Channel) (p : Poller k) → IfReturns (Asks c.events) (remove_channel k c p)
  unfolding remove_channel
  remove_channel-Asks c p = with_poller (set_index fresh c) _
