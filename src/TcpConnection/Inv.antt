-- ===== src/TcpConnection/Inv.antt =====
-- TcpConnection: what holds of a connection between two calls.
use mynuduo.Base.{
  ℕ, Bool, none, arith, ◌≡◌, false, Option, some, [], length, ltb, ◌∙◌, ap, sym, length-nil,
}
use mynuduo.Buffer
use mynuduo.Buffer.{Buffer, contents, readable_bytes}
use mynuduo.Buffer.Space.{length-contents, new-IsValid, readable-new}
use mynuduo.Base.Dict.{lookup}
use mynuduo.Channel
use mynuduo.EventLoop.{EventLoop}
use mynuduo.Channel.{Mask, is_writing}
use mynuduo.Poller.{Epoll, Poller}
use mynuduo.Poller.Sync.{IsSynced, changed, change_events-Changed}
use mynuduo.TcpConnection.{new, Task, Connection, is_disconnected, set_events}

-- No unread byte.
pub readable-nil : {b : Buffer} → Buffer.IsValid b → readable_bytes b ≡ 0 → contents b ≡ []
readable-nil {b} v h = length-nil (contents b) (length-contents v ∙ h)

pub nil-readable : {b : Buffer} → Buffer.IsValid b → contents b ≡ [] → readable_bytes b ≡ 0
nil-readable {b} v h = sym (length-contents v) ∙ ap length h

module _ (k : Epoll) where
  pub record Inv (w : Connection k) : Type 0 where
    pub synced : IsSynced k w.poller w.channel
    pub input_valid : Buffer.IsValid w.input
    pub output_valid : Buffer.IsValid w.output
    -- The channel waits for EPOLLOUT exactly while bytes are kept back.
    pub waits :
        is_disconnected w.state ≡ false → is_writing w.channel ≡ ltb 0 (readable_bytes w.output)

  -- A connection whose channel has been given the events `m`.
  pub record HasEvents (w : Connection k) (m : Mask) (r : Option (Connection k)) : Type 0 where
    pub poller : Poller k
    pub returns : r ≡ some (record w { channel = changed m w.channel; poller = poller })
    pub synced : IsSynced k poller (changed m w.channel)

  pub set_events-HasEvents :
      (f : Mask → Mask) (w : Connection k)
      → IsSynced k w.poller w.channel
      → HasEvents w (f w.channel.events) (set_events k f w)
  unfolding set_events
  set_events-HasEvents f w v =
      let c = change_events-Changed k (f w.channel.events) v in
      record { poller = c.poller; returns = rw c.returns; synced = c.synced }

  -- A new connection on a descriptor that the poller does not know.
  pub new-Inv :
      (self fd : ℕ) (complete high : Bool) (loop : EventLoop Task) (poller : Poller k)
      → k.registered poller.epoll fd ≡ none
      → lookup fd poller.channels ≡ none
      → Inv (new k self fd complete high loop poller)
  unfolding new Channel.new
  new-Inv self fd complete high loop poller unregistered unmapped = record {
    synced = record { in_kernel = unregistered; in_map = unmapped };
    input_valid = new-IsValid;
    output_valid = new-IsValid;
    waits = λ _. ground (arith, readable-new);
  }
