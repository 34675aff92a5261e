-- ===== src/Acceptor/Life.antt =====
-- Acceptor: its channel in the poller, from the constructor to the destructor.
use mynuduo.Base.{Returns, ℕ, ◌≡◌, refl, ap₂, Bool, true, false, none, some, [], ◌∷◌}
use mynuduo.Base.Dict.{lookup}
use mynuduo.Channel
use mynuduo.Channel.{Channel, none_event, read_event, reading_on}
use mynuduo.Poller.{Epoll, Poller}
use mynuduo.Poller.Sync.{
  IsSynced, changed, SameBut, SameBut-trans, SameBut-refl, change_events-Changed,
  remove_channel-Changed,
}
use mynuduo.Acceptor.{
  Acceptor, Socket, new, listen, destruct, new_socket, bind_address, listen_socket, set_reuse_addr,
  set_reuse_port,
}

module _ (k : Epoll) where
  -- An acceptor whose channel is in step with the poller, which is as `p` for all other
  -- descriptors.
  pub record Holds (p : Poller k) (a : Acceptor k) : Type 0 where
    pub socket : a.socket.fd ≡ a.channel.fd
    pub synced : IsSynced k a.poller a.channel
    pub others : SameBut k a.channel.fd p a.poller
    pub closed : a.closed ≡ []

  -- The socket is closed, nothing watches it, and the poller is as `p` for all other descriptors.
  pub record Closed (fd : ℕ) (p : Poller k) (t : Acceptor k) : Type 0 where
    pub in_kernel : k.registered t.poller.epoll fd ≡ none
    pub in_map : lookup fd t.poller.channels ≡ none
    pub others : SameBut k fd p t.poller
    pub closed : t.closed ≡ fd ∷ []

  destruct-Closed :
      (p : Poller k) (a : Acceptor k) → Holds p a → Returns (Closed a.channel.fd p) (destruct k a)
  unfolding destruct
  destruct-Closed p a h =
      let c = change_events-Changed k none_event h.synced in
      let r = remove_channel-Changed k c.synced in
      let fd = a.channel.fd in
      rw (c.returns, r.returns)
        (record {
          in_kernel = r.synced.in_kernel;
          in_map = r.synced.in_map;
          others =
              SameBut-trans k fd p a.poller r.poller h.others
                (SameBut-trans k fd a.poller c.poller r.poller c.same r.same);
          closed = ap₂ ◌∷◌ h.socket h.closed;
        })

  -- The kernel watches the socket for connections, for the channel at `self`.
  abbrev pub Listens : ℕ → Acceptor k → Type 0
  Listens self a =
      (a.listenning ≡ true)
      × (k.registered a.poller.epoll a.channel.fd ≡ some (record { mask = read_event; ptr = self }))

  -- From the constructor on, on a fresh descriptor, where the kernel accepts `bind` and `listen`: the
  -- acceptor returns unwatched and not listening; `listen` then has exactly this socket watched, for
  -- reading and for the acceptor's channel; and the destructor, before `listen` or after it, takes it
  -- out of the poller and of the kernel's set and closes it. No other descriptor is touched.
  pub new-listen-destruct :
      (self fd : ℕ) (reuseport : Bool) (p : Poller k)
      → k.registered p.epoll fd ≡ none
      → lookup fd p.channels ≡ none
      → Returns
          (λ a.
            (a.listenning ≡ false)
            × (k.registered a.poller.epoll fd ≡ none)
            × Returns (Closed fd p) (destruct k a)
            × Returns
                (λ b. Listens self b × (b.channel.fd ≡ fd) × Returns (Closed fd p) (destruct k b))
                (listen k true a))
          (new k (some fd) true reuseport self p)
  unfolding new bind_address listen_socket listen Channel.new new_socket set_reuse_addr
      set_reuse_port
  new-listen-destruct self fd reuseport p unwatched unmapped =
      let s : Socket = record (new_socket fd) {
        reuse_addr = true;
        reuse_port = true;
        bound = true;
      } in
      let a : Acceptor k = record {
        socket = s;
        channel = Channel.new self fd;
        listenning = false;
        poller = p;
        closed = [];
      } in
      let h : Holds p a = record {
        socket = refl;
        synced = record { in_kernel = unwatched; in_map = unmapped };
        others = SameBut-refl k fd p;
        closed = refl;
      } in
      let c = change_events-Changed k (reading_on none_event) h.synced in
      let b : Acceptor k = record a {
        listenning = true;
        socket = record s { listens = true };
        channel = changed (reading_on none_event) a.channel;
        poller = c.poller;
      } in
      let g : Holds p b = record {
        socket = refl;
        synced = c.synced;
        others = c.same;
        closed = refl;
      } in
      (
        refl,
        unwatched,
        destruct-Closed p a h,
        rw c.returns ((refl, c.synced.in_kernel), refl, destruct-Closed p b g),
      )
