-- ===== src/TcpClient/Up.antt =====
-- TcpClient: from the connector's socket to the connection.
use mynuduo.Base.{
  Returns, Returns-bind, Returns-mono, Returns-also, IfReturns, IfReturns-mono, ◌>>=◌, ap, ◌∙◌,
  Option, ℕ, ◌+◌, ◌≡◌, refl, sym, subst, Bool, true, false, not, ◌&&◌, ◌⊎◌, inl, inr, none, some,
  List, [], ◌∷◌,
}
use mynuduo.Base.Dict.{lookup}
use mynuduo.Channel
use mynuduo.Channel.{Channel}
use mynuduo.Connector.{Connector, is_connecting}
use mynuduo.Connector.Sockets.{Settled, handle_write-Ends}
use mynuduo.Poller.{Epoll}
use mynuduo.Poller.Sync.{IsSynced}
use mynuduo.TcpConnection
use mynuduo.TcpConnection.{Connection, UserCallbacks}
use mynuduo.TcpConnection.Inv.{Inv, new-Inv}
use mynuduo.TcpConnection.Close.{KeepsInv, connect_established-calls}
use mynuduo.TcpServer.{Printf}
use mynuduo.TcpClient.{TcpClient, Link, new_connection, after_attempt, handle_write, shared_by}

-- The user's callback leaves a connection on its descriptor.
abbrev pub KeepsFd : (k : Epoll) → UserCallbacks k → Type 0
KeepsFd k user =
    (w : Connection k) → IfReturns (λ t. t.channel.fd ≡ w.channel.fd) (user.on_connection w)

module _ (k : Epoll) (f : Printf) (user : UserCallbacks k) (keeps : KeepsInv k user)
    (keeps_fd : KeepsFd k user) where
  -- The client `t` has a new connection on the descriptor `fd`, in order.
  pub record HasConnection (fd : ℕ) (w t : TcpClient k) : Type 0 where
    pub link : Link k
    pub connection : t.connection ≡ some link
    pub on_fd : link.shared.channel.fd ≡ fd
    pub inv : Inv k link.shared
    pub ids : t.next_conn_id ≡ w.next_conn_id + 1

  new_connection-HasConnection :
      (peer : List ℕ) (obj self fd : ℕ) (w : TcpClient k)
      → k.registered w.connector.poller.epoll fd ≡ none
      → lookup fd w.connector.poller.channels ≡ none
      → Returns (HasConnection fd w) (new_connection k f user peer obj self fd w)
  unfolding new_connection shared_by TcpConnection.new Channel.new
  new_connection-HasConnection peer obj self fd w unregistered unmapped =
      let OnFd : Connection k → Type 0 = λ t. t.channel.fd ≡ fd in
      let c =
        TcpConnection.new k self fd w.has_write_complete false w.conn_loop w.connector.poller in
      let v =
        new-Inv k self fd w.has_write_complete false w.conn_loop w.connector.poller unregistered
          unmapped in
      Returns-bind (HasConnection fd w) (λ t. Inv k t × OnFd t) _ _
        (connect_established-calls k user (λ t. Inv k t × OnFd t) obj c v refl
          λ t h.
            Returns-also (Inv k) OnFd (user.on_connection t) (keeps.connection t h.inv) (
              IfReturns-mono (λ u. u.channel.fd ≡ t.channel.fd) OnFd _ (keeps_fd t)
                λ u e. e ∙ h.fd))
        λ c v. record { link = _; connection = refl; on_fd = v.1; inv = v.0; ids = refl }

  -- With a good socket of a connector that is wanted a new connection on it, otherwise the connection of
  -- before and a closed socket.
  abbrev pub Settles : Channel → Bool → TcpClient k → TcpClient k → Type 0
  Settles c good w t =
      ((good && w.connector.wanted) ≡ true) × HasConnection c.fd w t
      ⊎ ((good && w.connector.wanted) ≡ false)
        × (t.connection ≡ w.connection)
        × (t.connector.closed ≡ c.fd ∷ w.connector.closed)

  -- What the connector's write callback comes to.
  abbrev pub Outcome : Channel → Bool → TcpClient k → Option (TcpClient k) → Type 0
  Outcome c good w o =
      ((w.connector.wanted && not good) ≡ true) × (o ≡ none)
      ⊎ ((w.connector.wanted && not good) ≡ false) × Returns (Settles c good w) o

  after_attempt-Settles :
      (peer : List ℕ) (obj self : ℕ) (c : Channel) (good : Bool) (w : TcpClient k) (s : Connector k)
      → Settled k c good (record (w.connector) { handed = [] }) s
      → Returns
          (Settles c good w)
          (after_attempt k f user peer obj self s.handed (record w { connector = s }))
  unfolding after_attempt
  after_attempt-Settles peer obj self c good w s r =
      let w' : TcpClient k = record w { connector = s } in
      let After : List ℕ → Type 0 =
        λ h. Returns (Settles c good w) (after_attempt k f user peer obj self h w') in
      elim r.socket [
        | inl (closed, handed, bad) ↦ subst After (sym handed) (inr (bad, refl, closed))
        | inr (closed, handed, fine) ↦ subst After (sym handed) (
            Returns-mono (HasConnection c.fd w') (Settles c good w) _
              (new_connection-HasConnection peer obj self c.fd w' r.unregistered r.unmapped)
              λ t q. inl (
                fine,
                record {
                  link = q.link;
                  connection = q.connection;
                  on_fd = q.on_fd;
                  inv = q.inv;
                  ids = q.ids;
                },
              ))
      ]

  -- The write callback of a connector that is connecting over the channel `c`, in step with the poller,
  -- where the user's callbacks keep a connection in order and on its descriptor: where the socket has an
  -- error or has met itself and the connector is wanted, the process ends, by `retry`; otherwise it
  -- returns, and where the connector is wanted the client has a new connection on that socket that is in
  -- order, since the connector's channel has left the poller before; where it is not wanted, the client
  -- keeps what connection it had, and the socket is closed.
  pub handle_write-Outcome :
      (peer : List ℕ) (obj self : ℕ) (err self_connect : Bool) (c : Channel) (w : TcpClient k)
      → is_connecting w.connector.state ≡ true
      → w.connector.channel ≡ some c
      → IsSynced k w.connector.poller c
      → Outcome c
          (not err && not self_connect)
          w
          (handle_write k f user peer obj self err self_connect w)
  unfolding handle_write
  handle_write-Outcome peer obj self err self_connect c w busy on v =
      let w0 : Connector k = record (w.connector) { handed = [] } in
      let good = not err && not self_connect in
      elim (handle_write-Ends k err self_connect c w0 busy on v) [
        | inl (fails, none_left) ↦ inl (
          fails,
          ap
              (λ o. o >>= λ s.
                after_attempt k f user peer obj self s.handed (record w { connector = s }))
              none_left,
        )
        | inr (fine, settled) ↦ inr (
          fine,
          Returns-bind (Settles c good w) (Settled k c good w0) _ _ settled
              λ s r. after_attempt-Settles peer obj self c good w s r,
        )
      ]
