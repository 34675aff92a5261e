-- ===== src/TcpClient/Stays.antt =====
-- TcpClient: after `disconnect` and `stop` there is no new attempt.
use mynuduo.Base.{
  Returns, if_rule, >>=-eq-some, sym, ap, ℕ, ◌≡◌, refl, Bool, true, false, ◌&&◌, Option, none, some,
  arith,
}
use mynuduo.Base.Errno.{Errno}
use mynuduo.Connector
use mynuduo.EventLoop.{queue_in_loop}
use mynuduo.Poller.{Epoll}
use mynuduo.TcpConnection.{destroy_task}
use mynuduo.TcpClient.{
  TcpClient, Link, disconnect, shutdown_link, shared_by, stop, remove_connection,
}

module _ (k : Epoll) where
  -- The client without its connection, whose destruction is queued; nothing else has changed.
  abbrev pub Alone : TcpClient k → TcpClient k → Type 0
  Alone w t =
      t ≡ record w { connection = none; conn_loop = queue_in_loop true destroy_task w.conn_loop }

  unwanted :
      (self fd : ℕ) (err : Option Errno) (w : TcpClient k)
      → w.wanted ≡ false
      → Returns (Alone w) (remove_connection k self fd err w)
  unfolding remove_connection
  unwanted self fd err w h =
      if_rule (Returns (Alone w)) (w.retry && w.wanted) (λ again. absurd (ground arith)) λ _. refl

  shutdown_link-wanted :
      (in_loop : Bool) (o : Option (Link k)) (w : TcpClient k)
      → (shutdown_link k in_loop o w).wanted ≡ w.wanted
  unfolding shutdown_link shared_by
  shutdown_link-wanted in_loop none w = refl
  shutdown_link-wanted in_loop (some l) w = refl

  stop-wanted : (in_loop : Bool) (w t : TcpClient k) → stop k in_loop w ≡ some t → t.wanted ≡ false
  unfolding stop
  stop-wanted in_loop w t e =
      let (c, returned, q) =
        >>=-eq-some (Connector.stop k in_loop w.connector)
          (λ c. some (record w { wanted = false; connector = c })) e in
      sym (ap (λ o. elim o as (λ x. Bool) [ none ↦ false | some x ↦ x.wanted ]) q)

  -- After `disconnect`, from any thread, the end of the connection is followed by no new attempt, also
  -- where retries are enabled: `removeConnection` only lets the connection go and queues its
  -- destruction, and so it does after `stop` wherever that returns.
  pub remove_connection-Alone :
      (in_loop : Bool) (self fd : ℕ) (err : Option Errno) (w : TcpClient k)
      → Returns
          (Alone (disconnect k in_loop w))
          (remove_connection k self fd err (disconnect k in_loop w))
        × ((t : TcpClient k)
            → stop k in_loop w ≡ some t
            → Returns (Alone t) (remove_connection k self fd err t))
  unfolding disconnect
  remove_connection-Alone in_loop self fd err w = (
    unwanted self fd err _
        (shutdown_link-wanted in_loop w.connection (record w { wanted = false })),
    λ t e. unwanted self fd err t (stop-wanted in_loop w t e),
  )
