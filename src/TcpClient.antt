-- ===== src/TcpClient.antt =====
-- TcpClient.h and TcpClient.cc: a client with its Connector and at most one connection. The loop is one
-- for both: its poller stands in the connector, and its queue is kept in two parts, the connector's
-- functors in the connector and those of connections in `conn_loop`. What the kernel answers is an
-- argument, and `none` is the end of the process.
pub mod Up
pub mod Stays
mod Tests
use mynuduo.Base.{
  ℕ, ◌+◌, Bool, true, false, ◌&&◌, Option, none, some, List, [], ◌∷◌, ◌++◌, take, if◌then◌else◌,
  ◌>>=◌,
}
use mynuduo.Base.Errno.{Errno}
use mynuduo.Connector
use mynuduo.Connector.{Connector}
use mynuduo.EventLoop.{EventLoop, queue_in_loop}
use mynuduo.Poller.{Epoll, Poller}
use mynuduo.TcpConnection
use mynuduo.TcpConnection.{Connection, UserCallbacks, destroy_task}
use mynuduo.TcpServer.{Printf}

-- The close callback of the connection: `TcpClient::removeConnection` or `detail::removeConnection`.
pub data CloseCallback : Type 0 where
  of_client detached : CloseCallback

module _ (k : Epoll) where
  -- `shared` is the connection object, `close_callback` what it calls when it closes.
  pub record Link : Type 0 where
    pub name : List ℕ
    pub shared : Connection k
    pub close_callback : CloseCallback

  -- `wanted` is `connect_`.
  pub record TcpClient : Type 0 where
    pub connector : Connector k
    pub name : List ℕ
    pub has_write_complete : Bool
    pub retry : Bool
    pub wanted : Bool
    pub next_conn_id : ℕ
    pub connection : Option Link
    pub conn_loop : EventLoop TcpConnection.Task

  pub new : Connector k → EventLoop TcpConnection.Task → List ℕ → TcpClient
  new connector conn_loop name = record {
    connector = connector;
    name = name;
    has_write_complete = false;
    retry = false;
    wanted = true;
    next_conn_id = 1;
    connection = none;
    conn_loop = conn_loop;
  }

  pub enable_retry : TcpClient → TcpClient
  enable_retry w = record w { retry = true }

  -- A connection with the loop's queue and poller as they are now.
  here : Connection k → TcpClient → Connection k
  here c w = record c { loop = w.conn_loop; poller = w.connector.poller }

  -- The loop's queue and poller as a call on the connection leaves them.
  shared_by : Connection k → TcpClient → TcpClient
  shared_by c w = record w {
    conn_loop = c.loop;
    connector = record (w.connector) { poller = c.poller };
  }

  pub connect : Bool → ℕ → ℕ → Option Errno → TcpClient → Option TcpClient
  connect in_loop self fd err w = do
    c ← Connector.start k in_loop self fd err w.connector
    some (record w { wanted = true; connector = c })

  -- `none` for the connection: there is none to shut down.
  shutdown_link : Bool → Option Link → TcpClient → TcpClient
  unfolding here shared_by
  shutdown_link in_loop none w = w
  shutdown_link in_loop (some l) w =
      let c = TcpConnection.shutdown k in_loop (here l.shared w) in
      shared_by c (record w { connection = some (record l { shared = c }) })

  pub disconnect : Bool → TcpClient → TcpClient
  unfolding shutdown_link
  disconnect in_loop w = shutdown_link in_loop w.connection (record w { wanted = false })

  pub stop : Bool → TcpClient → Option TcpClient
  stop in_loop w = do
    c ← Connector.stop k in_loop w.connector
    some (record w { wanted = false; connector = c })

  -- `snprintf(buf, 32, ":%s#%d", ...)` keeps 31 characters; 58 is the colon and 35 the hash.
  pub conn_name : Printf → List ℕ → TcpClient → List ℕ
  conn_name f peer w = w.name ++ take 31 (58 ∷ peer ++ 35 ∷ f.digits w.next_conn_id)

  -- `peer` is the text of the peer's address. A connection that the client had before is let go.
  pub new_connection : Printf → UserCallbacks k → List ℕ → ℕ → ℕ → ℕ → TcpClient → Option TcpClient
  unfolding conn_name shared_by
  new_connection f user peer obj self fd w = do
    let c = TcpConnection.new k self fd w.has_write_complete false w.conn_loop w.connector.poller
    c' ← TcpConnection.connect_established k user obj c
    let link : Link = record { name = conn_name f peer w; shared = c'; close_callback = of_client }
    some (shared_by c' (record w { next_conn_id = w.next_conn_id + 1; connection = some link }))

  -- `self`, `fd` and `err` are of the attempt that follows, if one does.
  pub remove_connection : ℕ → ℕ → Option Errno → TcpClient → Option TcpClient
  remove_connection self fd err w =
      let w1 = record w {
        connection = none;
        conn_loop = queue_in_loop true destroy_task w.conn_loop;
      } in
      if w.retry && w.wanted
      then (do c ← Connector.restart k self fd err w1.connector; some (record w1 { connector = c }))
      else some w1

  -- The connector's write callback. What it does last is to call `newConnectionCallback_`, which is
  -- `newConnection`: `handed` shows whether it does.
  after_attempt : Printf → UserCallbacks k → List ℕ → ℕ → ℕ → List ℕ → TcpClient → Option TcpClient
  unfolding new_connection
  after_attempt f user peer obj self [] w = some w
  after_attempt f user peer obj self (fd ∷ more) w = new_connection f user peer obj self fd w

  pub handle_write :
      Printf → UserCallbacks k → List ℕ → ℕ → ℕ → Bool → Bool → TcpClient → Option TcpClient
  unfolding after_attempt
  handle_write f user peer obj self err self_connect w = do
    c ← Connector.handle_write k err self_connect (record (w.connector) { handed = [] })
    after_attempt f user peer obj self c.handed (record w { connector = c })

  -- The destructor on the loop's thread; `unique` says that the client alone holds the connection.
  destruct_link : Bool → Option Link → TcpClient → Option TcpClient
  unfolding here shared_by
  destruct_link unique (some l) w =
      let l' = record l { close_callback = detached } in
      if unique
      then (let c = TcpConnection.force_close k true (here l.shared w) in
          some (shared_by c (record w { connection = some (record l' { shared = c }) })))
      else some (record w { connection = some l' })
  destruct_link unique none w = do
    c ← Connector.stop k true w.connector
    c1 ← Connector.run_after k 1000 c
    some (record w { connector = c1 })

  pub destruct : Bool → TcpClient → Option TcpClient
  unfolding destruct_link
  destruct unique w = destruct_link unique w.connection w
