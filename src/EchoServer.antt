-- ===== src/EchoServer.antt =====
-- example/testserver.cc: a server that sends each connection back what it has received, and closes.
pub mod Echoed
pub mod Sample
mod Tests
use mynuduo.Base.{ℕ, Bool, true, false, Option, some, List, length, ◌>>=◌}
use mynuduo.Buffer.{WriteResult, retrieve_all_as_string}
use mynuduo.Poller.{Epoll}
use mynuduo.TcpConnection.{Connection, UserCallbacks, send, shutdown}
use mynuduo.TcpServer
use mynuduo.TcpServer.{TcpServer}

-- The server with its three threads; `L` is the type of the loops.
module _ (L : Type 0) where
  pub new : L → List ℕ → List ℕ → TcpServer L
  new loop ip_port name = TcpServer.set_thread_num L 3 (TcpServer.new L loop ip_port name)

  pub start : (ℕ → L) → TcpServer L → TcpServer L
  start start_loop s = TcpServer.start L start_loop false s

module _ (k : Epoll) where
  -- `onConnection` only logs.
  pub on_connection : Connection k → Option (Connection k)
  on_connection w = some w

  -- The text `msg` stands in memory while `onMessage` runs; its address is 0 here.
  pub on_message : (List ℕ → WriteResult) → Connection k → Option (Connection k)
  on_message sys_write w = do
    let (msg, rest) = retrieve_all_as_string w.input
    w1 ← send k true (λ p. msg) sys_write 0 (length msg) (record w { input = rest })
    some (shutdown k true w1)

  -- `on_close` is what the TcpServer sets.
  abbrev pub callbacks :
      (List ℕ → WriteResult) → (Connection k → Option (Connection k)) → UserCallbacks k
  callbacks sys_write on_close = record {
    on_connection = on_connection;
    on_message = on_message sys_write;
    on_close = on_close;
  }
