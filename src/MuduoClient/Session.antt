-- ===== src/MuduoClient/Session.antt =====
-- MuduoClient and MuduoServer: the client's connection and the server's one, over two streams of bytes.
-- A stream gives the reader what the writer's kernel has been given, in order, any part of it at a time.
pub mod Conserved
use mynuduo.Base.{ℕ, suc, Option, none, some, List, [], ◌∷◌, ◌++◌, length, take, drop, ◌>>=◌}
use mynuduo.Buffer.{WriteResult, received, contents}
use mynuduo.Poller.{Epoll}
use mynuduo.TcpConnection.{Connection, handle_read, handle_write, connect_established}
use mynuduo.MuduoServer
use mynuduo.MuduoServer.{reads, writes}
use mynuduo.MuduoClient.{callbacks}

module _ (k : Epoll) where
  -- `got` and `heard` are the bytes that the server and the client have read.
  pub record Session : Type 0 where
    pub client : Connection k
    pub server : Connection k
    pub got : List ℕ
    pub heard : List ℕ

  -- The bytes on their way.
  abbrev pub to_server : Session → List ℕ
  to_server s = drop (length s.got) s.client.sent

  abbrev pub to_client : Session → List ℕ
  to_client s = drop (length s.heard) s.server.sent

  -- One event on one side: some of the bytes on their way can be read, or there is room to write.
  pub data Turn : Type 0 where
    client_reads : ℕ → Turn
    client_writes : (List ℕ → WriteResult) → Turn
    server_reads : ℕ → (List ℕ → WriteResult) → Turn
    server_writes : (List ℕ → WriteResult) → Turn

  module _ (greets : List ℕ → WriteResult) (on_close : Connection k → Option (Connection k)) where
    -- The two connections come up; `greets` is what the kernel does with the greeting.
    pub open_session : ℕ → Connection k → ℕ → Connection k → Option Session
    open_session client_self w server_self v = do
      c ← connect_established k (callbacks k greets on_close) client_self w
      s ← connect_established k (MuduoServer.callbacks k greets on_close) server_self v
      some (record { client = c; server = s; got = []; heard = [] })

    -- Nothing is read where nothing is on its way.
    client_hears : List ℕ → Session → Option Session
    client_hears [] s = some s
    client_hears (x ∷ d) s = do
      t ← handle_read k (callbacks k greets on_close) (λ room. received (x ∷ d)) s.client
      some (record s { client = t; heard = s.heard ++ x ∷ d })

    server_gets : List ℕ → (List ℕ → WriteResult) → Session → Option Session
    server_gets [] sys_write s = some s
    server_gets (x ∷ d) sys_write s = do
      t ← MuduoServer.handle k on_close (reads x d sys_write) s.server
      some (record s { server = t; got = s.got ++ x ∷ d })

    pub turn : Turn → Session → Option Session
    unfolding client_hears server_gets
    turn (client_reads n) s = client_hears (take (suc n) (to_client s)) s
    turn (client_writes sys_write) s = do
      t ← handle_write k sys_write s.client
      some (record s { client = t })
    turn (server_reads n sys_write) s = server_gets (take (suc n) (to_server s)) sys_write s
    turn (server_writes sys_write) s = do
      t ← MuduoServer.handle k on_close (writes sys_write) s.server
      some (record s { server = t })

    pub turns : List Turn → Session → Option Session
    unfolding turn
    turns [] s = some s
    turns (e ∷ es) s = turn e s >>= turns es
