-- ===== src/MuduoServer.antt =====
-- example/muduoServer.cc: a server that sends each connection back what it has received, as long as the
-- connection lasts.
pub mod Relayed
mod Tests
use mynuduo.Base.{ℕ, Bool, true, false, Option, none, some, List, [], ◌∷◌, ◌++◌, length, ◌>>=◌}
use mynuduo.Buffer.{ReadResult, WriteResult, received, retrieve_all_as_string}
use mynuduo.Poller.{Epoll}
use mynuduo.TcpConnection.{Connection, UserCallbacks, send, handle_read, handle_write}

module _ (k : Epoll) where
  -- `onConnection` only logs.
  pub on_connection : Connection k → Option (Connection k)
  on_connection w = some w

  -- The text `msg` stands in memory while `onMessage` runs; its address is 0 here.
  pub on_message : (List ℕ → WriteResult) → Connection k → Option (Connection k)
  on_message sys_write w = do
    let (msg, rest) = retrieve_all_as_string w.input
    send k true (λ p. msg) sys_write 0 (length msg) (record w { input = rest })

  -- `on_close` is what the TcpServer sets.
  abbrev pub callbacks :
      (List ℕ → WriteResult) → (Connection k → Option (Connection k)) → UserCallbacks k
  callbacks sys_write on_close = record {
    on_connection = on_connection;
    on_message = on_message sys_write;
    on_close = on_close;
  }

  -- What a poll reports of the connection: the bytes `x ∷ d`, or room to write. `sys_write` is what the
  -- kernel then does at `write`.
  pub data Event : Type 0 where
    reads : ℕ → List ℕ → (List ℕ → WriteResult) → Event
    writes : (List ℕ → WriteResult) → Event

  module _ (on_close : Connection k → Option (Connection k)) where
    pub handle : Event → Connection k → Option (Connection k)
    handle (reads x d sys_write) w =
        handle_read k (callbacks sys_write on_close) (λ room. received (x ∷ d)) w
    handle (writes sys_write) w = handle_write k sys_write w

    pub run : List Event → Connection k → Option (Connection k)
    unfolding handle
    run [] w = some w
    run (e ∷ es) w = handle e w >>= run es

  -- The bytes that the peer has sent.
  abbrev pub got : List Event → List ℕ
  got [] = []
  got (reads x d sys_write ∷ es) = x ∷ d ++ got es
  got (writes sys_write ∷ es) = got es
