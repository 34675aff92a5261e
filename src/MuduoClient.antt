-- ===== src/MuduoClient.antt =====
-- example/muduoClient.cc: a client that greets its server once, and reads what comes back.
pub mod Greets
pub mod Session
mod Tests
use mynuduo.Base.{ℕ, true, false, Option, some, List, [], ◌∷◌, length, if◌then◌else◌}
use mynuduo.Buffer.{WriteResult, retrieve_all_as_string}
use mynuduo.Poller.{Epoll}
use mynuduo.TcpConnection.{Connection, UserCallbacks, is_connected, send}

-- "Hello, muduo!"
abbrev pub greeting : List ℕ
greeting = 72 ∷ 101 ∷ 108 ∷ 108 ∷ 111 ∷ 44 ∷ 32 ∷ 109 ∷ 117 ∷ 100 ∷ 117 ∷ 111 ∷ 33 ∷ []

module _ (k : Epoll) where
  -- The text stands in memory while `send` runs; its address is 0 here.
  pub on_connection : (List ℕ → WriteResult) → Connection k → Option (Connection k)
  on_connection sys_write w =
      if is_connected w.state
      then send k true (λ p. greeting) sys_write 0 (length greeting) w
      else some w

  -- `onMessage` logs the text that it takes out.
  pub on_message : Connection k → Option (Connection k)
  on_message w =
      let (msg, rest) = retrieve_all_as_string w.input in some (record w { input = rest })

  -- `on_close` is what the TcpClient sets.
  abbrev pub callbacks :
      (List ℕ → WriteResult) → (Connection k → Option (Connection k)) → UserCallbacks k
  callbacks sys_write on_close = record {
    on_connection = on_connection sys_write;
    on_message = on_message;
    on_close = on_close;
  }
