-- ===== src/TcpConnection/Defaults.antt =====
-- Callbacks.cc: the callbacks of a connection for which the program sets none.
use mynuduo.Base.{Option, Returns, some}
use mynuduo.Buffer.{retrieve_all}
use mynuduo.Buffer.Retrieve.{retrieve_all_lem}
use mynuduo.Poller.{Epoll}
use mynuduo.TcpConnection.{Connection, UserCallbacks}
use mynuduo.TcpConnection.Inv.{Inv}
use mynuduo.TcpConnection.Close.{KeepsInv}

module _ (k : Epoll) where
  -- It only logs.
  unfoldable pub default_connection_callback : Connection k → Option (Connection k)
  default_connection_callback w = some w

  -- What comes is thrown away.
  pub default_message_callback : Connection k → Option (Connection k)
  default_message_callback w = some (record w { input = retrieve_all w.input })

  -- `on_close` is what the owner of the connection sets.
  abbrev pub defaults : (Connection k → Option (Connection k)) → UserCallbacks k
  defaults on_close = record {
    on_connection = default_connection_callback;
    on_message = default_message_callback;
    on_close = on_close;
  }

  -- Both keep a connection in order, if the owner's callback does.
  pub defaults-KeepsInv :
      (on_close : Connection k → Option (Connection k))
      → ((w : Connection k) → Inv k w → Returns (Inv k) (on_close w))
      → KeepsInv k (defaults on_close)
  unfolding default_connection_callback default_message_callback
  defaults-KeepsInv on_close closes = record {
    connection = λ w v. v;
    message = λ w v. record {
      synced = v.synced;
      input_valid = (retrieve_all_lem v.input_valid).0;
      output_valid = v.output_valid;
      waits = v.waits;
    };
    close = closes;
  }
