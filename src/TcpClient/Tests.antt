-- ===== src/TcpClient/Tests.antt =====
-- The theorems about the client at concrete inputs.
use mynuduo.Base.{
  Option, ℕ, ◌≤◌, ◌<◌, Returns, ◌≡◌, ◌==◌, ◌&&◌, not, refl, true, false, none, some, [], ◌∷◌,
  if◌then◌else◌, arith,
}
use mynuduo.Channel.{Channel, added, none_event, write_event}
use mynuduo.Connector
use mynuduo.Connector.{Connector}
use mynuduo.EventLoop
use mynuduo.Poller.Table.{table}
use mynuduo.Poller.Sync.{IsSynced}
use mynuduo.TcpConnection
use mynuduo.TcpConnection.{Connection, UserCallbacks}
use mynuduo.TcpConnection.Defaults.{defaults, defaults-KeepsInv, default_connection_callback}
use mynuduo.TcpConnection.Close.{KeepsInv}
use mynuduo.TcpServer.{Printf}
use mynuduo.TcpClient.{TcpClient, handle_write, remove_connection, disconnect, stop}
use mynuduo.TcpClient.Up.{KeepsFd, Outcome, handle_write-Outcome}
use mynuduo.TcpClient.Stays.{Alone, remove_connection-Alone}

one_character-injective : (i j : ℕ) → i ∷ [] ≡ j ∷ [] → i ≡ j
one_character-injective i j h = cc

one_character-short : (i : ℕ) → i < 2147483648 → 1 ≤ 10
one_character-short i h = omega arith

-- A way to print numbers with one character for each.
abbrev one_character : Printf
one_character = record {
  digits = λ i. i ∷ [];
  injective = one_character-injective;
  short = one_character-short;
}

-- The callbacks that the client starts with.
abbrev owner_close : Connection table → Option (Connection table)
owner_close w = some w

abbrev given : UserCallbacks table
given = defaults table owner_close

given-KeepsInv : KeepsInv table given
given-KeepsInv = defaults-KeepsInv table owner_close (λ w v. v)

-- The channel of a pending attempt on descriptor 5.
abbrev channel5 : Channel
channel5 = record {
  self = 100;
  fd = 5;
  events = write_event;
  revents = none_event;
  index = added;
  owner = none;
  tied = false;
}

-- A client "C" that is connecting and retries.
abbrev client : TcpClient table
client = record {
  connector = record {
    wanted = true;
    state = Connector.connecting;
    channel = some channel5;
    retry_delay = 500;
    loop = EventLoop.new Connector.Task;
    poller = record {
      epoll = λ j. if 5 == j then some (record { mask = write_event; ptr = 100 }) else none;
      channels = (5, 100) ∷ [];
      capacity = 1;
    };
    closed = [];
    handed = [];
  };
  name = 67 ∷ [];
  has_write_complete = false;
  retry = true;
  wanted = true;
  next_conn_id = 1;
  connection = none;
  conn_loop = EventLoop.new TcpConnection.Task;
}

channel5-IsSynced : IsSynced table client.connector.poller channel5
channel5-IsSynced = record { in_kernel = refl; in_map = refl }

given-KeepsFd : KeepsFd table given
unfolding default_connection_callback
given-KeepsFd w = refl

handle_write-Outcome_example :
    Outcome table one_character given given-KeepsInv given-KeepsFd channel5
      (not false && not false)
      client
      (handle_write table one_character given (49 ∷ []) 300 200 false false client)
handle_write-Outcome_example =
    handle_write-Outcome table one_character given given-KeepsInv given-KeepsFd (49 ∷ []) 300 200
      false false channel5 client refl refl channel5-IsSynced

remove_connection-Alone_example :
    Returns
      (Alone table (disconnect table true client))
      (remove_connection table 101 6 none (disconnect table true client))
    × ((t : TcpClient table)
        → stop table true client ≡ some t
        → Returns (Alone table t) (remove_connection table 101 6 none t))
remove_connection-Alone_example = remove_connection-Alone table true 101 6 none client
