-- ===== src/Connector/Tests.antt =====
-- The theorems about the connector at concrete inputs.
use mynuduo.Base.{
  Bool, if◌then◌else◌, ◌==◌, Returns, some, false, not, ◌&&◌, ◌∷◌, ◌≡◌, refl, true, [], none,
}
use mynuduo.EventLoop
use mynuduo.Poller.Table.{table}
use mynuduo.Connector.{Connector, Task, handle_write, disconnected, connecting}
use mynuduo.Connector.Sockets.{Ends, handle_write-Ends}
use mynuduo.Connector.Stale.{Dangling, stop_start_reset, stop_start_reset-Dangling}
use mynuduo.Poller.Sync.{IsSynced}
use mynuduo.Channel.{Channel, added, none_event, write_event}

-- A connector that is to connect and has not tried yet.
abbrev idle : Connector table
idle = record {
  wanted = true;
  state = disconnected;
  channel = none;
  retry_delay = 500;
  loop = EventLoop.new Task;
  poller = record { epoll = λ j. none; channels = []; capacity = 1 };
  closed = [];
  handed = [];
}

-- The channel of a pending attempt on descriptor 5.
abbrev channel5 : Channel
channel5 = record {
  self = 100;
  fd = 5;
  events = write_event;
  revents = none_event;
  index = added;
  owner = none;
  tied = false;
}

abbrev busy : Connector table
busy = record idle {
  state = connecting;
  channel = some channel5;
  poller = record {
    epoll = λ j. if 5 == j then some (record { mask = write_event; ptr = 100 }) else none;
    channels = (5, 100) ∷ [];
    capacity = 1;
  };
}

channel5-IsSynced : IsSynced table busy.poller channel5
channel5-IsSynced = record { in_kernel = refl; in_map = refl }

-- The attempt fails.
handle_write-Ends_example :
    Ends table channel5 (not true && not false) busy (handle_write table true false busy)
handle_write-Ends_example =
    handle_write-Ends table true false channel5 busy refl refl channel5-IsSynced

stop_start_reset-Dangling_example :
    Returns
      (λ t.
        Dangling table 200 5 t
        × ((err self_connect : Bool) → handle_write table err self_connect t ≡ none))
      (stop_start_reset table 200 5 busy)
stop_start_reset-Dangling_example =
    stop_start_reset-Dangling table 200 channel5 busy refl refl channel5-IsSynced
