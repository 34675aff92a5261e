-- ===== src/TcpConnection/Tests.antt =====
-- The theorems about a connection at concrete inputs.
use mynuduo.Base.{
  ℕ, ◌≤◌, ◌≡◌, refl, true, false, none, some, List, [], ◌∷◌, length, if◌then◌else◌, ◌==◌, arith,
  Returns, ◌∙◌,
}
use mynuduo.Buffer.Space.{readable_lem, length-contents}
use mynuduo.Buffer.{contents, read_limit, Buffer, WriteResult, ReadResult, wrote, received}
use mynuduo.Channel.{Channel, read_event, set_flags, write_event, handle_event, none_event, added}
use mynuduo.EventLoop
use mynuduo.Poller.{Poller}
use mynuduo.Poller.Table.{table}
use mynuduo.TcpConnection.{
  Connection, UserCallbacks, Task, connected, disconnecting, send_in_loop, handle_write, shutdown,
  force_close, connect_destroyed, channel_callbacks, disconnected,
}
use mynuduo.TcpConnection.Inv.{Inv, nil-readable}
use mynuduo.TcpConnection.Stream.{accepted, send_in_loop-accepted}
use mynuduo.TcpConnection.Drain.{Drained, handle_write-Drained}
use mynuduo.TcpConnection.Shutdown.{ShutDown, shutdown-ShutDown}
use mynuduo.TcpConnection.Event.{handle_event-Inv}
use mynuduo.TcpConnection.Onward.{Onward, Onward-refl}
use mynuduo.TcpConnection.Life.{GoesOnward}
use mynuduo.TcpConnection.Run.{here, next, shuts, force_closes, Steps-Onward}
use mynuduo.TcpConnection.Flush.{TakesSome, Flushed, flush, flush-Flushed}
use mynuduo.TcpConnection.HighWater.{Told, send_in_loop-Told}
use mynuduo.TcpConnection.Close.{KeepsInv, Gone, connect_destroyed-Gone}

abbrev empty_buffer : Buffer
empty_buffer = record { bytes = 0 ∷ 0 ∷ 0 ∷ 0 ∷ 0 ∷ 0 ∷ 0 ∷ 0 ∷ 0 ∷ 0 ∷ []; reader = 8; writer = 8 }

abbrev watching : Channel → Poller table
watching c = record {
  epoll = λ j. if 5 == j then some (record { mask = c.events; ptr = 100 }) else none;
  channels = (5, 100) ∷ [];
  capacity = 1;
}

abbrev open_channel : Channel
open_channel = record {
  self = 100;
  fd = 5;
  events = read_event;
  revents = none_event;
  index = added;
  owner = some 3;
  tied = true;
}

-- A connection that is up, with nothing kept back.
abbrev idle : Connection table
idle = record {
  state = connected;
  channel = open_channel;
  input = empty_buffer;
  output = empty_buffer;
  high_water_mark = 4;
  has_write_complete = true;
  has_high_water = true;
  sent = 9 ∷ [];
  write_shut = false;
  loop = EventLoop.new Task;
  poller = watching open_channel;
}

idle-Inv : Inv table idle
idle-Inv = record {
  synced = record { in_kernel = refl; in_map = refl };
  input_valid = omega arith;
  output_valid = omega arith;
  waits = λ _. rw (nil-readable {b = empty_buffer} (omega arith) refl);
}

-- The kernel takes one byte at most.
abbrev takes_one : List ℕ → WriteResult
takes_one [] = wrote 0
takes_one (x ∷ d) = wrote 1

takes_part : (d : List ℕ) (n : ℕ) → takes_one d ≡ wrote n → n ≤ length d
takes_part [] n e = ground arith
takes_part (x ∷ d) n e = ground arith

send_in_loop-accepted_example :
    Returns
      (λ t. Inv table t × (accepted table t ≡ 9 ∷ 1 ∷ 2 ∷ []))
      (send_in_loop table takes_one (1 ∷ 2 ∷ []) idle)
send_in_loop-accepted_example =
    send_in_loop-accepted table takes_one (1 ∷ 2 ∷ []) idle idle-Inv refl takes_part
      (λ f. ground (arith, f.1)) (omega arith)

-- A connection that is closing, with two bytes kept back.
abbrev closing_channel : Channel
closing_channel = record open_channel { events = set_flags read_event write_event }

abbrev closing_buffer : Buffer
closing_buffer = record {
  bytes = 0 ∷ 0 ∷ 0 ∷ 0 ∷ 0 ∷ 0 ∷ 0 ∷ 0 ∷ 6 ∷ 7 ∷ [];
  reader = 8;
  writer = 10;
}

abbrev closing : Connection table
closing = record idle {
  state = disconnecting;
  channel = closing_channel;
  output = closing_buffer;
  poller = watching closing_channel;
}

closing-Inv : Inv table closing
closing-Inv = record {
  synced = record { in_kernel = refl; in_map = refl };
  input_valid = omega arith;
  output_valid = omega arith;
  waits = λ _. rw (readable_lem {b = closing_buffer} (omega arith));
}

handle_write-Drained_example :
    Returns (Drained table closing) (handle_write table (λ d. wrote 2) closing)
handle_write-Drained_example = handle_write-Drained table (λ d. wrote 2) closing closing-Inv

shutdown-ShutDown_example : ShutDown table idle (shutdown table true idle)
shutdown-ShutDown_example = shutdown-ShutDown table true idle idle-Inv

-- Callbacks of a program that only looks on.
abbrev watcher : UserCallbacks table
watcher = record { on_connection = λ w. some w; on_message = λ w. some w; on_close = λ w. some w }

watcher-KeepsInv : KeepsInv table watcher
watcher-KeepsInv = record { connection = λ w v. v; message = λ w v. v; close = λ w v. v }

connect_destroyed-Gone_example :
    Returns (λ t. Inv table t × Gone table watcher t) (connect_destroyed table watcher idle)
connect_destroyed-Gone_example = connect_destroyed-Gone table watcher watcher-KeepsInv idle idle-Inv

abbrev end_of_stream : ℕ → ReadResult
end_of_stream room = received []

end_short :
    (d : List ℕ)
    → end_of_stream (read_limit empty_buffer) ≡ received d
    → length d ≤ read_limit empty_buffer
end_short [] e = omega arith
end_short (x ∷ d) e = absurd (ground arith)

-- The end of the stream and room to write are reported at once.
abbrev reported : Connection table
reported = record idle {
  channel = record open_channel { revents = set_flags read_event write_event };
}

reported-Inv : Inv table reported
reported-Inv = record {
  synced = record { in_kernel = refl; in_map = refl };
  input_valid = idle-Inv.input_valid;
  output_valid = idle-Inv.output_valid;
  waits = λ _. idle-Inv.waits refl;
}

handle_event-Inv_example : Returns (Inv table) (
    handle_event
      (λ obj. true)
      reported.channel
      (channel_callbacks table watcher end_of_stream takes_one)
      reported)
handle_event-Inv_example =
    handle_event-Inv table watcher watcher-KeepsInv end_of_stream takes_one reported reported-Inv
      end_short (omega arith) (λ obj. true)

send_in_loop-Told_example :
    Returns
      (Told table (1 ∷ 2 ∷ 3 ∷ 4 ∷ 5 ∷ []) idle)
      (send_in_loop table takes_one (1 ∷ 2 ∷ 3 ∷ 4 ∷ 5 ∷ []) idle)
send_in_loop-Told_example =
    send_in_loop-Told table takes_one (1 ∷ 2 ∷ 3 ∷ 4 ∷ 5 ∷ []) idle idle-Inv takes_part
      (omega arith) (omega arith)

watcher-GoesOnward : GoesOnward table watcher
watcher-GoesOnward = record {
  connection = Onward-refl table;
  message = Onward-refl table;
  close = Onward-refl table;
}

-- The program shuts the connection down, and then forces it to close.
abbrev shut_first : Connection table
shut_first = shutdown table true idle

Steps-Onward_example : Onward table idle (force_close table true shut_first)
Steps-Onward_example =
    Steps-Onward table watcher watcher-GoesOnward
      (next (next here (shuts refl)) (force_closes refl))

-- The connection is down when the other thread goes on.
abbrev down : Connection table
down = record idle { state = disconnected }

closing_left : length (contents closing_buffer) ≡ 2
closing_left =
    length-contents {b = closing_buffer} (omega arith)
    ∙ readable_lem {b = closing_buffer} (omega arith)

takes_some : TakesSome table takes_one
takes_some x d = (0, refl)

flush-Flushed_example : Returns (Flushed table takes_one closing) (flush table takes_one 3 closing)
flush-Flushed_example =
    flush-Flushed table takes_one 3 closing takes_some closing-Inv refl
      (omega (arith, closing_left))
