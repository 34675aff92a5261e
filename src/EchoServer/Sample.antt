-- ===== src/EchoServer/Sample.antt =====
-- EchoServer: a connection that is up, for the tests.
use mynuduo.Base.{ℕ, ◌≤◌, ◌≡◌, refl, true, false, none, some, List, [], ◌∷◌, length, arith}
use mynuduo.Buffer.{Buffer, IsValid, WriteResult, wrote, contents}
use mynuduo.Buffer.Space.{readable_lem}
use mynuduo.Channel.{none_event, fresh}
use mynuduo.EventLoop
use mynuduo.Poller.Table.{table}
use mynuduo.TcpConnection.{Connection, Task, connected}
use mynuduo.TcpConnection.Inv.{Inv, readable-nil, nil-readable}

abbrev pub empty_buffer : Buffer
empty_buffer = record { bytes = 0 ∷ 0 ∷ 0 ∷ 0 ∷ 0 ∷ 0 ∷ 0 ∷ 0 ∷ 0 ∷ 0 ∷ []; reader = 8; writer = 8 }

pub empty-IsValid : IsValid empty_buffer
empty-IsValid = omega arith

pub empty-nil : contents empty_buffer ≡ []
empty-nil = readable-nil empty-IsValid (readable_lem empty-IsValid)

abbrev pub up : Connection table
up = record {
  state = connected;
  channel = record {
    self = 100;
    fd = 5;
    events = none_event;
    revents = none_event;
    index = fresh;
    owner = some 3;
    tied = true;
  };
  input = empty_buffer;
  output = empty_buffer;
  high_water_mark = 4;
  has_write_complete = true;
  has_high_water = true;
  sent = [];
  write_shut = false;
  loop = EventLoop.new Task;
  poller = record { epoll = λ j. none; channels = []; capacity = 1 };
}

pub up-Inv : Inv table up
up-Inv = record {
  synced = record { in_kernel = refl; in_map = refl };
  input_valid = empty-IsValid;
  output_valid = empty-IsValid;
  waits = λ _. rw (nil-readable empty-IsValid empty-nil) refl;
}

-- The kernel takes one byte at most.
abbrev pub takes_one : List ℕ → WriteResult
takes_one [] = wrote 0
takes_one (x ∷ d) = wrote 1

pub takes_part : (d : List ℕ) (n : ℕ) → takes_one d ≡ wrote n → n ≤ length d
takes_part [] n e = ground arith
takes_part (x ∷ d) n e = ground arith
