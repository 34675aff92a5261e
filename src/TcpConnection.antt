-- ===== src/TcpConnection.antt =====
-- TcpConnection.h and TcpConnection.cc: one connection on its loop's thread. The state is the
-- object with what it reaches: its channel, its two buffers, the loop's queue and the poller.
-- What the kernel answers (`readv`, `write`) and the user's callbacks are arguments.
pub mod Inv
pub mod Stream
pub mod Keeps
pub mod Onward
pub mod Life
pub mod Run
pub mod Race
pub mod Flush
pub mod Drain
pub mod Close
pub mod Defaults
pub mod Event
pub mod HighWater
pub mod Shutdown
mod Tests
use mynuduo.Base.{
  ℕ, ◌+◌, ◌-◌, Bool, true, false, not, ◌&&◌, ◌||◌, Option, none, some, List, [], ◌∷◌, ◌++◌, length,
  take, drop, ◌==◌, ltb, leb, if◌then◌else◌, ◌>>=◌, add_size,
}
use mynuduo.Base.Errno.{Errno, epipe, econnreset}
use mynuduo.Buffer
use mynuduo.Buffer.{
  Buffer, ReadResult, WriteResult, received, read_failed, wrote, write_failed, readable_bytes,
  retrieve, append, read_fd, write_fd, peek, initial_size,
}
use mynuduo.Channel
use mynuduo.Channel.{
  Mask, Channel, none_event, reading_on, writing_on, writing_off, is_writing, tie,
}
use mynuduo.EventLoop.{EventLoop, queue_in_loop}
use mynuduo.Poller.{Epoll, Poller, change_events, remove_channel}

-- `enum StateE`
pub data State : Type 0 where
  disconnected connecting connected disconnecting : State

abbrev pub is_disconnected : State → Bool
is_disconnected disconnected = true
is_disconnected _ = false

abbrev pub is_connected : State → Bool
is_connected connected = true
is_connected _ = false

abbrev pub is_disconnecting : State → Bool
is_disconnecting disconnecting = true
is_disconnecting _ = false

-- The functors that a connection hands to its loop. `send_at` keeps a pointer and a length.
pub data Task : Type 0 where
  write_complete shutdown_task force_close_task destroy_task : Task
  high_water : ℕ → Task
  send_at : ℕ → ℕ → Task

abbrev pub high_water_default : ℕ
high_water_default = 67108864

-- After these `sendInLoop` gives up.
unfoldable pub is_fault : Errno → Bool
is_fault epipe = true
is_fault econnreset = true
is_fault _ = false

module _ (k : Epoll) where
  -- `sent` are the bytes that the kernel has taken, `write_shut` that SHUT_WR was asked for.
  pub record Connection : Type 0 where
    pub state : State
    pub channel : Channel
    pub input : Buffer
    pub output : Buffer
    pub high_water_mark : ℕ
    pub has_write_complete : Bool
    pub has_high_water : Bool
    pub sent : List ℕ
    pub write_shut : Bool
    pub loop : EventLoop Task
    pub poller : Poller k

  -- What `connectionCallback_`, `messageCallback_` and `closeCallback_` do.
  pub record UserCallbacks : Type 0 where
    pub on_connection : Connection → Option Connection
    pub on_message : Connection → Option Connection
    pub on_close : Connection → Option Connection

  unfoldable pub new : ℕ → ℕ → Bool → Bool → EventLoop Task → Poller k → Connection
  new self fd complete high loop poller = record {
    state = connecting;
    channel = Channel.new self fd;
    input = Buffer.new initial_size;
    output = Buffer.new initial_size;
    high_water_mark = high_water_default;
    has_write_complete = complete;
    has_high_water = high;
    sent = [];
    write_shut = false;
    loop = loop;
    poller = poller;
  }

  -- `channel_->enableReading()` and its like.
  pub set_events : (Mask → Mask) → Connection → Option Connection
  set_events f w = do
    (c, p) ← change_events k (f w.channel.events) w.channel w.poller
    some (record w { channel = c; poller = p })

  -- `if (test) loop_->queueInLoop(t)`, on the loop's own thread.
  queue_if : Bool → Task → Connection → Connection
  queue_if test t w = record w { loop = if test then queue_in_loop true t w.loop else w.loop }

  pub shutdown_in_loop : Connection → Connection
  shutdown_in_loop w = record w {
    write_shut = if not (is_writing w.channel) then true else w.write_shut;
  }

  -- The first `write` of `sendInLoop`, with `nwrote` and `faultError`.
  record Attempt : Type 0 where
    nwrote : ℕ
    fault : Bool
    conn : Connection

  tried : WriteResult → List ℕ → Connection → Attempt
  unfolding queue_if is_fault
  tried (wrote n) d w = record {
    nwrote = n;
    fault = false;
    conn =
        queue_if (length d - n == 0 && w.has_write_complete) write_complete
          (record w { sent = w.sent ++ take n d });
  }
  tried (write_failed e) d w = record { nwrote = 0; fault = is_fault e; conn = w }

  write_now : (List ℕ → WriteResult) → List ℕ → Connection → Attempt
  unfolding tried
  write_now sys_write d w = tried (sys_write d) d w

  -- `if (!channel_->isWriting()) channel_->enableWriting();`, with the test as an argument.
  wait_writable : Bool → Connection → Option Connection
  wait_writable true w = some w
  wait_writable false w = set_events writing_on w

  -- The rest goes to `outputBuffer_`, and the channel waits for EPOLLOUT.
  keep_rest : List ℕ → Connection → Option Connection
  unfolding queue_if wait_writable
  keep_rest rest w =
      let oldlen = readable_bytes w.output in
      let newlen = add_size oldlen (length rest) in
      let crossed = leb w.high_water_mark newlen && ltb oldlen w.high_water_mark in
      let w1 = queue_if (crossed && w.has_high_water) (high_water newlen) w in
      let w2 = record w1 { output = append w1.output rest } in
      wait_writable (is_writing w2.channel) w2

  finish_send : List ℕ → Attempt → Option Connection
  unfolding keep_rest
  finish_send d a =
      if not a.fault && ltb 0 (length d - a.nwrote)
      then keep_rest (drop a.nwrote d) a.conn
      else some a.conn

  pub send_in_loop : (List ℕ → WriteResult) → List ℕ → Connection → Option Connection
  unfolding write_now finish_send
  send_in_loop sys_write d w =
      if is_disconnected w.state
      then some w
      else finish_send d (
          if not (is_writing w.channel) && readable_bytes w.output == 0
          then write_now sys_write d w
          else record { nwrote = 0; fault = false; conn = w })

  -- `memory` is what stands at an address now: the caller's text is handed on by its address.
  pub send : Bool → (ℕ → List ℕ) → (List ℕ → WriteResult) → ℕ → ℕ → Connection → Option Connection
  unfolding send_in_loop
  send in_loop memory sys_write ptr len w =
      if is_connected w.state
      then if in_loop
        then send_in_loop sys_write (take len (memory ptr)) w
        else some (record w { loop = queue_in_loop false (send_at ptr len) w.loop })
      else some w

  -- `shutdown` after its test. From another thread the state may have changed since the test.
  abbrev pub begin_shutdown : Bool → Connection → Connection
  begin_shutdown in_loop w =
      let w' = record w { state = disconnecting } in
      if in_loop
      then shutdown_in_loop w'
      else record w' { loop = queue_in_loop false shutdown_task w.loop }

  -- With nothing in between, as always on the loop's own thread.
  pub shutdown : Bool → Connection → Connection
  unfolding shutdown_in_loop
  shutdown in_loop w = if is_connected w.state then begin_shutdown in_loop w else w

  -- `forceClose` after its test, which always queues; `in_loop` says from which thread. From another
  -- thread the state may have changed since the test.
  abbrev pub begin_force_close : Bool → Connection → Connection
  begin_force_close in_loop w = record w {
    state = disconnecting;
    loop = queue_in_loop in_loop force_close_task w.loop;
  }

  -- With nothing in between, as always on the loop's own thread.
  pub force_close : Bool → Connection → Connection
  force_close in_loop w =
      if is_connected w.state || is_disconnecting w.state then begin_force_close in_loop w else w

  -- `outputBuffer_.retrieve(n)` and what follows it.
  after_write : ℕ → Connection → Option Connection
  unfolding set_events queue_if shutdown_in_loop
  after_write n w =
      let w1 = record w { output = retrieve w.output n } in
      if readable_bytes w1.output == 0
      then (do
        w2 ← set_events writing_off w1
        let w3 = queue_if w2.has_write_complete write_complete w2
        some (if is_disconnecting w3.state then shutdown_in_loop w3 else w3))
      else some w1

  after_result : WriteResult → Connection → Option Connection
  unfolding after_write
  after_result (wrote n) w =
      if ltb 0 n
      then after_write n
          (record w { sent = w.sent ++ take n (peek w.output (readable_bytes w.output)) })
      else some w
  after_result (write_failed e) w = some w

  pub handle_write : (List ℕ → WriteResult) → Connection → Option Connection
  unfolding after_result
  handle_write sys_write w =
      if is_writing w.channel then after_result (write_fd w.output sys_write) w else some w

  module _ (user : UserCallbacks) where
    open user use {on_connection, on_message, on_close}

    pub connect_established : ℕ → Connection → Option Connection
    unfolding set_events
    connect_established self w = do
      let w1 = record w { state = connected; channel = tie self w.channel }
      w2 ← set_events reading_on w1
      on_connection w2

    pub connect_destroyed : Connection → Option Connection
    unfolding set_events
    connect_destroyed w = do
      w1 ←
          if is_connected w.state
          then (do
            w2 ← set_events (λ m. none_event) (record w { state = disconnected })
            on_connection w2)
          else some w
      (c, p) ← remove_channel k w1.channel w1.poller
      some (record w1 { channel = c; poller = p })

    pub handle_close : Connection → Option Connection
    unfolding set_events
    handle_close w = do
      w1 ← set_events (λ m. none_event) (record w { state = disconnected })
      w2 ← on_connection w1
      on_close w2

    -- `handleError` reads SO_ERROR and logs it.
    pub handle_error : Connection → Option Connection
    handle_error w = some w

    after_read : ReadResult → Connection → Option Connection
    unfolding handle_close handle_error
    after_read (received []) w = handle_close w
    after_read (received (x ∷ d)) w = on_message w
    after_read (read_failed e) w = handle_error w

    pub handle_read : (ℕ → ReadResult) → Connection → Option Connection
    unfolding after_read
    handle_read readv w =
        let (result, input') = read_fd w.input readv in
        after_read result (record w { input = input' })

    pub force_close_in_loop : Connection → Option Connection
    unfolding handle_close
    force_close_in_loop w =
        if is_connected w.state || is_disconnecting w.state then handle_close w else some w

    -- The callbacks that the constructor sets on the channel.
    pub channel_callbacks : (ℕ → ReadResult) → (List ℕ → WriteResult) → Channel.Callbacks Connection
    channel_callbacks readv sys_write = record {
      on_read = some (handle_read readv);
      on_write = some (handle_write sys_write);
      on_close = some handle_close;
      on_error = some handle_error;
    }
