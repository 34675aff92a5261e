-- ===== src/Connector.antt =====
-- Connector.h and Connector.cc: a client's attempts to connect. The answers of the kernel (`connect`,
-- SO_ERROR, whether the socket has met itself) are arguments, and so are the descriptor of a new
-- socket and the address of a new channel. `none` is the end of the process, by LOG_FATAL or by a
-- null pointer.
pub mod Sockets
pub mod SelfConnect
pub mod Stale
mod Tests
use mynuduo.Base.{
  ℕ, ◌*◌, Bool, true, false, not, Option, none, some, List, [], ◌∷◌, ◌++◌, ◌==◌, if◌then◌else◌,
  ◌>>=◌, min,
}
use mynuduo.Base.Errno.{
  Errno, einprogress, eintr, eisconn, eagain, eaddrinuse, eaddrnotavail, econnrefused, enetunreach,
}
use mynuduo.Channel
use mynuduo.Channel.{Channel, none_event, writing_on}
use mynuduo.EventLoop.{EventLoop, queue_in_loop}
use mynuduo.Poller.{Epoll, Poller, change_events, remove_channel}

-- `enum States`
pub data State : Type 0 where
  disconnected connecting connected : State

abbrev pub is_connecting : State → Bool
is_connecting connecting = true
is_connecting _ = false

abbrev pub max_retry_delay : ℕ
max_retry_delay = 30000

abbrev pub init_retry_delay : ℕ
init_retry_delay = 500

-- The functors that a connector hands to its loop.
pub data Task : Type 0 where
  start_task stop_task reset_task : Task

-- What `connect` does about `saveErrno`; `none` is 0.
pub data Outcome : Type 0 where
  proceeds retries gives_up : Outcome

pub classify : Option Errno → Outcome
classify none = proceeds
classify (some einprogress) = proceeds
classify (some eintr) = proceeds
classify (some eisconn) = proceeds
classify (some eagain) = retries
classify (some eaddrinuse) = retries
classify (some eaddrnotavail) = retries
classify (some econnrefused) = retries
classify (some enetunreach) = retries
classify (some _) = gives_up

module _ (k : Epoll) where
  -- `closed` are the sockets closed so far, `handed` those given to `newConnectionCallback_`, newest
  -- first.
  pub record Connector : Type 0 where
    pub wanted : Bool
    pub state : State
    pub channel : Option Channel
    pub retry_delay : ℕ
    pub loop : EventLoop Task
    pub poller : Poller k
    pub closed : List ℕ
    pub handed : List ℕ

  pub new : EventLoop Task → Poller k → Connector
  new loop poller = record {
    wanted = false;
    state = disconnected;
    channel = none;
    retry_delay = init_retry_delay;
    loop = loop;
    poller = poller;
    closed = [];
    handed = [];
  }

  -- `loop_->queueInLoop` on the loop's own thread.
  queue : Task → Connector → Connector
  queue t w = record w { loop = queue_in_loop true t w.loop }

  -- `loop_->runAfter(delay / 1000.0, ...)`, which calls through `timerQueue_`: no constructor of EventLoop
  -- makes one, so that it is a null pointer.
  pub run_after : ℕ → Connector → Option Connector
  run_after delay w = none

  -- Closes the socket, and asks for another attempt after the delay, which then doubles.
  pub retry : ℕ → Connector → Option Connector
  unfolding run_after
  retry fd w =
      let w1 = record w { closed = fd ∷ w.closed; state = disconnected } in
      if w1.wanted
      then (do
        w2 ← run_after w1.retry_delay w1
        some (record w2 { retry_delay = min (w2.retry_delay * 2) max_retry_delay }))
      else some w1

  -- The new channel takes the old one's place.
  pub connecting_on : ℕ → ℕ → Connector → Option Connector
  connecting_on self fd w = do
    let c = Channel.new self fd
    (c', p) ← change_events k (writing_on c.events) c w.poller
    some (record w { state = connecting; channel = some c'; poller = p })

  attempt : Outcome → ℕ → ℕ → Connector → Option Connector
  unfolding connecting_on retry
  attempt proceeds self fd w = connecting_on self fd w
  attempt retries self fd w = retry fd w
  attempt gives_up self fd w = some (record w { closed = fd ∷ w.closed })

  pub connect : ℕ → ℕ → Option Errno → Connector → Option Connector
  unfolding classify attempt
  connect self fd err w = attempt (classify err) self fd w

  pub start_in_loop : ℕ → ℕ → Option Errno → Connector → Option Connector
  unfolding connect
  start_in_loop self fd err w = if w.wanted then connect self fd err w else some w

  pub start : Bool → ℕ → ℕ → Option Errno → Connector → Option Connector
  unfolding start_in_loop
  start in_loop self fd err w =
      let w1 = record w { wanted = true } in
      if in_loop
      then start_in_loop self fd err w1
      else some (record w1 { loop = queue_in_loop false start_task w1.loop })

  pub restart : ℕ → ℕ → Option Errno → Connector → Option Connector
  unfolding start_in_loop
  restart self fd err w =
      start_in_loop self fd err (record w { state = disconnected; wanted = true })

  -- Takes the channel out of the poller, and leaves its deletion to a functor.
  drop_channel : Option Channel → Connector → Option (ℕ × Connector)
  unfolding queue
  drop_channel none w = none
  drop_channel (some c) w = do
    (c1, p1) ← change_events k none_event c w.poller
    (c2, p2) ← remove_channel k c1 p1
    some (c2.fd, queue reset_task (record w { channel = some c2; poller = p2 }))

  remove_and_reset_channel : Connector → Option (ℕ × Connector)
  unfolding drop_channel
  remove_and_reset_channel w = drop_channel w.channel w

  pub reset_channel : Connector → Connector
  reset_channel w = record w { channel = none }

  pub stop_in_loop : Connector → Option Connector
  unfolding remove_and_reset_channel retry
  stop_in_loop w =
      if is_connecting w.state
      then (do (fd, w1) ← remove_and_reset_channel (record w { state = disconnected }); retry fd w1)
      else some w

  pub stop : Bool → Connector → Option Connector
  unfolding stop_in_loop
  stop in_loop w =
      let w1 = record w { wanted = false } in
      if in_loop
      then stop_in_loop w1
      else some (record w1 { loop = queue_in_loop false stop_task w1.loop })

  -- `err` is SO_ERROR, `self_connect` what `isSelfConnect` finds.
  settle : Bool → Bool → ℕ → Connector → Option Connector
  unfolding retry
  settle err self_connect fd w =
      if err
      then retry fd w
      else if self_connect
      then retry fd w
      else if w.wanted
      then some (record w { state = connected; handed = fd ∷ w.handed })
      else some (record w { state = connected; closed = fd ∷ w.closed })

  pub handle_write : Bool → Bool → Connector → Option Connector
  unfolding remove_and_reset_channel settle
  handle_write err self_connect w =
      if is_connecting w.state
      then (do (fd, w1) ← remove_and_reset_channel w; settle err self_connect fd w1)
      else some w

  -- LOG_FATAL ends the process before `retry`.
  pub handle_error : Connector → Option Connector
  unfolding remove_and_reset_channel
  handle_error w =
      if is_connecting w.state then (do (fd, w1) ← remove_and_reset_channel w; none) else some w
