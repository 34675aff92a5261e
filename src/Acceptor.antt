-- ===== src/Acceptor.antt =====
-- Socket.h, Socket.cc, Acceptor.h and Acceptor.cc: the listening socket of a server. What the system
-- calls answer is an argument; `none` is the end of the process by LOG_FATAL or by the callback.
pub mod Life
mod Tests
use mynuduo.Base.{ℕ, Bool, true, false, Option, none, some, List, [], ◌∷◌, if◌then◌else◌, ◌>>=◌}
use mynuduo.Channel
use mynuduo.Channel.{Mask, Channel, none_event, reading_on}
use mynuduo.Poller.{Epoll, Poller, change_events, remove_channel}

-- A Socket, with the options set on it, and whether it was bound, listens or was shut for writing.
pub record Socket : Type 0 where
  pub fd : ℕ
  pub no_delay : Bool
  pub reuse_addr : Bool
  pub reuse_port : Bool
  pub keep_alive : Bool
  pub bound : Bool
  pub listens : Bool
  pub write_shut : Bool

pub new_socket : ℕ → Socket
new_socket fd = record {
  fd = fd;
  no_delay = false;
  reuse_addr = false;
  reuse_port = false;
  keep_alive = false;
  bound = false;
  listens = false;
  write_shut = false;
}

-- `ok` says that the system call returned 0.
pub bind_address : Bool → Socket → Option Socket
bind_address ok s = if ok then some (record s { bound = true }) else none

pub listen_socket : Bool → Socket → Option Socket
listen_socket ok s = if ok then some (record s { listens = true }) else none

-- A failure is logged.
pub shutdown_write : Bool → Socket → Socket
shutdown_write ok s = record s { write_shut = if ok then true else s.write_shut }

pub set_tcp_no_delay : Bool → Socket → Socket
set_tcp_no_delay on s = record s { no_delay = on }

pub set_reuse_addr : Bool → Socket → Socket
set_reuse_addr on s = record s { reuse_addr = on }

pub set_reuse_port : Bool → Socket → Socket
set_reuse_port on s = record s { reuse_port = on }

pub set_keep_alive : Bool → Socket → Socket
set_keep_alive on s = record s { keep_alive = on }

module _ (k : Epoll) where
  -- The poller is that of the loop. `closed` are the sockets closed so far, newest first.
  pub record Acceptor : Type 0 where
    pub socket : Socket
    pub channel : Channel
    pub listenning : Bool
    pub poller : Poller k
    pub closed : List ℕ

  -- `created` is the socket that the kernel gave, `self` the address of the channel; the argument
  -- `reuseport` is not looked at.
  pub new : Option ℕ → Bool → Bool → ℕ → Poller k → Option Acceptor
  unfolding new_socket set_reuse_addr set_reuse_port bind_address
  new created bind_ok reuseport self poller = do
    fd ← created
    let s1 = set_reuse_addr true (new_socket fd)
    let s2 = set_reuse_port true s1
    s3 ← bind_address bind_ok s2
    some (record {
      socket = s3;
      channel = Channel.new self fd;
      listenning = false;
      poller = poller;
      closed = [];
    })

  pub listen : Bool → Acceptor → Option Acceptor
  unfolding listen_socket
  listen listen_ok a = do
    s ← listen_socket listen_ok a.socket
    (c, p) ← change_events k (reading_on a.channel.events) a.channel a.poller
    some (record a { listenning = true; socket = s; channel = c; poller = p })

  -- The destructor, and those of its members: the socket is closed last.
  pub destruct : Acceptor → Option Acceptor
  destruct a = do
    (c1, p1) ← change_events k none_event a.channel a.poller
    (c2, p2) ← remove_channel k c1 p1
    some (record a { channel = c2; poller = p2; closed = a.socket.fd ∷ a.closed })

  -- `accepted` is what `accept4` gave, `callback` is `newConnectionCallback_`, if set, which acts on
  -- the rest of the program.
  unfoldable pub handle_read :
      {S : Type 0} → Option ℕ → Option (ℕ → S → Option S) → Acceptor → S → Option (Acceptor × S)
  handle_read none callback a s = some (a, s)
  handle_read (some connfd) (some f) a s = do s' ← f connfd s; some (a, s')
  handle_read (some connfd) none a s = some (record a { closed = connfd ∷ a.closed }, s)
