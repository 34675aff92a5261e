-- ===== src/Lib.antt =====
-- Model of mynuduo, a C++ library of non-blocking TCP after the reactor pattern (one loop per thread).
--
-- An EventLoop waits in its Poller for descriptors that are ready, has the Channel of each call its
-- callbacks, and then calls the functors that other threads and callbacks have queued. A
-- TcpConnection owns a Channel and two Buffers, and lives on the loop that a ThreadPool chose for it.
-- A TcpServer keeps its connections by name, an EventLoopThread makes each of its loops, a TimerQueue
-- keeps the timers of a loop, an Acceptor takes the server's connections in, and a TcpClient has one
-- connection, which its Connector makes.
--
-- What stands where, by file, with the code's files in brackets:
--   Base            names of the library, tests, lists, `size_t` arithmetic, Option results
--   Base/Dict       association lists for `std::unordered_map`
--   Base/Errno      the errno values the code tells apart
--   Buffer          [Buffer.h, Buffer.cc]: `buffer_` is `bytes`, `readerIndex_` and `writerIndex_` are
--                   `reader` and `writer`; Buffer/Run has the queue of bytes that it implements
--   Channel         [Channel.h, Channel.cc]: `events_`, `revents_`, `index_`, `tie_`, `handleEvent`
--   Poller          [Poller.h, Poller.cc, EPollPoller.h, EPollPoller.cc]: `updateChannel`,
--                   `removeChannel`; Poller/Poll has `poll` and `fillActiveChannels`, Poller/Default
--                   `newDefaultPoller` [DefaultPoller.cc]
--   EventLoop       [EventLoop.h, EventLoop.cc]: `queueInLoop`, `runInLoop`, `doPendingFunctors`,
--                   `loop`, `quit`; EventLoop/Threads has the same code under several threads, before,
--                   in and after `loop`, and EventLoop/Reactor the constructor and the destructor
--                   with the wakeup channel
--   TcpConnection   [TcpConnection.h, TcpConnection.cc]: `send`, `shutdown`, `forceClose` and all handlers;
--                   TcpConnection/Run has a connection under any calls and events,
--                   TcpConnection/Race a `forceClose` of another thread that is not one step, and
--                   TcpConnection/Defaults the callbacks of Callbacks.cc
--   TimerQueue      [Timer.h, Timer.cc, TimerId.h, TimerQueue.h, TimerQueue.cc, Timestamp.h];
--                   TimerQueue/RunAt has `runAt` and `runAfter` of EventLoop.cc
--   ThreadPool      [EventLoopThreadPool.h, EventLoopThreadPool.cc]: `getNextLoop` and `start`
--   EventLoopThread [EventLoopThread.h, EventLoopThread.cc]: `startLoop`, `threadFunc` and
--                   the destructor as steps of two threads
--   Thread          [Thread.h, Thread.cc, CurrentThread.h, CurrentThread.cc]: `start`, `join` and the
--                   destructor as steps, `setDefaultName`, `tid`
--   TcpServer       [TcpServer.h, TcpServer.cc]: `connections_`, `newConnection`, `start`,
--                   `removeConnectionInLoop`; TcpServer/Serve joins it to its Acceptor, and
--                   TcpServer/Site runs the tasks of all its connections
--   Acceptor        [Socket.h, Socket.cc, Acceptor.h, Acceptor.cc]: the listening socket, `listen`,
--                   `handleRead`
--   Connector       [Connector.h, Connector.cc]: `start`, `connect`, `retry`, `stop` and the handlers;
--                   Connector/SelfConnect has `isSelfConnect`
--   TcpClient       [TcpClient.h, TcpClient.cc]: `connect`, `disconnect`, `stop`, `newConnection`,
--                   `removeConnection` and the destructor; its loop's queue is kept in two parts,
--                   the connector's functors and those of connections
--   InetAddress     [InetAddress.h, InetAddress.cc]: over the functions `Net` of the C library
--   Logger          [Logger.h, Logger.cc]: the tags of a line and the macros
--   EchoServer      [example/testserver.cc]: the callbacks of the echo server
--   MuduoServer     [example/muduoServer.cc]: the callbacks of the server that sends back what comes
--   MuduoClient     [example/muduoClient.cc]: the callbacks of the client that greets;
--                   MuduoClient/Session joins it to MuduoServer over two streams of bytes
--
-- Functions keep the names of the code in lower case with _, its misspellings included. State is a
-- record that is passed on; an object that others point to is known by its address, a number.
-- `none` as a result is the end of the process: LOG_FATAL, a null pointer or an uncaught exception.
-- A `size_t` wraps round at 2 ^ 64 in Base/Words. Whether a call is made on the loop's own thread is
-- the argument `in_loop`. What the kernel and the user's callbacks do are arguments; of `epoll_ctl` only
-- what its manual says of EEXIST and ENOENT is assumed, and Poller/Table is an instance of it.
-- What `snprintf` prints for `%d` is the parameter `Printf` of TcpServer, and `Net` of InetAddress has
-- `htons`, `inet_addr` and their like. The log is left out of the other models.
--
-- The only fuel is the number of rounds of `EventLoop.loop`, which in the code ends only by `quit`: fuel
-- for the rounds up to the first that sets `quit_` is enough, by EventLoop/Quit. TcpConnection/Flush
-- counts the writable events that a connection is given: as many as there are bytes kept back are
-- enough. Each round is total, and so is every other function.
--
-- Not modelled: the clock and its text, and the `main` of the examples. Addresses are
-- not reused while an object that stands at one is referred to, and memory does not run out.
pub mod Base
pub mod Buffer
pub mod Channel
pub mod Poller
pub mod EventLoop
pub mod TcpConnection
pub mod TimerQueue
pub mod ThreadPool
pub mod Connector
pub mod TcpServer
pub mod Thread
pub mod EchoServer
pub mod MuduoServer
pub mod InetAddress
pub mod Logger
pub mod EventLoopThread
pub mod Acceptor
pub mod TcpClient
pub mod MuduoClient
