-- ===== src/Lib.antt =====
-- A verification library for oula_server, a C++ framework for TCP servers and clients after the reactor
-- pattern: a loop waits in a poller for the events of channels, and a channel calls the handlers of its
-- owner (a connection, a connector, an acceptor, a timer queue) in the thread of the loop.
--
-- The files, with the code that they are about:
-- - Prelude: shared names; the outcomes of a call (a value, or an assertion that fails, an exit, an
--   exception, an access out of bounds, an overflow); integers; maps as functions.
-- - Buffer: net/Buffer.h and net/Buffer.cpp. `Buffer` has the two indices and the vector; `append`,
--   `retrieve`, `read_fd` and the others are the methods of those names.
-- - Channel: net/Channel.h and net/Channel.cpp. An event mask is a record of flags; `handle_event` is
--   `HandleEvent`, over callbacks on the state of the channel's owner.
-- - Poller: net/Poller.h and net/Poller.cpp, with PollPoller and EpollPoller for net/poller/. A channel's
--   address is a number. epoll_ctl(2) is a parameter.
-- - TcpConnection: net/TcpConnection.h and net/TcpConnection.cpp. `Object` has the class, `Output` the
--   sending half (`sendInLoop`, `handleWirte`, `shutdown`, `forceClose`), `Handlers` what calls back
--   (`handleRead`, `handleClose`, `ConnectEstablished`, `ConnectDestoryed`). The bytes that write(2)
--   took and the tasks given to the loop are fields of the model's connection.
-- - Acceptor: net/Acceptor.h and net/Acceptor.cpp, the listening socket.
-- - Callback: net/Callback.cpp, the default message callback, on top of the connection.
-- - Connector: net/Connector.h and net/Connector.cpp, a connection attempt with its retries. `start` may
--   come from any thread; from another one it queues a task, which `run_queued_start` runs.
-- - EventLoop: net/Eventloop.h and net/Eventloop.cpp, the functors that threads queue in a loop. The
--   interleavings of the loop's thread with others are a step relation, from the constructor on: the
--   own thread may queue functors before `loop()`, too. `Timers` has `runAt`, `runAfter`
--   and `runEvery`, on top of the timer queue.
-- - EventLoopThread: net/EventLoopThread.h and net/EventLoopThread.cpp, the hand-over of a new thread's
--   loop, as a step relation of the two threads.
-- - EventLoopThreadPool: net/EventLoopThreadPool.h and net/EventLoopThreadPool.cpp.
-- - TcpServer: net/TcpServer.h and net/TcpServer.cpp, on top of the thread pool.
-- - Socket: net/Socket.cpp and net/SocketHelper.cpp, the wrappers with logic of their own.
-- - TcpClient: net/TcpClient.h and net/TcpClient.cpp, on top of the connector and the connection.
-- - ThreadPool: threadpool/threadpool.h and threadpool/threadpool.cpp, tasks and workers. Mutex,
--   condition variable and stop flag are accessed by the steps of a relation.
-- - TimerQueue: net/TimerQueue.h, net/TimerQueue.cpp and net/TimerId.h. A `std::set` is a sorted list
--   (Prelude/Sets), a `Timer*` is a number that the model's memory leads to the object; `insert`,
--   `cancel_in_loop`, `get_expired`, `reset` and `handle_read` are the methods of those names.
-- - Timestamp: net/utils/Timestamp.h, net/utils/Timestamp.cpp, net/Timer.h, net/Timer.cpp, and
--   `howMuchTimeFromNow` of net/TimerQueue.cpp. `Text` has `toString`, over characters as numbers.
--
-- An operation that the code restricts to the thread of a loop gets an argument `here`, whether the
-- caller runs in it; `assertInLoopThread` ends the process otherwise. What a system call answers is an
-- argument of the operation that makes it. `size_t` is 64 bits wide and wraps; the seconds of the clock
-- are a 32-bit int and wrap; sums and differences of times are 64-bit ints and wrap; the number of
-- threads that a server is given becomes a 32-bit int; a number of seconds that the code holds in a
-- double is given by its microseconds as an int64_t and by whether it is positive; the connection
-- numbers of server and client are ints whose overflow is a fault. The loops of the modelled code are
-- structural recursions; only the digits that printf(3) writes have fuel, 19 of them, which is what an
-- int64_t needs.
--
-- Not modelled: logic/, which sleeps and prints, the logging, the conversion of addresses, the set-up of
-- the programs, and the wrappers that hand their arguments to a system call.
pub mod Acceptor
pub mod Buffer
pub mod Callback
pub mod Channel
pub mod Connector
pub mod EventLoop
pub mod EventLoopThread
pub mod EventLoopThreadPool
pub mod Poller
pub mod Prelude
pub mod Socket
pub mod TcpClient
pub mod TcpConnection
pub mod TcpServer
pub mod ThreadPool
pub mod TimerQueue
pub mod Timestamp
