-- ===== src/Lib.antt =====
-- A verification library for pallette, a C++ network library (event loop, TCP connections, HTTP).
--
-- An event loop polls file descriptors through channels; a connection reads from its socket into
-- a buffer, and writes what the socket does not take at once from another; the HTTP server parses
-- requests from the input buffer of a connection; an acceptor takes the connections of a server, and
-- a connector makes those of a client.
-- A failed assert, or an access outside a vector, is the result `none`.
--
-- Base: numbers, lists, signed integers and byte strings that the other modules share.
-- Endian: pallette/Endian.h, and the order of the bytes of an integer, on a little-endian host.
-- Buffer: pallette/Buffer.h and Buffer.cpp, a vector with two indices. Its interface for the others
--   is `Holds b xs`: the buffer is in good order and holds the bytes `xs`.
-- Http: pallette/http, HttpRequest.h and HttpContext (processRequestLine, parseRequest). The loop of
--   parseRequest runs on fuel, two rounds more than there are bytes to read, which is enough since
--   each round but the last takes a byte or changes the state. HttpResponse (appendToBuffer) and
--   HttpServer (onMessage, onRequest) stand on it, with the callback of the user an argument.
-- Loop: pallette/EventLoop, whose steps and those of other threads are taken in any order (`Reaches`);
--   the round over its active channels (`Dispatch`), with updateChannel and removeChannel;
--   pallette/Channel (enableReading to disableAll, update, remove, handleEvent) and
--   pallette/EpollPoller, with the calls of epoll_ctl recorded and what epoll_wait returns given;
--   pallette/TimerQueue and pallette/Timer, with what callbacks do an argument;
--   pallette/EventLoopThreadPool, with the loops that the threads start an argument.
-- Tcp: pallette/TcpConnection (each operation a function from a connection to a connection, and
--   what the kernel answers to `write` and `readv` an argument) and pallette/Connector (the same,
--   with the answers of `connect` and `getsockopt`); pallette/TcpServer, the map of its connections
--   under their names, with what it gives to the loops recorded; pallette/TcpClient over the
--   connector, in its loop's thread; pallette/Acceptor, with the descriptors it obtains, closes and
--   hands over.
-- Queue: pallette/CircularBuffer.hpp, and ObjectPool.hpp, with the objects in use, in one thread.
-- Threads: pallette/ThreadPool, its threads and callers counted by what they do, and
--   pallette/SignalSlot.hpp, with the list that calls share in a store (Signal/Plain: what it is to
--   do, with nothing shared); pallette/CountDownLatch,
--   pallette/Thread over it, and pallette/EventLoopThread. Steps come in any order.
-- Inspect: pallette/inspect/Inspector (split, add, remove, onRequest), and ProcessInfo (procname).
-- Files: FileUtil (ReadSmallFile), with what `open`, `fstat` and `read` answer an argument. The loop
--   runs on fuel, one round more than the bytes asked for, each round but the last taking one.
-- Examples: examples/chat/ChatCodec.h, over Buffer, and examples/idleconnection/EchoServer, over
--   Queue. The loop of the codec runs on fuel, one round more than the bytes to read.
-- Time: pallette/Date and pallette/TimeZone. A date is its Julian day number, a time zone the
--   bytes of its file; what gmtime_r and timegm answer is an argument.
-- Logging: pallette/LogStream (a line put together) and pallette/AsyncLogging (the lines of all
--   threads on their way to the file). The threads take turns in any order: `Reaches` is the
--   relation of their steps. pallette/LogFile and AppendFile of FileUtil write to files, with what
--   `fwrite` takes and `time` answers an argument; the loop of append runs on fuel, one round more
--   than the bytes of the line, each round but the last taking one. pallette/Logging (a statement
--   from its macro to the destructor, and the time that a thread keeps) and stringFormat of Strings,
--   over what `gmtime_r` and `vsnprintf` answer; two rounds of stringFormat are enough.
--
-- Not modelled: pallette/any.hpp and Base64, which are copies of other libraries; Daemon, Socket,
-- SocketsOperations, InetAddress, Exception and the process and system inspectors, which are calls of
-- the operating system; BlockingQueue.h and BoundedBlockingQueue.h, whose templates cannot be
-- instantiated as they stand, RingBuffer.hpp, regexSplit, and the template helpers singleton, operators and BaseError; what log messages of the
-- library say, the options of sockets, and interleavings of threads within one operation of a
-- connection, a connector or a timer queue: it runs in its loop's thread, and what another thread
-- queues is a later operation. Counters of bytes are not followed past 2 ^ 64, those of AppendFile not
-- past 2 ^ 31.
pub mod Base
pub mod Endian
pub mod Examples
pub mod Threads
pub mod Inspect
pub mod Files
pub mod Buffer
pub mod Http
pub mod Logging
pub mod Loop
pub mod Queue
pub mod Tcp
pub mod Time
