-- ===== src/Lib.antt =====
-- MyModuo is an HTTP server on a network library in the manner of Muduo: one event loop per thread,
-- each of which waits in `epoll_wait`, runs the handlers of the active channels and then the
-- functors that other threads have queued. A connection reads from its socket into a `Buffer`; the
-- parser of the connection takes lines from there; a response is written into another `Buffer`.
--
-- The files, and the code that they model:
--   Base         helpers: lists, slices of storage, texts, decimal numbers
--   Net/Buffer   Net/buffer.{h,cpp}: storage and two indices. `readv` is an argument: what it
--                returns. Failed asserts are `none`. Sub-modules: the invariant (Valid), what each
--                operation does to the readable bytes (Contents), `findCRLF` (Search), buffers that
--                are never damaged (Fresh)
--   Net/EventLoop   Net/eventloop.{h,cpp}: `runInLoop`, `queueInLoop`, `wakeup`, `handleRead`,
--                `doPendingFunctors`, `loop` and `quit` as steps of interleaved threads; a functor
--                is a number and may queue others when it runs
--   Net/LoopThreadPool   Net/loopthreadpool.{h,cpp}: `getNextLoop`, and `start` with its
--                threads as interleaved steps (Starting)
--   Http/Request Http/httprequest.{h,cpp}: the request line, header fields and forms
--   Http/Parser  Http/httpstate.h and Http/httprequestparser.{h,cpp}: `parseContent` over a Buffer.
--                Lines describes the same state machine over a text, with no buffer and no fuel
--   Http/Response   Http/httpresponse.{h,cpp}: `appendToBuffer`
--   Timer        Timer/timestamp.h, Timer/timer.h and Timer/rbtreetimer.{h,cpp}: the set of timers
--                as an ordered list, and what the timerfd is armed with. The clock is an argument at
--                each place that reads it
--   Net/Channel, Net/Epoller   Net/channel.{h,cpp} and Net/epoller.{h,cpp}: the events and the index
--                of a channel, the table of channels, the calls of `epoll_ctl` as a log, and the
--                active channels of a turn of the loop
--   Net/TcpConnection   Net/tcpconnection.{h,cpp}: the states of a connection and its output buffer,
--                in the thread of its loop. Sub-modules: events and coherent states (Coherent,
--                Closing), asserts (Asserts), what reaches the socket (Output,
--                Draining, Graceful). Remote is what other threads call: the functors that they queue,
--                each with a pointer to its message, and the memory that they write to
--   Http/Server  Http/httpserver.{h,cpp}: `onMessage` and `handleRequest`, over the parser, the
--                response and the connection; the response callback is an argument
--   Logging/LogStream   Logging/logstream.h: the fixed buffer of a log line, and `operator<<`
--   Logging/AsyncLogging   Logging/asynclogging.{h,cpp}: `append` and the rounds of `threadFunc`, with
--                the buffers that the two exchange
--   ThreadPool   threadpool.hpp: the tasks, the condition variable and the threads as interleaved
--                steps, spurious wake-ups among them; a task is a number
--   Program      main.cpp and Http/httpresponsefile.h: `resCallback` and the pages (Icon, Website).
--                Serving puts the parts that answer together, Log those that log
--   Net/TcpServer   Net/tcpserver.{h,cpp}: the table of connections and the functors that pass a
--                connection from loop to loop; a connection is the number of its object. Sub-modules:
--                who holds an object (Ledger, Holders), the histories of a server (Histories), and
--                what holds after each of them (Descriptors)
--   Logging/LogFile   Logging/logfile.{h,cpp}: what goes to which file, and when it is flushed;
--                `fwrite`, `fopen` and the clock are arguments; Names is `getLogFileName`
--   Logging/Logger   Logging/logging.{h,cpp}: the text of a line; Output is where it goes
--   Logging/Pipeline   Logging/asynclogging.cpp over Logging/logfile.cpp: the rounds of the thread
--                that writes, with its log file
--   Logging/Writer   Logging/asynclogging.{h,cpp}: that thread from its start to its end, with `append`
--                and `stop` in other threads as interleaved steps
--   Net/Acceptor   Net/acceptor.{h,cpp}: the descriptors of the listening socket; the answers of the
--                system calls are arguments
--   Tests        the theorems at concrete inputs
--
-- Numbers: indices, sizes and times are natural numbers; the 32-bit `int` of the indices does not
-- overflow on a buffer below two gigabytes, which is not modelled. Times count nanoseconds, as the
-- clock does, and a difference is cut to microseconds towards zero, with its sign.
-- Fuel: `parse_content` spends one unit for each line, which has two bytes at least, so `on_message`
-- gives it one more than there are readable bytes. `parse_post` gives its loop the length of the
-- body, of which each round takes a byte at least.
-- Not modelled: `epoll_wait` and the other calls of the system, `gmtime` and the numbers of threads,
-- whose answers are arguments, which file a name opens, and the rest of `main`, which only makes the
-- server and starts it; the lock-free queue, which nothing uses.
pub mod Base
pub mod Net
pub mod Http
pub mod Timer
pub mod Logging
pub mod ThreadPool
pub mod Program
pub mod Tests
