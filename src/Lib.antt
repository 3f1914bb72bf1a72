-- ===== src/Lib.antt =====
-- What The Event: asynchronous streams, buffers and event loops over libevent.
--
-- The program has these parts. A `BufferImpl` (src/buffer.cc) holds bytes in a chain of extents. An
-- event base (src/libevent_event_base.cc) registers handlers and timeouts with libevent and runs
-- operations that other threads push to its queue (src/mpsc_queue.h), woken by a pipe. A stream
-- (src/stream.cc) reads and writes a descriptor when its handler is ready, keeps write requests in a
-- list and bytes in buffers, and tells callbacks. A listener
-- (src/libevent_connection_listener.cc) accepts connections, and a blocking stream
-- (src/blocking_stream.cc) reads by turning the event loop until enough has come.
--
-- Where each is modelled:
--   Buffer.Extent   InternalExtent of src/buffer-internal.h: append_extent is its `append`,
--                   prepend_extent its `prepend`
--   Buffer.Impl     BufferImpl of src/buffer.cc, under the source's names; append_buffer and
--                   prepend_buffer are the versions that take a Buffer, peek_extents and
--                   reserve_extents those that take a vector of extents
--   Buffer.Ring     listAppend, listPrepend and the removal of an extent on the circular list of
--                   src/buffer.cc, as a store of links with addresses
--   Buffer.Client   sequences of calls on a buffer, and the queue of bytes that they see
--   Events.What     src/wte/what.h
--   Events.Handler  src/event_handler.cc, src/libevent_event_handler.cc and toFlags
--   Events.Follow   sequences of calls on one handler, as a stream or a listener makes them
--   Events.Registration, Events.Timeout
--                   registerHandler, unregisterHandler, registerTimeout and unregisterTimeout of
--                   src/libevent_event_base.cc
--   Events.Lifetime the constructor and the destructor of LibeventEventBase and of its Notify
--   Notify.System   push and pop of src/mpsc_queue.h, signalNotifyQueue, consumeNotification and
--                   runOpsInQueue of src/libevent_event_base.cc, as steps of threads
--   Mpsc.Store      src/mpsc_queue.h as one thread sees it: nodes on a heap with addresses; Mpsc.Life
--                   is its life from the constructor to the destructor
--   Stream.Requests WriteRequest and Requests of src/stream.cc, as a store with addresses; enqueue is
--                   `new WriteRequest` and append
--   Stream.State    the other state of StreamImpl, startRead, stopRead, write, close, the destructor
--                   and wrapFd
--   Stream.Writing, Stream.Reading, Stream.Connecting
--                   writeHelper, readHelper, connect and connectHelper, and SockHandler::ready
--   Stream.Orderly  sequences of calls of a user who writes only when nothing waits, and of events
--   Listener.System LibeventConnectionListener of src/libevent_connection_listener.cc; accept_ready is
--                   AcceptHandler::ready
--   Blocking.Reader BlockingReadCallback and read of src/blocking_stream.cc, over the rounds of the
--                   event loop, each with the answers to the reads that readHelper makes in it
--   Blocking.Writer BlockingWriteCallback and write of src/blocking_stream.cc, over the events of the
--                   event loop
--   Blocking.Life   the constructor and the destructor of BlockingStreamImpl; Blocking.Session has the
--                   calls of `write` between them, and Blocking.Wire a blocking stream at each end of
--                   a connection
--   Loop.Driver     loop, runOpsInQueue and runOnEventLoop of src/libevent_event_base.cc, as the loop
--                   thread sees them, with what other threads push in each round, in time for a
--                   wake-up or too late; Loop.Deferred has operations that push others
--   Loop.Channel    runOnEventLoop, runOnEventLoopAndWait up to its wait, signalNotifyQueue,
--                   consumeNotification and receiveNotifications, over the reads and writes of the
--                   system, with initNotify, inLoopThread and the callback of the channel's handler
--   Await.System    runOnEventLoopAndWait of src/libevent_event_base.cc, as steps of the calling thread
--                   and of the loop thread, the run on the caller's own thread and a failed write to
--                   the pipe included
--   Stop.System     one call of stop and one of loop of src/libevent_event_base.cc, as steps of their
--                   threads, with the sleep in the wait, the byte in the pipe and event_base_loopexit
--   Optional.Storage
--                   src/optional.h, with the objects made and destroyed
--   Aligned.Lines   src/cache_aligned.h
--   Echo.Server     the connections of example/echo-server.cc, over the streams
--   Echo.Main       its `main`: the listener, the connections that it makes, and their events
--
-- Conventions. `Outcome` says how a call ends: with a result, in undefined behaviour (`fault`), in
-- std::bad_alloc, in a failed assertion (`aborted`; assertions are taken to be compiled in), or at
-- the model's bound on a loop. `size_t` has 64 bits and wraps. A byte in memory is `some n`, or
-- `none` while it is indeterminate. The allocator is a parameter that says which requests it grants.
-- libevent is the parameter `Libevent` with the documented behaviour `IsLibevent`, which says nothing of
-- an event that is assigned anew while it is pending.
--
-- Fuel. The loops of `append` and `prepend` have `size + 1` rounds, that of `drain` one more than the
-- chain has extents; each theorem that such a call returns shows that this is enough. The loops of
-- writeHelper and readHelper, and that of a stream's destructor, take their rounds as an argument, and
-- the theorems say how many are enough: one for a request and one more, and one for a chunk. `loop`
-- takes its rounds as an argument too, like runOpsInQueue in Loop.Deferred and the destructor of the
-- queue, and the theorems say how many are enough; a blocking read and a blocking write have the rounds
-- that the event loop brings, and are still waiting (`out_of_fuel`) when these are over. All other loops recur
-- on the chain or on a list of events.
--
-- Threads. Each access to what threads share is one step, and steps interleave in any order
-- (sequential consistency); what is done under a mutex that no wait lies in between is one step in
-- Stop.System, and several in Await.System. A node of the queue is known by the number of the exchange
-- that installed it, so that the reuse of an address after it was freed is modelled in Mpsc.Store only.
-- Writes to the pipe succeed in Notify.System and Stop.System; Loop.Channel and Await.System have those
-- that fail. A condition variable may wake its waiter without cause; the theorems on what can be reached
-- from a state do not count on that. An operation that is deferred by the loop thread itself, which then
-- waits for it, is outside Await.System, where the two threads differ.
--
-- Streams. Callbacks are known by numbers. What an `available` callback does is a parameter, and may
-- call the stream again; the other callbacks are recorded, with what is sent and closed, in the list
-- `effects`. The registration of the handler is seen as what it watches; Events.Follow relates calls on
-- a handler to that view. What the descriptor answers to reads and writes is a parameter.
--
-- Not modelled: memory that a `Buffer` shares with its caller through lent regions, `append(Buffer *)`
-- of a buffer to itself, the deletion of a stream from within its own callbacks, `stop` beside loops
-- one after the other, notification by eventfd, whose code does not compile, what the echo server
-- prints, and the wrappers of system calls in src/xplat-io.cc.
pub mod Common
pub mod Buffer
pub mod Events
pub mod Notify
pub mod Stream
pub mod Listener
pub mod Blocking
pub mod Loop
pub mod Echo
pub mod Await
pub mod Optional
pub mod Aligned
pub mod Stop
pub mod Mpsc
