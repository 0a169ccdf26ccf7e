-- ===== src/Lib.antt =====
-- SharedBike: a server for bike sharing that talks to its clients in framed protobuf messages.
--
-- A client's bytes come in through libevent, and `NetworkInterface::handle_request` collects a frame
-- of header and message for the session of the connection. `DispatchMsgService` parses the message
-- into an event and posts it to the thread pool with the session's address. A worker thread calls
-- `svc`, which gives the event to the subscribed handlers and queues their response. The network
-- thread takes the responses off the queue, frames them and resets their sessions.
--
-- Files:
-- - Wire, Protobuf: the frame of src/NetworkInterface.h, and the messages of src/protocol/bike.proto.
-- - Event: src/eventtype.h, src/eventtype.cc, src/ievent.h, src/ievent.cc, src/events_def.h and
--   src/events_def.cc.
-- - ThreadPool: src/threadpool/. Tasks live on a heap of cells, and `queue.last` is the slot that the
--   next task goes to. Queue has the linked list of tasks, Lifecycle the start of the pool, and System
--   the interleaved steps of the caller and of the worker threads: a step is the code between two
--   points at which the mutex is free, so every schedule is a sequence of steps. Fifo is what the pool
--   is to its callers, a queue of contexts; Destroy has `thread_pool_destroy` against the threads.
-- - Session, Network: src/NetworkInterface.cc. A connection is its session and its input and output
--   bytes. Request has `handle_request`, by header, message and pieces, and on any bytes at all in
--   Hostile; Response has `send_response_msg`, with `assembleResponse` and `handleAllResponseEvent`
--   of src/DispatchMsgService.cc; Cycle goes from a request's response to the next request.
-- - Dispatch: src/DispatchMsgService.cc, by opening, closing, subscription, parsing and processing.
-- - User, Database: src/user_event_handler.cc and src/database/. Types relates an event's id to its
--   class, which the casts of the handler trust.
-- - Server: the network thread and the service together. Its state is the sessions, the service and the
--   events that the pool has accepted; an act is a connection, bytes that arrive, an event that a
--   thread finishes, the sending of the responses, or a hang-up. A thread may finish any event that is
--   outstanding, and `svc` is one act. What is said of the states that it reaches is about runs in
--   which no session hangs up while it awaits a response, new sessions get memory that is not in use
--   and addresses of at most 31 chars, and each event that is run is answered, without a fault and
--   with a message that fits. Codes and Logins have its runs with the user's handler, and with the
--   client; HangUp and Refused what goes wrong, HangUp outside these runs.
-- - Assembled: the server with ThreadPool in it. A task's context is the address of its event, and a
--   step of a thread that runs a task calls `svc` on it. Contexts counts the contexts that are queued
--   or run, Posts and Turns have the two kinds of the pool's steps, and Refines relates a state to one
--   of Server, which is the specification that Steps, Matches and Safety compare it with, over runs
--   with the same conditions, and where tasks and events get memory that is not in use too.
-- - Startup: src/main.cc, `start` and `close` of src/NetworkInterface.cc, src/util/iniconfig.cc and
--   src/util/logger.cc. Main leads to its loop, to an exit code, or to a use after free where
--   `pthread_create` fails once it has started a thread; Loop has its rounds, of which each is given
--   the callbacks that libevent makes and the turns that the threads take.
-- - Client: src/client/client.cc, its connection and its callbacks, EndToEnd from there to the
--   server's event, Reply for the way back, and Overrun for responses whose length field is wrong.
-- - Demo: demo/libevent_protobuf/, demo/protobuf/demo.cc and tests/libevent_protobuf/client.cc. The
--   echo server's `stat_init` has no return where it has memory, so no client of it gets a stat.
-- - Examples: concrete runs.
--
-- State is passed explicitly, and undefined behaviour of C++ is a `fault` of an `Outcome`: a null
-- pointer, a write out of bounds, a use after free, a missing return. Unsigned numbers wrap around
-- where the code can reach the end of their range. An i32 is its 32-bit pattern. Every loop recurs on a
-- list or on a counter that falls, or is a sequence of steps where it waits for another thread, so no
-- fuel is needed; the endless loop of `main` is any number of its rounds.
--
-- Not under src/ and so parameters: libevent's reads (`Platform`), the generated protobuf classes
-- (`Protobuf`, with the round trip of their encoding), the MySQL client library (`Mysql`, `MysqlText`), iniparser
-- and log4cpp (`Environment`), what pthread and `calloc` return (`MutexAnswers`, `PostAnswers`,
-- `CycleAnswers`, `InitAnswers` and the `Enabled` steps), the client's sockets (`SocketAnswers`), and
-- `rand`.
--
-- Not modelled: logging, two handlers that race on the user's codes inside `svc`, the mains of the
-- demonstrations, messages of bike.proto that no code handles, and the vendored copy of log4cpp.
pub mod Base
pub mod Wire
pub mod Protobuf
pub mod Event
pub mod ThreadPool
pub mod Session
pub mod Dispatch
pub mod Network
pub mod Database
pub mod User
pub mod Startup
pub mod Server
pub mod Assembled
pub mod Client
pub mod Demo
pub mod Examples
