-- ===== src/Lib.antt =====
-- CoilMQ: a STOMP message broker.
--
-- A client's connection has a request handler (coilmq/server/socket_server.py), which gives each
-- frame that comes in to its engine (coilmq/engine.py); the engine's protocol
-- (coilmq/protocol/__init__.py) calls the queue manager (coilmq/queue.py) and the topic manager
-- (coilmq/topic.py), which all engines share. The queue manager keeps the messages that wait in a
-- store (coilmq/store) and asks its schedulers (coilmq/scheduler.py) whom to send to. A method that
-- changes state is a function from the state before to its result and the state after, which come
-- back together also when it raises. The managers hold one lock while a method runs, so each
-- method is one step.
--
-- The files:
--   Prelude    shared names, lists, equality tests, methods that may raise (Exec), and what
--              such a method keeps (Triple)
--   Dict, Text Python's dict, set and str as the code uses them
--   Frame      coilmq/util/frames.py (Frame, ErrorFrame, ReceiptFrame), coilmq/exception.py
--   Host       coilmq/server/__init__.py: the connections and what they accepted; an Environment
--              says which sends raise, and what uuid4 and random return
--   Store      coilmq/store: QueueStore, its contract FifoLaws, MemoryQueue, DbmQueue,
--              RedisQueueStore, SAQueue (Sa). Dbm/Make is make_dbm, Dbm/Crash what a DbmQueue finds
--              in its files when it is made again, Dbm/Lag how far they are behind
--   Scheduler  coilmq/scheduler.py, and what the queue manager relies on (Scheduler/Laws)
--   Queue      coilmq/queue.py: State and Backlog (_send_frame, _send_backlog), Methods (the public
--              methods under their names); the other children prove. Contract bundles the laws of
--              the store and of the schedulers; Filed is the invariant of the manager, Filing and
--              Calls what its parts and its methods do to it, Reach the states it can come to
--   Topic      coilmq/topic.py
--   Engine     coilmq/engine.py: the attributes of a session, and unbind
--   Protocol   coilmq/protocol/__init__.py: Command (VALID_COMMANDS), Stomp10 (process_frame and
--              the handlers, `on_send` for `send` and so on); the other children prove
--   Timer      coilmq/util/concurrency.py: CoilThreadingTimer
--   Versions   coilmq/protocol/__init__.py: STOMP11 and STOMP12. Heartbeat (the heart-beats), Connect
--              (connect, _negotiate_protocol and nack) and Dispatch (process_frame); Inherited is
--              about what is the same in all versions; the other children prove
--   Server     coilmq/server/socket_server.py: StompRequestHandler.handle and finish on the frames of
--              a session, with an engine of any protocol version; Bytes is the same on the chunks of
--              bytes that recv returns, and Sending is send_frame. Tcp is StompServer; Threads is its serve_forever and shutdown in two
--              threads, a line at a time; the other children prove
--   Wire       coilmq/util/frames.py on bytes: Parse (parse_headers, parse_body, from_buffer), Pack
--              (pack) and Buffer (FrameBuffer) over the streams of Stream and the texts of Bytes; the
--              other children prove
--   Auth       coilmq/auth/simple.py: authenticate, and the reading of its file (File)
--   Config     coilmq/config/__init__.py: init_config and init_logging; Names is resolve_name
--   Start      coilmq/start.py: server_from_config, and Serve for context_serve and _main; the other
--              children prove
--   Tests      data, and the theorems at concrete inputs
--
-- Bounds and fuel. `process_frame` has a depth, since COMMIT processes the frames of its
-- transaction by it; Protocol/Depth and Versions/Depth are about how many levels it needs, and the
-- server uses two. The
-- loop over `store.frames` in `_send_backlog` takes its fuel from the store's `rounds`, which a
-- lawful store keeps above the number of the destination's frames. The loop of parse_headers has a
-- round for each byte that remains, and one more; so has the loop over the frames of a buffer in
-- Server/Bytes. Each round takes a byte at least.
--
-- Representation. A connection is a number. A set of subscribers is a list without repetition, in
-- the order in which Python happens to iterate. A header value is the text that is sent for it,
-- and a body is a list of bytes, whose content-length is at most sys.maxsize. A text of a log is left
-- out.
--
-- Parameters. What ConfigParser, redis, pickle, SQLAlchemy, the clock and the name of the host
-- return; the import system of Python, logging, TCPServer and the socket's sendall; the daemon
-- context, the lock of the pid file and the options that click has read.
--
-- Not modelled: the sockets themselves; threads, but for the two of Server/Threads and the timers,
-- which expire one after the other; the thread of coilmq/start.py that logs the sizes of the queues
-- for ever; the opening of files; the set-up of SQLAlchemy and of the redis client, which is I/O;
-- ConnectedFrame, clear, buffer_len and buffer_empty of coilmq/util/frames.py, which nothing calls;
-- and setup.py, which is packaging.
pub mod Prelude
pub mod Dict
pub mod Text
pub mod Frame
pub mod Host
pub mod Store
pub mod Scheduler
pub mod Queue
pub mod Topic
pub mod Engine
pub mod Wire
pub mod Auth
pub mod Config
pub mod Timer
pub mod Protocol
pub mod Versions
pub mod Server
pub mod Start
mod Tests
