-- ===== src/Lib.antt =====
-- Quitsies is a key-value server that speaks a part of the memcached text protocol. This library
-- models the path of a request through it: the server accepts a client, its connection reads chunks
-- of bytes, the request's parser takes them byte by byte, the handler of the finished request calls
-- the database, and the connection writes the reply and begins again.
--
-- Tcp.Request: src/quitsies/tcp/request.hpp and request.cpp.
--   Types     the enumerations, the fields of class request, its constructor and `reset`.
--   Command   `is_white_space`, `command_from_str` and `status_from_command`.
--   Response  `prepare_response`: `answer` is its early returns and its catch, `respond` the switch,
--             with one function for each of its cases.
--   Process   `process`: `step` is the body of the loop, with one function for each branch on the
--             status, `run` the loop, `client_error` the catch; and `get_response`.
--   The other modules hold proofs: Words, Storage and Retrieval on requests that a client prints,
--   Chunks on the boundaries of chunks, Partial on what a request holds that is not finished, Limits
--   on the size, Endings and Complete on the replies, Malformed on lines that are not requests,
--   Locking on the database's lock.
-- Tcp.Memcached: Spec is the map that a client of the protocol thinks of and what each command does
--   to it, Keeps what is asked of a database for it, Replies and Refinement relate the handlers and
--   the parser to it over any such database, Cuts says where the text of a command may be cut into
--   chunks, History says that one map explains what several clients were told, and Reference is one
--   such database.
-- Tcp.Connection: src/quitsies/tcp/connection.hpp and connection.cpp. Each completion handler is a
--   function of the error code, and the operations that are outstanding are fields of the state:
--   `start`, `do_read` and `do_write` record them, `on_read`, `on_write`, `on_read_timer` and
--   `on_write_timer` are the handlers. Invariant and Opening hold what the handlers keep,
--   Conversation runs a connection on all that a client sends, Reading is on a chunk that finishes
--   a command or does not, Untimed is on timers that never run, Chunked relates a conversation to the
--   specification, and Holding follows what a connection has of its client's command.
-- Tcp.Server: src/quitsies/tcp/server.cpp and connection_manager.cpp. `manager_start`,
--   `manager_stop` and `manager_stop_all` are the manager's operations, `on_accept` and `on_signal`
--   the handlers of `do_accept` and `do_await_stop`. Step has the events in any order as a step
--   relation; Managed, Accept, Expiry, Going and Active hold proofs. Run has `server::run` and
--   `server::stop`, with the operations of `io_service` that are outstanding; Ending is what still
--   runs around the end of the program, as a step relation, and Drain and Shutdown hold proofs on
--   it.
--   Clients adds to the steps what each client sends, and the commands that were finished with what
--   was written for them; Clients.Holding, Kept and Linear hold proofs on it.
-- Tcp.Threads: the handlers of request.cpp on several threads of the pool. A handler is cut at its
--   calls of the database: a Point says where it stands, and `one_call` makes its next call. Alone
--   relates this to the handlers, Shared is the step relation of any number of threads over one
--   database with its mutex, and Next, Calls, Returned, Exclusion, Absent, Progress, Lost and Race
--   hold proofs on it. Serial adds the commands that took effect, each at one of its handler's calls,
--   with their replies; its child modules hold proofs on them.
-- Db.Store: src/quitsies/db/store.hpp. The abstract class is a record of operations on a state of
--   its own, each of which may throw, and the theorems on the parser, the connection and the server
--   hold for each such record, or for none, which is the null pointer. Db.Memory is a reference
--   database in memory, an association list; Tcp.Memcached.Reference shows that it is a map.
-- Db.Rocks: src/quitsies/db/rocks.hpp and rocks.cpp over RocksDB, which is a parameter (Engine).
--   Store has `get`, `put`, `del` and the lock, and fills the interface of Db.Store; Http the
--   handlers of the keys and the backups, Backups the text of `/backup_info`, Folder
--   `get_folder_size` over a file system that is a tree, Routes `register_endpoints` with `/stats`
--   and `/endpoints`, over the multiplexer as a parameter, Open `open` and `register_options` with
--   the disk as a parameter, EpochCall the call that `open` registers for each epoch, Lifetime the
--   destructor. Lock, Map and Served hold proofs: what the protocol's theorems say over this store,
--   and that HTTP and the protocol see the same values.
-- Stats: src/quitsies/stats. Table is a `std::map`, Statsd the text of a message and `send_stat` of
--   statsd.hpp, over the socket as a parameter, Aggregator the maps of statsd_aggregator.cpp with
--   `counter`, `timer`, `gauge`, `set` and one round of `background_loop`. Client is the class
--   `statsd` with its constructor, Lifetime the thread of the aggregator from its constructor to the
--   end of its destructor. Epoch, Totals, Canonical and Orders hold
--   proofs; Totals lets the calls come between the four swaps of a round in any order, and Orders lets
--   threads record in any order. The aggregator that does nothing is `null_stats` of
--   Db.Rocks.Engine.
-- Options: src/quitsies/options.hpp and options.cpp, over the library of src/OptionHandler as a
--   parameter: the three classes of options (Kinds), `parse_arg_options` and the help page (Parse),
--   and what the variables hold behind it (Reads).
-- Log: src/quitsies/log/logger.cpp, the level of the logger and its creation, over spdlog as a
--   parameter; Created holds proofs on the registry of loggers.
-- Service: src/service.cpp, `main` up to where it waits for its two servers, and what it returns;
--   Defaults has its variables and options, and Named holds proofs on where each option goes.
--   What the constructors of the statsd client and of the servers throw is a parameter, and so is
--   spdlog.
-- Text and Prelude: texts as lists of byte values, decimal numbers, `std::stoi` and `std::stoll` as
--   the language's standard describes it, and what is shared.
--
-- Numbers: a `size_t` has 64 bits, and the two places where one can wrap have it written out: the
-- sum in the test of the limit and the conversion of the parsed byte count. An `int` has 32 bits:
-- `stoi` refuses what does not fit, and the conversions of the size limit to a timeout and of the
-- numbers of options to an `int` keep the low 32 bits. The values of the statistics and the size of
-- a folder are 64-bit words, and their sums wrap. Times are milliseconds since the server began,
-- and an expiry that would be before that is zero, which has passed as well. A read fills a buffer
-- of 8192 bytes. Every loop is a recursion on its bytes, its entries or its options. Two functions
-- have fuel: the printing of a number, one more than the number, which is enough since the text
-- reads back as the number (Text.Decimal), and `calls` of Tcp.Threads, for which one call for each
-- key and four more are enough (Alone).
--
-- In Tcp.Server each completion handler is one atomic step, which is what happens when one thread
-- calls `io_service::run`; by default ten do, and then handlers of several connections run at the
-- same time. That is what Tcp.Threads is on: there each call of the database is one step, which
-- RocksDB documents, and the mutex lets one thread in at a time. What several threads of the pool
-- do to one connection at the same time and the opening of the acceptor are not modelled, and in
-- Step an accept that fails, after which the server only waits for the next client, is no event.
--
-- The state of a connection that writes has the text that `get_response` returned when it was
-- handed to `async_write`. The string behind that buffer is a temporary that is destroyed when
-- `do_write` returns (quitsies/tcp/connection.cpp, line 130), so that what the library then puts on
-- the wire is not determined by the code, and is not modelled: a reply is the text that is handed
-- over. `close` on a socket is the call that throws when the system fails to close it; it is taken
-- to succeed. A closed socket may still deliver what was outstanding, with any error code, in the
-- model; in Ending an operation on a closed connection ends with success only if it had completed
-- before the closing and was queued, and the number of these is a parameter. The handler of a
-- timer's wait that was cancelled does nothing, and is left out, but for a wait that had expired
-- before it was cancelled, which still ends with success (`stale_read` and `stale_write`). A call
-- that is registered for each epoch may throw. A counter that leaves the 64 bits of `intmax_t`,
-- which is undefined, is taken to wrap. The texts that are logged and the HTTP server that
-- src/service.cpp starts are not modelled. The copies of OptionHandler, spdlog and Catch under src
-- are other projects' libraries.
pub mod Db
pub mod Log
pub mod Options
pub mod Prelude
pub mod Service
pub mod Stats
pub mod Tcp
pub mod Text
