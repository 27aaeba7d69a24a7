-- ===== src/Lib.antt =====
-- NovaCache, a sharded in-memory key-value server with a write-ahead log and snapshots (C++23).
--
-- The program's parts. The event loop of one I/O thread reads a client's bytes into the RESP2 parser
-- of its connection; a complete request gets the connection's next sequence number and goes, one at
-- a time, as a job to the thread pool. A worker gives it to the command registry, whose handlers
-- read and write the store, and puts a completion with the encoded reply into a queue, from which the
-- event loop appends the replies to the connection's output in the order of their numbers. With persistence
-- on, SET, DEL and EXPIRE go through the persistence engine, which appends a record to the log
-- before it changes the store. Snapshots of the store let the engine start the log anew, and at the
-- start of the process the store is rebuilt from the snapshot and the log behind it.
--
-- Which file models which part (paths of the sources from the repository's root):
--   Prelude           lists, options, 64-bit integers and byte strings that all parts share
--   Store             include/novacache/store/store.hpp, src/store/store.cpp: data and helpers;
--                     Store.Update the writing operations, Store.Read the reading ones, Store.Sweep
--                     those that go over all shards; Store.View and its children relate them to the
--                     unexpired entries, Store.Accounting and its children to the memory counter
--   Protocol          RespValue (resp_value.hpp), Decimal (from_chars and to_chars on int64_t),
--                     Encoder (src/protocol/encoder.cpp), Parser (src/protocol/parser.cpp)
--   Persistence       Binary (binary.hpp), Crc32 (crc32.cpp), Wal (wal.cpp), Snapshot
--                     (snapshot.cpp), Engine (engine.cpp; Engine.Durable its running operations);
--                     Engine.View the recovery on a function from keys to entries
--   Util.ThreadPool   src/util/thread_pool.cpp; System the pool with its threads, step by step
--   Net.Socket        try_receive and try_send of src/net/socket.cpp
--   Server            Stats (src/server/stats.cpp); src/server/server.cpp: Connection (requests and
--                     jobs), Traffic (reading and writing), Loop (completions), Round (accepting,
--                     events and timed work); Order and its children the order of the replies, over
--                     the runs of Order.Runs; Limit and its children the number of connections
--   Apps              Cli (apps/novacache-cli.cpp) and Main (apps/novacache-server.cpp)
--   Commands          src/commands/registry.cpp: Table the registered commands, Registry the handlers
--
-- How state and operations correspond. Functions keep the names of the source; a method takes its
-- object as the last argument and returns it changed beside its result. Times are nanoseconds as
-- integers of either sign; what a call reads of a clock is an argument of it. A lock's critical
-- section is one step, and one call of an operation is one step on the whole store: a call of `get`
-- that looks under the shared lock and again under the exclusive one is modelled without another
-- thread between the two. std::hash and sizeof(Entry) are the fields of Platform, the random
-- numbers of active_expire_cycle and the answers of `::write` are arguments. Exceptions are values
-- (Persistence.Result). A file is its bytes; `durable` holds those of the last fsync. Moving a view
-- past its end and a call through a null pointer are the error `undefined`, and an index past the
-- end of a handler's arguments is `none`. FsyncMode::none is called `never`.
--
-- Bounds and fuel. Counters and offsets wrap modulo 2^64 and the record lengths modulo 2^32, as in
-- the source; the theorems name the bounds that they need. The fuel of Wal.scan is the length of the
-- cursor, of which each round takes 18 bytes at least; a decimal has 20 digits at most, which all
-- of a uint64_t has; the parser's recursion counts the levels below max_depth; a round of
-- queue_parsed_commands takes a byte off the buffer, one of read_connection and write_connection an
-- answer of the system, one of flush_responses a pending reply: none runs out. The rounds of
-- drain_completions are bounded by an argument, and what is left then waits for the next call.
--
-- Not modelled: the overflow of the clocks' 64-bit arithmetic, since times are unbounded integers;
-- the reactor and its wakeups, and the opening of sockets (src/net), which are calls of the
-- operating system: which events a round gets and what recv and send answer is given; the
-- constructor of Server; the fsync thread and the locks of the engine, and failures of file
-- operations other than `::write` in the log; the messages of the programs. steady_clock is read once
-- in a step. A run of one connection sees the others only as changes that leave its requests alone,
-- and takes each call of the I/O thread, and each job, as one step.
pub mod Prelude
pub mod Store
pub mod Protocol
pub mod Persistence
pub mod Util
pub mod Net
pub mod Server
pub mod Commands
pub mod Apps
