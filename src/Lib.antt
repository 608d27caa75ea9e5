-- ===== src/Lib.antt =====
-- A model of the cornerstone Raft library (C++), and what is proved of it.
--
-- The program. `raft_server` (raft_server.cxx) is one server of a cluster: requests, answers of
-- peers, timers and a committing thread change its state under one lock. It keeps a log through
-- `log_store`, its peers through `peer`, its term, vote and commit index in `srv_state`, and the
-- members of the cluster in `cluster_config`. Entries, configurations and snapshots go through
-- `buffer` to bytes.
--
-- The files.
-- Common: numbers with Boolean tests, lists and machine words over the native numbers.
-- Buffer: buffer.hxx and buffer.cxx. A buffer is its bytes and its position; an error is an
--   exception. Buffer/Laws reads and writes at a cursor between what is done and what is left;
--   Buffer/Gets reads a buffer; Buffer/Bounds keeps the position within the block; Buffer/Header has the
--   two layouts of a block's header.
-- Codec/Entry, Srv, Config, Snapshot: log_entry.hxx, srv_config.cxx, cluster_config.cxx, snapshot.cxx
--   and snapshot_sync_req.cxx, each with `serialize` and `deserialize` as there.
-- Log: log_store.hxx as a start index and a list of entries.
-- Store: fs_log_store.cxx. Store/File has what it uses of std::fstream, Memory the class
--   log_store_buffer, State the fields and the steps, Ops, Bulk and Compact the operations. A method
--   is a function from the store to a result or an exception and the store as it is then. The
--   abstract view is a `Log`: `Store.Shape.Keeps` says that a store keeps a log, with its entries in
--   the files and the last ones in the buffer. Store/Layout, Reads, Refine, Terms, Ranges, Loads, Entries
--   and Queries are about what it tells, Writes, Appends, Cuts, Overwrites, Replaces, Writing and Leftovers about
--   what is written, Fill, Refill and Restart about opening it, Shifts, Clears and Compacts about its
--   compaction. Store/Pack is the `pack` of log_store_buffer, which nothing calls,
--   and Store/Restore the end of `compact` after a failure, with Losses about what it leaves.
-- Rpc/Types, Request, Response, Session: the messages of asio_service.cxx as bytes, and what a session
--   does with a request; the message handler is a parameter. Rpc/Entries, RoundTrip and Bounds are
--   about the bytes.
-- Rpc/Client, Listener: the client of asio_service.cxx, from `send` to the call of the handler, and the
--   listener; what asio does is a list of completions. Rpc/Client/Answers is about the handler.
-- Task: delayed_task.hxx, timer_task.hxx, delayed_task_scheduler.hxx and the timers of asio_service.cxx,
--   with the workers that run a task. Task/Runs is about cancelled tasks.
-- Logger: the loggers of asio_service.cxx and the service that flushes them; Logger/Lines is about the
--   lines of a log.
-- Async: async.hxx, with the calls of handlers kept in order.
-- Ptr: ptr.hxx, blocks of memory with two counters, and the variables that point to them. Ptr/Counts,
--   Owners, References and Runs compare the counters with the variables.
-- Raft/Types, Peers, Server: srv_state.hxx, req_msg.hxx, resp_msg.hxx, peer.hxx, and the state of
--   `raft_server`. A method is a function from the state to its result and the new state, or to the
--   end of the process, or to an exception. Calls of the state machine, the state manager, the
--   scheduler and the rpc clients are entries of `trace`, and what the state machine answers is the
--   record `Host`, a parameter of every statement.
-- Raft/Timers, Replication, Election, Append, Responses, Membership, Joining, Snapshots, Extended,
--   Dispatch, Committer: the methods of raft_server.cxx, by the names they have there. A loop whose
--   body is a definition of its own takes its further rounds as `next`.
-- Raft/Start, Client, Params: the constructor and the destructor, the calls of the application, and the
--   builder methods of raft_params.hxx. Raft/Start/Changes is about the search for a configuration that
--   is not committed, Raft/Client/Appends about the entries of the application, and Raft/Heartbeats
--   about the heartbeat tasks, as the calls in `trace` leave them.
-- Raft/Run: the events that a server handles, and the states that they lead to.
-- Raft/State: for each method, what it does to the persistent state; Raft/State/Runs has the result.
-- Raft/Kept: methods that leave a part of the server as it is; LogKept and Commits are about the log and
--   the index to be committed, and Commits/Rounds about the committing loop.
-- Raft/Places, Members, Members/Configs: the table of peers, and the peers of a server when a
--   configuration takes effect.
-- Raft/Votes, StaleVotes, Stale, Slices, Loops, Stored, Medians, Removal, Backoff: votes, votes of an
--   earlier election, leaders of an old term, the entries that are sent, the entries that are stored,
--   the commit index of a leader, the removal of a server, and the retries for a server that joins.
-- Runs: the theorems at concrete values.
--
-- Bounds. Numbers are natural numbers, with wrap-around written out (`add64`, `sub64`, `to_int32`).
-- `commit_loop` has as fuel the distance from the commit index to `quick_commit_idx`, and each round
-- goes one index further. `walk_configs` has the index of the configuration as fuel, and each round
-- follows `prev_log_idx`, which a configuration sets to an index below its own.
-- `decode_entries` has the number of bytes as fuel: a round begins at a position in the block, so that a
-- loop of more rounds comes back to a position, and never ends, which is the error `endless`.
-- What a read behind a block finds there is a parameter, `behind`.
-- `fill_loop` has the size of the block of offsets, and each round reads 8 of them.
--
-- Not modelled. Sockets and threads themselves, and the pattern of an endpoint; failures of the disk
-- other than reads behind the end of a file, but for what follows a failed compaction; in ptr.hxx,
-- the destructors of the objects and `cs_alloc`; the formatting of strfmt.hxx; the interfaces,
-- which are records of functions or events here. For the server, packs of the log are functions of the
-- host. Methods interleave only as a whole: the handlers hold the lock throughout, and the committing
-- thread, which takes it only for a configuration, is one step for each round. The position that an
-- entry's buffer in the memory of the log store keeps from one reader to the next is left out, and so
-- are the log lines of the server. The heartbeat task of a peer goes by the peer's id in Raft/Heartbeats:
-- a peer that is dropped and added again, which has a new task, is not followed there. The counters of
-- votes are natural numbers.
pub mod Common
pub mod Buffer
pub mod Codec
pub mod Log
pub mod Raft
pub mod Rpc
pub mod Async
pub mod Ptr
pub mod Store
pub mod Task
pub mod Logger
mod Runs
