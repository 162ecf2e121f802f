-- ===== src/Lib.antt =====
-- nea, a web server that gives each request a bucket: a share of the memory, a main future, and
-- room for some outgoing HTTP connections. A bucket is claimed for a request, polled by one worker
-- at a time, and freed as a whole, also behind a panic or when its memory runs out.
--
-- The parts, and the files that model them:
-- - Index (nea/src/index.rs): the resources of a bucket and the indices of buckets, connections and
--   of the queue, with their conversions (`to_bucket_index`, `from_index`, `to_usize`, ...).
-- - Queue (nea/src/queue.rs): Queue/Slot has the flags and the job word of a bucket, Queue the
--   functions as wholes (`helper`, `done_with_bucket`, `try_dequeue`), and Queue/Threads the same
--   functions as single atomic operations and lock sections of any number of wakers and workers,
--   which a schedule interleaves: `turn` is one of them, `run_schedule` a sequence. Its children hold
--   the invariant and what follows from it.
-- - Allocator (shared/src/allocator.rs): bump allocation from the top of an arena down.
-- - Executor (nea/src/executor.rs): claiming a bucket, the two halves of `handshake`, and in
--   Executor/Run the loops of a worker and the clean-up. It calls the three parts above. Executor/Init
--   is the state at the start, Executor/Errors the response that a clean-up sends, and Executor/Whole
--   the server with all its threads: `Step` is one call of the accepting thread, a waker or a worker,
--   and `Reach` any sequence of them.
-- - Reactor (nea/src/reactor.rs): the table of sources, `register` and the drop of a stream, `poll_io`,
--   and the events of mio, which wake the tasks of the Executor through its wakers. Reactor/Streams has
--   the reads and writes of the application and of hyper.
-- - Server (nea/src/lib.rs): the arena that a thread allocates from. What the accept loop does with a
--   stream is in Executor/Start.
-- - Wakers (nea/src/executor.rs, nea/src/reactor.rs): the wakers as words of queue indices, and a turn
--   of the reactor with the wakes that it makes in the Queue.
-- - Indexer (shared/src/indexer.rs): a table of file descriptors.
-- - Jumps (shared/src/setjmp_longjmp.rs): the two assembly routines as lists of instructions, run on a
--   machine of registers and words of memory.
-- - Config (nea/src/config.rs) and Logging (log/src/lib.rs): the search for the configuration, and the
--   level and the lines of the log.
-- - RustNea (benchmarks/rust-nea/src, lib.rs and bin) and RustTokio
--   (benchmarks/rust-tokio/src): the parsers of requests, the printing of responses, a drawing, and in
--   RustTokio/Worker the loops over the connections and over the bytes of a request.
-- - StateMachine (nea/examples/state-machine-html.rs): the handler and the loop of its commands.
-- - Examples (nea/examples: hyper.rs, send-static-file.rs, oom.rs): what three other handlers answer.
-- - Text: strings as lists of code points, with the calls of the standard library that are made on
--   them, and texts of lines, words and header fields as these calls take them apart.
-- - Base: numbers, bits, arrays as functions with an update, and results that may be a panic.
--
-- A number of the program is a ℕ, with the wrap-around of a release build written out; usize has 64
-- bits and the bytes of a word lie lowest first. A slice is a length and a function of the index;
-- an index out of range is a panic, which is a value. A mutex holds its value, and taking it succeeds. An atomic operation
-- is one step, and the memory orderings are not modelled: each word of the queue is changed by
-- read-modify-write operations alone.
--
-- The loop of `done_with_bucket` has two rounds in the source, and a panic behind them. The loops
-- over slots, buckets and connections are bounded by their number. `run_bucket` and `serve_bucket`
-- take fuel, as a future may wake itself for ever: what is said of them holds for any fuel, and
-- where no poll and no other thread wakes a job meanwhile one round more than the bucket has jobs is
-- enough. The handler of StateMachine has three rounds, each of which may wait for the stream. The loops that read answers of a stream end with these. The
-- decimal digits of a word of 64 bits are at most 20. The loop of `poll_io` gets two rounds, which
-- are enough when no event comes between them; Reactor/Between has any number of rounds, with
-- events of the reactor between each two, when the lock is free.
--
-- Code that is not in this repository is a parameter: how the application's futures and the
-- connections of hyper behave in a poll, the type of wakers with the test `will_wake`, what calls
-- of a socket return, the events of mio, the address that mmap returns, the file system, the parser
-- of TOML, and the locks that other threads hold while a bucket is claimed. That a poll reserves
-- connections and allocates in its own bucket alone is a hypothesis: the application is handed the
-- index of its bucket and no other, and the worker sets the arena of its thread to that bucket.
-- A step of Executor/Whole is a call as a whole, as buckets are under a lock or belong to one worker;
-- a claim and its start are one step there, and Executor/Whole/Race says what a worker in between
-- can do.
--
-- Not modelled: the start of the threads (nea/src/lib.rs), waiting in mio, the clock and the output
-- of the log, the scripts that only do I/O, the runner of the benchmarks, which starts processes, the
-- Roc platform, whose parser is that of RustNea, and the copy of the Roc standard library, which is
-- another project's. Also not modelled are the locks of futures and connections: the
-- `try_lock().unwrap()` of `run_bucket`, `cleanup_bucket`, `handshake` and `set` (nea/src/executor.rs)
-- succeed here, so that a lock which another thread holds, or which a panic has poisoned, is outside
-- of the model. A run in Executor/Whole ends at the first panic that nothing catches, although the
-- other threads would go on. The condition variable of the queue is left out: a waiting worker may
-- look at the count at any time, so that nothing is said of which worker is notified. Of the future
-- that `run_request_handler` starts, the registration of the stream and the application are left out.
pub mod Base
pub mod Index
pub mod Queue
pub mod Allocator
pub mod Executor
pub mod Reactor
pub mod Server
pub mod Indexer
pub mod Text
pub mod RustNea
pub mod RustTokio
pub mod Jumps
pub mod Wakers
pub mod StateMachine
pub mod Config
pub mod Logging
pub mod Examples
