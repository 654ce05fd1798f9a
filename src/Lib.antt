-- ===== src/Lib.antt =====
-- storage_engine: a single-node key-value store, a write-ahead log in front of a sharded table.
--
-- The program. `DB` (src/db.cc, include/storage_engine/db.h) takes batches of puts and deletes
-- (src/write_batch.cc). `writeGroup` encodes a group of batches as one record of the log, as a
-- scatter list that points into the batches (src/wal.cc, `EncodeBatchFragmentsInto`) or, when the
-- list is too long for one `writev`, in one buffer (`EncodeBatchInto`); it hands the record to the
-- executor of src/io/uring_executor.cc, which writes and syncs it, and only then applies the
-- entries to the table of src/memtable.cc. `recover` reads the log back with `DecodeLog`, replays
-- it into a new table, and cuts a torn tail off.
--
-- The files.
--   Base        names of the libraries, lists, Boolean tests, bits and exclusive or
--   Status      include/storage_engine/status.h: `StatusCode`, `Status`, `Result`
--   Bytes       src/common.h: the fixed-width codecs; Bytes/Fixed describes them by base-256 digits
--   Crc         src/wal.cc: the CRC table, the software and the hardware loop, `Crc32C`
--   Batch       src/write_batch.cc: `WriteBatch`
--   Wal         src/wal.cc: sizes and counts; Wal/Encode: `EncodeBatchInto`; Wal/Fragments:
--               `EncodeBatchFragmentsInto`; Wal/Decode: `DecodeLog`
--   Memtable    src/memtable.h, src/memtable.cc: `Get`, `ApplyBatches`, `Stats`
--   Task        include/storage_engine/task.h: the promise and the task; Task/Ownership: who owns
--               the frames; Task/Wake: `co_await` and `run` against the end of the body
--   Io          src/io/uring_executor.cc: what the awaiters return; src/common.cc
--   Io/Ring     src/io/uring_executor.cc: `submitRaw`, `submitLinked`, `submit`; Io/Ring/Queue is
--               a bounded queue of entries
--   Io/Completions  src/io/uring_executor.cc: `completionLoop`
--   Io/Setup    src/io/uring_executor.cc: `Create`, `init`, `closeRing`
--   Db          src/db.cc: `writeGroup`, `recover`, `Get` and the constructor; Db/Synced is the
--               invariant that the log and the table agree, Db/History a sequence of groups;
--               Db/Store is a plain map, Db/Lives the lives of the database against it, Db/Remains
--               the files that a stop leaves
--   Db/Open     src/db.cc: `Open` and the destructor
--   Db/Api      src/db.cc: `WriteAwaiter` and the operations on it, `DebugStatsForTest`
--   Db/Writers  src/db.cc: `enqueueAsyncWriter`, `writerLoop`, as steps of threads on the queue;
--               Db/Writers/Signals: sleep and notification on `writerCv_`
--   Examples    concrete inputs for the theorems
-- A function keeps its name in snake case; a method that changes its object takes the object first
-- and returns the new one.
--
-- Numbers. All numbers are native; additions of `uint64_t` fields and casts to `uint32_t` are
-- written `% 2 ^ w`. Sums of sizes in memory (`size_t`) do not wrap. A byte is a number; where it
-- matters that it is below 256 a hypothesis says so.
--
-- Fuel. `DecodeLog` runs on one round for each byte of the log and one more, and is proved to
-- return. The loops over eight and four bytes run on the length of their input.
--
-- The rings. Heads and tails are counters of 32 bits that wrap. The sizes are powers of two. The
-- inner loop of `completionLoop` runs on the number of completions that the ring holds, since each
-- round takes one of them.
--
-- Parameters. The kernel (`Kernel`: fstat, readv, writev with fdatasync, ftruncate, fdatasync,
-- strerror; io_uring_setup, mmap and the answers of io_uring_enter), `std::hash`, `bucket_count`, the
-- clock, the capacities of vectors, and the SSE 4.2 instructions are parameters. What the theorems
-- use of them is stated as hypotheses:
-- `IsPositioned` (a complete write puts its bytes at the offset, and no write touches the bytes
-- before it), `Answers` (a recovery in which the kernel reports no error), `HasDistinctMaps`
-- (two mappings have two addresses) and `IsSse42`.
--
-- Threads. What a thread does under `writeMutex_` is one step on the queue; the steps of the callers
-- and of the writer thread interleave freely, and a wait with a time limit may end at any time. In
-- Db/Writers/Steps a wait ends at any time its condition holds; Db/Writers/Signals adds that the
-- thread sleeps until it is notified, where a notification behind the mutex comes at any later time.
-- A submission under `sqMutex_` is one step too; the kernel takes entries between the steps. The
-- steps of a task's body and of the one that waits for it interleave freely; `final_suspend` is two
-- of them. Control goes to the coroutine whose handle is returned or resumed, and to no other.
--
-- Not modelled: what a coroutine does between its suspensions, the creation of directories and
-- threads, the order of memory accesses below the steps above, benchmarks and tests.
pub mod Base
pub mod Status
pub mod Bytes
pub mod Crc
pub mod Batch
pub mod Wal
pub mod Memtable
pub mod Task
pub mod Io
pub mod Db
pub mod Examples
