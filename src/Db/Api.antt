-- ===== src/Db/Api.antt =====
-- src/db.cc: `WriteAwaiter` and what is built on it, `PutAsync`, `DeleteAsync`, `WriteAsync`,
-- `GetAsync`; `DebugStatsForTest`.
-- `Put`, `Delete` and `Write` run the tasks of these to their ends. A writer is known by a number.
pub mod Laws
use storage_engine.Base.{ℕ, Bool, Option, none, some, [], ◌∷◌, length, if◌then◌else◌}
use storage_engine.Status.{Status, Result, ok_status}
use storage_engine.Bytes.{ByteString}
use storage_engine.Batch.{WriteBatch, new_batch, put, delete, empty, copy}
use storage_engine.Memtable
use storage_engine.Memtable.{Shard, MemTableStats}
use storage_engine.Db.{Environment, Db, Readings, write_group, db_get}
use storage_engine.Db.Writers.{GroupOptions, WriterQueue, enqueue_async_writer, finish_inline}

pub record Engine : Type 0 where
  pub db : Db
  pub queue : WriterQueue

module _ (env : Environment) where
  -- `enqueueAsyncWriter`; `none` says that the writer waits in the queue.
  enqueue : Engine → (writer : ℕ) → WriteBatch → Readings → Option Status × Engine
  enqueue e writer batch r =
      let (waits, queue) = enqueue_async_writer e.queue writer in
      let (status, db) = write_group env e.db (batch ∷ []) r in
      if waits
      then (none, record e { queue = queue })
      else (some status, record { db = db; queue = finish_inline queue })

  -- `co_await WriteAwaiter(this, input)`: the constructor, `await_ready`, `await_suspend`, and
  -- `await_resume` where the coroutine was not suspended.
  pub write_awaiter : Engine → (writer : ℕ) → WriteBatch → Readings → Option Status × Engine
  unfolding enqueue
  write_awaiter e writer input r =
      let batch = copy input in
      if empty batch then (some ok_status, e) else enqueue e writer batch r

  pub put_async :
      Engine → (writer : ℕ) → (key value : ByteString) → Readings → Option Status × Engine
  put_async e writer key value r = write_awaiter e writer (put new_batch key value) r

  pub delete_async : Engine → (writer : ℕ) → (key : ByteString) → Readings → Option Status × Engine
  delete_async e writer key r = write_awaiter e writer (delete new_batch key) r

  pub write_async : Engine → (writer : ℕ) → WriteBatch → Readings → Option Status × Engine
  write_async = write_awaiter

  unfoldable pub get_async : Engine → ByteString → Result ByteString
  get_async e key = db_get env e.db key

-- What the statistics read beside the engine.
pub record Observed : Type 0 where
  pub uring_executor_creations : ℕ
  pub sq_poll_enabled : Bool
  pub completion_loop_completions : ℕ
  pub fixed_capacity : ℕ
  pub iovec_capacity : ℕ
  pub writer_resume_micros : ℕ
  pub bucket_count : Shard → ℕ

pub record DebugStats : Type 0 where
  pub uring_executor_creations : ℕ
  pub uring_sq_poll_enabled : Bool
  pub async_writer_suspensions : ℕ
  pub group_commit_waits : ℕ
  pub group_commit_window_micros : ℕ
  pub group_commit_target_size : ℕ
  pub adaptive_group_commit_enabled : Bool
  pub adaptive_group_commit_waits : ℕ
  pub high_pressure_group_commit_window_micros : ℕ
  pub high_pressure_group_commit_target_size : ℕ
  pub high_pressure_group_commit_queue_threshold : ℕ
  pub write_groups : ℕ
  pub max_write_group_size : ℕ
  pub uring_completion_loop_completions : ℕ
  pub writer_thread_drains : ℕ
  pub inline_writer_drains : ℕ
  pub memtable_apply_locks : ℕ
  pub wal_encode_buffer_reuses : ℕ
  pub wal_encode_fixed_capacity : ℕ
  pub wal_encode_iovec_capacity : ℕ
  pub write_group_timing_samples : ℕ
  pub write_group_total_micros : ℕ
  pub write_group_wal_encode_micros : ℕ
  pub write_group_durable_wait_micros : ℕ
  pub write_group_memtable_apply_micros : ℕ
  pub writer_resume_micros : ℕ
  pub memtable_reserved_buckets : ℕ
  pub memtable_shard_count : ℕ
  pub memtable_entries : ℕ
  pub memtable_apply_shard_locks : ℕ
  pub write_group_scratch_reuses : ℕ

pub debug_stats_for_test : GroupOptions → Observed → Engine → DebugStats
debug_stats_for_test options o e =
    let mem_stats = Memtable.stats o.bucket_count e.db.memtable in
    record {
      uring_executor_creations = o.uring_executor_creations;
      uring_sq_poll_enabled = o.sq_poll_enabled;
      async_writer_suspensions = e.queue.async_writer_suspensions;
      group_commit_waits = e.queue.group_commit_waits;
      group_commit_window_micros = options.group_commit_window_micros;
      group_commit_target_size = options.group_commit_target_size;
      adaptive_group_commit_enabled = options.adaptive_group_commit;
      adaptive_group_commit_waits = e.queue.adaptive_group_commit_waits;
      high_pressure_group_commit_window_micros = options.high_pressure_group_commit_window_micros;
      high_pressure_group_commit_target_size = options.high_pressure_group_commit_target_size;
      high_pressure_group_commit_queue_threshold =
          options.high_pressure_group_commit_queue_threshold;
      write_groups = e.queue.write_groups;
      max_write_group_size = e.queue.max_write_group_size;
      uring_completion_loop_completions = o.completion_loop_completions;
      writer_thread_drains = e.queue.writer_thread_drains;
      inline_writer_drains = e.queue.inline_writer_drains;
      memtable_apply_locks = mem_stats.apply_locks;
      wal_encode_buffer_reuses = e.db.stats.wal_encode_buffer_reuses;
      wal_encode_fixed_capacity = o.fixed_capacity;
      wal_encode_iovec_capacity = o.iovec_capacity;
      write_group_timing_samples = e.db.stats.write_group_timing_samples;
      write_group_total_micros = e.db.stats.write_group_total_micros;
      write_group_wal_encode_micros = e.db.stats.write_group_wal_encode_micros;
      write_group_durable_wait_micros = e.db.stats.write_group_durable_wait_micros;
      write_group_memtable_apply_micros = e.db.stats.write_group_memtable_apply_micros;
      writer_resume_micros = o.writer_resume_micros;
      memtable_reserved_buckets = mem_stats.reserved_buckets;
      memtable_shard_count = mem_stats.shard_count;
      memtable_entries = mem_stats.entries;
      memtable_apply_shard_locks = mem_stats.apply_shard_locks;
      write_group_scratch_reuses = e.db.stats.write_group_scratch_reuses;
    }
