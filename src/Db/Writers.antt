-- ===== src/Db/Writers.antt =====
-- src/db.cc, `enqueueAsyncWriter` and `writerLoop`: the queue of writers.
-- What a thread does while it holds `writeMutex_` is one function. A writer is a number; its batch
-- and its coroutine are not looked at here.
pub mod Steps
pub mod Order
pub mod Reach
pub mod Signals
mod Example
use storage_engine.Base.{
  ℕ, ◌+◌, ◌%◌, ◌^◌, max, Bool, true, false, Option, none, some, List, [], ◌∷◌, ◌++◌, length, not,
  ltb, leb, ◌&&◌, ◌||◌, if◌then◌else◌,
}

-- The members of `DB` that the options set.
pub record GroupOptions : Type 0 where
  pub group_commit_window_micros : ℕ
  pub group_commit_target_size : ℕ
  pub adaptive_group_commit : Bool
  pub high_pressure_group_commit_window_micros : ℕ
  pub high_pressure_group_commit_target_size : ℕ
  pub high_pressure_group_commit_queue_threshold : ℕ

pub record WriterQueue : Type 0 where
  pub writers : List ℕ
  pub writing : Bool
  pub group_commit_armed : Bool
  pub stop_writer : Bool
  pub async_writer_suspensions : ℕ
  pub group_commit_waits : ℕ
  pub adaptive_group_commit_waits : ℕ
  pub write_groups : ℕ
  pub max_write_group_size : ℕ
  pub writer_thread_drains : ℕ
  pub inline_writer_drains : ℕ

abbrev pub new_queue : WriterQueue
new_queue = record {
  writers = [];
  writing = false;
  group_commit_armed = false;
  stop_writer = false;
  async_writer_suspensions = 0;
  group_commit_waits = 0;
  adaptive_group_commit_waits = 0;
  write_groups = 0;
  max_write_group_size = 0;
  writer_thread_drains = 0;
  inline_writer_drains = 0;
}

abbrev pub is_empty : List ℕ → Bool
is_empty [] = true
is_empty (w ∷ ws) = false

abbrev pub increment : ℕ → ℕ
increment n = (n + 1) % 2 ^ 64

-- The first critical section of `enqueueAsyncWriter`. The result is `true` when the writer waits in
-- the queue, and `false` when the caller writes it itself.
unfoldable pub enqueue_async_writer : WriterQueue → ℕ → Bool × WriterQueue
enqueue_async_writer queue writer =
    let q = record queue { async_writer_suspensions = increment queue.async_writer_suspensions } in
    if not q.writing && (is_empty q.writers && not q.group_commit_armed)
    then (
      false,
      record q { writing = true; inline_writer_drains = increment q.inline_writer_drains },
    )
    else (let writers = q.writers ++ (writer ∷ []) in
        (
          true,
          record q {
            writers = writers;
            group_commit_armed =
                if q.writing || ltb 1 (length writers) then true else q.group_commit_armed;
          },
        ))

-- Its second critical section, after the write.
unfoldable pub finish_inline : WriterQueue → WriterQueue
finish_inline q = record q {
  write_groups = increment q.write_groups;
  max_write_group_size = max q.max_write_group_size 1;
  writing = false;
}

-- The condition of the first wait of `writerLoop`, and that of its return.
pub may_proceed : WriterQueue → Bool
may_proceed q = q.stop_writer || (not q.writing && not (is_empty q.writers))

pub must_return : WriterQueue → Bool
must_return q = q.stop_writer && is_empty q.writers

-- The microseconds and the target size of the second wait, where there is one.
pub choose_wait : GroupOptions → WriterQueue → Option (ℕ × ℕ) × WriterQueue
choose_wait options queue =
    let q = record queue { writing = true } in
    if q.group_commit_armed || ltb 1 (length q.writers)
    then (let q = record q {
      group_commit_armed = false;
      group_commit_waits = increment q.group_commit_waits;
    } in
        if options.adaptive_group_commit
          && leb options.high_pressure_group_commit_queue_threshold (length q.writers)
        then (
          some (
            options.high_pressure_group_commit_window_micros,
            options.high_pressure_group_commit_target_size,
          ),
          record q { adaptive_group_commit_waits = increment q.adaptive_group_commit_waits },
        )
        else (some (options.group_commit_window_micros, options.group_commit_target_size), q))
    else (none, q)

-- The condition of the second wait, which also ends when its time is over.
pub wait_done : ℕ → WriterQueue → Bool
wait_done target_size q = q.stop_writer || leb target_size (length q.writers)

-- The loop that moves the writers into the group.
drain_loop : List ℕ → List ℕ → List ℕ
drain_loop group [] = group
drain_loop group (writer ∷ writers) = drain_loop (group ++ (writer ∷ [])) writers

pub drain : WriterQueue → List ℕ × WriterQueue
drain q = (
  drain_loop [] q.writers,
  record q { writers = []; writer_thread_drains = increment q.writer_thread_drains },
)

-- The last critical section of a round, after the write.
pub finish_drain : List ℕ → WriterQueue → WriterQueue
finish_drain group q = record q {
  write_groups = increment q.write_groups;
  max_write_group_size = max q.max_write_group_size (length group);
  group_commit_armed = if ltb 1 (length group) then true else q.group_commit_armed;
  writing = false;
}

-- The destructor.
pub stop : WriterQueue → WriterQueue
stop q = record q { stop_writer = true }
