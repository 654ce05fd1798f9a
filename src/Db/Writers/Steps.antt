-- ===== src/Db/Writers/Steps.antt =====
-- The threads that share the queue, as a step relation: any number of callers and the writer
-- thread.
use storage_engine.Base.{ℕ, Bool, true, false, Option, none, some, List, [], ◌∷◌, ◌++◌, map, ◌≡◌}
use storage_engine.Status.{Status}
use storage_engine.Db.Writers.{
  GroupOptions, WriterQueue, new_queue, enqueue_async_writer, finish_inline, may_proceed,
  must_return, choose_wait, drain, finish_drain, stop,
}

-- Where the writer thread is: in the first wait, in the second, in `writeGroup`, or gone.
pub data LoopState : Type 0 where
  waiting : LoopState
  gathering : (target_size : ℕ) → LoopState
  committing : (group : List ℕ) → LoopState
  returned : LoopState

-- The queue, the writer thread, the callers that are in `writeGroup`, and three histories: the
-- writers in the order of their enqueueing, and those that have their status, from either thread.
pub record System : Type 0 where
  pub queue : WriterQueue
  pub loop : LoopState
  pub inline : List ℕ
  pub queued : List ℕ
  pub committed : List (ℕ × Status)
  pub committed_inline : List (ℕ × Status)

abbrev pub new_system : System
new_system = record {
  queue = new_queue;
  loop = waiting;
  inline = [];
  queued = [];
  committed = [];
  committed_inline = [];
}

-- A caller enters `enqueueAsyncWriter`.
abbrev pub enqueued : System → ℕ → Bool × WriterQueue → System
enqueued s writer (true, q) = record s { queue = q; queued = s.queued ++ (writer ∷ []) }
enqueued s writer (false, q) = record s { queue = q; inline = writer ∷ s.inline }

unfoldable pub submitted : System → ℕ → System
submitted s writer = enqueued s writer (enqueue_async_writer s.queue writer)

-- The writer thread leaves its first wait.
abbrev pub drained : System → List ℕ × WriterQueue → System
drained s (group, q) = record s { queue = q; loop = committing group }

abbrev pub chosen : System → Option (ℕ × ℕ) × WriterQueue → System
chosen s (none, q) = drained s (drain q)
chosen s (some (micros, target_size), q) = record s { queue = q; loop = gathering target_size }

unfoldable pub woken : GroupOptions → System → System
woken options s = chosen s (choose_wait options s.queue)

-- Every writer of a group receives the status of its write.
abbrev pub with_status : Status → List ℕ → List (ℕ × Status)
with_status status group = map (λ (w : ℕ). (w, status)) group

-- A write ends with any status. The second wait may end at any time, since its time may be over.
-- No caller is in the object while it is destroyed, and none enters later.
pub data Step (options : GroupOptions) : System → System → Type 0 where
  submit :
      (s : System) (writer : ℕ) → s.queue.stop_writer ≡ false → Step options s (submitted s writer)
  inline_end :
      (s : System) (writer : ℕ) (before after : List ℕ) (status : Status)
      → s.inline ≡ before ++ (writer ∷ after)
      → Step options s (record s {
        queue = finish_inline s.queue;
        inline = before ++ after;
        committed_inline = (writer, status) ∷ s.committed_inline;
      })
  wake :
      (s : System)
      → s.loop ≡ waiting
      → may_proceed s.queue ≡ true
      → must_return s.queue ≡ false
      → Step options s (woken options s)
  leave :
      (s : System)
      → s.loop ≡ waiting
      → must_return s.queue ≡ true
      → Step options s (record s { loop = returned })
  gather :
      (s : System) (target_size : ℕ)
      → s.loop ≡ gathering target_size
      → Step options s (drained s (drain s.queue))
  commit :
      (s : System) (group : List ℕ) (status : Status)
      → s.loop ≡ committing group
      → Step options s (record s {
        queue = finish_drain group s.queue;
        loop = waiting;
        committed = s.committed ++ with_status status group;
      })
  destroy : (s : System) → s.inline ≡ [] → Step options s (record s { queue = stop s.queue })

-- The states that the threads reach from a new database.
pub data Reachable (options : GroupOptions) : System → Type 0 where
  start : Reachable options new_system
  step : (s s' : System) → Reachable options s → Step options s s' → Reachable options s'
