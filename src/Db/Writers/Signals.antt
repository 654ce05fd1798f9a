-- ===== src/Db/Writers/Signals.antt =====
-- src/db.cc: `writerCv_`, on which only the writer thread waits: who is asleep and who notifies.
use storage_engine.Base.{
  ℕ, ◌+◌, ◌<◌, ◌≡◌, refl, arith, ◌⊎◌, inl, inr, Bool, true, false, Bool-cases, not, ◌&&◌,
  if◌then◌else◌,
}
use storage_engine.Db.Writers.{
  GroupOptions, WriterQueue, is_empty, enqueue_async_writer, may_proceed,
}
use storage_engine.Db.Writers.Steps.{
  waiting, System, new_system, submitted, Step, submit, inline_end, wake, leave, gather, commit,
  destroy,
}

-- Whether the writer thread is asleep in its first wait, and how many threads have left
-- `writeMutex_` and have still to call `notify_one` or `notify_all`.
pub record Signals : Type 0 where
  pub asleep : Bool
  pub pending : ℕ

abbrev pub new_signals : Signals
new_signals = record { asleep = false; pending = 0 }

abbrev pub notify : Signals → Signals
notify v = record v { asleep = false }

-- A caller that queues its writer notifies while it holds the mutex.
unfoldable pub notify_queued : WriterQueue → ℕ → Signals → Signals
notify_queued queue writer v = if (enqueue_async_writer queue writer).0 then notify v else v

-- A caller that has written itself, and the destructor, notify when they have left the mutex. What
-- the writer thread notifies after a group wakes nobody, since no other thread waits.
unfoldable pub signal :
    {options : GroupOptions} {s s' : System} → Step options s s' → Signals → Signals
signal (submit s writer opened) v = notify_queued s.queue writer v
signal (inline_end s writer before after status e) v = record v { pending = v.pending + 1 }
signal (wake s idle go stay) v = v
signal (leave s idle go) v = v
signal (gather s target_size at) v = v
signal (commit s group status at) v = v
signal (destroy s alone) v = record v { pending = v.pending + 1 }

-- A thread that is asleep does not leave its wait.
abbrev pub IsAble : {options : GroupOptions} {s s' : System} → Step options s s' → Signals → Type 0
IsAble (submit s writer opened) v = Unit
IsAble (inline_end s writer before after status e) v = Unit
IsAble (wake s idle go stay) v = v.asleep ≡ false
IsAble (leave s idle go) v = v.asleep ≡ false
IsAble (gather s target_size at) v = Unit
IsAble (commit s group status at) v = Unit
IsAble (destroy s alone) v = Unit

-- The states with their signals. The thread falls asleep where the condition of its wait does not
-- hold, and it may wake up without a notification.
pub data Signalled (options : GroupOptions) : System → Signals → Type 0 where
  quiet : Signalled options new_system new_signals
  acts :
      (s s' : System) (v : Signals)
      → Signalled options s v
      → (e : Step options s s') → IsAble e v
      → Signalled options s' (signal e v)
  sleeps :
      (s : System) (v : Signals)
      → Signalled options s v
      → s.loop ≡ waiting
      → may_proceed s.queue ≡ false
      → Signalled options s (record v { asleep = true })
  wakes : (s : System) (v : Signals) → Signalled options s v → Signalled options s (notify v)
  notifies :
      (s : System) (n : ℕ) (asleep : Bool)
      → Signalled options s (record { asleep = asleep; pending = n + 1 })
      → Signalled options s (record { asleep = false; pending = n })

-- A thread that is asleep is in its first wait, and what it waits for does not hold, or somebody is
-- about to notify it.
record IsHeard (s : System) (v : Signals) : Type 0 where
  at_wait : v.asleep ≡ true → s.loop ≡ waiting
  heard : v.asleep ≡ true → may_proceed s.queue ≡ true → 0 < v.pending

submit-IsHeard :
    (s : System) (writer : ℕ) (v : Signals)
    → (opened : s.queue.stop_writer ≡ false) → IsHeard s v
    → IsHeard (submitted s writer) (notify_queued s.queue writer v)
unfolding submitted enqueue_async_writer notify_queued may_proceed
submit-IsHeard s writer v opened h =
    elim (Bool-cases
      (not s.queue.writing && (is_empty s.queue.writers && not s.queue.group_commit_armed))) [
        | inl alone ↦ rw alone (record { at_wait = h.at_wait; heard = λ a go. cc (opened, go) })
        | inr crowded ↦ rw crowded (record { at_wait = λ a. cc a; heard = λ a go. cc a })
      ]

Step-IsHeard :
    {options : GroupOptions} {s s' : System} (e : Step options s s') (v : Signals)
    → IsAble e v
    → IsHeard s v
    → IsHeard s' (signal e v)
unfolding signal
Step-IsHeard (submit s writer opened) v able h = submit-IsHeard s writer v opened h
Step-IsHeard (inline_end s writer before after status e) v able h = record {
  at_wait = h.at_wait;
  heard = λ a go. omega arith;
}
Step-IsHeard (wake s idle go stay) v able h = record {
  at_wait = λ a. cc (a, able);
  heard = λ a go. cc (a, able);
}
Step-IsHeard (leave s idle go) v able h = record {
  at_wait = λ a. cc (a, able);
  heard = λ a go. cc (a, able);
}
Step-IsHeard (gather s target_size at) v able h = record {
  at_wait = λ a. cc (h.at_wait a, at);
  heard = λ a go. cc (h.at_wait a, at);
}
Step-IsHeard (commit s group status at) v able h = record {
  at_wait = λ a. refl;
  heard = λ a go. cc (h.at_wait a, at);
}
Step-IsHeard (destroy s alone) v able h = record {
  at_wait = h.at_wait;
  heard = λ a go. omega arith;
}

Signalled-IsHeard :
    {options : GroupOptions} {s : System} {v : Signals} → Signalled options s v → IsHeard s v
Signalled-IsHeard quiet = record { at_wait = λ a. cc a; heard = λ a go. cc a }
Signalled-IsHeard (acts s s' v r e able) = Step-IsHeard e v able (Signalled-IsHeard r)
Signalled-IsHeard (sleeps s v r at closed) = record {
  at_wait = λ a. at;
  heard = λ a go. cc (closed, go);
}
Signalled-IsHeard (wakes s v r) = record { at_wait = λ a. cc a; heard = λ a go. cc a }
Signalled-IsHeard (notifies s n asleep r) = record { at_wait = λ a. cc a; heard = λ a go. cc a }

-- No notification is lost: in every reachable state in which the condition of the writer thread's
-- first wait holds, the thread is not asleep, or another thread is about to notify it. Callers, the
-- writer thread and the destructor act in any order, and each notifies some time after it
-- has left the mutex, except where the code notifies under it.
pub Signalled-pending :
    {options : GroupOptions} (s : System) (v : Signals)
    → Signalled options s v
    → may_proceed s.queue ≡ true
    → (v.asleep ≡ false) ⊎ (0 < v.pending)
Signalled-pending s v r go = elim (Bool-cases v.asleep) [
  | inl asleep ↦ inr ((Signalled-IsHeard r).heard asleep go)
  | inr awake ↦ inl awake
]
