-- ===== src/Task/Wake.antt =====
-- One coroutine, or one thread in `run`, that waits for a task, and the body of the task: their steps
-- in any order.
pub mod Shapes
pub mod Awaited
use storage_engine.Base.{
  ℕ, ◌≡◌, ◌≢◌, refl, sym, inl, inr, Bool, true, false, Bool-cases, ◌==◌, ==_iff, ==_refl, Option,
  none, some, if◌then◌else◌,
}
use storage_engine.Task.{
  Outcome, co_returned, thrown, Promise, Task, Taken, returned, rethrown, undefined, new_promise,
  return_value, unhandled_exception, mark_completed, final_suspend, return_or_throw, take_result,
  result_of, value_of, await_ready, await_suspend, start,
}

-- Where the one that waits is: before `await_ready` or `run`, behind an `await_ready` that said no,
-- suspended, in `wait`, or behind the wait.
pub data Waiter : Type 0 where
  before checked suspended waiting resumed : Waiter

-- Where the body is: not started, running, in `final_suspend` behind the lock, or at its end.
pub data Body (A E : Type 0) : Type 0 where
  idle : Body A E
  running : Body A E
  final : Outcome A E → Body A E
  ended : Outcome A E → Body A E

pub record Wait (A E : Type 0) : Type 0 where
  pub task : Task
  pub promise : Promise A E
  pub waiter : Waiter
  pub body : Body A E
  pub alive : Bool

-- The coroutine that waits runs on when control goes to its handle `k`, and to no other.
abbrev pub resumes_if : (k : ℕ) → Option ℕ → Waiter → Waiter
resumes_if k none waiter = waiter
resumes_if k (some next) waiter = if next == k then resumed else waiter

pub resumes_if_lem : (k : ℕ) (waiter : Waiter) → resumes_if k (some k) waiter ≡ resumed
resumes_if_lem k waiter = rw (==_refl k) refl

pub resumes_if-ne :
    (k next : ℕ) (waiter : Waiter) → k ≢ next → resumes_if k (some next) waiter ≡ waiter
resumes_if-ne k next waiter ne = elim (Bool-cases (next == k)) [
  | inl same ↦ absurd (ne (sym ((==_iff next k).0 same)))
  | inr other ↦ rw other refl
]

module _ {A E : Type 0} where
  abbrev pub begins : Body A E → Body A E
  begins idle = running
  begins running = running
  begins (final o) = final o
  begins (ended o) = ended o

  -- The body begins when control goes to the handle of its frame, and to no other.
  abbrev pub runs_if : (frame : ℕ) → Option ℕ → Body A E → Body A E
  runs_if frame none body = body
  runs_if frame (some next) body = if next == frame then begins body else body

  pub runs_if_lem : (frame : ℕ) → runs_if frame (some frame) idle ≡ running
  runs_if_lem frame = rw (==_refl frame) refl

  abbrev pub outcome_of : Outcome A E → Taken A E
  outcome_of (co_returned v) = returned v
  outcome_of (thrown e) = rethrown e

  abbrev pub outcome_at : Body A E → Taken A E
  outcome_at idle = undefined
  outcome_at running = undefined
  outcome_at (final o) = outcome_of o
  outcome_at (ended o) = outcome_of o

  -- The handle that `await_suspend` returns is the coroutine that runs next.
  abbrev pub suspend_at : (k frame : ℕ) → Wait A E → Wait A E
  suspend_at k frame s =
      let (task, promise, next) = await_suspend k s.task s.promise in
      record s {
        task = task;
        promise = promise;
        waiter = resumes_if k next suspended;
        body = runs_if frame next s.body;
      }

  abbrev pub begin_run : (frame : ℕ) → Wait A E → Wait A E
  begin_run frame s =
      let (task, next) = start s.task in
      record s { task = task; waiter = waiting; body = runs_if frame next s.body }

  abbrev pub complete_body : Outcome A E → Wait A E → Wait A E
  complete_body o s = record s {
    promise = (final_suspend (return_or_throw o s.promise)).0;
    body = final o;
  }

  -- The body is at its end, and the coroutine runs next whose handle `final_suspend` returns.
  abbrev pub resume_next : (k : ℕ) → Outcome A E → Wait A E → Wait A E
  resume_next k o s = record s {
    waiter = resumes_if k (final_suspend s.promise).1 s.waiter;
    body = ended o;
  }

-- `k` is the coroutine that waits, `frame` the one of the task. The one that waits destroys the task
-- behind its wait.
pub data WaitStep {A E : Type 0} (k frame : ℕ) (s : Wait A E) : Wait A E → Type 0 where
  ready :
      s.waiter ≡ before
      → await_ready s.promise ≡ true
      → WaitStep k frame s (record s { waiter = resumed })
  not_ready :
      s.waiter ≡ before
      → await_ready s.promise ≡ false
      → WaitStep k frame s (record s { waiter = checked })
  suspends : s.waiter ≡ checked → WaitStep k frame s (suspend_at k frame s)
  calls_run : s.waiter ≡ before → WaitStep k frame s (begin_run frame s)
  wakes :
      s.waiter ≡ waiting
      → s.promise.completed ≡ true
      → WaitStep k frame s (record s { waiter = resumed })
  completes : s.body ≡ running → (o : Outcome A E) → WaitStep k frame s (complete_body o s)
  resumes : (o : Outcome A E) → s.body ≡ final o → WaitStep k frame s (resume_next k o s)
  destroys : s.waiter ≡ resumed → WaitStep k frame s (record s { alive = false })

-- From a task that was just created, with its frame.
pub data Reachable {A E : Type 0} (k frame : ℕ) : Wait A E → Type 0 where
  created : Reachable k frame (record {
    task = record { handle = some frame; started = false };
    promise = new_promise;
    waiter = before;
    body = idle;
    alive = true;
  })
  then_step : {s t : Wait A E} → Reachable k frame s → WaitStep k frame s t → Reachable k frame t

abbrev pub started_task : ℕ → Task
started_task frame = record { handle = some frame; started = true }
