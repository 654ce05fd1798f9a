-- ===== src/Task.antt =====
-- include/storage_engine/task.h: the promise of a coroutine, and the task that owns its frame.
-- A frame is known by its address. What the body of a coroutine does in between is not modelled:
-- it ends with a value or with an exception.
pub mod Ownership
pub mod Wake
use storage_engine.Base.{
  ℕ, ◌+◌, ◌<◌, Bool, true, false, ◌&&◌, ◌==◌, ltb, if◌then◌else◌, Option, none, some, List, [], ◌∷◌,
  ◌++◌, length, get_or, set,
}

pub data Outcome (A E : Type 0) : Type 0 where
  co_returned : A → Outcome A E
  thrown : E → Outcome A E

pub record Promise (A E : Type 0) : Type 0 where
  pub value : Option A
  pub exception : Option E
  pub continuation : Option ℕ
  pub completed : Bool

-- `Task`: the handle of the frame, and whether it was started.
pub record Task : Type 0 where
  pub handle : Option ℕ
  pub started : Bool

-- A task without a frame.
abbrev pub no_task : Task
no_task = record { handle = none; started = false }

-- What `takeResult` does: it returns or throws, or it reads an empty `optional`.
pub data Taken (A E : Type 0) : Type 0 where
  returned : A → Taken A E
  rethrown : E → Taken A E
  undefined : Taken A E

module _ {A E : Type 0} where
  abbrev pub new_promise : Promise A E
  new_promise = record { value = none; exception = none; continuation = none; completed = false }

  unfoldable pub return_value : A → Promise A E → Promise A E
  return_value v p = record p { value = some v }

  pub unhandled_exception : E → Promise A E → Promise A E
  unhandled_exception e p = record p { exception = some e }

  -- What the body leaves: `return_value` or `unhandled_exception`.
  unfoldable pub return_or_throw : Outcome A E → Promise A E → Promise A E
  return_or_throw (co_returned v) p = return_value v p
  return_or_throw (thrown e) p = unhandled_exception e p

  -- `FinalAwaiter::await_suspend` under the lock; behind it the coroutine that runs next is read.
  unfoldable pub mark_completed : Promise A E → Promise A E
  mark_completed p = record p { completed = true }

  unfoldable pub final_suspend : Promise A E → Promise A E × Option ℕ
  final_suspend p = let p = mark_completed p in (p, p.continuation)

  value_of : Option A → Taken A E
  value_of none = undefined
  value_of (some v) = returned v

  result_of : Option E → Option A → Taken A E
  result_of none value = value_of value
  result_of (some e) value = rethrown e

  -- `takeResult`
  pub take_result : Promise A E → Taken A E
  unfolding result_of value_of
  take_result p = result_of p.exception p.value

  -- `Awaiter::await_ready`
  unfoldable pub await_ready : Promise A E → Bool
  await_ready p = p.completed

  -- `Awaiter::await_suspend`: the task, the promise, and the coroutine that runs next.
  unfoldable pub await_suspend :
      (continuation : ℕ) → Task → Promise A E → Task × Promise A E × Option ℕ
  await_suspend continuation task p =
      let p = record p { continuation = some continuation } in
      if task.started then (task, p, none) else (record task { started = true }, p, task.handle)

-- `start`: the task, and the coroutine that it resumes.
pub start : Task → Task × Option ℕ
start task = if task.started then (task, none) else (record task { started = true }, task.handle)

-- The move constructor: the new task, and the old one.
pub move : Task → Task × Task
move other = (record { handle = other.handle; started = other.started }, no_task)

owned : Option ℕ → List ℕ
owned none = []
owned (some h) = h ∷ []

-- The destructor: the frames that it destroys.
pub destruct : Task → List ℕ
unfolding owned
destruct task = owned task.handle

-- The move assignment: the two tasks and the frames that are destroyed. `self` says that both are one.
pub move_assign : (self : Bool) → Task → Task → Task × Task × List ℕ
unfolding owned
move_assign true task other = (task, other, [])
move_assign false task other =
    (record { handle = other.handle; started = other.started }, no_task, owned task.handle)
