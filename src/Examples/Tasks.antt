-- ===== src/Examples/Tasks.antt =====
-- The theorems on tasks at concrete inputs.
use storage_engine.Base.{ℕ, arith, ◌≡◌, refl, true, false, none, some, [], ◌∷◌, ◌⊎◌, List}
use storage_engine.Status.{Status, ok_status}
use storage_engine.Task.{
  Outcome, co_returned, take_result, await_ready, await_suspend, return_or_throw, return_value,
  mark_completed, final_suspend,
}
use storage_engine.Task.Ownership.{
  Op, call, move_from, assign_from, leave, steps, no_world, known, once, steps-known,
}
use storage_engine.Task.Wake.{
  Wait, Reachable, created, then_step, not_ready, suspends, completes, resumes, destroys,
  outcome_of, resumed, waiting, ended, final,
}
use storage_engine.Task.Wake.Awaited.{ended-wakes, awaited-ended, run-races}

-- Two tasks; the second is moved over the first, and what is left goes out of scope.
abbrev some_ops : List Op
some_ops = call ∷ call ∷ assign_from 0 1 ∷ move_from 0 ∷ leave 2 ∷ []

steps-known_example : known 1 (steps some_ops no_world) ≡ once 1 (steps some_ops no_world)
steps-known_example = steps-known some_ops 1

abbrev done_ok : Outcome Status ℕ
done_ok = co_returned ok_status

-- A coroutine waits for a task that returns `Ok`, and destroys it.
awaited_life :
    (s : Wait Status ℕ) × Reachable 7 9 s
    × (s.body ≡ ended done_ok)
    × (s.promise.continuation ≡ some 7)
    × (s.alive ≡ false)
unfolding await_ready await_suspend final_suspend mark_completed return_or_throw return_value
awaited_life = (
  _,
  then_step
      (then_step
        (then_step (then_step (then_step created (not_ready refl refl)) (suspends refl))
          (completes refl done_ok))
        (resumes done_ok refl))
      (destroys refl),
  refl,
  refl,
  refl,
)

ended-wakes_example :
    ((awaited_life.0.waiter ≡ resumed)
      ⊎ ((awaited_life.0.waiter ≡ waiting) × (awaited_life.0.promise.completed ≡ true)))
    × (take_result awaited_life.0.promise ≡ outcome_of done_ok)
ended-wakes_example =
    ended-wakes 7 9 awaited_life.0 done_ok (omega arith) awaited_life.1 awaited_life.2

awaited-ended_example : (o : Outcome Status ℕ) × (awaited_life.0.body ≡ ended o)
awaited-ended_example =
    awaited-ended 7 9 awaited_life.0 7 (omega arith) awaited_life.1 awaited_life.3 awaited_life.4

run-races_example :
    (s : Wait Status ℕ) × Reachable 7 9 s
    × (s.promise.continuation ≡ none)
    × (s.alive ≡ false)
    × (s.body ≡ final done_ok)
run-races_example = run-races 7 9 done_ok
