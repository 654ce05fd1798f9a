-- ===== src/Task/Wake/Awaited.antt =====
-- What the one that waits for a task can rely on.
use storage_engine.Base.{ℕ, ◌≡◌, ◌≢◌, refl, subst, ap, ◌∙◌, ◌⊎◌, inl, inr, true, false, none, some}
use storage_engine.Task.{Outcome, new_promise, mark_completed, final_suspend, take_result, start}
use storage_engine.Task.Wake.{
  Body, running, runs_if_lem, waiting, resumed, final, ended, Wait, outcome_of, outcome_at,
  calls_run, wakes, completes, destroys, Reachable, created, then_step,
}
use storage_engine.Task.Wake.Shapes.{
  completed_result, Occurs, not_begun, asleep, handing_over, blocked, parting, over,
  Reachable-Occurs,
}

module _ {A E : Type 0} (k frame : ℕ) where
  -- In every reachable state whose body is at its end, the one that waits runs again, or is in
  -- `wait` with the flag set that ends it, and the promise gives what the body left. The coroutine
  -- that waits is not the task's own; it runs again only where control is handed to its own handle.
  pub ended-wakes :
      (s : Wait A E) (o : Outcome A E)
      → k ≢ frame
      → Reachable k frame s
      → s.body ≡ ended o
      → ((s.waiter ≡ resumed) ⊎ ((s.waiter ≡ waiting) × (s.promise.completed ≡ true)))
        × (take_result s.promise ≡ outcome_of o)
  ended-wakes s o apart reached at_end =
      of_shape s (Reachable-Occurs k frame apart s reached) at_end
    where
      of_shape :
          (s : Wait A E)
          → Occurs k frame s
          → s.body ≡ ended o
          → ((s.waiter ≡ resumed) ⊎ ((s.waiter ≡ waiting) × (s.promise.completed ≡ true)))
            × (take_result s.promise ≡ outcome_of o)
      of_shape s (not_begun w at) e = cc e
      of_shape s asleep e = cc e
      of_shape s (handing_over p o' c r n) e = cc e
      of_shape s blocked e = cc e
      of_shape s (parting p o' w alive c r n at) e = cc e
      of_shape s (over p o' w alive c r (inl at)) e = (inr (at, c), r ∙ ap outcome_at e)
      of_shape s (over p o' w alive c r (inr at)) e = (inl at, r ∙ ap outcome_at e)

  -- In every reachable state in which the promise knows a coroutine that waits, a frame that was
  -- destroyed belongs to a body that is at its end. The coroutine that waits is not the task's own;
  -- the body begins only where control is handed to the handle of its frame.
  pub awaited-ended :
      (s : Wait A E) (next : ℕ)
      → k ≢ frame
      → Reachable k frame s
      → s.promise.continuation ≡ some next
      → s.alive ≡ false
      → (o : Outcome A E) × (s.body ≡ ended o)
  awaited-ended s next apart reached known dead =
      of_shape s (Reachable-Occurs k frame apart s reached) known dead
    where
      of_shape :
          (s : Wait A E)
          → Occurs k frame s
          → s.promise.continuation ≡ some next
          → s.alive ≡ false
          → (o : Outcome A E) × (s.body ≡ ended o)
      of_shape s (not_begun w at) known dead = cc dead
      of_shape s asleep known dead = cc dead
      of_shape s (handing_over p o c r n) known dead = cc dead
      of_shape s blocked known dead = cc dead
      of_shape s (parting p o w alive c r n at) known dead = cc (n, known)
      of_shape s (over p o w alive c r at) known dead = (o, refl)

  -- With `run`, whatever the body leaves, a state is reachable in which no coroutine has
  -- waited for the task and the frame was destroyed although `final_suspend` has still to read the
  -- promise.
  pub run-races :
      (o : Outcome A E)
      → (s : Wait A E) × Reachable k frame s
        × (s.promise.continuation ≡ none)
        × (s.alive ≡ false)
        × (s.body ≡ final o)
  unfolding start final_suspend mark_completed
  run-races o =
      let begun : Reachable k frame (running_wait frame running) =
        subst (λ (body : Body A E). Reachable k frame (running_wait frame body)) (runs_if_lem frame)
          (then_step created (calls_run refl)) in
      (
        _,
        then_step (then_step (then_step begun (completes refl o)) (wakes refl refl))
            (destroys refl),
        (completed_result o none).2,
        refl,
        refl,
      )
    where
      running_wait : ℕ → Body A E → Wait A E
      running_wait frame body = record {
        task = record { handle = some frame; started = true };
        promise = new_promise;
        waiter = waiting;
        body = body;
        alive = true;
      }
