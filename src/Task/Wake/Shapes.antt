-- ===== src/Task/Wake/Shapes.antt =====
-- The states that a task and the one that waits for it go through.
use storage_engine.Base.{
  ℕ, ◌≡◌, refl, sym, ap, subst, ◌≢◌, ◌∙◌, ◌⊎◌, inl, inr, Bool, true, false, Option, none, some,
}
use storage_engine.Task.{
  Outcome, co_returned, thrown, Promise, new_promise, return_value, unhandled_exception,
  mark_completed, final_suspend, return_or_throw, take_result, result_of, value_of, await_ready,
  await_suspend, start,
}
use storage_engine.Task.Wake.{
  Waiter, before, checked, suspended, waiting, resumed, idle, running, final, ended, Wait, Body,
  resumes_if, resumes_if_lem, resumes_if-ne, runs_if_lem, outcome_of, outcome_at, WaitStep, ready,
  not_ready, suspends, calls_run, wakes, completes, resumes, destroys, Reachable, created,
  then_step, started_task,
}

-- The states that occur.
pub data Occurs {A E : Type 0} (k frame : ℕ) : Wait A E → Type 0 where
  not_begun :
      (w : Waiter)
      → (w ≡ before) ⊎ (w ≡ checked)
      → Occurs k frame (record {
        task = record { handle = some frame; started = false };
        promise = new_promise;
        waiter = w;
        body = idle;
        alive = true;
      })
  asleep : Occurs k frame (record {
    task = started_task frame;
    promise = record new_promise { continuation = some k };
    waiter = suspended;
    body = running;
    alive = true;
  })
  handing_over :
      (p : Promise A E) (o : Outcome A E)
      → p.completed ≡ true
      → take_result p ≡ outcome_of o
      → p.continuation ≡ some k
      → Occurs k frame (record {
        task = started_task frame;
        promise = p;
        waiter = suspended;
        body = final o;
        alive = true;
      })
  blocked : Occurs k frame (record {
    task = started_task frame;
    promise = new_promise;
    waiter = waiting;
    body = running;
    alive = true;
  })
  parting :
      (p : Promise A E) (o : Outcome A E) (w : Waiter) (alive : Bool)
      → p.completed ≡ true
      → take_result p ≡ outcome_of o
      → p.continuation ≡ none
      → (w ≡ waiting) ⊎ (w ≡ resumed)
      → Occurs k frame (record {
        task = started_task frame;
        promise = p;
        waiter = w;
        body = final o;
        alive = alive;
      })
  over :
      (p : Promise A E) (o : Outcome A E) (w : Waiter) (alive : Bool)
      → p.completed ≡ true
      → take_result p ≡ outcome_of o
      → (w ≡ waiting) ⊎ (w ≡ resumed)
      → Occurs k frame (record {
        task = started_task frame;
        promise = p;
        waiter = w;
        body = ended o;
        alive = alive;
      })

not_before : (w : Waiter) → (w ≡ waiting) ⊎ (w ≡ resumed) → ¬ (w ≡ before)
not_before w (inl e) h = cc (e, h)
not_before w (inr e) h = cc (e, h)

not_checked : (w : Waiter) → (w ≡ waiting) ⊎ (w ≡ resumed) → ¬ (w ≡ checked)
not_checked w (inl e) h = cc (e, h)
not_checked w (inr e) h = cc (e, h)

module _ {A E : Type 0} where
  -- What the body leaves is what `takeResult` gives.
  pub completed_result :
      (o : Outcome A E) (continuation : Option ℕ)
      → (final_suspend
            (return_or_throw o (record new_promise { continuation = continuation }))).0.completed
          ≡ true
        × (take_result
              (final_suspend
                (return_or_throw o (record new_promise { continuation = continuation }))).0
            ≡ outcome_of o)
        × ((final_suspend (
              return_or_throw o
                (record new_promise { continuation = continuation }))).0.continuation
            ≡ continuation)
  unfolding final_suspend return_or_throw mark_completed take_result result_of value_of return_value
      unhandled_exception
  completed_result (co_returned v) continuation = (refl, refl, refl)
  completed_result (thrown e) continuation = (refl, refl, refl)

module _ {A E : Type 0} (k frame : ℕ) (apart : k ≢ frame) where
  begin_step :
      (w : Waiter) (t : Wait A E)
      → (w ≡ before) ⊎ (w ≡ checked)
      → WaitStep k frame
          (record {
            task = record { handle = some frame; started = false };
            promise = new_promise;
            waiter = w;
            body = idle;
            alive = true;
          })
          t
      → Occurs k frame t
  unfolding await_ready await_suspend start
  begin_step w t at (ready e d) = cc d
  begin_step w t at (not_ready e d) = not_begun checked (inr refl)
  begin_step w t at (suspends e) =
      subst
        (λ (p : Waiter × Body A E). Occurs k frame (record {
          task = started_task frame;
          promise = record new_promise { continuation = some k };
          waiter = p.0;
          body = p.1;
          alive = true;
        }))
        (λ i. (
          sym (resumes_if-ne k frame suspended apart) i,
          sym (runs_if_lem {A = A} {E = E} frame) i,
        ))
        asleep
  begin_step w t at (calls_run e) =
      subst
        (λ (body : Body A E). Occurs k frame (record {
          task = started_task frame;
          promise = new_promise;
          waiter = waiting;
          body = body;
          alive = true;
        }))
        (sym (runs_if_lem frame)) blocked
  begin_step w t at (wakes e d) = cc d
  begin_step w t at (completes e o) = cc e
  begin_step w t at (resumes o e) = cc e
  begin_step w t (inl at) (destroys e) = cc (at, e)
  begin_step w t (inr at) (destroys e) = cc (at, e)

  asleep_step :
      (t : Wait A E)
      → WaitStep k frame
          (record {
            task = started_task frame;
            promise = record new_promise { continuation = some k };
            waiter = suspended;
            body = running;
            alive = true;
          })
          t
      → Occurs k frame t
  asleep_step t (ready e d) = cc e
  asleep_step t (not_ready e d) = cc e
  asleep_step t (suspends e) = cc e
  asleep_step t (calls_run e) = cc e
  asleep_step t (wakes e d) = cc d
  asleep_step t (completes e o) =
      let (c, r, n) = completed_result o (some k) in handing_over _ o c r n
  asleep_step t (resumes o e) = cc e
  asleep_step t (destroys e) = cc e

  handing_over_step :
      (p : Promise A E) (o : Outcome A E) (t : Wait A E)
      → p.completed ≡ true
      → take_result p ≡ outcome_of o
      → p.continuation ≡ some k
      → WaitStep k frame
          (record {
            task = started_task frame;
            promise = p;
            waiter = suspended;
            body = final o;
            alive = true;
          })
          t
      → Occurs k frame t
  unfolding final_suspend mark_completed
  handing_over_step p o t c r n (ready e d) = cc e
  handing_over_step p o t c r n (not_ready e d) = cc e
  handing_over_step p o t c r n (suspends e) = cc e
  handing_over_step p o t c r n (calls_run e) = cc e
  handing_over_step p o t c r n (wakes e d) = cc e
  handing_over_step p o t c r n (completes e o') = cc e
  handing_over_step p o t c r n (resumes o' e) =
      over p o' (resumes_if k p.continuation suspended) true c (r ∙ ap outcome_at e)
        (inr (ap (λ (x : Option ℕ). resumes_if k x suspended) n ∙ resumes_if_lem k suspended))
  handing_over_step p o t c r n (destroys e) = cc e

  blocked_step :
      (t : Wait A E)
      → WaitStep k frame
          (record {
            task = started_task frame;
            promise = new_promise;
            waiter = waiting;
            body = running;
            alive = true;
          })
          t
      → Occurs k frame t
  blocked_step t (ready e d) = cc e
  blocked_step t (not_ready e d) = cc e
  blocked_step t (suspends e) = cc e
  blocked_step t (calls_run e) = cc e
  blocked_step t (wakes e d) = cc d
  blocked_step t (completes e o) =
      let (c, r, n) = completed_result o none in parting _ o waiting true c r n (inl refl)
  blocked_step t (resumes o e) = cc e
  blocked_step t (destroys e) = cc e

  parting_step :
      (p : Promise A E) (o : Outcome A E) (w : Waiter) (alive : Bool) (t : Wait A E)
      → p.completed ≡ true
      → take_result p ≡ outcome_of o
      → p.continuation ≡ none
      → (w ≡ waiting) ⊎ (w ≡ resumed)
      → WaitStep k frame
          (record {
            task = started_task frame;
            promise = p;
            waiter = w;
            body = final o;
            alive = alive;
          })
          t
      → Occurs k frame t
  unfolding final_suspend mark_completed
  parting_step p o w alive t c r n at (ready e d) = absurd (not_before w at e)
  parting_step p o w alive t c r n at (not_ready e d) = absurd (not_before w at e)
  parting_step p o w alive t c r n at (suspends e) = absurd (not_checked w at e)
  parting_step p o w alive t c r n at (calls_run e) = absurd (not_before w at e)
  parting_step p o w alive t c r n at (wakes e d) = parting p o resumed alive c r n (inr refl)
  parting_step p o w alive t c r n at (completes e o') = cc e
  parting_step p o w alive t c r n at (resumes o' e) =
      over p o' (resumes_if k p.continuation w) alive c (r ∙ ap outcome_at e) (
        subst (λ (x : Option ℕ). (resumes_if k x w ≡ waiting) ⊎ (resumes_if k x w ≡ resumed))
          (sym n) at)
  parting_step p o w alive t c r n at (destroys e) = parting p o w false c r n at

  over_step :
      (p : Promise A E) (o : Outcome A E) (w : Waiter) (alive : Bool) (t : Wait A E)
      → p.completed ≡ true
      → take_result p ≡ outcome_of o
      → (w ≡ waiting) ⊎ (w ≡ resumed)
      → WaitStep k frame
          (record {
            task = started_task frame;
            promise = p;
            waiter = w;
            body = ended o;
            alive = alive;
          })
          t
      → Occurs k frame t
  over_step p o w alive t c r at (ready e d) = absurd (not_before w at e)
  over_step p o w alive t c r at (not_ready e d) = absurd (not_before w at e)
  over_step p o w alive t c r at (suspends e) = absurd (not_checked w at e)
  over_step p o w alive t c r at (calls_run e) = absurd (not_before w at e)
  over_step p o w alive t c r at (wakes e d) = over p o resumed alive c r (inr refl)
  over_step p o w alive t c r at (completes e o') = cc e
  over_step p o w alive t c r at (resumes o' e) = cc e
  over_step p o w alive t c r at (destroys e) = over p o w false c r at

  step-Occurs : (s t : Wait A E) → Occurs k frame s → WaitStep k frame s t → Occurs k frame t
  step-Occurs s t (not_begun w at) step = begin_step w t at step
  step-Occurs s t asleep step = asleep_step t step
  step-Occurs s t (handing_over p o c r n) step = handing_over_step p o t c r n step
  step-Occurs s t blocked step = blocked_step t step
  step-Occurs s t (parting p o w alive c r n at) step = parting_step p o w alive t c r n at step
  step-Occurs s t (over p o w alive c r at) step = over_step p o w alive t c r at step

  pub Reachable-Occurs : (s : Wait A E) → Reachable k frame s → Occurs k frame s
  Reachable-Occurs s created = not_begun before (inl refl)
  Reachable-Occurs t (then_step {s} reached step) =
      step-Occurs s t (Reachable-Occurs s reached) step
