-- ===== src/Db/Writers/Example.antt =====
-- A run of the queue: one caller writes, two writers queue behind it, and the writer thread writes
-- them as one group.
use storage_engine.Base.{◌⊎◌, ◌<◌, ◌+◌, ◌≤◌, ◌≡◌, refl, true, false, [], ◌∷◌, ◌++◌, length}
use storage_engine.Status.{ok_status}
use storage_engine.Db.Writers.{
  GroupOptions, enqueue_async_writer, finish_inline, may_proceed, must_return, choose_wait, drain,
}
use storage_engine.Db.Writers.Steps.{
  waiting, returned, System, new_system, submitted, woken, drained, Reachable, start, step, submit,
  inline_end, wake, gather,
}
use storage_engine.Db.Writers.Order.{active, in_flight, writers_of}
use storage_engine.Db.Writers.Reach.{Reachable-writers, Reachable-may_proceed}
use storage_engine.Db.Writers.Signals.{
  Signals, Signalled, quiet, acts, sleeps, signal, notify_queued, Signalled-pending,
}

-- The defaults of `Options`.
abbrev default_options : GroupOptions
default_options = record {
  group_commit_window_micros = 100;
  group_commit_target_size = 8;
  adaptive_group_commit = true;
  high_pressure_group_commit_window_micros = 200;
  high_pressure_group_commit_target_size = 16;
  high_pressure_group_commit_queue_threshold = 10;
}

abbrev one_inline : System
one_inline = submitted new_system 1

abbrev two_queued : System
two_queued = submitted (submitted one_inline 2) 3

-- The caller is done and two writers wait.
abbrev caller_done : System
caller_done = record two_queued {
  queue = finish_inline two_queued.queue;
  inline = [];
  committed_inline = (1, ok_status) ∷ two_queued.committed_inline;
}

caller_done-Reachable : Reachable default_options caller_done
unfolding submitted enqueue_async_writer finish_inline
caller_done-Reachable =
    step _ _
      (step _ _ (step _ _ (step _ _ start (submit new_system 1 refl)) (submit one_inline 2 refl))
        (submit (submitted one_inline 2) 3 refl))
      (inline_end two_queued 1 [] [] ok_status refl)

Reachable-may_proceed_example :
    (caller_done.loop ≡ waiting)
    × (may_proceed caller_done.queue ≡ true)
    × (must_return caller_done.queue ≡ false)
unfolding submitted enqueue_async_writer finish_inline
Reachable-may_proceed_example =
    Reachable-may_proceed caller_done caller_done-Reachable (λ e. cc e) refl

abbrev last_signals : Signals
last_signals = record { asleep = true; pending = 1 }

-- The writer thread sleeps, is notified of each queued writer and sleeps again; the caller that is
-- done is about to notify it.
caller_done-Signalled : Signalled default_options caller_done last_signals
unfolding submitted enqueue_async_writer finish_inline may_proceed signal notify_queued
caller_done-Signalled =
    let first_sleep = sleeps _ _ quiet refl refl in
    let busy = acts _ _ _ first_sleep (submit new_system 1 refl) tt in
    let second_sleep = sleeps _ _ (acts _ _ _ busy (submit one_inline 2 refl) tt) refl refl in
    let third_sleep =
      sleeps _ _ (acts _ _ _ second_sleep (submit (submitted one_inline 2) 3 refl) tt) refl refl in
    acts _ _ _ third_sleep (inline_end two_queued 1 [] [] ok_status refl) tt

Signalled-pending_example : (last_signals.asleep ≡ false) ⊎ (0 < last_signals.pending)
unfolding submitted enqueue_async_writer finish_inline may_proceed
Signalled-pending_example = Signalled-pending caller_done last_signals caller_done-Signalled refl

abbrev gathering_two : System
gathering_two = woken default_options caller_done

abbrev writing_two : System
writing_two = drained gathering_two (drain gathering_two.queue)

writing_two-Reachable : Reachable default_options writing_two
unfolding submitted enqueue_async_writer finish_inline woken choose_wait may_proceed must_return
writing_two-Reachable =
    step _ _ (step _ _ caller_done-Reachable (wake caller_done refl refl refl))
      (gather gathering_two 8 refl)

Reachable-writers_example :
    (length writing_two.inline + active writing_two.loop ≤ 1)
    × (writing_two.queued
        ≡ writers_of writing_two.committed
          ++ (in_flight writing_two.loop ++ writing_two.queue.writers))
    × (writing_two.loop ≡ returned → writing_two.queued ≡ writers_of writing_two.committed)
Reachable-writers_example = Reachable-writers writing_two writing_two-Reachable
