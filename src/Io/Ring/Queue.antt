-- ===== src/Io/Ring/Queue.antt =====
-- What the submission ring promises: a queue of entries with a bound, which the executor fills and
-- the kernel empties.
-- `sqMutex` makes each submission one step. The kernel takes entries between the steps; that it
-- does so while a submission reads the head can only leave more room than the submission saw.
use Prim.Native.Nat.{bit_or}
use storage_engine.Base.{
  ℕ, ◌+◌, String, Bool, Option, none, some, List, [], ◌∷◌, ◌++◌, length, drop, ltb, if◌then◌else◌,
}
use storage_engine.Status.{Status, ok_status}
use storage_engine.Io.Ring.{
  Sqe, State, Answer, iosqe_io_link, queue_full, enter_status, submit, submit_linked,
}
use storage_engine.Io.Ring.Kernel.{take_entries}

-- What happens at the ring: a submission of one entry or of two linked ones, with the operations'
-- addresses and the kernel's answer, or the kernel takes entries from the front.
pub data Event : Type 0 where
  single : (operation : ℕ) → Sqe → Answer → Event
  linked : (first second : ℕ) → Sqe → Sqe → Answer → Event
  take_up_to : ℕ → Event

-- The entries as the executor publishes them.
abbrev pub named_sqe : ℕ → Sqe → Sqe
named_sqe operation sqe = record sqe { user_data = operation }

abbrev pub linked_sqe : ℕ → Sqe → Sqe
linked_sqe operation sqe = record sqe {
  flags = bit_or sqe.flags iosqe_io_link;
  user_data = operation;
}

abbrev pub kernel : ℕ → Option State → Option State
kernel n none = none
kernel n (some state) = some (record state { sq = take_entries n state.sq })

-- All of the entries are added, or none where they do not fit.
unfoldable pub push_all :
    (capacity : ℕ) → (queue added : List Sqe) → (accepted : Status) → Status × List Sqe
push_all capacity queue added accepted =
    if ltb capacity (length queue + length added)
    then (queue_full, queue)
    else (accepted, queue ++ added)

module _ (strerror : ℕ → String) where
  -- The executor: the statuses of the submissions, in order, and the state behind them.
  unfoldable pub run : List Event → Option State → List Status × Option State
  run [] state = ([], state)
  run (single operation sqe answer ∷ events) state =
      let (status, state') = submit strerror state operation sqe answer in
      let (statuses, last) = run events state' in (status ∷ statuses, last)
  run (linked first second first_sqe second_sqe answer ∷ events) state =
      let (status, state') =
        submit_linked strerror state first second first_sqe second_sqe answer in
      let (statuses, last) = run events state' in (status ∷ statuses, last)
  run (take_up_to n ∷ events) state = run events (kernel n state)

  -- What a submission reports once its entries are in the queue.
  unfoldable pub told : (poll : Bool) → String → Answer → Status
  told poll operation answer =
      if poll
      then (if answer.need_wakeup
          then enter_status strerror "io_uring_enter sqpoll wakeup" answer.enter
          else ok_status)
      else enter_status strerror operation answer.enter

  -- The queue of at most `capacity` entries.
  unfoldable pub serve :
      (capacity : ℕ) → (poll : Bool) → List Event → (queue : List Sqe) → List Status × List Sqe
  serve capacity poll [] queue = ([], queue)
  serve capacity poll (single operation sqe answer ∷ events) queue =
      let added = named_sqe operation sqe ∷ [] in
      let (status, queue') =
        push_all capacity queue added (told poll "io_uring_enter submit" answer) in
      let (statuses, last) = serve capacity poll events queue' in (status ∷ statuses, last)
  serve capacity poll (linked first second first_sqe second_sqe answer ∷ events) queue =
      let added = linked_sqe first first_sqe ∷ named_sqe second second_sqe ∷ [] in
      let (status, queue') =
        push_all capacity queue added (told poll "io_uring_enter submit linked" answer) in
      let (statuses, last) = serve capacity poll events queue' in (status ∷ statuses, last)
  serve capacity poll (take_up_to n ∷ events) queue = serve capacity poll events (drop n queue)
