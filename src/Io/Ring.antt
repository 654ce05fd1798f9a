-- ===== src/Io/Ring.antt =====
-- src/io/uring_executor.cc: the rings that the executor shares with the kernel. `submitRaw`,
-- `submitLinked`, `submit`, `wakeSqPollIfNeeded`.
-- The head and the tail are `uint32_t` counters that wrap. What the kernel answers to
-- `io_uring_enter`, and whether it asks to be woken, are arguments. An operation is known by its
-- address, and its entry carries that address as `user_data`.
pub mod Window
pub mod Submit
pub mod Queue
pub mod Kernel
pub mod Refines
use Prim.Native.Nat.{bit_and, bit_or}
use storage_engine.Base.{
  ℕ, ◌+◌, ◌-◌, ◌%◌, ◌^◌, String, Bool, true, false, Option, none, some, List, set, ltb, leb,
  if◌then◌else◌,
}
use storage_engine.Status.{Status, ok_status, io_error}
use storage_engine.Io.{Completion, done, failed, errno_message}

-- `io_uring_sqe`, the fields that the executor sets.
pub record Sqe : Type 0 where
  pub opcode : ℕ
  pub fd : ℕ
  pub addr : ℕ
  pub len : ℕ
  pub off : ℕ
  pub fsync_flags : ℕ
  pub flags : ℕ
  pub user_data : ℕ

-- `io_uring_sqe sqe{}`
abbrev pub no_sqe : Sqe
no_sqe = record {
  opcode = 0;
  fd = 0;
  addr = 0;
  len = 0;
  off = 0;
  fsync_flags = 0;
  flags = 0;
  user_data = 0;
}

pub record SubmissionRing : Type 0 where
  pub head : ℕ
  pub tail : ℕ
  pub ring_mask : ℕ
  pub ring_entries : ℕ
  pub array : List ℕ
  pub sqes : List Sqe

-- The parts of `State` that a submission uses; `ring_fd` is `none` for -1.
pub record State : Type 0 where
  pub ring_fd : Option ℕ
  pub sq : SubmissionRing
  pub sq_poll_enabled : Bool

-- What the kernel says during one submission: the flag IORING_SQ_NEED_WAKEUP, and the result of
-- `io_uring_enter`.
pub record Answer : Type 0 where
  pub need_wakeup : Bool
  pub enter : Completion

abbrev pub iosqe_io_link : ℕ
iosqe_io_link = 4

-- `uint32_t` addition and subtraction
abbrev pub add32 : ℕ → ℕ → ℕ
add32 a b = (a + b) % 2 ^ 32

abbrev pub sub32 : ℕ → ℕ → ℕ
sub32 a b = (a + 2 ^ 32 - b) % 2 ^ 32

abbrev pub queue_full : Status
queue_full = io_error "io_uring submission queue is full"

abbrev pub executor_closed : Status
executor_closed = io_error "io_uring executor is closed"

-- An entry at the index of a position, and the slot of the array that names it.
pub put_sqe : SubmissionRing → (index : ℕ) → Sqe → SubmissionRing
put_sqe sq index sqe = record sq { sqes = set sq.sqes index sqe; array = set sq.array index index }

module _ (strerror : ℕ → String) where
  pub enter_status : String → Completion → Status
  enter_status operation (done n) = ok_status
  enter_status operation (failed errno) = io_error (errno_message strerror operation errno)

  pub wake_sq_poll_if_needed : State → Answer → Status
  wake_sq_poll_if_needed state answer =
      if state.sq_poll_enabled
      then (if answer.need_wakeup
          then enter_status "io_uring_enter sqpoll wakeup" answer.enter
          else ok_status)
      else ok_status

  -- What both submissions do once the entries are published.
  pub notify : String → State → Answer → Status
  notify operation state answer =
      if state.sq_poll_enabled
      then wake_sq_poll_if_needed state answer
      else enter_status operation answer.enter

  pub submit_raw : State → Sqe → (user_data : ℕ) → Answer → Status × State
  submit_raw state source user_data answer =
      let sq = state.sq in
      if leb sq.ring_entries (sub32 sq.tail sq.head)
      then (queue_full, state)
      else (let index = bit_and sq.tail sq.ring_mask in
          let filled = put_sqe sq index (record source { user_data = user_data }) in
          let published = record filled { tail = add32 sq.tail 1 } in
          let state' = record state { sq = published } in
          (notify "io_uring_enter submit" state' answer, state'))

  -- The part of `submitLinked` behind its first test.
  pub submit_pair : State → (first second : ℕ) → Sqe → Sqe → Answer → Status × State
  submit_pair state first second first_sqe second_sqe answer =
      let sq = state.sq in
      if ltb sq.ring_entries (add32 (sub32 sq.tail sq.head) 2)
      then (queue_full, state)
      else (let first_index = bit_and sq.tail sq.ring_mask in
          let second_index = bit_and (add32 sq.tail 1) sq.ring_mask in
          let first_sqe = record first_sqe {
            flags = bit_or first_sqe.flags iosqe_io_link;
            user_data = first;
          } in
          let second_sqe = record second_sqe { user_data = second } in
          let filled = put_sqe (put_sqe sq first_index first_sqe) second_index second_sqe in
          let published = record filled { tail = add32 sq.tail 2 } in
          let state' = record state { sq = published } in
          (notify "io_uring_enter submit linked" state' answer, state'))

  when_fd : Option ℕ → State → (State → Status × State) → Status × Option State
  when_fd none state body = (executor_closed, some state)
  when_fd (some fd) state body = let (status, state') = body state in (status, some state')

  -- `if (!state_ || state_->ringFd < 0)`; a null `state_` is `none`.
  when_open : Option State → (State → Status × State) → Status × Option State
  when_open none body = (executor_closed, none)
  when_open (some state) body = when_fd state.ring_fd state body

  pub submit : Option State → (operation : ℕ) → Sqe → Answer → Status × Option State
  unfolding when_open when_fd
  submit state operation sqe answer = when_open state (λ s. submit_raw s sqe operation answer)

  pub submit_linked : Option State → (first second : ℕ) → Sqe → Sqe → Answer → Status × Option State
  unfolding when_open when_fd
  submit_linked state first second first_sqe second_sqe answer =
      when_open state (λ s. submit_pair s first second first_sqe second_sqe answer)
