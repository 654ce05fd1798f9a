-- ===== src/Io.antt =====
-- src/io/uring_executor.cc: what the awaiters return when their operations are complete, and
-- src/common.cc, `errnoMessage`.
-- The `int32_t` result of a completion is a count or a negated error number.
pub mod Resume
pub mod Ring
pub mod Setup
pub mod Completions
use Prim.Native.String.{◌++◌}
use storage_engine.Base.{ℕ, String, not, ◌==◌, if◌then◌else◌}
use storage_engine.Status.{Status, Result, ok, err, ok_status, io_error}

pub data Completion : Type 0 where
  done : ℕ → Completion
  failed : (errno : ℕ) → Completion

-- An awaiter of one operation, or of two linked ones: the submission failed, or the kernel
-- completed what was submitted.
pub data Single : Type 0 where
  submit_failed : Single
  finished : Completion → Single

pub data Linked : Type 0 where
  linked_submit_failed : Linked
  linked_finished : (write sync : Completion) → Linked

module _ (strerror : ℕ → String) where
  pub errno_message : String → ℕ → String
  errno_message operation errno = (operation ++ ": ") ++ strerror errno

  -- `SingleOperationAwaiter::await_resume`
  pub single_resume : (submit_error operation_error : String) → Single → Result ℕ
  single_resume submit_error operation_error submit_failed = err (io_error submit_error)
  single_resume submit_error operation_error (finished (failed errno)) =
      err (io_error ((operation_error ++ ": ") ++ strerror errno))
  single_resume submit_error operation_error (finished (done n)) = ok n

  -- `Awaiter::await_resume` of `WritevAndFDataSync`
  pub write_sync_resume : (expected_bytes : ℕ) → Linked → Status
  write_sync_resume expected_bytes linked_submit_failed =
      io_error "io_uring linked writev+fdatasync submit failed"
  write_sync_resume expected_bytes (linked_finished (failed errno) sync) =
      io_error ("io_uring writev failed: " ++ strerror errno)
  write_sync_resume expected_bytes (linked_finished (done n) (failed errno)) =
      if not (n == expected_bytes)
      then io_error "io_uring writev completed short"
      else io_error ("io_uring fdatasync failed: " ++ strerror errno)
  write_sync_resume expected_bytes (linked_finished (done n) (done k)) =
      if not (n == expected_bytes) then io_error "io_uring writev completed short" else ok_status

  -- `ReadAt`
  pub read_at : Single → Result ℕ
  read_at = single_resume "io_uring readv submit failed" "io_uring readv failed"

  status_of : Result ℕ → Status
  status_of (err e) = e
  status_of (ok n) = ok_status

  -- `FDataSync`
  pub fdatasync : Single → Status
  fdatasync outcome =
      status_of
        (single_resume "io_uring fdatasync submit failed" "io_uring fdatasync failed" outcome)
