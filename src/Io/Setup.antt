-- ===== src/Io/Setup.antt =====
-- src/io/uring_executor.cc: `Create`, `init` and `closeRing`, on the descriptors and mappings that
-- the process holds.
-- `io_uring_setup` and `mmap` are parameters, and so are the rings as the kernel lays them out: the
-- pointers into them are the fields of the rings. A mapping is known by its address and its size.
pub mod Held
pub mod Release
pub mod Balance
use Prim.Native.Nat.{max}
use storage_engine.Base.{
  ℕ, ◌+◌, ◌*◌, String, Bool, true, false, not, ◌&&◌, ◌==◌, if◌then◌else◌, Option, none, some,
}
use storage_engine.Status.{Status, Result, ok, err, ok_status, io_error, status_ok}
use storage_engine.Io.{Completion, done, failed, errno_message}
use storage_engine.Io.Ring.{Sqe, no_sqe, SubmissionRing, State, Answer, submit_raw}
use storage_engine.Io.Setup.Held.{Os, descriptor, mapping, hold, release}

pub record Options : Type 0 where
  pub entries : ℕ
  pub sq_poll : Bool
  pub sq_poll_idle_ms : ℕ

-- `io_uring_params`: the fields that are set before the call, and those that it fills.
pub record Params : Type 0 where
  pub flags : ℕ
  pub sq_thread_idle : ℕ

pub record Geometry : Type 0 where
  pub sq_off_array : ℕ
  pub sq_entries : ℕ
  pub cq_off_cqes : ℕ
  pub cq_entries : ℕ
  pub single_mmap : Bool

-- The kernel: the descriptor, the sizes, a mapping at an offset of the descriptor, the ring.
pub record Kernel : Type 0 where
  pub strerror : ℕ → String
  pub io_uring_setup : ℕ → Params → Completion
  pub geometry : ℕ → Params → Geometry
  pub mmap : (fd size offset : ℕ) → Completion
  pub ring : (fd : ℕ) → SubmissionRing

-- `State`; a null pointer is `none`.
pub record Executor : Type 0 where
  pub state : State
  pub sq_ring_ptr : Option ℕ
  pub cq_ring_ptr : Option ℕ
  pub sqes_ptr : Option ℕ
  pub sq_ring_size : ℕ
  pub cq_ring_size : ℕ
  pub sqes_size : ℕ
  pub single_mmap : Bool
  pub joinable : Bool
  pub stopping : Bool

abbrev pub ioring_setup_sqpoll : ℕ
ioring_setup_sqpoll = 2

abbrev pub ioring_off_sq_ring : ℕ
ioring_off_sq_ring = 0

abbrev pub ioring_off_cq_ring : ℕ
ioring_off_cq_ring = 134217728

abbrev pub ioring_off_sqes : ℕ
ioring_off_sqes = 268435456

-- The bytes of an `io_uring_sqe`, an `io_uring_cqe` and a `uint32_t`.
abbrev pub sqe_bytes : ℕ
sqe_bytes = 64

abbrev pub cqe_bytes : ℕ
cqe_bytes = 16

abbrev pub word_bytes : ℕ
word_bytes = 4

pub setup_params : Options → Params
setup_params options =
    if options.sq_poll
    then record { flags = ioring_setup_sqpoll; sq_thread_idle = options.sq_poll_idle_ms }
    else record { flags = 0; sq_thread_idle = 0 }

-- `close(state_->ringFd)` where it is not negative.
pub close_fd : Option ℕ → Os → Os
close_fd none os = os
close_fd (some fd) os = release (descriptor fd) os

pub unmap : Option ℕ → ℕ → Os → Os
unmap none size os = os
unmap (some p) size os = release (mapping p size) os

pub same_ptr : Option ℕ → Option ℕ → Bool
same_ptr none none = true
same_ptr (some p) (some q) = p == q
same_ptr _ _ = false

-- The end of `closeRing`, behind the thread.
pub release_all : Executor → Os → Os
release_all e os =
    let os = unmap e.sqes_ptr e.sqes_size os in
    let os =
      (if same_ptr e.cq_ring_ptr e.sq_ring_ptr
        then os
        else unmap e.cq_ring_ptr e.cq_ring_size os) in
    let os = unmap e.sq_ring_ptr e.sq_ring_size os in close_fd e.state.ring_fd os

-- `sqe.opcode = IORING_OP_NOP`, which is 0
abbrev pub nop_sqe : Sqe
nop_sqe = record no_sqe { opcode = 0 }

module _ (strerror : ℕ → String) where
  -- The thread is woken by an operation without an address; where that fails, by a closed ring.
  pub stop_thread : Executor → Os → Answer → Executor × Os
  stop_thread e os answer =
      let (status, state) = submit_raw strerror e.state nop_sqe 0 answer in
      if status_ok status
      then (record e { stopping = true; joinable = false; state = state }, os)
      else (
        record e { stopping = true; joinable = false; state = record state { ring_fd = none } },
        close_fd e.state.ring_fd os,
      )

  pub close_ring : Option Executor → Os → Answer → Os
  close_ring none os answer = os
  close_ring (some e) os answer =
      let (e, os) = (if e.joinable then stop_thread e os answer else (e, os)) in release_all e os

-- A result of `init`: the status, the state, and what the process holds.
pub record Outcome : Type 0 where
  pub status : Status
  pub executor : Option Executor
  pub os : Os

module _ (kernel : Kernel) where
  abbrev no_answer : Answer
  no_answer = record { need_wakeup = false; enter = done 0 }

  -- `closeRing(); return status;`
  pub fail : String → ℕ → Executor → Os → Outcome
  fail operation errno e os = record {
    status = io_error (errno_message kernel.strerror operation errno);
    executor = none;
    os = close_ring kernel.strerror (some e) os no_answer;
  }

  -- The sizes of the two rings.
  pub sized_rings : (fd : ℕ) → Options → Geometry → Executor
  sized_rings fd options g =
      let sq_size = g.sq_off_array + g.sq_entries * word_bytes in
      let cq_size = g.cq_off_cqes + g.cq_entries * cqe_bytes in
      record {
        state = record {
          ring_fd = some fd;
          sq = kernel.ring fd;
          sq_poll_enabled = options.sq_poll;
        };
        sq_ring_ptr = none;
        cq_ring_ptr = none;
        sqes_ptr = none;
        sq_ring_size = (if g.single_mmap then max sq_size cq_size else sq_size);
        cq_ring_size = (if g.single_mmap then max sq_size cq_size else cq_size);
        sqes_size = 0;
        single_mmap = g.single_mmap;
        joinable = false;
        stopping = false;
      }

  sqes_mapped : (g : Geometry) → Executor → Os → Completion → Outcome
  sqes_mapped g e os (failed errno) =
      fail "mmap sqes" errno (record e { sqes_size = g.sq_entries * sqe_bytes }) os
  sqes_mapped g e os (done p) = record {
    status = ok_status;
    executor =
        some
          (record e { sqes_size = g.sq_entries * sqe_bytes; sqes_ptr = some p; joinable = true });
    os = hold (mapping p (g.sq_entries * sqe_bytes)) os;
  }

  pub map_sqes : (fd : ℕ) → Geometry → Executor → Os → Outcome
  unfolding sqes_mapped
  map_sqes fd g e os =
      sqes_mapped g e os (kernel.mmap fd (g.sq_entries * sqe_bytes) ioring_off_sqes)

  cq_mapped : (fd : ℕ) → Geometry → Executor → Os → Completion → Outcome
  cq_mapped fd g e os (failed errno) = fail "mmap cq ring" errno e os
  cq_mapped fd g e os (done p) =
      map_sqes fd g (record e { cq_ring_ptr = some p }) (hold (mapping p e.cq_ring_size) os)

  pub map_cq : (fd : ℕ) → Geometry → Executor → Os → Outcome
  unfolding cq_mapped
  map_cq fd g e os =
      if e.single_mmap
      then map_sqes fd g (record e { cq_ring_ptr = e.sq_ring_ptr }) os
      else cq_mapped fd g e os (kernel.mmap fd e.cq_ring_size ioring_off_cq_ring)

  sq_mapped : (fd : ℕ) → Geometry → Executor → Os → Completion → Outcome
  sq_mapped fd g e os (failed errno) = fail "mmap sq ring" errno e os
  sq_mapped fd g e os (done p) =
      map_cq fd g (record e { sq_ring_ptr = some p }) (hold (mapping p e.sq_ring_size) os)

  pub map_sq : (fd : ℕ) → Geometry → Executor → Os → Outcome
  unfolding sq_mapped
  map_sq fd g e os = sq_mapped fd g e os (kernel.mmap fd e.sq_ring_size ioring_off_sq_ring)

  set_up : Options → Geometry → Os → Completion → Outcome
  set_up options g os (failed errno) = record {
    status = io_error (errno_message kernel.strerror "io_uring_setup" errno);
    executor = none;
    os = os;
  }
  set_up options g os (done fd) = map_sq fd g (sized_rings fd options g) (hold (descriptor fd) os)

  pub init : Options → Os → Outcome
  unfolding set_up
  init options os =
      let params = setup_params options in
      set_up options (kernel.geometry options.entries params) os
        (kernel.io_uring_setup options.entries params)

  -- `Create`, and the destructor of the executor that it does not return.
  created : Outcome → Result (Option Executor) × Os
  created outcome =
      if not (status_ok outcome.status)
      then (err outcome.status, close_ring kernel.strerror outcome.executor outcome.os no_answer)
      else (ok outcome.executor, outcome.os)

  pub create : Options → Os → Result (Option Executor) × Os
  unfolding created
  create options os = created (init options os)

  -- The destructor behind `Create`.
  pub destroy_executor : Result (Option Executor) × Os → Answer → Os
  destroy_executor (err status, os) answer = os
  destroy_executor (ok executor, os) answer = close_ring kernel.strerror executor os answer
