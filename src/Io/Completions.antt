-- ===== src/Io/Completions.antt =====
-- src/io/uring_executor.cc: `completionLoop`, the thread that takes completions off the ring.
-- An operation is known by its address. A resumed coroutine is recorded with the result that its
-- operation holds at that moment; what it goes on to do is not part of the loop. `stopping` is read
-- as one value in each round of the outer loop.
pub mod Effect
pub mod Take
pub mod Return
use Prim.Native.Nat.{bit_and}
use storage_engine.Base.{
  ℕ, zero, suc, ◌+◌, ◌%◌, ◌^◌, Bool, true, false, ◌==◌, if◌then◌else◌, Option, none, some, List, [],
  ◌∷◌, ◌++◌, get_or,
}
use storage_engine.Io.{Completion, done, failed}
use storage_engine.Io.Ring.{add32, sub32}

pub record Cqe : Type 0 where
  pub user_data : ℕ
  pub res : Completion

abbrev pub no_cqe : Cqe
no_cqe = record { user_data = 0; res = done 0 }

pub record CompletionRing : Type 0 where
  pub head : ℕ
  pub tail : ℕ
  pub ring_mask : ℕ
  pub cqes : List Cqe

-- `Operation`, without the entry that was submitted.
pub record Operation : Type 0 where
  pub continuation : Option ℕ
  pub result : Completion

pub record Loop : Type 0 where
  pub cq : CompletionRing
  pub operations : ℕ → Operation
  pub resumed : List (ℕ × Completion)
  pub completion_loop_completions : ℕ

-- `operation->result = result`
pub set_result : (ℕ → Operation) → (at : ℕ) → Completion → ℕ → Operation
set_result operations at result a =
    if a == at then record (operations a) { result = result } else operations a

-- `operation->continuation.resume()`, where there is one
pub resume : Operation → List (ℕ × Completion)
resume operation = elim operation.continuation [ none ↦ [] | some k ↦ (k, operation.result) ∷ [] ]

pub complete : Loop → (at : ℕ) → Completion → Loop
complete l at result =
    let operations = set_result l.operations at result in
    record l {
      operations = operations;
      completion_loop_completions = (l.completion_loop_completions + 1) % 2 ^ 64;
      resumed = l.resumed ++ resume (operations at);
    }

abbrev pub first_cqe : CompletionRing → Cqe
first_cqe cq = get_or cq.cqes (bit_and cq.head cq.ring_mask) no_cqe

-- One round of the inner loop: whether the thread returns, and the state.
pub take_cqe : (stopping : Bool) → Loop → Bool × Loop
take_cqe stopping l =
    let cqe = first_cqe l.cq in
    let popped = record l { cq = record l.cq { head = add32 l.cq.head 1 } } in
    if cqe.user_data == 0
    then (stopping, popped)
    else (false, complete popped cqe.user_data cqe.res)

pub take_completions : (stopping : Bool) → (fuel : ℕ) → Loop → Bool × Loop
take_completions stopping zero l = (false, l)
take_completions stopping (suc fuel) l =
    let (stop, next) = take_cqe stopping l in
    let rest = take_completions stopping fuel next in
    if l.cq.head == l.cq.tail then (false, l) else (if stop then (true, next) else rest)

-- A round of the outer loop: what `io_uring_enter` returns, whether the executor is being closed,
-- and what the kernel did to the ring.
pub record Round : Type 0 where
  pub enter : Completion
  pub stopping : Bool
  pub post : CompletionRing → CompletionRing

abbrev pub eintr : ℕ
eintr = 4

entered : Round → Completion → Loop → Bool × Loop
entered r (failed errno) l = if errno == eintr then (false, l) else (r.stopping, l)
entered r (done n) l = take_completions r.stopping (sub32 l.cq.tail l.cq.head) l

pub completion_round : Round → Loop → Bool × Loop
unfolding entered
completion_round r l = entered r r.enter (record l { cq = r.post l.cq })

pub completion_loop : List Round → Loop → Bool × Loop
completion_loop [] l = (false, l)
completion_loop (r ∷ rs) l =
    let (stop, next) = completion_round r l in
    let rest = completion_loop rs next in if stop then (true, next) else rest
