-- ===== src/Io/Completions/Effect.antt =====
-- What a list of completions brings about.
use Prim.Native.Nat.{bit_and}
use storage_engine.Base.{
  ℕ, zero, suc, ◌+◌, Bool, true, false, ◌==◌, if◌then◌else◌, Option, none, some, List, [], ◌∷◌,
  ◌++◌, get_or,
}
use storage_engine.Io.{Completion}
use storage_engine.Io.Ring.{add32, sub32}
use storage_engine.Io.Completions.{Cqe, no_cqe, CompletionRing}

abbrev pub posted_loop : CompletionRing → (count at : ℕ) → List Cqe
posted_loop cq zero at = []
posted_loop cq (suc count) at =
    get_or cq.cqes (bit_and at cq.ring_mask) no_cqe ∷ posted_loop cq count (add32 at 1)

-- The completions on the ring, the oldest first.
abbrev pub posted : CompletionRing → List Cqe
posted cq = posted_loop cq (sub32 cq.tail cq.head) cq.head

-- What a list of completions brings about: whether the thread returns, the coroutines that run
-- with their results, the number of operations that complete, and the completions left over.
pub record Effect : Type 0 where
  pub returns : Bool
  pub woken : List (ℕ × Completion)
  pub counted : ℕ
  pub left : List Cqe

abbrev pub awake : Option ℕ → Completion → List (ℕ × Completion)
awake none res = []
awake (some k) res = (k, res) ∷ []

abbrev pub wakes : (ℕ → Option ℕ) → Cqe → Effect → Effect
wakes continuation c e = record e {
  woken = awake (continuation c.user_data) c.res ++ e.woken;
  counted = e.counted + 1;
}

-- A completion without an address ends the thread when the executor is being closed, and is
-- passed over otherwise.
unfoldable pub effect : (stopping : Bool) → (ℕ → Option ℕ) → List Cqe → Effect
effect stopping continuation [] = record { returns = false; woken = []; counted = 0; left = [] }
effect stopping continuation (c ∷ cs) =
    let rest = effect stopping continuation cs in
    if c.user_data == 0
    then (if stopping then record { returns = true; woken = []; counted = 0; left = cs } else rest)
    else wakes continuation c rest
