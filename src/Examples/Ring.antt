-- ===== src/Examples/Ring.antt =====
-- The theorems on the rings at concrete inputs.
use storage_engine.Base.{
  ℕ, ◌-◌, ◌^◌, ◌≡◌, refl, ap, arith, inl, inr, true, false, ◌+◌, ◌==◌, if◌then◌else◌, some, List,
  [], ◌∷◌,
}
use storage_engine.Status.{Result}
use storage_engine.Io.{Completion, done, failed}
use storage_engine.Io.Completions.{CompletionRing, Loop, Round, take_completions, completion_round}
use storage_engine.Io.Completions.Effect.{effect, posted}
use storage_engine.Io.Completions.Take.{Brings, IsLoop, take_completions-Brings}
use storage_engine.Io.Completions.Return.{completion_round-returns}
use storage_engine.Db.Open.{Handle, open_db, closed_handle, closed_handle-open_db}
use storage_engine.Examples.{some_environment}
use storage_engine.Io.Setup
use storage_engine.Io.Setup.{Options, create, destroy_executor}
use storage_engine.Io.Setup.Balance.{HasDistinctMaps, destroy_executor-create}
use storage_engine.Io.Setup.Held.{Os, descriptor}
use storage_engine.Io.Ring.{no_sqe, SubmissionRing, State, Answer}
use storage_engine.Io.Ring.Queue.{Event, single, linked, take_up_to, run, serve}
use storage_engine.Io.Ring.Refines.{Represents, run-serve}
use storage_engine.Io.Ring.Window.{IsRing}

-- A ring of two entries whose counters are about to wrap.
abbrev two_entries : SubmissionRing
two_entries = record {
  head = 2 ^ 32 - 1;
  tail = 2 ^ 32 - 1;
  ring_mask = 1;
  ring_entries = 2;
  array = 1 ∷ 0 ∷ [];
  sqes = no_sqe ∷ no_sqe ∷ [];
}

abbrev open_state : State
open_state = record { ring_fd = some 5; sq = two_entries; sq_poll_enabled = false }

abbrev quiet : Answer
quiet = record { need_wakeup = false; enter = done 1 }

abbrev busy : Answer
busy = record { need_wakeup = false; enter = failed 16 }

two_entries-IsRing : IsRing 1 two_entries
two_entries-IsRing = record {
  small = omega arith;
  entries = refl;
  mask = refl;
  array_size = refl;
  sqes_size = refl;
  head_fits = omega arith;
  tail_fits = omega arith;
  holds = omega arith;
  named = λ i h. absurd (omega (arith, h));
}

open_state-Represents : Represents 1 5 false open_state []
open_state-Represents = record {
  open_fd = refl;
  polls = refl;
  ring = two_entries-IsRing;
  holds = refl;
}

-- One entry, a linked pair that does not fit, and the pair again when the kernel has made room.
abbrev some_events : List Event
some_events =
    single 7 no_sqe quiet
    ∷ linked 8 9 no_sqe no_sqe quiet
    ∷ take_up_to 3
    ∷ linked 8 9 no_sqe no_sqe busy
    ∷ []

run-serve_example :
    (state' : State) × (run (λ n. "error") some_events (some open_state)
      ≡ ((serve (λ n. "error") 2 false some_events []).0, some state'))
    × Represents 1 5 false state' (serve (λ n. "error") 2 false some_events []).1
run-serve_example =
    run-serve (λ n. "error") 1 5 false some_events open_state [] open_state-Represents

-- A completion ring of two slots, about to wrap, in which an operation and a completion without an
-- address wait.
abbrev two_posted : CompletionRing
two_posted = record {
  head = 2 ^ 32 - 1;
  tail = 1;
  ring_mask = 1;
  cqes = record { user_data = 0; res = done 0 } ∷ record { user_data = 7; res = done 32 } ∷ [];
}

abbrev some_loop : Loop
some_loop = record {
  cq = two_posted;
  operations = λ a. record { continuation = some (a + 1); result = done 0 };
  resumed = [];
  completion_loop_completions = 3;
}

some_loop-IsLoop : IsLoop some_loop
some_loop-IsLoop = record {
  head_fits = omega arith;
  tail_fits = omega arith;
  count_fits = omega arith;
}

take_completions-Brings_example :
    Brings some_loop
      (effect true (λ a. some (a + 1)) (posted two_posted))
      (take_completions true 5 some_loop)
take_completions-Brings_example =
    take_completions-Brings true (λ a. some (a + 1)) 5 some_loop some_loop-IsLoop (λ a. refl)
      (omega arith)

abbrev last_round : Round
last_round = record { enter = done 0; stopping = true; post = λ cq. cq }

completion_round-returns_example : (completion_round last_round some_loop).0 ≡ true
completion_round-returns_example =
    completion_round-returns last_round some_loop some_loop-IsLoop refl (inr (inl refl))

-- A kernel with two mappings for the rings, on which the third mapping fails.
abbrev some_setup : Setup.Kernel
some_setup = record {
  strerror = λ n. "error";
  io_uring_setup = λ entries params. done 3;
  geometry = λ entries params. record {
    sq_off_array = 64;
    sq_entries = 8;
    cq_off_cqes = 64;
    cq_entries = 16;
    single_mmap = false;
  };
  mmap = λ fd size offset. if offset == 268435456 then failed 12 else done (4096 + offset);
  ring = λ fd. two_entries;
}

abbrev count_of : Completion → ℕ
count_of (done n) = n
count_of (failed errno) = 0

some_setup-HasDistinctMaps : HasDistinctMaps some_setup
unfolding HasDistinctMaps
some_setup-HasDistinctMaps fd n m p q hp hq = λ e. omega (arith, e, ap count_of hp, ap count_of hq)

abbrev some_options : Options
some_options = record { entries = 8; sq_poll = false; sq_poll_idle_ms = 2000 }

abbrev some_os : Os
some_os = record { held = descriptor 2 ∷ []; faults = 0 }

destroy_executor-create_example :
    destroy_executor some_setup (create some_setup some_options some_os) busy ≡ some_os
destroy_executor-create_example =
    destroy_executor-create some_setup some_options some_os busy some_setup-HasDistinctMaps

-- The same kernel with enough memory, and a database on an empty log.
abbrev good_setup : Setup.Kernel
good_setup = record some_setup { mmap = λ fd size offset. done (4096 + offset) }

good_setup-HasDistinctMaps : HasDistinctMaps good_setup
unfolding HasDistinctMaps
good_setup-HasDistinctMaps fd n m p q hp hq = λ e. omega (arith, e, ap count_of hp, ap count_of hq)

closed_handle-open_db_example :
    (result : Result Handle × Os) × (open_db some_environment good_setup some_options
        (done 9)
        []
        some_os
        busy
      ≡ some result)
    × (closed_handle some_environment good_setup result busy ≡ some_os)
closed_handle-open_db_example =
    closed_handle-open_db some_environment good_setup some_options (done 9) [] some_os busy
      good_setup-HasDistinctMaps (λ wal_fd same e. omega (arith, ap count_of same, ap count_of e))
