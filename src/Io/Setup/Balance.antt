-- ===== src/Io/Setup/Balance.antt =====
-- Whatever fails while an executor is made, the process ends up holding what it held before.
use storage_engine.Base.{
  ℕ, String, true, false, ==_refl, ◌==◌, ==_iff, if◌then◌else◌, ◌≡◌, ◌≢◌, refl, sym, ap, ◌∙◌, inl,
  inr, Bool-cases, Option, none, some,
}
use storage_engine.Status.{Status, Result, ok, err, status_ok}
use storage_engine.Io.{Completion, done, failed}
use storage_engine.Io.Ring.{Answer}
use storage_engine.Io.Setup.{
  Options, Geometry, Kernel, Executor, Outcome, ioring_off_sq_ring, ioring_off_cq_ring, same_ptr,
  close_ring, fail, sized_rings, map_sqes, map_cq, map_sq, setup_params, sqes_mapped, cq_mapped,
  sq_mapped, set_up, init, created, create, destroy_executor,
}
use storage_engine.Io.Setup.Held.{Os, descriptor, mapping, hold}
use storage_engine.Io.Setup.Release.{hold_fd, hold_map, hold_other, held_by, close_ring-held_by}

-- Two mappings that are both held have two addresses.
unfoldable pub HasDistinctMaps : Kernel → Type 0
HasDistinctMaps kernel =
    (fd n m p q : ℕ)
    → kernel.mmap fd n ioring_off_sq_ring ≡ done p
    → kernel.mmap fd m ioring_off_cq_ring ≡ done q
    → p ≢ q

-- Either nothing is held beyond the rest, or what an executor on the descriptor holds.
Holds : (ring_fd : Option ℕ) → Option Executor → Status → Os → (rest : Os) → Type 0
Holds ring_fd none status os rest = (status_ok status ≡ false) × (os ≡ rest)
Holds ring_fd (some e) status os rest =
    (status_ok status ≡ true) × (os ≡ held_by e rest) × (e.state.ring_fd ≡ ring_fd)

IsBalanced : (ring_fd : Option ℕ) → Outcome → (rest : Os) → Type 0
IsBalanced ring_fd outcome rest = Holds ring_fd outcome.executor outcome.status outcome.os rest

-- The descriptor that `io_uring_setup` returned.
abbrev pub fd_of : Completion → Option ℕ
fd_of (failed errno) = none
fd_of (done fd) = some fd

module _ (kernel : Kernel) where
  fail-IsBalanced :
      (ring_fd : Option ℕ) (operation : String) (errno : ℕ) (e : Executor) (rest : Os)
      → IsBalanced ring_fd (fail kernel operation errno e (held_by e rest)) rest
  unfolding IsBalanced Holds fail
  fail-IsBalanced ring_fd operation errno e rest =
      (refl, close_ring-held_by kernel.strerror e rest _)

  module _ (options : Options) (fd : ℕ) (g : Geometry) (rest : Os) where
    with_sq : ℕ → Executor
    with_sq p = record (sized_rings kernel fd options g) { sq_ring_ptr = some p }

    with_cq : (p q : ℕ) → Executor
    with_cq p q = record (with_sq p) { cq_ring_ptr = some q }

    sqes_mapped-IsBalanced :
        (p q : ℕ) (answer : Completion)
        → IsBalanced
            (some fd)
            (sqes_mapped kernel g (with_cq p q) (held_by (with_cq p q) rest) answer)
            rest
    unfolding IsBalanced Holds sqes_mapped held_by hold_map with_sq with_cq sized_rings
    sqes_mapped-IsBalanced p q (failed errno) = fail-IsBalanced (some fd) "mmap sqes" errno _ rest
    sqes_mapped-IsBalanced p q (done r) = (refl, refl, refl)

    -- One mapping for both rings, or two.
    shared : (p : ℕ) → held_by (with_sq p) rest ≡ held_by (with_cq p p) rest
    unfolding held_by hold_map hold_other same_ptr with_sq with_cq sized_rings
    shared p = rw (==_refl p) refl

    apart :
        (p q : ℕ)
        → p ≢ q
        → hold (mapping q (with_sq p).cq_ring_size) (held_by (with_sq p) rest)
          ≡ held_by (with_cq p q) rest
    unfolding held_by hold_map hold_other same_ptr with_sq with_cq sized_rings
    apart p q ne = elim (Bool-cases (q == p)) [
      | inl e ↦ absurd (ne (sym ((==_iff q p).0 e)))
      | inr e ↦ rw e refl
    ]

    cq_mapped-IsBalanced :
        (p : ℕ) (answer : Completion)
        → ((q : ℕ) → answer ≡ done q → p ≢ q)
        → IsBalanced
            (some fd)
            (cq_mapped kernel fd g (with_sq p) (held_by (with_sq p) rest) answer)
            rest
    unfolding IsBalanced Holds cq_mapped map_sqes with_cq
    cq_mapped-IsBalanced p (failed errno) ne = fail-IsBalanced (some fd) "mmap cq ring" errno _ rest
    cq_mapped-IsBalanced p (done q) ne = rw (apart p q (ne q refl)) (sqes_mapped-IsBalanced p q _)

    map_cq-IsBalanced :
        (p : ℕ)
        → ((q : ℕ) → kernel.mmap fd (with_sq p).cq_ring_size ioring_off_cq_ring ≡ done q → p ≢ q)
        → IsBalanced (some fd) (map_cq kernel fd g (with_sq p) (held_by (with_sq p) rest)) rest
    unfolding map_cq map_sqes with_cq with_sq
    map_cq-IsBalanced p ne =
        elim (with_sq p).single_mmap
          as (λ b.
            IsBalanced (some fd)
              (if b then map_sqes kernel fd g (with_cq p p) (held_by (with_sq p) rest) else two)
              rest) [
                | true ↦ rw (shared p) (sqes_mapped-IsBalanced p p _)
                | false ↦ cq_mapped-IsBalanced p _ ne
              ]
      where
        two : Outcome
        two =
            cq_mapped kernel fd g (with_sq p) (held_by (with_sq p) rest)
              (kernel.mmap fd (with_sq p).cq_ring_size ioring_off_cq_ring)

    sq_mapped-IsBalanced :
        (answer : Completion)
        → ((p q : ℕ)
            → answer ≡ done p
            → kernel.mmap fd (sized_rings kernel fd options g).cq_ring_size ioring_off_cq_ring
              ≡ done q
            → p ≢ q)
        → IsBalanced
            (some fd)
            (sq_mapped kernel fd g
              (sized_rings kernel fd options g)
              (hold (descriptor fd) rest)
              answer)
            rest
    unfolding IsBalanced Holds sq_mapped with_sq sized_rings held_by hold_map hold_fd hold_other
        same_ptr
    sq_mapped-IsBalanced (failed errno) ne = fail-IsBalanced (some fd) "mmap sq ring" errno _ rest
    sq_mapped-IsBalanced (done p) ne = map_cq-IsBalanced p (λ q e. ne p q refl e)

  set_up-IsBalanced :
      (options : Options) (g : Geometry) (rest : Os) (answer : Completion)
      → HasDistinctMaps kernel
      → IsBalanced (fd_of answer) (set_up kernel options g rest answer) rest
  unfolding IsBalanced Holds set_up map_sq HasDistinctMaps
  set_up-IsBalanced options g rest (failed errno) distinct = (refl, refl)
  set_up-IsBalanced options g rest (done fd) distinct =
      sq_mapped-IsBalanced options fd g rest _ (λ p q e h. distinct fd _ _ p q e h)

  -- What `Create` returns: an error and nothing held, or an executor on the descriptor and what it holds.
  abbrev pub Returns : (ring_fd : Option ℕ) → Result (Option Executor) × Os → (rest : Os) → Type 0
  Returns ring_fd (err status, os) rest = (status_ok status ≡ false) × (os ≡ rest)
  Returns ring_fd (ok none, os) rest = ⊥
  Returns ring_fd (ok (some e), os) rest = (os ≡ held_by e rest) × (e.state.ring_fd ≡ ring_fd)

  created_lem :
      (ring_fd : Option ℕ) (executor : Option Executor) (status : Status) (held rest : Os)
      → Holds ring_fd executor status held rest
      → Returns ring_fd
          (created kernel (record { status = status; executor = executor; os = held }))
          rest
  unfolding Holds created close_ring
  created_lem ring_fd none status held rest (bad, e) = rw bad (bad, e)
  created_lem ring_fd (some e) status held rest (good, h, fd) = rw good (h, fd)

  pub create_lem :
      (options : Options) (os : Os)
      → HasDistinctMaps kernel
      → Returns
          (fd_of (kernel.io_uring_setup options.entries (setup_params options)))
          (create kernel options os)
          os
  unfolding IsBalanced create init
  create_lem options os distinct =
      created_lem _ _ _ _ os (set_up-IsBalanced options _ os _ distinct)

  settled :
      (ring_fd : Option ℕ) (result : Result (Option Executor) × Os) (rest : Os) (answer : Answer)
      → Returns ring_fd result rest
      → destroy_executor kernel result answer ≡ rest
  unfolding destroy_executor
  settled ring_fd (err status, os) rest answer (bad, e) = e
  settled ring_fd (ok none, os) rest answer h = elim h [ ]
  settled ring_fd (ok (some e), os) rest answer (h, fd) =
      ap (λ (o : Os). close_ring kernel.strerror (some e) o answer) h
      ∙ close_ring-held_by kernel.strerror e rest answer

  -- Whichever step of `Create` fails, and also when it succeeds and the executor is destroyed, the
  -- process ends up holding the descriptors and mappings that it held before, and nothing is
  -- released that is not held, whatever `io_uring_enter` answers to the last operation. Mappings of
  -- the two rings have different addresses.
  pub destroy_executor-create :
      (options : Options) (os : Os) (answer : Answer)
      → HasDistinctMaps kernel
      → destroy_executor kernel (create kernel options os) answer ≡ os
  destroy_executor-create options os answer distinct =
      settled _ _ os answer (create_lem options os distinct)
