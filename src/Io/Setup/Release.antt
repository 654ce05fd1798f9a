-- ===== src/Io/Setup/Release.antt =====
-- What an executor holds, and that `closeRing` releases it.
use storage_engine.Base.{
  ℕ, String, Bool, true, false, ==_refl, ==_iff, ◌==◌, ◌≢◌, if◌then◌else◌, ◌≡◌, refl, sym, ap, ◌∙◌,
  inl, inr, Bool-cases, Option, none, some,
}
use storage_engine.Status.{status_ok}
use storage_engine.Io.Ring.{Answer, submit_raw}
use storage_engine.Io.Ring.Submit.{ring_fd-submit_raw}
use storage_engine.Io.Setup.{
  nop_sqe, Executor, close_fd, unmap, same_ptr, release_all, stop_thread, close_ring,
}
use storage_engine.Io.Setup.Held.{Os, descriptor, mapping, kept, without, released, hold, release}

unfoldable pub hold_fd : Option ℕ → Os → Os
hold_fd none os = os
hold_fd (some fd) os = hold (descriptor fd) os

unfoldable pub hold_map : Option ℕ → ℕ → Os → Os
hold_map none size os = os
hold_map (some p) size os = hold (mapping p size) os

pub release-hold_fd : (fd : ℕ) (os : Os) → release (descriptor fd) (hold (descriptor fd) os) ≡ os
unfolding without
release-hold_fd fd os = rw (==_refl fd) refl

close_fd-hold_fd : (fd : Option ℕ) (os : Os) → close_fd fd (hold_fd fd os) ≡ os
unfolding close_fd hold_fd
close_fd-hold_fd none os = refl
close_fd-hold_fd (some fd) os = release-hold_fd fd os

close_fd-hold_map :
    (fd p : Option ℕ) (n : ℕ) (os : Os)
    → close_fd fd (hold_map p n os) ≡ hold_map p n (close_fd fd os)
unfolding close_fd hold_map without
close_fd-hold_map fd none n os = refl
close_fd-hold_map none (some p) n os = refl
close_fd-hold_map (some fd) (some p) n os =
    elim (without (descriptor fd) os.held)
      as (λ o.
        released (hold (mapping p n) os) (kept (mapping p n) o)
        ≡ hold (mapping p n) (released os o)) [ none ↦ refl | some held ↦ refl ]

unmap-hold_map : (p : Option ℕ) (n : ℕ) (os : Os) → unmap p n (hold_map p n os) ≡ os
unfolding unmap hold_map without
unmap-hold_map none n os = refl
unmap-hold_map (some p) n os = rw (==_refl p, ==_refl n) refl

-- Two mappings are one mapping when they have one address.
unfoldable pub hold_other : Option ℕ → Option ℕ → ℕ → Os → Os
hold_other p q n os = if same_ptr p q then os else hold_map p n os

unmap-hold_other :
    (p q : Option ℕ) (n : ℕ) (os : Os)
    → (if same_ptr p q then hold_other p q n os else unmap p n (hold_other p q n os)) ≡ os
unfolding hold_other
unmap-hold_other p q n os = elim (Bool-cases (same_ptr p q)) [
  | inl e ↦ rw e refl
  | inr e ↦ rw e (unmap-hold_map p n os)
]

-- What an executor holds beyond the rest.
unfoldable pub held_by : Executor → Os → Os
held_by e rest = hold_map e.sqes_ptr e.sqes_size (
    hold_other e.cq_ring_ptr e.sq_ring_ptr e.cq_ring_size
      (hold_map e.sq_ring_ptr e.sq_ring_size (hold_fd e.state.ring_fd rest)))

release_all-held_by : (e : Executor) (rest : Os) → release_all e (held_by e rest) ≡ rest
unfolding release_all held_by
release_all-held_by e rest =
    rw
      (
        unmap-hold_map e.sqes_ptr e.sqes_size (
            hold_other e.cq_ring_ptr e.sq_ring_ptr e.cq_ring_size
              (hold_map e.sq_ring_ptr e.sq_ring_size (hold_fd e.state.ring_fd rest))),
        unmap-hold_other e.cq_ring_ptr e.sq_ring_ptr e.cq_ring_size
            (hold_map e.sq_ring_ptr e.sq_ring_size (hold_fd e.state.ring_fd rest)),
        unmap-hold_map e.sq_ring_ptr e.sq_ring_size (hold_fd e.state.ring_fd rest),
      )
      (close_fd-hold_fd e.state.ring_fd rest)

-- A descriptor that is closed early leaves the mappings.
pub close_fd-under :
    (fd : Option ℕ) (e : Executor) (rest : Os)
    → close_fd fd (held_by e rest)
      ≡ hold_map e.sqes_ptr e.sqes_size (
          hold_other e.cq_ring_ptr e.sq_ring_ptr e.cq_ring_size
            (hold_map e.sq_ring_ptr e.sq_ring_size (close_fd fd (hold_fd e.state.ring_fd rest))))
unfolding held_by hold_other
close_fd-under fd e rest =
    close_fd-hold_map fd e.sqes_ptr e.sqes_size _
    ∙ ap (hold_map e.sqes_ptr e.sqes_size) (
        past_other (same_ptr e.cq_ring_ptr e.sq_ring_ptr) _
        ∙ ap (hold_other e.cq_ring_ptr e.sq_ring_ptr e.cq_ring_size)
            (close_fd-hold_map fd e.sq_ring_ptr e.sq_ring_size _))
  where
    past_other :
        (b : Bool) (os : Os)
        → close_fd fd (if b then os else hold_map e.cq_ring_ptr e.cq_ring_size os)
          ≡ (if b then close_fd fd os else hold_map e.cq_ring_ptr e.cq_ring_size (close_fd fd os))
    past_other true os = refl
    past_other false os = close_fd-hold_map fd e.cq_ring_ptr e.cq_ring_size os

close_fd-held_by :
    (e : Executor) (rest : Os)
    → close_fd e.state.ring_fd (held_by e rest)
      ≡ held_by (record e { state = record e.state { ring_fd = none } }) rest
unfolding held_by hold_fd
close_fd-held_by e rest =
    close_fd-under e.state.ring_fd e rest
    ∙ ap
        (λ (os : Os). hold_map e.sqes_ptr e.sqes_size (
          hold_other e.cq_ring_ptr e.sq_ring_ptr e.cq_ring_size
            (hold_map e.sq_ring_ptr e.sq_ring_size os)))
        (close_fd-hold_fd e.state.ring_fd rest)

-- A descriptor below that of an executor.
past_fd :
    (fd : ℕ) (ring_fd : Option ℕ) (rest : Os)
    → ring_fd ≢ some fd
    → close_fd (some fd) (hold_fd ring_fd (hold (descriptor fd) rest)) ≡ hold_fd ring_fd rest
unfolding without close_fd hold_fd
past_fd fd none rest ne = release-hold_fd fd rest
past_fd fd (some ring_fd) rest ne = elim (Bool-cases (fd == ring_fd)) [
  | inl e ↦ absurd (ne (ap some (sym ((==_iff fd ring_fd).0 e))))
  | inr e ↦ rw (e, ==_refl fd) refl
]

pub release-held_by :
    (fd : ℕ) (e : Executor) (rest : Os)
    → e.state.ring_fd ≢ some fd
    → release (descriptor fd) (held_by e (hold (descriptor fd) rest)) ≡ held_by e rest
unfolding held_by close_fd
release-held_by fd e rest ne =
    close_fd-under (some fd) e (hold (descriptor fd) rest)
    ∙ ap
        (λ (os : Os). hold_map e.sqes_ptr e.sqes_size (
          hold_other e.cq_ring_ptr e.sq_ring_ptr e.cq_ring_size
            (hold_map e.sq_ring_ptr e.sq_ring_size os)))
        (past_fd fd e.state.ring_fd rest ne)

-- The thread stops: by its operation, or because the ring is closed under it.
stop_thread-held_by :
    (strerror : ℕ → String) (e : Executor) (rest : Os) (answer : Answer)
    → release_all
        (stop_thread strerror e (held_by e rest) answer).0
        (stop_thread strerror e (held_by e rest) answer).1
      ≡ rest
unfolding stop_thread held_by
stop_thread-held_by strerror e rest answer =
    elim (Bool-cases (status_ok (submit_raw strerror e.state nop_sqe 0 answer).0)) [
      | inl told ↦
          simp told
            (ap (λ (os : Os). release_all woken os) same_fd ∙ release_all-held_by woken rest)
      | inr refused ↦
          simp (refused, close_fd-held_by e rest)
            (release_all-held_by
              (record e {
                stopping = true;
                joinable = false;
                state = record (submit_raw strerror e.state nop_sqe 0 answer).1 { ring_fd = none };
              })
              rest)
    ]
  where
    woken : Executor
    woken = record e {
      stopping = true;
      joinable = false;
      state = (submit_raw strerror e.state nop_sqe 0 answer).1;
    }

    same_fd : held_by e rest ≡ held_by woken rest
    same_fd =
        ap (λ (fd : Option ℕ). held_by (record e { state = record e.state { ring_fd = fd } }) rest)
          (sym (ring_fd-submit_raw strerror e.state nop_sqe 0 answer))

pub close_ring-held_by :
    (strerror : ℕ → String) (e : Executor) (rest : Os) (answer : Answer)
    → close_ring strerror (some e) (held_by e rest) answer ≡ rest
unfolding close_ring
close_ring-held_by strerror e rest answer = elim (Bool-cases e.joinable) [
  | inr quiet ↦ simp quiet (release_all-held_by e rest)
  | inl joined ↦ simp joined (stop_thread-held_by strerror e rest answer)
]
