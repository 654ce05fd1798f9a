-- ===== src/Io/Resume.antt =====
-- When the write of a record counts as durable.
use storage_engine.Base.{
  ◌⊎◌, arith, ℕ, String, ◌≡◌, ◌≢◌, refl, ap, false, Bool-cases, inl, inr, ◌==◌, ==_refl, ==_iff,
}
use storage_engine.Status.{ok, ok_status, status_ok}
use storage_engine.Io.{
  done, failed, Linked, linked_submit_failed, linked_finished, write_sync_resume, finished, read_at,
  fdatasync, single_resume, status_of,
}

module _ (strerror : ℕ → String) where
  pub write_sync-success :
      (expected n : ℕ)
      → write_sync_resume strerror expected (linked_finished (done expected) (done n)) ≡ ok_status
  unfolding write_sync_resume
  write_sync-success expected n = rw (==_refl expected) refl

  -- Every other answer is a failure: a refused submission, a failed or short write, a failed sync.
  pub write_sync-failure :
      (expected : ℕ) (outcome : Linked)
      → ((n : ℕ) → outcome ≢ linked_finished (done expected) (done n))
      → status_ok (write_sync_resume strerror expected outcome) ≡ false
  unfolding write_sync_resume
  write_sync-failure expected linked_submit_failed other = refl
  write_sync-failure expected (linked_finished (failed errno) sync) other = refl
  write_sync-failure expected (linked_finished (done n) (failed errno)) other =
      elim (Bool-cases (n == expected)) [ inl e ↦ rw e refl | inr e ↦ rw e refl ]
  write_sync-failure expected (linked_finished (done n) (done k)) other =
      elim (Bool-cases (n == expected)) [
        | inl e ↦
            absurd (
              other k (ap (λ (m : ℕ). linked_finished (done m) (done k)) ((==_iff n expected).0 e)))
        | inr e ↦ rw e refl
      ]

  pub read_at-done : (n : ℕ) → read_at strerror (finished (done n)) ≡ ok n
  unfolding read_at single_resume
  read_at-done n = refl

  pub fdatasync-done : (n : ℕ) → fdatasync strerror (finished (done n)) ≡ ok_status
  unfolding fdatasync single_resume status_of
  fdatasync-done n = refl

-- Whether an answer is the one of success.
pub success_or_not :
    (expected : ℕ) (outcome : Linked)
    → ((n : ℕ) × (outcome ≡ linked_finished (done expected) (done n)))
      ⊎ ((n : ℕ) → outcome ≢ linked_finished (done expected) (done n))
success_or_not expected linked_submit_failed = inr (λ n e. cc e)
success_or_not expected (linked_finished (failed errno) sync) = inr (λ n e. cc e)
success_or_not expected (linked_finished (done m) (failed errno)) = inr (λ n e. cc e)
success_or_not expected (linked_finished (done m) (done k)) = elim (Bool-cases (m == expected)) [
  | inl e ↦ inl (k, ap (λ (t : ℕ). linked_finished (done t) (done k)) ((==_iff m expected).0 e))
  | inr e ↦ inr (λ n same. ground (arith, same, ==_iff m expected))
]
