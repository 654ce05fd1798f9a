-- ===== src/Io/Ring/Submit.antt =====
-- One submission: it adds its entries behind the pending ones, or it is refused.
use storage_engine.Base.{
  ℕ, zero, suc, ◌+◌, ◌^◌, ◌≤◌, ◌<◌, String, ◌≡◌, refl, ap, arith, inl, inr, false, Bool-cases,
  Option, some, length, ltb, leb, ltb-true, ltb-false, leb-true, leb-false,
}
use native.Mathlib.Nat.{pow-le-pow_right}
use storage_engine.Io.Ring.{
  Sqe, SubmissionRing, State, Answer, add32, sub32, queue_full, put_sqe, notify,
  wake_sq_poll_if_needed, submit_raw, submit_pair, when_fd, when_open, submit, submit_linked,
}
use storage_engine.Io.Ring.Queue.{named_sqe, linked_sqe}
use storage_engine.Io.Ring.Window.{pending_loop, pending, IsRing, publish}

pub length-pending : (sq : SubmissionRing) → length (pending sq) ≡ sub32 sq.tail sq.head
length-pending sq = by_count (sub32 sq.tail sq.head) sq.head
  where
    by_count : (n at : ℕ) → length (pending_loop sq n at) ≡ n
    by_count zero at = refl
    by_count (suc n) at = ap suc (by_count n (add32 at 1))

-- An open executor submits.
module _ (strerror : ℕ → String) (fd : ℕ) (state : State) (e : state.ring_fd ≡ some fd) where
  pub submit-open :
      (operation : ℕ) (sqe : Sqe) (answer : Answer)
      → submit strerror (some state) operation sqe answer ≡ (
        (submit_raw strerror state sqe operation answer).0,
        some (submit_raw strerror state sqe operation answer).1,
      )
  unfolding submit when_open when_fd
  submit-open operation sqe answer =
      ap
        (λ (o : Option ℕ).
          when_fd strerror o state (λ s. submit_raw strerror s sqe operation answer))
        e

  pub submit_linked-open :
      (first second : ℕ) (a b : Sqe) (answer : Answer)
      → submit_linked strerror (some state) first second a b answer ≡ (
        (submit_pair strerror state first second a b answer).0,
        some (submit_pair strerror state first second a b answer).1,
      )
  unfolding submit_linked when_open when_fd
  submit_linked-open first second a b answer =
      ap
        (λ (o : Option ℕ).
          when_fd strerror o state (λ s. submit_pair strerror s first second a b answer))
        e

-- Two entries behind the pending ones.
abbrev pub publish_pair : SubmissionRing → Sqe → Sqe → SubmissionRing
publish_pair sq a b = publish (publish sq a) b

module _ (strerror : ℕ → String) (k : ℕ) (state : State) (v : IsRing k state.sq) where
  abbrev used : ℕ
  used = sub32 state.sq.tail state.sq.head

  pub submit_raw-room :
      (source : Sqe) (operation : ℕ) (answer : Answer)
      → used < 2 ^ k
      → submit_raw strerror state source operation answer ≡ (
        notify strerror "io_uring_enter submit" state answer,
        record state { sq = publish state.sq (named_sqe operation source) },
      )
  unfolding submit_raw put_sqe notify wake_sq_poll_if_needed
  submit_raw-room source operation answer room = rw (full) refl
    where
      full : leb state.sq.ring_entries (sub32 state.sq.tail state.sq.head) ≡ false
      full =
          leb-false state.sq.ring_entries (sub32 state.sq.tail state.sq.head)
            (omega (arith, v.entries, room))

  pub submit_raw-full :
      (source : Sqe) (operation : ℕ) (answer : Answer)
      → 2 ^ k ≤ used
      → submit_raw strerror state source operation answer ≡ (queue_full, state)
  unfolding submit_raw
  submit_raw-full source operation answer full =
      rw
        (leb-true state.sq.ring_entries (sub32 state.sq.tail state.sq.head)
          (omega (arith, v.entries, full)))
        refl

  pub submit_pair-room :
      (first second : ℕ) (first_sqe second_sqe : Sqe) (answer : Answer)
      → used + 2 ≤ 2 ^ k
      → submit_pair strerror state first second first_sqe second_sqe answer ≡ (
        notify strerror "io_uring_enter submit linked" state answer,
        record state {
          sq = publish_pair state.sq (linked_sqe first first_sqe) (named_sqe second second_sqe);
        },
      )
  unfolding submit_pair put_sqe notify wake_sq_poll_if_needed
  submit_pair-room first second first_sqe second_sqe answer room = rw (full) (
      ap
        (λ (t : ℕ). (
          notify strerror "io_uring_enter submit linked" state answer,
          record state {
            sq =
                record (publish_pair state.sq (linked_sqe first first_sqe)
                  (named_sqe second second_sqe)) { tail = t };
          },
        ))
        tails)
    where
      full : ltb state.sq.ring_entries (add32 (sub32 state.sq.tail state.sq.head) 2) ≡ false
      full =
          ltb-false state.sq.ring_entries (add32 (sub32 state.sq.tail state.sq.head) 2)
            (omega (arith, v.entries, room))

      tails : add32 state.sq.tail 2 ≡ add32 (add32 state.sq.tail 1) 1
      tails = omega arith

  pub submit_pair-full :
      (first second : ℕ) (first_sqe second_sqe : Sqe) (answer : Answer)
      → 2 ^ k < used + 2
      → submit_pair strerror state first second first_sqe second_sqe answer ≡ (queue_full, state)
  unfolding submit_pair
  submit_pair-full first second first_sqe second_sqe answer full =
      rw
        (ltb-true state.sq.ring_entries (add32 (sub32 state.sq.tail state.sq.head) 2) (
          omega (
            arith,
            v.entries,
            v.small,
            v.holds,
            pow-le-pow_right {n = 2} (omega arith) {i = k} {j = 31} v.small,
            full,
          )))
        refl

-- No submission closes the ring.
pub ring_fd-submit_raw :
    (strerror : ℕ → String) (state : State) (sqe : Sqe) (user_data : ℕ) (answer : Answer)
    → (submit_raw strerror state sqe user_data answer).1.ring_fd ≡ state.ring_fd
unfolding submit_raw
ring_fd-submit_raw strerror state sqe user_data answer =
    elim (Bool-cases (leb state.sq.ring_entries (sub32 state.sq.tail state.sq.head))) [
      | inl e ↦ rw e refl
      | inr e ↦ rw e refl
    ]
