-- ===== src/Io/Ring/Kernel.antt =====
-- The kernel's side of the submission ring: it moves the head over the entries that it takes.
use storage_engine.Base.{
  ℕ, zero, suc, ◌+◌, ◌-◌, ◌%◌, ◌^◌, ◌<◌, min, ◌≡◌, refl, sym, ap, ap₂, subst, ◌∙◌, arith, List, [],
  drop, get_or,
}
use storage_engine.Base.Mask.{wrap-mask}
use native.Mathlib.Nat.{mod-add-mod}
use storage_engine.Io.Ring.{Sqe, SubmissionRing, add32, sub32}
use storage_engine.Io.Ring.Window.{pending_loop, pending, IsRing, window, pending_loop-window}

-- At most `n` entries, and no more than are pending.
abbrev pub take_entries : ℕ → SubmissionRing → SubmissionRing
take_entries n sq = record sq { head = add32 sq.head (min n (sub32 sq.tail sq.head)) }

same_window :
    (sqes : List Sqe) (size : ℕ) {c d p q : ℕ}
    → c ≡ d
    → p ≡ q
    → window sqes size c p ≡ window sqes size d q
same_window sqes size = ap₂ (window sqes size)

drop-window :
    (sqes : List Sqe) (size m count at : ℕ)
    → drop m (window sqes size count at) ≡ window sqes size (count - m) (at + m)
unfolding window
drop-window sqes size zero count at = same_window sqes size (omega arith) (omega arith)
drop-window sqes size (suc m) zero at =
    same_window sqes size {c = 0} {d = 0 - suc m} {q = at + suc m} (omega arith) refl
drop-window sqes size (suc m) (suc count) at =
    drop-window sqes size m count (at + 1) ∙ same_window sqes size (omega arith) (omega arith)

drop-all :
    (sqes : List Sqe) (size n count at : ℕ)
    → drop n (window sqes size count at) ≡ drop (min n count) (window sqes size count at)
unfolding window
drop-all sqes size zero count at =
    ap (λ (m : ℕ). drop m (window sqes size count at)) {x = 0} (omega arith)
drop-all sqes size (suc n) zero at =
    ap (λ (m : ℕ). drop {A = Sqe} m []) {x = 0} {y = min (suc n) 0} (omega arith)
drop-all sqes size (suc n) (suc count) at =
    drop-all sqes size n count (at + 1)
    ∙ ap (λ (m : ℕ). drop m (window sqes size (suc count) at)) {x = suc (min n count)}
        {y = min (suc n) (suc count)} (omega arith)

module _ (k : ℕ) (sq : SubmissionRing) (v : IsRing k sq) (n : ℕ) where
  abbrev count : ℕ
  count = sub32 sq.tail sq.head

  abbrev taken : ℕ
  taken = min n count

  left : sub32 sq.tail (add32 sq.head taken) ≡ count - taken
  left = omega (arith, v.head_fits, v.tail_fits)

  shifted :
      (i : ℕ)
      → i < count - taken
      → get_or sq.array ((sq.head + taken + i) % 2 ^ k) 0 ≡ (sq.head + taken + i) % 2 ^ k
  shifted i h =
      subst (λ (t : ℕ). get_or sq.array (t % 2 ^ k) 0 ≡ t % 2 ^ k) {x = sq.head + (taken + i)}
        (omega arith) (v.named (taken + i) (omega arith))

  in_step : add32 sq.head taken % 2 ^ k ≡ (sq.head + taken) % 2 ^ k
  in_step = wrap-mask k (sq.head + taken) (omega (arith, v.small))

  pub take_entries-IsRing : IsRing k (take_entries n sq)
  take_entries-IsRing = record {
    small = v.small;
    entries = v.entries;
    mask = v.mask;
    array_size = v.array_size;
    sqes_size = v.sqes_size;
    head_fits = omega arith;
    tail_fits = v.tail_fits;
    holds = omega (arith, left, v.holds);
    named = λ i h. same_slot i (shifted i (omega (arith, left, h)));
  }
    where
      same_slot :
          (i : ℕ)
          → get_or sq.array ((sq.head + taken + i) % 2 ^ k) 0 ≡ (sq.head + taken + i) % 2 ^ k
          → get_or sq.array ((add32 sq.head taken + i) % 2 ^ k) 0
            ≡ (add32 sq.head taken + i) % 2 ^ k
      same_slot i e =
          subst (λ (t : ℕ). get_or sq.array t 0 ≡ t)
            (sym (mod-add-mod (sq.head + taken) (2 ^ k) i)
              ∙ ap (λ (t : ℕ). (t + i) % 2 ^ k) (sym in_step)
              ∙ mod-add-mod (add32 sq.head taken) (2 ^ k) i)
            e

  pub pending-take_entries : pending (take_entries n sq) ≡ drop n (pending sq)
  pending-take_entries =
      ap (λ (c : ℕ). pending_loop (take_entries n sq) c (add32 sq.head taken)) left
      ∙ pending_loop-window k (take_entries n sq) (count - taken) (add32 sq.head taken)
          (sq.head + taken) v.small v.mask in_step shifted
      ∙ sym (drop-window sq.sqes (2 ^ k) taken count sq.head)
      ∙ sym (drop-all sq.sqes (2 ^ k) n count sq.head)
      ∙ ap (drop n)
          (sym (pending_loop-window k sq count sq.head sq.head v.small v.mask refl v.named))
