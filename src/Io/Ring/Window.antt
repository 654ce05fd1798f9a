-- ===== src/Io/Ring/Window.antt =====
-- The entries between the head and the tail of the submission ring, as the kernel reads them.
use Prim.Native.Nat.{bit_and}
use storage_engine.Base.{
  ℕ, zero, suc, ◌+◌, ◌-◌, ◌%◌, ◌^◌, ◌≤◌, ◌<◌, ◌≡◌, ◌≢◌, refl, sym, ap, ap₂, subst, ◌∙◌, arith, List,
  [], ◌∷◌, ◌++◌, length, get_or, set, length-set, get_or-set_self, get_or-set_ne,
}
use storage_engine.Base.Mask.{pow-pos, bit_and_mask, wrap-mask, around-ne}
use native.Mathlib.Decide.{dec_lt}
use native.Mathlib.Nat.{mod-add-mod, mod-lt, pow-le-pow_right}
use storage_engine.Io.Ring.{Sqe, no_sqe, SubmissionRing, add32, sub32, put_sqe}

-- The entry that the array names at a position.
abbrev pub entry_at : SubmissionRing → ℕ → Sqe
entry_at sq at = get_or sq.sqes (get_or sq.array (bit_and at sq.ring_mask) 0) no_sqe

abbrev pub pending_loop : SubmissionRing → (count at : ℕ) → List Sqe
pending_loop sq zero at = []
pending_loop sq (suc count) at = entry_at sq at ∷ pending_loop sq count (add32 at 1)

abbrev pub pending : SubmissionRing → List Sqe
pending sq = pending_loop sq (sub32 sq.tail sq.head) sq.head

-- A ring of `2 ^ k` entries as the kernel sets it up, in which every pending slot names the entry
-- of its own index.
pub record IsRing (k : ℕ) (sq : SubmissionRing) : Type 0 where
  pub small : k ≤ 31
  pub entries : sq.ring_entries ≡ 2 ^ k
  pub mask : sq.ring_mask ≡ 2 ^ k - 1
  pub array_size : length sq.array ≡ 2 ^ k
  pub sqes_size : length sq.sqes ≡ 2 ^ k
  pub head_fits : sq.head < 2 ^ 32
  pub tail_fits : sq.tail < 2 ^ 32
  pub holds : sub32 sq.tail sq.head ≤ 2 ^ k
  pub named :
      (i : ℕ)
      → i < sub32 sq.tail sq.head
      → get_or sq.array ((sq.head + i) % 2 ^ k) 0 ≡ (sq.head + i) % 2 ^ k

-- The same entries at positions that do not wrap.
unfoldable pub window : List Sqe → (size count at : ℕ) → List Sqe
window sqes size zero at = []
window sqes size (suc count) at = get_or sqes (at % size) no_sqe ∷ window sqes size count (at + 1)

window-snoc :
    (sqes : List Sqe) (size count at : ℕ)
    → window sqes size (suc count) at
      ≡ window sqes size count at ++ (get_or sqes ((at + count) % size) no_sqe ∷ [])
unfolding window
window-snoc sqes size zero at =
    ap (λ (t : ℕ). get_or sqes (t % size) no_sqe ∷ []) {x = at} (omega arith)
window-snoc sqes size (suc count) at = ap (◌∷◌ (get_or sqes (at % size) no_sqe)) (
    window-snoc sqes size count (at + 1)
    ∙ ap (λ (t : ℕ). window sqes size count (at + 1) ++ (get_or sqes (t % size) no_sqe ∷ []))
        {x = at + 1 + count} {y = at + suc count} (omega arith))

-- A write at a position behind the window, less than one round from its start.
window-set :
    (sqes : List Sqe) (size count at q : ℕ) (sqe : Sqe)
    → at + count ≤ q
    → q < at + size
    → window (set sqes (q % size) sqe) size count at ≡ window sqes size count at
unfolding window
window-set sqes size zero at q sqe lo hi = refl
window-set sqes size (suc count) at q sqe lo hi =
    ap₂ ◌∷◌
      (get_or-set_ne sqes (q % size) (at % size) sqe no_sqe (λ e.
        around-ne size at (q - at) (omega arith) (omega arith)
          (ap (λ (t : ℕ). t % size) (omega arith) ∙ e)))
      (window-set sqes size count (at + 1) q sqe (omega arith) (omega arith))

pub pending_loop-window :
    (k : ℕ) (sq : SubmissionRing) (count at p : ℕ)
    → k ≤ 31
    → sq.ring_mask ≡ 2 ^ k - 1
    → at % 2 ^ k ≡ p % 2 ^ k
    → ((i : ℕ) → i < count → get_or sq.array ((p + i) % 2 ^ k) 0 ≡ (p + i) % 2 ^ k)
    → pending_loop sq count at ≡ window sq.sqes (2 ^ k) count p
unfolding window
pending_loop-window k sq zero at p small mask same named = refl
pending_loop-window k sq (suc count) at p small mask same named =
    ap₂ ◌∷◌ (ap (λ (t : ℕ). get_or sq.sqes t no_sqe) (index ∙ start)) (
      pending_loop-window k sq count (add32 at 1) (p + 1) small mask
        (wrap-mask k (at + 1) (omega arith)
          ∙ sym (mod-add-mod at (2 ^ k) 1)
          ∙ ap (λ (t : ℕ). (t + 1) % 2 ^ k) same
          ∙ mod-add-mod p (2 ^ k) 1)
        (λ i h.
          subst (λ (t : ℕ). get_or sq.array (t % 2 ^ k) 0 ≡ t % 2 ^ k) (shift i)
            (named (suc i) (omega arith))))
  where
    index : get_or sq.array (bit_and at sq.ring_mask) 0 ≡ get_or sq.array (p % 2 ^ k) 0
    index = ap (λ (t : ℕ). get_or sq.array t 0) (ap (bit_and at) mask ∙ bit_and_mask k at ∙ same)

    start : get_or sq.array (p % 2 ^ k) 0 ≡ p % 2 ^ k
    start =
        subst (λ (t : ℕ). get_or sq.array (t % 2 ^ k) 0 ≡ t % 2 ^ k) {x = p + 0} (omega arith)
          (named 0 (omega arith))

    shift : (i : ℕ) → p + suc i ≡ p + 1 + i
    shift i = omega arith

-- One entry behind the pending ones: what a submission does to the ring.
abbrev pub publish : SubmissionRing → Sqe → SubmissionRing
publish sq sqe = record (put_sqe sq (bit_and sq.tail sq.ring_mask) sqe) { tail = add32 sq.tail 1 }

module _ (k : ℕ) (sq : SubmissionRing) (sqe : Sqe) (v : IsRing k sq)
    (room : sub32 sq.tail sq.head < 2 ^ k) where
  abbrev count : ℕ
  count = sub32 sq.tail sq.head

  -- The tail is `count` steps behind the head.
  tail_index : bit_and sq.tail sq.ring_mask ≡ (sq.head + count) % 2 ^ k
  tail_index =
      ap (bit_and sq.tail) v.mask
      ∙ bit_and_mask k sq.tail
      ∙ ap (λ (t : ℕ). t % 2 ^ k) {y = (sq.head + count) % 2 ^ 32}
          (omega (arith, v.tail_fits, v.head_fits))
      ∙ wrap-mask k (sq.head + count) (omega (arith, v.small))

  pub count-suc : sub32 (add32 sq.tail 1) sq.head ≡ suc count
  count-suc = omega (
    arith,
    v.head_fits,
    v.tail_fits,
    room,
    pow-le-pow_right {n = 2} (omega arith) {i = k} {j = 31} v.small,
  )

  tail_inside : bit_and sq.tail sq.ring_mask < length sq.array
  tail_inside =
      omega (arith, tail_index, v.array_size, mod-lt (sq.head + count) {m = 2 ^ k} (pow-pos k))

  publish-named :
      (i : ℕ)
      → i < suc count
      → get_or (publish sq sqe).array ((sq.head + i) % 2 ^ k) 0 ≡ (sq.head + i) % 2 ^ k
  unfolding put_sqe
  publish-named i h = elim (dec_lt i count) [
    | yes before ↦
        get_or-set_ne sq.array (bit_and sq.tail sq.ring_mask) ((sq.head + i) % 2 ^ k) _ 0
          (apart before)
        ∙ v.named i before
    | no last ↦
        ap
          (λ (t : ℕ).
            get_or (set sq.array (bit_and sq.tail sq.ring_mask) (bit_and sq.tail sq.ring_mask)) t 0)
          (here last)
        ∙ get_or-set_self sq.array (bit_and sq.tail sq.ring_mask) _ 0 tail_inside
        ∙ sym (here last)
  ]
    where
      apart : i < count → bit_and sq.tail sq.ring_mask ≢ (sq.head + i) % 2 ^ k
      apart before e =
          around-ne (2 ^ k) (sq.head + i) (count - i) (omega arith) (omega arith)
            (ap (λ (t : ℕ). t % 2 ^ k) {y = sq.head + count} (omega arith) ∙ sym tail_index ∙ e)

      here : ¬ (i < count) → (sq.head + i) % 2 ^ k ≡ bit_and sq.tail sq.ring_mask
      here last = ap (λ (t : ℕ). (sq.head + t) % 2 ^ k) {y = count} (omega arith) ∙ sym tail_index

  pub publish-IsRing : IsRing k (publish sq sqe)
  unfolding put_sqe
  publish-IsRing = record {
    small = v.small;
    entries = v.entries;
    mask = v.mask;
    array_size = length-set sq.array _ _ ∙ v.array_size;
    sqes_size = length-set sq.sqes _ _ ∙ v.sqes_size;
    head_fits = v.head_fits;
    tail_fits = omega arith;
    holds = omega (arith, count-suc, room);
    named = λ i h. publish-named i (omega (arith, h, count-suc));
  }

  pub pending-publish : pending (publish sq sqe) ≡ pending sq ++ (sqe ∷ [])
  unfolding put_sqe
  pending-publish =
      ap (λ (n : ℕ). pending_loop (publish sq sqe) n sq.head) count-suc
      ∙ pending_loop-window k (publish sq sqe) (suc count) sq.head sq.head v.small v.mask refl
          publish-named
      ∙ ap (λ (i : ℕ). window (set sq.sqes i sqe) (2 ^ k) (suc count) sq.head) tail_index
      ∙ window-snoc (set sq.sqes ((sq.head + count) % 2 ^ k) sqe) (2 ^ k) count sq.head
      ∙ ap₂ (λ (l : List Sqe) (e : Sqe). l ++ (e ∷ []))
          (window-set sq.sqes (2 ^ k) count sq.head (sq.head + count) sqe (omega arith)
              (omega (arith, room))
            ∙ sym (pending_loop-window k sq count sq.head sq.head v.small v.mask refl v.named))
          (get_or-set_self sq.sqes ((sq.head + count) % 2 ^ k) sqe no_sqe
            (omega (arith, v.sqes_size, mod-lt (sq.head + count) {m = 2 ^ k} (pow-pos k))))
