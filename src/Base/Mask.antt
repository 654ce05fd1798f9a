-- ===== src/Base/Mask.antt =====
-- `x & (2 ^ k - 1)`, and positions that go round a ring whose size is a power of two.
use Prim.Native.Nat.{bit_and, bit_and-bitwise, min}
use Prim.Native.Nat.{ℕ, zero, suc, ◌+◌, ◌-◌, ◌*◌, ◌/◌, ◌%◌, ◌^◌, ◌≤◌, ◌<◌, ◌∣◌}
use mathlib.Core.Path.{◌≡◌, sym, ap, subst, ◌∙◌}
use mathlib.Core.Logic.{◌≢◌}
use native.Mathlib.Nat.{
  pow-suc, mod-lt, mod-mod_of_dvd, mod-eq_of_lt, mod-eq-sub-mod, div-add-mod, mul-add-mod_self_left,
  mod-one, dvd-mul_left, mod-add-mod,
}
use native.Mathlib.Decide.{dec_lt}
use native.Mathlib.Omega.{arith}
use storage_engine.Base.Bits.{bitwise-suc}

and_digit : (x y : ℕ) → bit_and x y ≡ bit_and (x / 2) (y / 2) * 2 + min (x % 2) (y % 2)
and_digit zero y = bit_and-bitwise 0 y ∙ omega (arith, bit_and-bitwise 0 (y / 2))
and_digit (suc x) y =
    bit_and-bitwise (suc x) y
    ∙ bitwise-suc (λ t. 0) min x y
    ∙ ap (λ (t : ℕ). t * 2 + min (suc x % 2) (y % 2)) (sym (bit_and-bitwise (suc x / 2) (y / 2)))

and_zero_fuel : (fuel x : ℕ) → x ≤ fuel → bit_and x 0 ≡ 0
and_zero_fuel fuel zero h = bit_and-bitwise 0 0
and_zero_fuel zero (suc x) h = absurd (omega arith)
and_zero_fuel (suc fuel) (suc x) h =
    omega (arith, and_digit (suc x) 0, and_zero_fuel fuel (suc x / 2) (omega arith))

pub pow-pos : (k : ℕ) → 0 < 2 ^ k
pow-pos zero = omega arith
pow-pos (suc k) = omega (arith, pow-suc 2 k, pow-pos k)

mod_double : (x p : ℕ) → 0 < p → x % (2 * p) ≡ x / 2 % p * 2 + x % 2
mod_double x p h =
    ap (λ (t : ℕ). t % (2 * p)) parts
    ∙ mul-add-mod_self_left (2 * p) (x / 2 / p) (x / 2 % p * 2 + x % 2)
    ∙ mod-eq_of_lt (omega (arith, mod-lt (x / 2) h))
  where
    parts : x ≡ 2 * p * (x / 2 / p) + (x / 2 % p * 2 + x % 2)
    parts = grind (arith, div-add-mod (x / 2) p)

-- The mask of a ring of `2 ^ k` entries takes the remainder.
pub bit_and_mask : (k x : ℕ) → bit_and x (2 ^ k - 1) ≡ x % 2 ^ k
bit_and_mask zero x = and_zero_fuel x x (omega arith) ∙ sym (mod-one x)
bit_and_mask (suc k) x =
    and_digit x (2 ^ suc k - 1)
    ∙ omega (
      arith,
      pow-suc 2 k,
      pow-pos k,
      ap (bit_and (x / 2)) half,
      bit_and_mask k (x / 2),
      mod_double x (2 ^ k) (pow-pos k),
      ap (λ (t : ℕ). x % t) double,
    )
  where
    half : (2 ^ suc k - 1) / 2 ≡ 2 ^ k - 1
    half = omega (arith, pow-suc 2 k, pow-pos k)

    double : 2 ^ suc k ≡ 2 * 2 ^ k
    double = omega (arith, pow-suc 2 k)

pow_split : (k d : ℕ) → 2 ^ (k + d) ≡ 2 ^ d * 2 ^ k
pow_split k zero = ap (λ (t : ℕ). 2 ^ t) {y = k} (omega arith) ∙ omega arith
pow_split k (suc d) =
    ap (λ (t : ℕ). 2 ^ t) {y = suc (k + d)} (omega arith)
    ∙ grind (arith, pow-suc 2 (k + d), pow-suc 2 d, pow_split k d)

-- A counter of 32 bits that wraps stays in step with the ring.
pub wrap-mask : (k x : ℕ) → k ≤ 32 → x % 2 ^ 32 % 2 ^ k ≡ x % 2 ^ k
wrap-mask k x h = mod-mod_of_dvd (2 ^ k) x (
    subst (λ (t : ℕ). 2 ^ k ∣ t) (sym (whole ∙ pow_split k (32 - k)))
      (dvd-mul_left (2 ^ k) (2 ^ (32 - k))))
  where
    whole : 2 ^ 32 ≡ 2 ^ (k + (32 - k))
    whole = ap (λ (t : ℕ). 2 ^ t) {x = 32} (omega (arith, h))

-- Fewer steps than the size of a ring do not come back to the start.
pub around-ne : (m x d : ℕ) → 0 < d → d < m → (x + d) % m ≢ x % m
around-ne m x d pos less same = elim (dec_lt (x % m + d) m) [
  | yes fits ↦ omega (arith, moved, same, mod-eq_of_lt fits)
  | no wraps ↦ omega (
    arith,
    moved,
    same,
    mod-eq-sub-mod {n = x % m + d} {m = m} (omega arith),
    mod-eq_of_lt {n = x % m + d - m} {m = m} (omega (arith, mod-lt x {m = m} (omega arith))),
  )
]
  where
    moved : (x + d) % m ≡ (x % m + d) % m
    moved = sym (mod-add-mod x m d)
