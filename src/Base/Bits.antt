-- ===== src/Base/Bits.antt =====
-- `|` of disjoint fields and the laws of `^` at variables, from the recursion on binary digits
-- that the native operations stand for.
use Prim.Native.Nat.{digits, bitwise, bit_or-bitwise}
use Prim.Native.Nat.{ℕ, zero, suc, ◌+◌, ◌-◌, ◌*◌, ◌/◌, ◌%◌, ◌^◌, ◌≤◌, ◌<◌, max, bit_or}
use mathlib.Core.Path.{◌≡◌, refl, ap, ◌∙◌}
use native.Mathlib.Nat.{pow-suc}
use native.Mathlib.Omega.{arith}

-- Fuel above the first operand is not used.
module _ (rest : ℕ → ℕ) (op : ℕ → ℕ → ℕ) where
  digits-suc : (x y n : ℕ) → x ≤ n → digits rest op (suc n) x y ≡ digits rest op n x y
  digits-suc zero y zero h = refl
  digits-suc zero y (suc n) h = refl
  digits-suc (suc x) y zero h = absurd (omega arith)
  digits-suc (suc x) y (suc n) h =
      ap (λ (t : ℕ). t * 2 + op (suc x % 2) (y % 2))
        (digits-suc (suc x / 2) (y / 2) n (omega arith))

  digits-add : (extra x y n : ℕ) → x ≤ n → digits rest op (n + extra) x y ≡ digits rest op n x y
  digits-add zero x y n h = ap (λ (k : ℕ). digits rest op k x y) (omega arith)
  digits-add (suc extra) x y n h =
      ap (λ (k : ℕ). digits rest op k x y) {y = suc (n + extra)} (omega arith)
      ∙ digits-suc x y (n + extra) (omega arith)
      ∙ digits-add extra x y n h

  -- The lowest digit of an operation, and the operation on the other digits.
  pub bitwise-suc :
      (x y : ℕ)
      → bitwise rest op (suc x) y ≡ bitwise rest op (suc x / 2) (y / 2) * 2 + op (suc x % 2) (y % 2)
  bitwise-suc x y =
      ap (λ (t : ℕ). t * 2 + op (suc x % 2) (y % 2))
        (ap (λ (k : ℕ). digits rest op k (suc x / 2) (y / 2)) (omega arith)
          ∙ digits-add (x - suc x / 2) (suc x / 2) (y / 2) (suc x / 2) (omega arith))

or_digit : (x y : ℕ) → bit_or x y ≡ bit_or (x / 2) (y / 2) * 2 + max (x % 2) (y % 2)
or_digit zero y = simp bit_or-bitwise (omega arith)
or_digit (suc x) y = simp bit_or-bitwise (bitwise-suc (λ t. t) max x y)

-- `x | (q << k)` is a sum when `x` fits `k` bits.
pub bit_or_high : (k x q : ℕ) → x < 2 ^ k → bit_or x (q * 2 ^ k) ≡ x + q * 2 ^ k
bit_or_high zero x q h = let e : x ≡ 0 = omega arith in rw e (simp bit_or-bitwise (omega arith))
bit_or_high (suc k) x q h = ground (
  arith,
  or_digit x (q * 2 ^ suc k),
  ap (λ (t : ℕ). q * t) (pow-suc 2 k),
  pow-suc 2 k,
  bit_or_high k (x / 2) q (omega (arith, pow-suc 2 k)),
)
