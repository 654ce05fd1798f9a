-- ===== src/Base/Xor.antt =====
-- The laws of `^` on the native numbers: an abelian group that shifts distribute over.
use Prim.Native.Nat.{bit_xor-bitwise, differ}
use Prim.Native.Nat.{ℕ, zero, suc, ◌+◌, ◌*◌, ◌/◌, ◌%◌, ◌^◌, ◌≤◌, ◌<◌, bit_xor}
use mathlib.Core.Path.{◌≡◌, refl, ap, ap₂, sym, ◌∙◌}
use mathlib.Core.Logic.{◌⊎◌, inl, inr}
use native.Mathlib.Nat.{pow-suc, div-one, div-div-eq-div-mul}
use native.Mathlib.Omega.{arith}
use storage_engine.Base.Bits.{bitwise-suc}

pub zero-xor : (b : ℕ) → bit_xor 0 b ≡ b
zero-xor b = bit_xor-bitwise 0 b

pub xor_step : (a b : ℕ) → bit_xor a b ≡ bit_xor (a / 2) (b / 2) * 2 + differ (a % 2) (b % 2)
xor_step zero b = bit_xor-bitwise 0 b ∙ omega (arith, bit_xor-bitwise 0 (b / 2))
xor_step (suc a) b =
    bit_xor-bitwise (suc a) b
    ∙ bitwise-suc (λ t. t) differ a b
    ∙ ap (λ (t : ℕ). t * 2 + differ (suc a % 2) (b % 2)) (sym (bit_xor-bitwise (suc a / 2) (b / 2)))

bit_cases : (a : ℕ) → (a % 2 ≡ 0) ⊎ (a % 2 ≡ 1)
bit_cases a = omega arith

-- The lowest digit of an exclusive or is the sum without carry.
differ_bits : (a b : ℕ) → differ (a % 2) (b % 2) ≡ (a + b) % 2
differ_bits a b = elim (bit_cases a) [
  | inl p ↦ rw p (omega arith)
  | inr p ↦ elim (bit_cases b) [ inl q ↦ rw (p, q) (omega arith) | inr q ↦ rw (p, q) (omega arith) ]
]

pub xor_digit : (a b : ℕ) → bit_xor a b ≡ bit_xor (a / 2) (b / 2) * 2 + (a + b) % 2
xor_digit a b = omega (arith, xor_step a b, differ_bits a b)

pub xor_half : (a b : ℕ) → bit_xor a b / 2 ≡ bit_xor (a / 2) (b / 2)
xor_half a b = omega (arith, xor_digit a b)

pub xor_low : (a b : ℕ) → bit_xor a b % 2 ≡ (a + b) % 2
xor_low a b = omega (arith, xor_digit a b)

xor_comm_fuel : (n a b : ℕ) → a + b ≤ n → bit_xor a b ≡ bit_xor b a
xor_comm_fuel zero zero zero h = refl
xor_comm_fuel zero (suc a) b h = absurd (omega arith)
xor_comm_fuel zero zero (suc b) h = absurd (omega arith)
xor_comm_fuel (suc n) zero zero h = refl
xor_comm_fuel (suc n) zero (suc b) h = omega (
  arith,
  xor_digit 0 (suc b),
  xor_digit (suc b) 0,
  xor_comm_fuel n (0 / 2) (suc b / 2) (omega arith),
)
xor_comm_fuel (suc n) (suc a) b h = omega (
  arith,
  xor_digit (suc a) b,
  xor_digit b (suc a),
  xor_comm_fuel n (suc a / 2) (b / 2) (omega arith),
)

pub xor_comm : (a b : ℕ) → bit_xor a b ≡ bit_xor b a
xor_comm a b = xor_comm_fuel (a + b) a b (omega arith)

pub xor-zero : (a : ℕ) → bit_xor a 0 ≡ a
xor-zero a = xor_comm a 0 ∙ zero-xor a

xor_assoc_fuel : (n a b c : ℕ) → a ≤ n → bit_xor (bit_xor a b) c ≡ bit_xor a (bit_xor b c)
xor_assoc_fuel n zero b c h = rw (zero-xor b) (sym (zero-xor (bit_xor b c)))
xor_assoc_fuel zero (suc a) b c h = absurd (omega arith)
xor_assoc_fuel (suc n) (suc a) b c h = omega (
  arith,
  xor_digit (bit_xor (suc a) b) c,
  xor_digit (suc a) (bit_xor b c),
  ap (λ (t : ℕ). bit_xor t (c / 2)) (xor_half (suc a) b),
  ap (bit_xor (suc a / 2)) (xor_half b c),
  xor_low (suc a) b,
  xor_low b c,
  xor_assoc_fuel n (suc a / 2) (b / 2) (c / 2) (omega arith),
)

pub xor_assoc : (a b c : ℕ) → bit_xor (bit_xor a b) c ≡ bit_xor a (bit_xor b c)
xor_assoc a b c = xor_assoc_fuel a a b c (omega arith)

xor_self_fuel : (n a : ℕ) → a ≤ n → bit_xor a a ≡ 0
xor_self_fuel n zero h = refl
xor_self_fuel zero (suc a) h = absurd (omega arith)
xor_self_fuel (suc n) (suc a) h =
    omega (arith, xor_digit (suc a) (suc a), xor_self_fuel n (suc a / 2) (omega arith))

pub xor_self : (a : ℕ) → bit_xor a a ≡ 0
xor_self a = xor_self_fuel a a (omega arith)

-- Two operands change places across a third.
pub xor_exchange :
    (a b c d : ℕ) → bit_xor (bit_xor a b) (bit_xor c d) ≡ bit_xor (bit_xor a c) (bit_xor b d)
xor_exchange a b c d =
    xor_assoc a b (bit_xor c d)
    ∙ ap (bit_xor a)
        (sym (xor_assoc b c d) ∙ ap (λ (t : ℕ). bit_xor t d) (xor_comm b c) ∙ xor_assoc c b d)
    ∙ sym (xor_assoc a c (bit_xor b d))

-- Exclusive or of disjoint fields is a sum.
pub xor_high : (k x q : ℕ) → x < 2 ^ k → bit_xor x (q * 2 ^ k) ≡ x + q * 2 ^ k
xor_high zero x q h = let e : x ≡ 0 = omega arith in rw e (zero-xor (q * 1) ∙ omega arith)
xor_high (suc k) x q h = omega (
  arith,
  xor_digit x (q * 2 ^ suc k),
  ap (bit_xor (x / 2)) half_high,
  ap (λ (t : ℕ). q * t) (pow-suc 2 k),
  xor_high k (x / 2) q (omega (arith, pow-suc 2 k)),
)
  where
    half_high : q * 2 ^ suc k / 2 ≡ q * 2 ^ k
    half_high = omega (arith, ap (λ (t : ℕ). q * t) (pow-suc 2 k))

half-shift : (k a : ℕ) → a / 2 ^ suc k ≡ a / 2 / 2 ^ k
half-shift k a =
    ap (λ (t : ℕ). a / t) (omega (arith, pow-suc 2 k)) ∙ sym (div-div-eq-div-mul a 2 (2 ^ k))

-- Shifting right distributes, at every amount.
pub xor_shift : (k a b : ℕ) → bit_xor a b / 2 ^ k ≡ bit_xor (a / 2 ^ k) (b / 2 ^ k)
xor_shift zero a b =
    div-one (bit_xor a b) ∙ sym (ap₂ (λ (s t : ℕ). bit_xor s t) (div-one a) (div-one b))
xor_shift (suc k) a b =
    rw (half-shift k (bit_xor a b), half-shift k a, half-shift k b, xor_half a b)
      (xor_shift k (a / 2) (b / 2))

-- Bits above both operands stay clear.
pub xor-lt : (k a b : ℕ) → a < 2 ^ k → b < 2 ^ k → bit_xor a b < 2 ^ k
xor-lt zero a b ha hb =
    let ea : a ≡ 0 = omega arith in let eb : b ≡ 0 = omega arith in rw (ea, eb) (omega arith)
xor-lt (suc k) a b ha hb = omega (
  arith,
  xor_digit a b,
  pow-suc 2 k,
  xor-lt k (a / 2) (b / 2) (omega (arith, pow-suc 2 k)) (omega (arith, pow-suc 2 k)),
)
