-- ===== src/Crc/Linear.antt =====
-- The bit loop of the CRC is linear over exclusive or; hence the table lookup is eight rounds of
-- it, and a chunk of several bytes can be divided at once.
use storage_engine.Base.{
  ℕ, zero, suc, ◌+◌, ◌*◌, ◌/◌, ◌%◌, ◌^◌, ◌<◌, bit_xor, ◌≡◌, refl, sym, ap, ap₂, ◌∙◌, ◌⊎◌, inl, inr,
  arith, [], ◌∷◌, ◌++◌, length, get_or, All,
}
use storage_engine.Base.Xor.{
  xor-zero, xor_assoc, xor_comm, xor_half, xor_low, xor_exchange, xor_high, xor_shift, xor-lt,
}
use storage_engine.Bytes.{ByteString}
use storage_engine.Crc.{
  polynomial, crc_bit, crc_bits, table_loop, make_crc32c_table, crc32c_table,
  extend_crc32c_software, le_value,
}
use native.Mathlib.Nat.{pow-suc}

abbrev pub IsByte : ℕ → Type 0
IsByte b = b < 256

pub bit_cases : (a : ℕ) → (a % 2 ≡ 0) ⊎ (a % 2 ≡ 1)
bit_cases a = omega arith

-- The mask selects the polynomial when the lowest bit is set.
pub crc_bit_lem : (x : ℕ) → crc_bit x ≡ bit_xor (x / 2) (polynomial * (x % 2))
unfolding crc_bit
crc_bit_lem x = elim (bit_cases x) [ inl p ↦ rw p | inr p ↦ rw p ]

term_xor :
    (a b : ℕ)
    → polynomial * (bit_xor a b % 2) ≡ bit_xor (polynomial * (a % 2)) (polynomial * (b % 2))
term_xor a b = elim (bit_cases a) [
  | inl p ↦ elim (bit_cases b) [
    | inl q ↦ let e : bit_xor a b % 2 ≡ 0 = omega (arith, xor_low a b) in rw (p, q, e)
    | inr q ↦ let e : bit_xor a b % 2 ≡ 1 = omega (arith, xor_low a b) in rw (p, q, e)
  ]
  | inr p ↦ elim (bit_cases b) [
    | inl q ↦ let e : bit_xor a b % 2 ≡ 1 = omega (arith, xor_low a b) in rw (p, q, e)
    | inr q ↦ let e : bit_xor a b % 2 ≡ 0 = omega (arith, xor_low a b) in rw (p, q, e)
  ]
]

crc_bit-xor : (a b : ℕ) → crc_bit (bit_xor a b) ≡ bit_xor (crc_bit a) (crc_bit b)
crc_bit-xor a b =
    rw (crc_bit_lem (bit_xor a b), crc_bit_lem a, crc_bit_lem b, xor_half a b, term_xor a b)
      (xor_exchange (a / 2) (b / 2) (polynomial * (a % 2)) (polynomial * (b % 2)))

pub crc_bits-xor : (n a b : ℕ) → crc_bits n (bit_xor a b) ≡ bit_xor (crc_bits n a) (crc_bits n b)
unfolding crc_bits
crc_bits-xor zero a b = refl
crc_bits-xor (suc n) a b =
    ap (crc_bits n) (crc_bit-xor a b) ∙ crc_bits-xor n (crc_bit a) (crc_bit b)

crc_bit_double : (q : ℕ) → crc_bit (2 * q) ≡ q
crc_bit_double q =
    crc_bit_lem (2 * q) ∙ ap₂ (λ (s t : ℕ). bit_xor s (polynomial * t)) half low ∙ xor-zero q
  where
    half : 2 * q / 2 ≡ q
    half = omega arith

    low : 2 * q % 2 ≡ 0
    low = omega arith

-- Zero bits below the number are shifted out.
pub crc_bits_shift : (n q : ℕ) → crc_bits n (q * 2 ^ n) ≡ q
unfolding crc_bits
crc_bits_shift zero q = omega arith
crc_bits_shift (suc n) q =
    ap (λ (t : ℕ). crc_bits n (crc_bit t)) (omega (arith, ap (λ (t : ℕ). q * t) (pow-suc 2 n)))
    ∙ ap (crc_bits n) (crc_bit_double (q * 2 ^ n))
    ∙ crc_bits_shift n q

pub crc_bits-add : (m n x : ℕ) → crc_bits (m + n) x ≡ crc_bits n (crc_bits m x)
unfolding crc_bits
crc_bits-add zero n x = let e : 0 + n ≡ n = omega arith in ap (λ (t : ℕ). crc_bits t x) e
crc_bits-add (suc m) n x =
    ap (λ (t : ℕ). crc_bits t x) (let e : suc m + n ≡ suc (m + n) = omega arith in e)
    ∙ crc_bits-add m n (crc_bit x)

pub crc_bit-lt : (x : ℕ) → x < 2 ^ 32 → crc_bit x < 2 ^ 32
crc_bit-lt x h =
    rw (crc_bit_lem x) (xor-lt 32 (x / 2) (polynomial * (x % 2)) (omega arith) (omega arith))

pub crc_bits-lt : (n x : ℕ) → x < 2 ^ 32 → crc_bits n x < 2 ^ 32
unfolding crc_bits
crc_bits-lt zero x h = h
crc_bits-lt (suc n) x h = crc_bits-lt n (crc_bit x) (crc_bit-lt x h)

get_or-table_loop : (left i j : ℕ) → j < left → get_or (table_loop left i) j 0 ≡ crc_bits 8 (i + j)
unfolding table_loop
get_or-table_loop zero i j h = absurd (omega arith)
get_or-table_loop (suc left) i zero h = ap (crc_bits 8) (omega arith)
get_or-table_loop (suc left) i (suc j) h =
    get_or-table_loop left (i + 1) j (omega arith) ∙ ap (crc_bits 8) (omega arith)

pub get_or-crc32c_table : (i : ℕ) → i < 256 → get_or crc32c_table i 0 ≡ crc_bits 8 i
unfolding crc32c_table make_crc32c_table
get_or-crc32c_table i h = get_or-table_loop 256 0 i h ∙ ap (crc_bits 8) (omega arith)

-- Split a number at bit `k`.
split_xor : (x : ℕ) → x ≡ bit_xor (x % 256) (x / 256 * 2 ^ 8)
split_xor x = sym (xor_high 8 (x % 256) (x / 256) (omega arith) ∙ omega arith)

-- One table lookup does eight rounds of the bit loop.
pub table_round : (x : ℕ) → bit_xor (x / 2 ^ 8) (get_or crc32c_table (x % 256) 0) ≡ crc_bits 8 x
table_round x =
    ap (bit_xor (x / 2 ^ 8)) (get_or-crc32c_table (x % 256) (omega arith))
    ∙ xor_comm (x / 2 ^ 8) (crc_bits 8 (x % 256))
    ∙ ap (bit_xor (crc_bits 8 (x % 256))) (sym (crc_bits_shift 8 (x / 256)))
    ∙ sym (crc_bits-xor 8 (x % 256) (x / 256 * 2 ^ 8))
    ∙ ap (crc_bits 8) (sym (split_xor x))

-- The CRC a byte at a time, eight rounds of the bit loop for each.
unfoldable pub crc_bytes : ℕ → ByteString → ℕ
crc_bytes crc [] = crc
crc_bytes crc (byte ∷ bytes) = crc_bytes (crc_bits 8 (bit_xor crc byte)) bytes

high_of_xor : (crc byte : ℕ) → IsByte byte → bit_xor crc byte / 2 ^ 8 ≡ crc / 2 ^ 8
high_of_xor crc byte h =
    let e : byte / 2 ^ 8 ≡ 0 = omega arith in
    xor_shift 8 crc byte ∙ ap (bit_xor (crc / 2 ^ 8)) e ∙ xor-zero (crc / 2 ^ 8)

-- The table-driven loop computes the CRC bit by bit.
pub extend_crc32c_software-eq-crc_bytes :
    (crc : ℕ) (bytes : ByteString)
    → All IsByte bytes
    → extend_crc32c_software crc bytes ≡ crc_bytes crc bytes
unfolding extend_crc32c_software crc_bytes
extend_crc32c_software-eq-crc_bytes crc [] h = refl
extend_crc32c_software-eq-crc_bytes crc (byte ∷ bytes) (hb, hbs) =
    ap
      (λ (t : ℕ).
        extend_crc32c_software (bit_xor t (get_or crc32c_table (bit_xor crc byte % 256) 0)) bytes)
      (sym (high_of_xor crc byte hb))
    ∙ ap (λ (t : ℕ). extend_crc32c_software t bytes) (table_round (bit_xor crc byte))
    ∙ extend_crc32c_software-eq-crc_bytes (crc_bits 8 (bit_xor crc byte)) bytes hbs

pub crc_bytes-append :
    (crc : ℕ) (xs ys : ByteString) → crc_bytes crc (xs ++ ys) ≡ crc_bytes (crc_bytes crc xs) ys
unfolding crc_bytes
crc_bytes-append crc [] ys = refl
crc_bytes-append crc (x ∷ xs) ys = crc_bytes-append (crc_bits 8 (bit_xor crc x)) xs ys

pub crc_bytes-lt :
    (crc : ℕ) (bytes : ByteString) → All IsByte bytes → crc < 2 ^ 32 → crc_bytes crc bytes < 2 ^ 32
unfolding crc_bytes
crc_bytes-lt crc [] h hc = hc
crc_bytes-lt crc (byte ∷ bytes) (hb, hbs) hc =
    crc_bytes-lt (crc_bits 8 (bit_xor crc byte)) bytes hbs
      (crc_bits-lt 8 (bit_xor crc byte) (xor-lt 32 crc byte hc (omega arith)))

-- Dividing a chunk of bytes at once, lowest byte first, is dividing them one after the other.
pub crc_bits-chunk :
    (crc : ℕ) (bytes : ByteString)
    → All IsByte bytes
    → crc_bits (length bytes * 8) (bit_xor crc (le_value bytes)) ≡ crc_bytes crc bytes
unfolding crc_bytes
crc_bits-chunk crc [] h = unfold crc_bits in xor-zero crc
crc_bits-chunk crc (byte ∷ bytes) (hb, hbs) =
    ap₂ crc_bits rounds (ap (bit_xor crc) chunk ∙ sym (xor_assoc crc byte (le_value bytes * 2 ^ 8)))
    ∙ crc_bits-add 8 (length bytes * 8) _
    ∙ ap (crc_bits (length bytes * 8)) (
        crc_bits-xor 8 (bit_xor crc byte) (le_value bytes * 2 ^ 8)
        ∙ ap (bit_xor (crc_bits 8 (bit_xor crc byte))) (crc_bits_shift 8 (le_value bytes)))
    ∙ crc_bits-chunk (crc_bits 8 (bit_xor crc byte)) bytes hbs
  where
    rounds : suc (length bytes) * 8 ≡ 8 + length bytes * 8
    rounds = omega arith

    chunk : byte + 256 * le_value bytes ≡ bit_xor byte (le_value bytes * 2 ^ 8)
    chunk = omega (arith, xor_high 8 byte (le_value bytes) hb)
