-- ===== src/Crc/Detect.antt =====
-- Which damage the CRC detects: any within four bytes in a row.
use storage_engine.Base.{
  ℕ, zero, suc, ◌-◌, ◌*◌, ◌/◌, ◌%◌, ◌^◌, ◌<◌, ◌≤◌, bit_xor, ◌≡◌, ◌≢◌, refl, sym, ap, ap₂, ◌∙◌, inl,
  inr, arith, [], ◌∷◌, ◌++◌, length, All, All-append,
}
use storage_engine.Base.Xor.{xor-zero, zero-xor, xor_assoc, xor_comm, xor_self, xor_shift, xor-lt}
use storage_engine.Bytes.{ByteString}
use storage_engine.Crc.{Cpu, polynomial, crc_bit, crc_bits, le_value, crc32c}
use storage_engine.Crc.Hardware.{IsSse42, crc32c-eq-software}
use storage_engine.Crc.Linear.{
  IsByte, bit_cases, crc_bit_lem, crc_bits-xor, crc_bits-lt, crc_bit-lt, crc_bytes,
  crc_bytes-append, crc_bytes-lt, crc_bits-chunk, extend_crc32c_software-eq-crc_bytes,
}

eq_of_xor : (a b : ℕ) → bit_xor a b ≡ 0 → a ≡ b
eq_of_xor a b h =
    sym (xor-zero a)
    ∙ ap (bit_xor a) (sym (xor_self b))
    ∙ sym (xor_assoc a b b)
    ∙ ap (λ (t : ℕ). bit_xor t b) h
    ∙ zero-xor b

xor_cancel : (c a b : ℕ) → bit_xor c a ≡ bit_xor c b → a ≡ b
xor_cancel c a b h = sym (back a) ∙ ap (bit_xor c) h ∙ back b
  where
    back : (x : ℕ) → bit_xor c (bit_xor c x) ≡ x
    back x = sym (xor_assoc c c x) ∙ ap (λ (t : ℕ). bit_xor t x) (xor_self c) ∙ zero-xor x

-- The highest bit of the polynomial is set, so no round of the bit loop loses a bit.
crc_bit_zero : (x : ℕ) → x < 2 ^ 32 → crc_bit x ≡ 0 → x ≡ 0
crc_bit_zero x h e = elim (bit_cases x) [
  | inl even ↦ omega (arith, even, halved even)
  | inr odd ↦
      absurd
        (omega (arith, ap (λ (t : ℕ). t / 2 ^ 31) (set odd), xor_shift 31 (x / 2) polynomial, top))
]
  where
    halved : x % 2 ≡ 0 → x / 2 ≡ 0
    halved even =
        sym (xor-zero (x / 2))
        ∙ ap (λ (t : ℕ). bit_xor (x / 2) (polynomial * t)) (sym even)
        ∙ sym (crc_bit_lem x)
        ∙ e

    set : x % 2 ≡ 1 → bit_xor (x / 2) polynomial ≡ 0
    set odd =
        ap (λ (t : ℕ). bit_xor (x / 2) (polynomial * t)) {x = 1} (sym odd) ∙ sym (crc_bit_lem x) ∙ e

    top : bit_xor (x / 2 / 2 ^ 31) (polynomial / 2 ^ 31) ≡ 1
    top = ap (λ (t : ℕ). bit_xor t (polynomial / 2 ^ 31)) {y = 0} (omega arith)

crc_bits_zero : (n x : ℕ) → x < 2 ^ 32 → crc_bits n x ≡ 0 → x ≡ 0
unfolding crc_bits
crc_bits_zero zero x h e = e
crc_bits_zero (suc n) x h e = crc_bit_zero x h (crc_bits_zero n (crc_bit x) (crc_bit-lt x h) e)

crc_bits_injective : (n x y : ℕ) → x < 2 ^ 32 → y < 2 ^ 32 → crc_bits n x ≡ crc_bits n y → x ≡ y
crc_bits_injective n x y hx hy e = eq_of_xor x y (
    crc_bits_zero n (bit_xor x y) (xor-lt 32 x y hx hy)
      (crc_bits-xor n x y ∙ ap (λ (t : ℕ). bit_xor t (crc_bits n y)) e ∙ xor_self (crc_bits n y)))

le_value-lt : (bytes : ByteString) → All IsByte bytes → length bytes ≤ 4 → le_value bytes < 2 ^ 32
le_value-lt [] h short = omega arith
le_value-lt (a ∷ []) (ha, h) short = omega arith
le_value-lt (a ∷ b ∷ []) (ha, (hb, h)) short = omega arith
le_value-lt (a ∷ b ∷ c ∷ []) (ha, (hb, (hc, h))) short = omega arith
le_value-lt (a ∷ b ∷ c ∷ d ∷ []) (ha, (hb, (hc, (hd, h)))) short = omega arith
le_value-lt (a ∷ b ∷ c ∷ d ∷ e ∷ bytes) h short = absurd (omega arith)

le_value_injective :
    (xs ys : ByteString)
    → All IsByte xs
    → All IsByte ys
    → length xs ≡ length ys
    → le_value xs ≡ le_value ys
    → xs ≡ ys
le_value_injective [] [] hx hy same e = refl
le_value_injective [] (y ∷ ys) hx hy same e = absurd (omega arith)
le_value_injective (x ∷ xs) [] hx hy same e = absurd (omega arith)
le_value_injective (x ∷ xs) (y ∷ ys) (hx, hxs) (hy, hys) same e =
    ap₂ ◌∷◌ (omega arith) (le_value_injective xs ys hxs hys (omega arith) (omega arith))

crc_bytes_injective :
    (bytes : ByteString) (c d : ℕ)
    → All IsByte bytes
    → c < 2 ^ 32
    → d < 2 ^ 32
    → crc_bytes c bytes ≡ crc_bytes d bytes
    → c ≡ d
unfolding crc_bytes
crc_bytes_injective [] c d h hc hd e = e
crc_bytes_injective (b ∷ bytes) c d (hb, h) hc hd e = xor_cancel b c d (
    xor_comm b c
    ∙ crc_bits_injective 8 (bit_xor c b) (bit_xor d b) (fits c hc) (fits d hd) (
        crc_bytes_injective bytes _ _ h (crc_bits-lt 8 _ (fits c hc)) (crc_bits-lt 8 _ (fits d hd))
          e)
    ∙ xor_comm d b)
  where
    fits : (x : ℕ) → x < 2 ^ 32 → bit_xor x b < 2 ^ 32
    fits x hx = xor-lt 32 x b hx (omega arith)

module _ (before behind xs ys : ByteString) (hb : All IsByte before) (hr : All IsByte behind)
    (hx : All IsByte xs) (hy : All IsByte ys) (same : length xs ≡ length ys)
    (short : length xs ≤ 4) where
  crc_bytes_burst :
      (c : ℕ)
      → c < 2 ^ 32
      → crc_bytes c (before ++ (xs ++ behind)) ≡ crc_bytes c (before ++ (ys ++ behind))
      → xs ≡ ys
  crc_bytes_burst c hc e =
      le_value_injective xs ys hx hy same (xor_cancel front (le_value xs) (le_value ys) chunk)
    where
      front : ℕ
      front = crc_bytes c before

      front-lt : front < 2 ^ 32
      front-lt = crc_bytes-lt c before hb hc

      middle : crc_bytes front xs ≡ crc_bytes front ys
      middle =
          crc_bytes_injective behind _ _ hr (crc_bytes-lt front xs hx front-lt)
            (crc_bytes-lt front ys hy front-lt)
            (sym (crc_bytes-append c before (xs ++ behind) ∙ crc_bytes-append front xs behind)
              ∙ e
              ∙ crc_bytes-append c before (ys ++ behind)
              ∙ crc_bytes-append front ys behind)

      chunk : bit_xor front (le_value xs) ≡ bit_xor front (le_value ys)
      chunk =
          crc_bits_injective (length xs * 8) _ _
            (xor-lt 32 front (le_value xs) front-lt (le_value-lt xs hx short))
            (xor-lt 32 front (le_value ys) front-lt
              (le_value-lt ys hy (omega (arith, same, short))))
            (crc_bits-chunk front xs hx
              ∙ middle
              ∙ sym (crc_bits-chunk front ys hy)
              ∙ ap (λ (n : ℕ). crc_bits (n * 8) (bit_xor front (le_value ys))) (sym same))

  -- Two byte strings that differ within four bytes in a row, and nowhere else, have two checksums.
  pub crc32c-burst :
      (cpu : Cpu)
      → IsSse42 cpu
      → xs ≢ ys
      → crc32c cpu (before ++ (xs ++ behind)) ≢ crc32c cpu (before ++ (ys ++ behind))
  crc32c-burst cpu sse differ e = differ (
      crc_bytes_burst 0xffffffff (omega arith)
        (omega (arith, e, value xs hx, value ys hy, fits xs hx, fits ys hy)))
    where
      parts : (zs : ByteString) → All IsByte zs → All IsByte (before ++ (zs ++ behind))
      parts zs hz = All-append IsByte before (zs ++ behind) hb (All-append IsByte zs behind hz hr)

      value :
          (zs : ByteString)
          → All IsByte zs
          → crc32c cpu (before ++ (zs ++ behind))
            ≡ 2 ^ 32 - 1 - crc_bytes 0xffffffff (before ++ (zs ++ behind))
      value zs hz =
          crc32c-eq-software cpu sse (before ++ (zs ++ behind)) (parts zs hz)
          ∙ ap (λ (t : ℕ). 2 ^ 32 - 1 - t)
              (extend_crc32c_software-eq-crc_bytes 0xffffffff (before ++ (zs ++ behind))
                (parts zs hz))

      fits :
          (zs : ByteString)
          → All IsByte zs
          → crc_bytes 0xffffffff (before ++ (zs ++ behind)) < 2 ^ 32
      fits zs hz = crc_bytes-lt 0xffffffff (before ++ (zs ++ behind)) (parts zs hz) (omega arith)
