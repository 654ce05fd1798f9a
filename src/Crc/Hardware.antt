-- ===== src/Crc/Hardware.antt =====
-- The loops over the SSE 4.2 instructions give the CRC of the software loop, whatever the length
-- of the input and however it splits into chunks of eight, four and one bytes.
use storage_engine.Base.{
  ℕ, zero, suc, ◌-◌, ◌*◌, ◌/◌, ◌%◌, ◌^◌, ◌≤◌, ◌<◌, bit_xor, ◌≡◌, refl, sym, ap, ◌∙◌, ◌⊎◌, inl, inr,
  arith, [], ◌∷◌, length, take, drop, length-take, take-append-drop, All, All-take, All-drop, leb,
  ◌==◌, if◌then◌else◌, Bool-cases, if_both, le_of_leb,
}
use storage_engine.Bytes.{ByteString}
use storage_engine.Crc.{
  polynomial, crc_bits, Cpu, le_value, u64_loop, u32_loop, u8_loop, extend_crc32c_hardware,
  extend_crc32c_software, crc32c,
}
use storage_engine.Crc.Linear.{
  IsByte, crc_bit_lem, crc_bytes, crc_bytes-append, crc_bytes-lt, crc_bits-chunk, crc_bits-lt,
  extend_crc32c_software-eq-crc_bytes,
}
use native.Mathlib.Nat.{mod-eq_of_lt, pow-suc}
use storage_engine.Base.Xor.{xor-zero, xor-lt}

-- Long division by the polynomial in reflected bit order: `n` bits of the dividend leave at the
-- low end.
pub divide : ℕ → ℕ → ℕ
divide zero x = x
divide (suc n) x = divide n (if x % 2 == 1 then bit_xor (x / 2) polynomial else x / 2)

-- What the processor manual documents of the three instructions: each divides the exclusive or of
-- the running CRC and its operand by the CRC-32C polynomial.
pub record IsSse42 (cpu : Cpu) : Type 0 where
  pub u8_divides :
      (crc byte : ℕ)
      → crc < 2 ^ 32
      → byte < 2 ^ 8
      → cpu.mm_crc32_u8 crc byte ≡ divide 8 (bit_xor crc byte)
  pub u32_divides :
      (crc chunk : ℕ)
      → crc < 2 ^ 32
      → chunk < 2 ^ 32
      → cpu.mm_crc32_u32 crc chunk ≡ divide 32 (bit_xor crc chunk)
  pub u64_divides :
      (crc chunk : ℕ)
      → crc < 2 ^ 32
      → chunk < 2 ^ 64
      → cpu.mm_crc32_u64 crc chunk ≡ divide 64 (bit_xor crc chunk)

bit_cases : (a : ℕ) → (a % 2 ≡ 0) ⊎ (a % 2 ≡ 1)
bit_cases a = omega arith

divide-eq-crc_bits : (n x : ℕ) → divide n x ≡ crc_bits n x
unfolding divide crc_bits
divide-eq-crc_bits zero x = refl
divide-eq-crc_bits (suc n) x =
    divide-eq-crc_bits n _ ∙ ap (crc_bits n) (sym (crc_bit_lem x ∙ selected))
  where
    selected :
        bit_xor (x / 2) (polynomial * (x % 2))
        ≡ (if x % 2 == 1 then bit_xor (x / 2) polynomial else x / 2)
    selected = elim (bit_cases x) [ inl p ↦ rw p (xor-zero (x / 2)) | inr p ↦ rw p ]

le_value-lt :
    (n : ℕ) (bytes : ByteString) → length bytes ≡ n → All IsByte bytes → le_value bytes < 256 ^ n
le_value-lt zero [] e h = omega arith
le_value-lt zero (b ∷ bytes) e h = absurd (omega arith)
le_value-lt (suc n) [] e h = absurd (omega arith)
le_value-lt (suc n) (b ∷ bytes) e (hb, hbs) =
    omega (arith, pow-suc 256 n, le_value-lt n bytes (omega arith) hbs)

exact : (n : ℕ) (bytes : ByteString) → n ≤ length bytes → length (take n bytes) ≡ n
exact n bytes h = omega (arith, length-take n bytes)

-- A state of the chunk loops from which the same CRC is reached.
abbrev Continues : ℕ → ByteString → ℕ × ByteString → Type 0
Continues crc bytes r = (crc_bytes r.0 r.1 ≡ crc_bytes crc bytes) × (r.0 < 2 ^ 32) × All IsByte r.1

take_chunk :
    (n crc : ℕ) (bytes : ByteString)
    → crc_bytes (crc_bytes crc (take n bytes)) (drop n bytes) ≡ crc_bytes crc bytes
take_chunk n crc bytes =
    sym (crc_bytes-append crc (take n bytes) (drop n bytes))
    ∙ ap (crc_bytes crc) (take-append-drop n bytes)

divide-chunk :
    (n crc : ℕ) (bytes : ByteString)
    → n ≤ length bytes
    → All IsByte bytes
    → divide (n * 8) (bit_xor crc (le_value (take n bytes))) ≡ crc_bytes crc (take n bytes)
divide-chunk n crc bytes h hb =
    divide-eq-crc_bits (n * 8) _
    ∙ ap (λ (t : ℕ). crc_bits (t * 8) (bit_xor crc (le_value (take n bytes))))
        (sym (exact n bytes h))
    ∙ crc_bits-chunk crc (take n bytes) (All-take IsByte n bytes hb)

module _ (cpu : Cpu) (sse : IsSse42 cpu) where
  u64_chunk :
      (crc : ℕ) (bytes : ByteString)
      → 8 ≤ length bytes
      → All IsByte bytes
      → crc < 2 ^ 32
      → cpu.mm_crc32_u64 crc (le_value (take 8 bytes)) % 2 ^ 32 ≡ crc_bytes crc (take 8 bytes)
  u64_chunk crc bytes h hb hc =
      ap (λ (t : ℕ). t % 2 ^ 32)
        (sse.u64_divides crc (le_value (take 8 bytes)) hc
            (le_value-lt 8 (take 8 bytes) (exact 8 bytes h) (All-take IsByte 8 bytes hb))
          ∙ divide-chunk 8 crc bytes h hb)
      ∙ mod-eq_of_lt (crc_bytes-lt crc (take 8 bytes) (All-take IsByte 8 bytes hb) hc)

  u32_chunk :
      (crc : ℕ) (bytes : ByteString)
      → 4 ≤ length bytes
      → All IsByte bytes
      → crc < 2 ^ 32
      → cpu.mm_crc32_u32 crc (le_value (take 4 bytes)) ≡ crc_bytes crc (take 4 bytes)
  u32_chunk crc bytes h hb hc =
      sse.u32_divides crc (le_value (take 4 bytes)) hc
        (le_value-lt 4 (take 4 bytes) (exact 4 bytes h) (All-take IsByte 4 bytes hb))
      ∙ divide-chunk 4 crc bytes h hb

  u64_loop-Continues :
      (fuel crc : ℕ) (bytes : ByteString)
      → All IsByte bytes
      → crc < 2 ^ 32
      → Continues crc bytes (u64_loop cpu fuel crc bytes)
  unfolding u64_loop
  u64_loop-Continues zero crc bytes hb hc = (refl, hc, hb)
  u64_loop-Continues (suc fuel) crc bytes hb hc = elim (Bool-cases (leb 8 (length bytes))) [
    | inl more ↦
        let step : cpu.mm_crc32_u64 crc (le_value (take 8 bytes)) % 2 ^ 32
            ≡ crc_bytes crc (take 8 bytes) =
          u64_chunk crc bytes (le_of_leb 8 (length bytes) more) hb hc in
        let (same, small, rest) =
          u64_loop-Continues fuel (crc_bytes crc (take 8 bytes)) (drop 8 bytes)
            (All-drop IsByte 8 bytes hb)
            (crc_bytes-lt crc (take 8 bytes) (All-take IsByte 8 bytes hb) hc) in
        rw (more, step) (same ∙ take_chunk 8 crc bytes, small, rest)
    | inr done ↦ rw done (refl, hc, hb)
  ]

  u32_loop-Continues :
      (fuel crc : ℕ) (bytes : ByteString)
      → All IsByte bytes
      → crc < 2 ^ 32
      → Continues crc bytes (u32_loop cpu fuel crc bytes)
  unfolding u32_loop
  u32_loop-Continues zero crc bytes hb hc = (refl, hc, hb)
  u32_loop-Continues (suc fuel) crc bytes hb hc = elim (Bool-cases (leb 4 (length bytes))) [
    | inl more ↦
        let step : cpu.mm_crc32_u32 crc (le_value (take 4 bytes)) ≡ crc_bytes crc (take 4 bytes) =
          u32_chunk crc bytes (le_of_leb 4 (length bytes) more) hb hc in
        let (same, small, rest) =
          u32_loop-Continues fuel (crc_bytes crc (take 4 bytes)) (drop 4 bytes)
            (All-drop IsByte 4 bytes hb)
            (crc_bytes-lt crc (take 4 bytes) (All-take IsByte 4 bytes hb) hc) in
        rw (more, step) (same ∙ take_chunk 4 crc bytes, small, rest)
    | inr done ↦ rw done (refl, hc, hb)
  ]

  u8_loop-eq :
      (crc : ℕ) (bytes : ByteString)
      → All IsByte bytes
      → crc < 2 ^ 32
      → u8_loop cpu crc bytes ≡ crc_bytes crc bytes
  unfolding u8_loop crc_bytes
  u8_loop-eq crc [] hb hc = refl
  u8_loop-eq crc (byte ∷ bytes) (hb, hbs) hc =
      ap (λ (t : ℕ). u8_loop cpu t bytes)
        (sse.u8_divides crc byte hc hb ∙ divide-eq-crc_bits 8 (bit_xor crc byte))
      ∙ u8_loop-eq (crc_bits 8 (bit_xor crc byte)) bytes hbs
          (crc_bits-lt 8 (bit_xor crc byte) (xor-lt 32 crc byte hc (omega arith)))

  hardware-eq-crc_bytes :
      (crc : ℕ) (bytes : ByteString)
      → All IsByte bytes
      → crc < 2 ^ 32
      → extend_crc32c_hardware cpu crc bytes ≡ crc_bytes crc bytes
  unfolding extend_crc32c_hardware
  hardware-eq-crc_bytes crc bytes hb hc =
      let wide = u64_loop cpu (length bytes) crc bytes in
      let (same, small, rest) = u64_loop-Continues (length bytes) crc bytes hb hc in
      let narrow = u32_loop cpu (length wide.1) wide.0 wide.1 in
      let (same', small', rest') = u32_loop-Continues (length wide.1) wide.0 wide.1 rest small in
      u8_loop-eq narrow.0 narrow.1 rest' small' ∙ same' ∙ same

  -- On a processor whose instructions divide as documented, the hardware loop returns what the
  -- table-driven loop returns, for every byte string and every 32-bit start value.
  pub extend_hardware-eq-software :
      (crc : ℕ) (bytes : ByteString)
      → All IsByte bytes
      → crc < 2 ^ 32
      → extend_crc32c_hardware cpu crc bytes ≡ extend_crc32c_software crc bytes
  extend_hardware-eq-software crc bytes hb hc =
      hardware-eq-crc_bytes crc bytes hb hc ∙ sym (extend_crc32c_software-eq-crc_bytes crc bytes hb)

  -- Whichever path `Crc32C` takes, it returns the complement of the CRC that the software loop
  -- computes, for every byte string, on a processor whose instructions divide as documented.
  pub crc32c-eq-software :
      (bytes : ByteString)
      → All IsByte bytes
      → crc32c cpu bytes ≡ 2 ^ 32 - 1 - extend_crc32c_software 0xffffffff bytes
  unfolding crc32c
  crc32c-eq-software bytes hb =
      if_both cpu.has_hardware_crc32c _ _ _
        (ap (λ (t : ℕ). 2 ^ 32 - 1 - t)
          (extend_hardware-eq-software 0xffffffff bytes hb (omega arith)))
        refl
