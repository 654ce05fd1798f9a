-- ===== src/Bytes/Fixed.antt =====
-- The fixed-width codecs against one description, the base-256 digits of the value.
use storage_engine.Base.{
  ℕ, zero, suc, ◌+◌, ◌*◌, ◌/◌, ◌%◌, ◌^◌, ◌≤◌, ◌<◌, bit_or, ◌≡◌, refl, sym, ap, ◌∙◌, arith, none,
  some, [], ◌∷◌, ◌++◌, append_assoc, append-nil, length, length-append, get_or_at, set, take,
  get_or-take, length-take, All, ltb-false, ltb-true,
}
use storage_engine.Base.Bits.{bit_or_high}
use storage_engine.Bytes.{
  ByteString, append_loop, append_fixed32_le, append_fixed64_le, write_loop, write_fixed32_le,
  write_fixed64_le, read_loop, read_fixed32_le, read_fixed64_le, byte_at,
}
use native.Mathlib.Nat.{pow-suc, mul_comm, div-div-eq-div-mul, div-one, mod-eq_of_lt, div-add-mod}

-- The lowest `n` base-256 digits, lowest first.
unfoldable pub le_bytes : ℕ → ℕ → ByteString
le_bytes zero value = []
le_bytes (suc n) value = (value % 256) ∷ le_bytes n (value / 256)

pub length-le_bytes : (n value : ℕ) → length (le_bytes n value) ≡ n
unfolding le_bytes
length-le_bytes zero value = refl
length-le_bytes (suc n) value = ap suc (length-le_bytes n (value / 256))

-- One more shift by eight bits divides by 256.
pow_shift_suc : (i : ℕ) → 2 ^ ((i + 1) * 8) ≡ 256 * 2 ^ (i * 8)
pow_shift_suc i =
    let e : (i + 1) * 8 ≡ suc (suc (suc (suc (suc (suc (suc (suc (i * 8)))))))) = omega arith in
    rw e (omega (arith, pow-suc 2 (i * 8)))

div_shift_suc : (value i : ℕ) → value / 2 ^ ((i + 1) * 8) ≡ value / 2 ^ (i * 8) / 256
div_shift_suc value i = rw (pow_shift_suc i) (
    ap (λ (t : ℕ). value / t) (mul_comm 256 (2 ^ (i * 8)))
    ∙ sym (div-div-eq-div-mul value (2 ^ (i * 8)) 256))

append_loop-eq :
    (left i : ℕ) (out : ByteString) (value : ℕ)
    → append_loop left i out value ≡ out ++ le_bytes left (value / 2 ^ (i * 8))
unfolding append_loop le_bytes
append_loop-eq zero i out value = sym (append-nil out)
append_loop-eq (suc left) i out value =
    append_loop-eq left (i + 1) _ value
    ∙ rw (div_shift_suc value i) (append_assoc out (byte_at value i ∷ []) _)

pub append_fixed32_le_lem :
    (out : ByteString) (value : ℕ) → append_fixed32_le out value ≡ out ++ le_bytes 4 value
unfolding append_fixed32_le
append_fixed32_le_lem out value =
    append_loop-eq 4 0 out value ∙ ap (λ (t : ℕ). out ++ le_bytes 4 t) (div-one value)

pub append_fixed64_le_lem :
    (out : ByteString) (value : ℕ) → append_fixed64_le out value ≡ out ++ le_bytes 8 value
unfolding append_fixed64_le
append_fixed64_le_lem out value =
    append_loop-eq 8 0 out value ∙ ap (λ (t : ℕ). out ++ le_bytes 8 t) (div-one value)

pub set-length_append :
    (front back : ByteString) (old b n : ℕ)
    → length front ≡ n
    → set (front ++ (old ∷ back)) n b ≡ front ++ (b ∷ back)
set-length_append [] back old b zero h = refl
set-length_append [] back old b (suc n) h = absurd (omega arith)
set-length_append (x ∷ front) back old b zero h = absurd (omega arith)
set-length_append (x ∷ front) back old b (suc n) h =
    ap (◌∷◌ x) (set-length_append front back old b n (omega arith))

write_loop-eq :
    (left i : ℕ) (front old back : ByteString) (offset value : ℕ)
    → length front ≡ offset + i
    → length old ≡ left
    → write_loop left i (front ++ (old ++ back)) offset value
      ≡ front ++ (le_bytes left (value / 2 ^ (i * 8)) ++ back)
unfolding write_loop le_bytes
write_loop-eq zero i front [] back offset value hf ho = refl
write_loop-eq zero i front (o ∷ old) back offset value hf ho = absurd (omega arith)
write_loop-eq (suc left) i front [] back offset value hf ho = absurd (omega arith)
write_loop-eq (suc left) i front (o ∷ old) back offset value hf ho =
    rw (set-length_append front (old ++ back) o (byte_at value i) (offset + i) hf) (
      ap (λ t. write_loop left (i + 1) t offset value)
        (sym (append_assoc front (byte_at value i ∷ []) (old ++ back)))
      ∙ write_loop-eq left (i + 1) (front ++ (byte_at value i ∷ [])) old back offset value
          (omega (arith, length-append front (byte_at value i ∷ []))) (omega arith)
      ∙ append_assoc front (byte_at value i ∷ []) _
      ∙ rw (div_shift_suc value i))

-- Overwriting four bytes in the middle of a buffer.
pub write_fixed32_le_lem :
    (front old back : ByteString) (value : ℕ)
    → length old ≡ 4
    → write_fixed32_le (front ++ (old ++ back)) (length front) value
      ≡ front ++ (le_bytes 4 value ++ back)
unfolding write_fixed32_le
write_fixed32_le_lem front old back value h =
    write_loop-eq 4 0 front old back (length front) value (omega arith) h
    ∙ ap (λ (t : ℕ). front ++ (le_bytes 4 t ++ back)) (div-one value)

pub write_fixed64_le_lem :
    (front old back : ByteString) (value : ℕ)
    → length old ≡ 8
    → write_fixed64_le (front ++ (old ++ back)) (length front) value
      ≡ front ++ (le_bytes 8 value ++ back)
unfolding write_fixed64_le
write_fixed64_le_lem front old back value h =
    write_loop-eq 8 0 front old back (length front) value (omega arith) h
    ∙ ap (λ (t : ℕ). front ++ (le_bytes 8 t ++ back)) (div-one value)

-- One round of the read loop adds the byte as the next digit.
read_round :
    (k value b width : ℕ)
    → value < 2 ^ k
    → b * 2 ^ k < 2 ^ width
    → bit_or value (b * 2 ^ k % 2 ^ width) ≡ value + b * 2 ^ k
read_round k value b width hv fits = rw (mod-eq_of_lt fits) (bit_or_high k value b hv)

next_digit_lt : (p value b : ℕ) → value < p → b < 256 → value + b * p < 256 * p
next_digit_lt p value b hv hb = grind arith

split_digit : (x p : ℕ) → x * p ≡ x % 256 * p + x / 256 * (256 * p)
split_digit x p = omega (arith, ap (λ (t : ℕ). t * p) (div-add-mod x 256))

enough :
    (n : ℕ) (front back : ByteString) (value offset : ℕ)
    → length front ≡ offset
    → offset + n ≤ length (front ++ (le_bytes n value ++ back))
enough n front back value offset hf = omega (
  arith,
  length-append front (le_bytes n value ++ back),
  length-append (le_bytes n value) back,
  length-le_bytes n value,
)

read_loop-eq :
    (left i : ℕ) (front back : ByteString) (offset value x width : ℕ)
    → length front ≡ offset + i
    → value < 2 ^ (i * 8)
    → value + x * 2 ^ (i * 8) < 2 ^ width
    → x < 256 ^ left
    → read_loop width left i (front ++ (le_bytes left x ++ back)) offset value
      ≡ value + x * 2 ^ (i * 8)
unfolding read_loop le_bytes
read_loop-eq zero i front back offset value x width hf hv fits hx =
    let e : x ≡ 0 = omega arith in rw e (omega arith)
read_loop-eq (suc left) i front back offset value x width hf hv fits hx =
    ap
      (λ (t : ℕ).
        read_loop width left (i + 1) whole offset (bit_or value (t * 2 ^ (i * 8) % 2 ^ width)))
      (get_or_at front (le_bytes left (x / 256) ++ back) (x % 256) (offset + i) 0 hf)
    ∙ ap (read_loop width left (i + 1) whole offset)
        (read_round (i * 8) value (x % 256) width hv (omega (arith, split_digit x (2 ^ (i * 8)))))
    ∙ ap (λ (t : ByteString). read_loop width left (i + 1) t offset (value + x % 256 * 2 ^ (i * 8)))
        (sym (append_assoc front ((x % 256) ∷ []) (le_bytes left (x / 256) ++ back)))
    ∙ read_loop-eq left (i + 1) (front ++ ((x % 256) ∷ [])) back offset
        (value + x % 256 * 2 ^ (i * 8)) (x / 256) width
        (omega (arith, length-append front ((x % 256) ∷ [])))
        (rw (pow_shift_suc i) (next_digit_lt (2 ^ (i * 8)) value (x % 256) hv (omega arith)))
        (rw (pow_shift_suc i) (omega (arith, split_digit x (2 ^ (i * 8)))))
        (omega (arith, pow-suc 256 left))
    ∙ rw (pow_shift_suc i) (omega (arith, split_digit x (2 ^ (i * 8))))
  where
    whole : ByteString
    whole = front ++ ((x % 256) ∷ (le_bytes left (x / 256) ++ back))

-- Reading where the digits of `value` stand gives `value` and the offset behind them.
pub read_fixed32_le_lem :
    (front back : ByteString) (value offset : ℕ)
    → length front ≡ offset
    → value < 2 ^ 32
    → read_fixed32_le (front ++ (le_bytes 4 value ++ back)) offset ≡ some (value, offset + 4)
unfolding read_fixed32_le
read_fixed32_le_lem front back value offset hf h =
    rw
      (ltb-false (length (front ++ (le_bytes 4 value ++ back))) (offset + 4)
        (enough 4 front back value offset hf))
      (ap (λ (t : ℕ). some (t, offset + 4))
        (read_loop-eq 4 0 front back offset 0 value 32 (omega arith) (omega arith) (omega arith)
            (omega arith)
          ∙ omega arith))

pub read_fixed64_le_lem :
    (front back : ByteString) (value offset : ℕ)
    → length front ≡ offset
    → value < 2 ^ 64
    → read_fixed64_le (front ++ (le_bytes 8 value ++ back)) offset ≡ some (value, offset + 8)
unfolding read_fixed64_le
read_fixed64_le_lem front back value offset hf h =
    rw
      (ltb-false (length (front ++ (le_bytes 8 value ++ back))) (offset + 8)
        (enough 8 front back value offset hf))
      (ap (λ (t : ℕ). some (t, offset + 8))
        (read_loop-eq 8 0 front back offset 0 value 64 (omega arith) (omega arith) (omega arith)
            (omega arith)
          ∙ omega arith))

-- A read past the end fails.
pub read_fixed32_le_short :
    (bytes : ByteString) (offset : ℕ)
    → length bytes < offset + 4
    → read_fixed32_le bytes offset ≡ none
unfolding read_fixed32_le
read_fixed32_le_short bytes offset h = rw (ltb-true (length bytes) (offset + 4) h)

-- A read that succeeds advances the offset within the bytes.
pub read_fixed32_le_offset :
    (bytes : ByteString) (offset value next : ℕ)
    → read_fixed32_le bytes offset ≡ some (value, next)
    → (next ≡ offset + 4) × (next ≤ length bytes)
unfolding read_fixed32_le
read_fixed32_le_offset bytes offset value next h = ground arith

-- A `uint32_t` field holds the low 32 bits.
pub le_bytes_low : (x : ℕ) → le_bytes 4 (x % 2 ^ 32) ≡ le_bytes 4 x
unfolding le_bytes
le_bytes_low x = ground arith

pub le_bytes-IsByte : (n x : ℕ) → All (λ b. b < 256) (le_bytes n x)
unfolding le_bytes
le_bytes-IsByte zero x = tt
le_bytes-IsByte (suc n) x = (omega arith, le_bytes-IsByte n (x / 256))

read_loop-take :
    (n width left i : ℕ) (bytes : ByteString) (offset value : ℕ)
    → offset + i + left ≤ n
    → read_loop width left i (take n bytes) offset value ≡ read_loop width left i bytes offset value
unfolding read_loop
read_loop-take n width zero i bytes offset value h = refl
read_loop-take n width (suc left) i bytes offset value h =
    rw (get_or-take n bytes (offset + i) 0 (omega arith))
      (read_loop-take n width left (i + 1) bytes offset _ (omega arith))

-- A read does not look behind its four bytes.
pub read_fixed32_le-take :
    (n : ℕ) (bytes : ByteString) (offset : ℕ)
    → offset + 4 ≤ n
    → n ≤ length bytes
    → read_fixed32_le (take n bytes) offset ≡ read_fixed32_le bytes offset
unfolding read_fixed32_le
read_fixed32_le-take n bytes offset h b = rw (
  ltb-false (length (take n bytes)) (offset + 4) (omega (arith, length-take n bytes)),
  ltb-false (length bytes) (offset + 4) (omega arith),
  read_loop-take n 32 4 0 bytes offset 0 (omega arith),
)
