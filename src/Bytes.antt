-- ===== src/Bytes.antt =====
-- src/common.h: fixed-width little-endian integers in byte vectors.
-- A byte is a number below 256; `>> (8 * i)` is `/ 2 ^ (i * 8)` and `& 0xff` is `% 256`.
-- Offsets and sizes are `size_t`; a span in memory is far below 2 ^ 64 bytes, so they do not wrap.
pub mod Fixed
pub mod Compare
pub mod RoundTrip
use storage_engine.Base.{
  ℕ, zero, suc, ◌+◌, ◌*◌, ◌/◌, ◌%◌, ◌^◌, bit_or, Option, none, some, List, [], ◌∷◌, ◌++◌, length,
  get_or, set, ltb, if◌then◌else◌, Bool,
}

abbrev pub Byte : Type 0
Byte = ℕ

abbrev pub ByteString : Type 0
ByteString = List ℕ

-- `static_cast<std::byte>((value >> (i * 8)) & 0xff)`
abbrev pub byte_at : ℕ → ℕ → ℕ
byte_at value i = value / 2 ^ (i * 8) % 256

-- The loops count `left` rounds down while `i` goes up.
append_loop : (left i : ℕ) → ByteString → ℕ → ByteString
append_loop zero i out value = out
append_loop (suc left) i out value = append_loop left (i + 1) (out ++ (byte_at value i ∷ [])) value

pub append_fixed32_le : ByteString → ℕ → ByteString
append_fixed32_le out value = append_loop 4 0 out value

pub append_fixed64_le : ByteString → ℕ → ByteString
append_fixed64_le out value = append_loop 8 0 out value

write_loop : (left i : ℕ) → ByteString → ℕ → ℕ → ByteString
write_loop zero i out offset value = out
write_loop (suc left) i out offset value =
    write_loop left (i + 1) (set out (offset + i) (byte_at value i)) offset value

pub write_fixed32_le : ByteString → ℕ → ℕ → ByteString
write_fixed32_le out offset value = write_loop 4 0 out offset value

pub write_fixed64_le : ByteString → ℕ → ℕ → ByteString
write_fixed64_le out offset value = write_loop 8 0 out offset value

-- `value |= static_cast<uintN_t>(bytes[offset + i]) << (i * 8)`, for N = `width`
read_loop : (width left i : ℕ) → ByteString → ℕ → ℕ → ℕ
read_loop width zero i bytes offset value = value
read_loop width (suc left) i bytes offset value =
    read_loop width left (i + 1) bytes offset
      (bit_or value (get_or bytes (offset + i) 0 * 2 ^ (i * 8) % 2 ^ width))

-- `none` is the result `false`; else the value read and the advanced offset.
pub read_fixed32_le : ByteString → ℕ → Option (ℕ × ℕ)
read_fixed32_le bytes offset =
    if ltb (length bytes) (offset + 4)
    then none
    else some (read_loop 32 4 0 bytes offset 0, offset + 4)

pub read_fixed64_le : ByteString → ℕ → Option (ℕ × ℕ)
read_fixed64_le bytes offset =
    if ltb (length bytes) (offset + 8)
    then none
    else some (read_loop 64 8 0 bytes offset 0, offset + 8)
