-- ===== src/Bytes/RoundTrip.antt =====
-- What the fixed-width encoders append, the decoders read back.
use storage_engine.Base.{ℕ, ◌+◌, ◌^◌, ◌<◌, ◌≡◌, refl, ap, ◌∙◌, some, ◌++◌, append_assoc, length}
use storage_engine.Bytes.{
  ByteString, append_fixed32_le, append_fixed64_le, read_fixed32_le, read_fixed64_le,
}
use storage_engine.Bytes.Fixed.{
  le_bytes, append_fixed32_le_lem, append_fixed64_le_lem, read_fixed32_le_lem, read_fixed64_le_lem,
}

-- A value that fits its field is read back at the offset where it was appended, between any bytes,
-- and the offset advances to the byte behind it, at either width.
pub read_fixed-append_fixed :
    (front back : ByteString) (value32 value64 : ℕ)
    → value32 < 2 ^ 32
    → value64 < 2 ^ 64
    → (read_fixed32_le (append_fixed32_le front value32 ++ back) (length front)
        ≡ some (value32, length front + 4))
      × (read_fixed64_le (append_fixed64_le front value64 ++ back) (length front)
          ≡ some (value64, length front + 8))
read_fixed-append_fixed front back value32 value64 h32 h64 = (
  ap (λ (t : ByteString). read_fixed32_le t (length front))
        (ap (λ (t : ByteString). t ++ back) (append_fixed32_le_lem front value32)
          ∙ append_assoc front (le_bytes 4 value32) back)
      ∙ read_fixed32_le_lem front back value32 (length front) refl h32,
  ap (λ (t : ByteString). read_fixed64_le t (length front))
        (ap (λ (t : ByteString). t ++ back) (append_fixed64_le_lem front value64)
          ∙ append_assoc front (le_bytes 8 value64) back)
      ∙ read_fixed64_le_lem front back value64 (length front) refl h64,
)
