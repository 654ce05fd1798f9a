-- ===== src/Wal/Decode/Accept.antt =====
-- What is known of the bytes when a round of `DecodeLog` accepts a record.
use storage_engine.Base.{
  ℕ, ◌+◌, ◌≤◌, ◌≡◌, refl, arith, Option, some, none, Option-cases, inl, inr, length, take, drop,
}
use storage_engine.Status.{ok}
use storage_engine.Bytes.{ByteString, read_fixed32_le}
use storage_engine.Bytes.Fixed.{read_fixed32_le_offset}
use storage_engine.Crc.{Cpu, crc32c}
use storage_engine.Wal.Decode.{
  DecodedBatch, decode_payload, RecordHeader, read_header_type, read_header, next, check_record,
  check_header, decode_record,
}

-- The payload that a header announces.
abbrev pub payload_of : ByteString → RecordHeader → ByteString
payload_of bytes h = take h.size (drop h.offset bytes)

-- The record at `offset` is whole, of the known type, with a matching checksum, and its payload
-- decodes to `decoded`; the next record starts at `end`.
pub record IsRecord (cpu : Cpu) (bytes : ByteString) (offset : ℕ) (decoded : DecodedBatch) (end : ℕ)
    : Type 0 where
  pub header : RecordHeader
  pub reads : read_header bytes offset ≡ some header
  pub starts : header.offset ≡ offset + 9
  pub type_known : header.type ≡ 1
  pub ends : end ≡ header.offset + header.size
  pub inside : end ≤ length bytes
  pub checksum : crc32c cpu (payload_of bytes header) ≡ header.expected_crc
  pub decodes : decode_payload (payload_of bytes header) ≡ ok decoded

read_header_offset :
    (bytes : ByteString) (offset : ℕ) (h : RecordHeader)
    → read_header bytes offset ≡ some h
    → h.offset ≡ offset + 9
unfolding read_header read_header_type
read_header_offset bytes offset h e = elim (Option-cases (read_fixed32_le bytes offset)) [
  | inl n ↦ ground arith
  | inr ((crc, at), p) ↦ elim (Option-cases (read_fixed32_le bytes at)) [
    | inl n ↦ ground arith
    | inr ((size, at'), q) ↦ ground (
      arith,
      read_fixed32_le_offset bytes offset crc at p,
      read_fixed32_le_offset bytes at size at' q,
    )
  ]
]

check_record_inv :
    (cpu : Cpu) (bytes : ByteString) (at : ℕ) (h : RecordHeader) (decoded : DecodedBatch) (end : ℕ)
    → check_record cpu bytes at h ≡ ok (next decoded end)
    → (h.offset + h.size ≤ length bytes)
      × (h.type ≡ 1)
      × (crc32c cpu (payload_of bytes h) ≡ h.expected_crc)
      × (decode_payload (payload_of bytes h) ≡ ok decoded)
      × (end ≡ h.offset + h.size)
unfolding check_record
check_record_inv cpu bytes at h decoded end e = ground arith

-- A round goes on only behind a record that passed every check.
pub decode_record-IsRecord :
    (cpu : Cpu) (bytes : ByteString) (offset : ℕ) (decoded : DecodedBatch) (end : ℕ)
    → decode_record cpu bytes offset ≡ ok (next decoded end)
    → IsRecord cpu bytes offset decoded end
unfolding decode_record
decode_record-IsRecord cpu bytes offset decoded end e = by_header (read_header bytes offset) refl e
  where
    by_header :
        (h : Option RecordHeader)
        → read_header bytes offset ≡ h
        → check_header cpu bytes offset h ≡ ok (next decoded end)
        → IsRecord cpu bytes offset decoded end
    by_header none p q = unfold check_header in cc
    by_header (some h) p q =
        let (inside, known, crc, decodes, ends) =
          check_record_inv cpu bytes offset h decoded end (unfold check_header in q) in
        record {
          header = h;
          reads = p;
          starts = read_header_offset bytes offset h p;
          type_known = known;
          ends = ends;
          inside = omega arith;
          checksum = crc;
          decodes = decodes;
        }

-- And a record that passes them is accepted.
pub IsRecord-decode_record :
    (cpu : Cpu) (bytes : ByteString) (offset : ℕ) (decoded : DecodedBatch) (end : ℕ)
    → IsRecord cpu bytes offset decoded end
    → decode_record cpu bytes offset ≡ ok (next decoded end)
unfolding decode_record check_header check_record
IsRecord-decode_record cpu bytes offset decoded end r = ground arith
