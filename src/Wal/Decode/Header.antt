-- ===== src/Wal/Decode/Header.antt =====
-- One round of the loop of `DecodeLog`: the record header, and the checks behind it.
use storage_engine.Base.{
  ℕ, ◌+◌, ◌^◌, ◌<◌, ◌≤◌, ◌≡◌, refl, sym, ap, ◌∙◌, arith, inl, inr, some, none, Option-cases, [],
  ◌∷◌, ◌++◌, append_assoc, length, length-append, get_or, get_or_at, take, take-append, drop,
  drop-append, ltb, ltb-false, ltb-true, leb-false, leb-true, ==_refl, Bool-cases, lt_of_ltb,
  ge_of_ltb, front_split,
}
use storage_engine.Status.{ok}
use storage_engine.Bytes.{ByteString, read_fixed32_le}
use storage_engine.Bytes.Fixed.{
  le_bytes, length-le_bytes, read_fixed32_le_lem, read_fixed32_le_offset,
}
use storage_engine.Crc.{Cpu, crc32c, crc32c-lt}
use storage_engine.Wal.Encode.Layout.{record_bytes}
use storage_engine.Wal.Decode.{
  check_header, DecodedBatch, decode_payload, RecordHeader, read_header_type, read_header, stop,
  next, check_record, decode_record,
}

-- The header fields of a record, wherever it stands.
module _ (front back : ByteString) (crc size type : ℕ) where
  abbrev pub with_header : ByteString
  with_header = front ++ (le_bytes 4 crc ++ (le_bytes 4 size ++ (type ∷ back)))

  abbrev pub header_at : RecordHeader
  header_at = record {
    expected_crc = crc;
    size = size;
    type = type;
    offset = length front + 4 + 4 + 1;
  }

  pub length-with_header : length with_header ≡ length front + 9 + length back
  length-with_header = omega (
    arith,
    length-append front (le_bytes 4 crc ++ (le_bytes 4 size ++ (type ∷ back))),
    length-append (le_bytes 4 crc) (le_bytes 4 size ++ (type ∷ back)),
    length-append (le_bytes 4 size) (type ∷ back),
    length-le_bytes 4 crc,
    length-le_bytes 4 size,
  )

  length-to_size : length (front ++ le_bytes 4 crc) ≡ length front + 4
  length-to_size = omega (arith, length-append front (le_bytes 4 crc), length-le_bytes 4 crc)

  pub length-to_type : length ((front ++ le_bytes 4 crc) ++ le_bytes 4 size) ≡ length front + 4 + 4
  length-to_type = omega (
    arith,
    length-to_size,
    length-append (front ++ le_bytes 4 crc) (le_bytes 4 size),
    length-le_bytes 4 size,
  )

  pub read_header_lem :
      crc < 2 ^ 32 → size < 2 ^ 32 → read_header with_header (length front) ≡ some header_at
  unfolding read_header read_header_type
  read_header_lem hc hs = rw (
    read_fixed32_le_lem front (le_bytes 4 size ++ (type ∷ back)) crc (length front) refl hc,
    size_read,
    leb-false (length with_header) (length front + 4 + 4) (omega (arith, length-with_header)),
    type_read,
  )
    where
      size_read : read_fixed32_le with_header (length front + 4) ≡ some (size, length front + 4 + 4)
      size_read =
          ap (λ (t : ByteString). read_fixed32_le t (length front + 4)) (simp append_assoc)
          ∙ read_fixed32_le_lem (front ++ le_bytes 4 crc) (type ∷ back) size (length front + 4)
              length-to_size hs

      type_read : get_or with_header (length front + 4 + 4) 0 ≡ type
      type_read =
          ap (λ (t : ByteString). get_or t (length front + 4 + 4) 0) (simp append_assoc)
          ∙ get_or_at ((front ++ le_bytes 4 crc) ++ le_bytes 4 size) back type
              (length front + 4 + 4) 0 length-to_type

-- Fewer than nine bytes hold no header.
read_header_short :
    (bytes : ByteString) (offset : ℕ) → length bytes < offset + 9 → read_header bytes offset ≡ none
unfolding read_header read_header_type
read_header_short bytes offset h = elim (Option-cases (read_fixed32_le bytes offset)) [
  | inl e ↦ rw e
  | inr ((crc, at), e) ↦ elim (Option-cases (read_fixed32_le bytes at)) [
    | inl e' ↦ rw (e, e')
    | inr ((size, at'), e') ↦ rw (
      e,
      e',
      leb-true (length bytes) at' (
          omega (
            arith,
            read_fixed32_le_offset bytes offset crc at e,
            read_fixed32_le_offset bytes at size at' e',
          )),
    )
  ]
]

module _ (cpu : Cpu) (bytes : ByteString) (record_offset crc size offset : ℕ) where
  check_record_accepts :
      (payload : ByteString) (decoded : DecodedBatch)
      → offset + size ≤ length bytes
      → take size (drop offset bytes) ≡ payload
      → crc32c cpu payload ≡ crc
      → decode_payload payload ≡ ok decoded
      → check_record cpu bytes record_offset
          (record { expected_crc = crc; size = size; type = 1; offset = offset })
        ≡ ok (next decoded (offset + size))
  unfolding check_record
  check_record_accepts payload decoded fits e ec ed =
      rw (ltb-false (length bytes) (offset + size) fits, e, ec, ==_refl crc, ed)

  check_record_torn :
      (type : ℕ)
      → length bytes < offset + size
      → check_record cpu bytes record_offset
          (record { expected_crc = crc; size = size; type = type; offset = offset })
        ≡ ok stop
  unfolding check_record
  check_record_torn type short = rw (ltb-true (length bytes) (offset + size) short)

module _ (cpu : Cpu) where
  -- One round of the loop, on a whole record at the offset.
  pub decode_record_lem :
      (front back payload : ByteString) (decoded : DecodedBatch)
      → length payload < 2 ^ 32
      → decode_payload payload ≡ ok decoded
      → decode_record cpu
          (front ++ (record_bytes (crc32c cpu payload) payload ++ back))
          (length front)
        ≡ ok (next decoded (length front + 4 + 4 + 1 + length payload))
  unfolding decode_record check_header
  decode_record_lem front back payload decoded small e =
      ap (λ (t : ByteString). decode_record cpu t (length front)) (sym whole)
      ∙ rw
          (read_header_lem front (payload ++ back) (crc32c cpu payload) (length payload) 1
            (crc32c-lt cpu payload) small)
          (check_record_accepts cpu bytes (length front) (crc32c cpu payload) (length payload)
            (length front + 4 + 4 + 1) payload decoded
            (omega (
              arith,
              length-with_header front (payload ++ back) (crc32c cpu payload) (length payload) 1,
              length-append payload back,
            ))
            payload_at refl e)
    where
      bytes : ByteString
      bytes = with_header front (payload ++ back) (crc32c cpu payload) (length payload) 1

      whole : bytes ≡ front ++ (record_bytes (crc32c cpu payload) payload ++ back)
      whole = simp append_assoc

      to_payload : ByteString
      to_payload =
          ((front ++ le_bytes 4 (crc32c cpu payload)) ++ le_bytes 4 (length payload)) ++ (1 ∷ [])

      payload_at : take (length payload) (drop (length front + 4 + 4 + 1) bytes) ≡ payload
      payload_at =
          ap (λ (t : ByteString). take (length payload) (drop (length front + 4 + 4 + 1) t))
            (let e : bytes ≡ to_payload ++ (payload ++ back) = simp append_assoc in e)
          ∙ ap (take (length payload)) (
              drop-append (length front + 4 + 4 + 1) to_payload (payload ++ back) (
                omega (
                  arith,
                  length-to_type front back (crc32c cpu payload) (length payload) 1,
                  length-append
                      ((front ++ le_bytes 4 (crc32c cpu payload)) ++ le_bytes 4 (length payload))
                      (1 ∷ []),
                )))
          ∙ take-append (length payload) payload back refl

  -- One round of the loop, on a proper prefix of a record: the loop stops.
  pub decode_record_torn :
      (front tail more : ByteString) (byte : ℕ) (payload : ByteString)
      → length payload < 2 ^ 32
      → tail ++ (byte ∷ more) ≡ record_bytes (crc32c cpu payload) payload
      → decode_record cpu (front ++ tail) (length front) ≡ ok stop
  unfolding decode_record check_header
  decode_record_torn front tail more byte payload small e =
      elim (Bool-cases (ltb (length tail) 9)) [
        | inl short ↦ rw (
            read_header_short (front ++ tail) (length front)
              (omega (arith, length-append front tail, lt_of_ltb (length tail) 9 short)))
        | inr long ↦
            let (rest, e1, e2) =
              front_split tail (byte ∷ more) header payload (e ∙ simp append_assoc)
                (omega (arith, length-header, ge_of_ltb (length tail) 9 long)) in
            behind_header rest e1 e2
      ]
    where
      header : ByteString
      header = le_bytes 4 (crc32c cpu payload) ++ (le_bytes 4 (length payload) ++ (1 ∷ []))

      length-header : length header ≡ 9
      length-header = omega (
        arith,
        length-append (le_bytes 4 (crc32c cpu payload)) (le_bytes 4 (length payload) ++ (1 ∷ [])),
        length-append (le_bytes 4 (length payload)) (1 ∷ []),
        length-le_bytes 4 (crc32c cpu payload),
        length-le_bytes 4 (length payload),
      )

      behind_header :
          (rest : ByteString)
          → tail ≡ header ++ rest
          → rest ++ (byte ∷ more) ≡ payload
          → check_header cpu
              (front ++ tail)
              (length front)
              (read_header (front ++ tail) (length front))
            ≡ ok stop
      behind_header rest e1 e2 =
          ap (λ (t : ByteString). decode_record cpu t (length front))
            (ap (λ (t : ByteString). front ++ t) e1 ∙ shape)
          ∙ rw
              (read_header_lem front rest (crc32c cpu payload) (length payload) 1
                (crc32c-lt cpu payload) small)
              (check_record_torn cpu _ (length front) (crc32c cpu payload) (length payload)
                (length front + 4 + 4 + 1) 1
                (omega (
                  arith,
                  cut,
                  length-with_header front rest (crc32c cpu payload) (length payload) 1,
                )))
        where
          shape :
              front ++ (header ++ rest)
              ≡ with_header front rest (crc32c cpu payload) (length payload) 1
          shape = simp append_assoc

          cut : length rest < length payload
          cut = omega (arith, ap length e2, length-append rest (byte ∷ more))
