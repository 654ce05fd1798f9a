-- ===== src/Wal/Decode/Damage.antt =====
-- `DecodeLog` on any nine bytes of a header behind the records of a log: what it takes for a torn
-- tail and what for damage.
use storage_engine.Base.{
  ℕ, ◌+◌, ◌^◌, ◌<◌, ◌≤◌, ◌≡◌, ◌≢◌, refl, ap, ◌∙◌, arith, some, List, [], ◌∷◌, inl, inr, false,
  Bool-cases, ◌++◌, append_assoc, length, length-append, take, drop, drop-append, All, ltb,
  ltb-false, ltb-true, leb-true, leb-false, ◌==◌, ==_iff,
}
use storage_engine.Status.{Status, ok, err, corruption}
use storage_engine.Bytes.{ByteString}
use storage_engine.Bytes.Fixed.{le_bytes}
use storage_engine.Crc.{Cpu, crc32c}
use storage_engine.Wal.Decode.{stop, check_header, check_record, decode_record, decode_log}
use storage_engine.Wal.Decode.Header.{
  with_header, header_at, length-with_header, length-to_type, read_header_lem,
}
use storage_engine.Wal.Decode.Log.{Group, IsGroup, log_bytes}
use storage_engine.Wal.Decode.Groups.{whole_records, decode_log-groups}
use storage_engine.Wal.Decode.Loop.{decode_loop-stop, decode_loop-err}

==-false : (a b : ℕ) → a ≢ b → a == b ≡ false
==-false a b differ = elim (Bool-cases (a == b)) [
  | inl e ↦ absurd (differ ((==_iff a b).0 e))
  | inr e ↦ e
]

module _ (cpu : Cpu) (front rest : ByteString) (crc size type : ℕ) (hc : crc < 2 ^ 32)
    (hs : size < 2 ^ 32) where
  abbrev bytes : ByteString
  bytes = with_header front rest crc size type

  payload_at : drop (length front + 4 + 4 + 1) bytes ≡ rest
  payload_at =
      ap (drop (length front + 4 + 4 + 1)) (
        let e : bytes ≡ (((front ++ le_bytes 4 crc) ++ le_bytes 4 size) ++ (type ∷ [])) ++ rest =
          simp append_assoc in
        e)
      ∙ drop-append (length front + 4 + 4 + 1)
          (((front ++ le_bytes 4 crc) ++ le_bytes 4 size) ++ (type ∷ [])) rest
          (omega (
            arith,
            length-to_type front rest crc size type,
            length-append ((front ++ le_bytes 4 crc) ++ le_bytes 4 size) (type ∷ []),
          ))

  record_checked :
      decode_record cpu bytes (length front)
      ≡ check_record cpu bytes (length front) (header_at front rest crc size type)
  unfolding decode_record check_header
  record_checked = rw (read_header_lem front rest crc size type hc hs) refl

  inside : size ≤ length rest → ltb (length bytes) (length front + 4 + 4 + 1 + size) ≡ false
  inside h =
      ltb-false (length bytes) (length front + 4 + 4 + 1 + size)
        (omega (arith, length-with_header front rest crc size type))

  pub decode_record-cut : length rest < size → decode_record cpu bytes (length front) ≡ ok stop
  unfolding check_record
  decode_record-cut h =
      record_checked
      ∙ rw
          (ltb-true (length bytes) (length front + 4 + 4 + 1 + size)
            (omega (arith, length-with_header front rest crc size type)))
          refl

  pub decode_record-type :
      size ≤ length rest
      → type ≢ 1
      → decode_record cpu bytes (length front) ≡ err (corruption "unknown WAL record type")
  unfolding check_record
  decode_record-type h other = record_checked ∙ rw (inside h, ==-false type 1 other) refl

  pub decode_record-crc :
      size < length rest
      → type ≡ 1
      → crc32c cpu (take size rest) ≢ crc
      → decode_record cpu bytes (length front) ≡ err (corruption "WAL checksum mismatch")
  unfolding check_record
  decode_record-crc h known differ =
      record_checked
      ∙ rw
          (
            inside (omega arith),
            payload_at,
            ==-false (crc32c cpu (take size rest)) crc differ,
            leb-false (length bytes) (length front + 9 + size)
                (omega (arith, length-with_header front rest crc size type)),
            known,
          )
          refl

  pub decode_record-last_crc :
      size ≡ length rest
      → type ≡ 1
      → crc32c cpu (take size rest) ≢ crc
      → decode_record cpu bytes (length front) ≡ ok stop
  unfolding check_record
  decode_record-last_crc h known differ =
      record_checked
      ∙ rw
          (
            inside (omega arith),
            payload_at,
            ==-false (crc32c cpu (take size rest)) crc differ,
            leb-true (length bytes) (length front + 9 + size)
                (omega (arith, length-with_header front rest crc size type)),
            known,
          )
          refl

module _ (cpu : Cpu) (gs : List Group) (rest : ByteString) (crc size type : ℕ) where
  -- The records of `gs` and behind them a header with any fields and any bytes.
  abbrev pub log_with_header : ByteString
  log_with_header = with_header (log_bytes cpu gs) rest crc size type

  starts_inside : length (log_bytes cpu gs) < length log_with_header
  starts_inside = omega (arith, length-with_header (log_bytes cpu gs) rest crc size type)

  -- What `DecodeLog` makes of a header behind whole records, whatever its three fields say. A size
  -- that reaches beyond the log is a torn tail: the whole records are returned and the rest is
  -- dropped. Otherwise a type other than one is an error. With the right type, a checksum that does
  -- not fit is an error when bytes stand behind the record, and a torn tail when none do. The fields
  -- fit 32 bits, and so do the numbers of the groups.
  pub decode_log-behind :
      All IsGroup gs
      → crc < 2 ^ 32
      → size < 2 ^ 32
      → (length rest < size → decode_log cpu log_with_header ≡ some (ok (whole_records cpu gs)))
        × (size ≤ length rest
            → type ≢ 1
            → decode_log cpu log_with_header ≡ some (err (corruption "unknown WAL record type")))
        × (size < length rest
            → type ≡ 1
            → crc32c cpu (take size rest) ≢ crc
            → decode_log cpu log_with_header ≡ some (err (corruption "WAL checksum mismatch")))
        × (size ≡ length rest
            → type ≡ 1
            → crc32c cpu (take size rest) ≢ crc
            → decode_log cpu log_with_header ≡ some (ok (whole_records cpu gs)))
  decode_log-behind hgs hc hs = (
    (λ h. stops (decode_record-cut cpu (log_bytes cpu gs) rest crc size type hc hs h)),
    (λ h other.
        fails (corruption "unknown WAL record type")
          (decode_record-type cpu (log_bytes cpu gs) rest crc size type hc hs h other)),
    (λ h known differ.
        fails (corruption "WAL checksum mismatch")
          (decode_record-crc cpu (log_bytes cpu gs) rest crc size type hc hs h known differ)),
    λ h known differ.
        stops
          (decode_record-last_crc cpu (log_bytes cpu gs) rest crc size type hc hs h known differ),
  )
    where
      stops :
          decode_record cpu log_with_header (length (log_bytes cpu gs)) ≡ ok stop
          → decode_log cpu log_with_header ≡ some (ok (whole_records cpu gs))
      stops e =
          decode_log-groups cpu gs _ hgs
          ∙ decode_loop-stop cpu _ log_with_header _ (whole_records cpu gs) e

      fails :
          (s : Status)
          → decode_record cpu log_with_header (length (log_bytes cpu gs)) ≡ err s
          → decode_log cpu log_with_header ≡ some (err s)
      fails s e =
          decode_log-groups cpu gs _ hgs
          ∙ decode_loop-err cpu _ log_with_header _ (whole_records cpu gs) s starts_inside e
