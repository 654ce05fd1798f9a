-- ===== src/Wal/Decode/Burst.antt =====
-- `DecodeLog` on a record in whose payload up to four bytes in a row were changed.
use storage_engine.Base.{
  ◌+◌, ◌<◌, ◌≤◌, ◌≡◌, ◌≢◌, refl, sym, ap, ◌∙◌, arith, some, List, ◌++◌, length, length-append, take,
  take-append, All,
}
use storage_engine.Status.{ok, err, corruption}
use storage_engine.Bytes.{ByteString}
use storage_engine.Crc.{Cpu, crc32c, crc32c-lt}
use storage_engine.Crc.Detect.{crc32c-burst}
use storage_engine.Crc.Hardware.{IsSse42}
use storage_engine.Crc.Linear.{IsByte}
use storage_engine.Wal.Encode.Layout.{all_entries, payload_bytes}
use storage_engine.Wal.Decode.{decode_log}
use storage_engine.Wal.Decode.Damage.{log_with_header, decode_log-behind}
use storage_engine.Wal.Decode.Groups.{whole_records}
use storage_engine.Wal.Decode.Log.{Group, IsGroup, payload_fits}

abbrev pub payload_of : Group → ByteString
payload_of g = payload_bytes g.base_sequence (all_entries g.batches)

module _ (cpu : Cpu) (gs : List Group) (g : Group) (before xs ys behind more : ByteString) where
  -- The records of `gs`, the one of `g` with `ys` in the place of `xs`, and any bytes.
  abbrev pub damaged_log : ByteString
  damaged_log =
      log_with_header cpu gs ((before ++ (ys ++ behind)) ++ more) (crc32c cpu (payload_of g))
        (length (payload_of g)) 1

  -- A record in whose payload up to four bytes in a row were changed is never accepted: with bytes
  -- behind it `DecodeLog` returns an error, and at the end of the log it returns the records before
  -- it. The numbers of the groups fit their fields, the payload is of bytes before and after the
  -- change, and the processor's CRC instructions divide as documented.
  pub decode_log-burst :
      IsSse42 cpu
      → All IsGroup gs
      → IsGroup g
      → before ++ (xs ++ behind) ≡ payload_of g
      → All IsByte before
      → All IsByte behind
      → All IsByte xs
      → All IsByte ys
      → length xs ≡ length ys
      → length xs ≤ 4
      → xs ≢ ys
      → (0 < length more
          → decode_log cpu damaged_log ≡ some (err (corruption "WAL checksum mismatch")))
        × (length more ≡ 0 → decode_log cpu damaged_log ≡ some (ok (whole_records cpu gs)))
  decode_log-burst sse hgs hg payload hb hr hx hy same short differ =
      let (cut, unknown, mismatch, last) =
        decode_log-behind cpu gs ((before ++ (ys ++ behind)) ++ more) (crc32c cpu (payload_of g))
          (length (payload_of g)) 1 hgs (crc32c-lt cpu (payload_of g)) (payload_fits cpu g hg) in
      (
        λ h. mismatch (omega (arith, h, sizes, size)) refl changed,
        λ h. last (omega (arith, h, sizes, size)) refl changed,
      )
    where
      size : length (payload_of g) ≡ length (before ++ (ys ++ behind))
      size = omega (
        arith,
        ap length payload,
        length-append before (xs ++ behind),
        length-append xs behind,
        length-append before (ys ++ behind),
        length-append ys behind,
        same,
      )

      sizes :
          length ((before ++ (ys ++ behind)) ++ more)
          ≡ length (before ++ (ys ++ behind)) + length more
      sizes = length-append (before ++ (ys ++ behind)) more

      changed :
          crc32c cpu (take (length (payload_of g)) ((before ++ (ys ++ behind)) ++ more))
          ≢ crc32c cpu (payload_of g)
      changed e = crc32c-burst before behind xs ys hb hr hx hy same short cpu sse differ (
          ap (crc32c cpu) payload
          ∙ sym e
          ∙ ap (crc32c cpu)
              (take-append (length (payload_of g)) (before ++ (ys ++ behind)) more (sym size)))
