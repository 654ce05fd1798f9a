-- ===== src/Wal/Decode/Prefix.antt =====
-- Decoding the valid bytes alone gives what decoding the whole input gave.
use storage_engine.Base.{
  ℕ, zero, suc, ◌+◌, ◌≤◌, ◌≡◌, refl, ap, sym, ◌∙◌, arith, Option, some, [], length, take,
  length-take, take-drop-take, get_or-take, leb-false, Option-cases, inl, inr,
}
use storage_engine.Status.{Result, ok}
use storage_engine.Bytes.{ByteString, read_fixed32_le}
use storage_engine.Bytes.Fixed.{read_fixed32_le-take, read_fixed32_le_offset}
use storage_engine.Crc.{Cpu, crc32c}
use storage_engine.Wal.Decode.{
  DecodedBatch, DecodeResult, read_header_type, read_header, decode_payload, decode_loop,
  decode_log,
}
use storage_engine.Wal.Decode.Loop.{
  decode_loop-end, decode_loop-stop, decode_loop-next, decode_loop-err,
}
use storage_engine.Wal.Decode.Accept.{IsRecord, payload_of, IsRecord-decode_record}
use storage_engine.Wal.Decode.Total.{
  ended, stopped, failed, accepted, turn, decode_loop_valid, decode_loop_total, decode_loop_fuel,
}

read_header-take :
    (n : ℕ) (bytes : ByteString) (offset : ℕ)
    → offset + 9 ≤ n
    → n ≤ length bytes
    → read_header (take n bytes) offset ≡ read_header bytes offset
unfolding read_header read_header_type
read_header-take n bytes offset h b = elim (Option-cases (read_fixed32_le bytes offset)) [
  | inl e ↦ rw (read_fixed32_le-take n bytes offset (omega arith) b, e)
  | inr ((crc, at), p) ↦
      let (here, _) = read_fixed32_le_offset bytes offset crc at p in
      elim (Option-cases (read_fixed32_le bytes at)) [
        | inl e ↦ rw (
          read_fixed32_le-take n bytes offset (omega arith) b,
          p,
          read_fixed32_le-take n bytes at (omega arith) b,
          e,
        )
        | inr ((size, at'), q) ↦
            let (there, _) = read_fixed32_le_offset bytes at size at' q in
            rw (
              read_fixed32_le-take n bytes offset (omega arith) b,
              p,
              read_fixed32_le-take n bytes at (omega arith) b,
              q,
              leb-false (length (take n bytes)) at' (omega (arith, length-take n bytes)),
              leb-false (length bytes) at' (omega arith),
              get_or-take n bytes at' 0 (omega arith),
            )
      ]
]

IsRecord-take :
    (cpu : Cpu) (n : ℕ) (bytes : ByteString) (offset : ℕ) (decoded : DecodedBatch) (end : ℕ)
    → end ≤ n
    → n ≤ length bytes
    → IsRecord cpu bytes offset decoded end
    → IsRecord cpu (take n bytes) offset decoded end
IsRecord-take cpu n bytes offset decoded end h b r = record {
  header = r.header;
  reads = read_header-take n bytes offset (omega (arith, r.starts, r.ends)) b ∙ r.reads;
  starts = r.starts;
  type_known = r.type_known;
  ends = r.ends;
  inside = omega (arith, length-take n bytes);
  checksum = ap (crc32c cpu) same ∙ r.checksum;
  decodes = ap decode_payload same ∙ r.decodes;
}
  where
    same : payload_of (take n bytes) r.header ≡ payload_of bytes r.header
    same = take-drop-take n r.header.size r.header.offset bytes (omega (arith, r.ends))

decode_loop-take :
    (cpu : Cpu) (fuel : ℕ) (bytes : ByteString) (offset : ℕ) (result r : DecodeResult)
    → result.valid_bytes ≡ offset
    → offset ≤ length bytes
    → decode_loop cpu fuel bytes offset result ≡ some (ok r)
    → decode_loop cpu fuel (take r.valid_bytes bytes) offset result ≡ some (ok r)
decode_loop-take cpu zero bytes offset result r hv b e = unfold decode_loop in cc
decode_loop-take cpu (suc fuel) bytes offset result r hv b e = elim (turn cpu bytes offset) [
  | ended p ↦ finished (sym (decode_loop-end cpu fuel bytes offset result p) ∙ e)
  | stopped l p ↦ finished (sym (decode_loop-stop cpu fuel bytes offset result p) ∙ e)
  | failed s l p ↦ cc (decode_loop-err cpu fuel bytes offset result s l p)
  | accepted decoded end l p v ↦
      let rest = sym (decode_loop-next cpu fuel bytes offset result decoded end l p) ∙ e in
      let (lo, hi) = decode_loop_valid cpu fuel bytes end _ r refl v.inside rest in
      decode_loop-next cpu fuel (take r.valid_bytes bytes) offset result decoded end
        (omega (arith, length-take r.valid_bytes bytes, lo, hi, v.starts, v.ends))
        (IsRecord-decode_record cpu _ offset decoded end
          (IsRecord-take cpu r.valid_bytes bytes offset decoded end lo hi v))
      ∙ decode_loop-take cpu fuel bytes end _ r refl v.inside rest
]
  where
    finished :
        ◌≡◌ {A = Option (Result DecodeResult)} (some (ok result)) (some (ok r))
        → decode_loop cpu (suc fuel) (take r.valid_bytes bytes) offset result ≡ some (ok r)
    finished q =
        let at_end : r.valid_bytes ≡ offset = ground arith in
        decode_loop-end cpu fuel (take r.valid_bytes bytes) offset result
          (omega (arith, length-take r.valid_bytes bytes))
        ∙ q

-- A log that decodes, cut at its valid bytes, decodes to the same batches and the same length: a
-- second recovery after the truncation finds what the first one found.
pub decode_log-valid_prefix :
    (cpu : Cpu) (bytes : ByteString) (r : DecodeResult)
    → decode_log cpu bytes ≡ some (ok r)
    → decode_log cpu (take r.valid_bytes bytes) ≡ some (ok r)
unfolding decode_log
decode_log-valid_prefix cpu bytes r e =
    let cut = take r.valid_bytes bytes in
    let start : DecodeResult = record { batches = []; valid_bytes = 0 } in
    let long = decode_loop-take cpu (suc (length bytes)) bytes 0 start r refl (omega arith) e in
    let (s, short) =
      decode_loop_total cpu (suc (length cut)) cut 0 start (omega arith) (omega arith) in
    let grown =
      decode_loop_fuel cpu (suc (length cut)) (suc (length bytes)) cut 0 start s
        (omega (arith, length-take r.valid_bytes bytes)) short in
    short ∙ sym grown ∙ long
