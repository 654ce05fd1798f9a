-- ===== src/Wal/Decode/Total.antt =====
-- `DecodeLog` ends on every input, and the bytes that it calls valid are a prefix of the input.
use storage_engine.Base.{
  ℕ, zero, suc, ◌+◌, ◌<◌, ◌≤◌, ◌≡◌, refl, arith, Option, some, [], ◌∷◌, ◌++◌, length, ltb,
  Bool-cases, inl, inr, lt_of_ltb, ge_of_ltb, ◌∙◌, sym,
}
use storage_engine.Status.{Status, Result, ok, err}
use storage_engine.Bytes.{ByteString}
use storage_engine.Crc.{Cpu}
use storage_engine.Wal.Decode.{
  DecodedBatch, DecodeResult, Round, stop, next, decode_record, decode_loop, decode_log,
}
use storage_engine.Wal.Decode.Loop.{
  decode_loop-end, decode_loop-stop, decode_loop-next, decode_loop-err,
}
use storage_engine.Wal.Decode.Accept.{IsRecord, decode_record-IsRecord}

-- The ways that a round of the loop can go.
pub data Turn (cpu : Cpu) (bytes : ByteString) (offset : ℕ) : Type 0 where
  ended : length bytes ≤ offset → Turn cpu bytes offset
  stopped : offset < length bytes → decode_record cpu bytes offset ≡ ok stop → Turn cpu bytes offset
  failed :
      (s : Status)
      → offset < length bytes
      → decode_record cpu bytes offset ≡ err s
      → Turn cpu bytes offset
  accepted :
      (decoded : DecodedBatch) (end : ℕ)
      → offset < length bytes
      → decode_record cpu bytes offset ≡ ok (next decoded end)
      → IsRecord cpu bytes offset decoded end
      → Turn cpu bytes offset

pub turn : (cpu : Cpu) (bytes : ByteString) (offset : ℕ) → Turn cpu bytes offset
turn cpu bytes offset = elim (Bool-cases (ltb offset (length bytes))) [
  | inl more ↦ by_round (lt_of_ltb offset (length bytes) more) (decode_record cpu bytes offset) refl
  | inr done ↦ ended (ge_of_ltb offset (length bytes) done)
]
  where
    by_round :
        offset < length bytes
        → (r : Result Round) → decode_record cpu bytes offset ≡ r
        → Turn cpu bytes offset
    by_round h (err s) e = failed s h e
    by_round h (ok stop) e = stopped h e
    by_round h (ok (next decoded end)) e =
        accepted decoded end h e (decode_record-IsRecord cpu bytes offset decoded end e)

pub decode_loop_total :
    (cpu : Cpu) (fuel : ℕ) (bytes : ByteString) (offset : ℕ) (result : DecodeResult)
    → offset ≤ length bytes
    → length bytes < offset + fuel
    → (r : Result DecodeResult) × (decode_loop cpu fuel bytes offset result ≡ some r)
decode_loop_total cpu zero bytes offset result b h = absurd (omega arith)
decode_loop_total cpu (suc fuel) bytes offset result b h = elim (turn cpu bytes offset) [
  | ended e ↦ (ok result, decode_loop-end cpu fuel bytes offset result e)
  | stopped l e ↦ (ok result, decode_loop-stop cpu fuel bytes offset result e)
  | failed s l e ↦ (err s, decode_loop-err cpu fuel bytes offset result s l e)
  | accepted decoded end l e v ↦
      let (r, p) =
        decode_loop_total cpu fuel bytes end
          (record { batches = result.batches ++ (decoded ∷ []); valid_bytes = end }) v.inside
          (omega (arith, v.starts, v.ends)) in
      (r, decode_loop-next cpu fuel bytes offset result decoded end l e ∙ p)
]

-- `DecodeLog` returns on every byte string: one round for each byte, and one more, is enough.
pub decode_log_total :
    (cpu : Cpu) (bytes : ByteString) → (r : Result DecodeResult) × (decode_log cpu bytes ≡ some r)
unfolding decode_log
decode_log_total cpu bytes =
    decode_loop_total cpu (suc (length bytes)) bytes 0 _ (omega arith) (omega arith)

-- More fuel does not change a result.
pub decode_loop_fuel :
    (cpu : Cpu) (fuel fuel' : ℕ) (bytes : ByteString) (offset : ℕ) (result : DecodeResult)
    (r : Result DecodeResult)
    → fuel ≤ fuel'
    → decode_loop cpu fuel bytes offset result ≡ some r
    → decode_loop cpu fuel' bytes offset result ≡ some r
decode_loop_fuel cpu zero fuel' bytes offset result r h e = unfold decode_loop in cc
decode_loop_fuel cpu (suc fuel) zero bytes offset result r h e = absurd (omega arith)
decode_loop_fuel cpu (suc fuel) (suc fuel') bytes offset result r h e =
    elim (turn cpu bytes offset) [
      | ended p ↦
          decode_loop-end cpu fuel' bytes offset result p
          ∙ sym (decode_loop-end cpu fuel bytes offset result p)
          ∙ e
      | stopped l p ↦
          decode_loop-stop cpu fuel' bytes offset result p
          ∙ sym (decode_loop-stop cpu fuel bytes offset result p)
          ∙ e
      | failed s l p ↦
          decode_loop-err cpu fuel' bytes offset result s l p
          ∙ sym (decode_loop-err cpu fuel bytes offset result s l p)
          ∙ e
      | accepted decoded end l p v ↦
          decode_loop-next cpu fuel' bytes offset result decoded end l p
          ∙ decode_loop_fuel cpu fuel fuel' bytes end _ r (omega arith)
              (sym (decode_loop-next cpu fuel bytes offset result decoded end l p) ∙ e)
    ]

pub decode_loop_valid :
    (cpu : Cpu) (fuel : ℕ) (bytes : ByteString) (offset : ℕ) (result r : DecodeResult)
    → result.valid_bytes ≡ offset
    → offset ≤ length bytes
    → decode_loop cpu fuel bytes offset result ≡ some (ok r)
    → (offset ≤ r.valid_bytes) × (r.valid_bytes ≤ length bytes)
decode_loop_valid cpu zero bytes offset result r hv b e = unfold decode_loop in cc
decode_loop_valid cpu (suc fuel) bytes offset result r hv b e = elim (turn cpu bytes offset) [
  | ended p ↦ same (sym (decode_loop-end cpu fuel bytes offset result p) ∙ e)
  | stopped l p ↦ same (sym (decode_loop-stop cpu fuel bytes offset result p) ∙ e)
  | failed s l p ↦ cc (decode_loop-err cpu fuel bytes offset result s l p)
  | accepted decoded end l p v ↦
      let (lo, hi) =
        decode_loop_valid cpu fuel bytes end _ r refl v.inside
          (sym (decode_loop-next cpu fuel bytes offset result decoded end l p) ∙ e) in
      (omega (arith, lo, v.starts, v.ends), hi)
]
  where
    same :
        ◌≡◌ {A = Option (Result DecodeResult)} (some (ok result)) (some (ok r))
        → (offset ≤ r.valid_bytes) × (r.valid_bytes ≤ length bytes)
    same q = ground arith

-- The valid bytes never reach beyond the input.
pub decode_log-valid_bytes :
    (cpu : Cpu) (bytes : ByteString) (r : DecodeResult)
    → decode_log cpu bytes ≡ some (ok r)
    → r.valid_bytes ≤ length bytes
unfolding decode_log
decode_log-valid_bytes cpu bytes r e =
    (decode_loop_valid cpu (suc (length bytes)) bytes 0 _ r refl (omega arith) e).1
