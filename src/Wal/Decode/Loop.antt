-- ===== src/Wal/Decode/Loop.antt =====
-- The loop of `DecodeLog`: one lemma for each way that a round ends, and its termination.
use storage_engine.Base.{
  ℕ, suc, ◌<◌, ◌≤◌, ◌≡◌, refl, some, [], ◌∷◌, ◌++◌, length, ltb, ltb-true, ltb-false, if_both,
}
use storage_engine.Status.{Status, ok, err}
use storage_engine.Bytes.{ByteString}
use storage_engine.Crc.{Cpu}
use storage_engine.Wal.Decode.{DecodedBatch, DecodeResult, stop, next, decode_record, decode_loop}

module _ (cpu : Cpu) (fuel : ℕ) (bytes : ByteString) (offset : ℕ) (result : DecodeResult) where
  pub decode_loop-end :
      length bytes ≤ offset → decode_loop cpu (suc fuel) bytes offset result ≡ some (ok result)
  unfolding decode_loop
  decode_loop-end h = rw (ltb-false offset (length bytes) h)

  pub decode_loop-stop :
      decode_record cpu bytes offset ≡ ok stop
      → decode_loop cpu (suc fuel) bytes offset result ≡ some (ok result)
  unfolding decode_loop
  decode_loop-stop e = rw e (if_both (ltb offset (length bytes)) _ _ _ refl refl)

  pub decode_loop-next :
      (decoded : DecodedBatch) (offset' : ℕ)
      → offset < length bytes
      → decode_record cpu bytes offset ≡ ok (next decoded offset')
      → decode_loop cpu (suc fuel) bytes offset result
        ≡ decode_loop cpu fuel bytes offset'
            (record { batches = result.batches ++ (decoded ∷ []); valid_bytes = offset' })
  unfolding decode_loop
  decode_loop-next decoded offset' h e = rw (ltb-true offset (length bytes) h, e)

  pub decode_loop-err :
      (s : Status)
      → offset < length bytes
      → decode_record cpu bytes offset ≡ err s
      → decode_loop cpu (suc fuel) bytes offset result ≡ some (err s)
  unfolding decode_loop
  decode_loop-err s h e = rw (ltb-true offset (length bytes) h, e)
