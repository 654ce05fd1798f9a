-- ===== src/Db/Total.antt =====
-- `recover` ends: the fuel of `DecodeLog` does not run out, whatever the kernel answers.
use storage_engine.Base.{ℕ, ◌≡◌, refl, inl, inr, Bool-cases, ◌==◌, Option, some, length, take}
use storage_engine.Status.{Status, Result, ok, err}
use storage_engine.Bytes.{ByteString}
use storage_engine.Wal.Decode.{DecodeResult}
use storage_engine.Wal.Decode.Total.{decode_log_total}
use storage_engine.Io.{Completion, done, failed}
use storage_engine.Db.{
  Environment, Db, recover, recover_size, recover_read, recover_bytes, recover_decoded,
}

module _ (env : Environment) (db : Db) where
  abbrev Ends : Option (Status × Db) → Type 0
  Ends o = (r : Status × Db) × (o ≡ some r)

  recover_decoded_total :
      (read_size : ℕ) (result : Result DecodeResult)
      → Ends (recover_decoded env db read_size (some result))
  unfolding recover_decoded
  recover_decoded_total read_size (err e) = (_, refl)
  recover_decoded_total read_size (ok result) = (_, refl)

  recover_bytes_total : (bytes : ByteString) → Ends (recover_bytes env db bytes)
  unfolding recover_bytes
  recover_bytes_total bytes =
      let (result, e) = decode_log_total env.cpu bytes in
      rw e (recover_decoded_total (length bytes) result)

  recover_read_total : (answer : Result ℕ) → Ends (recover_read env db answer)
  unfolding recover_read
  recover_read_total (err e) = (_, refl)
  recover_read_total (ok n) = recover_bytes_total (take n db.file)

recover_size_total :
    (env : Environment) (db : Db) (answer : Completion)
    → (r : Status × Db) × (recover_size env db answer ≡ some r)
unfolding recover_size
recover_size_total env db (failed errno) = (_, refl)
recover_size_total env db (done size) = elim (Bool-cases (size == 0)) [
  | inl empty ↦ rw empty (_, refl)
  | inr full ↦ rw full (recover_read_total env (record db { wal_offset = size }) _)
]

pub recover_total : (env : Environment) (db : Db) → (r : Status × Db) × (recover env db ≡ some r)
unfolding recover
recover_total env db = recover_size_total env db (env.kernel.fstat db.file)
