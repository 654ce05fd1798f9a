-- ===== src/Status.antt =====
-- include/storage_engine/status.h: error codes, `Status`, and `Result<T>`.
use storage_engine.Base.{String, Bool, true, false}

pub data StatusCode : Type 0 where
  k_ok k_not_found k_invalid_argument k_io_error k_corruption : StatusCode

pub record Status : Type 0 where
  pub code : StatusCode
  pub message : String

abbrev pub ok_status : Status
ok_status = record { code = StatusCode.k_ok; message = "" }

abbrev pub not_found : String → Status
not_found message = record { code = StatusCode.k_not_found; message = message }

abbrev pub invalid_argument : String → Status
invalid_argument message = record { code = StatusCode.k_invalid_argument; message = message }

abbrev pub io_error : String → Status
io_error message = record { code = StatusCode.k_io_error; message = message }

abbrev pub corruption : String → Status
corruption message = record { code = StatusCode.k_corruption; message = message }

abbrev is_k_ok : StatusCode → Bool
is_k_ok StatusCode.k_ok = true
is_k_ok _ = false

-- `Status::ok()`
abbrev pub status_ok : Status → Bool
status_ok s = is_k_ok s.code

-- `Result<T>` holds a value or, with `ok_` false, the status of a failure.
pub data Result {ℓ} (T : Type ℓ) : Type ℓ where
  ok : (value : T) → Result T
  err : (status : Status) → Result T

infixl 5 ◌>>=◌ ◌>>◌
abbrev pub ◌>>=◌ {ℓ κ} : {T : Type ℓ} {U : Type κ} → Result T → (T → Result U) → Result U
err status >>= next = err status
ok value >>= next = next value

abbrev pub ◌>>◌ {κ} : {U : Type κ} → Result (Unit {0}) → Result U → Result U
err status >> next = err status
ok done >> next = next

-- `if (bad) return failure;`
abbrev pub reject : Bool → Status → Result (Unit {0})
reject true e = err e
reject false e = ok tt
