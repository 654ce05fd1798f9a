-- ===== src/Wal/Decode.antt =====
-- src/wal.cc, `DecodeLog`: the records of a log from its start to the first torn one.
pub mod Entries
pub mod Header
pub mod Loop
pub mod Accept
pub mod Total
pub mod Prefix
pub mod Log
pub mod Groups
pub mod Torn
pub mod Damage
pub mod Burst
use storage_engine.Base.{
  ℕ, zero, suc, ◌+◌, not, Option, none, some, List, [], ◌∷◌, ◌++◌, length, get_or, take, drop, ltb,
  leb, ◌==◌, if◌then◌else◌,
}
use storage_engine.Status.{Status, Result, ok, err, corruption, ◌>>=◌, ◌>>◌, reject}
use storage_engine.Bytes.{ByteString, read_fixed32_le, read_fixed64_le}
use storage_engine.Batch.{k_put, k_delete, type_byte, WriteBatch, new_batch, put, delete}
use storage_engine.Crc.{Cpu, crc32c}
use storage_engine.Wal.{k_batch_record}

pub record DecodedBatch : Type 0 where
  pub base_sequence : ℕ
  pub batch : WriteBatch

pub record DecodeResult : Type 0 where
  pub batches : List DecodedBatch
  pub valid_bytes : ℕ

-- `if (!read(...)) return Status::Corruption(message);`
abbrev required : Option (ℕ × ℕ) → Status → Result (ℕ × ℕ)
required none e = err e
required (some r) e = ok r

-- `decoded.batch.Put(key, value)`, `decoded.batch.Delete(key)`, or an unknown type.
add_decoded : ℕ → WriteBatch → ByteString → ByteString → Result WriteBatch
add_decoded type batch key value =
    if type == type_byte k_put
    then ok (put batch key value)
    else if type == type_byte k_delete
    then ok (delete batch key)
    else err (corruption "unknown WAL entry type")

-- One round of the loop over the entries: the new batch and offset.
pub decode_entry : ByteString → ℕ → WriteBatch → Result (WriteBatch × ℕ)
decode_entry payload offset batch = do
  reject (leb (length payload) offset) (corruption "truncated WAL batch entry")
  let type = get_or payload offset 0
  (key_size, offset) ←
      required (read_fixed32_le payload (offset + 1)) (corruption "invalid WAL batch entry")
  (value_size, offset) ←
      required (read_fixed32_le payload offset) (corruption "invalid WAL batch entry")
  reject (ltb (length payload) (offset + key_size + value_size))
      (corruption "truncated WAL batch payload")
  let key = take key_size (drop offset payload)
  let value = take value_size (drop (offset + key_size) payload)
  batch ← add_decoded type batch key value
  ok (batch, offset + key_size + value_size)

-- `left` counts the rounds down.
pub decode_entries : (left : ℕ) → ByteString → ℕ → WriteBatch → Result WriteBatch
decode_entries zero payload offset batch = ok batch
decode_entries (suc left) payload offset batch = do
  (batch, offset) ← decode_entry payload offset batch
  decode_entries left payload offset batch

pub decode_payload : ByteString → Result DecodedBatch
decode_payload payload = do
  (base_sequence, offset) ←
      required (read_fixed64_le payload 0) (corruption "invalid WAL batch header")
  (entry_count, offset) ←
      required (read_fixed32_le payload offset) (corruption "invalid WAL batch header")
  batch ← decode_entries entry_count payload offset new_batch
  ok (record { base_sequence = base_sequence; batch = batch })

-- The header of a record; `offset` is that of the payload.
pub record RecordHeader : Type 0 where
  pub expected_crc : ℕ
  pub size : ℕ
  pub type : ℕ
  pub offset : ℕ

-- `none` where the loop breaks.
read_header_type : ByteString → (expected_crc size offset : ℕ) → Option RecordHeader
read_header_type bytes expected_crc size offset =
    if leb (length bytes) offset
    then none
    else some (record {
      expected_crc = expected_crc;
      size = size;
      type = get_or bytes offset 0;
      offset = offset + 1;
    })

-- `if (!read(...)) break;`
abbrev or_break : Option (ℕ × ℕ) → (ℕ → ℕ → Option RecordHeader) → Option RecordHeader
or_break none continue = none
or_break (some (value, offset)) continue = continue value offset

pub read_header : ByteString → ℕ → Option RecordHeader
read_header bytes offset = or_break (read_fixed32_le bytes offset) λ expected_crc offset.
    or_break (read_fixed32_le bytes offset)
      λ size offset. read_header_type bytes expected_crc size offset

-- What one round of the loop does: it breaks, or it adds a batch and goes on at an offset.
pub data Round : Type 0 where
  stop : Round
  next : DecodedBatch → ℕ → Round

-- An error returns, a break ends the loop, and else the loop goes on.
abbrev after_round :
    Result Round
    → DecodeResult
    → (DecodedBatch → ℕ → Option (Result DecodeResult))
    → Option (Result DecodeResult)
after_round (err e) result continue = some (err e)
after_round (ok stop) result continue = some (ok result)
after_round (ok (next decoded offset)) result continue = continue decoded offset

module _ (cpu : Cpu) where
  pub check_record : ByteString → (record_offset : ℕ) → RecordHeader → Result Round
  check_record bytes record_offset h =
      let payload = take h.size (drop h.offset bytes) in
      let accepted = (do decoded ← decode_payload payload; ok (next decoded (h.offset + h.size))) in
      if ltb (length bytes) (h.offset + h.size)
      then ok stop
      else if not (h.type == k_batch_record)
      then err (corruption "unknown WAL record type")
      else if not (crc32c cpu payload == h.expected_crc)
      then (if leb (length bytes) (record_offset + 9 + h.size)
          then ok stop
          else err (corruption "WAL checksum mismatch"))
      else accepted

  check_header : ByteString → (record_offset : ℕ) → Option RecordHeader → Result Round
  check_header bytes record_offset none = ok stop
  check_header bytes record_offset (some h) = check_record bytes record_offset h

  pub decode_record : ByteString → ℕ → Result Round
  decode_record bytes offset = check_header bytes offset (read_header bytes offset)

  -- `none` says that the fuel ran out.
  pub decode_loop : (fuel : ℕ) → ByteString → ℕ → DecodeResult → Option (Result DecodeResult)
  decode_loop zero bytes offset result = none
  decode_loop (suc fuel) bytes offset result =
      if ltb offset (length bytes)
      then after_round (decode_record bytes offset) result (λ decoded offset'.
        decode_loop fuel bytes offset'
          (record { batches = result.batches ++ (decoded ∷ []); valid_bytes = offset' }))
      else some (ok result)

  -- A record takes nine bytes at least, so one round for each byte is enough.
  pub decode_log : ByteString → Option (Result DecodeResult)
  decode_log bytes =
      decode_loop (suc (length bytes)) bytes 0 (record { batches = []; valid_bytes = 0 })
