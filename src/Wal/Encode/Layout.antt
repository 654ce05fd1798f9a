-- ===== src/Wal/Encode/Layout.antt =====
-- The bytes of a record, as the concatenation of its fields.
use storage_engine.Base.{
  ℕ, ◌+◌, ◌%◌, ◌^◌, ◌<◌, ◌≡◌, refl, sym, ap, ap₂, ◌∙◌, arith, List, [], ◌∷◌, ◌++◌, append-nil,
  append_assoc, length, length-append, drop, drop-length_append,
}
use storage_engine.Bytes.{ByteString, append_fixed32_le, append_fixed64_le, write_fixed32_le}
use storage_engine.Bytes.Fixed.{
  le_bytes, length-le_bytes, le_bytes_low, append_fixed32_le_lem, append_fixed64_le_lem,
  write_fixed32_le_lem,
}
use storage_engine.Batch.{type_byte, Entry, WriteBatch}
use storage_engine.Crc.{Cpu, crc32c}
use storage_engine.Wal.{
  k_batch_record, count_loop, count_entries, entries_size, batches_size, encoded_batch_size,
}
use storage_engine.Wal.Encode.{append_entry, append_entries, append_batches, encode_batch_into}

-- The header and the data of an entry, and of a list of them.
abbrev pub entry_header : Entry → ByteString
entry_header e = type_byte e.type ∷ (le_bytes 4 (length e.key) ++ le_bytes 4 (length e.value))

abbrev pub entry_bytes : Entry → ByteString
entry_bytes e = entry_header e ++ (e.key ++ e.value)

abbrev pub entries_bytes : List Entry → ByteString
entries_bytes [] = []
entries_bytes (e ∷ es) = entry_bytes e ++ entries_bytes es

-- The entries of a group of batches, in order.
abbrev pub all_entries : List WriteBatch → List Entry
all_entries [] = []
all_entries (batch ∷ batches) = batch.entries ++ all_entries batches

abbrev pub payload_bytes : ℕ → List Entry → ByteString
payload_bytes base_sequence es =
    le_bytes 8 base_sequence ++ (le_bytes 4 (length es) ++ entries_bytes es)

abbrev pub record_bytes : ℕ → ByteString → ByteString
record_bytes crc payload =
    le_bytes 4 crc ++ (le_bytes 4 (length payload) ++ (k_batch_record ∷ payload))

ruleset join = (append_fixed32_le_lem, append_fixed64_le_lem, le_bytes_low, append_assoc)

append_entry-eq : (rec : ByteString) (e : Entry) → append_entry rec e ≡ rec ++ entry_bytes e
unfolding append_entry
append_entry-eq rec e = simp join

append_entries-eq :
    (rec : ByteString) (es : List Entry) → append_entries rec es ≡ rec ++ entries_bytes es
unfolding append_entries
append_entries-eq rec [] = sym (append-nil rec)
append_entries-eq rec (e ∷ es) =
    append_entries-eq (append_entry rec e) es ∙ simp (append_entry-eq, append_assoc)

pub entries_bytes-append :
    (xs ys : List Entry) → entries_bytes (xs ++ ys) ≡ entries_bytes xs ++ entries_bytes ys
entries_bytes-append [] ys = refl
entries_bytes-append (x ∷ xs) ys = simp (entries_bytes-append xs ys, append_assoc)

append_batches-eq :
    (rec : ByteString) (batches : List WriteBatch)
    → append_batches rec batches ≡ rec ++ entries_bytes (all_entries batches)
unfolding append_batches
append_batches-eq rec [] = sym (append-nil rec)
append_batches-eq rec (batch ∷ batches) =
    append_batches-eq (append_entries rec batch.entries) batches
    ∙ simp (append_entries-eq, entries_bytes-append, append_assoc)

count_loop-eq :
    (count : ℕ) (batches : List WriteBatch)
    → count_loop count batches % 2 ^ 32 ≡ (count + length (all_entries batches)) % 2 ^ 32
unfolding count_loop
count_loop-eq count [] = omega arith
count_loop-eq count (batch ∷ batches) =
    count_loop-eq ((count + length batch.entries % 2 ^ 32) % 2 ^ 32) batches
    ∙ omega (arith, length-append batch.entries (all_entries batches))

count_loop-lt :
    (count : ℕ) (batches : List WriteBatch) → count < 2 ^ 32 → count_loop count batches < 2 ^ 32
unfolding count_loop
count_loop-lt count [] h = h
count_loop-lt count (batch ∷ batches) h =
    count_loop-lt ((count + length batch.entries % 2 ^ 32) % 2 ^ 32) batches (omega arith)

-- The count is that of all entries, modulo the width of the field.
pub count_entries_lem :
    (batches : List WriteBatch) → count_entries batches ≡ length (all_entries batches) % 2 ^ 32
unfolding count_entries
count_entries_lem batches =
    omega (arith, count_loop-eq 0 batches, count_loop-lt 0 batches (omega arith))

-- The record before its checksum and its size are known.
abbrev open_header : ByteString
open_header = le_bytes 4 0 ++ (le_bytes 4 0 ++ (k_batch_record ∷ []))

abbrev seal : ByteString → ℕ → ℕ → ByteString
seal rec crc size = write_fixed32_le (write_fixed32_le rec 0 crc) 4 size

seal-open_header :
    (payload : ByteString) (crc size : ℕ)
    → seal (open_header ++ payload) crc size
      ≡ le_bytes 4 crc ++ (le_bytes 4 size ++ (k_batch_record ∷ payload))
seal-open_header payload crc size =
    ap (λ (t : ByteString). seal t crc size) (simp append_assoc)
    ∙ ap (λ (t : ByteString). write_fixed32_le t 4 size)
        (write_fixed32_le_lem [] (le_bytes 4 0) (le_bytes 4 0 ++ (k_batch_record ∷ payload)) crc
          (length-le_bytes 4 0))
    ∙ ap
        (λ (t : ℕ).
          write_fixed32_le (le_bytes 4 crc ++ (le_bytes 4 0 ++ (k_batch_record ∷ payload))) t size)
        (sym (length-le_bytes 4 crc))
    ∙ write_fixed32_le_lem (le_bytes 4 crc) (le_bytes 4 0) (k_batch_record ∷ payload) size
        (length-le_bytes 4 0)

started : append_fixed32_le (append_fixed32_le [] 0) 0 ++ (k_batch_record ∷ []) ≡ open_header
started = simp (append_fixed32_le_lem, append_assoc)

-- The record that `EncodeBatchInto` leaves in its buffer, whatever the buffer held before: the CRC
-- and the size of the payload, the record type, and the payload.
pub encode_batch_into_lem :
    (cpu : Cpu) (base_sequence : ℕ) (batches : List WriteBatch) (old : ByteString)
    → encode_batch_into cpu base_sequence batches old
      ≡ record_bytes
          (crc32c cpu (payload_bytes base_sequence (all_entries batches)))
          (payload_bytes base_sequence (all_entries batches))
unfolding encode_batch_into
encode_batch_into_lem cpu base_sequence batches old =
    ap₂ sealed started filled
    ∙ ap (λ (t : ByteString). seal (open_header ++ payload) (crc32c cpu t) (length t % 2 ^ 32))
        (drop-length_append open_header payload)
    ∙ seal-open_header payload (crc32c cpu payload) (length payload % 2 ^ 32)
    ∙ rw (le_bytes_low (length payload))
  where
    payload : ByteString
    payload = payload_bytes base_sequence (all_entries batches)

    sealed : ByteString → ByteString → ByteString
    sealed start rec =
        seal rec (crc32c cpu (drop (length start) rec)) (length (drop (length start) rec) % 2 ^ 32)

    filled :
        append_batches
          (append_fixed32_le
            (append_fixed64_le
              (append_fixed32_le (append_fixed32_le [] 0) 0 ++ (k_batch_record ∷ []))
              base_sequence)
            (count_entries batches))
          batches
        ≡ open_header ++ payload
    filled = append_batches-eq _ batches ∙ simp (count_entries_lem, join)

pub length-entry_bytes : (e : Entry) → length (entry_bytes e) ≡ 9 + length e.key + length e.value
length-entry_bytes e = omega (
  arith,
  length-append (entry_header e) (e.key ++ e.value),
  length-append (le_bytes 4 (length e.key)) (le_bytes 4 (length e.value)),
  length-append e.key e.value,
  length-le_bytes 4 (length e.key),
  length-le_bytes 4 (length e.value),
)

entries_size-eq :
    (size : ℕ) (es : List Entry) → entries_size size es ≡ size + length (entries_bytes es)
unfolding entries_size
entries_size-eq size [] = omega arith
entries_size-eq size (e ∷ es) =
    entries_size-eq (size + (9 + length e.key + length e.value)) es
    ∙ omega (arith, length-append (entry_bytes e) (entries_bytes es), length-entry_bytes e)

batches_size-eq :
    (size : ℕ) (batches : List WriteBatch)
    → batches_size size batches ≡ size + length (entries_bytes (all_entries batches))
unfolding batches_size
batches_size-eq size [] = omega arith
batches_size-eq size (batch ∷ batches) =
    batches_size-eq (entries_size size batch.entries) batches
    ∙ omega (
      arith,
      entries_size-eq size batch.entries,
      ap length (entries_bytes-append batch.entries (all_entries batches)),
      length-append (entries_bytes batch.entries) (entries_bytes (all_entries batches)),
    )

pub length-payload_bytes :
    (base_sequence : ℕ) (es : List Entry)
    → length (payload_bytes base_sequence es) ≡ 12 + length (entries_bytes es)
length-payload_bytes base_sequence es = omega (
  arith,
  length-append (le_bytes 8 base_sequence) (le_bytes 4 (length es) ++ entries_bytes es),
  length-append (le_bytes 4 (length es)) (entries_bytes es),
  length-le_bytes 8 base_sequence,
  length-le_bytes 4 (length es),
)

pub length-record_bytes :
    (crc : ℕ) (payload : ByteString) → length (record_bytes crc payload) ≡ 9 + length payload
length-record_bytes crc payload = omega (
  arith,
  length-append (le_bytes 4 crc) (le_bytes 4 (length payload) ++ (k_batch_record ∷ payload)),
  length-append (le_bytes 4 (length payload)) (k_batch_record ∷ payload),
  length-le_bytes 4 crc,
  length-le_bytes 4 (length payload),
)

pub encoded_batch_size_lem :
    (batches : List WriteBatch)
    → encoded_batch_size batches ≡ 21 + length (entries_bytes (all_entries batches))
unfolding encoded_batch_size
encoded_batch_size_lem batches = batches_size-eq 21 batches

-- `EncodedBatchSize` is the exact length of the record that `EncodeBatchInto` builds.
pub length-encode_batch_into :
    (cpu : Cpu) (base_sequence : ℕ) (batches : List WriteBatch) (old : ByteString)
    → length (encode_batch_into cpu base_sequence batches old) ≡ encoded_batch_size batches
length-encode_batch_into cpu base_sequence batches old = omega (
  arith,
  ap length (encode_batch_into_lem cpu base_sequence batches old),
  length-record_bytes (crc32c cpu (payload_bytes base_sequence (all_entries batches)))
      (payload_bytes base_sequence (all_entries batches)),
  length-payload_bytes base_sequence (all_entries batches),
  encoded_batch_size_lem batches,
)
