-- ===== src/Wal/Encode.antt =====
-- src/wal.cc, `EncodeBatchInto`: one record in one buffer.
pub mod Layout
use storage_engine.Base.{ℕ, ◌+◌, ◌%◌, ◌^◌, List, [], ◌∷◌, ◌++◌, length, drop}
use storage_engine.Bytes.{ByteString, append_fixed32_le, append_fixed64_le, write_fixed32_le}
use storage_engine.Batch.{type_byte, Entry, WriteBatch}
use storage_engine.Crc.{Cpu, crc32c}
use storage_engine.Wal.{k_batch_record, put_bytes, count_entries}

append_entry : ByteString → Entry → ByteString
append_entry rec e =
    let rec = rec ++ (type_byte e.type ∷ []) in
    let rec = append_fixed32_le rec (length e.key % 2 ^ 32) in
    let rec = append_fixed32_le rec (length e.value % 2 ^ 32) in
    put_bytes (put_bytes rec e.key) e.value

append_entries : ByteString → List Entry → ByteString
append_entries rec [] = rec
append_entries rec (e ∷ es) = append_entries (append_entry rec e) es

append_batches : ByteString → List WriteBatch → ByteString
append_batches rec [] = rec
append_batches rec (batch ∷ batches) = append_batches (append_entries rec batch.entries) batches

-- `old` is what the buffer holds; `clear` drops it.
clear : ByteString → ByteString
clear old = []

pub encode_batch_into : Cpu → (base_sequence : ℕ) → List WriteBatch → ByteString → ByteString
unfolding clear
encode_batch_into cpu base_sequence batches old =
    let rec = append_fixed32_le (append_fixed32_le (clear old) 0) 0 ++ (k_batch_record ∷ []) in
    let payload_offset = length rec in
    let rec = append_fixed32_le (append_fixed64_le rec base_sequence) (count_entries batches) in
    let rec = append_batches rec batches in
    let payload = drop payload_offset rec in
    write_fixed32_le (write_fixed32_le rec 0 (crc32c cpu payload)) 4 (length payload % 2 ^ 32)
