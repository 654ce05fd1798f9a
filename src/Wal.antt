-- ===== src/Wal.antt =====
-- src/wal.h and src/wal.cc: the record format of the write-ahead log.
-- `size_t` sums of sizes in memory do not wrap; casts to `uint32_t` are `% 2 ^ 32`.
pub mod Encode
pub mod Fragments
pub mod Decode
use storage_engine.Base.{ℕ, ◌+◌, ◌%◌, ◌^◌, List, [], ◌∷◌, ◌++◌, length}
use storage_engine.Bytes.{ByteString}
use storage_engine.Batch.{Entry, WriteBatch}

abbrev pub k_batch_record : ℕ
k_batch_record = 1

abbrev pub k_record_header_size : ℕ
k_record_header_size = 4 + 4 + 1

abbrev pub k_batch_header_size : ℕ
k_batch_header_size = 8 + 4

abbrev pub k_entry_header_size : ℕ
k_entry_header_size = 1 + 4 + 4

-- `putBytes`
abbrev pub put_bytes : ByteString → ByteString → ByteString
put_bytes out bytes = out ++ bytes

count_loop : ℕ → List WriteBatch → ℕ
count_loop count [] = count
count_loop count (batch ∷ batches) =
    count_loop ((count + length batch.entries % 2 ^ 32) % 2 ^ 32) batches

pub count_entries : List WriteBatch → ℕ
count_entries batches = count_loop 0 batches

entries_size : ℕ → List Entry → ℕ
entries_size size [] = size
entries_size size (e ∷ es) =
    entries_size (size + (k_entry_header_size + length e.key + length e.value)) es

batches_size : ℕ → List WriteBatch → ℕ
batches_size size [] = size
batches_size size (batch ∷ batches) = batches_size (entries_size size batch.entries) batches

-- `EncodedBatchSize`
pub encoded_batch_size : List WriteBatch → ℕ
encoded_batch_size batches = batches_size (k_record_header_size + k_batch_header_size) batches
