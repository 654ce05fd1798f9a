-- ===== src/Wal/Fragments.antt =====
-- src/wal.cc, `EncodeBatchFragmentsInto`: the same record as a scatter list for `writev`.
pub mod Entries
pub mod Gather
pub mod Equal
use storage_engine.Base.{
  ℕ, ◌+◌, ◌-◌, ◌*◌, ◌%◌, ◌^◌, List, [], ◌∷◌, ◌++◌, length, set, take, drop, replicate, ◌==◌,
  if◌then◌else◌,
}
use storage_engine.Bytes.{ByteString, write_fixed32_le, write_fixed64_le}
use storage_engine.Batch.{type_byte, Entry, WriteBatch}
use storage_engine.Crc.{extend_crc32c_software}
use storage_engine.Wal.{
  k_batch_record, k_record_header_size, k_batch_header_size, k_entry_header_size, count_entries,
  encoded_batch_size,
}

-- An address: an offset in the buffer `fixed` of the record, or the data of another buffer, which
-- stays as it is while the record is written.
pub data Address : Type 0 where
  in_fixed : ℕ → Address
  in_buffer : ByteString → Address

pub record Iovec : Type 0 where
  pub iov_base : Address
  pub iov_len : ℕ

-- The struct of wal.h.
pub record EncodedBatchFragments : Type 0 where
  pub fixed : ByteString
  pub iovecs : List Iovec
  pub size : ℕ

unfoldable pub append_iovec : List Iovec → Address → ℕ → List Iovec
append_iovec iovecs base size =
    if size == 0 then iovecs else iovecs ++ (record { iov_base = base; iov_len = size } ∷ [])

-- `clear` and then `resize`: zero bytes.
pub cleared : ByteString → ℕ → ByteString
cleared old size = replicate size 0

-- The variables that the two nested loops update.
pub record Progress : Type 0 where
  pub fixed : ByteString
  pub iovecs : List Iovec
  pub crc : ℕ
  pub entry_header_offset : ℕ

pub add_entry : Progress → Entry → Progress
add_entry p e =
    let at = p.entry_header_offset in
    let fixed = set p.fixed at (type_byte e.type) in
    let fixed = write_fixed32_le fixed (at + 1) (length e.key % 2 ^ 32) in
    let fixed = write_fixed32_le fixed (at + 5) (length e.value % 2 ^ 32) in
    let crc = extend_crc32c_software p.crc (take k_entry_header_size (drop at fixed)) in
    let crc = extend_crc32c_software crc e.key in
    let crc = extend_crc32c_software crc e.value in
    let iovecs = append_iovec p.iovecs (in_fixed at) k_entry_header_size in
    let iovecs = append_iovec iovecs (in_buffer e.key) (length e.key) in
    let iovecs = append_iovec iovecs (in_buffer e.value) (length e.value) in
    record {
      fixed = fixed;
      iovecs = iovecs;
      crc = crc;
      entry_header_offset = at + k_entry_header_size;
    }

pub add_entries : Progress → List Entry → Progress
add_entries p [] = p
add_entries p (e ∷ es) = add_entries (add_entry p e) es

pub add_batches : Progress → List WriteBatch → Progress
add_batches p [] = p
add_batches p (batch ∷ batches) = add_batches (add_entries p batch.entries) batches

pub header_progress : (base_sequence entry_count : ℕ) → ByteString → Progress
header_progress base_sequence entry_count fixed =
    let fixed = set fixed 8 k_batch_record in
    let fixed = write_fixed64_le fixed k_record_header_size base_sequence in
    let fixed = write_fixed32_le fixed (k_record_header_size + 8) entry_count in
    let batch_header = take k_batch_header_size (drop k_record_header_size fixed) in
    record {
      fixed = fixed;
      iovecs = append_iovec [] (in_fixed 0) (k_record_header_size + k_batch_header_size);
      crc = extend_crc32c_software 0xffffffff batch_header;
      entry_header_offset = k_record_header_size + k_batch_header_size;
    }

-- With 2 ^ 32 entries or more the count wraps and the source writes out of bounds; here such a
-- write changes nothing.
pub encode_batch_fragments_into :
    (base_sequence : ℕ) → List WriteBatch → EncodedBatchFragments → EncodedBatchFragments
encode_batch_fragments_into base_sequence batches encoded =
    let entry_count = count_entries batches in
    let size = encoded_batch_size batches in
    let fixed =
      cleared encoded.fixed
        (k_record_header_size + k_batch_header_size + entry_count * k_entry_header_size) in
    let p = add_batches (header_progress base_sequence entry_count fixed) batches in
    let fixed = write_fixed32_le p.fixed 0 (2 ^ 32 - 1 - p.crc) in
    let fixed = write_fixed32_le fixed 4 ((size - k_record_header_size) % 2 ^ 32) in
    record { fixed = fixed; iovecs = p.iovecs; size = size }

-- The bytes behind an address, and what `writev` writes for a scatter list: the buffers one after
-- the other.
abbrev pub bytes_at : ByteString → Address → ByteString
bytes_at fixed (in_fixed offset) = drop offset fixed
bytes_at fixed (in_buffer bytes) = bytes

unfoldable pub gather : ByteString → List Iovec → ByteString
gather fixed [] = []
gather fixed (v ∷ vs) = take v.iov_len (bytes_at fixed v.iov_base) ++ gather fixed vs
