-- ===== src/Examples.antt =====
-- Concrete inputs that the examples share: a processor, a kernel, two batches and their groups.
pub mod Log
pub mod Lives
pub mod Burst
pub mod Ring
pub mod Store
pub mod Tasks
use storage_engine.Base.{
  ℕ, ◌+◌, ◌^◌, ◌≤◌, ◌<◌, ◌≡◌, refl, sym, ap, ap₂, ◌∙◌, arith, bit_xor, true, String, List, [], ◌∷◌,
  ◌++◌, append_assoc, length, take, drop, All, length-append, length-take, length-drop, take-append,
}
use storage_engine.Bytes.{ByteString}
use storage_engine.Bytes.Fixed.{le_bytes}
use storage_engine.Batch.{k_put, k_delete, Entry, WriteBatch, new_batch, put, delete}
use storage_engine.Batch.Laws.{IsBatch, IsEntry, put-IsBatch, delete-IsBatch}
use storage_engine.Crc.{Cpu, crc32c}
use storage_engine.Crc.Hardware.{divide, IsSse42}
use storage_engine.Wal.{encoded_batch_size}
use storage_engine.Wal.Encode.Layout.{
  all_entries, entries_bytes, entry_bytes, encoded_batch_size_lem, length-entry_bytes,
  payload_bytes, encode_batch_into_lem,
}
use storage_engine.Wal.Fragments.Equal.{IsBytes}
use storage_engine.Wal.Decode.Log.{Group, IsGroup, group_record}
use storage_engine.Io.{done, finished, linked_finished}
use storage_engine.Db.{Kernel, Environment}
use storage_engine.Db.File.{write_at, IsPositioned, length-write_at}

-- A processor that has the instructions.
abbrev pub some_cpu : Cpu
some_cpu = record {
  has_hardware_crc32c = true;
  mm_crc32_u64 = λ crc chunk. divide 64 (bit_xor crc chunk);
  mm_crc32_u32 = λ crc chunk. divide 32 (bit_xor crc chunk);
  mm_crc32_u8 = λ crc byte. divide 8 (bit_xor crc byte);
}

pub some_cpu-IsSse42 : IsSse42 some_cpu
some_cpu-IsSse42 = record {
  u8_divides = λ crc byte hc hb. refl;
  u32_divides = λ crc chunk hc hb. refl;
  u64_divides = λ crc chunk hc hb. refl;
}

-- A hash with collisions within a shard and across the shards.
abbrev pub some_hash : ByteString → ℕ
some_hash key = length key

-- A kernel on which everything succeeds.
abbrev pub some_kernel : Kernel
some_kernel = record {
  strerror = λ n. "error";
  fstat = λ file. done (length file);
  readv = λ file. finished (done (length file));
  writev_fdatasync = λ file offset bytes.
      (linked_finished (done (length bytes)) (done 0), write_at file offset bytes);
  ftruncate = λ file size. (done 0, take size file);
  fdatasync = λ file. finished (done 0);
}

abbrev pub some_environment : Environment
some_environment = record { cpu = some_cpu; hash = some_hash; kernel = some_kernel }

abbrev pub first_entries : List Entry
first_entries =
    record { type = k_put; key = 7 ∷ []; value = 1 ∷ 2 ∷ [] }
    ∷ record { type = k_put; key = 9 ∷ []; value = 5 ∷ [] }
    ∷ record { type = k_delete; key = 7 ∷ []; value = [] }
    ∷ []

abbrev pub first_batch : WriteBatch
first_batch = record { entries = first_entries }

abbrev pub second_batch : WriteBatch
second_batch = record { entries = record { type = k_put; key = 8 ∷ []; value = 4 ∷ [] } ∷ [] }

abbrev pub first_group : Group
first_group = record { base_sequence = 1; batches = first_batch ∷ [] }

abbrev pub second_group : Group
second_group = record { base_sequence = 4; batches = second_batch ∷ [] }

length-entries :
    (e : Entry) (es : List Entry)
    → length (entries_bytes (e ∷ es))
      ≡ 9 + length e.key + length e.value + length (entries_bytes es)
length-entries e es =
    omega (arith, length-append (entry_bytes e) (entries_bytes es), length-entry_bytes e)

pub size-first_batch : encoded_batch_size (first_batch ∷ []) ≡ 54
size-first_batch =
    encoded_batch_size_lem (first_batch ∷ [])
    ∙ omega (
      arith,
      length-entries (record { type = k_put; key = 7 ∷ []; value = 1 ∷ 2 ∷ [] })
          (drop 1 first_entries),
      length-entries (record { type = k_put; key = 9 ∷ []; value = 5 ∷ [] }) (drop 2 first_entries),
      length-entries (record { type = k_delete; key = 7 ∷ []; value = [] }) [],
    )

pub size-second_batch : encoded_batch_size (second_batch ∷ []) ≡ 32
size-second_batch =
    encoded_batch_size_lem (second_batch ∷ [])
    ∙ omega (arith, length-entries (record { type = k_put; key = 8 ∷ []; value = 4 ∷ [] }) [])

pub first_group-IsGroup : IsGroup first_group
first_group-IsGroup = record {
  sequence_fits = omega arith;
  size_fits = omega (arith, size-first_batch);
  batches_form = ((tt, (tt, (refl, tt))), tt);
}

pub second_group-IsGroup : IsGroup second_group
second_group-IsGroup = record {
  sequence_fits = omega arith;
  size_fits = omega (arith, size-second_batch);
  batches_form = ((tt, tt), tt);
}

-- The header of the second record without its last byte.
abbrev pub second_payload : ByteString
second_payload = payload_bytes 4 (all_entries (second_batch ∷ []))

abbrev pub second_tail : ByteString
second_tail = le_bytes 4 (crc32c some_cpu second_payload) ++ le_bytes 4 (length second_payload)

pub second_tail-torn : second_tail ++ (1 ∷ second_payload) ≡ group_record some_cpu second_group
second_tail-torn =
    append_assoc (le_bytes 4 (crc32c some_cpu second_payload)) (le_bytes 4 (length second_payload))
      (1 ∷ second_payload)
    ∙ sym (encode_batch_into_lem some_cpu 4 (second_batch ∷ []) [])

pub some_kernel-IsPositioned : IsPositioned some_kernel
some_kernel-IsPositioned = record {
  complete = λ file offset bytes sync inside e. refl;
  keeps = λ file offset bytes inside.
      take-append offset (take offset file) _ (omega (arith, length-take offset file));
  grows = λ file offset bytes inside. omega (
    arith,
    length-append (take offset file) (bytes ++ drop (offset + length bytes) file),
    length-append bytes (drop (offset + length bytes) file),
    length-take offset file,
    length-drop (offset + length bytes) file,
  );
}

pub first_entries-IsBytes : All IsBytes first_entries
first_entries-IsBytes = (
  ((omega arith, tt), (omega arith, (omega arith, tt))),
  (((omega arith, tt), (omega arith, tt)), (((omega arith, tt), tt), tt)),
)
