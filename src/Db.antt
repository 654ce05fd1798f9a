-- ===== src/Db.antt =====
-- src/db.cc and include/storage_engine/db.h: a group of writes, and recovery.
-- The kernel's file operations and the processor are parameters. The fields that only `writerLoop`
-- and `enqueueAsyncWriter` use are in Db/Writers.
pub mod Writers
pub mod File
pub mod Synced
pub mod Group
pub mod Write
pub mod Replay
pub mod Recover
pub mod Crash
pub mod Remains
pub mod History
pub mod Store
pub mod Lives
pub mod Api
pub mod Total
pub mod Open
use storage_engine.Base.{
  ℕ, ◌+◌, ◌-◌, ◌/◌, ◌%◌, ◌^◌, max, String, Bool, true, false, Option, none, some, List, [], ◌∷◌,
  length, take, replicate, not, ltb, ◌==◌, if◌then◌else◌,
}
use storage_engine.Status.{Status, Result, ok, err, ok_status, io_error, status_ok}
use storage_engine.Bytes.{ByteString}
use storage_engine.Batch.{WriteBatch}
use storage_engine.Crc.{Cpu}
use storage_engine.Wal.Encode.{encode_batch_into}
use storage_engine.Wal.Fragments.{
  in_buffer, Iovec, EncodedBatchFragments, encode_batch_fragments_into, gather,
}
use storage_engine.Wal.Decode.{DecodedBatch, DecodeResult, decode_log}
use storage_engine.Memtable.{
  PendingUpdates, MemTable, k_shard_count, new_memtable, apply_batches, get,
}
use storage_engine.Io.{
  Completion, done, failed, Single, Linked, errno_message, write_sync_resume, read_at, fdatasync,
}

-- The kernel's operations on the file of the log. A write and a truncation return the file as they
-- leave it, whether they succeed or not.
pub record Kernel : Type 0 where
  pub strerror : ℕ → String
  pub fstat : ByteString → Completion
  pub readv : ByteString → Single
  pub writev_fdatasync :
      (file : ByteString) → (offset : ℕ) → (bytes : ByteString) → Linked × ByteString
  pub ftruncate : (file : ByteString) → (size : ℕ) → Completion × ByteString
  pub fdatasync : ByteString → Single

pub record Environment : Type 0 where
  pub cpu : Cpu
  pub hash : ByteString → ℕ
  pub kernel : Kernel

-- The counters that `writeGroup` updates.
pub record WriteGroupStats : Type 0 where
  pub write_group_scratch_reuses : ℕ
  pub wal_encode_buffer_reuses : ℕ
  pub write_group_timing_samples : ℕ
  pub write_group_total_micros : ℕ
  pub write_group_wal_encode_micros : ℕ
  pub write_group_durable_wait_micros : ℕ
  pub write_group_memtable_apply_micros : ℕ

-- The database and the file behind `walFd_`. `writeScratch_->batches` is filled anew before each
-- use and is an argument.
pub record Db : Type 0 where
  pub file : ByteString
  pub wal_offset : ℕ
  pub next_sequence : ℕ
  pub memtable : MemTable
  pub wal_record : EncodedBatchFragments
  pub fallback_record : ByteString
  pub memtable_updates : PendingUpdates
  pub stats : WriteGroupStats

abbrev pub new_stats : WriteGroupStats
new_stats = record {
  write_group_scratch_reuses = 0;
  wal_encode_buffer_reuses = 0;
  write_group_timing_samples = 0;
  write_group_total_micros = 0;
  write_group_wal_encode_micros = 0;
  write_group_durable_wait_micros = 0;
  write_group_memtable_apply_micros = 0;
}

-- The constructor of `DB`, with the file that `Open` opened.
abbrev pub new_db : ByteString → Db
new_db file = record {
  file = file;
  wal_offset = 0;
  next_sequence = 1;
  memtable = new_memtable;
  wal_record = record { fixed = []; iovecs = []; size = 0 };
  fallback_record = [];
  memtable_updates = replicate k_shard_count [];
  stats = new_stats;
}

-- What the two tests of capacities and the clock, in nanoseconds, read during one `writeGroup`.
pub record Readings : Type 0 where
  pub scratch_reserved : Bool
  pub record_reserved : Bool
  pub group_start : ℕ
  pub encode_start : ℕ
  pub encode_end : ℕ
  pub durable_start : ℕ
  pub durable_end : ℕ
  pub apply_start : ℕ
  pub apply_end : ℕ
  pub group_end : ℕ

-- `elapsedMicros`; a clock that is steady does not run backwards.
pub elapsed_micros : (start end : ℕ) → ℕ
elapsed_micros start end = let micros = (end - start) / 1000 in if ltb 0 micros then micros else 1

abbrev pub add64 : ℕ → ℕ → ℕ
add64 a b = (a + b) % 2 ^ 64

abbrev count_if : Bool → ℕ → ℕ
count_if true n = add64 n 1
count_if false n = n

abbrev pub count_reuses : Readings → WriteGroupStats → WriteGroupStats
count_reuses r s = record s {
  write_group_scratch_reuses = count_if r.scratch_reserved s.write_group_scratch_reuses;
  wal_encode_buffer_reuses = count_if r.record_reserved s.wal_encode_buffer_reuses;
}

abbrev pub count_times : Readings → WriteGroupStats → WriteGroupStats
count_times r s = record s {
  write_group_timing_samples = add64 s.write_group_timing_samples 1;
  write_group_total_micros =
      add64 s.write_group_total_micros (elapsed_micros r.group_start r.group_end);
  write_group_wal_encode_micros =
      add64 s.write_group_wal_encode_micros (elapsed_micros r.encode_start r.encode_end);
  write_group_durable_wait_micros =
      add64 s.write_group_durable_wait_micros (elapsed_micros r.durable_start r.durable_end);
  write_group_memtable_apply_micros =
      add64 s.write_group_memtable_apply_micros (elapsed_micros r.apply_start r.apply_end);
}

-- `entryCount`
pub entry_count : ℕ → List WriteBatch → ℕ
entry_count count [] = count
entry_count count (batch ∷ batches) = entry_count (add64 count (length batch.entries)) batches

abbrev pub k_iov_max : ℕ
k_iov_max = 1024

-- The record to write and the buffer of the fallback: a scatter list, or one buffer when the list
-- is too long for `writev`.
pub encode_group : Cpu → Db → List WriteBatch → EncodedBatchFragments × ByteString
encode_group cpu db batches =
    let encoded = encode_batch_fragments_into db.next_sequence batches db.wal_record in
    if ltb k_iov_max (length encoded.iovecs)
    then (let fallback = encode_batch_into cpu db.next_sequence batches db.fallback_record in
        (
          record {
            fixed = encoded.fixed;
            iovecs = record { iov_base = in_buffer fallback; iov_len = length fallback } ∷ [];
            size = length fallback;
          },
          fallback,
        ))
    else (encoded, db.fallback_record)

module _ (env : Environment) where
  -- `writeGroup` behind the write: an early return on failure, and else the table is updated.
  pub finish_group : Db → List WriteBatch → Readings → Status → Status × Db
  finish_group db batches r status =
      if status_ok status
      then (let (memtable, updates) =
            apply_batches env.hash db.memtable batches db.next_sequence db.memtable_updates in
          (
            ok_status,
            record db {
              memtable = memtable;
              memtable_updates = updates;
              wal_offset = add64 db.wal_offset db.wal_record.size;
              next_sequence = add64 db.next_sequence (entry_count 0 batches);
              stats = count_times r db.stats;
            },
          ))
      else (status, db)

  pub write_group : Db → List WriteBatch → Readings → Status × Db
  write_group db batches r =
      let (encoded, fallback) = encode_group env.cpu db batches in
      let (outcome, file) =
        env.kernel.writev_fdatasync db.file db.wal_offset (gather encoded.fixed encoded.iovecs) in
      let db' = record db {
        wal_record = encoded;
        fallback_record = fallback;
        file = file;
        stats = count_reuses r db.stats;
      } in
      finish_group db' batches r (write_sync_resume env.kernel.strerror encoded.size outcome)

  -- `DB::Get`
  unfoldable pub db_get : Db → ByteString → Result ByteString
  db_get db key = get env.hash db.memtable key

  -- The loop over the decoded batches, with `maxSequence`.
  pub replay_loop : Db → ℕ → List DecodedBatch → Db × ℕ
  replay_loop db max_sequence [] = (db, max_sequence)
  replay_loop db max_sequence (b ∷ bs) =
      let (memtable, updates) =
        apply_batches env.hash db.memtable (b.batch ∷ []) b.base_sequence db.memtable_updates in
      replay_loop (record db { memtable = memtable; memtable_updates = updates })
        (max max_sequence (add64 b.base_sequence (length b.batch.entries))) bs

  cut_file : Db → Completion × ByteString → Status × Db
  cut_file db (failed errno, file) =
      (io_error (errno_message env.kernel.strerror "truncate WAL" errno), record db { file = file })
  cut_file db (done n, file) =
      (fdatasync env.kernel.strerror (env.kernel.fdatasync file), record db { file = file })

  -- The truncation of a torn tail.
  pub truncate_tail : Db → (read_size : ℕ) → Status × Db
  truncate_tail db read_size =
      if not (db.wal_offset == read_size)
      then cut_file db (env.kernel.ftruncate db.file db.wal_offset)
      else (ok_status, db)

  pub replay : Db → (read_size : ℕ) → DecodeResult → Status × Db
  replay db read_size result =
      let (db', max_sequence) = replay_loop db 0 result.batches in
      truncate_tail
        (record db' {
          next_sequence = max db'.next_sequence (add64 max_sequence 1);
          wal_offset = result.valid_bytes;
        })
        read_size

  -- `bytes` after the read, which the kernel filled from the start of the file.
  recover_decoded : Db → (read_size : ℕ) → Option (Result DecodeResult) → Option (Status × Db)
  recover_decoded db read_size none = none
  recover_decoded db read_size (some (err e)) = some (e, db)
  recover_decoded db read_size (some (ok result)) = some (replay db read_size result)

  recover_bytes : Db → ByteString → Option (Status × Db)
  recover_bytes db bytes = recover_decoded db (length bytes) (decode_log env.cpu bytes)

  recover_read : Db → Result ℕ → Option (Status × Db)
  recover_read db (err e) = some (e, db)
  recover_read db (ok n) = recover_bytes db (take n db.file)

  recover_size : Db → Completion → Option (Status × Db)
  recover_size db (failed errno) =
      some (io_error (errno_message env.kernel.strerror "fstat" errno), db)
  recover_size db (done size) =
      let db' = record db { wal_offset = size } in
      if size == 0
      then some (ok_status, db')
      else recover_read db' (read_at env.kernel.strerror (env.kernel.readv db.file))

  -- `none` says that the fuel of `DecodeLog` ran out.
  pub recover : Db → Option (Status × Db)
  recover db = recover_size db (env.kernel.fstat db.file)
