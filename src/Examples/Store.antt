-- ===== src/Examples/Store.antt =====
-- The theorems on the table and the database at concrete inputs.
use storage_engine.Base.{
  get_or, ◌≢◌, All, List, ℕ, ◌+◌, ◌≡◌, refl, ap, arith, true, false, some, [], ◌∷◌, ◌++◌, length,
  take, replicate, get_or-replicate,
}
use storage_engine.Status.{Status, ok_status, status_ok}
use storage_engine.Bytes.{ByteString}
use storage_engine.Batch.{WriteBatch, new_batch, copy, assign}
use storage_engine.Batch.Laws.{copy-eq, assign-eq}
use storage_engine.Wal.{encoded_batch_size}
use storage_engine.Wal.Encode.Layout.{all_entries, length-encode_batch_into}
use storage_engine.Wal.Decode.Log.{group_record}
use storage_engine.Memtable.{
  PendingUpdates, k_shard_count, new_memtable, apply_batches, get, slot_at, found,
}
use storage_engine.Memtable.Lookup.{last_write}
use storage_engine.Memtable.Push.{numbered}
use storage_engine.Memtable.Apply.{IsCleared, IsSized, apply_batches_lem}
use storage_engine.Memtable.Sharded.{IsSharded, new_memtable-IsSharded, apply_batches-IsSharded}
use storage_engine.Io.{done, failed, linked_finished}
use storage_engine.Db.{Kernel, Environment, Db, Readings, new_db, db_get, write_group, recover}
use storage_engine.Db.File.{IsPositioned}
use storage_engine.Db.Synced.{IsSynced}
use storage_engine.Db.Write.{write_group-durable, write_group-failed}
use storage_engine.Db.Recover.{empty-IsSynced}
use storage_engine.Db.History.{Job, IsJob, acknowledged, write_groups, write_groups-IsSynced}
use storage_engine.Db.Crash.{recover-crash}
use storage_engine.Examples.{
  some_cpu, some_cpu-IsSse42, some_hash, some_kernel, some_environment, first_batch, second_batch,
  first_group, second_group, first_group-IsGroup, second_group-IsGroup, second_payload, second_tail,
  second_tail-torn, first_entries-IsBytes, size-first_batch, size-second_batch,
  some_kernel-IsPositioned,
}

copy-eq_example : copy first_batch ≡ first_batch
copy-eq_example = copy-eq first_batch

abbrev two_batches : List WriteBatch
two_batches = first_batch ∷ second_batch ∷ []

assign-eq_example :
    (get_or (assign two_batches 0 0) 0 new_batch ≡ first_batch)
    × ((at : ℕ)
        → 0 ≢ at
        → get_or (assign two_batches 0 0) at new_batch ≡ get_or two_batches at new_batch)
assign-eq_example = assign-eq two_batches 0 0 (omega arith) (omega arith)

abbrev no_updates : PendingUpdates
no_updates = replicate k_shard_count []

-- The key 7 was put and then deleted, 9 was put.
apply_batches_lem_example :
    ((key : ByteString)
      → (slot_at some_hash
            (apply_batches some_hash new_memtable (first_batch ∷ []) 1 no_updates).0
            key
          ≡ last_write key
              (numbered 1 (all_entries (first_batch ∷ [])))
              (slot_at some_hash new_memtable key))
        × (get some_hash
              (apply_batches some_hash new_memtable (first_batch ∷ []) 1 no_updates).0
              key
            ≡ found (
                last_write key
                  (numbered 1 (all_entries (first_batch ∷ [])))
                  (slot_at some_hash new_memtable key))))
    × IsSized
        (apply_batches some_hash new_memtable (first_batch ∷ []) 1 no_updates).0
        (apply_batches some_hash new_memtable (first_batch ∷ []) 1 no_updates).1
    × IsCleared (apply_batches some_hash new_memtable (first_batch ∷ []) 1 no_updates).1
apply_batches_lem_example =
    apply_batches_lem some_hash new_memtable (first_batch ∷ []) 1 no_updates
      (record { shards_sized = refl; scratch_sized = refl })
      (λ i. get_or-replicate k_shard_count i [])

abbrev pub some_readings : Readings
some_readings = record {
  scratch_reserved = true;
  record_reserved = false;
  group_start = 1000;
  encode_start = 2000;
  encode_end = 5000;
  durable_start = 6000;
  durable_end = 900000;
  apply_start = 900100;
  apply_end = 900900;
  group_end = 901000;
}

abbrev pub after_first : Status × Db
after_first = write_group some_environment (new_db []) (first_batch ∷ []) some_readings

pub written_size :
    linked_finished (done (length (group_record some_cpu first_group))) (done 0)
    ≡ linked_finished (done (encoded_batch_size (first_batch ∷ []))) (done 0)
written_size =
    ap (λ (n : ℕ). linked_finished (done n) (done 0))
      (length-encode_batch_into some_cpu 1 (first_batch ∷ []) [])

write_group-durable_example :
    (after_first.0 ≡ ok_status)
    × (after_first.1.wal_offset ≡ 0 + encoded_batch_size (first_batch ∷ []))
    × (after_first.1.next_sequence ≡ 1 + 3)
    × IsSynced some_environment (first_group ∷ []) after_first.1
write_group-durable_example =
    write_group-durable some_environment (new_db []) (first_batch ∷ []) some_readings
      some_cpu-IsSse42 first_group-IsGroup first_entries-IsBytes [] 0 some_kernel-IsPositioned
      (empty-IsSynced some_environment [] [] refl) (omega (arith, size-first_batch)) (omega arith)
      written_size

-- A kernel on which the disk is full.
abbrev full_kernel : Kernel
full_kernel = record some_kernel {
  writev_fdatasync = λ file offset bytes. (linked_finished (failed 28) (failed 125), file);
}

abbrev full_environment : Environment
full_environment = record some_environment { kernel = full_kernel }

full_kernel-IsPositioned : IsPositioned full_kernel
full_kernel-IsPositioned = record {
  complete = λ file offset bytes sync inside e. cc e;
  keeps = λ file offset bytes inside. refl;
  grows = λ file offset bytes inside. omega arith;
}

abbrev after_failure : Status × Db
after_failure = write_group full_environment (new_db []) (first_batch ∷ []) some_readings

write_group-failed_example :
    (status_ok after_failure.0 ≡ false)
    × (after_failure.1.memtable ≡ new_memtable)
    × (after_failure.1.wal_offset ≡ 0)
    × (after_failure.1.next_sequence ≡ 1)
    × IsSynced full_environment [] after_failure.1
write_group-failed_example =
    write_group-failed full_environment (new_db []) (first_batch ∷ []) some_readings
      some_cpu-IsSse42 first_group-IsGroup first_entries-IsBytes [] full_kernel-IsPositioned
      (empty-IsSynced full_environment [] [] refl) (λ n e. cc e)

pub after_first-IsSynced :
    (after_first.1.next_sequence ≡ 4) × IsSynced some_environment (first_group ∷ []) after_first.1
after_first-IsSynced =
    let (accepted, moved, numbered, synced) =
      write_group-durable some_environment (new_db []) (first_batch ∷ []) some_readings
        some_cpu-IsSse42 first_group-IsGroup first_entries-IsBytes [] 0 some_kernel-IsPositioned
        (empty-IsSynced some_environment [] [] refl) (omega (arith, size-first_batch)) (omega arith)
        written_size in
    (numbered, synced)

recover-crash_example :
    (db : Db) × (recover some_environment
        (new_db (take after_first.1.wal_offset after_first.1.file ++ second_tail))
      ≡ some (ok_status, db))
    × ((key : ByteString)
        → db_get some_environment db key ≡ db_get some_environment after_first.1 key)
    × IsSynced some_environment (first_group ∷ []) db
recover-crash_example =
    recover-crash some_environment (first_group ∷ []) after_first.1 second_group second_tail
      second_payload 1 after_first-IsSynced.1 (omega (arith, after_first-IsSynced.0))
      second_group-IsGroup second_tail-torn
      (record { stat = refl; read = refl; cut = refl; sync = refl })

apply_batches-IsSharded_example :
    IsSharded some_hash (apply_batches some_hash new_memtable (first_batch ∷ []) 1 no_updates).0
apply_batches-IsSharded_example =
    apply_batches-IsSharded some_hash new_memtable (first_batch ∷ []) 1 no_updates
      (record { shards_sized = refl; scratch_sized = refl })
      (λ i. get_or-replicate k_shard_count i []) (new_memtable-IsSharded some_hash)

abbrev two_jobs : List Job
two_jobs = (first_batch ∷ [], some_readings) ∷ (second_batch ∷ [], some_readings) ∷ []

two_jobs-IsJob : All IsJob two_jobs
two_jobs-IsJob = (
  record {
    size_fits = omega (arith, size-first_batch);
    batches_form = first_group-IsGroup.batches_form;
    bytes = first_entries-IsBytes;
  },
  (
    record {
      size_fits = omega (arith, size-second_batch);
      batches_form = second_group-IsGroup.batches_form;
      bytes = (((omega arith, tt), (omega arith, tt)), tt);
    },
    tt,
  ),
)

write_groups-IsSynced_example :
    IsSynced some_environment
      ([] ++ acknowledged some_environment (new_db []) two_jobs)
      (write_groups some_environment (new_db []) two_jobs)
write_groups-IsSynced_example =
    write_groups-IsSynced some_environment [] (new_db []) two_jobs some_cpu-IsSse42
      some_kernel-IsPositioned (empty-IsSynced some_environment [] [] refl) two_jobs-IsJob
      (omega (arith, size-first_batch, size-second_batch)) (omega arith)
