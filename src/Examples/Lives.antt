-- ===== src/Examples/Lives.antt =====
-- A life of the database in which a write is refused because it could not be synced, its bytes stay
-- in the file, and the process stops and recovers.
use storage_engine.Base.{
  ℕ, zero, suc, ◌+◌, length, false, drop, append-nil, sym, ◌≡◌, refl, ap, ap₂, ◌∙◌, arith, some, [],
  ◌∷◌, ◌++◌, if◌then◌else◌,
}
use storage_engine.Status.{Status, ok_status, status_ok}
use storage_engine.Wal.Encode.Layout.{all_entries}
use storage_engine.Db.{Kernel, Db, new_db, db_get, recover, write_group}
use storage_engine.Batch.{empty}
use storage_engine.Db.Api.{Engine, write_async, get_async}
use storage_engine.Db.Api.Laws.{IsIdle, Fits, write_async-get}
use storage_engine.Db.Recover.{empty-IsSynced}
use storage_engine.Db.Writers.{new_queue}
use storage_engine.Db.Synced.{IsSynced}
use storage_engine.Memtable.{found, new_memtable}
use storage_engine.Memtable.Apply.{get-eq, new_memtable-slot}
use storage_engine.Bytes.{ByteString}
use storage_engine.Io.{done, failed, linked_finished}
use storage_engine.Db.File.{IsPositioned, write_at}
use storage_engine.Db.Write.{write_group-failed, write_group-file}
use storage_engine.Wal.Decode.Log.{group_record}
use storage_engine.Db.Recover.{Answers}
use storage_engine.Db.Remains.{recover-whole}
use storage_engine.Db.History.{IsJob}
use storage_engine.Db.Lives.{
  Lives, with_kernel, other_kernel, in_flight, IsLeft, Lives, opened, wrote, stopped_behind,
  db_get-Lives,
}
use storage_engine.Db.Store.{Store, empty_store, write_entries, read}
use storage_engine.Examples.{
  some_kernel, some_cpu, some_hash, some_cpu-IsSse42, some_environment, first_batch, first_group,
  first_group-IsGroup, first_entries-IsBytes, size-first_batch, some_kernel-IsPositioned,
}
use storage_engine.Examples.Store.{some_readings, written_size}

abbrev idle_engine : Engine
idle_engine = record { db = new_db []; queue = new_queue }

first_batch-Fits : Fits (new_db []) first_batch
first_batch-Fits = record {
  size_fits = omega (arith, size-first_batch);
  well_formed = first_group-IsGroup.batches_form.0;
  bytes = first_entries-IsBytes;
  offset_fits = omega (arith, size-first_batch);
  sequence_fits = omega arith;
}

nothing_yet :
    (key : ByteString) → get_async some_environment idle_engine key ≡ read (empty_store key)
unfolding get_async db_get
nothing_yet key = get-eq some_hash new_memtable key ∙ ap found (new_memtable-slot some_hash key)

first_write-IsJob : IsJob (first_batch ∷ [], some_readings)
first_write-IsJob = record {
  size_fits = omega (arith, size-first_batch);
  batches_form = first_group-IsGroup.batches_form;
  bytes = first_entries-IsBytes;
}

-- A kernel that writes the bytes and then reports that they could not be synced.
abbrev unsynced_kernel : Kernel
unsynced_kernel = record some_kernel {
  writev_fdatasync = λ file offset bytes.
      (linked_finished (done (length bytes)) (failed 5), write_at file offset bytes);
}

unsynced_kernel-IsPositioned : IsPositioned unsynced_kernel
unsynced_kernel-IsPositioned = record {
  complete = λ file offset bytes sync inside e. refl;
  keeps = some_kernel-IsPositioned.keeps;
  grows = some_kernel-IsPositioned.grows;
}

abbrev refused : Status × Db
refused =
    write_group (with_kernel some_environment unsynced_kernel) (new_db []) (first_batch ∷ [])
      some_readings

refused_lem :
    (status_ok refused.0 ≡ false)
    × (refused.1.memtable ≡ new_memtable)
    × (refused.1.wal_offset ≡ 0)
    × (refused.1.next_sequence ≡ 1)
    × IsSynced (with_kernel some_environment unsynced_kernel) [] refused.1
refused_lem =
    write_group-failed (with_kernel some_environment unsynced_kernel) (new_db []) (first_batch ∷ [])
      some_readings some_cpu-IsSse42 first_group-IsGroup first_entries-IsBytes []
      unsynced_kernel-IsPositioned
      (empty-IsSynced (with_kernel some_environment unsynced_kernel) [] [] refl) (λ n e. cc e)

drop-nil : (n : ℕ) → drop {A = ℕ} n [] ≡ []
drop-nil zero = refl
drop-nil (suc n) = refl

-- The file has the whole record, although the write was refused.
refused_file : refused.1.file ≡ group_record some_cpu first_group
refused_file =
    write_group-file (with_kernel some_environment unsynced_kernel) (new_db []) (first_batch ∷ [])
      some_readings some_cpu-IsSse42 first_group-IsGroup first_entries-IsBytes
    ∙ ap (◌++◌ (group_record some_cpu first_group))
        (drop-nil (0 + length (group_record some_cpu first_group)))
    ∙ append-nil (group_record some_cpu first_group)

refused_whole :
    drop refused.1.wal_offset refused.1.file
    ≡ group_record some_cpu (in_flight refused.1 (first_batch ∷ []))
refused_whole =
    ap₂ drop refused_lem.2 refused_file
    ∙ ap
        (λ (n : ℕ).
          group_record some_cpu (record { base_sequence = n; batches = first_batch ∷ [] }))
        (sym refused_lem.3)

refused-IsLeft : IsLeft refused.1 (first_batch ∷ []) refused.1.file
refused-IsLeft = record {
  kept = refl;
  group = record {
    sequence_fits = omega (arith, refused_lem.3);
    size_fits = first_group-IsGroup.size_fits;
    batches_form = first_group-IsGroup.batches_form;
  };
  low = omega (arith, refused_lem.3);
}

refused_file-Answers : Answers some_kernel refused.1.file (length refused.1.file)
refused_file-Answers = record { stat = refl; read = refl; cut = refl; sync = refl }

second_life : (db : Db) × (recover some_environment (new_db refused.1.file) ≡ some (ok_status, db))
second_life =
    let (db, recovers, synced) =
      recover-whole some_environment [] refused.1 (in_flight refused.1 (first_batch ∷ []))
        refused.1.file
        (other_kernel some_environment unsynced_kernel some_kernel [] refused.1 refused_lem.4)
        (omega (arith, refused_lem.3)) refused-IsLeft.group refl refused-IsLeft.low refused_whole
        refused_file-Answers in
    (db, recovers)

abbrev refused_life : Lives some_environment refused.1 (
    if status_ok refused.0
    then write_entries empty_store (all_entries (first_batch ∷ []))
    else empty_store)
refused_life =
    wrote opened unsynced_kernel unsynced_kernel-IsPositioned (first_batch ∷ [], some_readings)
      first_write-IsJob (omega (arith, size-first_batch)) (omega arith)

abbrev second_store : Store
second_store =
    write_entries
      (if status_ok refused.0
        then write_entries empty_store (all_entries (first_batch ∷ []))
        else empty_store)
      (all_entries (first_batch ∷ []))

-- The refused write is found in the next life.
abbrev some_life : Lives some_environment second_life.0 second_store
some_life =
    stopped_behind refused_life (first_batch ∷ []) refused.1.file refused-IsLeft refused_whole
      some_kernel refused_file-Answers ok_status second_life.0 second_life.1

db_get-Lives_example : db_get some_environment second_life.0 (9 ∷ []) ≡ read (second_store (9 ∷ []))
db_get-Lives_example =
    db_get-Lives some_environment some_cpu-IsSse42 second_life.0 second_store (9 ∷ []) some_life

write_async-get_example :
    ((write_async some_environment idle_engine 0 first_batch some_readings).0 ≡ some ok_status)
    × IsIdle (write_async some_environment idle_engine 0 first_batch some_readings).1.queue
    × ((key : ByteString)
        → get_async some_environment
            (write_async some_environment idle_engine 0 first_batch some_readings).1
            key
          ≡ read (write_entries empty_store first_batch.entries key))
    × IsSynced some_environment
        (first_group ∷ [])
        (write_async some_environment idle_engine 0 first_batch some_readings).1.db
unfolding empty
write_async-get_example =
    write_async-get some_environment some_cpu-IsSse42 some_kernel-IsPositioned [] idle_engine
      (empty-IsSynced some_environment [] [] refl) some_readings 0 first_batch empty_store 0
      (record { quiet = refl; no_writers = refl; unarmed = refl }) refl first_batch-Fits
      written_size nothing_yet
