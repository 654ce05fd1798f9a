-- ===== src/Db/Write.antt =====
-- `writeGroup` on every branch: an acknowledged group is in the log and in the table, and a failed
-- one leaves both as they were.
use storage_engine.Base.{
  ℕ, ◌+◌, ◌^◌, ◌<◌, ◌≤◌, ◌≡◌, ◌≢◌, refl, sym, ap, ap₂, subst, ◌∙◌, inl, inr, false, Bool-cases,
  none, List, [], ◌∷◌, ◌++◌, length, take, All, arith, append-nil, All-append,
}
use storage_engine.Status.{Status, ok_status, status_ok}
use storage_engine.Bytes.{ByteString}
use storage_engine.Batch.{WriteBatch}
use storage_engine.Crc.Hardware.{IsSse42}
use storage_engine.Wal.{encoded_batch_size}
use storage_engine.Wal.Encode.Layout.{all_entries, length-encode_batch_into}
use storage_engine.Wal.Fragments.Equal.{IsBytes}
use storage_engine.Wal.Decode.Log.{Group, IsGroup, group_record}
use storage_engine.Memtable.Apply.{apply_batches_lem}
use storage_engine.Io.Resume.{write_sync-success, write_sync-failure}
use storage_engine.Memtable.Lookup.{last_write}
use storage_engine.Memtable.Push.{numbered}
use storage_engine.Io.{done, Linked, linked_finished, write_sync_resume}
use storage_engine.Db.{
  Environment, Db, Readings, encode_group, finish_group, write_group, entry_count, count_reuses,
  add64,
}
use storage_engine.Db.File.{write_at, IsPositioned, take-write_at, length-write_at}
use storage_engine.Db.Group.{encode_group_lem, entry_count-eq, group_few}
use storage_engine.Db.Synced.{
  IsSynced, IsBelow, log_slot-append, log_bytes-append, All-IsBelow-mono,
}

module _ (env : Environment) (db : Db) (batches : List WriteBatch) (r : Readings) where
  abbrev pub new_group : Group
  new_group = record { base_sequence = db.next_sequence; batches = batches }

  -- What the kernel answers to the write of the record.
  abbrev pub answer : Linked × ByteString
  answer = env.kernel.writev_fdatasync db.file db.wal_offset (group_record env.cpu new_group)

  abbrev written : Db
  written = record db {
    wal_record = (encode_group env.cpu db batches).0;
    fallback_record = (encode_group env.cpu db batches).1;
    file = answer.1;
    stats = count_reuses r db.stats;
  }

  module _ (sse : IsSse42 env.cpu) (form : IsGroup new_group)
      (bytes : All IsBytes (all_entries batches)) where
    write_group-eq :
        write_group env db batches r
        ≡ finish_group env written batches r
            (write_sync_resume env.kernel.strerror (encoded_batch_size batches) answer.0)
    unfolding write_group
    write_group-eq =
        let (whole, size) =
          encode_group_lem env.cpu db batches sse bytes (group_few new_group form) in
        ap₂
          (λ (t : ByteString) (n : ℕ).
            let (outcome, file) = env.kernel.writev_fdatasync db.file db.wal_offset t in
            finish_group env
              (record db {
                wal_record = (encode_group env.cpu db batches).0;
                fallback_record = (encode_group env.cpu db batches).1;
                file = file;
                stats = count_reuses r db.stats;
              })
              batches r (write_sync_resume env.kernel.strerror n outcome))
          whole size

    -- Whatever the answer, the file is as the kernel has left it.
    pub write_group-file : (write_group env db batches r).1.file ≡ answer.1
    unfolding finish_group
    write_group-file =
        ap (λ (p : Status × Db). p.1.file) write_group-eq
        ∙ elim (Bool-cases (status_ok status)) [ inl e ↦ rw e refl | inr e ↦ rw e refl ]
      where
        status : Status
        status = write_sync_resume env.kernel.strerror (encoded_batch_size batches) answer.0

    abbrev rec : ByteString
    rec = group_record env.cpu new_group

    file_after :
        (n : ℕ)
        → db.wal_offset ≤ length db.file
        → IsPositioned env.kernel
        → answer.0 ≡ linked_finished (done (encoded_batch_size batches)) (done n)
        → answer.1 ≡ write_at db.file db.wal_offset rec
    file_after n inside positioned success =
        positioned.complete db.file db.wal_offset rec (done n) inside (
          success
          ∙ ap (λ (m : ℕ). linked_finished (done m) (done n))
              (sym (length-encode_batch_into env.cpu db.next_sequence batches [])))

    offset_after :
        db.wal_offset + encoded_batch_size batches < 2 ^ 64
        → add64 db.wal_offset written.wal_record.size ≡ db.wal_offset + length rec
    offset_after fits =
        let (whole, size) =
          encode_group_lem env.cpu db batches sse bytes (group_few new_group form) in
        omega (arith, size, length-encode_batch_into env.cpu db.next_sequence batches [])

    finish_group-ok :
        (gs : List Group) (n : ℕ)
        → IsPositioned env.kernel
        → IsSynced env gs db
        → db.wal_offset + encoded_batch_size batches < 2 ^ 64
        → db.next_sequence + length (all_entries batches) < 2 ^ 64
        → answer.0 ≡ linked_finished (done (encoded_batch_size batches)) (done n)
        → ((finish_group env written batches r ok_status).0 ≡ ok_status)
          × ((finish_group env written batches r ok_status).1.wal_offset
              ≡ db.wal_offset + encoded_batch_size batches)
          × ((finish_group env written batches r ok_status).1.next_sequence
              ≡ db.next_sequence + length (all_entries batches))
          × IsSynced env (gs ++ (new_group ∷ [])) (finish_group env written batches r ok_status).1
    unfolding finish_group
    finish_group-ok gs n positioned synced offset_fits sequence_fits success =
        let applied =
          apply_batches_lem env.hash db.memtable batches db.next_sequence db.memtable_updates
            synced.sized synced.cleared in
        (
          refl,
          omega (
            arith,
            offset_after offset_fits,
            length-encode_batch_into env.cpu db.next_sequence batches [],
          ),
          next_eq,
          record {
            groups = All-append IsGroup gs (new_group ∷ []) synced.groups (form, tt);
            log =
                ap₂ take (offset_after offset_fits) (file_after n synced.offset positioned success)
                ∙ take-write_at db.file db.wal_offset rec synced.offset
                ∙ ap₂ ◌++◌ synced.log (sym (append-nil rec))
                ∙ sym (log_bytes-append env.cpu gs (new_group ∷ []));
            offset = omega (
              arith,
              offset_after offset_fits,
              ap length (file_after n synced.offset positioned success),
              length-write_at db.file db.wal_offset rec synced.offset,
            );
            slots = λ key.
                (applied.0 key).0
                ∙ ap (last_write key (numbered db.next_sequence (all_entries batches)))
                    (synced.slots key)
                ∙ sym (log_slot-append key gs (new_group ∷ []) none);
            sized = applied.1;
            cleared = applied.2;
            sequences =
                All-append (IsBelow next) gs (new_group ∷ [])
                  (All-IsBelow-mono db.next_sequence next gs (omega (arith, next_eq))
                    synced.sequences)
                  (omega (arith, next_eq), tt);
          },
        )
      where
        next : ℕ
        next = add64 db.next_sequence (entry_count 0 batches)

        next_eq : next ≡ db.next_sequence + length (all_entries batches)
        next_eq = omega (arith, entry_count-eq 0 batches, sequence_fits)

    finish_group-refused :
        (status : Status)
        → status_ok status ≡ false
        → finish_group env written batches r status ≡ (status, written)
    unfolding finish_group
    finish_group-refused status refused = rw refused refl

    -- When the kernel has written the whole record and synced it, `writeGroup` returns `Ok` and the
    -- database stands behind one more group: its record ends the log, its entries are the last ones
    -- that the table has applied, and the offset and the next sequence number move on by the size
    -- of its record and by its entries. The invariant held before, the numbers of the group fit the
    -- fields of the record, its keys and values are bytes, neither the offset nor the sequence
    -- number overflows, the kernel's writes are positioned, and the processor's CRC instructions
    -- divide as documented.
    pub write_group-durable :
        (gs : List Group) (n : ℕ)
        → IsPositioned env.kernel
        → IsSynced env gs db
        → db.wal_offset + encoded_batch_size batches < 2 ^ 64
        → db.next_sequence + length (all_entries batches) < 2 ^ 64
        → answer.0 ≡ linked_finished (done (encoded_batch_size batches)) (done n)
        → ((write_group env db batches r).0 ≡ ok_status)
          × ((write_group env db batches r).1.wal_offset
              ≡ db.wal_offset + encoded_batch_size batches)
          × ((write_group env db batches r).1.next_sequence
              ≡ db.next_sequence + length (all_entries batches))
          × IsSynced env (gs ++ (new_group ∷ [])) (write_group env db batches r).1
    write_group-durable gs n positioned synced offset_fits sequence_fits success =
        subst
          (λ (p : Status × Db).
            (p.0 ≡ ok_status)
            × (p.1.wal_offset ≡ db.wal_offset + encoded_batch_size batches)
            × (p.1.next_sequence ≡ db.next_sequence + length (all_entries batches))
            × IsSynced env (gs ++ (new_group ∷ [])) p.1)
          (sym (
            write_group-eq
            ∙ ap (finish_group env written batches r) (
                ap (write_sync_resume env.kernel.strerror (encoded_batch_size batches)) success
                ∙ write_sync-success env.kernel.strerror (encoded_batch_size batches) n)))
          (finish_group-ok gs n positioned synced offset_fits sequence_fits success)

    -- When the kernel answers anything else, `writeGroup` returns a failure, the table, the offset
    -- and the next sequence number are those of before, and the database stands behind the same
    -- groups as before. The conditions on the group, the processor and the kernel are those of a
    -- write that succeeds.
    pub write_group-failed :
        (gs : List Group)
        → IsPositioned env.kernel
        → IsSynced env gs db
        → ((n : ℕ) → answer.0 ≢ linked_finished (done (encoded_batch_size batches)) (done n))
        → (status_ok (write_group env db batches r).0 ≡ false)
          × ((write_group env db batches r).1.memtable ≡ db.memtable)
          × ((write_group env db batches r).1.wal_offset ≡ db.wal_offset)
          × ((write_group env db batches r).1.next_sequence ≡ db.next_sequence)
          × IsSynced env gs (write_group env db batches r).1
    write_group-failed gs positioned synced failure =
        let refused =
          write_sync-failure env.kernel.strerror (encoded_batch_size batches) answer.0 failure in
        subst
          (λ (p : Status × Db).
            (status_ok p.0 ≡ false)
            × (p.1.memtable ≡ db.memtable)
            × (p.1.wal_offset ≡ db.wal_offset)
            × (p.1.next_sequence ≡ db.next_sequence)
            × IsSynced env gs p.1)
          (sym (write_group-eq ∙ finish_group-refused _ refused))
          (
            refused,
            refl,
            refl,
            refl,
            record {
              groups = synced.groups;
              log = positioned.keeps db.file db.wal_offset rec synced.offset ∙ synced.log;
              offset =
                  omega (
                    arith,
                    synced.offset,
                    positioned.grows db.file db.wal_offset rec synced.offset,
                  );
              slots = synced.slots;
              sized = synced.sized;
              cleared = synced.cleared;
              sequences = synced.sequences;
            },
          )
