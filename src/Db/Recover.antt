-- ===== src/Db/Recover.antt =====
-- `recover` on the file that a crash leaves: whole records and a part of one more.
use storage_engine.Base.{
  ℕ, ◌-◌, ◌^◌, ◌≤◌, ◌≡◌, refl, sym, ap, ◌∙◌, inl, inr, false, Bool-cases, some, none, List, [], ◌∷◌,
  ◌++◌, length, take, map, max, get_or-replicate, All, arith, length-append, take-all, take-append,
  ◌==◌, ==_iff,
}
use storage_engine.Status.{Status, ok_status}
use storage_engine.Bytes.{ByteString}
use storage_engine.Wal.Decode.Log.{
  Group, IsGroup, decoded, group_record, log_bytes, group_record-pos,
}
use storage_engine.Wal.Decode.Torn.{decode_log-torn}
use storage_engine.Memtable.{k_shard_count, slot_at}
use storage_engine.Memtable.Apply.{IsCleared, IsSized, new_memtable-slot}
use storage_engine.Io.{done, finished, read_at, fdatasync}
use storage_engine.Io.Resume.{read_at-done, fdatasync-done}
use storage_engine.Db.{
  Kernel, Environment, Db, new_db, replay_loop, replay, truncate_tail, recover_decoded,
  recover_bytes, recover_read, recover_size, recover, add64, cut_file,
}
use storage_engine.Db.Synced.{IsSynced, IsBelow, log_slot, All-IsBelow-mono}
use storage_engine.Db.Replay.{IsReplayed, replay_loop_lem}

-- The kernel reports no error during a recovery that keeps `size` bytes: it reads the whole file,
-- cuts it and syncs it.
pub record Answers (kernel : Kernel) (file : ByteString) (size : ℕ) : Type 0 where
  pub stat : kernel.fstat file ≡ done (length file)
  pub read : kernel.readv file ≡ finished (done (length file))
  pub cut : kernel.ftruncate file size ≡ (done 0, take size file)
  pub sync : kernel.fdatasync (take size file) ≡ finished (done 0)

new_db-IsCleared : (file : ByteString) → IsCleared (new_db file).memtable_updates
new_db-IsCleared file i = get_or-replicate k_shard_count i []

new_db-slot :
    (env : Environment) (file key : ByteString) → slot_at env.hash (new_db file).memtable key ≡ none
new_db-slot env file key = new_memtable-slot env.hash key

new_db-IsSized : (file : ByteString) → IsSized (new_db file).memtable (new_db file).memtable_updates
new_db-IsSized file = record { shards_sized = refl; scratch_sized = refl }

-- The cut leaves the valid bytes, also where there is nothing to cut.
truncate_tail_lem :
    (env : Environment) (db : Db) (file : ByteString)
    → db.file ≡ file
    → Answers env.kernel file db.wal_offset
    → db.wal_offset ≤ length file
    → truncate_tail env db (length file) ≡ (ok_status, record db { file = take db.wal_offset file })
unfolding truncate_tail cut_file
truncate_tail_lem env db file same answers h = elim (Bool-cases (db.wal_offset == length file)) [
  | inl e ↦
      rw e (ap kept (same ∙ sym (take-all db.wal_offset file (omega (arith, (==_iff _ _).0 e)))))
  | inr e ↦ rw e (
      ap (λ (t : ByteString). cut_file env db (env.kernel.ftruncate t db.wal_offset)) same
      ∙ ap (cut_file env db) answers.cut
      ∙ ap (λ (s : Status). (s, record db { file = take db.wal_offset file }))
          (ap (fdatasync env.kernel.strerror) answers.sync ∙ fdatasync-done env.kernel.strerror 0))
]
  where
    kept : ByteString → Status × Db
    kept t = (ok_status, record db { file = t })

-- A log of no bytes has no group.
pub empty-IsSynced :
    (env : Environment) (gs : List Group) (file : ByteString)
    → length (log_bytes env.cpu gs) ≡ 0
    → IsSynced env gs (new_db file)
empty-IsSynced env [] file h = record {
  groups = tt;
  log = refl;
  offset = omega arith;
  slots = new_db-slot env file;
  sized = new_db-IsSized file;
  cleared = new_db-IsCleared file;
  sequences = tt;
}
empty-IsSynced env (g ∷ gs) file h = absurd (
    omega (
      arith,
      length-append (group_record env.cpu g) (log_bytes env.cpu gs),
      group_record-pos env.cpu g,
    ))

module _ (env : Environment) (gs : List Group) (last : Group) (tail more : ByteString)
    (byte : ℕ) where
  -- The file: the records of `gs` and a proper prefix of one more record.
  abbrev pub torn_file : ByteString
  torn_file = log_bytes env.cpu gs ++ tail

  abbrev valid : ℕ
  valid = length (log_bytes env.cpu gs)

  take-valid : take valid torn_file ≡ log_bytes env.cpu gs
  take-valid = take-append valid (log_bytes env.cpu gs) tail refl

  -- The database that `recover` starts the loop with and what the loop makes of it.
  abbrev looped : Db × ℕ
  looped =
      replay_loop env (record (new_db torn_file) { wal_offset = length torn_file }) 0
        (map decoded gs)

  abbrev recovered : Db
  recovered = record looped.0 {
    next_sequence = max looped.0.next_sequence (add64 looped.1 1);
    wal_offset = valid;
    file = take valid torn_file;
  }

  module _ (forms : All IsGroup gs) (last_form : IsGroup last)
      (torn : tail ++ (byte ∷ more) ≡ group_record env.cpu last)
      (sequences : All (IsBelow (2 ^ 64 - 2)) gs)
      (answers : Answers env.kernel torn_file valid) where
    looped_lem :
        IsReplayed env gs (record (new_db torn_file) { wal_offset = length torn_file }) 0 looped
    looped_lem =
        replay_loop_lem env gs _ 0 (new_db-IsSized torn_file) (new_db-IsCleared torn_file)
          (All-IsBelow-mono (2 ^ 64 - 2) (2 ^ 64 - 1) gs (omega arith) sequences)

    recovered-IsSynced : IsSynced env gs recovered
    recovered-IsSynced = record {
      groups = forms;
      log = ap (take valid) take-valid ∙ take-all valid (log_bytes env.cpu gs) (omega arith);
      offset = omega (arith, ap length take-valid);
      slots = λ key. looped_lem.slots key ∙ ap (log_slot key gs) (new_db-slot env torn_file key);
      sized = looped_lem.sized;
      cleared = looped_lem.cleared;
      sequences =
          All-IsBelow-mono looped.1 (max looped.0.next_sequence (add64 looped.1 1)) gs
            (omega (arith, looped_lem.bounded (2 ^ 64 - 2) (omega arith) sequences))
            looped_lem.above;
    }

    recover-eq :
        length torn_file == 0 ≡ false → recover env (new_db torn_file) ≡ some (ok_status, recovered)
    unfolding recover recover_size recover_read recover_bytes recover_decoded replay
    recover-eq nonempty =
        ap (recover_size env (new_db torn_file)) answers.stat
        ∙ rw nonempty (
            ap (recover_read env opened) (
              ap (read_at env.kernel.strerror) answers.read
              ∙ read_at-done env.kernel.strerror (length torn_file))
            ∙ ap (recover_bytes env opened) (take-all (length torn_file) torn_file (omega arith))
            ∙ ap (recover_decoded env opened (length torn_file))
                (decode_log-torn env.cpu gs last tail more byte forms last_form torn)
            ∙ ap some (
                truncate_tail_lem env _ torn_file looped_lem.file_kept answers
                  (omega (arith, length-append (log_bytes env.cpu gs) tail))))
      where
        opened : Db
        opened = record (new_db torn_file) { wal_offset = length torn_file }

    recover-empty :
        length torn_file ≡ 0 → recover env (new_db torn_file) ≡ some (ok_status, new_db torn_file)
    unfolding recover recover_size
    recover-empty empty = ap (recover_size env (new_db torn_file)) (answers.stat ∙ ap done empty)

    pub recover-torn :
        (db : Db) × (recover env (new_db torn_file) ≡ some (ok_status, db)) × IsSynced env gs db
    recover-torn = elim (Bool-cases (length torn_file == 0)) [
      | inl empty ↦ (
        new_db torn_file,
        recover-empty ((==_iff _ _).0 empty),
        empty-IsSynced env gs torn_file
            (omega (arith, length-append (log_bytes env.cpu gs) tail, (==_iff _ _).0 empty)),
      )
      | inr nonempty ↦ (recovered, recover-eq nonempty, recovered-IsSynced)
    ]
