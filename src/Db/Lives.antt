-- ===== src/Db/Lives.antt =====
-- The database over any number of lives: groups that are written, stops at any point of a write, and
-- recoveries.
use storage_engine.Base.{
  ℕ, ◌+◌, ◌-◌, ◌^◌, ◌≤◌, ◌<◌, ◌≡◌, refl, sym, ap, subst, ◌∙◌, inl, inr, Bool-cases, Option, none,
  some, List, [], ◌∷◌, ◌++◌, length, take, drop, if◌then◌else◌, arith,
}
use storage_engine.Status.{Status, ok_status, status_ok}
use storage_engine.Bytes.{ByteString}
use storage_engine.Batch.{WriteBatch}
use storage_engine.Crc.Hardware.{IsSse42}
use storage_engine.Wal.{encoded_batch_size}
use storage_engine.Wal.Encode.Layout.{all_entries}
use storage_engine.Wal.Decode.Log.{Group, IsGroup, group_record}
use storage_engine.Memtable.{found}
use storage_engine.Memtable.Apply.{get-eq}
use storage_engine.Db.{Kernel, Environment, Db, new_db, db_get, write_group, recover}
use storage_engine.Db.File.{IsPositioned}
use storage_engine.Db.History.{Job, IsJob, write_groups, acknowledged, write_groups-IsSynced}
use storage_engine.Db.Recover.{Answers, empty-IsSynced}
use storage_engine.Db.Remains.{recover-part, recover-whole}
use storage_engine.Db.Store.{
  Store, empty_store, write_entries, read, write_log, write_log-append, log_slot-write_log,
}
use storage_engine.Db.Synced.{IsSynced}

-- Each step has a kernel of its own, so that a write that is tried again may be answered otherwise.
abbrev pub with_kernel : Environment → Kernel → Environment
with_kernel env kernel = record env { kernel = kernel }

-- The group of a write that the database has not acknowledged.
abbrev pub in_flight : Db → List WriteBatch → Group
in_flight db batches = record { base_sequence = db.next_sequence; batches = batches }

-- A file as it may stand when the process stops: what was acknowledged is there, and an unacknowledged
-- write has left some bytes behind the offset, or none.
pub record IsLeft (db : Db) (batches : List WriteBatch) (file : ByteString) : Type 0 where
  pub kept : take db.wal_offset file ≡ take db.wal_offset db.file
  pub group : IsGroup (in_flight db batches)
  pub low : db.next_sequence + length (all_entries batches) ≤ 2 ^ 64 - 2

-- The states of the database, each with the store that its acknowledged writes make. A stop may come
-- in the middle of a write or at any time after one that failed; the next life begins with
-- `recover` on the file as it stands, the bytes included that the write has left. When they are
-- a whole record, its entries are in the store from then on though they were not acknowledged.
pub data Lives (env : Environment) : Db → Store → Type 0 where
  opened : Lives env (new_db []) empty_store
  wrote :
      {db : Db} {store : Store}
      → Lives env db store
      → (kernel : Kernel) → IsPositioned kernel
      → (job : Job) → IsJob job
      → db.wal_offset + encoded_batch_size job.0 < 2 ^ 64
      → db.next_sequence + length (all_entries job.0) < 2 ^ 64
      → Lives env (write_group (with_kernel env kernel) db job.0 job.1).1 (
          if status_ok (write_group (with_kernel env kernel) db job.0 job.1).0
          then write_entries store (all_entries job.0)
          else store)
  stopped_within :
      {db : Db} {store : Store}
      → Lives env db store
      → (batches : List WriteBatch) (file : ByteString) → IsLeft db batches file
      → (byte : ℕ) (more : ByteString)
      → drop db.wal_offset file ++ (byte ∷ more) ≡ group_record env.cpu (in_flight db batches)
      → (kernel : Kernel) → Answers kernel file db.wal_offset
      → (status : Status) (db' : Db)
      → recover (with_kernel env kernel) (new_db file) ≡ some (status, db')
      → Lives env db' store
  stopped_behind :
      {db : Db} {store : Store}
      → Lives env db store
      → (batches : List WriteBatch) (file : ByteString) → IsLeft db batches file
      → drop db.wal_offset file ≡ group_record env.cpu (in_flight db batches)
      → (kernel : Kernel) → Answers kernel file (length file)
      → (status : Status) (db' : Db)
      → recover (with_kernel env kernel) (new_db file) ≡ some (status, db')
      → Lives env db' (write_entries store (all_entries batches))

-- The invariant does not depend on the kernel.
pub other_kernel :
    (env : Environment) (k l : Kernel) (gs : List Group) (db : Db)
    → IsSynced (with_kernel env k) gs db
    → IsSynced (with_kernel env l) gs db
other_kernel env k l gs db s = record {
  groups = s.groups;
  log = s.log;
  offset = s.offset;
  slots = s.slots;
  sized = s.sized;
  cleared = s.cleared;
  sequences = s.sequences;
}

-- The groups that one write acknowledges.
acknowledged_log :
    (env : Environment) (store : Store) (db : Db) (job : Job)
    → write_log store (acknowledged env db (job ∷ [])) ≡ (
        if status_ok (write_group env db job.0 job.1).0
        then write_entries store (all_entries job.0)
        else store)
unfolding acknowledged
acknowledged_log env store db job =
    elim (Bool-cases (status_ok (write_group env db job.0 job.1).0)) [
      | inl accepted ↦ rw accepted refl
      | inr refused ↦ rw refused refl
    ]

abbrev recovered_db : Db → Option (Status × Db) → Db
recovered_db other none = other
recovered_db other (some (status, db)) = db

same_db :
    (s t : Status) (d e : Db) → ◌≡◌ {A = Option (Status × Db)} (some (s, d)) (some (t, e)) → d ≡ e
same_db s t d e p = ap (recovered_db d) p

module _ (env : Environment) (sse : IsSse42 env.cpu) where
  -- The groups behind a state.
  abbrev Behind : Db → Store → Type 0
  Behind db store = (gs : List Group) × IsSynced env gs db × (write_log empty_store gs ≡ store)

  written-Behind :
      (db : Db) (store : Store) (kernel : Kernel) (job : Job)
      → Behind db store
      → IsPositioned kernel
      → IsJob job
      → db.wal_offset + encoded_batch_size job.0 < 2 ^ 64
      → db.next_sequence + length (all_entries job.0) < 2 ^ 64
      → Behind (write_group (with_kernel env kernel) db job.0 job.1).1 (
          if status_ok (write_group (with_kernel env kernel) db job.0 job.1).0
          then write_entries store (all_entries job.0)
          else store)
  unfolding write_groups
  written-Behind db store kernel job (gs, synced, same) positioned form offset_fits sequence_fits =
      let added : List Group = acknowledged (with_kernel env kernel) db (job ∷ []) in
      (
        gs ++ added,
        other_kernel env kernel env.kernel (gs ++ added) _ (
            write_groups-IsSynced (with_kernel env kernel) gs db (job ∷ []) sse positioned
              (other_kernel env env.kernel kernel gs db synced) (form, tt)
              (omega (arith, offset_fits)) (omega (arith, sequence_fits))),
        write_log-append empty_store gs added
            ∙ ap (λ (t : Store). write_log t added) same
            ∙ acknowledged_log (with_kernel env kernel) store db job,
      )

  -- The database that `recover` returns has the groups that it was shown to have.
  returned-Behind :
      (kernel : Kernel) (file : ByteString) (gs : List Group) (store : Store)
      → (db' : Db) × (recover (with_kernel env kernel) (new_db file) ≡ some (ok_status, db'))
        × IsSynced (with_kernel env kernel) gs db'
      → write_log empty_store gs ≡ store
      → (status : Status) (db : Db)
      → recover (with_kernel env kernel) (new_db file) ≡ some (status, db)
      → Behind db store
  returned-Behind kernel file gs store (db', recovers, synced) same status db returns = (
    gs,
    other_kernel env kernel env.kernel gs db (
        subst (IsSynced (with_kernel env kernel) gs)
          (same_db ok_status status db' db (sym recovers ∙ returns)) synced),
    same,
  )

  Lives-Behind : {db : Db} {store : Store} → Lives env db store → Behind db store
  Lives-Behind opened = ([], empty-IsSynced env [] [] refl, refl)
  Lives-Behind (wrote {db} {store} life kernel positioned job form offset_fits sequence_fits) =
      written-Behind db store kernel job (Lives-Behind life) positioned form offset_fits
        sequence_fits
  Lives-Behind
        (stopped_within {db} {store} life batches file left byte more part kernel answers status db'
          returns) =
      let (gs, synced, same) = Lives-Behind life in
      returned-Behind kernel file gs store
        (recover-part (with_kernel env kernel) gs db (in_flight db batches) file
          (other_kernel env env.kernel kernel gs db synced) (omega (arith, left.low)) left.group
          left.kept byte more part answers)
        same status db' returns
  Lives-Behind
        (stopped_behind {db} {store} life batches file left whole kernel answers status db'
          returns) =
      let (gs, synced, same) = Lives-Behind life in
      returned-Behind kernel file (gs ++ (in_flight db batches ∷ []))
        (write_entries store (all_entries batches))
        (recover-whole (with_kernel env kernel) gs db (in_flight db batches) file
          (other_kernel env env.kernel kernel gs db synced) (omega (arith, left.low)) left.group
          left.kept left.low whole answers)
        (write_log-append empty_store gs (in_flight db batches ∷ [])
          ∙ ap (λ (t : Store). write_entries t (all_entries batches)) same)
        status db' returns

  -- In every state that the database reaches from an empty file, by groups of writes that succeed
  -- or fail and by stops of the process with a recovery behind each, `Get` answers what a plain map
  -- holds after the entries of the acknowledged groups, in their order. When the process stops, the
  -- file has the log up to the offset, and all that stands behind it, left by a write that the stop
  -- cuts short or by one that failed before, is a part of the one record of a group that was not
  -- acknowledged and is numbered from the next sequence number: none of it, some of it, or the
  -- whole record, and in this last case the entries of that group are in the map as well. What
  -- several failed writes of different groups leave over each other is excluded. Each group fits
  -- one record and is of bytes, no number overflows (at a stop the sequence numbers end two below
  -- 2 ^ 64), the kernel may answer each step differently but reports no error during a recovery and
  -- its writes are positioned, and the processor's CRC instructions divide as documented.
  pub db_get-Lives :
      (db : Db) (store : Store) (key : ByteString)
      → Lives env db store
      → db_get env db key ≡ read (store key)
  unfolding db_get
  db_get-Lives db store key life =
      let (gs, synced, same) = Lives-Behind life in
      get-eq env.hash db.memtable key
      ∙ ap found (synced.slots key)
      ∙ log_slot-write_log gs key none empty_store refl
      ∙ ap (λ (t : Store). read (t key)) same
