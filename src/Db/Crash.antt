-- ===== src/Db/Crash.antt =====
-- A crash during a write, and the database that `recover` opens after it.
use storage_engine.Base.{
  ℕ, ◌-◌, ◌^◌, ◌≤◌, ◌≡◌, sym, ap, subst, ◌∙◌, some, ◌∷◌, ◌++◌, List, length, take, arith,
  length-take,
}
use storage_engine.Status.{ok_status}
use storage_engine.Bytes.{ByteString}
use storage_engine.Wal.Decode.Log.{Group, IsGroup, group_record, log_bytes}
use storage_engine.Memtable.{found}
use storage_engine.Memtable.Apply.{get-eq}
use storage_engine.Db.{Environment, Db, new_db, db_get, recover}
use storage_engine.Db.Synced.{IsSynced, All-IsBelow-mono}
use storage_engine.Db.Recover.{Answers, recover-torn}

module _ (env : Environment) (gs : List Group) where
  -- What `Get` answers depends on the groups only.
  pub db_get-IsSynced :
      (db db' : Db) (key : ByteString)
      → IsSynced env gs db
      → IsSynced env gs db'
      → db_get env db key ≡ db_get env db' key
  unfolding db_get
  db_get-IsSynced db db' key s s' =
      get-eq env.hash db.memtable key
      ∙ ap found (s.slots key ∙ sym (s'.slots key))
      ∙ sym (get-eq env.hash db'.memtable key)

  pub offset-eq : (db : Db) → IsSynced env gs db → db.wal_offset ≡ length (log_bytes env.cpu gs)
  offset-eq db s = omega (arith, ap length s.log, length-take db.wal_offset db.file, s.offset)

  -- Nothing that was acknowledged is lost: when a crash leaves the log up to the offset and behind
  -- it a part of the record that was being written, the database that `recover` opens answers every
  -- `Get` as the one before the crash did, and the invariant holds for the same groups. The part may
  -- be empty but not the whole record, whose numbers fit their fields; the next sequence number was
  -- two below 2 ^ 64 at most, and the kernel reports no error.
  pub recover-crash :
      (db : Db) (last : Group) (tail more : ByteString) (byte : ℕ)
      → IsSynced env gs db
      → db.next_sequence ≤ 2 ^ 64 - 2
      → IsGroup last
      → tail ++ (byte ∷ more) ≡ group_record env.cpu last
      → Answers env.kernel (take db.wal_offset db.file ++ tail) db.wal_offset
      → (db' : Db) × (recover env (new_db (take db.wal_offset db.file ++ tail))
          ≡ some (ok_status, db'))
        × ((key : ByteString) → db_get env db' key ≡ db_get env db key)
        × IsSynced env gs db'
  recover-crash db last tail more byte s low form torn answers =
      let same : take db.wal_offset db.file ++ tail ≡ log_bytes env.cpu gs ++ tail =
        ap (λ (t : ByteString). t ++ tail) s.log in
      let (db', opens, s') =
        recover-torn env gs last tail more byte s.groups form torn
          (All-IsBelow-mono db.next_sequence (2 ^ 64 - 2) gs low s.sequences)
          (subst (λ (p : ByteString × ℕ). Answers env.kernel p.0 p.1)
            (λ i. (same i, offset-eq db s i)) answers) in
      (
        db',
        ap (λ (t : ByteString). recover env (new_db t)) same ∙ opens,
        (λ key. db_get-IsSynced db' db key s' s),
        s',
      )
