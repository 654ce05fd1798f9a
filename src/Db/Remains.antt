-- ===== src/Db/Remains.antt =====
-- `recover` on a file that is cut anywhere behind the offset, or that holds one record more than was
-- acknowledged.
use storage_engine.Base.{
  ℕ, ◌-◌, ◌^◌, ◌≤◌, ◌<◌, ◌≡◌, refl, sym, ap, ap₂, subst, ◌∙◌, some, List, [], ◌∷◌, ◌++◌, length,
  take, drop, take-append-drop, append-nil, All-append, arith,
}
use storage_engine.Status.{ok_status}
use storage_engine.Bytes.{ByteString}
use storage_engine.Wal.Decode.Log.{Group, IsGroup, group_record, group_record-pos, log_bytes}
use storage_engine.Db.{Environment, Db, new_db, recover}
use storage_engine.Db.Crash.{recover-crash}
use storage_engine.Db.Recover.{Answers, recover-torn}
use storage_engine.Db.Synced.{IsSynced, IsBelow, All-IsBelow-mono, log_bytes-append}

first_byte :
    (xs : ByteString) → 0 < length xs → (byte : ℕ) × (more : ByteString) × (byte ∷ more ≡ xs)
first_byte [] h = absurd (omega arith)
first_byte (byte ∷ more) h = (byte, more, refl)

-- The file has the log up to the offset.
pub file_parts :
    (db : Db) (file tail : ByteString)
    → take db.wal_offset file ≡ take db.wal_offset db.file
    → drop db.wal_offset file ≡ tail
    → file ≡ take db.wal_offset db.file ++ tail
file_parts db file tail kept behind =
    sym (take-append-drop db.wal_offset file) ∙ ap₂ (λ (xs ys : ByteString). xs ++ ys) kept behind

module _ (env : Environment) (gs : List Group) (db : Db) (last : Group) (file : ByteString)
    (synced : IsSynced env gs db) (low : db.next_sequence ≤ 2 ^ 64 - 2) (form : IsGroup last)
    (kept : take db.wal_offset file ≡ take db.wal_offset db.file) where
  -- Behind the offset stands a part of a record: it is cut off.
  pub recover-part :
      (byte : ℕ) (more : ByteString)
      → drop db.wal_offset file ++ (byte ∷ more) ≡ group_record env.cpu last
      → Answers env.kernel file db.wal_offset
      → (db' : Db) × (recover env (new_db file) ≡ some (ok_status, db')) × IsSynced env gs db'
  recover-part byte more part answers =
      let same : file ≡ take db.wal_offset db.file ++ drop db.wal_offset file =
        file_parts db file (drop db.wal_offset file) kept refl in
      let (db', recovers, gets, after) =
        recover-crash env gs db last (drop db.wal_offset file) more byte synced low form part
          (subst (λ (t : ByteString). Answers env.kernel t db.wal_offset) same answers) in
      (db', ap (λ (t : ByteString). recover env (new_db t)) same ∙ recovers, after)

  -- Behind the offset stands a whole record: its group is recovered as well.
  pub recover-whole :
      IsBelow (2 ^ 64 - 2) last
      → drop db.wal_offset file ≡ group_record env.cpu last
      → Answers env.kernel file (length file)
      → (db' : Db) × (recover env (new_db file) ≡ some (ok_status, db'))
        × IsSynced env (gs ++ (last ∷ [])) db'
  recover-whole below whole answers =
      let (byte, more, starts) =
        first_byte (group_record env.cpu last) (group_record-pos env.cpu last) in
      let (db', recovers, after) =
        recover-torn env (gs ++ (last ∷ [])) last [] more byte
          (All-append IsGroup gs (last ∷ []) synced.groups (form, tt)) form starts
          (All-append (IsBelow (2 ^ 64 - 2)) gs (last ∷ [])
            (All-IsBelow-mono db.next_sequence (2 ^ 64 - 2) gs low synced.sequences) (below, tt))
          (subst (λ (p : ByteString × ℕ). Answers env.kernel p.0 p.1)
            (λ i. (same i, length (log_file i))) answers) in
      (db', ap (λ (t : ByteString). recover env (new_db t)) same ∙ recovers, after)
    where
      log_file : file ≡ log_bytes env.cpu (gs ++ (last ∷ []))
      log_file =
          file_parts db file (group_record env.cpu last) kept whole
          ∙ ap₂ (λ (xs ys : ByteString). xs ++ ys) synced.log
              (sym (append-nil (group_record env.cpu last)))
          ∙ sym (log_bytes-append env.cpu gs (last ∷ []))

      same : file ≡ log_bytes env.cpu (gs ++ (last ∷ [])) ++ []
      same = log_file ∙ sym (append-nil (log_bytes env.cpu (gs ++ (last ∷ []))))
