-- ===== src/Db/History.antt =====
-- A sequence of groups, one after the other, with any answers of the kernel.
use storage_engine.Base.{
  ℕ, ◌+◌, ◌^◌, ◌<◌, sym, ap, subst, inl, inr, List, [], ◌∷◌, ◌++◌, append-nil, append_assoc, length,
  All, arith, if◌then◌else◌,
}
use storage_engine.Status.{status_ok}
use storage_engine.Batch.{WriteBatch}
use storage_engine.Batch.Laws.{IsBatch}
use storage_engine.Crc.Hardware.{IsSse42}
use storage_engine.Wal.{encoded_batch_size}
use storage_engine.Wal.Encode.Layout.{all_entries}
use storage_engine.Wal.Fragments.Equal.{IsBytes}
use storage_engine.Wal.Decode.Log.{Group, IsGroup}
use storage_engine.Io.Resume.{success_or_not}
use storage_engine.Db.{Environment, Db, Readings, write_group}
use storage_engine.Db.File.{IsPositioned}
use storage_engine.Db.Synced.{IsSynced}
use storage_engine.Db.Write.{new_group, answer, write_group-durable, write_group-failed}

-- The batches of one group, and what its `writeGroup` reads.
abbrev pub Job : Type 0
Job = List WriteBatch × Readings

-- A group that one record can hold, of bytes.
pub record IsJob (job : Job) : Type 0 where
  pub size_fits : encoded_batch_size job.0 < 2 ^ 32
  pub batches_form : All IsBatch job.0
  pub bytes : All IsBytes (all_entries job.0)

abbrev pub jobs_size : List Job → ℕ
jobs_size [] = 0
jobs_size (job ∷ jobs) = encoded_batch_size job.0 + jobs_size jobs

abbrev pub jobs_entries : List Job → ℕ
jobs_entries [] = 0
jobs_entries (job ∷ jobs) = length (all_entries job.0) + jobs_entries jobs

module _ (env : Environment) where
  -- The database after the groups, whether they succeed or not.
  unfoldable pub write_groups : Db → List Job → Db
  write_groups db [] = db
  write_groups db (job ∷ jobs) = write_groups (write_group env db job.0 job.1).1 jobs

  -- The groups for which `writeGroup` returned `Ok`, with the sequence numbers they were given.
  unfoldable pub acknowledged : Db → List Job → List Group
  acknowledged db [] = []
  acknowledged db (job ∷ jobs) =
      let rest = acknowledged (write_group env db job.0 job.1).1 jobs in
      if status_ok (write_group env db job.0 job.1).0
      then new_group env db job.0 job.1 ∷ rest
      else rest

  -- After any sequence of groups, whatever the kernel answers to each, the invariant holds for the
  -- groups that held before and those that were acknowledged, in their order: up to the
  -- offset the log holds exactly their records, and the table what their replay leaves. Each group fits one record and is of
  -- bytes, neither the offset nor the sequence number overflows even if all succeed, the kernel's
  -- writes are positioned, and the processor's CRC instructions divide as documented.
  pub write_groups-IsSynced :
      (gs : List Group) (db : Db) (jobs : List Job)
      → IsSse42 env.cpu
      → IsPositioned env.kernel
      → IsSynced env gs db
      → All IsJob jobs
      → db.wal_offset + jobs_size jobs < 2 ^ 64
      → db.next_sequence + jobs_entries jobs < 2 ^ 64
      → IsSynced env (gs ++ acknowledged db jobs) (write_groups db jobs)
  unfolding write_groups acknowledged
  write_groups-IsSynced gs db [] sse positioned synced forms offset_fits sequence_fits =
      subst (λ (l : List Group). IsSynced env l db) (sym (append-nil gs)) synced
  write_groups-IsSynced gs db (job ∷ jobs) sse positioned synced (form, forms) offset_fits
        sequence_fits =
      elim (success_or_not (encoded_batch_size job.0) (answer env db job.0 job.1).0) [
        | inl (n, success) ↦
            let (accepted, moved, numbers, after) =
              write_group-durable env db job.0 job.1 sse group_form form.bytes gs n positioned
                synced (omega (arith, offset_fits)) (omega (arith, sequence_fits)) success in
            rw (ap status_ok accepted) (
              subst
                (λ (l : List Group).
                  IsSynced env l (write_groups (write_group env db job.0 job.1).1 jobs))
                (append_assoc gs (new_group env db job.0 job.1 ∷ [])
                  (acknowledged (write_group env db job.0 job.1).1 jobs))
                (write_groups-IsSynced (gs ++ (new_group env db job.0 job.1 ∷ []))
                  (write_group env db job.0 job.1).1 jobs sse positioned after forms
                  (omega (arith, moved, offset_fits)) (omega (arith, numbers, sequence_fits))))
        | inr failure ↦
            let (refused, kept, same_offset, same_next, after) =
              write_group-failed env db job.0 job.1 sse group_form form.bytes gs positioned synced
                failure in
            rw refused (
              write_groups-IsSynced gs (write_group env db job.0 job.1).1 jobs sse positioned after
                forms (omega (arith, same_offset, offset_fits))
                (omega (arith, same_next, sequence_fits)))
      ]
    where
      group_form : IsGroup (new_group env db job.0 job.1)
      group_form = record {
        sequence_fits = omega (arith, sequence_fits);
        size_fits = form.size_fits;
        batches_form = form.batches_form;
      }
