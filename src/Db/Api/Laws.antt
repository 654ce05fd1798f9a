-- ===== src/Db/Api/Laws.antt =====
-- A write through the awaiter, and what `Get` answers after it.
use storage_engine.Base.{
  ℕ, ◌+◌, ◌^◌, ◌<◌, ◌≡◌, refl, sym, ap, subst, ◌∙◌, false, none, some, List, [], ◌∷◌, ◌++◌, length,
  All, arith, append-nil,
}
use storage_engine.Status.{ok_status}
use storage_engine.Bytes.{ByteString}
use storage_engine.Batch.{Entry, WriteBatch, empty}
use storage_engine.Batch.Laws.{IsBatch, copy-eq}
use storage_engine.Crc.Hardware.{IsSse42}
use storage_engine.Wal.{encoded_batch_size}
use storage_engine.Wal.Encode.Layout.{all_entries}
use storage_engine.Wal.Decode.Log.{Group, IsGroup}
use storage_engine.Wal.Fragments.Equal.{IsBytes}
use storage_engine.Memtable.{found}
use storage_engine.Memtable.Apply.{get-eq}
use storage_engine.Io.{done, linked_finished}
use storage_engine.Db.{Environment, Db, Readings, db_get, write_group}
use storage_engine.Db.Api.{Engine, enqueue, write_awaiter, write_async, get_async}
use storage_engine.Db.File.{IsPositioned}
use storage_engine.Db.Store.{Store, write_entries, write_entries-Shows, read}
use storage_engine.Db.Synced.{IsSynced, log_slot, log_slot-append}
use storage_engine.Db.Write.{new_group, answer, write_group-durable}
use storage_engine.Db.Writers.{WriterQueue, enqueue_async_writer, finish_inline}

-- Nobody writes, nobody waits, and no group commit is armed.
pub record IsIdle (q : WriterQueue) : Type 0 where
  pub quiet : q.writing ≡ false
  pub no_writers : q.writers ≡ []
  pub unarmed : q.group_commit_armed ≡ false

inline_lem :
    (q : WriterQueue) (writer : ℕ)
    → IsIdle q
    → ((enqueue_async_writer q writer).0 ≡ false)
      × IsIdle (finish_inline (enqueue_async_writer q writer).1)
unfolding enqueue_async_writer finish_inline
inline_lem q writer idle =
    rw (idle.quiet, idle.no_writers, idle.unarmed)
      (refl, record { quiet = refl; no_writers = refl; unarmed = refl })

-- A batch that one record holds, of bytes, and numbers that do not overflow.
pub record Fits (db : Db) (batch : WriteBatch) : Type 0 where
  pub size_fits : encoded_batch_size (batch ∷ []) < 2 ^ 32
  pub well_formed : IsBatch batch
  pub bytes : All IsBytes batch.entries
  pub offset_fits : db.wal_offset + encoded_batch_size (batch ∷ []) < 2 ^ 64
  pub sequence_fits : db.next_sequence + length batch.entries < 2 ^ 64

module _ (env : Environment) (sse : IsSse42 env.cpu) (positioned : IsPositioned env.kernel)
    (gs : List Group) (e : Engine) (synced : IsSynced env gs e.db) (r : Readings) where
  entries_of : (batch : WriteBatch) → all_entries (batch ∷ []) ≡ batch.entries
  entries_of batch = append-nil batch.entries

  abbrev next_group : WriteBatch → Group
  next_group batch = new_group env e.db (batch ∷ []) r

  next_group-IsGroup : (batch : WriteBatch) → Fits e.db batch → IsGroup (next_group batch)
  next_group-IsGroup batch fits = record {
    sequence_fits = omega (arith, fits.sequence_fits);
    size_fits = fits.size_fits;
    batches_form = (fits.well_formed, tt);
  }

  -- The database behind the write of one batch.
  written_gets :
      (batch : WriteBatch) (store : Store)
      → IsSynced env (gs ++ (next_group batch ∷ [])) (write_group env e.db (batch ∷ []) r).1
      → ((key : ByteString) → db_get env e.db key ≡ read (store key))
      → (key : ByteString)
      → db_get env (write_group env e.db (batch ∷ []) r).1 key
        ≡ read (write_entries store batch.entries key)
  unfolding db_get
  written_gets batch store after shows key =
      get-eq env.hash (write_group env e.db (batch ∷ []) r).1.memtable key
      ∙ ap found (after.slots key ∙ log_slot-append key gs (next_group batch ∷ []) none)
      ∙ write_entries-Shows (all_entries (batch ∷ [])) e.db.next_sequence key (log_slot key gs none)
          store (sym (get-eq env.hash e.db.memtable key ∙ ap found (synced.slots key)) ∙ shows key)
      ∙ ap (λ (es : List Entry). read (write_entries store es key)) (entries_of batch)

  -- On an idle engine a batch with entries whose record the kernel writes and syncs is written by
  -- the caller itself: `WriteAsync` returns `Ok` without a wait, the engine is idle again, and `Get`
  -- answers from the store before with the entries of the batch written to it, in their order. The
  -- batch fits one record and is of bytes, nothing overflows, the database was in order, writes are
  -- positioned, and the processor's CRC instructions divide as documented.
  pub write_async-get :
      (writer : ℕ) (batch : WriteBatch) (store : Store) (n : ℕ)
      → IsIdle e.queue
      → empty batch ≡ false
      → Fits e.db batch
      → (answer env e.db (batch ∷ []) r).0
        ≡ linked_finished (done (encoded_batch_size (batch ∷ []))) (done n)
      → ((key : ByteString) → get_async env e key ≡ read (store key))
      → ((write_async env e writer batch r).0 ≡ some ok_status)
        × IsIdle (write_async env e writer batch r).1.queue
        × ((key : ByteString)
            → get_async env (write_async env e writer batch r).1 key
              ≡ read (write_entries store batch.entries key))
        × IsSynced env (gs ++ (next_group batch ∷ [])) (write_async env e writer batch r).1.db
  unfolding write_async write_awaiter enqueue get_async
  write_async-get writer batch store n idle full fits success shows =
      let (inline, idle') = inline_lem e.queue writer idle in
      let (accepted, moved, numbers, after) =
        write_group-durable env e.db (batch ∷ []) r sse (next_group-IsGroup batch fits)
          (subst (All IsBytes) (sym (entries_of batch)) fits.bytes) gs n positioned synced
          (omega (arith, fits.offset_fits))
          (omega (arith, fits.sequence_fits, ap length (entries_of batch))) success in
      rw (copy-eq batch, full, inline)
        (ap some accepted, idle', written_gets batch store after shows, after)
