-- ===== src/Db/Replay.antt =====
-- The loop of `recover` over the decoded batches.
use storage_engine.Base.{
  ℕ, ◌+◌, ◌-◌, ◌^◌, ◌≤◌, ◌≡◌, refl, ap, ◌∙◌, max, List, [], ◌∷◌, length, map, All, arith,
  append-nil,
}
use storage_engine.Bytes.{ByteString}
use storage_engine.Batch.{Entry}
use storage_engine.Wal.Encode.Layout.{all_entries}
use storage_engine.Wal.Decode.Log.{Group, decoded}
use storage_engine.Memtable.{slot_at, apply_batches}
use storage_engine.Memtable.Lookup.{last_write}
use storage_engine.Memtable.Push.{numbered}
use storage_engine.Memtable.Apply.{IsCleared, IsSized, apply_batches_lem}
use storage_engine.Db.{Environment, Db, replay_loop, add64}
use storage_engine.Db.Synced.{IsBelow, log_slot}

-- What the loop has done to the database and to `maxSequence`.
pub record IsReplayed (env : Environment) (gs : List Group) (db : Db) (m : ℕ) (out : Db × ℕ)
    : Type 0 where
  pub slots :
      (key : ByteString)
      → slot_at env.hash out.0.memtable key ≡ log_slot key gs (slot_at env.hash db.memtable key)
  pub sized : IsSized out.0.memtable out.0.memtable_updates
  pub cleared : IsCleared out.0.memtable_updates
  pub file_kept : out.0.file ≡ db.file
  pub next_kept : out.0.next_sequence ≡ db.next_sequence
  pub grows : m ≤ out.1
  pub bounded : (n : ℕ) → m ≤ n → All (IsBelow n) gs → out.1 ≤ n
  pub above : All (IsBelow out.1) gs

module _ (env : Environment) where
  -- One round of the loop.
  abbrev step : Db → Group → Db
  step db g = record db {
    memtable =
        (apply_batches env.hash db.memtable ((decoded g).batch ∷ []) g.base_sequence
          db.memtable_updates).0;
    memtable_updates =
        (apply_batches env.hash db.memtable ((decoded g).batch ∷ []) g.base_sequence
          db.memtable_updates).1;
  }

  pub replay_loop_lem :
      (gs : List Group) (db : Db) (m : ℕ)
      → IsSized db.memtable db.memtable_updates
      → IsCleared db.memtable_updates
      → All (IsBelow (2 ^ 64 - 1)) gs
      → IsReplayed env gs db m (replay_loop env db m (map decoded gs))
  unfolding replay_loop
  replay_loop_lem [] db m sized cleared fits = record {
    slots = λ key. refl;
    sized = sized;
    cleared = cleared;
    file_kept = refl;
    next_kept = refl;
    grows = omega arith;
    bounded = λ n h hs. h;
    above = tt;
  }
  replay_loop_lem (g ∷ gs) db m sized cleared (fit, fits) =
      let applied =
        apply_batches_lem env.hash db.memtable ((decoded g).batch ∷ []) g.base_sequence
          db.memtable_updates sized cleared in
      let rest = replay_loop_lem gs (step db g) m' applied.1 applied.2 fits in
      record {
        slots = λ key.
            rest.slots key
            ∙ ap (log_slot key gs) (
                (applied.0 key).0
                ∙ ap
                    (λ (es : List Entry).
                      last_write key (numbered g.base_sequence es)
                        (slot_at env.hash db.memtable key))
                    (append-nil (all_entries g.batches)));
        sized = rest.sized;
        cleared = rest.cleared;
        file_kept = rest.file_kept;
        next_kept = rest.next_kept;
        grows = omega (arith, rest.grows, m'_eq);
        bounded = λ n h hs. rest.bounded n (omega (arith, m'_eq, hs.0)) hs.1;
        above = (omega (arith, rest.grows, m'_eq), rest.above);
      }
    where
      m' : ℕ
      m' = max m (add64 g.base_sequence (length (all_entries g.batches)))

      m'_eq : m' ≡ max m (g.base_sequence + length (all_entries g.batches))
      m'_eq = omega (arith, fit)
