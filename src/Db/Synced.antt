-- ===== src/Db/Synced.antt =====
-- The invariant of the database: the log holds the groups that were acknowledged, and the table
-- holds what their replay leaves.
use storage_engine.Base.{
  ℕ, ◌+◌, ◌≤◌, ◌≡◌, refl, sym, ap, ◌∙◌, Option, none, List, [], ◌∷◌, ◌++◌, length, take, All, arith,
  append_assoc,
}
use storage_engine.Bytes.{ByteString}
use storage_engine.Crc.{Cpu}
use storage_engine.Wal.Encode.Layout.{all_entries}
use storage_engine.Wal.Decode.Log.{Group, IsGroup, group_record, log_bytes}
use storage_engine.Memtable.{MemEntry, slot_at}
use storage_engine.Memtable.Lookup.{last_write}
use storage_engine.Memtable.Push.{numbered}
use storage_engine.Memtable.Apply.{IsCleared, IsSized}
use storage_engine.Db.{Environment, Db}

-- The slot of a key after all entries of a group.
abbrev pub group_slot : ByteString → Group → Option MemEntry → Option MemEntry
group_slot key g before = last_write key (numbered g.base_sequence (all_entries g.batches)) before

-- The slot of a key after all groups, in their order.
abbrev pub log_slot : ByteString → List Group → Option MemEntry → Option MemEntry
log_slot key [] before = before
log_slot key (g ∷ gs) before = log_slot key gs (group_slot key g before)

-- The group has only sequence numbers below `next`.
abbrev pub IsBelow : ℕ → Group → Type 0
IsBelow next g = g.base_sequence + length (all_entries g.batches) ≤ next

pub record IsSynced (env : Environment) (gs : List Group) (db : Db) : Type 0 where
  pub groups : All IsGroup gs
  pub log : take db.wal_offset db.file ≡ log_bytes env.cpu gs
  pub offset : db.wal_offset ≤ length db.file
  pub slots : (key : ByteString) → slot_at env.hash db.memtable key ≡ log_slot key gs none
  pub sized : IsSized db.memtable db.memtable_updates
  pub cleared : IsCleared db.memtable_updates
  pub sequences : All (IsBelow db.next_sequence) gs

pub log_slot-append :
    (key : ByteString) (gs hs : List Group) (before : Option MemEntry)
    → log_slot key (gs ++ hs) before ≡ log_slot key hs (log_slot key gs before)
log_slot-append key [] hs before = refl
log_slot-append key (g ∷ gs) hs before = log_slot-append key gs hs (group_slot key g before)

pub log_bytes-append :
    (cpu : Cpu) (gs hs : List Group)
    → log_bytes cpu (gs ++ hs) ≡ log_bytes cpu gs ++ log_bytes cpu hs
log_bytes-append cpu [] hs = refl
log_bytes-append cpu (g ∷ gs) hs =
    ap (◌++◌ (group_record cpu g)) (log_bytes-append cpu gs hs)
    ∙ sym (append_assoc (group_record cpu g) (log_bytes cpu gs) (log_bytes cpu hs))

pub All-IsBelow-mono : (m n : ℕ) (gs : List Group) → m ≤ n → All (IsBelow m) gs → All (IsBelow n) gs
All-IsBelow-mono m n [] h below = tt
All-IsBelow-mono m n (g ∷ gs) h (b, below) = (omega arith, All-IsBelow-mono m n gs h below)
