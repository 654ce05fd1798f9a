-- ===== src/Memtable.antt =====
-- src/memtable.h and src/memtable.cc: the sharded in-memory table.
-- `std::hash` is a parameter. A shard's `unordered_map` is an association list with one entry for
-- each key; its iteration order is never used. Each method runs under the locks of the shards that
-- it touches, so a call is one step.
pub mod Lookup
pub mod Push
pub mod Apply
pub mod Sharded
use storage_engine.Base.{
  ℕ, zero, suc, ◌+◌, ◌%◌, ◌^◌, String, Bool, true, false, Option, none, some, List, [], ◌∷◌, ◌++◌,
  length, get_or, set, replicate, if◌then◌else◌,
}
use storage_engine.Status.{Result, ok, err, not_found}
use storage_engine.Bytes.{ByteString}
use storage_engine.Bytes.Compare.{bytes_eq}
use storage_engine.Batch.{EntryType, k_put, k_delete, Entry, WriteBatch}

pub record PendingMemtableUpdate : Type 0 where
  pub entry : Entry
  pub sequence : ℕ

pub record MemEntry : Type 0 where
  pub sequence : ℕ
  pub deleted : Bool
  pub value : ByteString

abbrev pub Shard : Type 0
Shard = List (ByteString × MemEntry)

abbrev pub PendingUpdates : Type 0
PendingUpdates = List (List PendingMemtableUpdate)

pub record MemTable : Type 0 where
  pub apply_locks : ℕ
  pub apply_shard_locks : ℕ
  pub shards : List Shard

abbrev pub k_shard_count : ℕ
k_shard_count = 16

-- The constructor reserves buckets; the shards are empty.
abbrev pub new_memtable : MemTable
new_memtable = record {
  apply_locks = 0;
  apply_shard_locks = 0;
  shards = replicate k_shard_count [];
}

-- `entries.find(key)`
pub find : ByteString → Shard → Option MemEntry
find key [] = none
find key ((k, v) ∷ shard) = if bytes_eq k key then some v else find key shard

-- `entries.try_emplace(key).first` and the assignment through the iterator.
pub emplace : ByteString → MemEntry → Shard → Shard
emplace key v [] = (key, v) ∷ []
emplace key v ((k, w) ∷ shard) =
    if bytes_eq k key then (k, v) ∷ shard else (k, w) ∷ emplace key v shard

-- `entry.type == WriteBatch::Type::kDelete`
abbrev pub is_delete : EntryType → Bool
is_delete k_put = false
is_delete k_delete = true

-- What an update leaves in its slot.
abbrev pub slot_of : PendingMemtableUpdate → MemEntry
slot_of u = record {
  sequence = u.sequence;
  deleted = is_delete u.entry.type;
  value = u.entry.value;
}

pub apply_updates : Shard → List PendingMemtableUpdate → Shard
apply_updates shard [] = shard
apply_updates shard (u ∷ us) = apply_updates (emplace u.entry.key (slot_of u) shard) us

abbrev pub found : Option MemEntry → Result ByteString
found none = err (not_found "key not found")
found (some v) = if v.deleted then err (not_found "key not found") else ok v.value

-- The loop over the shards and their pending updates, which are arrays of one size. The result is
-- the cleared updates, the shards and the counter of shard locks.
pub apply_shards : PendingUpdates → List Shard → ℕ → PendingUpdates × List Shard × ℕ
apply_shards [] shards locks = ([], shards, locks)
apply_shards (us ∷ scratch) [] locks = (us ∷ scratch, [], locks)
apply_shards ([] ∷ scratch) (shard ∷ shards) locks =
    let (scratch', shards', locks') = apply_shards scratch shards locks in
    ([] ∷ scratch', shard ∷ shards', locks')
apply_shards ((u ∷ us) ∷ scratch) (shard ∷ shards) locks =
    let (scratch', shards', locks') = apply_shards scratch shards ((locks + 1) % 2 ^ 64) in
    ([] ∷ scratch', apply_updates shard (u ∷ us) ∷ shards', locks')

module _ (hash : ByteString → ℕ) where
  pub shard_for : ByteString → ℕ
  shard_for key = hash key % k_shard_count

  pub get : MemTable → ByteString → Result ByteString
  get t key = found (find key (get_or t.shards (shard_for key) []))

  -- The slot of a key, wherever it is sharded to.
  abbrev pub slot_at : MemTable → ByteString → Option MemEntry
  slot_at t key = find key (get_or t.shards (shard_for key) [])

  pub push_update : PendingUpdates → PendingMemtableUpdate → PendingUpdates
  push_update scratch u =
      let shard = shard_for u.entry.key in set scratch shard (get_or scratch shard [] ++ (u ∷ []))

  -- The result is the updates and the next sequence number.
  pub push_entries : PendingUpdates → ℕ → List Entry → PendingUpdates × ℕ
  push_entries scratch sequence [] = (scratch, sequence)
  push_entries scratch sequence (e ∷ es) =
      push_entries (push_update scratch (record { entry = e; sequence = sequence }))
        ((sequence + 1) % 2 ^ 64) es

  pub push_batches : PendingUpdates → ℕ → List WriteBatch → PendingUpdates
  push_batches scratch sequence [] = scratch
  push_batches scratch sequence (batch ∷ batches) =
      let (scratch', sequence') = push_entries scratch sequence batch.entries in
      push_batches scratch' sequence' batches

  pub apply_batches :
      MemTable → List WriteBatch → (base_sequence : ℕ) → PendingUpdates → MemTable × PendingUpdates
  apply_batches t batches base_sequence scratch =
      let (scratch', shards', locks') =
        apply_shards (push_batches scratch base_sequence batches) t.shards t.apply_shard_locks in
      (
        record {
          apply_locks = (t.apply_locks + 1) % 2 ^ 64;
          apply_shard_locks = locks';
          shards = shards';
        },
        scratch',
      )

pub record MemTableStats : Type 0 where
  pub apply_locks : ℕ
  pub apply_shard_locks : ℕ
  pub reserved_buckets : ℕ
  pub shard_count : ℕ
  pub entries : ℕ

-- `bucket_count` of a shard is the library's choice.
stats_loop : (Shard → ℕ) → List Shard → MemTableStats → MemTableStats
stats_loop bucket_count [] s = s
stats_loop bucket_count (shard ∷ shards) s = stats_loop bucket_count shards (record s {
  reserved_buckets = s.reserved_buckets + bucket_count shard;
  entries = s.entries + length shard;
})

pub stats : (Shard → ℕ) → MemTable → MemTableStats
stats bucket_count t = stats_loop bucket_count t.shards (record {
  apply_locks = t.apply_locks;
  apply_shard_locks = t.apply_shard_locks;
  reserved_buckets = 0;
  shard_count = length t.shards;
  entries = 0;
})
