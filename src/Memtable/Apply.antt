-- ===== src/Memtable/Apply.antt =====
-- `ApplyBatches` against its specification: the updates of the batches, numbered in order, applied
-- one after the other to a single map.
use storage_engine.Base.{
  get_or-replicate, ℕ, zero, suc, ◌+◌, ◌%◌, ◌^◌, ◌≡◌, refl, sym, ap, ◌∙◌, none, List, [], ◌∷◌,
  arith, length, get_or,
}
use storage_engine.Bytes.{ByteString}
use storage_engine.Batch.{WriteBatch}
use storage_engine.Wal.Encode.Layout.{all_entries}
use storage_engine.Memtable.{
  PendingMemtableUpdate, PendingUpdates, Shard, MemTable, k_shard_count, find, apply_updates,
  apply_shards, slot_at, found, get, new_memtable, shard_for, push_batches, apply_batches,
}
use storage_engine.Memtable.Push.{numbered, push_all_at, push_batches-eq, length-push_all}
use storage_engine.Memtable.Lookup.{last_write, find-apply_updates}

-- Every slot of the updates is empty.
abbrev pub IsCleared : PendingUpdates → Type 0
IsCleared scratch = (i : ℕ) → get_or scratch i [] ≡ []

-- `shards` of the table and of the scratch have the size of the arrays.
pub record IsSized (t : MemTable) (scratch : PendingUpdates) : Type 0 where
  pub shards_sized : length t.shards ≡ k_shard_count
  pub scratch_sized : length scratch ≡ k_shard_count

-- The second loop, at one shard.
pub apply_shards_at :
    (scratch : PendingUpdates) (shards : List Shard) (locks i : ℕ)
    → length scratch ≡ length shards
    → get_or (apply_shards scratch shards locks).1 i []
      ≡ apply_updates (get_or shards i []) (get_or scratch i [])
unfolding apply_shards apply_updates
apply_shards_at [] [] locks i h = refl
apply_shards_at [] (s ∷ shards) locks i h = absurd (omega arith)
apply_shards_at (us ∷ scratch) [] locks i h = absurd (omega arith)
apply_shards_at ([] ∷ scratch) (s ∷ shards) locks zero h = refl
apply_shards_at ([] ∷ scratch) (s ∷ shards) locks (suc i) h =
    apply_shards_at scratch shards locks i (omega arith)
apply_shards_at ((u ∷ us) ∷ scratch) (s ∷ shards) locks zero h = refl
apply_shards_at ((u ∷ us) ∷ scratch) (s ∷ shards) locks (suc i) h =
    apply_shards_at scratch shards ((locks + 1) % 2 ^ 64) i (omega arith)

apply_shards_clears :
    (scratch : PendingUpdates) (shards : List Shard) (locks : ℕ)
    → length scratch ≡ length shards
    → IsCleared (apply_shards scratch shards locks).0
unfolding apply_shards
apply_shards_clears [] [] locks h i = refl
apply_shards_clears [] (s ∷ shards) locks h i = absurd (omega arith)
apply_shards_clears (us ∷ scratch) [] locks h i = absurd (omega arith)
apply_shards_clears ([] ∷ scratch) (s ∷ shards) locks h zero = refl
apply_shards_clears ([] ∷ scratch) (s ∷ shards) locks h (suc i) =
    apply_shards_clears scratch shards locks (omega arith) i
apply_shards_clears ((u ∷ us) ∷ scratch) (s ∷ shards) locks h zero = refl
apply_shards_clears ((u ∷ us) ∷ scratch) (s ∷ shards) locks h (suc i) =
    apply_shards_clears scratch shards ((locks + 1) % 2 ^ 64) (omega arith) i

length-apply_shards :
    (scratch : PendingUpdates) (shards : List Shard) (locks : ℕ)
    → length scratch ≡ length shards
    → (length (apply_shards scratch shards locks).0 ≡ length scratch)
      × (length (apply_shards scratch shards locks).1 ≡ length shards)
unfolding apply_shards
length-apply_shards [] [] locks h = (refl, refl)
length-apply_shards [] (s ∷ shards) locks h = absurd (omega arith)
length-apply_shards (us ∷ scratch) [] locks h = absurd (omega arith)
length-apply_shards ([] ∷ scratch) (s ∷ shards) locks h =
    let (p, q) = length-apply_shards scratch shards locks (omega arith) in (ap suc p, ap suc q)
length-apply_shards ((u ∷ us) ∷ scratch) (s ∷ shards) locks h =
    let (p, q) = length-apply_shards scratch shards ((locks + 1) % 2 ^ 64) (omega arith) in
    (ap suc p, ap suc q)

module _ (hash : ByteString → ℕ) where
  pub pushed :
      (scratch : PendingUpdates) (batches : List WriteBatch) (base : ℕ)
      → length (push_batches hash scratch base batches) ≡ length scratch
  pushed scratch batches base =
      ap length (push_batches-eq hash scratch base batches) ∙ length-push_all hash scratch _

  -- After `ApplyBatches` the slot of every key holds its last write among the entries of the
  -- batches, numbered in order from the base sequence, and else what it held before; so `Get`
  -- answers from that slot, for every hash function. The arrays keep their sizes and the pending
  -- updates are all cleared. The pending updates were all cleared before the call.
  pub apply_batches_lem :
      (t : MemTable) (batches : List WriteBatch) (base_sequence : ℕ) (scratch : PendingUpdates)
      → IsSized t scratch
      → IsCleared scratch
      → ((key : ByteString)
          → (slot_at hash (apply_batches hash t batches base_sequence scratch).0 key
              ≡ last_write key (numbered base_sequence (all_entries batches)) (slot_at hash t key))
            × (get hash (apply_batches hash t batches base_sequence scratch).0 key
                ≡ found (
                    last_write key
                      (numbered base_sequence (all_entries batches))
                      (slot_at hash t key))))
        × IsSized
            (apply_batches hash t batches base_sequence scratch).0
            (apply_batches hash t batches base_sequence scratch).1
        × IsCleared (apply_batches hash t batches base_sequence scratch).1
  unfolding apply_batches get
  apply_batches_lem t batches base_sequence scratch sized cleared = (
    (λ key. (slot key, ap found (slot key))),
    record {
      shards_sized =
          (length-apply_shards scratch' t.shards t.apply_shard_locks same).1 ∙ sized.shards_sized;
      scratch_sized =
          (length-apply_shards scratch' t.shards t.apply_shard_locks same).0
          ∙ pushed scratch batches base_sequence
          ∙ sized.scratch_sized;
    },
    apply_shards_clears scratch' t.shards t.apply_shard_locks same,
  )
    where
      scratch' : PendingUpdates
      scratch' = push_batches hash scratch base_sequence batches

      same : length scratch' ≡ length t.shards
      same = pushed scratch batches base_sequence ∙ sized.scratch_sized ∙ sym sized.shards_sized

      slot :
          (key : ByteString)
          → find key (
              get_or (apply_shards scratch' t.shards t.apply_shard_locks).1 (shard_for hash key) [])
            ≡ last_write key (numbered base_sequence (all_entries batches)) (slot_at hash t key)
      slot key =
          ap (find key)
            (apply_shards_at scratch' t.shards t.apply_shard_locks (shard_for hash key) same)
          ∙ find-apply_updates key (get_or t.shards (shard_for hash key) [])
              (get_or scratch' (shard_for hash key) [])
          ∙ ap
              (λ (s : PendingUpdates).
                last_write key (get_or s (shard_for hash key) []) (slot_at hash t key))
              (push_batches-eq hash scratch base_sequence batches)
          ∙ push_all_at hash key scratch (numbered base_sequence (all_entries batches))
              (slot_at hash t key) sized.scratch_sized
          ∙ ap
              (λ (l : List PendingMemtableUpdate).
                last_write key (numbered base_sequence (all_entries batches))
                  (last_write key l (slot_at hash t key)))
              (cleared (shard_for hash key))

-- A new table has no key, for every hash function.
pub new_memtable-slot :
    (hash : ByteString → ℕ) (key : ByteString) → slot_at hash new_memtable key ≡ none
unfolding find
new_memtable-slot hash key = ap (find key) (get_or-replicate k_shard_count (shard_for hash key) [])

pub get-eq :
    (hash : ByteString → ℕ) (t : MemTable) (key : ByteString)
    → get hash t key ≡ found (slot_at hash t key)
unfolding get
get-eq hash t key = refl
