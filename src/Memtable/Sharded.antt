-- ===== src/Memtable/Sharded.antt =====
-- Where the entries of the table stand: each key once, in the shard of its hash.
use storage_engine.Base.{
  ℕ, ◌≡◌, refl, sym, subst, ◌∙◌, arith, false, Bool-cases, inl, inr, none, List, [], ◌∷◌, ◌++◌, All,
  All-append, length, get_or, set, get_or-set_self, get_or-set_ne, get_or-replicate, ◌==◌, ==_iff,
}
use storage_engine.Bytes.{ByteString}
use storage_engine.Bytes.Compare.{bytes_eq, bytes_eq_iff}
use storage_engine.Batch.{WriteBatch}
use storage_engine.Wal.Encode.Layout.{all_entries}
use storage_engine.Memtable.{
  PendingMemtableUpdate, PendingUpdates, MemEntry, Shard, MemTable, k_shard_count, new_memtable,
  find, emplace, slot_of, apply_updates, shard_for, push_update, push_batches, apply_batches,
}
use storage_engine.Memtable.Lookup.{find-emplace}
use storage_engine.Memtable.Push.{
  numbered, push_all, push_batches-eq, length-push_update, shard_for-lt,
}
use storage_engine.Memtable.Apply.{IsCleared, IsSized, apply_shards_at, pushed}

-- No key stands twice.
abbrev pub IsUnique : Shard → Type 0
IsUnique [] = Unit
IsUnique ((key, v) ∷ shard) = (find key shard ≡ none) × IsUnique shard

emplace-IsUnique :
    (key : ByteString) (v : MemEntry) (shard : Shard)
    → IsUnique shard
    → IsUnique (emplace key v shard)
unfolding emplace find
emplace-IsUnique key v [] h = (refl, tt)
emplace-IsUnique key v ((k, w) ∷ shard) (absent, rest) = elim (Bool-cases (bytes_eq k key)) [
  | inl e ↦ rw e (absent, rest)
  | inr e ↦
      rw e (find-emplace key k v shard ∙ rw (differs e) absent, emplace-IsUnique key v shard rest)
]
  where
    differs : bytes_eq k key ≡ false → bytes_eq key k ≡ false
    differs e = ground (arith, bytes_eq_iff k key, bytes_eq_iff key k)

module _ (hash : ByteString → ℕ) where
  -- The entry, or the update, belongs to the shard `i`.
  abbrev pub InShard : ℕ → ByteString × MemEntry → Type 0
  InShard i slot = shard_for hash slot.0 ≡ i

  abbrev UpdatesShard : ℕ → PendingMemtableUpdate → Type 0
  UpdatesShard i u = shard_for hash u.entry.key ≡ i

  record IsShard (i : ℕ) (shard : Shard) : Type 0 where
    pub unique : IsUnique shard
    pub placed : All (InShard i) shard

  pub IsSharded : MemTable → Type 0
  IsSharded t = (i : ℕ) → IsShard i (get_or t.shards i [])

  emplace-placed :
      (i : ℕ) (key : ByteString) (v : MemEntry) (shard : Shard)
      → shard_for hash key ≡ i
      → All (InShard i) shard
      → All (InShard i) (emplace key v shard)
  unfolding emplace
  emplace-placed i key v [] at h = (at, tt)
  emplace-placed i key v ((k, w) ∷ shard) at (hk, hs) = elim (Bool-cases (bytes_eq k key)) [
    | inl e ↦ rw e (hk, hs)
    | inr e ↦ rw e (hk, emplace-placed i key v shard at hs)
  ]

  apply_updates-IsShard :
      (i : ℕ) (shard : Shard) (us : List PendingMemtableUpdate)
      → IsShard i shard
      → All (UpdatesShard i) us
      → IsShard i (apply_updates shard us)
  unfolding apply_updates
  apply_updates-IsShard i shard [] h hs = h
  apply_updates-IsShard i shard (u ∷ us) h (hu, hus) =
      apply_updates-IsShard i (emplace u.entry.key (slot_of u) shard) us
        (record {
          unique = emplace-IsUnique u.entry.key (slot_of u) shard h.unique;
          placed = emplace-placed i u.entry.key (slot_of u) shard hu h.placed;
        })
        hus

  push_update-placed :
      (scratch : PendingUpdates) (u : PendingMemtableUpdate)
      → length scratch ≡ k_shard_count
      → ((i : ℕ) → All (UpdatesShard i) (get_or scratch i []))
      → (i : ℕ) → All (UpdatesShard i) (get_or (push_update hash scratch u) i [])
  unfolding push_update
  push_update-placed scratch u sized h i = elim (Bool-cases (shard_for hash u.entry.key == i)) [
    | inl e ↦
        subst
          (λ (j : ℕ).
            All (UpdatesShard j) (get_or (set scratch (shard_for hash u.entry.key) grown) j []))
          ((==_iff _ _).0 e)
          (subst (All (UpdatesShard (shard_for hash u.entry.key)))
            (sym (
              get_or-set_self scratch (shard_for hash u.entry.key) grown []
                (omega (arith, sized, shard_for-lt hash u.entry.key))))
            (All-append (UpdatesShard (shard_for hash u.entry.key))
              (get_or scratch (shard_for hash u.entry.key) []) (u ∷ [])
              (h (shard_for hash u.entry.key)) (refl, tt)))
    | inr e ↦
        subst (All (UpdatesShard i))
          (sym (
            get_or-set_ne scratch (shard_for hash u.entry.key) i grown []
              (λ same. ground (arith, same))))
          (h i)
  ]
    where
      grown : List PendingMemtableUpdate
      grown = get_or scratch (shard_for hash u.entry.key) [] ++ (u ∷ [])

  push_all-placed :
      (scratch : PendingUpdates) (us : List PendingMemtableUpdate)
      → length scratch ≡ k_shard_count
      → ((i : ℕ) → All (UpdatesShard i) (get_or scratch i []))
      → (i : ℕ) → All (UpdatesShard i) (get_or (push_all hash scratch us) i [])
  unfolding push_all
  push_all-placed scratch [] sized h = h
  push_all-placed scratch (u ∷ us) sized h =
      push_all-placed (push_update hash scratch u) us (length-push_update hash scratch u ∙ sized)
        (push_update-placed scratch u sized h)

  pub new_memtable-IsSharded : IsSharded new_memtable
  unfolding IsSharded
  new_memtable-IsSharded i =
      subst (IsShard i) (sym (get_or-replicate k_shard_count i []))
        (record { unique = tt; placed = tt })

  -- After `ApplyBatches` every key stands at most once in its shard and only in the shard of its
  -- hash, as it did before, for every hash function. The arrays have their sizes and the pending
  -- updates were all cleared.
  pub apply_batches-IsSharded :
      (t : MemTable) (batches : List WriteBatch) (base_sequence : ℕ) (scratch : PendingUpdates)
      → IsSized t scratch
      → IsCleared scratch
      → IsSharded t
      → IsSharded (apply_batches hash t batches base_sequence scratch).0
  unfolding apply_batches IsSharded
  apply_batches-IsSharded t batches base_sequence scratch sized cleared sharded i =
      subst (IsShard i) (sym (apply_shards_at pending t.shards t.apply_shard_locks i same))
        (apply_updates-IsShard i (get_or t.shards i []) (get_or pending i []) (sharded i) placed)
    where
      pending : PendingUpdates
      pending = push_batches hash scratch base_sequence batches

      same : length pending ≡ length t.shards
      same =
          pushed hash scratch batches base_sequence ∙ sized.scratch_sized ∙ sym sized.shards_sized

      empty : (j : ℕ) → All (UpdatesShard j) (get_or scratch j [])
      empty j = subst (All (UpdatesShard j)) (sym (cleared j)) tt

      placed : All (UpdatesShard i) (get_or pending i [])
      placed =
          subst (λ (s : PendingUpdates). All (UpdatesShard i) (get_or s i []))
            (sym (push_batches-eq hash scratch base_sequence batches))
            (push_all-placed scratch (numbered base_sequence (all_entries batches))
              sized.scratch_sized empty i)
