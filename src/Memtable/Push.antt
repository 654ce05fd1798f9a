-- ===== src/Memtable/Push.antt =====
-- The first loop of `ApplyBatches`: every update goes to the shard of its key, in order.
use storage_engine.Base.{
  ℕ, ◌+◌, ◌%◌, ◌^◌, ◌<◌, ◌≡◌, refl, sym, ap, ◌∙◌, Option, some, List, [], ◌∷◌, ◌++◌, arith,
  if◌then◌else◌, ◌==◌, ==_iff, if_false, Bool-cases, inl, inr, length, length-set, get_or, set,
  get_or-set_self, get_or-set_ne,
}
use storage_engine.Bytes.{ByteString}
use storage_engine.Bytes.Compare.{bytes_eq, bytes_eq_iff}
use storage_engine.Batch.{Entry, WriteBatch}
use storage_engine.Wal.Encode.Layout.{all_entries}
use storage_engine.Memtable.{
  PendingMemtableUpdate, PendingUpdates, MemEntry, k_shard_count, slot_of, shard_for, push_update,
  push_entries, push_batches,
}
use storage_engine.Memtable.Lookup.{last_write}

-- The updates of a list of entries, numbered from `sequence`.
abbrev pub numbered : ℕ → List Entry → List PendingMemtableUpdate
numbered sequence [] = []
numbered sequence (e ∷ es) =
    record { entry = e; sequence = sequence } ∷ numbered ((sequence + 1) % 2 ^ 64) es

-- The sequence number behind those of a list of entries.
abbrev pub sequence_after : ℕ → List Entry → ℕ
sequence_after sequence [] = sequence
sequence_after sequence (e ∷ es) = sequence_after ((sequence + 1) % 2 ^ 64) es

numbered-append :
    (sequence : ℕ) (xs ys : List Entry)
    → numbered sequence (xs ++ ys)
      ≡ numbered sequence xs ++ numbered (sequence_after sequence xs) ys
numbered-append sequence [] ys = refl
numbered-append sequence (x ∷ xs) ys =
    ap (◌∷◌ (record { entry = x; sequence = sequence }))
      (numbered-append ((sequence + 1) % 2 ^ 64) xs ys)

last_write-snoc :
    (key : ByteString) (us : List PendingMemtableUpdate) (u : PendingMemtableUpdate)
    (before : Option MemEntry)
    → last_write key (us ++ (u ∷ [])) before
      ≡ (if bytes_eq u.entry.key key then some (slot_of u) else last_write key us before)
last_write-snoc key [] u before = refl
last_write-snoc key (v ∷ us) u before =
    last_write-snoc key us u (if bytes_eq v.entry.key key then some (slot_of v) else before)

module _ (hash : ByteString → ℕ) where
  -- The first loop, as one loop over the numbered updates.
  unfoldable pub push_all : PendingUpdates → List PendingMemtableUpdate → PendingUpdates
  push_all scratch [] = scratch
  push_all scratch (u ∷ us) = push_all (push_update hash scratch u) us

  pub shard_for-lt : (key : ByteString) → shard_for hash key < k_shard_count
  unfolding shard_for
  shard_for-lt key = omega arith

  push_at :
      (key : ByteString) (scratch : PendingUpdates) (u : PendingMemtableUpdate)
      (before : Option MemEntry)
      → length scratch ≡ k_shard_count
      → last_write key (get_or (push_update hash scratch u) (shard_for hash key) []) before ≡ (
          if bytes_eq u.entry.key key
          then some (slot_of u)
          else last_write key (get_or scratch (shard_for hash key) []) before)
  unfolding push_update
  push_at key scratch u before h =
      elim (Bool-cases (shard_for hash u.entry.key == shard_for hash key)) [
        | inl same ↦
            let e : shard_for hash u.entry.key ≡ shard_for hash key = (==_iff _ _).0 same in
            ap
              (λ (n : ℕ).
                last_write key
                  (get_or (set scratch n (get_or scratch n [] ++ (u ∷ []))) (shard_for hash key) [])
                  before)
              e
            ∙ ap (λ (l : List PendingMemtableUpdate). last_write key l before)
                (get_or-set_self scratch (shard_for hash key) _ []
                  (omega (arith, h, shard_for-lt key)))
            ∙ last_write-snoc key (get_or scratch (shard_for hash key) []) u before
        | inr differ ↦
            ap (λ (l : List PendingMemtableUpdate). last_write key l before)
              (get_or-set_ne scratch (shard_for hash u.entry.key) (shard_for hash key) _ []
                (λ e. ground (arith, e)))
            ∙ sym (
                if_false (bytes_eq u.entry.key key) _ _
                  (λ e. ground (arith, ap (shard_for hash) ((bytes_eq_iff u.entry.key key).0 e))))
      ]

  pub length-push_update :
      (scratch : PendingUpdates) (u : PendingMemtableUpdate)
      → length (push_update hash scratch u) ≡ length scratch
  unfolding push_update
  length-push_update scratch u = length-set scratch _ _

  pub push_all_at :
      (key : ByteString) (scratch : PendingUpdates) (us : List PendingMemtableUpdate)
      (before : Option MemEntry)
      → length scratch ≡ k_shard_count
      → last_write key (get_or (push_all scratch us) (shard_for hash key) []) before
        ≡ last_write key us (last_write key (get_or scratch (shard_for hash key) []) before)
  unfolding push_all
  push_all_at key scratch [] before h = refl
  push_all_at key scratch (u ∷ us) before h =
      push_all_at key (push_update hash scratch u) us before (length-push_update scratch u ∙ h)
      ∙ ap (last_write key us) (push_at key scratch u before h)

  pub length-push_all :
      (scratch : PendingUpdates) (us : List PendingMemtableUpdate)
      → length (push_all scratch us) ≡ length scratch
  unfolding push_all
  length-push_all scratch [] = refl
  length-push_all scratch (u ∷ us) =
      length-push_all (push_update hash scratch u) us ∙ length-push_update scratch u

  push_entries-eq :
      (scratch : PendingUpdates) (sequence : ℕ) (es : List Entry)
      → push_entries hash scratch sequence es
        ≡ (push_all scratch (numbered sequence es), sequence_after sequence es)
  unfolding push_entries push_all
  push_entries-eq scratch sequence [] = refl
  push_entries-eq scratch sequence (e ∷ es) =
      push_entries-eq (push_update hash scratch (record { entry = e; sequence = sequence }))
        ((sequence + 1) % 2 ^ 64) es

  push_all-append :
      (scratch : PendingUpdates) (us vs : List PendingMemtableUpdate)
      → push_all scratch (us ++ vs) ≡ push_all (push_all scratch us) vs
  unfolding push_all
  push_all-append scratch [] vs = refl
  push_all-append scratch (u ∷ us) vs = push_all-append (push_update hash scratch u) us vs

  pub push_batches-eq :
      (scratch : PendingUpdates) (sequence : ℕ) (batches : List WriteBatch)
      → push_batches hash scratch sequence batches
        ≡ push_all scratch (numbered sequence (all_entries batches))
  unfolding push_batches push_all
  push_batches-eq scratch sequence [] = refl
  push_batches-eq scratch sequence (batch ∷ batches) =
      ap (λ (r : PendingUpdates × ℕ). push_batches hash r.0 r.1 batches)
        (push_entries-eq scratch sequence batch.entries)
      ∙ push_batches-eq (push_all scratch (numbered sequence batch.entries))
          (sequence_after sequence batch.entries) batches
      ∙ sym (
          ap (push_all scratch) (numbered-append sequence batch.entries (all_entries batches))
          ∙ push_all-append scratch (numbered sequence batch.entries) _)
