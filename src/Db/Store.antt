-- ===== src/Db/Store.antt =====
-- What the database promises: a map from keys to values, without sequence numbers, shards or a log.
use storage_engine.Base.{
  ℕ, ◌+◌, ◌%◌, ◌^◌, ◌≡◌, refl, inl, inr, Bool-cases, Option, none, some, List, [], ◌∷◌, ◌++◌,
  if◌then◌else◌,
}
use storage_engine.Status.{Result, ok, err, not_found}
use storage_engine.Bytes.{ByteString}
use storage_engine.Bytes.Compare.{bytes_eq}
use storage_engine.Batch.{EntryType, k_put, k_delete, Entry}
use storage_engine.Wal.Encode.Layout.{all_entries}
use storage_engine.Wal.Decode.Log.{Group}
use storage_engine.Memtable.{MemEntry, found, is_delete, slot_of}
use storage_engine.Memtable.Lookup.{last_write}
use storage_engine.Memtable.Push.{numbered}
use storage_engine.Db.Synced.{log_slot}

abbrev pub Store : Type 0
Store = ByteString → Option ByteString

abbrev pub empty_store : Store
empty_store key = none

abbrev pub left_by : EntryType → ByteString → Option ByteString
left_by k_put value = some value
left_by k_delete value = none

abbrev pub write_entry : Store → Entry → Store
write_entry store e key = if bytes_eq e.key key then left_by e.type e.value else store key

abbrev pub write_entries : Store → List Entry → Store
write_entries store [] = store
write_entries store (e ∷ es) = write_entries (write_entry store e) es

abbrev pub read : Option ByteString → Result ByteString
read none = err (not_found "key not found")
read (some value) = ok value

-- The slot of a key shows what the store holds.
abbrev Shows : Option MemEntry → Option ByteString → Type 0
Shows slot value = found slot ≡ read value

slot_of-Shows :
    (e : Entry) (sequence : ℕ)
    → Shows (some (slot_of (record { entry = e; sequence = sequence }))) (left_by e.type e.value)
slot_of-Shows e sequence = by_type e.type
  where
    by_type :
        (t : EntryType)
        → (if is_delete t then err (not_found "key not found") else ok e.value)
          ≡ read (left_by t e.value)
    by_type k_put = refl
    by_type k_delete = refl

write_entry-Shows :
    (e : Entry) (sequence : ℕ) (key : ByteString) (slot : Option MemEntry) (store : Store)
    → Shows slot (store key)
    → Shows
        (if bytes_eq e.key key
          then some (slot_of (record { entry = e; sequence = sequence }))
          else slot)
        (write_entry store e key)
write_entry-Shows e sequence key slot store h = elim (Bool-cases (bytes_eq e.key key)) [
  | inl same ↦ rw same (slot_of-Shows e sequence)
  | inr other ↦ rw other h
]

pub write_entries-Shows :
    (es : List Entry) (sequence : ℕ) (key : ByteString) (slot : Option MemEntry) (store : Store)
    → found slot ≡ read (store key)
    → found (last_write key (numbered sequence es) slot) ≡ read (write_entries store es key)
write_entries-Shows [] sequence key slot store h = h
write_entries-Shows (e ∷ es) sequence key slot store h =
    write_entries-Shows es ((sequence + 1) % 2 ^ 64) key _ (write_entry store e)
      (write_entry-Shows e sequence key slot store h)

-- The store that a log of groups describes.
abbrev pub write_log : Store → List Group → Store
write_log store [] = store
write_log store (g ∷ gs) = write_log (write_entries store (all_entries g.batches)) gs

pub write_log-append :
    (store : Store) (gs hs : List Group)
    → write_log store (gs ++ hs) ≡ write_log (write_log store gs) hs
write_log-append store [] hs = refl
write_log-append store (g ∷ gs) hs =
    write_log-append (write_entries store (all_entries g.batches)) gs hs

pub log_slot-write_log :
    (gs : List Group) (key : ByteString) (slot : Option MemEntry) (store : Store)
    → found slot ≡ read (store key)
    → found (log_slot key gs slot) ≡ read (write_log store gs key)
log_slot-write_log [] key slot store h = h
log_slot-write_log (g ∷ gs) key slot store h =
    log_slot-write_log gs key _ (write_entries store (all_entries g.batches))
      (write_entries-Shows (all_entries g.batches) g.base_sequence key slot store h)
