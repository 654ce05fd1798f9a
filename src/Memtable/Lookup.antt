-- ===== src/Memtable/Lookup.antt =====
-- One shard: a lookup finds the last write to its key.
use storage_engine.Base.{◌≡◌, refl, ap, ◌∙◌, Option, some, List, [], ◌∷◌, arith, if◌then◌else◌}
use storage_engine.Bytes.{ByteString}
use storage_engine.Bytes.Compare.{bytes_eq, bytes_eq_iff}
use storage_engine.Memtable.{
  PendingMemtableUpdate, MemEntry, Shard, find, emplace, slot_of, apply_updates,
}

pub find-emplace :
    (key key' : ByteString) (v : MemEntry) (shard : Shard)
    → find key' (emplace key v shard) ≡ (if bytes_eq key key' then some v else find key' shard)
unfolding find emplace
find-emplace key key' v [] = refl
find-emplace key key' v ((k, w) ∷ shard) = ground (
  arith,
  find-emplace key key' v shard,
  bytes_eq_iff k key,
  bytes_eq_iff k key',
  bytes_eq_iff key key',
)

-- The slot of the last update to `key`, and `before` where there is none.
abbrev pub last_write : ByteString → List PendingMemtableUpdate → Option MemEntry → Option MemEntry
last_write key [] before = before
last_write key (u ∷ us) before =
    last_write key us (if bytes_eq u.entry.key key then some (slot_of u) else before)

pub find-apply_updates :
    (key : ByteString) (shard : Shard) (us : List PendingMemtableUpdate)
    → find key (apply_updates shard us) ≡ last_write key us (find key shard)
unfolding apply_updates
find-apply_updates key shard [] = refl
find-apply_updates key shard (u ∷ us) =
    find-apply_updates key (emplace u.entry.key (slot_of u) shard) us
    ∙ ap (last_write key us) (find-emplace u.entry.key key (slot_of u) shard)
