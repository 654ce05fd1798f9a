-- ===== src/Batch.antt =====
-- include/storage_engine/db.h and src/write_batch.cc: `WriteBatch`.
-- Keys and values are byte strings. The arena that holds them is an allocator and is not modelled.
pub mod Laws
use storage_engine.Base.{
  ℕ, zero, suc, Bool, true, false, ◌==◌, List, [], ◌∷◌, ◌++◌, if◌then◌else◌, get_or, set,
}
use storage_engine.Bytes.{ByteString}

-- `WriteBatch::Type`
pub data EntryType : Type 0 where
  k_put k_delete : EntryType

-- `static_cast<std::byte>(entry.type)`
abbrev pub type_byte : EntryType → ℕ
type_byte k_put = 1
type_byte k_delete = 2

pub record Entry : Type 0 where
  pub type : EntryType
  pub key : ByteString
  pub value : ByteString

pub record WriteBatch : Type 0 where
  pub entries : List Entry

-- The default constructor.
abbrev pub new_batch : WriteBatch
new_batch = record { entries = [] }

unfoldable pub put : WriteBatch → ByteString → ByteString → WriteBatch
put b key value = record {
  entries = b.entries ++ (record { type = k_put; key = key; value = value } ∷ []);
}

unfoldable pub delete : WriteBatch → ByteString → WriteBatch
delete b key = record {
  entries = b.entries ++ (record { type = k_delete; key = key; value = [] } ∷ []);
}

abbrev is_empty : List Entry → Bool
is_empty [] = true
is_empty (e ∷ es) = false

-- `empty()`
unfoldable pub empty : WriteBatch → Bool
empty b = is_empty b.entries

unfoldable pub append_entry : WriteBatch → Entry → WriteBatch
append_entry b e = record {
  entries = b.entries ++ (record { type = e.type; key = e.key; value = e.value } ∷ []);
}

append_entries : WriteBatch → List Entry → WriteBatch
append_entries b [] = b
append_entries b (e ∷ es) = append_entries (append_entry b e) es

-- The copy constructor.
pub copy : WriteBatch → WriteBatch
copy other = append_entries new_batch other.entries

-- `operator=` on the batches in memory, where `this` and `other` are addresses and may be one. The
-- loop reads the entries of `other` as they are once those of `this` are cleared.
pub assign : (memory : List WriteBatch) → (this other : ℕ) → List WriteBatch
assign memory this other =
    if this == other
    then memory
    else (let cleared = set memory this new_batch in
        set cleared this
          (append_entries (get_or cleared this new_batch) (get_or cleared other new_batch).entries))
