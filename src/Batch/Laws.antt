-- ===== src/Batch/Laws.antt =====
-- What the operations of a batch keep: copies are exact, and deletions carry no value.
use storage_engine.Base.{
  ℕ, ◌<◌, ◌≢◌, arith, inl, inr, Bool-cases, ◌==◌, ==_iff, length, length-set, get_or, set,
  get_or-set_self, get_or-set_ne, List, [], ◌∷◌, ◌++◌, append-nil, append_assoc, ◌≡◌, refl, sym, ap,
  ◌∙◌, All, All-append,
}
use storage_engine.Bytes.{ByteString}
use storage_engine.Batch.{
  EntryType, k_put, k_delete, Entry, WriteBatch, new_batch, put, delete, append_entry,
  append_entries, copy, assign,
}

abbrev pub NoValue : EntryType → ByteString → Type 0
NoValue k_put value = Unit
NoValue k_delete value = value ≡ []

-- An entry as `Put` and `Delete` make it.
abbrev pub IsEntry : Entry → Type 0
IsEntry e = NoValue e.type e.value

abbrev pub IsBatch : WriteBatch → Type 0
IsBatch b = All IsEntry b.entries

append_entries-eq :
    (b : WriteBatch) (es : List Entry) → append_entries b es ≡ record { entries = b.entries ++ es }
unfolding append_entries append_entry
append_entries-eq b [] =
    ap (λ (t : List Entry). let r : WriteBatch = record { entries = t } in r)
      (sym (append-nil b.entries))
append_entries-eq b (e ∷ es) =
    append_entries-eq (append_entry b e) es
    ∙ ap (λ (t : List Entry). let r : WriteBatch = record { entries = t } in r)
        (append_assoc b.entries (e ∷ []) es)

-- A copy has the entries of the original in their order.
pub copy-eq : (other : WriteBatch) → copy other ≡ other
unfolding copy
copy-eq other = append_entries-eq new_batch other.entries

-- After `*this = *other` the batch at `this` has the entries that the one at `other` had, in their
-- order, and every other batch, the one at `other` too, is as before, also where both are one batch.
-- Both addresses are in the memory.
pub assign-eq :
    (memory : List WriteBatch) (this other : ℕ)
    → this < length memory
    → other < length memory
    → (get_or (assign memory this other) this new_batch ≡ get_or memory other new_batch)
      × ((at : ℕ)
          → this ≢ at
          → get_or (assign memory this other) at new_batch ≡ get_or memory at new_batch)
unfolding assign
assign-eq memory this other inside other_inside = elim (Bool-cases (this == other)) [
  | inl same ↦
      rw same
        (ap (λ (at : ℕ). get_or memory at new_batch) ((==_iff this other).0 same), λ at ne. refl)
  | inr apart ↦ rw apart (
    get_or-set_self cleared this _ new_batch
          (omega (arith, inside, length-set memory this new_batch))
        ∙ append_entries-eq (get_or cleared this new_batch) (get_or cleared other new_batch).entries
        ∙ ap
            (λ (b : WriteBatch).
              let r : WriteBatch = record {
                entries = b.entries ++ (get_or cleared other new_batch).entries;
              } in
              r)
            (get_or-set_self memory this new_batch new_batch inside)
        ∙ get_or-set_ne memory this other new_batch new_batch
            (λ e. cc (apart, (==_iff this other).1 e)),
    λ at ne.
        get_or-set_ne cleared this at _ new_batch ne
        ∙ get_or-set_ne memory this at new_batch new_batch ne,
  )
]
  where
    cleared : List WriteBatch
    cleared = set memory this new_batch

-- Every operation keeps the form of the entries.
pub put-IsBatch : (b : WriteBatch) (key value : ByteString) → IsBatch b → IsBatch (put b key value)
unfolding put
put-IsBatch b key value h = All-append IsEntry b.entries _ h (tt, tt)

pub delete-IsBatch : (b : WriteBatch) (key : ByteString) → IsBatch b → IsBatch (delete b key)
unfolding delete
delete-IsBatch b key h = All-append IsEntry b.entries _ h (refl, tt)
