-- ===== src/Wal/Decode/Entries.antt =====
-- The entry loop of `DecodeLog` reads back the payload that the encoders write.
use storage_engine.Base.{
  ℕ, ◌+◌, ◌^◌, ◌<◌, ◌≡◌, refl, sym, ap, ap₂, ◌∙◌, arith, false, some, List, [], ◌∷◌, ◌++◌,
  append-nil, append_assoc, length, length-append, get_or, get_or_at, take, take-append, drop,
  drop-append, All, ltb, ltb-false, leb, leb-false,
}
use storage_engine.Status.{Result, ok, ◌>>=◌}
use storage_engine.Bytes.{ByteString, read_fixed32_le}
use storage_engine.Bytes.Fixed.{le_bytes, length-le_bytes, read_fixed32_le_lem, read_fixed64_le_lem}
use storage_engine.Batch.{
  EntryType, k_put, k_delete, type_byte, Entry, WriteBatch, new_batch, put, delete,
}
use storage_engine.Batch.Laws.{IsEntry, NoValue}
use storage_engine.Wal.Encode.Layout.{entry_bytes, entries_bytes, payload_bytes, length-entry_bytes}
use storage_engine.Wal.Decode.{add_decoded, decode_entry, decode_entries, decode_payload}

-- An entry whose sizes fit their fields.
abbrev pub IsSmall : Entry → Type 0
IsSmall e = IsEntry e × (length e.key < 2 ^ 32) × (length e.value < 2 ^ 32)

decode_entry_fields :
    (payload : ByteString) (offset : ℕ) (batch : WriteBatch) (type key_size value_size : ℕ)
    (key value : ByteString)
    → leb (length payload) offset ≡ false
    → get_or payload offset 0 ≡ type
    → read_fixed32_le payload (offset + 1) ≡ some (key_size, offset + 1 + 4)
    → read_fixed32_le payload (offset + 1 + 4) ≡ some (value_size, offset + 1 + 4 + 4)
    → ltb (length payload) (offset + 1 + 4 + 4 + key_size + value_size) ≡ false
    → take key_size (drop (offset + 1 + 4 + 4) payload) ≡ key
    → take value_size (drop (offset + 1 + 4 + 4 + key_size) payload) ≡ value
    → decode_entry payload offset batch ≡ (
        add_decoded type batch key value >>= λ b.
        ok (b, offset + 1 + 4 + 4 + key_size + value_size))
unfolding decode_entry
decode_entry_fields payload offset batch type key_size value_size key value e1 e2 e3 e4 e5 e6 e7 =
    rw (e1, e3, e4, e5, e2, e6, e7)

add_decoded-type :
    (batch : WriteBatch) (type : EntryType) (key value : ByteString)
    → NoValue type value
    → add_decoded (type_byte type) batch key value
      ≡ ok (record {
        entries = batch.entries ++ (record { type = type; key = key; value = value } ∷ []);
      })
unfolding add_decoded put delete
add_decoded-type batch k_put key value h = refl
add_decoded-type batch k_delete key value h =
    ap
      (λ (t : ByteString).
        let r : Result WriteBatch = ok (record {
          entries = batch.entries ++ (record { type = k_delete; key = key; value = t } ∷ []);
        }) in
        r)
      (sym h)

-- An encoded entry between other bytes, and what stands in front of each of its fields.
module _ (front back : ByteString) (e : Entry) where
  abbrev whole : ByteString
  whole = front ++ (entry_bytes e ++ back)

  abbrev to_key_size : ByteString
  to_key_size = front ++ (type_byte e.type ∷ [])

  abbrev to_value_size : ByteString
  to_value_size = to_key_size ++ le_bytes 4 (length e.key)

  abbrev to_key : ByteString
  to_key = to_value_size ++ le_bytes 4 (length e.value)

  abbrev to_value : ByteString
  to_value = to_key ++ e.key

  length-to_key_size : length to_key_size ≡ length front + 1
  length-to_key_size = omega (arith, length-append front (type_byte e.type ∷ []))

  length-to_value_size : length to_value_size ≡ length front + 1 + 4
  length-to_value_size = omega (
    arith,
    length-to_key_size,
    length-append to_key_size (le_bytes 4 (length e.key)),
    length-le_bytes 4 (length e.key),
  )

  length-to_key : length to_key ≡ length front + 1 + 4 + 4
  length-to_key = omega (
    arith,
    length-to_value_size,
    length-append to_value_size (le_bytes 4 (length e.value)),
    length-le_bytes 4 (length e.value),
  )

  length-to_value : length to_value ≡ length front + 1 + 4 + 4 + length e.key
  length-to_value = omega (arith, length-to_key, length-append to_key e.key)

  length-whole :
      length whole ≡ length front + 1 + 4 + 4 + length e.key + length e.value + length back
  length-whole = omega (
    arith,
    length-append front (entry_bytes e ++ back),
    length-append (entry_bytes e) back,
    length-entry_bytes e,
  )

  read_key_size :
      length e.key < 2 ^ 32
      → read_fixed32_le whole (length front + 1) ≡ some (length e.key, length front + 1 + 4)
  read_key_size h =
      ap (λ (t : ByteString). read_fixed32_le t (length front + 1)) (simp append_assoc)
      ∙ read_fixed32_le_lem to_key_size
          (le_bytes 4 (length e.value) ++ (e.key ++ (e.value ++ back))) (length e.key)
          (length front + 1) length-to_key_size h

  read_value_size :
      length e.value < 2 ^ 32
      → read_fixed32_le whole (length front + 1 + 4)
        ≡ some (length e.value, length front + 1 + 4 + 4)
  read_value_size h =
      ap (λ (t : ByteString). read_fixed32_le t (length front + 1 + 4)) (simp append_assoc)
      ∙ read_fixed32_le_lem to_value_size (e.key ++ (e.value ++ back)) (length e.value)
          (length front + 1 + 4) length-to_value_size h

  key_at : take (length e.key) (drop (length front + 1 + 4 + 4) whole) ≡ e.key
  key_at =
      ap (λ (t : ByteString). take (length e.key) (drop (length front + 1 + 4 + 4) t))
        (simp append_assoc)
      ∙ ap (take (length e.key)) (drop-append _ to_key (e.key ++ (e.value ++ back)) length-to_key)
      ∙ take-append (length e.key) e.key (e.value ++ back) refl

  value_at : take (length e.value) (drop (length front + 1 + 4 + 4 + length e.key) whole) ≡ e.value
  value_at =
      ap
        (λ (t : ByteString).
          take (length e.value) (drop (length front + 1 + 4 + 4 + length e.key) t))
        (simp append_assoc)
      ∙ ap (take (length e.value)) (drop-append _ to_value (e.value ++ back) length-to_value)
      ∙ take-append (length e.value) e.value back refl

  -- One round of the entry loop, on an encoded entry.
  decode_entry_lem :
      (batch : WriteBatch)
      → IsSmall e
      → decode_entry whole (length front) batch
        ≡ ok (
          record { entries = batch.entries ++ (e ∷ []) },
          length front + 1 + 4 + 4 + length e.key + length e.value,
        )
  decode_entry_lem batch (form, small_key, small_value) =
      decode_entry_fields whole (length front) batch (type_byte e.type) (length e.key)
        (length e.value) e.key e.value
        (leb-false (length whole) (length front) (omega (arith, length-whole)))
        (get_or_at front _ (type_byte e.type) (length front) 0 refl) (read_key_size small_key)
        (read_value_size small_value) (ltb-false (length whole) _ (omega (arith, length-whole)))
        key_at value_at
      ∙ rw (add_decoded-type batch e.type e.key e.value form)

-- The loop over all entries appends them to the batch.
decode_entries_lem :
    (front : ByteString) (es : List Entry) (batch : WriteBatch)
    → All IsSmall es
    → decode_entries (length es) (front ++ entries_bytes es) (length front) batch
      ≡ ok (record { entries = batch.entries ++ es })
unfolding decode_entries
decode_entries_lem front [] batch h =
    ap (λ (t : List Entry). let r : Result WriteBatch = ok (record { entries = t }) in r)
      (sym (append-nil batch.entries))
decode_entries_lem front (e ∷ es) batch (he, hes) =
    rw (decode_entry_lem front (entries_bytes es) e batch he) (
      ap₂
        (λ (t : ByteString) (n : ℕ).
          decode_entries (length es) t n (record { entries = batch.entries ++ (e ∷ []) }))
        (sym (append_assoc front (entry_bytes e) (entries_bytes es)))
        (omega (arith, length-append front (entry_bytes e), length-entry_bytes e))
      ∙ decode_entries_lem (front ++ entry_bytes e) es
          (record { entries = batch.entries ++ (e ∷ []) }) hes
      ∙ ap (λ (t : List Entry). let r : Result WriteBatch = ok (record { entries = t }) in r)
          (append_assoc batch.entries (e ∷ []) es))

entries_in_payload :
    (base_sequence : ℕ) (es : List Entry)
    → All IsSmall es
    → decode_entries (length es) (payload_bytes base_sequence es) 12 new_batch
      ≡ ok (record { entries = es })
entries_in_payload base_sequence es hes =
    ap₂ (λ (t : ByteString) (n : ℕ). decode_entries (length es) t n new_batch)
      (sym (append_assoc (le_bytes 8 base_sequence) (le_bytes 4 (length es)) (entries_bytes es)))
      header_size
    ∙ decode_entries_lem (le_bytes 8 base_sequence ++ le_bytes 4 (length es)) es new_batch hes
  where
    header_size : 12 ≡ length (le_bytes 8 base_sequence ++ le_bytes 4 (length es))
    header_size = omega (
      arith,
      length-append (le_bytes 8 base_sequence) (le_bytes 4 (length es)),
      length-le_bytes 8 base_sequence,
      length-le_bytes 4 (length es),
    )

-- The payload of a record decodes to the base sequence and the entries that it was made of.
pub decode_payload_lem :
    (base_sequence : ℕ) (es : List Entry)
    → base_sequence < 2 ^ 64
    → length es < 2 ^ 32
    → All IsSmall es
    → decode_payload (payload_bytes base_sequence es)
      ≡ ok (record { base_sequence = base_sequence; batch = record { entries = es } })
unfolding decode_payload
decode_payload_lem base_sequence es hb hn hes = rw (
  read_fixed64_le_lem [] (le_bytes 4 (length es) ++ entries_bytes es) base_sequence 0 refl hb,
  read_fixed32_le_lem (le_bytes 8 base_sequence) (entries_bytes es) (length es) 8
      (length-le_bytes 8 base_sequence) hn,
  entries_in_payload base_sequence es hes,
)
