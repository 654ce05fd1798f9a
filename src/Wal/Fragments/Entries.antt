-- ===== src/Wal/Fragments/Entries.antt =====
-- The loops of `EncodeBatchFragmentsInto`: what each entry adds to the buffer, to the checksum and
-- to the scatter list.
use storage_engine.Base.{
  ℕ, suc, ◌+◌, ◌*◌, ◌%◌, ◌^◌, ◌≡◌, refl, sym, ap, ◌∙◌, arith, List, [], ◌∷◌, ◌++◌, append-nil,
  append_assoc, length, length-append, set, take, take-append, drop, drop-append, replicate,
  replicate-add, ◌==◌, Bool-cases, inl, inr,
}
use storage_engine.Bytes.{ByteString, write_fixed32_le}
use storage_engine.Bytes.Fixed.{
  le_bytes, length-le_bytes, le_bytes_low, write_fixed32_le_lem, set-length_append,
}
use storage_engine.Batch.{type_byte, Entry, WriteBatch}
use storage_engine.Crc.{extend_crc32c_software, extend_software-nil, extend_software-append}
use storage_engine.Wal.Encode.Layout.{entry_header, entry_bytes, entries_bytes, all_entries}
use storage_engine.Wal.Fragments.{
  Address, in_fixed, in_buffer, Iovec, append_iovec, Progress, add_entry, add_entries, add_batches,
}

abbrev pub headers : List Entry → ByteString
headers [] = []
headers (e ∷ es) = entry_header e ++ headers es

-- The parts of the scatter list for an entry whose header stands at `offset`, and for a list.
abbrev pub entry_iovecs : ℕ → Entry → List Iovec
entry_iovecs offset e =
    append_iovec
      (append_iovec (append_iovec [] (in_fixed offset) 9) (in_buffer e.key) (length e.key))
      (in_buffer e.value) (length e.value)

abbrev pub entries_iovecs : ℕ → List Entry → List Iovec
entries_iovecs offset [] = []
entries_iovecs offset (e ∷ es) = entry_iovecs offset e ++ entries_iovecs (offset + 9) es

append_iovec-eq :
    (vs : List Iovec) (base : Address) (size : ℕ)
    → append_iovec vs base size ≡ vs ++ append_iovec [] base size
unfolding append_iovec
append_iovec-eq vs base size = elim (Bool-cases (size == 0)) [
  | inl none ↦ rw none (sym (append-nil vs))
  | inr some ↦ rw some
]

one_iovec : Address → ℕ → List Iovec
one_iovec base size = append_iovec [] base size

three_iovecs :
    (vs : List Iovec) (a b c : Address) (k m n : ℕ)
    → append_iovec (append_iovec (append_iovec vs a k) b m) c n
      ≡ vs ++ (one_iovec a k ++ (one_iovec b m ++ one_iovec c n))
unfolding one_iovec
three_iovecs vs a b c k m n =
    append_iovec-eq (append_iovec (append_iovec vs a k) b m) c n
    ∙ ap (λ (t : List Iovec). t ++ append_iovec [] c n)
        (append_iovec-eq (append_iovec vs a k) b m
          ∙ ap (λ (t : List Iovec). t ++ append_iovec [] b m) (append_iovec-eq vs a k))
    ∙ append_assoc (vs ++ append_iovec [] a k) (append_iovec [] b m) (append_iovec [] c n)
    ∙ append_assoc vs (append_iovec [] a k) (append_iovec [] b m ++ append_iovec [] c n)

pub length-entry_header : (e : Entry) → length (entry_header e) ≡ 9
length-entry_header e = omega (
  arith,
  length-append (le_bytes 4 (length e.key)) (le_bytes 4 (length e.value)),
  length-le_bytes 4 (length e.key),
  length-le_bytes 4 (length e.value),
)

pub length-headers : (es : List Entry) → length (headers es) ≡ length es * 9
length-headers [] = refl
length-headers (e ∷ es) =
    omega
      (arith, length-append (entry_header e) (headers es), length-entry_header e, length-headers es)

-- The three writes of a header into nine zero bytes.
module _ (front back : ByteString) (offset : ℕ) (at : length front ≡ offset) (e : Entry) where
  header_written :
      write_fixed32_le
        (write_fixed32_le
          (set (front ++ (replicate 9 0 ++ back)) offset (type_byte e.type))
          (offset + 1)
          (length e.key % 2 ^ 32))
        (offset + 5)
        (length e.value % 2 ^ 32)
      ≡ front ++ (entry_header e ++ back)
  header_written =
      ap
        (λ (t : ByteString).
          write_fixed32_le (write_fixed32_le t (offset + 1) (length e.key % 2 ^ 32)) (offset + 5)
            (length e.value % 2 ^ 32))
        (set-length_append front (replicate 8 0 ++ back) 0 (type_byte e.type) offset at
          ∙ sym (append_assoc front (type_byte e.type ∷ []) (replicate 8 0 ++ back)))
      ∙ ap (λ (t : ByteString). write_fixed32_le t (offset + 5) (length e.value % 2 ^ 32))
          (ap
              (λ (n : ℕ).
                write_fixed32_le (to_key ++ (replicate 4 0 ++ (replicate 4 0 ++ back))) n
                  (length e.key % 2 ^ 32))
              (omega (arith, at, length-append front (type_byte e.type ∷ [])))
            ∙ write_fixed32_le_lem to_key (replicate 4 0) (replicate 4 0 ++ back)
                (length e.key % 2 ^ 32) refl
            ∙ rw (le_bytes_low (length e.key))
                (sym (append_assoc to_key (le_bytes 4 (length e.key)) (replicate 4 0 ++ back))))
      ∙ ap
          (λ (n : ℕ).
            write_fixed32_le (to_value ++ (replicate 4 0 ++ back)) n (length e.value % 2 ^ 32))
          (omega (
            arith,
            at,
            length-append front (type_byte e.type ∷ []),
            length-append to_key (le_bytes 4 (length e.key)),
            length-le_bytes 4 (length e.key),
          ))
      ∙ write_fixed32_le_lem to_value (replicate 4 0) back (length e.value % 2 ^ 32) refl
      ∙ rw (le_bytes_low (length e.value)) (simp append_assoc)
    where
      to_key : ByteString
      to_key = front ++ (type_byte e.type ∷ [])

      to_value : ByteString
      to_value = to_key ++ le_bytes 4 (length e.key)

  header_read : take 9 (drop offset (front ++ (entry_header e ++ back))) ≡ entry_header e
  header_read =
      ap (take 9) (drop-append offset front (entry_header e ++ back) at)
      ∙ take-append 9 (entry_header e) back (length-entry_header e)

  add_entry_lem :
      (iovecs : List Iovec) (crc : ℕ)
      → add_entry
          (record {
            fixed = front ++ (replicate 9 0 ++ back);
            iovecs = iovecs;
            crc = crc;
            entry_header_offset = offset;
          })
          e
        ≡ record {
          fixed = front ++ (entry_header e ++ back);
          iovecs = iovecs ++ entry_iovecs offset e;
          crc = extend_crc32c_software crc (entry_bytes e);
          entry_header_offset = offset + 9;
        }
  unfolding add_entry
  add_entry_lem iovecs crc = λ i. record {
    fixed = header_written i;
    iovecs = listed i;
    crc = summed i;
    entry_header_offset = offset + 9;
  }
    where
      listed :
          append_iovec
            (append_iovec
              (append_iovec iovecs (in_fixed offset) 9)
              (in_buffer e.key)
              (length e.key))
            (in_buffer e.value)
            (length e.value)
          ≡ iovecs ++ entry_iovecs offset e
      listed =
          three_iovecs iovecs (in_fixed offset) (in_buffer e.key) (in_buffer e.value) 9
            (length e.key) (length e.value)
          ∙ ap (λ (t : List Iovec). iovecs ++ t)
              (sym (
                three_iovecs [] (in_fixed offset) (in_buffer e.key) (in_buffer e.value) 9
                  (length e.key) (length e.value)))

      sum : ByteString → ℕ
      sum header =
          extend_crc32c_software (extend_crc32c_software (extend_crc32c_software crc header) e.key)
            e.value

      summed :
          sum (
            take 9 (
              drop offset (
                write_fixed32_le
                  (write_fixed32_le
                    (set (front ++ (replicate 9 0 ++ back)) offset (type_byte e.type))
                    (offset + 1)
                    (length e.key % 2 ^ 32))
                  (offset + 5)
                  (length e.value % 2 ^ 32))))
          ≡ extend_crc32c_software crc (entry_bytes e)
      summed =
          ap (λ (t : ByteString). sum (take 9 (drop offset t))) header_written
          ∙ ap sum header_read
          ∙ sym (
              extend_software-append crc (entry_header e) (e.key ++ e.value)
              ∙ extend_software-append (extend_crc32c_software crc (entry_header e)) e.key e.value)

pub progress_path :
    {f f' : ByteString} {v v' : List Iovec} {c c' o o' : ℕ}
    → f ≡ f'
    → v ≡ v'
    → c ≡ c'
    → o ≡ o'
    → ◌≡◌ {A = Progress}
        (record { fixed = f; iovecs = v; crc = c; entry_header_offset = o })
        (record { fixed = f'; iovecs = v'; crc = c'; entry_header_offset = o' })
progress_path p q r s =
    λ i. record { fixed = p i; iovecs = q i; crc = r i; entry_header_offset = s i }

-- The loop over the entries of all batches, into zero bytes.
pub add_entries_lem :
    (front back : ByteString) (es : List Entry) (iovecs : List Iovec) (crc offset : ℕ)
    → length front ≡ offset
    → add_entries
        (record {
          fixed = front ++ (replicate (length es * 9) 0 ++ back);
          iovecs = iovecs;
          crc = crc;
          entry_header_offset = offset;
        })
        es
      ≡ record {
        fixed = front ++ (headers es ++ back);
        iovecs = iovecs ++ entries_iovecs offset es;
        crc = extend_crc32c_software crc (entries_bytes es);
        entry_header_offset = offset + length es * 9;
      }
unfolding add_entries
add_entries_lem front back [] iovecs crc offset at =
    progress_path refl (sym (append-nil iovecs)) (sym (extend_software-nil crc)) (omega arith)
add_entries_lem front back (e ∷ es) iovecs crc offset at =
    ap (λ (t : ByteString). add_entries (start (front ++ (t ++ back)) iovecs crc offset) (e ∷ es))
      (ap (λ (n : ℕ). replicate n 0)
          (let k : suc (length es) * 9 ≡ 9 + length es * 9 = omega arith in k)
        ∙ replicate-add 9 (length es * 9) 0)
    ∙ ap (λ (p : Progress). add_entries p es)
        (add_entry_lem front (replicate (length es * 9) 0 ++ back) offset at e iovecs crc
          ∙ progress_path
              (sym (append_assoc front (entry_header e) (replicate (length es * 9) 0 ++ back))) refl
              refl refl)
    ∙ add_entries_lem (front ++ entry_header e) back es (iovecs ++ entry_iovecs offset e)
        (extend_crc32c_software crc (entry_bytes e)) (offset + 9)
        (omega (arith, at, length-append front (entry_header e), length-entry_header e))
    ∙ progress_path
        (append_assoc front (entry_header e) (headers es ++ back)
          ∙ ap (λ (t : ByteString). front ++ t)
              (sym (append_assoc (entry_header e) (headers es) back)))
        (append_assoc iovecs (entry_iovecs offset e) (entries_iovecs (offset + 9) es))
        (sym (extend_software-append crc (entry_bytes e) (entries_bytes es))) (omega arith)
  where
    start : ByteString → List Iovec → ℕ → ℕ → Progress
    start f v c o = record { fixed = f; iovecs = v; crc = c; entry_header_offset = o }

add_entries-append :
    (p : Progress) (xs ys : List Entry)
    → add_entries p (xs ++ ys) ≡ add_entries (add_entries p xs) ys
unfolding add_entries
add_entries-append p [] ys = refl
add_entries-append p (x ∷ xs) ys = add_entries-append (add_entry p x) xs ys

-- Two nested loops are one loop over all entries.
pub add_batches-eq :
    (p : Progress) (batches : List WriteBatch)
    → add_batches p batches ≡ add_entries p (all_entries batches)
unfolding add_batches add_entries
add_batches-eq p [] = refl
add_batches-eq p (batch ∷ batches) =
    add_batches-eq (add_entries p batch.entries) batches
    ∙ sym (add_entries-append p batch.entries (all_entries batches))
