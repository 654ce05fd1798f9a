-- ===== src/Wal/Fragments/Gather.antt =====
-- The scatter list gathers to the record that `EncodeBatchInto` builds in one buffer.
use storage_engine.Base.{
  ℕ, ◌+◌, ◌≡◌, refl, sym, ap, ap₂, ◌∙◌, arith, List, [], ◌∷◌, ◌++◌, append-nil, append_assoc,
  length, length-append, set, take, take-append, take-all, drop, drop-append, replicate, ◌==◌,
  Bool-cases, inl, inr, ==_iff,
}
use storage_engine.Bytes.{ByteString, write_fixed32_le, write_fixed64_le}
use storage_engine.Bytes.Fixed.{
  le_bytes, length-le_bytes, write_fixed32_le_lem, write_fixed64_le_lem,
}
use storage_engine.Batch.{Entry}
use storage_engine.Crc.{extend_crc32c_software}
use storage_engine.Wal.Encode.Layout.{entry_header, entry_bytes, entries_bytes}
use storage_engine.Wal.Fragments.{
  Address, in_fixed, in_buffer, Iovec, append_iovec, header_progress, bytes_at, gather,
}
use storage_engine.Wal.Fragments.Entries.{
  headers, entry_iovecs, entries_iovecs, length-entry_header, progress_path,
}

pub gather-append :
    (fixed : ByteString) (vs ws : List Iovec)
    → gather fixed (vs ++ ws) ≡ gather fixed vs ++ gather fixed ws
unfolding gather
gather-append fixed [] ws = refl
gather-append fixed (v ∷ vs) ws =
    ap (λ (t : ByteString). take v.iov_len (bytes_at fixed v.iov_base) ++ t)
      (gather-append fixed vs ws)
    ∙ sym (
        append_assoc (take v.iov_len (bytes_at fixed v.iov_base)) (gather fixed vs)
          (gather fixed ws))

-- An empty part is left out, and that changes nothing.
gather-append_iovec :
    (fixed : ByteString) (vs : List Iovec) (base : Address) (size : ℕ)
    → gather fixed (append_iovec vs base size) ≡ gather fixed vs ++ take size (bytes_at fixed base)
unfolding append_iovec gather
gather-append_iovec fixed vs base size = elim (Bool-cases (size == 0)) [
  | inl none ↦
      let e : size ≡ 0 = (==_iff size 0).0 none in rw e (sym (append-nil (gather fixed vs)))
  | inr some ↦ rw some (
      gather-append fixed vs _
      ∙ ap (λ (t : ByteString). gather fixed vs ++ t)
          (append-nil (take size (bytes_at fixed base))))
]

-- The parts of one entry, read in the finished buffer.
gather-entry :
    (front back : ByteString) (offset : ℕ) (e : Entry)
    → length front ≡ offset
    → gather (front ++ (entry_header e ++ back)) (entry_iovecs offset e) ≡ entry_bytes e
gather-entry front back offset e at =
    gather-append_iovec fixed _ (in_buffer e.value) (length e.value)
    ∙ ap₂ ◌++◌
        (gather-append_iovec fixed _ (in_buffer e.key) (length e.key)
          ∙ ap₂ ◌++◌ (gather-append_iovec fixed [] (in_fixed offset) 9 ∙ header)
              (take-all (length e.key) e.key (omega arith)))
        (take-all (length e.value) e.value (omega arith))
    ∙ append_assoc (entry_header e) e.key e.value
  where
    fixed : ByteString
    fixed = front ++ (entry_header e ++ back)

    header : gather fixed [] ++ take 9 (drop offset fixed) ≡ entry_header e
    header =
        unfold gather in
        ap (take 9) (drop-append offset front (entry_header e ++ back) at)
        ∙ take-append 9 (entry_header e) back (length-entry_header e)

pub gather-entries :
    (front back : ByteString) (offset : ℕ) (es : List Entry)
    → length front ≡ offset
    → gather (front ++ (headers es ++ back)) (entries_iovecs offset es) ≡ entries_bytes es
gather-entries front back offset [] at = unfold gather in refl
gather-entries front back offset (e ∷ es) at =
    gather-append _ (entry_iovecs offset e) (entries_iovecs (offset + 9) es)
    ∙ ap₂ ◌++◌
        (ap (λ (t : ByteString). gather (front ++ t) (entry_iovecs offset e))
            (append_assoc (entry_header e) (headers es) back)
          ∙ gather-entry front (headers es ++ back) offset e at)
        (ap (λ (t : ByteString). gather t (entries_iovecs (offset + 9) es))
            (ap (λ (t : ByteString). front ++ t) (append_assoc (entry_header e) (headers es) back)
              ∙ sym (append_assoc front (entry_header e) (headers es ++ back)))
          ∙ gather-entries (front ++ entry_header e) back (offset + 9) es
              (omega (arith, at, length-append front (entry_header e), length-entry_header e)))

-- The fixed part of the buffer before the entries: the record header is still open.
abbrev pub open_fixed : ℕ → ℕ → ByteString → ByteString
open_fixed base_sequence entry_count rest =
    replicate 8 0 ++ (1 ∷ (le_bytes 8 base_sequence ++ (le_bytes 4 entry_count ++ rest)))

abbrev pub batch_header : ℕ → ℕ → ByteString
batch_header base_sequence entry_count = le_bytes 8 base_sequence ++ le_bytes 4 entry_count

pub length-batch_header : (b n : ℕ) → length (batch_header b n) ≡ 12
length-batch_header b n =
    omega
      (arith, length-append (le_bytes 8 b) (le_bytes 4 n), length-le_bytes 8 b, length-le_bytes 4 n)

header_filled :
    (b n : ℕ) (rest : ByteString)
    → write_fixed32_le (write_fixed64_le (set (replicate 21 0 ++ rest) 8 1) 9 b) 17 n
      ≡ open_fixed b n rest
header_filled b n rest =
    ap (λ (t : ByteString). write_fixed32_le t 17 n)
      (write_fixed64_le_lem (replicate 8 0 ++ (1 ∷ [])) (replicate 8 0) (replicate 4 0 ++ rest) b
        refl)
    ∙ ap₂ (λ (t : ByteString) (k : ℕ). write_fixed32_le t k n)
        (sym (append_assoc (replicate 8 0 ++ (1 ∷ [])) (le_bytes 8 b) (replicate 4 0 ++ rest)))
        (omega (arith, length-le_bytes 8 b))
    ∙ write_fixed32_le_lem ((replicate 8 0 ++ (1 ∷ [])) ++ le_bytes 8 b) (replicate 4 0) rest n refl
    ∙ append_assoc (replicate 8 0 ++ (1 ∷ [])) (le_bytes 8 b) (le_bytes 4 n ++ rest)

pub header_progress_lem :
    (b n : ℕ) (rest : ByteString)
    → header_progress b n (replicate 21 0 ++ rest) ≡ record {
      fixed = open_fixed b n rest;
      iovecs = record { iov_base = in_fixed 0; iov_len = 21 } ∷ [];
      crc = extend_crc32c_software 0xffffffff (batch_header b n);
      entry_header_offset = 21;
    }
unfolding header_progress append_iovec
header_progress_lem b n rest =
    progress_path (header_filled b n rest) refl
      (ap (λ (t : ByteString). extend_crc32c_software 0xffffffff (take 12 (drop 9 t)))
          (header_filled b n rest)
        ∙ ap (extend_crc32c_software 0xffffffff) (
            ap (take 12) (sym (append_assoc (le_bytes 8 b) (le_bytes 4 n) rest))
            ∙ take-append 12 (batch_header b n) rest (length-batch_header b n)))
      refl
