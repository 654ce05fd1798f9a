-- ===== src/Wal/Fragments/Equal.antt =====
-- The two encoders of a write group agree, byte for byte.
use storage_engine.Base.{
  ℕ, ◌+◌, ◌-◌, ◌*◌, ◌%◌, ◌^◌, ◌<◌, ◌≡◌, refl, sym, ap, ap₂, ◌∙◌, arith, List, [], ◌∷◌, ◌++◌,
  append-nil, append_assoc, length, length-append, take-append, replicate, replicate-add, All,
  All-append,
}
use storage_engine.Bytes.{ByteString, write_fixed32_le}
use storage_engine.Bytes.Fixed.{
  le_bytes, length-le_bytes, le_bytes_low, le_bytes-IsByte, write_fixed32_le_lem,
}
use storage_engine.Batch.{type_byte, EntryType, k_put, k_delete, Entry, WriteBatch}
use storage_engine.Crc.{Cpu, extend_crc32c_software, extend_software-append}
use storage_engine.Crc.Linear.{IsByte}
use storage_engine.Crc.Hardware.{IsSse42, crc32c-eq-software}
use storage_engine.Wal.{encoded_batch_size}
use storage_engine.Wal.Encode.{encode_batch_into}
use storage_engine.Wal.Encode.Layout.{
  entries_bytes, all_entries, payload_bytes, record_bytes, count_entries_lem, encode_batch_into_lem,
  encoded_batch_size_lem, length-payload_bytes, length-encode_batch_into,
}
use storage_engine.Wal.Fragments.{
  in_fixed, Iovec, Progress, header_progress, add_entries, add_batches, cleared,
  EncodedBatchFragments, encode_batch_fragments_into, gather,
}
use storage_engine.Wal.Fragments.Entries.{
  headers, entries_iovecs, add_entries_lem, add_batches-eq, progress_path,
}
use storage_engine.Wal.Fragments.Gather.{
  gather-entries, open_fixed, batch_header, length-batch_header, header_progress_lem,
}

-- The keys and values of an entry are bytes.
abbrev pub IsBytes : Entry → Type 0
IsBytes e = All IsByte e.key × All IsByte e.value

type_byte-IsByte : (t : EntryType) → IsByte (type_byte t)
type_byte-IsByte k_put = omega arith
type_byte-IsByte k_delete = omega arith

entries_bytes-IsByte : (es : List Entry) → All IsBytes es → All IsByte (entries_bytes es)
entries_bytes-IsByte [] h = tt
entries_bytes-IsByte (e ∷ es) ((hk, hv), hes) = (
  type_byte-IsByte e.type,
  All-append IsByte _ (entries_bytes es)
      (All-append IsByte _ (e.key ++ e.value)
        (All-append IsByte _ _ (le_bytes-IsByte 4 (length e.key))
          (le_bytes-IsByte 4 (length e.value)))
        (All-append IsByte e.key e.value hk hv))
      (entries_bytes-IsByte es hes),
)

pub payload_bytes-IsByte :
    (b : ℕ) (es : List Entry) → All IsBytes es → All IsByte (payload_bytes b es)
payload_bytes-IsByte b es h =
    All-append IsByte _ _ (le_bytes-IsByte 8 b)
      (All-append IsByte _ _ (le_bytes-IsByte 4 (length es)) (entries_bytes-IsByte es h))

module _ (b : ℕ) (batches : List WriteBatch) (old : EncodedBatchFragments) where
  abbrev es : List Entry
  es = all_entries batches

  abbrev payload : ByteString
  payload = payload_bytes b es

  abbrev crc : ℕ
  crc = 2 ^ 32 - 1 - extend_crc32c_software 0xffffffff payload

  abbrev first_iovec : Iovec
  first_iovec = record { iov_base = in_fixed 0; iov_len = 21 }

  zeros :
      replicate {A = ℕ} (21 + length es * 9) 0
      ≡ replicate 21 0 ++ (replicate (length es * 9) 0 ++ [])
  zeros =
      replicate-add 21 (length es * 9) 0
      ∙ ap (λ (t : ByteString). replicate 21 0 ++ t)
          (sym (append-nil (replicate (length es * 9) 0)))

  abbrev front : ByteString
  front = replicate 8 0 ++ (1 ∷ batch_header b (length es))

  abbrev finished : Progress
  finished = record {
    fixed = open_fixed b (length es) (headers es ++ []);
    iovecs = first_iovec ∷ entries_iovecs 21 es;
    crc = extend_crc32c_software 0xffffffff payload;
    entry_header_offset = 21 + length es * 9;
  }

  filled :
      add_batches (header_progress b (length es) (replicate (21 + length es * 9) 0)) batches
      ≡ finished
  filled =
      add_batches-eq _ batches
      ∙ ap (λ (t : ByteString). add_entries (header_progress b (length es) t) es) zeros
      ∙ ap (λ (t : Progress). add_entries t es)
          (header_progress_lem b (length es) (replicate (length es * 9) 0 ++ [])
            ∙ progress_path
                (ap (λ (t : ByteString). replicate 8 0 ++ (1 ∷ t))
                  (sym (append_assoc (le_bytes 8 b) (le_bytes 4 (length es)) _)))
                refl refl refl)
      ∙ add_entries_lem front [] es (first_iovec ∷ []) _ 21
          (omega (arith, length-batch_header b (length es)))
      ∙ progress_path
          (ap (λ (t : ByteString). replicate 8 0 ++ (1 ∷ t))
            (append_assoc (le_bytes 8 b) (le_bytes 4 (length es)) _))
          refl
          (sym (extend_software-append 0xffffffff (batch_header b (length es)) (entries_bytes es))
            ∙ ap (extend_crc32c_software 0xffffffff)
                (append_assoc (le_bytes 8 b) (le_bytes 4 (length es)) (entries_bytes es)))
          refl

  abbrev sealed_front : ByteString
  sealed_front = le_bytes 4 crc ++ (le_bytes 4 (length payload) ++ (1 ∷ batch_header b (length es)))

  sealed :
      write_fixed32_le
        (write_fixed32_le finished.fixed 0 crc)
        4
        ((encoded_batch_size batches - 9) % 2 ^ 32)
      ≡ sealed_front ++ (headers es ++ [])
  sealed =
      ap (λ (t : ByteString). write_fixed32_le t 4 ((encoded_batch_size batches - 9) % 2 ^ 32))
        (write_fixed32_le_lem [] (replicate 4 0) (replicate 4 0 ++ body) crc refl)
      ∙ ap
          (λ (n : ℕ).
            write_fixed32_le (le_bytes 4 crc ++ (replicate 4 0 ++ body)) n
              ((encoded_batch_size batches - 9) % 2 ^ 32))
          (sym (length-le_bytes 4 crc))
      ∙ write_fixed32_le_lem (le_bytes 4 crc) (replicate 4 0) body
          ((encoded_batch_size batches - 9) % 2 ^ 32) refl
      ∙ ap (λ (t : ByteString). le_bytes 4 crc ++ (t ++ body))
          (le_bytes_low (encoded_batch_size batches - 9) ∙ ap (le_bytes 4) size)
      ∙ simp append_assoc
    where
      body : ByteString
      body = 1 ∷ (le_bytes 8 b ++ (le_bytes 4 (length es) ++ (headers es ++ [])))

      size : encoded_batch_size batches - 9 ≡ length payload
      size = omega (arith, encoded_batch_size_lem batches, length-payload_bytes b es)

  length-sealed_front : length sealed_front ≡ 21
  length-sealed_front = omega (
    arith,
    length-append (le_bytes 4 crc)
        (le_bytes 4 (length payload) ++ (1 ∷ batch_header b (length es))),
    length-append (le_bytes 4 (length payload)) (1 ∷ batch_header b (length es)),
    length-batch_header b (length es),
    length-le_bytes 4 crc,
    length-le_bytes 4 (length payload),
  )

  gathered :
      gather (sealed_front ++ (headers es ++ [])) (first_iovec ∷ entries_iovecs 21 es)
      ≡ record_bytes crc payload
  unfolding gather
  gathered =
      ap₂ ◌++◌ (take-append 21 sealed_front (headers es ++ []) length-sealed_front)
        (gather-entries sealed_front [] 21 es length-sealed_front)
      ∙ simp append_assoc

  encoded_eq :
      length es < 2 ^ 32
      → encode_batch_fragments_into b batches old ≡ record {
        fixed = sealed_front ++ (headers es ++ []);
        iovecs = first_iovec ∷ entries_iovecs 21 es;
        size = encoded_batch_size batches;
      }
  unfolding encode_batch_fragments_into cleared
  encoded_eq few =
      ap assembled (
        ap (λ (n : ℕ). add_batches (header_progress b n (replicate (21 + n * 9) 0)) batches)
          (omega (arith, count_entries_lem batches))
        ∙ filled)
      ∙ λ i. record {
        fixed = sealed i;
        iovecs = first_iovec ∷ entries_iovecs 21 es;
        size = encoded_batch_size batches;
      }
    where
      assembled : Progress → EncodedBatchFragments
      assembled p = record {
        fixed =
            write_fixed32_le (write_fixed32_le p.fixed 0 (2 ^ 32 - 1 - p.crc)) 4
              ((encoded_batch_size batches - 9) % 2 ^ 32);
        iovecs = p.iovecs;
        size = encoded_batch_size batches;
      }

  -- The scatter list gathers to the bytes of the record that `EncodeBatchInto` builds, and the size
  -- that is handed to the executor is the number of these bytes, whatever either buffer held
  -- before. The keys and values are bytes, there are fewer than 2 ^ 32 entries, and the processor's
  -- CRC instructions divide as documented.
  pub gather-fragments :
      (cpu : Cpu) (buffer : ByteString)
      → IsSse42 cpu
      → All IsBytes (all_entries batches)
      → length (all_entries batches) < 2 ^ 32
      → (gather
            (encode_batch_fragments_into b batches old).fixed
            (encode_batch_fragments_into b batches old).iovecs
          ≡ encode_batch_into cpu b batches buffer)
        × ((encode_batch_fragments_into b batches old).size
            ≡ length (encode_batch_into cpu b batches buffer))
  gather-fragments cpu buffer sse bytes few = (
    ap (λ (r : EncodedBatchFragments). gather r.fixed r.iovecs) (encoded_eq few)
        ∙ gathered
        ∙ ap (λ (c : ℕ). record_bytes c payload)
            (sym (crc32c-eq-software cpu sse payload (payload_bytes-IsByte b es bytes)))
        ∙ sym (encode_batch_into_lem cpu b batches buffer),
    ap (λ (r : EncodedBatchFragments). r.size) (encoded_eq few)
        ∙ sym (length-encode_batch_into cpu b batches buffer),
  )
