-- ===== src/Wal/Decode/Log.antt =====
-- A log that the encoder wrote, and one round of `DecodeLog` at one of its records.
use storage_engine.Base.{
  ℕ, ◌+◌, ◌^◌, ◌<◌, ◌≤◌, ◌≡◌, ap, ◌∙◌, arith, List, [], ◌∷◌, ◌++◌, length, length-append, All,
  All-append,
}
use storage_engine.Status.{Result, ok}
use storage_engine.Bytes.{ByteString}
use storage_engine.Batch.{Entry, WriteBatch}
use storage_engine.Batch.Laws.{IsEntry, IsBatch}
use storage_engine.Crc.{Cpu, crc32c}
use storage_engine.Wal.{encoded_batch_size}
use storage_engine.Wal.Encode.{encode_batch_into}
use storage_engine.Wal.Encode.Layout.{
  entry_bytes, entries_bytes, all_entries, payload_bytes, length-entry_bytes, length-payload_bytes,
  length-record_bytes, encode_batch_into_lem, encoded_batch_size_lem, length-encode_batch_into,
}
use storage_engine.Wal.Decode.{DecodedBatch, decode_payload, Round, stop, next, decode_record}
use storage_engine.Wal.Decode.Entries.{IsSmall, decode_payload_lem}
use storage_engine.Wal.Decode.Header.{decode_record_lem, decode_record_torn}

-- The arguments of one call of the encoder.
pub record Group : Type 0 where
  pub base_sequence : ℕ
  pub batches : List WriteBatch

-- A group whose numbers fit the fields of the record.
pub record IsGroup (g : Group) : Type 0 where
  pub sequence_fits : g.base_sequence < 2 ^ 64
  pub size_fits : encoded_batch_size g.batches < 2 ^ 32
  pub batches_form : All IsBatch g.batches

-- What a group decodes to: one batch with all entries.
abbrev pub decoded : Group → DecodedBatch
decoded g = record {
  base_sequence = g.base_sequence;
  batch = record { entries = all_entries g.batches };
}

abbrev pub group_record : Cpu → Group → ByteString
group_record cpu g = encode_batch_into cpu g.base_sequence g.batches []

-- The records of a list of groups, one behind the other.
abbrev pub log_bytes : Cpu → List Group → ByteString
log_bytes cpu [] = []
log_bytes cpu (g ∷ gs) = group_record cpu g ++ log_bytes cpu gs

pub length-le-entries_bytes : (es : List Entry) → length es ≤ length (entries_bytes es)
length-le-entries_bytes [] = omega arith
length-le-entries_bytes (e ∷ es) = omega (
  arith,
  length-append (entry_bytes e) (entries_bytes es),
  length-entry_bytes e,
  length-le-entries_bytes es,
)

All-IsSmall :
    (es : List Entry) → All IsEntry es → length (entries_bytes es) < 2 ^ 32 → All IsSmall es
All-IsSmall [] h fits = tt
All-IsSmall (e ∷ es) (he, hes) fits =
    ((he, omega (arith, parts), omega (arith, parts)), All-IsSmall es hes (omega (arith, parts)))
  where
    parts :
        length (entries_bytes (e ∷ es))
        ≡ 9 + length e.key + length e.value + length (entries_bytes es)
    parts = omega (arith, length-append (entry_bytes e) (entries_bytes es), length-entry_bytes e)

all_entries-IsEntry :
    (batches : List WriteBatch) → All IsBatch batches → All IsEntry (all_entries batches)
all_entries-IsEntry [] h = tt
all_entries-IsEntry (batch ∷ batches) (hb, hbs) =
    All-append IsEntry batch.entries (all_entries batches) hb (all_entries-IsEntry batches hbs)

module _ (cpu : Cpu) (g : Group) (v : IsGroup g) where
  abbrev pub group_payload : ByteString
  group_payload = payload_bytes g.base_sequence (all_entries g.batches)

  pub payload_fits : length group_payload < 2 ^ 32
  payload_fits = omega (
    arith,
    v.size_fits,
    encoded_batch_size_lem g.batches,
    length-payload_bytes g.base_sequence (all_entries g.batches),
  )

  group_decodes : decode_payload group_payload ≡ ok (decoded g)
  group_decodes =
      decode_payload_lem g.base_sequence (all_entries g.batches) v.sequence_fits
        (omega (arith, entries_fit, length-le-entries_bytes (all_entries g.batches)))
        (All-IsSmall (all_entries g.batches) (all_entries-IsEntry g.batches v.batches_form)
          entries_fit)
    where
      entries_fit : length (entries_bytes (all_entries g.batches)) < 2 ^ 32
      entries_fit = omega (arith, v.size_fits, encoded_batch_size_lem g.batches)

  pub decode_record-group :
      (front back : ByteString)
      → decode_record cpu (front ++ (group_record cpu g ++ back)) (length front)
        ≡ ok (next (decoded g) (length front + length (group_record cpu g)))
  decode_record-group front back =
      ap (λ (t : ByteString). decode_record cpu (front ++ (t ++ back)) (length front))
        (encode_batch_into_lem cpu g.base_sequence g.batches [])
      ∙ decode_record_lem cpu front back group_payload (decoded g) payload_fits group_decodes
      ∙ ap (λ (n : ℕ). let r : Result Round = ok (next (decoded g) n) in r) end_of_record
    where
      end_of_record :
          length front + 4 + 4 + 1 + length group_payload
          ≡ length front + length (group_record cpu g)
      end_of_record = omega (
        arith,
        ap length (encode_batch_into_lem cpu g.base_sequence g.batches []),
        length-record_bytes (crc32c cpu group_payload) group_payload,
      )

  pub decode_record-torn_group :
      (front tail more : ByteString) (byte : ℕ)
      → tail ++ (byte ∷ more) ≡ group_record cpu g
      → decode_record cpu (front ++ tail) (length front) ≡ ok stop
  decode_record-torn_group front tail more byte e =
      decode_record_torn cpu front tail more byte group_payload payload_fits
        (e ∙ encode_batch_into_lem cpu g.base_sequence g.batches [])

pub group_record-pos : (cpu : Cpu) (g : Group) → 0 < length (group_record cpu g)
group_record-pos cpu g = omega (
  arith,
  length-encode_batch_into cpu g.base_sequence g.batches [],
  encoded_batch_size_lem g.batches,
)

pub length-le-log_bytes : (cpu : Cpu) (gs : List Group) → length gs ≤ length (log_bytes cpu gs)
length-le-log_bytes cpu [] = omega arith
length-le-log_bytes cpu (g ∷ gs) = omega (
  arith,
  length-append (group_record cpu g) (log_bytes cpu gs),
  group_record-pos cpu g,
  length-le-log_bytes cpu gs,
)
