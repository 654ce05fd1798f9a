-- ===== src/Db/Group.antt =====
-- What `writeGroup` hands to the kernel, and the number of its entries.
use storage_engine.Base.{
  ℕ, ◌+◌, ◌%◌, ◌^◌, ◌<◌, ◌≡◌, sym, ◌∙◌, inl, inr, Bool-cases, List, [], ◌∷◌, ◌++◌, length, take,
  All, arith, append-nil, length-append, ltb, take-all,
}
use storage_engine.Bytes.{ByteString}
use storage_engine.Batch.{WriteBatch}
use storage_engine.Crc.{Cpu}
use storage_engine.Crc.Hardware.{IsSse42}
use storage_engine.Wal.{encoded_batch_size}
use storage_engine.Wal.Encode.{encode_batch_into}
use storage_engine.Wal.Encode.Layout.{
  all_entries, encode_batch_into_lem, encoded_batch_size_lem, length-encode_batch_into,
}
use storage_engine.Wal.Fragments.{encode_batch_fragments_into, gather}
use storage_engine.Wal.Fragments.Equal.{IsBytes, gather-fragments}
use storage_engine.Wal.Decode.Log.{Group, IsGroup, length-le-entries_bytes}
use storage_engine.Db.{Db, encode_group, entry_count}

-- The buffers that `writeGroup` hands to the kernel hold the record of the group, in either form,
-- and the size it expects is the length of the record.
pub encode_group_lem :
    (cpu : Cpu) (db : Db) (batches : List WriteBatch)
    → IsSse42 cpu
    → All IsBytes (all_entries batches)
    → length (all_entries batches) < 2 ^ 32
    → (gather (encode_group cpu db batches).0.fixed (encode_group cpu db batches).0.iovecs
        ≡ encode_batch_into cpu db.next_sequence batches [])
      × ((encode_group cpu db batches).0.size ≡ encoded_batch_size batches)
unfolding encode_group gather
encode_group_lem cpu db batches sse bytes few =
    elim (Bool-cases (
      ltb 1024
        (length (encode_batch_fragments_into db.next_sequence batches db.wal_record).iovecs))) [
          | inl long ↦ rw long (
            take_whole ∙ same,
            length-encode_batch_into cpu db.next_sequence batches db.fallback_record,
          )
          | inr short ↦ rw short (
            (gather-fragments db.next_sequence batches db.wal_record cpu [] sse bytes few).0,
            (gather-fragments db.next_sequence batches db.wal_record cpu [] sse bytes few).1
                ∙ length-encode_batch_into cpu db.next_sequence batches [],
          )
        ]
  where
    fallback : ByteString
    fallback = encode_batch_into cpu db.next_sequence batches db.fallback_record

    take_whole : take (length fallback) fallback ++ [] ≡ fallback
    take_whole = append-nil _ ∙ take-all (length fallback) fallback (omega arith)

    same : fallback ≡ encode_batch_into cpu db.next_sequence batches []
    same =
        encode_batch_into_lem cpu db.next_sequence batches db.fallback_record
        ∙ sym (encode_batch_into_lem cpu db.next_sequence batches [])

pub entry_count-eq :
    (count : ℕ) (batches : List WriteBatch)
    → entry_count count batches % 2 ^ 64 ≡ (count + length (all_entries batches)) % 2 ^ 64
unfolding entry_count
entry_count-eq count [] = omega arith
entry_count-eq count (batch ∷ batches) =
    entry_count-eq ((count + length batch.entries) % 2 ^ 64) batches
    ∙ omega (arith, length-append batch.entries (all_entries batches))

pub group_few : (g : Group) → IsGroup g → length (all_entries g.batches) < 2 ^ 32
group_few g v = omega (
  arith,
  v.size_fits,
  encoded_batch_size_lem g.batches,
  length-le-entries_bytes (all_entries g.batches),
)
