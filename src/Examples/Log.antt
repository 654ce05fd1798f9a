-- ===== src/Examples/Log.antt =====
-- The theorems on the bytes and the log at concrete inputs.
use storage_engine.Wal.Decode.Groups.{whole_records}
use storage_engine.Wal.Decode.Damage.{log_with_header, decode_log-behind}
use storage_engine.Base.{
  ℕ, ◌≤◌, ◌<◌, ◌≢◌, ◌-◌, ◌^◌, ◌≡◌, arith, some, [], ◌∷◌, ◌++◌, length, map, take,
}
use storage_engine.Status.{Result, ok, err, corruption}
use storage_engine.Bytes.{
  ByteString, append_fixed32_le, append_fixed64_le, read_fixed32_le, read_fixed64_le,
}
use storage_engine.Bytes.RoundTrip.{read_fixed-append_fixed}
use storage_engine.Crc.{extend_crc32c_software, crc32c}
use storage_engine.Crc.Hardware.{crc32c-eq-software}
use storage_engine.Wal.{encoded_batch_size}
use storage_engine.Wal.Encode.{encode_batch_into}
use storage_engine.Wal.Encode.Layout.{
  all_entries, record_bytes, payload_bytes, encode_batch_into_lem, length-encode_batch_into,
}
use storage_engine.Wal.Fragments.{EncodedBatchFragments, encode_batch_fragments_into, gather}
use storage_engine.Wal.Fragments.Equal.{gather-fragments}
use storage_engine.Wal.Decode.{DecodeResult, decode_log}
use storage_engine.Wal.Decode.Log.{decoded, log_bytes}
use storage_engine.Wal.Decode.Torn.{decode_log-torn}
use storage_engine.Wal.Decode.Total.{decode_log_total}
use storage_engine.Wal.Decode.Prefix.{decode_log-valid_prefix}
use storage_engine.Examples.{
  some_cpu, some_cpu-IsSse42, first_batch, first_group, second_group, first_group-IsGroup,
  second_group-IsGroup, second_payload, second_tail, second_tail-torn, first_entries-IsBytes,
}

read_fixed-append_fixed_example :
    (read_fixed32_le (append_fixed32_le (1 ∷ 2 ∷ []) 0xfffffffe ++ (3 ∷ [])) 2
      ≡ some (0xfffffffe, 6))
    × (read_fixed64_le (append_fixed64_le (1 ∷ 2 ∷ []) 0x123456789a ++ (3 ∷ [])) 2
        ≡ some (0x123456789a, 10))
read_fixed-append_fixed_example =
    read_fixed-append_fixed (1 ∷ 2 ∷ []) (3 ∷ []) 0xfffffffe 0x123456789a (omega arith)
      (omega arith)

crc32c-eq-software_example :
    crc32c some_cpu (1 ∷ 255 ∷ 3 ∷ [])
    ≡ 2 ^ 32 - 1 - extend_crc32c_software 0xffffffff (1 ∷ 255 ∷ 3 ∷ [])
crc32c-eq-software_example =
    crc32c-eq-software some_cpu some_cpu-IsSse42 (1 ∷ 255 ∷ 3 ∷ [])
      (omega arith, (omega arith, (omega arith, tt)))

encode_batch_into_lem_example :
    encode_batch_into some_cpu 1 (first_batch ∷ []) (9 ∷ 9 ∷ [])
    ≡ record_bytes
        (crc32c some_cpu (payload_bytes 1 (all_entries (first_batch ∷ []))))
        (payload_bytes 1 (all_entries (first_batch ∷ [])))
encode_batch_into_lem_example = encode_batch_into_lem some_cpu 1 (first_batch ∷ []) (9 ∷ 9 ∷ [])

length-encode_batch_into_example :
    length (encode_batch_into some_cpu 1 (first_batch ∷ []) (9 ∷ []))
    ≡ encoded_batch_size (first_batch ∷ [])
length-encode_batch_into_example = length-encode_batch_into some_cpu 1 (first_batch ∷ []) (9 ∷ [])

abbrev used_fragments : EncodedBatchFragments
used_fragments = record { fixed = 1 ∷ 2 ∷ 3 ∷ []; iovecs = []; size = 3 }

gather-fragments_example :
    (gather
        (encode_batch_fragments_into 1 (first_batch ∷ []) used_fragments).fixed
        (encode_batch_fragments_into 1 (first_batch ∷ []) used_fragments).iovecs
      ≡ encode_batch_into some_cpu 1 (first_batch ∷ []) (5 ∷ []))
    × ((encode_batch_fragments_into 1 (first_batch ∷ []) used_fragments).size
        ≡ length (encode_batch_into some_cpu 1 (first_batch ∷ []) (5 ∷ [])))
gather-fragments_example =
    gather-fragments 1 (first_batch ∷ []) used_fragments some_cpu (5 ∷ []) some_cpu-IsSse42
      first_entries-IsBytes (omega arith)

abbrev torn_result : DecodeResult
torn_result = record {
  batches = map decoded (first_group ∷ []);
  valid_bytes = length (log_bytes some_cpu (first_group ∷ []));
}

decode_log-torn_example :
    decode_log some_cpu (log_bytes some_cpu (first_group ∷ []) ++ second_tail)
    ≡ some (ok torn_result)
decode_log-torn_example =
    decode_log-torn some_cpu (first_group ∷ []) second_group second_tail second_payload 1
      (first_group-IsGroup, tt) second_group-IsGroup second_tail-torn

torn_decodes :
    decode_log some_cpu (log_bytes some_cpu (first_group ∷ []) ++ second_tail)
    ≡ some (ok torn_result)
torn_decodes =
    decode_log-torn some_cpu (first_group ∷ []) second_group second_tail second_payload 1
      (first_group-IsGroup, tt) second_group-IsGroup second_tail-torn

decode_log-valid_prefix_example :
    decode_log some_cpu
      (take torn_result.valid_bytes (log_bytes some_cpu (first_group ∷ []) ++ second_tail))
    ≡ some (ok torn_result)
decode_log-valid_prefix_example =
    decode_log-valid_prefix some_cpu (log_bytes some_cpu (first_group ∷ []) ++ second_tail)
      torn_result torn_decodes

decode_log_total_example :
    (r : Result DecodeResult) × (decode_log some_cpu (1 ∷ 2 ∷ 3 ∷ []) ≡ some r)
decode_log_total_example = decode_log_total some_cpu (1 ∷ 2 ∷ 3 ∷ [])

-- A damaged header behind one whole record: its checksum is zero.
abbrev damaged : ℕ → ℕ → ByteString
damaged size type = log_with_header some_cpu (first_group ∷ []) (1 ∷ 2 ∷ 3 ∷ []) 0 size type

abbrev big : ℕ
big = 9

abbrev odd : ℕ
odd = 7

decode_log-behind_example :
    (3 < big
      → decode_log some_cpu (damaged big odd)
        ≡ some (ok (whole_records some_cpu (first_group ∷ []))))
    × (big ≤ 3
        → odd ≢ 1
        → decode_log some_cpu (damaged big odd) ≡ some (err (corruption "unknown WAL record type")))
    × (big < 3
        → odd ≡ 1
        → crc32c some_cpu (1 ∷ 2 ∷ 3 ∷ []) ≢ 0
        → decode_log some_cpu (damaged big odd) ≡ some (err (corruption "WAL checksum mismatch")))
    × (big ≡ 3
        → odd ≡ 1
        → crc32c some_cpu (1 ∷ 2 ∷ 3 ∷ []) ≢ 0
        → decode_log some_cpu (damaged big odd)
          ≡ some (ok (whole_records some_cpu (first_group ∷ []))))
decode_log-behind_example =
    decode_log-behind some_cpu (first_group ∷ []) (1 ∷ 2 ∷ 3 ∷ []) 0 big odd
      (first_group-IsGroup, tt) (omega arith) (omega arith)

-- So a length field that was damaged hides the records behind it.
oversized_header_drops_the_rest :
    decode_log some_cpu (damaged 9 1) ≡ some (ok (whole_records some_cpu (first_group ∷ [])))
oversized_header_drops_the_rest =
    (decode_log-behind some_cpu (first_group ∷ []) (1 ∷ 2 ∷ 3 ∷ []) 0 9 1 (first_group-IsGroup, tt)
        (omega arith) (omega arith)).0
      (omega arith)
