-- ===== src/Examples/Burst.antt =====
-- Damage of a few bytes at a concrete input.
use storage_engine.Base.{ℕ, ◌<◌, ◌≡◌, refl, arith, some, All, [], ◌∷◌, ◌++◌, drop}
use storage_engine.Status.{ok, err, corruption}
use storage_engine.Bytes.{ByteString}
use storage_engine.Crc.Linear.{IsByte}
use storage_engine.Bytes.Fixed.{le_bytes}
use storage_engine.Wal.Encode.Layout.{all_entries}
use storage_engine.Wal.Fragments.Equal.{payload_bytes-IsByte}
use storage_engine.Wal.Decode.{decode_log}
use storage_engine.Wal.Decode.Burst.{payload_of, damaged_log, decode_log-burst}
use storage_engine.Wal.Decode.Groups.{whole_records}
use storage_engine.Examples.{
  some_cpu, some_cpu-IsSse42, first_group, second_group, first_group-IsGroup, second_group-IsGroup,
}

-- The first two bytes of the sequence number in the payload of the second group are changed.
abbrev kept_bytes : ByteString
kept_bytes = drop 2 (payload_of second_group)

kept_bytes-IsByte : All IsByte kept_bytes
unfolding le_bytes
kept_bytes-IsByte =
    (payload_bytes-IsByte 4 (all_entries second_group.batches)
      (((omega arith, tt), (omega arith, tt)), tt)).1.1

parts : [] ++ ((4 ∷ 0 ∷ []) ++ kept_bytes) ≡ payload_of second_group
unfolding le_bytes
parts = refl

abbrev changed_log : (more : ByteString) → ByteString
changed_log more =
    damaged_log some_cpu (first_group ∷ []) second_group [] (4 ∷ 0 ∷ []) (5 ∷ 9 ∷ []) kept_bytes
      more

decode_log-burst_example :
    (0 < 3
      → decode_log some_cpu (changed_log (1 ∷ 2 ∷ 3 ∷ []))
        ≡ some (err (corruption "WAL checksum mismatch")))
    × (◌≡◌ {A = ℕ} 3 0
        → decode_log some_cpu (changed_log (1 ∷ 2 ∷ 3 ∷ []))
          ≡ some (ok (whole_records some_cpu (first_group ∷ []))))
decode_log-burst_example =
    decode_log-burst some_cpu (first_group ∷ []) second_group [] (4 ∷ 0 ∷ []) (5 ∷ 9 ∷ [])
      kept_bytes (1 ∷ 2 ∷ 3 ∷ []) some_cpu-IsSse42 (first_group-IsGroup, tt) second_group-IsGroup
      parts tt kept_bytes-IsByte (omega arith, (omega arith, tt)) (omega arith, (omega arith, tt))
      refl (omega arith) (λ e. cc e)
