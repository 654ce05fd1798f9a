-- ===== src/Wal/Decode/Groups.antt =====
-- `DecodeLog` passes the records of a log, whatever stands behind them.
use storage_engine.Base.{
  ℕ, zero, suc, ◌+◌, ◌-◌, ◌≡◌, refl, sym, ap, ap₂, ◌∙◌, arith, List, [], ◌∷◌, map, ◌++◌, append-nil,
  append_assoc, length, length-append, All,
}
use storage_engine.Bytes.{ByteString}
use storage_engine.Crc.{Cpu}
use storage_engine.Wal.Decode.{DecodeResult, decode_record, decode_loop, decode_log}
use storage_engine.Wal.Decode.Log.{
  Group, IsGroup, decoded, group_record, group_record-pos, log_bytes, decode_record-group,
  length-le-log_bytes,
}
use storage_engine.Wal.Decode.Loop.{decode_loop-next}

-- The loop passes the records of a log, one round for each.
pub decode_loop-groups :
    (cpu : Cpu) (gs : List Group) (fuel n : ℕ) (front rest : ByteString) (result : DecodeResult)
    → All IsGroup gs
    → fuel ≡ length gs + n
    → result.valid_bytes ≡ length front
    → decode_loop cpu fuel (front ++ (log_bytes cpu gs ++ rest)) (length front) result
      ≡ decode_loop cpu n
          (front ++ (log_bytes cpu gs ++ rest))
          (length front + length (log_bytes cpu gs))
          (record {
            batches = result.batches ++ map decoded gs;
            valid_bytes = length front + length (log_bytes cpu gs);
          })
decode_loop-groups cpu [] fuel n front rest result hgs hf hv =
    ap (λ (k : ℕ). decode_loop cpu k (front ++ rest) (length front) result) enough
    ∙ ap₂ (λ (at : ℕ) (r : DecodeResult). decode_loop cpu n (front ++ rest) at r) (omega arith)
        (λ i. record { batches = sym (append-nil result.batches) i; valid_bytes = here i })
  where
    enough : fuel ≡ n
    enough = omega (arith, hf)

    here : result.valid_bytes ≡ length front + 0
    here = omega (arith, hv)
decode_loop-groups cpu (g ∷ gs) zero n front rest result hgs hf hv = absurd (omega (arith, hf))
decode_loop-groups cpu (g ∷ gs) (suc fuel) n front rest result (hg, hgs) hf hv =
    decode_loop-next cpu fuel whole (length front) result (decoded g) end
      (omega (
        arith,
        length-append front (log_bytes cpu (g ∷ gs) ++ rest),
        length-append (group_record cpu g ++ log_bytes cpu gs) rest,
        length-append (group_record cpu g) (log_bytes cpu gs),
        group_record-pos cpu g,
      ))
      (ap (λ (t : ByteString). decode_record cpu (front ++ t) (length front))
          (append_assoc (group_record cpu g) (log_bytes cpu gs) rest)
        ∙ decode_record-group cpu g hg front (log_bytes cpu gs ++ rest))
    ∙ ap₂ (λ (t : ByteString) (at : ℕ). decode_loop cpu fuel t at found) regroup (sym ends)
    ∙ decode_loop-groups cpu gs fuel n (front ++ group_record cpu g) rest found hgs
        (omega (arith, hf)) (sym ends)
    ∙ ap₂ (λ (t : ByteString) (r : DecodeResult). decode_loop cpu n t r.valid_bytes r) (sym regroup)
        (λ i. record {
          batches = append_assoc result.batches (decoded g ∷ []) (map decoded gs) i;
          valid_bytes = total i;
        })
  where
    whole : ByteString
    whole = front ++ (log_bytes cpu (g ∷ gs) ++ rest)

    end : ℕ
    end = length front + length (group_record cpu g)

    found : DecodeResult
    found = record { batches = result.batches ++ (decoded g ∷ []); valid_bytes = end }

    ends : length (front ++ group_record cpu g) ≡ end
    ends = length-append front (group_record cpu g)

    regroup : whole ≡ (front ++ group_record cpu g) ++ (log_bytes cpu gs ++ rest)
    regroup = simp append_assoc

    total :
        length (front ++ group_record cpu g) + length (log_bytes cpu gs)
        ≡ length front + length (group_record cpu g ++ log_bytes cpu gs)
    total = omega (arith, ends, length-append (group_record cpu g) (log_bytes cpu gs))

-- The batches of whole records, and the place where the records end.
abbrev pub whole_records : Cpu → List Group → DecodeResult
whole_records cpu gs = record { batches = map decoded gs; valid_bytes = length (log_bytes cpu gs) }

-- The decoder behind the records of a log, with fuel for one round at least.
pub decode_log-groups :
    (cpu : Cpu) (gs : List Group) (rest : ByteString)
    → All IsGroup gs
    → decode_log cpu (log_bytes cpu gs ++ rest)
      ≡ decode_loop cpu
          (suc (length (log_bytes cpu gs ++ rest) - length gs))
          (log_bytes cpu gs ++ rest)
          (length (log_bytes cpu gs))
          (whole_records cpu gs)
unfolding decode_log
decode_log-groups cpu gs rest hgs =
    decode_loop-groups cpu gs (suc (length (log_bytes cpu gs ++ rest)))
      (suc (length (log_bytes cpu gs ++ rest) - length gs)) [] rest
      (record { batches = []; valid_bytes = 0 }) hgs
      (omega (arith, length-le-log_bytes cpu gs, length-append (log_bytes cpu gs) rest)) refl
    ∙ ap
        (λ (at : ℕ).
          decode_loop cpu (suc (length (log_bytes cpu gs ++ rest) - length gs))
            (log_bytes cpu gs ++ rest) at (record { batches = map decoded gs; valid_bytes = at }))
        zero_plus
  where
    zero_plus : 0 + length (log_bytes cpu gs) ≡ length (log_bytes cpu gs)
    zero_plus = omega arith
