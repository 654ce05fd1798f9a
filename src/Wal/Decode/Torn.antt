-- ===== src/Wal/Decode/Torn.antt =====
-- `DecodeLog` on a log that the encoder wrote, up to a record that was torn.
use storage_engine.Base.{ℕ, ◌≡◌, ◌∙◌, some, List, ◌∷◌, map, ◌++◌, length, All}
use storage_engine.Status.{ok}
use storage_engine.Bytes.{ByteString}
use storage_engine.Crc.{Cpu}
use storage_engine.Wal.Decode.{decode_log}
use storage_engine.Wal.Decode.Log.{
  Group, IsGroup, decoded, group_record, log_bytes, decode_record-torn_group,
}
use storage_engine.Wal.Decode.Groups.{whole_records, decode_log-groups}
use storage_engine.Wal.Decode.Loop.{decode_loop-stop}

-- A log of whole records, followed by a proper prefix of one more record (an empty one included),
-- decodes to exactly the groups of the whole records in order, and the valid bytes end where the
-- torn record begins. The numbers of all groups fit their fields.
pub decode_log-torn :
    (cpu : Cpu) (gs : List Group) (last : Group) (tail more : ByteString) (byte : ℕ)
    → All IsGroup gs
    → IsGroup last
    → tail ++ (byte ∷ more) ≡ group_record cpu last
    → decode_log cpu (log_bytes cpu gs ++ tail)
      ≡ some (ok (record { batches = map decoded gs; valid_bytes = length (log_bytes cpu gs) }))
decode_log-torn cpu gs last tail more byte hgs hl e =
    decode_log-groups cpu gs tail hgs
    ∙ decode_loop-stop cpu _ (log_bytes cpu gs ++ tail) (length (log_bytes cpu gs))
        (whole_records cpu gs)
        (decode_record-torn_group cpu last hl (log_bytes cpu gs) tail more byte e)
