-- ===== src/Db/File.antt =====
-- The file of the log as the kernel writes it.
use storage_engine.Base.{
  ℕ, ◌+◌, ◌≤◌, ◌≡◌, sym, ap, ◌∙◌, ◌++◌, length, take, drop, arith, append_assoc, length-append,
  take-append, length-take,
}
use storage_engine.Bytes.{ByteString}
use storage_engine.Io.{Completion, done, linked_finished}
use storage_engine.Db.{Kernel}

-- What a `pwritev` that succeeds leaves.
abbrev pub write_at : ByteString → ℕ → ByteString → ByteString
write_at file offset bytes = take offset file ++ (bytes ++ drop (offset + length bytes) file)

pub take-write_at :
    (file : ByteString) (offset : ℕ) (bytes : ByteString)
    → offset ≤ length file
    → take (offset + length bytes) (write_at file offset bytes) ≡ take offset file ++ bytes
take-write_at file offset bytes h =
    ap (take (offset + length bytes))
      (sym (append_assoc (take offset file) bytes (drop (offset + length bytes) file)))
    ∙ take-append (offset + length bytes) (take offset file ++ bytes) _
        (omega (arith, length-append (take offset file) bytes, length-take offset file))

pub length-write_at :
    (file : ByteString) (offset : ℕ) (bytes : ByteString)
    → offset ≤ length file
    → offset + length bytes ≤ length (write_at file offset bytes)
length-write_at file offset bytes h = omega (
  arith,
  length-append (take offset file) (bytes ++ drop (offset + length bytes) file),
  length-append bytes (drop (offset + length bytes) file),
  length-take offset file,
)

-- The documented behaviour of a positioned write within the file or at its end: one that is complete puts the bytes at the offset,
-- and no write, complete or not, changes what stands before the offset or shortens the file.
pub record IsPositioned (kernel : Kernel) : Type 0 where
  pub complete :
      (file : ByteString) (offset : ℕ) (bytes : ByteString) (sync : Completion)
      → offset ≤ length file
      → (kernel.writev_fdatasync file offset bytes).0 ≡ linked_finished (done (length bytes)) sync
      → (kernel.writev_fdatasync file offset bytes).1 ≡ write_at file offset bytes
  pub keeps :
      (file : ByteString) (offset : ℕ) (bytes : ByteString)
      → offset ≤ length file
      → take offset (kernel.writev_fdatasync file offset bytes).1 ≡ take offset file
  pub grows :
      (file : ByteString) (offset : ℕ) (bytes : ByteString)
      → offset ≤ length file
      → length file ≤ length (kernel.writev_fdatasync file offset bytes).1
