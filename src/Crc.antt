-- ===== src/Crc.antt =====
-- The CRC-32C of src/wal.cc: the table, the software loop, the loops over the SSE 4.2
-- instructions, and the choice between them.
pub mod Linear
pub mod Hardware
pub mod Detect
use storage_engine.Base.{
  ℕ, zero, suc, ◌+◌, ◌-◌, ◌*◌, ◌/◌, ◌%◌, ◌^◌, bit_xor, Bool, List, [], ◌∷◌, ◌++◌, length, get_or,
  take, drop, leb, if◌then◌else◌, ◌<◌, arith, ◌≡◌, refl,
}
use Prim.Native.Nat.{bit_and}
use storage_engine.Bytes.{ByteString}

abbrev pub polynomial : ℕ
polynomial = 0x82f63b78

-- `auto mask = 0u - (crc & 1u); crc = (crc >> 1u) ^ (0x82f63b78u & mask);`
unfoldable pub crc_bit : ℕ → ℕ
crc_bit crc = let mask = (2 ^ 32 - crc % 2) % 2 ^ 32 in bit_xor (crc / 2) (bit_and polynomial mask)

unfoldable pub crc_bits : ℕ → ℕ → ℕ
crc_bits zero crc = crc
crc_bits (suc bits) crc = crc_bits bits (crc_bit crc)

table_loop : (left i : ℕ) → List ℕ
table_loop zero i = []
table_loop (suc left) i = crc_bits 8 i ∷ table_loop left (i + 1)

pub make_crc32c_table : List ℕ
make_crc32c_table = table_loop 256 0

pub crc32c_table : List ℕ
crc32c_table = make_crc32c_table

pub extend_crc32c_software : ℕ → ByteString → ℕ
extend_crc32c_software crc [] = crc
extend_crc32c_software crc (byte ∷ bytes) =
    extend_crc32c_software
      (let index = bit_xor crc byte % 256 in bit_xor (crc / 2 ^ 8) (get_or crc32c_table index 0))
      bytes

pub extend_software-nil : (crc : ℕ) → extend_crc32c_software crc [] ≡ crc
unfolding extend_crc32c_software
extend_software-nil crc = refl

pub extend_software-append :
    (crc : ℕ) (xs ys : ByteString)
    → extend_crc32c_software crc (xs ++ ys)
      ≡ extend_crc32c_software (extend_crc32c_software crc xs) ys
unfolding extend_crc32c_software
extend_software-append crc [] ys = refl
extend_software-append crc (x ∷ xs) ys =
    extend_software-append (bit_xor (crc / 2 ^ 8) (get_or crc32c_table (bit_xor crc x % 256) 0)) xs
      ys

-- What the processor gives: `__builtin_cpu_supports("sse4.2")` and the three instructions.
pub record Cpu : Type 0 where
  pub has_hardware_crc32c : Bool
  pub mm_crc32_u64 : ℕ → ℕ → ℕ
  pub mm_crc32_u32 : ℕ → ℕ → ℕ
  pub mm_crc32_u8 : ℕ → ℕ → ℕ

-- `memcpy` into an integer on a little-endian machine
abbrev pub le_value : ByteString → ℕ
le_value [] = 0
le_value (byte ∷ bytes) = byte + 256 * le_value bytes

module _ (cpu : Cpu) where
  -- `while (size >= sizeof(uint64_t))`; `size` rounds are more than enough.
  u64_loop : (fuel : ℕ) → ℕ → ByteString → ℕ × ByteString
  u64_loop zero crc bytes = (crc, bytes)
  u64_loop (suc fuel) crc bytes =
      let next =
        u64_loop fuel (cpu.mm_crc32_u64 crc (le_value (take 8 bytes)) % 2 ^ 32) (drop 8 bytes) in
      if leb 8 (length bytes) then next else (crc, bytes)

  u32_loop : (fuel : ℕ) → ℕ → ByteString → ℕ × ByteString
  u32_loop zero crc bytes = (crc, bytes)
  u32_loop (suc fuel) crc bytes =
      let next = u32_loop fuel (cpu.mm_crc32_u32 crc (le_value (take 4 bytes))) (drop 4 bytes) in
      if leb 4 (length bytes) then next else (crc, bytes)

  u8_loop : ℕ → ByteString → ℕ
  u8_loop crc [] = crc
  u8_loop crc (byte ∷ bytes) = u8_loop (cpu.mm_crc32_u8 crc byte) bytes

  pub extend_crc32c_hardware : ℕ → ByteString → ℕ
  extend_crc32c_hardware crc bytes =
      let (crc, bytes) = u64_loop (length bytes) crc bytes in
      let (crc, bytes) = u32_loop (length bytes) crc bytes in u8_loop crc bytes

  -- `~crc`
  pub crc32c : ByteString → ℕ
  crc32c bytes =
      if cpu.has_hardware_crc32c
      then 2 ^ 32 - 1 - extend_crc32c_hardware 0xffffffff bytes
      else 2 ^ 32 - 1 - extend_crc32c_software 0xffffffff bytes

pub crc32c-lt : (cpu : Cpu) (bytes : ByteString) → crc32c cpu bytes < 2 ^ 32
unfolding crc32c
crc32c-lt cpu bytes = ground arith

-- The check value that the CRC catalogues give for the text 123456789.
abbrev check_text : ByteString
check_text = b'1' ∷ b'2' ∷ b'3' ∷ b'4' ∷ b'5' ∷ b'6' ∷ b'7' ∷ b'8' ∷ b'9' ∷ []

check_value : 2 ^ 32 - 1 - extend_crc32c_software 0xffffffff check_text ≡ 0xe3069283
unfolding extend_crc32c_software crc32c_table make_crc32c_table table_loop crc_bits crc_bit
check_value = refl
