-- ===== src/Tunnel/Crc.antt =====
-- odps/tunnel/crc32_checksum.go, over `hash/crc32` with the Castagnoli polynomial.
pub mod Append
use Prim.Native.Nat.{bit_xor}
use aliyun_odps_go_sdk.Prelude.{
  ℕ, zero, suc, ◌-◌, ◌/◌, ◌%◌, ◌^◌, ◌<◌, ◌≡◌, refl, arith, [], ◌∷◌, ◌==◌, if◌then◌else◌,
}
use aliyun_odps_go_sdk.Words.{Bytes}

-- The reversed polynomial.
abbrev castagnoli : ℕ
castagnoli = 0x82f63b78

table_rounds : ℕ → ℕ → ℕ
table_rounds zero crc = crc
table_rounds (suc k) crc =
    table_rounds k (if crc % 2 == 1 then bit_xor (crc / 2) castagnoli else crc / 2)

-- The entry of the table for a byte.
table : ℕ → ℕ
unfolding table_rounds
table b = table_rounds 8 b

-- `^crc` on uint32.
complement : ℕ → ℕ
complement crc = 2 ^ 32 - 1 - crc

crc_bytes : ℕ → Bytes → ℕ
unfolding table
crc_bytes crc [] = crc
crc_bytes crc (b ∷ bs) = crc_bytes (bit_xor (table (bit_xor (crc % 256) b)) (crc / 256)) bs

-- `Crc32CheckSum.Update` on the bytes that `binary.Write` makes of its argument.
unfoldable pub crc_update : ℕ → Bytes → ℕ
unfolding crc_bytes complement
crc_update crc bytes = complement (crc_bytes (complement crc) bytes)

pub crc_update_lt : (crc : ℕ) (bytes : Bytes) → crc_update crc bytes < 2 ^ 32
unfolding crc_update complement
crc_update_lt crc bytes = omega arith

-- The check value of CRC-32C, over the digits 1 to 9.
crc_check : crc_update 0 (49 ∷ 50 ∷ 51 ∷ 52 ∷ 53 ∷ 54 ∷ 55 ∷ 56 ∷ 57 ∷ []) ≡ 0xe3069283
unfolding crc_update
crc_check = refl
