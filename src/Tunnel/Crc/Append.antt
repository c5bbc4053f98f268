-- ===== src/Tunnel/Crc/Append.antt =====
-- The checksum of bytes that come in pieces.
use Prim.Native.Nat.{bit_xor}
use aliyun_odps_go_sdk.Prelude.{
  ℕ, zero, suc, ◌-◌, ◌/◌, ◌%◌, ◌^◌, ◌<◌, ◌≡◌, refl, [], ◌∷◌, ◌++◌, arith, ◌==◌, Bool-cases, inl,
  inr, take, drop,
}
use aliyun_odps_go_sdk.Bits.{bit_xor_lt}
use aliyun_odps_go_sdk.Words.{Bytes}
use aliyun_odps_go_sdk.Tunnel.Crc.{
  castagnoli, table_rounds, table, complement, crc_bytes, crc_update,
}

-- Every element is a byte.
abbrev pub IsBytes : Bytes → Type 0
IsBytes [] = Unit
IsBytes (b ∷ bs) = (b < 256) × IsBytes bs

table_rounds_lt : (k crc : ℕ) → crc < 2 ^ 32 → table_rounds k crc < 2 ^ 32
unfolding table_rounds
table_rounds_lt zero crc h = h
table_rounds_lt (suc k) crc h = elim (Bool-cases (crc % 2 == 1)) [
  | inl odd ↦ rw odd (
      table_rounds_lt k (bit_xor (crc / 2) castagnoli)
        (bit_xor_lt 32 (crc / 2) castagnoli (omega arith) (omega arith)))
  | inr even ↦ rw even (table_rounds_lt k (crc / 2) (omega arith))
]

crc_bytes_lt :
    (crc : ℕ) (bytes : Bytes) → crc < 2 ^ 32 → IsBytes bytes → crc_bytes crc bytes < 2 ^ 32
unfolding crc_bytes table
crc_bytes_lt crc [] h k = h
crc_bytes_lt crc (b ∷ bs) h k =
    let low : bit_xor (crc % 256) b < 2 ^ 8 =
      bit_xor_lt 8 (crc % 256) b (omega arith) (omega (arith, k.0)) in
    crc_bytes_lt (bit_xor (table (bit_xor (crc % 256) b)) (crc / 256)) bs
      (bit_xor_lt 32 (table (bit_xor (crc % 256) b)) (crc / 256)
        (table_rounds_lt 8 (bit_xor (crc % 256) b) (omega arith)) (omega arith))
      k.1

crc_bytes-append :
    (crc : ℕ) (xs ys : Bytes) → crc_bytes crc (xs ++ ys) ≡ crc_bytes (crc_bytes crc xs) ys
unfolding crc_bytes
crc_bytes-append crc [] ys = refl
crc_bytes-append crc (x ∷ xs) ys =
    crc_bytes-append (bit_xor (table (bit_xor (crc % 256) x)) (crc / 256)) xs ys

-- The checksum of two pieces is that of the whole.
pub crc_update-append :
    (crc : ℕ) (xs ys : Bytes)
    → IsBytes xs
    → crc_update crc (xs ++ ys) ≡ crc_update (crc_update crc xs) ys
unfolding crc_update complement
crc_update-append crc xs ys h =
    let start = 2 ^ 32 - 1 - crc in
    let bound = crc_bytes_lt start xs (omega arith) h in
    let twice : 2 ^ 32 - 1 - (2 ^ 32 - 1 - crc_bytes start xs) ≡ crc_bytes start xs = omega arith in
    rw (crc_bytes-append start xs ys, twice)

pub crc_update-nil : (crc : ℕ) → crc < 2 ^ 32 → crc_update crc [] ≡ crc
unfolding crc_update complement crc_bytes
crc_update-nil crc h = omega arith

pub IsBytes-append : (xs ys : Bytes) → IsBytes xs → IsBytes ys → IsBytes (xs ++ ys)
IsBytes-append [] ys h k = k
IsBytes-append (x ∷ xs) ys h k = (h.0, IsBytes-append xs ys h.1 k)

pub IsBytes-take : (n : ℕ) (xs : Bytes) → IsBytes xs → IsBytes (take n xs)
IsBytes-take zero xs h = tt
IsBytes-take (suc n) [] h = tt
IsBytes-take (suc n) (x ∷ xs) h = (h.0, IsBytes-take n xs h.1)

pub IsBytes-drop : (n : ℕ) (xs : Bytes) → IsBytes xs → IsBytes (drop n xs)
IsBytes-drop zero xs h = h
IsBytes-drop (suc n) [] h = tt
IsBytes-drop (suc n) (x ∷ xs) h = IsBytes-drop n xs h.1
