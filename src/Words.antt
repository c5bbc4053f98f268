-- ===== src/Words.antt =====
-- Machine words: byte strings, the two readings of a bit pattern, little-endian bytes.
use aliyun_odps_go_sdk.Prelude.{
  ℕ, zero, suc, ◌-◌, ◌/◌, ◌%◌, ◌^◌, ◌≡◌, List, [], ◌∷◌, arith, ltb, if◌then◌else◌,
}
use aliyun_odps_go_sdk.Prelude.Int.{ℤ, pos, negsuc, ◌≤ℤ◌}

abbrev pub Bytes : Type 0
Bytes = List ℕ

-- The bit pattern of `w` bits that stands for an integer: `uint64(x)` and the like.
unfoldable pub to_word : ℕ → ℤ → ℕ
to_word w (pos n) = n % 2 ^ w
to_word w (negsuc n) = 2 ^ w - 1 - n % 2 ^ w

-- The signed integer that the low `w` bits stand for: `int32(x)` and the like.
unfoldable pub from_word : ℕ → ℕ → ℤ
from_word w n =
    let low = n % 2 ^ w in if ltb low (2 ^ (w - 1)) then pos low else negsuc (2 ^ w - 1 - low)

-- A conversion between signed types.
unfoldable pub wrap : ℕ → ℤ → ℤ
unfolding to_word from_word
wrap w z = from_word w (to_word w z)

-- The integer is a value of the signed type of `w` bits.
abbrev pub InSigned : ℕ → ℤ → Type 0
InSigned w z = (negsuc (2 ^ (w - 1) - 1) ≤ℤ z) × (z ≤ℤ pos (2 ^ (w - 1) - 1))

pub from_word-to_word-32 : (z : ℤ) → InSigned 32 z → from_word 32 (to_word 32 z) ≡ z
unfolding from_word to_word
from_word-to_word-32 (pos n) h = ground arith
from_word-to_word-32 (negsuc n) h = ground arith

pub wrap_8 : (z : ℤ) → InSigned 8 z → wrap 8 z ≡ z
unfolding wrap
wrap_8 (pos n) h = ground arith
wrap_8 (negsuc n) h = ground arith

pub wrap_16 : (z : ℤ) → InSigned 16 z → wrap 16 z ≡ z
unfolding wrap
wrap_16 (pos n) h = ground arith
wrap_16 (negsuc n) h = ground arith

pub wrap_32 : (z : ℤ) → InSigned 32 z → wrap 32 z ≡ z
unfolding wrap
wrap_32 (pos n) h = ground arith
wrap_32 (negsuc n) h = ground arith

pub wrap_64 : (z : ℤ) → InSigned 64 z → wrap 64 z ≡ z
unfolding wrap
wrap_64 (pos n) h = ground arith
wrap_64 (negsuc n) h = ground arith

-- The `k` low bytes of a number, the lowest first.
unfoldable pub little_endian : ℕ → ℕ → Bytes
little_endian zero n = []
little_endian (suc k) n = (n % 256) ∷ little_endian k (n / 256)
