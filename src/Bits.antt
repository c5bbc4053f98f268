-- ===== src/Bits.antt =====
-- Exclusive or on the native numbers, digit by digit.
use Prim.Native.Nat.{bit_xor, bit_xor-bitwise, digits, differ}
use aliyun_odps_go_sdk.Prelude.{ℕ, zero, suc, ◌+◌, ◌*◌, ◌/◌, ◌%◌, ◌^◌, ◌<◌, ◌≤◌, ◌≡◌, refl, arith}

abbrev xor_digits : ℕ → ℕ → ℕ → ℕ
xor_digits n a b = digits (λ b. b) differ n a b

xor_digits_fuel : (n m a b : ℕ) → a ≤ n → a ≤ m → xor_digits n a b ≡ xor_digits m a b
xor_digits_fuel zero zero a b p q = refl
xor_digits_fuel zero (suc m) zero b p q = refl
xor_digits_fuel zero (suc m) (suc a) b p q = absurd (omega arith)
xor_digits_fuel (suc n) zero zero b p q = refl
xor_digits_fuel (suc n) zero (suc a) b p q = absurd (omega arith)
xor_digits_fuel (suc n) (suc m) zero b p q = refl
xor_digits_fuel (suc n) (suc m) (suc a) b p q =
    omega (arith, xor_digits_fuel n m (suc a / 2) (b / 2) (omega arith) (omega arith))

zero-bit_xor : (b : ℕ) → bit_xor 0 b ≡ b
zero-bit_xor b = bit_xor-bitwise 0 b

differ_lt : (a b : ℕ) → a < 2 → b < 2 → differ a b < 2
differ_lt zero zero h k = omega arith
differ_lt zero (suc b) h k = omega arith
differ_lt (suc a) zero h k = omega arith
differ_lt (suc zero) (suc zero) h k = omega arith
differ_lt (suc zero) (suc (suc b)) h k = absurd (omega arith)
differ_lt (suc (suc a)) (suc b) h k = absurd (omega arith)

bit_xor-suc :
    (a b : ℕ) → bit_xor (suc a) b ≡ bit_xor (suc a / 2) (b / 2) * 2 + differ (suc a % 2) (b % 2)
bit_xor-suc a b = omega (
  arith,
  bit_xor-bitwise (suc a) b,
  bit_xor-bitwise (suc a / 2) (b / 2),
  xor_digits_fuel a (suc a / 2) (suc a / 2) (b / 2) (omega arith) (omega arith),
)

double : (w : ℕ) → 2 ^ suc w ≡ 2 ^ w + 2 ^ w
double w = omega arith

half_lt : (w a : ℕ) → a < 2 ^ suc w → a / 2 < 2 ^ w
half_lt w a h = omega (arith, double w)

-- The exclusive or of two numbers of `w` bits has `w` bits.
pub bit_xor_lt : (w a b : ℕ) → a < 2 ^ w → b < 2 ^ w → bit_xor a b < 2 ^ w
bit_xor_lt w zero b h k = omega (arith, zero-bit_xor b)
bit_xor_lt zero (suc a) b h k = absurd (omega arith)
bit_xor_lt (suc w) (suc a) b h k = omega (
  arith,
  bit_xor-suc a b,
  bit_xor_lt w (suc a / 2) (b / 2) (half_lt w (suc a) h) (half_lt w b k),
  double w,
  differ_lt (suc a % 2) (b % 2) (omega arith) (omega arith),
)
