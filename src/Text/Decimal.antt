-- ===== src/Text/Decimal.antt =====
-- The decimal notation of integers: `%d` of fmt, and `strconv.Atoi` and `strconv.ParseInt`.
use aliyun_odps_go_sdk.Prelude.{
  ℕ, zero, suc, ◌+◌, ◌-◌, ◌*◌, ◌/◌, ◌%◌, ◌^◌, ◌<◌, ◌≡◌, ◌≢◌, refl, ◌∙◌, ap, inl, inr, Bool, true,
  false, ◌&&◌, Option, none, some, [], ◌∷◌, ◌++◌, arith, ltb, leb, ◌==◌, if◌then◌else◌, Bool-cases,
  lt→ltb,
}
use aliyun_odps_go_sdk.Prelude.Int.{ℤ, pos, negsuc, sub_ℕ}
use aliyun_odps_go_sdk.Text.{Text}

digits_within : ℕ → ℕ → Text
digits_within zero n = []
digits_within (suc f) n =
    let rest = digits_within f (n / 10) in
    if ltb n 10 then (48 + n) ∷ [] else rest ++ (48 + n % 10) ∷ []

unfoldable pub print_nat : ℕ → Text
unfolding digits_within
print_nat n = digits_within (suc n) n

-- `%d`
unfoldable pub print_int : ℤ → Text
unfolding print_nat
print_int (pos n) = print_nat n
print_int (negsuc n) = b'-' ∷ print_nat (suc n)

unfoldable pub is_decimal : ℕ → Bool
is_decimal c = leb b'0' c && leb c b'9'

unfoldable pub parse_digits : ℕ → Text → Option ℕ
unfolding is_decimal
parse_digits acc [] = some acc
parse_digits acc (c ∷ cs) = if is_decimal c then parse_digits (acc * 10 + (c - 48)) cs else none

-- An unsigned numeral has at least one digit.
unfoldable pub parse_nat : Text → Option ℕ
unfolding parse_digits
parse_nat [] = none
parse_nat (c ∷ cs) = parse_digits 0 (c ∷ cs)

within_pos : ℕ → Option ℕ → Option ℤ
within_pos bits none = none
within_pos bits (some n) = if ltb n (2 ^ (bits - 1)) then some (pos n) else none

within_neg : ℕ → Option ℕ → Option ℤ
within_neg bits none = none
within_neg bits (some n) = if leb n (2 ^ (bits - 1)) then some (sub_ℕ 0 n) else none

-- `strconv.ParseInt(s, 10, bits)`; `strconv.Atoi` is the case of 64 bits. `none` is an error.
unfoldable pub parse_int : ℕ → Text → Option ℤ
unfolding parse_nat within_pos within_neg
parse_int bits [] = none
parse_int bits (c ∷ cs) =
    if c == b'-'
    then within_neg bits (parse_nat cs)
    else if c == b'+'
    then within_pos bits (parse_nat cs)
    else within_pos bits (parse_nat (c ∷ cs))

parse_digits-append :
    (xs : Text) (acc d n : ℕ)
    → d < 10
    → parse_digits acc xs ≡ some n
    → parse_digits acc (xs ++ (48 + d) ∷ []) ≡ some (n * 10 + d)
unfolding parse_digits
parse_digits-append [] acc d n h e = ground arith
parse_digits-append (c ∷ cs) acc d n h e =
    ground (arith, parse_digits-append cs (acc * 10 + (c - 48)) d n)

parse_digits-digits_within : (f n : ℕ) → n < f → parse_digits 0 (digits_within f n) ≡ some n
unfolding digits_within
parse_digits-digits_within zero n h = elim h [ ]
parse_digits-digits_within (suc f) n h = elim (Bool-cases (ltb n 10)) [
  | inl small ↦ rw small (unfold parse_digits in ground arith)
  | inr big ↦ rw big (
      parse_digits-append (digits_within f (n / 10)) 0 (n % 10) (n / 10) (omega arith)
        (parse_digits-digits_within f (n / 10) (ground arith))
      ∙ ap some (omega arith))
]

abbrev pub AllDigits : Text → Type 0
AllDigits [] = Unit
AllDigits (c ∷ cs) = (is_decimal c ≡ true) × AllDigits cs

AllDigits-append : (xs ys : Text) → AllDigits xs → AllDigits ys → AllDigits (xs ++ ys)
AllDigits-append [] ys h k = k
AllDigits-append (x ∷ xs) ys h k = (h.0, AllDigits-append xs ys h.1 k)

digit-AllDigits : (d : ℕ) → d < 10 → AllDigits ((48 + d) ∷ [])
unfolding is_decimal
digit-AllDigits d h = (ground arith, tt)

digits_within-AllDigits : (f n : ℕ) → AllDigits (digits_within f n)
unfolding digits_within
digits_within-AllDigits zero n = tt
digits_within-AllDigits (suc f) n = elim (Bool-cases (ltb n 10)) [
  | inl small ↦ rw small (digit-AllDigits n (ground arith))
  | inr big ↦ rw big (
      AllDigits-append (digits_within f (n / 10)) _ (digits_within-AllDigits f (n / 10))
        (digit-AllDigits (n % 10) (omega arith)))
]

append-ne-nil : (xs : Text) (c : ℕ) → xs ++ c ∷ [] ≢ []
append-ne-nil [] c = cc
append-ne-nil (x ∷ xs) c = cc

pub print_nat-AllDigits : (n : ℕ) → AllDigits (print_nat n)
unfolding print_nat
print_nat-AllDigits n = digits_within-AllDigits (suc n) n

pub print_nat-ne-nil : (n : ℕ) → print_nat n ≢ []
unfolding print_nat
print_nat-ne-nil n = elim (Bool-cases (ltb n 10)) [
  | inl small ↦ rw small (cc)
  | inr big ↦ rw big (append-ne-nil (digits_within n (n / 10)) (48 + n % 10))
]

digit-ne-sign : (c : ℕ) → is_decimal c ≡ true → ((c == b'-') ≡ false) × ((c == b'+') ≡ false)
unfolding is_decimal
digit-ne-sign c h = ground arith

-- Digits are read as an unsigned numeral.
parse_int-AllDigits :
    (bits n : ℕ) (s : Text)
    → AllDigits s
    → s ≢ []
    → parse_digits 0 s ≡ some n
    → n < 2 ^ (bits - 1)
    → parse_int bits s ≡ some (pos n)
unfolding parse_int
parse_int-AllDigits bits n [] h ne e small = absurd (ne refl)
parse_int-AllDigits bits n (c ∷ cs) h ne e small =
    let marks = digit-ne-sign c h.0 in rw (marks.0, marks.1, e, lt→ltb n (2 ^ (bits - 1)) small)

-- An integer that is not negative and fits in the width is read back.
pub parse_int-print_int :
    (bits n : ℕ) → n < 2 ^ (bits - 1) → parse_int bits (print_int (pos n)) ≡ some (pos n)
unfolding print_int
parse_int-print_int bits n h =
    parse_int-AllDigits bits n (print_nat n) (print_nat-AllDigits n) (print_nat-ne-nil n)
      (parse_digits-digits_within (suc n) n (omega arith)) h
