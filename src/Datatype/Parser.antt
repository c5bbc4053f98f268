-- ===== src/Datatype/Parser.antt =====
-- odps/datatype/data_type_parser.go: the recursive-descent parser of type names.
-- `left` is the slice `tokens[index:]`. Each call of `parse`, and each round of the loop over the
-- fields of a struct, costs a unit of fuel: `ParseDataType` gives one more than the tokens.
use aliyun_odps_go_sdk.Prelude.{
  ℕ, zero, suc, ◌+◌, Bool, Option, none, some, List, [], ◌∷◌, length, ◌||◌, if◌then◌else◌,
}
use aliyun_odps_go_sdk.Prelude.Int.{ℤ, pos, ltb_ℤ}
use aliyun_odps_go_sdk.Text.{Text, codes, text_eq}
use aliyun_odps_go_sdk.Text.Decimal.{parse_int}
use aliyun_odps_go_sdk.Text.Unicode.{Unicode, is_empty}
use aliyun_odps_go_sdk.Outcome
use aliyun_odps_go_sdk.Outcome.{Outcome, ok, err, panic, out_of_fuel, index_out_of_range}
use aliyun_odps_go_sdk.Datatype.{
  TypeId, DataType, StructFields, primitive, char_type, varchar_type, decimal_type, array_type,
  map_type, struct_type, json_type, no_fields, field, type_code_from_str,
}
use aliyun_odps_go_sdk.Datatype.Tokens.{tokenize}

pub record TypeParser : Type 0 where
  pub left : List Text
  pub index : ℕ

pub data ParseError : Type 0 where
  unknown_type : Text → ParseError
  expected : Text → Text → ℕ → ParseError
  not_a_number : Text → ParseError
  char_length : ℤ → ParseError
  varchar_length : ℤ → ParseError
  unexpected_token : Text → ℕ → ParseError

-- The errors of `ParseDataType`, each with the name that was parsed.
pub data TypeError : Type 0 where
  tokens_left : Text → Text → ℕ → TypeError
  parse_failed : Text → ParseError → TypeError

abbrev pub M : Type 0 → Type 0
M A = TypeParser → Outcome TypeParser ParseError A

infixl 5 ◌>>=◌ ◌>>◌
abbrev pub ◌>>=◌ : {A B : Type 0} → M A → (A → M B) → M B
◌>>=◌ m f p = Outcome.bind (m p) f

abbrev pub ◌>>◌ : {B : Type 0} → M (Unit {0}) → M B → M B
m >> k = m >>= λ _. k

abbrev pub return : {A : Type 0} → A → M A
return a p = ok a p

abbrev pub throw : {A : Type 0} → ParseError → M A
throw e p = err e p

-- `if … { return …, errors.Errorf(…) }`
abbrev pub refuse_if : Bool → ParseError → M (Unit {0})
refuse_if b e = if b then throw e else return tt

unfoldable pub take_token : List Text → M Text
take_token [] p = panic index_out_of_range
take_token (token ∷ rest) p = ok token (record { left = rest; index = p.index + 1 })

unfoldable pub consume_token : M Text
unfolding take_token
consume_token p = take_token p.left p

unfoldable pub first_token : List Text → Text
first_token [] = []
first_token (token ∷ rest) = token

abbrev pub peek_token : TypeParser → Text
peek_token p = first_token p.left

unfoldable pub check_token : Text → Text → M (Unit {0})
unfolding text_eq
check_token wanted token p =
    if text_eq token wanted then ok tt p else err (expected wanted token p.index) p

unfoldable pub expect : Text → M (Unit {0})
unfolding check_token consume_token
expect wanted = do token ← consume_token; check_token wanted token

unfoldable pub numeral : Text → Option ℤ → M ℤ
numeral token none p = err (not_a_number token) p
numeral token (some n) p = ok n p

-- `strconv.Atoi` and `strconv.ParseInt` on a token.
unfoldable pub number : ℕ → Text → M ℤ
unfolding numeral
number bits token = numeral token (parse_int bits token)

unfoldable pub parse_char : M DataType
unfolding expect consume_token number
parse_char = do
  expect (codes "(")
  token ← consume_token
  n ← number 64 token
  refuse_if (ltb_ℤ (pos 255) n || ltb_ℤ n (pos 1)) (char_length n)
  expect (codes ")")
  return (char_type n)

unfoldable pub parse_varchar : M DataType
unfolding expect consume_token number
parse_varchar = do
  expect (codes "(")
  token ← consume_token
  n ← number 64 token
  refuse_if (ltb_ℤ (pos 65535) n || ltb_ℤ n (pos 1)) (varchar_length n)
  expect (codes ")")
  return (varchar_type n)

unfoldable pub decimal_arguments : M DataType
unfolding expect consume_token number
decimal_arguments = do
  expect (codes "(")
  token ← consume_token
  precision ← number 32 token
  expect (codes ",")
  token' ← consume_token
  scale ← number 32 token'
  expect (codes ")")
  return (decimal_type precision scale)

unfoldable pub parse_decimal : M DataType
unfolding decimal_arguments
parse_decimal p =
    if is_empty (peek_token p) then ok (decimal_type (pos 38) (pos 18)) p else decimal_arguments p

-- The switch on the token behind a field of a struct.
unfoldable pub after_field : M StructFields → M StructFields
unfolding consume_token text_eq first_token
after_field next p =
    let token = peek_token p in
    if text_eq token (codes ",")
    then (consume_token >>= λ _. next) p
    else if text_eq token (codes ">")
    then ok no_fields p
    else err (unexpected_token token p.index) p

-- The switch of `parse` on the type code, over the recursive calls.
unfoldable pub parse_type : M DataType → M StructFields → TypeId → Text → M DataType
unfolding expect parse_char parse_varchar parse_decimal
parse_type self loop TypeId.array token = do
  expect (codes "<")
  e ← self
  expect (codes ">")
  return (array_type e)
parse_type self loop TypeId.map token = do
  expect (codes "<")
  k ← self
  expect (codes ",")
  v ← self
  expect (codes ">")
  return (map_type k v)
parse_type self loop TypeId.struct token = do
  expect (codes "<")
  fs ← loop
  expect (codes ">")
  return (struct_type fs)
parse_type self loop TypeId.char token = parse_char
parse_type self loop TypeId.varchar token = parse_varchar
parse_type self loop TypeId.decimal token = parse_decimal
parse_type self loop TypeId.json token = return json_type
parse_type self loop TypeId.type_unknown token = throw (unknown_type token)
parse_type self loop code token = return (primitive code)

-- A round of the loop of `parseStruct`.
unfoldable pub parse_field : M DataType → M StructFields → M StructFields
unfolding consume_token expect after_field
parse_field self loop = do
  n ← consume_token
  expect (codes ":")
  t ← self
  fs ← after_field loop
  return (field n t fs)

module _ (u : Unicode) where
  unfoldable mutual
    pub parse : ℕ → M DataType
    parse zero = λ p. out_of_fuel
    parse (suc f) = do
      token ← consume_token
      parse_type (parse f) (parse_fields f) (type_code_from_str u token) token

    pub parse_fields : ℕ → M StructFields
    parse_fields zero = λ p. out_of_fuel
    parse_fields (suc f) = parse_field (parse f) (parse_fields f)

  -- `if parser.hasTokenLeft() { … }`, which comes before the test of the error.
  abbrev end_of :
      Text
      → TypeParser
      → Outcome (Unit {0}) TypeError DataType
      → Outcome (Unit {0}) TypeError DataType
  end_of name p result =
      if is_empty p.left then result else err (tokens_left name (peek_token p) p.index) tt

  unfoldable pub finish :
      Text → Outcome TypeParser ParseError DataType → Outcome (Unit {0}) TypeError DataType
  finish name (ok t p) = end_of name p (ok t tt)
  finish name (err e p) = end_of name p (err (parse_failed name e) tt)
  finish name (panic fault) = panic fault
  finish name out_of_fuel = out_of_fuel

  unfoldable pub parse_data_type : Text → Outcome (Unit {0}) TypeError DataType
  parse_data_type name =
      let tokens = tokenize u name in
      finish name (parse (suc (length tokens)) (record { left = tokens; index = 0 }))
