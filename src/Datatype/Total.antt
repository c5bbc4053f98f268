-- ===== src/Datatype/Total.antt =====
-- The fuel of the type parser, and the types that it returns.
use aliyun_odps_go_sdk.Prelude.{
  ℕ, zero, suc, ◌+◌, ◌≤◌, ◌<◌, ◌≡◌, ◌≢◌, refl, Bool, true, false, Option, none, some, List, [], ◌∷◌,
  ◌||◌, arith, length, map,
}
use aliyun_odps_go_sdk.Prelude.Int.{ℤ, pos, ◌≤ℤ◌, ltb_ℤ}
use aliyun_odps_go_sdk.Text.{Text, codes, text_eq}
use aliyun_odps_go_sdk.Text.Decimal.{parse_int}
use aliyun_odps_go_sdk.Text.Unicode.{Unicode, is_empty, to_upper}
use aliyun_odps_go_sdk.Outcome.{
  Outcome, Ensures, holds, refused, stopped, Ensures-bind, Ensures-if, Ensures-map,
}
use aliyun_odps_go_sdk.Datatype.{
  TypeId, DataType, StructFields, type_code_from_str, type_codes, switch,
}
use aliyun_odps_go_sdk.Datatype.Tokens.{tokenize}
use aliyun_odps_go_sdk.Datatype.Parser.{
  TypeParser, ParseError, M, take_token, check_token, decimal_arguments, consume_token, peek_token,
  expect, numeral, number, refuse_if, parse_char, parse_varchar, parse_decimal, after_field,
  parse_type, parse_field, parse, parse_fields, finish, parse_data_type,
}
use aliyun_odps_go_sdk.Datatype.WellFormed.{
  WellFormedFields, wf_primitive, wf_char, wf_varchar, wf_decimal, wf_array, wf_map, wf_struct,
  wf_json, wf_end, wf_field, IsInhabited, IsInt32, IsAccepted,
}

-- From `p` the call yields a value of `Q`, an error or a panic, and takes at least `n` tokens.
abbrev Takes {ℓ} : {A : Type 0} → ℕ → (A → Type ℓ) → M A → TypeParser → Type ℓ
Takes n Q m p = Ensures (λ a q. Q a × (length q.left + n ≤ length p.left)) (m p)

abbrev Any {ℓ} : {A : Type ℓ} → A → Type 0
Any a = Unit

consume_token-Takes : (p : TypeParser) → Takes 1 Any consume_token p
unfolding consume_token take_token
consume_token-Takes p = go p.left refl
  where
    go : (l : List Text) → p.left ≡ l → Takes 1 Any (take_token l) p
    go [] e = stopped
    go (t ∷ r) e = holds (tt, rw e (omega arith))

expect-Takes : (w : Text) (p : TypeParser) → Takes 1 Any (expect w) p
unfolding expect check_token
expect-Takes w p =
    Ensures-bind (consume_token-Takes p)
      λ t q h. Ensures-if (text_eq t w) (λ _. holds (tt, h.1)) (λ _. refused)

refuse_if-Takes :
    (b : Bool) (e : ParseError) (p : TypeParser) → Takes 0 (λ _. b ≡ false) (refuse_if b e) p
refuse_if-Takes true e p = refused
refuse_if-Takes false e p = holds (refl, omega arith)

-- A numeral of 32 bits lies in their range.
parse_int-IsInt32 : (s : Text) {z : ℤ} → parse_int 32 s ≡ some z → IsInt32 z
unfolding parse_int
parse_int-IsInt32 [] e = cc
parse_int-IsInt32 (c ∷ cs) e = ground arith

number-Takes :
    (bits : ℕ) (s : Text) (p : TypeParser)
    → Takes 0 (λ z. parse_int bits s ≡ some z) (number bits s) p
unfolding number
number-Takes bits s p = go (parse_int bits s) refl
  where
    go :
        (o : Option ℤ)
        → parse_int bits s ≡ o
        → Takes 0 (λ z. parse_int bits s ≡ some z) (numeral s o) p
    go none e = refused
    go (some z) e = holds (e, omega arith)

length_in_range :
    (m : ℕ) (z : ℤ) → (ltb_ℤ (pos m) z || ltb_ℤ z (pos 1)) ≡ false → (pos 1 ≤ℤ z) × (z ≤ℤ pos m)
length_in_range m z h = ground arith

parse_char-Takes : (p : TypeParser) → Takes 0 IsAccepted parse_char p
unfolding parse_char
parse_char-Takes p = Ensures-bind (expect-Takes _ p) λ _ p₁ h₁.
    Ensures-bind (consume_token-Takes p₁) λ t p₂ h₂. Ensures-bind (number-Takes 64 t p₂) λ n p₃ h₃.
      Ensures-bind (refuse_if-Takes _ _ p₃) λ _ p₄ h₄. Ensures-bind (expect-Takes _ p₄) λ _ p₅ h₅.
        let range = length_in_range 255 n h₄.0 in holds (wf_char range.0 range.1, omega arith)

parse_varchar-Takes : (p : TypeParser) → Takes 0 IsAccepted parse_varchar p
unfolding parse_varchar
parse_varchar-Takes p = Ensures-bind (expect-Takes _ p) λ _ p₁ h₁.
    Ensures-bind (consume_token-Takes p₁) λ t p₂ h₂. Ensures-bind (number-Takes 64 t p₂) λ n p₃ h₃.
      Ensures-bind (refuse_if-Takes _ _ p₃) λ _ p₄ h₄. Ensures-bind (expect-Takes _ p₄) λ _ p₅ h₅.
        let range = length_in_range 65535 n h₄.0 in holds (wf_varchar range.0 range.1, omega arith)

parse_decimal-Takes : (p : TypeParser) → Takes 0 IsAccepted parse_decimal p
unfolding parse_decimal decimal_arguments
parse_decimal-Takes p =
    Ensures-if (is_empty (peek_token p))
      (λ _. holds (wf_decimal (omega arith) (omega arith), omega arith))
      λ _. Ensures-bind (expect-Takes _ p) λ _ p₁ h₁.
        Ensures-bind (consume_token-Takes p₁) λ t p₂ h₂.
          Ensures-bind (number-Takes 32 t p₂) λ n p₃ h₃. Ensures-bind (expect-Takes _ p₃) λ _ p₄ h₄.
            Ensures-bind (consume_token-Takes p₄) λ t' p₅ h₅.
              Ensures-bind (number-Takes 32 t' p₅) λ m p₆ h₆.
                Ensures-bind (expect-Takes _ p₆) λ _ p₇ h₇.
                  holds
                    (wf_decimal (parse_int-IsInt32 t h₃.0) (parse_int-IsInt32 t' h₆.0), omega arith)

abbrev HasNoNull : List (Text × TypeId) → Type 0
HasNoNull [] = Unit
HasNoNull ((t, code) ∷ cases) = (code ≢ TypeId.null) × HasNoNull cases

abbrev IsFields : StructFields → Type 0
IsFields = WellFormedFields (λ _. Unit) IsInt32

switch-ne-null :
    (s : Text) (cases : List (Text × TypeId)) → HasNoNull cases → switch s cases ≢ TypeId.null
unfolding switch
switch-ne-null s [] h = cc
switch-ne-null s ((t, code) ∷ cases) (h, hs) = ground (arith, switch-ne-null s cases hs)

type_code_from_str-ne-null : (u : Unicode) (s : Text) → type_code_from_str u s ≢ TypeId.null
unfolding type_code_from_str
type_code_from_str-ne-null u s = switch-ne-null (map (to_upper u) s) type_codes (ground arith)

-- Over recursive calls that behave on fewer than `f` tokens.
module _ (f : ℕ) (self : M DataType) (loop : M StructFields)
    (self_ok : (p : TypeParser) → length p.left < f → Takes 1 IsAccepted self p)
    (loop_ok : (p : TypeParser)
      → length p.left < f
      → Takes 1 (λ fs. IsInhabited fs × IsFields fs) loop p) where
  parse_type-Takes :
      (code : TypeId) (t : Text) (p : TypeParser)
      → code ≢ TypeId.null
      → length p.left < f
      → Takes 0 IsAccepted (parse_type self loop code t) p
  unfolding parse_type
  parse_type-Takes TypeId.array t p known h = Ensures-bind (expect-Takes _ p) λ _ p₁ h₁.
      Ensures-bind (self_ok p₁ (omega arith))
        λ e p₂ h₂. Ensures-bind (expect-Takes _ p₂) λ _ p₃ h₃. holds (wf_array h₂.0, omega arith)
  parse_type-Takes TypeId.map t p known h = Ensures-bind (expect-Takes _ p) λ _ p₁ h₁.
      Ensures-bind (self_ok p₁ (omega arith)) λ k p₂ h₂. Ensures-bind (expect-Takes _ p₂) λ _ p₃ h₃.
        Ensures-bind (self_ok p₃ (omega arith)) λ v p₄ h₄.
          Ensures-bind (expect-Takes _ p₄) λ _ p₅ h₅. holds (wf_map h₂.0 h₄.0, omega arith)
  parse_type-Takes TypeId.struct t p known h = Ensures-bind (expect-Takes _ p) λ _ p₁ h₁.
      Ensures-bind (loop_ok p₁ (omega arith)) λ fs p₂ h₂.
        Ensures-bind (expect-Takes _ p₂) λ _ p₃ h₃. holds (wf_struct h₂.0.0 h₂.0.1, omega arith)
  parse_type-Takes TypeId.char t p known h = parse_char-Takes p
  parse_type-Takes TypeId.varchar t p known h = parse_varchar-Takes p
  parse_type-Takes TypeId.decimal t p known h = parse_decimal-Takes p
  parse_type-Takes TypeId.json t p known h = holds (wf_json, omega arith)
  parse_type-Takes TypeId.type_unknown t p known h = refused
  parse_type-Takes TypeId.null t p known h = absurd (known refl)
  parse_type-Takes code t p known h = holds (wf_primitive tt, omega arith)

  after_field-Takes : (p : TypeParser) → length p.left < f → Takes 0 IsFields (after_field loop) p
  unfolding after_field
  after_field-Takes p h =
      Ensures-if (text_eq (peek_token p) (codes ","))
        (λ _.
          Ensures-bind (consume_token-Takes p)
            λ _ p₁ h₁. Ensures-map (loop_ok p₁ (omega arith)) λ fs p₂ h₂. (h₂.0.1, omega arith))
        λ _.
          Ensures-if (text_eq (peek_token p) (codes ">")) (λ _. holds (wf_end, omega arith))
            λ _. refused

  parse_field-Takes :
      (p : TypeParser)
      → length p.left < suc f
      → Takes 1 (λ fs. IsInhabited fs × IsFields fs) (parse_field self loop) p
  unfolding parse_field
  parse_field-Takes p h = Ensures-bind (consume_token-Takes p) λ n p₁ h₁.
      Ensures-bind (expect-Takes _ p₁) λ _ p₂ h₂. Ensures-bind (self_ok p₂ (omega arith)) λ t p₃ h₃.
        Ensures-bind (after_field-Takes p₃ (omega arith))
          λ fs p₄ h₄. holds ((tt, wf_field tt h₃.0 h₄.0), omega arith)

mutual
  unfolding parse

  parse-Takes :
      (u : Unicode) (f : ℕ) (p : TypeParser) → length p.left < f → Takes 1 IsAccepted (parse u f) p
  parse-Takes u zero p h = absurd (omega arith)
  parse-Takes u (suc f) p h = Ensures-bind (consume_token-Takes p) λ t p₁ h₁.
      Ensures-map
        (parse_type-Takes f (parse u f) (parse_fields u f) (parse-Takes u f)
          (parse_fields-Takes u f) (type_code_from_str u t) t p₁ (type_code_from_str-ne-null u t)
          (omega arith))
        λ a p₂ h₂. (h₂.0, omega arith)

  parse_fields-Takes :
      (u : Unicode) (f : ℕ) (p : TypeParser)
      → length p.left < f
      → Takes 1 (λ fs. IsInhabited fs × IsFields fs) (parse_fields u f) p
  parse_fields-Takes u zero p h = absurd (omega arith)
  parse_fields-Takes u (suc f) p h =
      parse_field-Takes f (parse u f) (parse_fields u f) (parse-Takes u f) (parse_fields-Takes u f)
        p h

finish-Ensures :
    (u : Unicode) (name : Text) {r : Outcome TypeParser ParseError DataType}
    {P : TypeParser → Type 0}
    → Ensures (λ t p. IsAccepted t × P p) r
    → Ensures (λ t _. IsAccepted t) (finish u name r)
unfolding finish
finish-Ensures u name (holds {s = p} h) = Ensures-if (is_empty p.left) (λ _. holds h.0) λ _. refused
finish-Ensures u name (refused {s = p}) = Ensures-if (is_empty p.left) (λ _. refused) λ _. refused
finish-Ensures u name stopped = stopped

-- On every text `ParseDataType` ends within its fuel, and a type that it returns is well formed:
-- CHAR lengths lie in 1..255, VARCHAR lengths in 1..65535, precisions and scales are int32 values,
-- every struct has a field, and every primitive has a code of its own.
pub parse_data_type-IsAccepted :
    (u : Unicode) (name : Text) → Ensures (λ t _. IsAccepted t) (parse_data_type u name)
unfolding parse_data_type
parse_data_type-IsAccepted u name =
    let tokens = tokenize u name in
    finish-Ensures u name
      (parse-Takes u (suc (length tokens)) (record { left = tokens; index = 0 }) (omega arith))
