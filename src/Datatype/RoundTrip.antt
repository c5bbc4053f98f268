-- ===== src/Datatype/RoundTrip.antt =====
-- The parser on the tokens of a type.
use aliyun_odps_go_sdk.Prelude.{
  ℕ, zero, suc, ◌+◌, ◌-◌, ◌^◌, ◌<◌, ◌≤◌, ◌≡◌, ◌≢◌, refl, some, List, [], ◌∷◌, ◌++◌, append_assoc,
  append-nil, arith, length, length-append,
}
use aliyun_odps_go_sdk.Prelude.Int.{ℤ, pos, negsuc, ◌≤ℤ◌}
use aliyun_odps_go_sdk.Text.{Text, codes}
use aliyun_odps_go_sdk.Text.Decimal.{print_int, parse_int, parse_int-print_int}
use aliyun_odps_go_sdk.Text.Unicode.{Unicode}
use aliyun_odps_go_sdk.Outcome.{ok}
use aliyun_odps_go_sdk.Datatype.{
  TypeId, DataType, StructFields, primitive, char_type, varchar_type, decimal_type, array_type,
  map_type, struct_type, json_type, no_fields, field, type_id_string, type_code_from_str, name,
}
use aliyun_odps_go_sdk.Datatype.Parser.{
  TypeParser, M, consume_token, first_token, parse_char, parse_varchar, parse_decimal, parse_type,
  parse_field, parse, parse_fields, finish, parse_data_type,
}
use aliyun_odps_go_sdk.Datatype.WellFormed.{
  WellFormed, WellFormedFields, IsInhabited, IsPrimitive, wf_primitive, wf_char, wf_varchar,
  wf_decimal, wf_array, wf_map, wf_struct, wf_json, wf_end, wf_field,
}
use aliyun_odps_go_sdk.Datatype.Tokens.{tokenize}
use aliyun_odps_go_sdk.Datatype.Written.{
  written, IsWord, AllWordChars, IsScale, IsWritable, IsStructFree, name-written,
}
use aliyun_odps_go_sdk.Datatype.Scan.{type_tokens, field_tokens, IsClosed}
use aliyun_odps_go_sdk.Datatype.Tokenized.{tokenize-written, tokenize-suffix}

-- With fuel for its tokens, `m` reads `a` off them and leaves what follows.
abbrev Reads : {A : Type 0} → (ℕ → M A) → List Text → A → Type 0
Reads m tokens a =
    (f i : ℕ) (rest : List Text)
    → length tokens ≤ f
    → (j : ℕ) × (m f (record { left = tokens ++ rest; index = i })
        ≡ ok a (record { left = rest; index = j }))

module _ (u : Unicode) where
  parse_type-primitive :
      (self : M DataType) (loop : M StructFields) (code : TypeId) (token : Text) (p : TypeParser)
      → IsPrimitive code
      → parse_type self loop code token p ≡ ok (primitive code) p
  unfolding parse_type
  parse_type-primitive self loop TypeId.bigint token p h = refl
  parse_type-primitive self loop TypeId.null token p h = elim h [ ]
  parse_type-primitive self loop TypeId.array token p h = elim h [ ]
  parse_type-primitive self loop TypeId.map token p h = elim h [ ]
  parse_type-primitive self loop TypeId.struct token p h = elim h [ ]
  parse_type-primitive self loop TypeId.char token p h = elim h [ ]
  parse_type-primitive self loop TypeId.varchar token p h = elim h [ ]
  parse_type-primitive self loop TypeId.decimal token p h = elim h [ ]
  parse_type-primitive self loop TypeId.json token p h = elim h [ ]
  parse_type-primitive self loop TypeId.type_unknown token p h = elim h [ ]
  parse_type-primitive self loop code token p h = refl

  -- The code of a type is found by its name.
  pub type_code_from_str-type_id_string :
      (code : TypeId) → code ≢ TypeId.null → type_code_from_str u (type_id_string code) ≡ code
  unfolding type_code_from_str type_id_string
  type_code_from_str-type_id_string TypeId.null h = absurd (h refl)
  type_code_from_str-type_id_string code h = refl

  IsPrimitive-ne-null : (code : TypeId) → IsPrimitive code → code ≢ TypeId.null
  IsPrimitive-ne-null TypeId.null h = elim h [ ]
  IsPrimitive-ne-null code h = cc

  read_primitive :
      (code : TypeId)
      → IsPrimitive code
      → Reads (parse u) (type_id_string code ∷ []) (primitive code)
  unfolding parse consume_token
  read_primitive code h zero i rest le = absurd (omega arith)
  read_primitive code h (suc f) i rest le = (
    i + 1,
    rw (type_code_from_str-type_id_string code (IsPrimitive-ne-null code h)) (
        parse_type-primitive (parse u f) (parse_fields u f) code (type_id_string code)
          (record { left = rest; index = i + 1 }) h),
  )

  read_json : Reads (parse u) (type_tokens json_type) json_type
  unfolding parse consume_token parse_type type_code_from_str
  read_json zero i rest le = absurd (omega arith)
  read_json (suc f) i rest le = (i + 1, refl)

  read_array :
      (e : DataType)
      → Reads (parse u) (type_tokens e) e
      → Reads (parse u) (type_tokens (array_type e)) (array_type e)
  unfolding parse consume_token parse_type type_code_from_str
  read_array e h zero i rest le = absurd (omega arith)
  read_array e h (suc f) i rest le =
      let (j, read) =
        h f (i + 1 + 1) (codes ">" ∷ rest)
          (omega (arith, length-append (type_tokens e) (codes ">" ∷ []))) in
      (j + 1, rw (append_assoc, read))

  read_map :
      (k v : DataType)
      → Reads (parse u) (type_tokens k) k
      → Reads (parse u) (type_tokens v) v
      → Reads (parse u) (type_tokens (map_type k v)) (map_type k v)
  unfolding parse consume_token parse_type type_code_from_str
  read_map k v hk hv zero i rest le = absurd (omega arith)
  read_map k v hk hv (suc f) i rest le =
      let back = type_tokens v ++ codes ">" ∷ [] in
      let sizes : length (type_tokens k) + length (type_tokens v) ≤ f = omega (
        arith,
        length-append (type_tokens k) (codes "," ∷ back),
        length-append (type_tokens v) (codes ">" ∷ []),
      ) in
      let (j, read) =
        hk f (i + 1 + 1) (codes "," ∷ (type_tokens v ++ codes ">" ∷ rest)) (omega arith) in
      let (j', read') = hv f (j + 1) (codes ">" ∷ rest) (omega arith) in
      (j' + 1, simp append_assoc (rw (read, read')))

  -- So for the fields of a struct, up to the bracket that closes it.
  abbrev ReadsFields : StructFields → Type 0
  ReadsFields fs =
      (f i : ℕ) (rest : List Text)
      → length (field_tokens fs) ≤ f
      → (j : ℕ) × (parse_fields u f
            (record { left = field_tokens fs ++ codes ">" ∷ rest; index = i })
          ≡ ok fs (record { left = codes ">" ∷ rest; index = j }))

  read_struct :
      (fs : StructFields)
      → ReadsFields fs
      → Reads (parse u) (type_tokens (struct_type fs)) (struct_type fs)
  unfolding parse consume_token parse_type type_code_from_str
  read_struct fs h zero i rest le = absurd (omega arith)
  read_struct fs h (suc f) i rest le =
      let (j, read) =
        h f (i + 1 + 1) rest (omega (arith, length-append (field_tokens fs) (codes ">" ∷ []))) in
      (j + 1, rw (append_assoc, read))

  -- A number that is not negative is read back from its token.
  parse_int-print_int_ℤ :
      (bits lim : ℕ) (z : ℤ)
      → pos 0 ≤ℤ z
      → z ≤ℤ pos lim
      → lim < 2 ^ (bits - 1)
      → parse_int bits (print_int z) ≡ some z
  parse_int-print_int_ℤ bits lim (pos n) h k l = parse_int-print_int bits n (omega arith)
  parse_int-print_int_ℤ bits lim (negsuc n) h k l = absurd (omega arith)

  read_last_field :
      (n : Text) (t : DataType)
      → Reads (parse u) (type_tokens t) t
      → ReadsFields (field n t no_fields)
  unfolding parse consume_token parse_field
  read_last_field n t h zero i rest le = absurd (omega arith)
  read_last_field n t h (suc f) i rest le =
      let (j, read) = h f (i + 1 + 1) (codes ">" ∷ rest) (omega arith) in (j, rw read)

  read_field :
      (n : Text) (t : DataType) (n' : Text) (t' : DataType) (fs : StructFields)
      → Reads (parse u) (type_tokens t) t
      → ReadsFields (field n' t' fs)
      → ReadsFields (field n t (field n' t' fs))
  unfolding parse consume_token parse_field
  read_field n t n' t' fs ht h zero i rest le = absurd (omega arith)
  read_field n t n' t' fs ht h (suc f) i rest le =
      let more = field_tokens (field n' t' fs) in
      let sizes : length (type_tokens t) + length more ≤ f =
        omega (arith, length-append (type_tokens t) (codes "," ∷ more)) in
      let (j, read) = ht f (i + 1 + 1) (codes "," ∷ (more ++ codes ">" ∷ rest)) (omega arith) in
      let (j', read') = h f (j + 1) rest (omega arith) in (j', simp append_assoc (rw (read, read')))

  read_char :
      (n : ℤ)
      → pos 1 ≤ℤ n
      → n ≤ℤ pos 255
      → Reads (parse u) (type_tokens (char_type n)) (char_type n)
  unfolding parse consume_token parse_type type_code_from_str parse_char
  read_char n lo hi zero i rest le = absurd (omega arith)
  read_char n lo hi (suc f) i rest le = (
    i + 1 + 1 + 1 + 1,
    rw (parse_int-print_int_ℤ 64 255 n (omega arith) hi (omega arith)) (ground arith),
  )

  read_varchar :
      (n : ℤ)
      → pos 1 ≤ℤ n
      → n ≤ℤ pos 65535
      → Reads (parse u) (type_tokens (varchar_type n)) (varchar_type n)
  unfolding parse consume_token parse_type type_code_from_str parse_varchar
  read_varchar n lo hi zero i rest le = absurd (omega arith)
  read_varchar n lo hi (suc f) i rest le = (
    i + 1 + 1 + 1 + 1,
    rw (parse_int-print_int_ℤ 64 65535 n (omega arith) hi (omega arith)) (ground arith),
  )

  read_decimal :
      (p s : ℤ)
      → IsScale u p
      → IsScale u s
      → Reads (parse u) (type_tokens (decimal_type p s)) (decimal_type p s)
  unfolding parse consume_token parse_type type_code_from_str parse_decimal first_token
  read_decimal p s hp hs zero i rest le = absurd (omega arith)
  read_decimal p s hp hs (suc f) i rest le = (
    i + 1 + 1 + 1 + 1 + 1 + 1,
    rw (
      parse_int-print_int_ℤ 32 2147483647 p hp.0 hp.1 (omega arith),
      parse_int-print_int_ℤ 32 2147483647 s hs.0 hs.1 (omega arith),
    ),
  )

  mutual
    read : {t : DataType} → WellFormed (IsWord u) (IsScale u) t → Reads (parse u) (type_tokens t) t
    read (wf_primitive {code} h) = read_primitive code h
    read wf_json = read_json
    read (wf_char {n} lo hi) = read_char n lo hi
    read (wf_varchar {n} lo hi) = read_varchar n lo hi
    read (wf_decimal {p} {s} hp hs) = read_decimal p s hp hs
    read (wf_array {e} h) = read_array e (read h)
    read (wf_map {k} {v} hk hv) = read_map k v (read hk) (read hv)
    read (wf_struct {fs} ne h) = read_struct fs (read_fields h ne)

    read_fields :
        {fs : StructFields}
        → WellFormedFields (IsWord u) (IsScale u) fs
        → IsInhabited fs
        → ReadsFields fs
    read_fields wf_end ne = elim ne [ ]
    read_fields (wf_field {n} {t} hn ht wf_end) ne = read_last_field n t (read ht)
    read_fields (wf_field {n} {t} hn ht (wf_field {n = n'} {t = t'} {fs = fs'} hn' ht' h)) ne =
        read_field n t n' t' fs' (read ht) (read_fields (wf_field hn' ht' h) tt)

  parse_tokens :
      {t : DataType} (s : Text)
      → IsWritable u t
      → tokenize u s ≡ type_tokens t
      → parse_data_type u s ≡ ok t tt
  parse_tokens {t} s h e =
      let toks = type_tokens t in
      let (j, done) = read h (suc (length toks)) 0 [] (omega arith) in
      let whole : parse u (suc (length toks)) (record { left = toks; index = 0 })
          ≡ ok t (record { left = []; index = j }) =
        rw append-nil at done in
      unfold parse_data_type finish in rw (e, whole)

-- `ParseDataType` reads back the name, with field names unquoted, of every type that is built of
-- these: primitives with a code of their own, JSON, CHAR of length 1 to 255, VARCHAR of length 1 to
-- 65535, DECIMAL with precision and scale from 0 to 2147483647, arrays, maps, and structs with a
-- field at least and words as field names.
pub parse_data_type-written :
    (u : Unicode) {t : DataType} → IsWritable u t → parse_data_type u (written t) ≡ ok t tt
parse_data_type-written u {t} h = parse_tokens u (written t) h (tokenize-written u h)

-- `ParseDataType` reads back `DataType.Name` of every type that is built of primitives with a code
-- of their own, JSON, CHAR of length 1 to 255, VARCHAR of length 1 to 65535, DECIMAL with precision
-- and scale from 0 to 2147483647, arrays and maps, with no struct in it.
pub parse_data_type-name :
    (u : Unicode) {t : DataType}
    → IsWritable u t
    → IsStructFree t
    → parse_data_type u (name t) ≡ ok t tt
parse_data_type-name u {t} h free = rw (name-written t free) (parse_data_type-written u h)

-- Word characters behind the unquoted name of a type that `ParseDataType` reads back are ignored if
-- the name ends in a bracket, as those of all types but primitives and JSON do: `ParseDataType`
-- accepts `ARRAY<INT>x` as the type without them.
pub parse_data_type-suffix :
    (u : Unicode) {t : DataType} (w : Text)
    → IsWritable u t
    → IsClosed u t
    → AllWordChars u w
    → parse_data_type u (written t ++ w) ≡ ok t tt
parse_data_type-suffix u {t} w h c hw =
    parse_tokens u (written t ++ w) h (tokenize-suffix u w h c hw)
