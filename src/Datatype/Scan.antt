-- ===== src/Datatype/Scan.antt =====
-- The tokens of a written type name.
use aliyun_odps_go_sdk.Prelude.{
  ℕ, ◌≡◌, refl, ap, ◌∙◌, Bool, true, false, ◌&&◌, not, List, [], ◌∷◌, ◌++◌, append_assoc,
  append-nil, arith,
}
use aliyun_odps_go_sdk.Prelude.Int.{ℤ, pos, negsuc, ◌≤ℤ◌}
use aliyun_odps_go_sdk.Text.{Text, codes}
use aliyun_odps_go_sdk.Text.Decimal.{
  print_int, print_nat, is_decimal, AllDigits, print_nat-AllDigits, print_nat-ne-nil,
}
use aliyun_odps_go_sdk.Text.Unicode.{Unicode, is_space}
use aliyun_odps_go_sdk.Datatype.{
  TypeId, DataType, StructFields, primitive, char_type, varchar_type, decimal_type, array_type,
  map_type, struct_type, json_type, no_fields, field, type_id_string, name,
}
use aliyun_odps_go_sdk.Datatype.Tokens.{
  Tokenizer, flush, clean, is_identifier_char, token_step, token_run,
}
use aliyun_odps_go_sdk.Datatype.WellFormed.{
  WellFormed, WellFormedFields, IsInhabited, wf_primitive, wf_char, wf_varchar, wf_decimal,
  wf_array, wf_map, wf_struct, wf_json, wf_end, wf_field,
}
use aliyun_odps_go_sdk.Datatype.Written.{
  written, written_fields, IsWordChar, AllWordChars, IsWord, IsScale, IsWritable,
}

abbrev mutual
  pub type_tokens : DataType → List Text
  type_tokens (primitive code) = type_id_string code ∷ []
  type_tokens (char_type n) = codes "CHAR" ∷ codes "(" ∷ print_int n ∷ codes ")" ∷ []
  type_tokens (varchar_type n) = codes "VARCHAR" ∷ codes "(" ∷ print_int n ∷ codes ")" ∷ []
  type_tokens (decimal_type p s) =
      codes "DECIMAL" ∷ codes "(" ∷ print_int p ∷ codes "," ∷ print_int s ∷ codes ")" ∷ []
  type_tokens (array_type e) = codes "ARRAY" ∷ codes "<" ∷ (type_tokens e ++ codes ">" ∷ [])
  type_tokens (map_type k v) =
      codes "MAP" ∷ codes "<" ∷ (type_tokens k ++ codes "," ∷ (type_tokens v ++ codes ">" ∷ []))
  type_tokens (struct_type fs) = codes "STRUCT" ∷ codes "<" ∷ (field_tokens fs ++ codes ">" ∷ [])
  type_tokens json_type = codes "JSON" ∷ []

  pub field_tokens : StructFields → List Text
  field_tokens no_fields = []
  field_tokens (field n t no_fields) = n ∷ codes ":" ∷ type_tokens t
  field_tokens (field n t fs) = n ∷ codes ":" ∷ (type_tokens t ++ codes "," ∷ field_tokens fs)

module _ (u : Unicode) where
  -- A character that is a token by itself.
  abbrev pub IsMark : ℕ → Type 0
  IsMark c = (is_space u c ≡ false) × (is_identifier_char u c ≡ false)

  abbrev word_check : Text → Bool
  word_check [] = true
  word_check (c ∷ cs) = not (is_space u c) && is_identifier_char u c && word_check cs

  word_check-AllWordChars : (w : Text) → word_check w ≡ true → AllWordChars u w
  word_check-AllWordChars [] h = tt
  word_check-AllWordChars (c ∷ cs) h = ground (arith, word_check-AllWordChars cs)

  pub type_id_string-IsWord : (code : TypeId) → IsWord u (type_id_string code)
  unfolding type_id_string is_space is_identifier_char
  type_id_string-IsWord TypeId.null = (word_check-AllWordChars (codes "TYPE_UNKNOWN") refl, cc)
  type_id_string-IsWord code = (word_check-AllWordChars (type_id_string code) refl, cc)

  digit-IsWordChar : (c : ℕ) → is_decimal c ≡ true → IsWordChar u c
  unfolding is_decimal is_space is_identifier_char
  digit-IsWordChar c h = ground arith

  AllDigits-AllWordChars : (s : Text) → AllDigits s → AllWordChars u s
  AllDigits-AllWordChars [] h = tt
  AllDigits-AllWordChars (c ∷ cs) h = (digit-IsWordChar c h.0, AllDigits-AllWordChars cs h.1)

  pub print_int-IsWord : (z : ℤ) → pos 0 ≤ℤ z → IsWord u (print_int z)
  unfolding print_int
  print_int-IsWord (pos n) h =
      (AllDigits-AllWordChars (print_nat n) (print_nat-AllDigits n), print_nat-ne-nil n)
  print_int-IsWord (negsuc n) h = absurd (omega arith)

  pub token_step-word :
      (st : Tokenizer) (c : ℕ)
      → IsWordChar u c
      → token_step u st c ≡ record st { builder = st.builder ++ c ∷ [] }
  unfolding token_step
  token_step-word st c h = rw (h.0, h.1)

  pub token_step-mark :
      (st : Tokenizer) (c : ℕ) → IsMark c → token_step u st c ≡ clean (flush st ++ (c ∷ []) ∷ [])
  unfolding token_step
  token_step-mark st c h = rw (h.0, h.1)

  pub token_run-word :
      (w : Text) (st : Tokenizer) (rest : Text)
      → AllWordChars u w
      → token_run u st (w ++ rest) ≡ token_run u (record st { builder = st.builder ++ w }) rest
  token_run-word [] st rest h = rw append-nil
  token_run-word (c ∷ cs) st rest h =
      ap (λ s. token_run u s (cs ++ rest)) (token_step-word st c h.0)
      ∙ token_run-word cs (record st { builder = st.builder ++ c ∷ [] }) rest h.1
      ∙ rw append_assoc

  -- A word and the mark behind it are two tokens.
  pub token_run-word_mark :
      (ts : List Text) (w : Text) (m : ℕ) (rest : Text)
      → IsWord u w
      → IsMark m
      → token_run u (clean ts) (w ++ m ∷ rest) ≡ token_run u (clean (ts ++ w ∷ (m ∷ []) ∷ [])) rest
  token_run-word_mark ts [] m rest h k = absurd (h.1 refl)
  token_run-word_mark ts (c ∷ cs) m rest h k =
      token_run-word (c ∷ cs) (clean ts) (m ∷ rest) h.0
      ∙ ap (λ s. token_run u s rest)
          (token_step-mark (record { builder = c ∷ cs; tokens = ts }) m k)
      ∙ rw append_assoc

  pub token_run-mark :
      (ts : List Text) (m : ℕ) (rest : Text)
      → IsMark m
      → token_run u (clean ts) (m ∷ rest) ≡ token_run u (clean (ts ++ (m ∷ []) ∷ [])) rest
  token_run-mark ts m rest k = ap (λ s. token_run u s rest) (token_step-mark (clean ts) m k)

  pub open_angle : IsMark b'<'
  unfolding is_space is_identifier_char
  open_angle = (refl, refl)

  pub close_angle : IsMark b'>'
  unfolding is_space is_identifier_char
  close_angle = (refl, refl)

  open_paren : IsMark b'('
  unfolding is_space is_identifier_char
  open_paren = (refl, refl)

  close_paren : IsMark b')'
  unfolding is_space is_identifier_char
  close_paren = (refl, refl)

  comma : IsMark b','
  unfolding is_space is_identifier_char
  comma = (refl, refl)

  colon : IsMark b':'
  unfolding is_space is_identifier_char
  colon = (refl, refl)

  -- Types whose text ends in a mark.
  abbrev pub IsClosed : DataType → Type 0
  IsClosed (primitive code) = ⊥
  IsClosed json_type = ⊥
  IsClosed t = Unit

  abbrev Scans : DataType → Type 0
  Scans t =
      (ts : List Text) (m : ℕ) (rest : Text)
      → IsMark m
      → token_run u (clean ts) (written t ++ m ∷ rest)
        ≡ token_run u (clean (ts ++ (type_tokens t ++ (m ∷ []) ∷ []))) rest

  abbrev ScansClosed : DataType → Type 0
  ScansClosed t =
      (ts : List Text) (rest : Text)
      → token_run u (clean ts) (written t ++ rest) ≡ token_run u (clean (ts ++ type_tokens t)) rest

  scan_word :
      (t : DataType) (w : Text) → IsWord u w → written t ≡ w → type_tokens t ≡ w ∷ [] → Scans t
  scan_word t w h e e' ts m rest k = rw (e, e') (token_run-word_mark ts w m rest h k)

  scan_closed : (t : DataType) → ScansClosed t → Scans t
  scan_closed t h ts m rest k =
      h ts (m ∷ rest) ∙ token_run-mark (ts ++ type_tokens t) m rest k ∙ rw append_assoc

  pub regroup :
      (ts : List Text) (a b rest : Text)
      → token_run u (clean ts) ((a ++ b) ++ rest) ≡ token_run u (clean ts) (a ++ (b ++ rest))
  regroup ts a b rest = ap (token_run u (clean ts)) (append_assoc a b rest)

  scan_length :
      (keyword : Text) (z : ℤ)
      → IsWord u keyword
      → IsWord u (print_int z)
      → (ts : List Text) (rest : Text)
      → token_run u (clean ts) ((keyword ++ (codes "(" ++ (print_int z ++ codes ")"))) ++ rest)
        ≡ token_run u (clean (ts ++ keyword ∷ codes "(" ∷ print_int z ∷ codes ")" ∷ [])) rest
  scan_length keyword z h k ts rest =
      let start = ts ++ keyword ∷ codes "(" ∷ [] in
      regroup ts keyword (codes "(" ++ (print_int z ++ codes ")")) rest
      ∙ token_run-word_mark ts keyword b'(' ((print_int z ++ codes ")") ++ rest) h open_paren
      ∙ regroup start (print_int z) (codes ")") rest
      ∙ token_run-word_mark start (print_int z) b')' rest k close_paren
      ∙ rw append_assoc

  scan_char : (n : ℤ) → pos 1 ≤ℤ n → ScansClosed (char_type n)
  unfolding name type_id_string
  scan_char n h =
      scan_length (codes "CHAR") n (type_id_string-IsWord TypeId.char)
        (print_int-IsWord n (omega arith))

  scan_varchar : (n : ℤ) → pos 1 ≤ℤ n → ScansClosed (varchar_type n)
  unfolding name type_id_string
  scan_varchar n h =
      scan_length (codes "VARCHAR") n (type_id_string-IsWord TypeId.varchar)
        (print_int-IsWord n (omega arith))

  scan_decimal : (p s : ℤ) → IsScale u p → IsScale u s → ScansClosed (decimal_type p s)
  unfolding name type_id_string
  scan_decimal p s hp hs ts rest =
      let start = ts ++ codes "DECIMAL" ∷ codes "(" ∷ [] in
      let middle = start ++ print_int p ∷ codes "," ∷ [] in
      token_run-word_mark ts (codes "DECIMAL") b'('
        ((print_int p ++ (codes "," ++ (print_int s ++ codes ")"))) ++ rest)
        (type_id_string-IsWord TypeId.decimal) open_paren
      ∙ regroup start (print_int p) (codes "," ++ (print_int s ++ codes ")")) rest
      ∙ token_run-word_mark start (print_int p) b',' ((print_int s ++ codes ")") ++ rest)
          (print_int-IsWord p hp.0) comma
      ∙ regroup middle (print_int s) (codes ")") rest
      ∙ token_run-word_mark middle (print_int s) b')' rest (print_int-IsWord s hs.0) close_paren
      ∙ simp append_assoc

  scan_array : (e : DataType) → Scans e → ScansClosed (array_type e)
  unfolding type_id_string
  scan_array e h ts rest =
      let start = ts ++ codes "ARRAY" ∷ codes "<" ∷ [] in
      token_run-word_mark ts (codes "ARRAY") b'<' ((written e ++ codes ">") ++ rest)
        (type_id_string-IsWord TypeId.array) open_angle
      ∙ regroup start (written e) (codes ">") rest
      ∙ h start b'>' rest close_angle
      ∙ rw append_assoc

  scan_map : (k v : DataType) → Scans k → Scans v → ScansClosed (map_type k v)
  unfolding type_id_string
  scan_map k v hk hv ts rest =
      let start = ts ++ codes "MAP" ∷ codes "<" ∷ [] in
      let middle = start ++ (type_tokens k ++ codes "," ∷ []) in
      token_run-word_mark ts (codes "MAP") b'<'
        ((written k ++ (codes "," ++ (written v ++ codes ">"))) ++ rest)
        (type_id_string-IsWord TypeId.map) open_angle
      ∙ regroup start (written k) (codes "," ++ (written v ++ codes ">")) rest
      ∙ hk start b',' ((written v ++ codes ">") ++ rest) comma
      ∙ regroup middle (written v) (codes ">") rest
      ∙ hv middle b'>' rest close_angle
      ∙ simp append_assoc

  -- The fields of a struct, up to the mark behind them.
  abbrev ScansFields : StructFields → Type 0
  ScansFields fs =
      (ts : List Text) (m : ℕ) (rest : Text)
      → IsMark m
      → token_run u (clean ts) (written_fields fs ++ m ∷ rest)
        ≡ token_run u (clean (ts ++ (field_tokens fs ++ (m ∷ []) ∷ []))) rest

  scan_struct : (fs : StructFields) → ScansFields fs → ScansClosed (struct_type fs)
  unfolding type_id_string
  scan_struct fs h ts rest =
      let start = ts ++ codes "STRUCT" ∷ codes "<" ∷ [] in
      token_run-word_mark ts (codes "STRUCT") b'<' ((written_fields fs ++ codes ">") ++ rest)
        (type_id_string-IsWord TypeId.struct) open_angle
      ∙ regroup start (written_fields fs) (codes ">") rest
      ∙ h start b'>' rest close_angle
      ∙ rw append_assoc

  scan_last_field :
      (n : Text) (t : DataType) → IsWord u n → Scans t → ScansFields (field n t no_fields)
  scan_last_field n t hn ht ts m rest k =
      regroup ts n (codes ":" ++ written t) (m ∷ rest)
      ∙ token_run-word_mark ts n b':' (written t ++ m ∷ rest) hn colon
      ∙ ht (ts ++ n ∷ codes ":" ∷ []) m rest k
      ∙ rw append_assoc

  scan_field :
      (n : Text) (t : DataType) (n' : Text) (t' : DataType) (fs : StructFields)
      → IsWord u n
      → Scans t
      → ScansFields (field n' t' fs)
      → ScansFields (field n t (field n' t' fs))
  scan_field n t n' t' fs hn ht h ts m rest k =
      let more = written_fields (field n' t' fs) in
      let start = ts ++ n ∷ codes ":" ∷ [] in
      regroup ts n (codes ":" ++ (written t ++ (codes "," ++ more))) (m ∷ rest)
      ∙ token_run-word_mark ts n b':' ((written t ++ (codes "," ++ more)) ++ m ∷ rest) hn colon
      ∙ regroup start (written t) (codes "," ++ more) (m ∷ rest)
      ∙ ht start b',' (more ++ m ∷ rest) comma
      ∙ h (start ++ (type_tokens t ++ codes "," ∷ [])) m rest k
      ∙ simp append_assoc

  mutual
    unfolding name type_id_string

    scan : {t : DataType} → WellFormed (IsWord u) (IsScale u) t → Scans t
    scan (wf_primitive {code} h) =
        scan_word (primitive code) (type_id_string code) (type_id_string-IsWord code) refl refl
    scan wf_json = scan_word json_type (codes "JSON") (type_id_string-IsWord TypeId.json) refl refl
    scan (wf_char {n} lo hi) = scan_closed (char_type n) (scan_char n lo)
    scan (wf_varchar {n} lo hi) = scan_closed (varchar_type n) (scan_varchar n lo)
    scan (wf_decimal {p} {s} hp hs) = scan_closed (decimal_type p s) (scan_decimal p s hp hs)
    scan (wf_array {e} h) = scan_closed (array_type e) (scan_array e (scan h))
    scan (wf_map {k} {v} hk hv) = scan_closed (map_type k v) (scan_map k v (scan hk) (scan hv))
    scan (wf_struct {fs} ne h) = scan_closed (struct_type fs) (scan_struct fs (scan_fields h ne))

    scan_fields :
        {fs : StructFields}
        → WellFormedFields (IsWord u) (IsScale u) fs
        → IsInhabited fs
        → ScansFields fs
    scan_fields wf_end ne = elim ne [ ]
    scan_fields (wf_field {n} {t} hn ht wf_end) ne = scan_last_field n t hn (scan ht)
    scan_fields (wf_field {n} {t} hn ht (wf_field {n = n'} {t = t'} {fs = fs'} hn' ht' h)) ne =
        scan_field n t n' t' fs' hn (scan ht) (scan_fields (wf_field hn' ht' h) tt)

  -- The text of a closed type is read to its last token, whatever stands behind it.
  pub scan-closed : {t : DataType} → IsWritable u t → IsClosed t → ScansClosed t
  unfolding name type_id_string
  scan-closed (wf_primitive h) c = elim c [ ]
  scan-closed wf_json c = elim c [ ]
  scan-closed (wf_char {n} lo hi) c = scan_char n lo
  scan-closed (wf_varchar {n} lo hi) c = scan_varchar n lo
  scan-closed (wf_decimal {p} {s} hp hs) c = scan_decimal p s hp hs
  scan-closed (wf_array {e} h) c = scan_array e (scan h)
  scan-closed (wf_map {k} {v} hk hv) c = scan_map k v (scan hk) (scan hv)
  scan-closed (wf_struct {fs} ne h) c = scan_struct fs (scan_fields h ne)
