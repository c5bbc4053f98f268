-- ===== src/Datatype/Quoted.antt =====
-- The names of structs, in which `StructType.Name` quotes the names of the fields.
use aliyun_odps_go_sdk.Prelude.{
  ℕ, ◌≡◌, refl, sym, ap, ◌∙◌, false, List, [], ◌∷◌, ◌++◌, append_assoc, append-nil, arith,
  Bool-cases, inl, inr,
}
use aliyun_odps_go_sdk.Text.{Text, codes, text_eq}
use aliyun_odps_go_sdk.Text.Unicode.{Unicode, is_empty, is_space}
use aliyun_odps_go_sdk.Outcome.{err}
use aliyun_odps_go_sdk.Datatype.{
  TypeId, DataType, StructFields, struct_type, no_fields, field, type_id_string, type_code_from_str,
  name, field_names, quote_ref,
}
use aliyun_odps_go_sdk.Datatype.Tokens.{
  Tokenizer, flush, clean, is_identifier_char, token_step, token_run, tokenize_trimmed, tokenize,
}
use aliyun_odps_go_sdk.Datatype.Parser.{
  tokens_left, consume_token, parse_type, parse_field, parse, finish, first_token, parse_data_type,
}
use aliyun_odps_go_sdk.Datatype.Written.{IsWord}
use aliyun_odps_go_sdk.Datatype.Scan.{
  token_run-word_mark, token_run-mark, IsMark, open_angle, close_angle, type_id_string-IsWord,
}
use aliyun_odps_go_sdk.Datatype.Tokenized.{trim_space-ends}

module _ (u : Unicode) where
  quote-IsMark : IsMark u b'`'
  unfolding is_space is_identifier_char
  quote-IsMark = (refl, refl)

  flush-keeps : (st : Tokenizer) → (more : List Text) × (flush st ≡ st.tokens ++ more)
  flush-keeps st = elim (Bool-cases (is_empty st.builder)) [
    | inl none ↦ ([], rw (none, append-nil))
    | inr some ↦ (st.builder ∷ [], rw some)
  ]

  letter_s : is_space u b'S' ≡ false
  unfolding is_space
  letter_s = refl

  token_step-keeps :
      (st : Tokenizer) (c : ℕ)
      → (more : List Text) × ((token_step u st c).tokens ≡ st.tokens ++ more)
  unfolding token_step
  token_step-keeps st c = elim (Bool-cases (is_space u c)) [
    | inl space ↦ ([], rw (space, append-nil))
    | inr seen ↦ elim (Bool-cases (is_identifier_char u c)) [
      | inl word ↦ ([], rw (seen, word, append-nil))
      | inr mark ↦ (
        (flush-keeps st).0 ++ (c ∷ []) ∷ [],
        rw (seen, mark)
            (ap (λ l. l ++ (c ∷ []) ∷ []) (flush-keeps st).1
              ∙ append_assoc st.tokens (flush-keeps st).0 ((c ∷ []) ∷ [])),
      )
    ]
  ]

  -- The loop only adds tokens.
  token_run-keeps :
      (s : Text) (st : Tokenizer)
      → (more : List Text) × ((token_run u st s).tokens ≡ st.tokens ++ more)
  token_run-keeps [] st = ([], sym (append-nil st.tokens))
  token_run-keeps (c ∷ cs) st =
      let (more, e) = token_step-keeps st c in
      let (more', e') = token_run-keeps cs (token_step u st c) in
      (more ++ more', e' ∙ ap (λ l. l ++ more') e ∙ append_assoc st.tokens more more')

  -- The tokens up to the end of the first name, with what follows.
  tokenize-quoted :
      (n rest : Text)
      → IsWord u n
      → (more : List Text) × (tokenize u (codes "STRUCT<" ++ ((quote_ref n ++ rest) ++ codes ">"))
          ≡ codes "STRUCT" ∷ codes "<" ∷ codes "`" ∷ n ∷ codes "`" ∷ more)
  unfolding tokenize tokenize_trimmed quote_ref type_id_string
  tokenize-quoted n rest h =
      let start = codes "STRUCT" ∷ codes "<" ∷ [] in
      let tail = rest ++ codes ">" in
      let found = start ++ codes "`" ∷ n ∷ codes "`" ∷ [] in
      let (more, e) = token_run-keeps tail (clean found) in
      let read : token_run u (clean [])
            (codes "STRUCT<" ++ (((codes "`" ++ (n ++ codes "`")) ++ rest) ++ codes ">"))
          ≡ token_run u (clean found) tail =
        token_run-word_mark u [] (codes "STRUCT") b'<'
          (((codes "`" ++ (n ++ codes "`")) ++ rest) ++ codes ">")
          (type_id_string-IsWord u TypeId.struct) (open_angle u)
        ∙ token_run-mark u start b'`' (((n ++ codes "`") ++ rest) ++ codes ">") quote-IsMark
        ∙ ap (token_run u (clean (start ++ codes "`" ∷ [])))
            (append_assoc (n ++ codes "`") rest (codes ">") ∙ append_assoc n (codes "`") tail)
        ∙ token_run-word_mark u (start ++ codes "`" ∷ []) n b'`' tail h quote-IsMark in
      (
        more,
        rw
            (trim_space-ends u b'S' (codes "TRUCT<" ++ ((codes "`" ++ (n ++ codes "`")) ++ rest))
              b'>' letter_s (close_angle u).0)
            (rw (read, e)),
      )

  -- The first field's name is quoted, and something follows its colon.
  field_names-quoted :
      (n : Text) (t : DataType) (fs : StructFields)
      → (rest : Text) × (field_names (field n t fs) ≡ quote_ref n ++ rest)
  unfolding name
  field_names-quoted n t no_fields = (codes ":" ++ name t, refl)
  field_names-quoted n t (field n' t' fs) =
      (codes ":" ++ (name t ++ (codes "," ++ field_names (field n' t' fs))), refl)

  word-ne-colon : (n : Text) → IsWord u n → text_eq n (codes ":") ≡ false
  unfolding text_eq is_identifier_char
  word-ne-colon [] h = refl
  word-ne-colon (c ∷ cs) h = ground arith

  parse_quoted :
      (n s : Text) (more : List Text)
      → IsWord u n
      → tokenize u s ≡ codes "STRUCT" ∷ codes "<" ∷ codes "`" ∷ n ∷ codes "`" ∷ more
      → parse_data_type u s ≡ err (tokens_left s (codes "`") 4) tt
  unfolding parse_data_type finish parse parse_type parse_field consume_token type_code_from_str
      first_token
  parse_quoted n s more h e = rw (e, word-ne-colon n h)

-- The name of a struct whose first field has a word as its name is refused by `ParseDataType`, with
-- the error that tokens are left from the quote behind that word on, whatever the fields' types are.
pub parse_data_type-name_struct :
    (u : Unicode) (n : Text) (t : DataType) (fs : StructFields)
    → IsWord u n
    → let s = name (struct_type (field n t fs)) in
      parse_data_type u s ≡ err (tokens_left s (codes "`") 4) tt
unfolding name type_id_string
parse_data_type-name_struct u n t fs h =
    let (rest, e) = field_names-quoted u n t fs in
    let (more, e') = tokenize-quoted u n rest h in
    parse_quoted u n (name (struct_type (field n t fs))) more h (rw e e')
