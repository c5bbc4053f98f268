-- ===== src/Datatype/Tokenized.antt =====
-- `tokenize` on a written type name, which holds no space.
use mathlib.Core.List.{reverse, reverse-append, reverse-reverse, reverse-cons}
use aliyun_odps_go_sdk.Prelude.{
  ℕ, ◌≡◌, refl, sym, ap, ◌∙◌, Bool, true, false, ◌&&◌, not, List, [], ◌∷◌, ◌++◌, append_assoc,
  append-nil, arith,
}
use aliyun_odps_go_sdk.Prelude.Int.{ℤ, pos, ◌≤ℤ◌}
use aliyun_odps_go_sdk.Text.{Text, codes}
use aliyun_odps_go_sdk.Text.Decimal.{print_int}
use aliyun_odps_go_sdk.Text.Unicode.{
  Unicode, is_empty, is_space, trim_left, trim_space, field_step, field_end, field_run, fields,
}
use aliyun_odps_go_sdk.Datatype.{
  TypeId, DataType, StructFields, primitive, json_type, field, type_id_string, name,
}
use aliyun_odps_go_sdk.Datatype.Tokens.{clean, token_run, tokenize_trimmed, tokenize}
use aliyun_odps_go_sdk.Datatype.WellFormed.{
  WellFormed, WellFormedFields, wf_primitive, wf_char, wf_varchar, wf_decimal, wf_array, wf_map,
  wf_struct, wf_json, wf_end, wf_field,
}
use aliyun_odps_go_sdk.Datatype.Written.{
  written, written_fields, AllWordChars, IsWord, IsScale, IsWritable,
}
use aliyun_odps_go_sdk.Datatype.Scan.{
  type_tokens, IsClosed, type_id_string-IsWord, print_int-IsWord, token_run-word, scan-closed,
}

module _ (u : Unicode) where
  abbrev pub NoSpace : Text → Type 0
  NoSpace [] = Unit
  NoSpace (c ∷ cs) = (is_space u c ≡ false) × NoSpace cs

  NoSpace-append : (s t : Text) → NoSpace s → NoSpace t → NoSpace (s ++ t)
  NoSpace-append [] t h k = k
  NoSpace-append (c ∷ cs) t h k = (h.0, NoSpace-append cs t h.1 k)

  NoSpace-reverse : (s : Text) → NoSpace s → NoSpace (reverse s)
  NoSpace-reverse [] h = tt
  NoSpace-reverse (c ∷ cs) h =
      rw reverse-cons (NoSpace-append (reverse cs) (c ∷ []) (NoSpace-reverse cs h.1) (h.0, tt))

  AllWordChars-NoSpace : (w : Text) → AllWordChars u w → NoSpace w
  AllWordChars-NoSpace [] h = tt
  AllWordChars-NoSpace (c ∷ cs) h = (h.0.0, AllWordChars-NoSpace cs h.1)

  trim_left-NoSpace : (s : Text) → NoSpace s → trim_left u s ≡ s
  unfolding trim_left
  trim_left-NoSpace [] h = refl
  trim_left-NoSpace (c ∷ cs) h = rw h.0

  trim_space-NoSpace : (s : Text) → NoSpace s → trim_space u s ≡ s
  unfolding trim_space
  trim_space-NoSpace s h =
      rw (
        trim_left-NoSpace s h,
        trim_left-NoSpace (reverse s) (NoSpace-reverse s h),
        reverse-reverse,
      )

  -- Only the ends of a text are trimmed.
  pub trim_space-ends :
      (c : ℕ) (middle : Text) (d : ℕ)
      → is_space u c ≡ false
      → is_space u d ≡ false
      → trim_space u (c ∷ (middle ++ d ∷ [])) ≡ c ∷ (middle ++ d ∷ [])
  unfolding trim_space
  trim_space-ends c middle d hc hd =
      let whole = c ∷ (middle ++ d ∷ []) in
      let start : trim_left u whole ≡ whole = unfold trim_left in rw hc in
      let turned : reverse whole ≡ d ∷ reverse (c ∷ middle) =
        reverse-append (c ∷ middle) (d ∷ []) in
      let end : trim_left u (d ∷ reverse (c ∷ middle)) ≡ d ∷ reverse (c ∷ middle) =
        unfold trim_left in rw hd in
      rw (start, turned, end, ← turned) (reverse-reverse whole)

  field_run-NoSpace :
      (s : Text) (done : List Text) (word : Text)
      → NoSpace s
      → field_run u (done, word) s ≡ (done, word ++ s)
  unfolding field_run
  field_run-NoSpace [] done word h = rw append-nil
  field_run-NoSpace (c ∷ cs) done word h =
      ap (λ st. field_run u st cs) (step h.0)
      ∙ field_run-NoSpace cs done (word ++ c ∷ []) h.1
      ∙ rw append_assoc
    where
      step : is_space u c ≡ false → field_step u (done, word) c ≡ (done, word ++ c ∷ [])
      step e = unfold field_step in rw e

  fields-word : (w : Text) → IsWord u w → fields u w ≡ w ∷ []
  unfolding fields
  fields-word [] h = absurd (h.1 refl)
  fields-word (c ∷ cs) h =
      rw (field_run-NoSpace (c ∷ cs) [] [] (AllWordChars-NoSpace (c ∷ cs) h.0))
        (unfold field_end in refl)

  -- A name that is one word is one token, although the loop finds none.
  tokenize_trimmed-word : (w : Text) → IsWord u w → tokenize_trimmed u w ≡ w ∷ []
  unfolding tokenize_trimmed
  tokenize_trimmed-word [] h = absurd (h.1 refl)
  tokenize_trimmed-word (c ∷ cs) h =
      let read : token_run u (clean []) (c ∷ cs) ≡ record { builder = c ∷ cs; tokens = [] } =
        ap (token_run u (clean [])) (sym (append-nil (c ∷ cs)))
        ∙ token_run-word u (c ∷ cs) (clean []) [] h.0 in
      rw (read, fields-word (c ∷ cs) h)

  abbrev no_space : Text → Bool
  no_space [] = true
  no_space (c ∷ cs) = not (is_space u c) && no_space cs

  plain : (w : Text) → no_space w ≡ true → NoSpace w
  plain [] h = tt
  plain (c ∷ cs) h = ground (arith, plain cs)

  -- A text between two others, each free of spaces.
  NoSpace-between :
      (a b c : Text) → no_space a ≡ true → NoSpace b → NoSpace c → NoSpace (a ++ (b ++ c))
  NoSpace-between a b c ha hb hc = NoSpace-append a (b ++ c) (plain a ha) (NoSpace-append b c hb hc)

  NoSpace-print_int : (z : ℤ) → pos 0 ≤ℤ z → NoSpace (print_int z)
  NoSpace-print_int z h = AllWordChars-NoSpace (print_int z) (print_int-IsWord u z h).0

  -- Words and marks hold no space.
  mutual
    unfolding name type_id_string is_space

    written-NoSpace : {t : DataType} → WellFormed (IsWord u) (IsScale u) t → NoSpace (written t)
    written-NoSpace (wf_primitive {code} h) =
        AllWordChars-NoSpace (type_id_string code) (type_id_string-IsWord u code).0
    written-NoSpace wf_json =
        AllWordChars-NoSpace (codes "JSON") (type_id_string-IsWord u TypeId.json).0
    written-NoSpace (wf_char {n} lo hi) =
        NoSpace-between (codes "CHAR(") (print_int n) (codes ")") refl
          (NoSpace-print_int n (omega arith)) (refl, tt)
    written-NoSpace (wf_varchar {n} lo hi) =
        NoSpace-between (codes "VARCHAR(") (print_int n) (codes ")") refl
          (NoSpace-print_int n (omega arith)) (refl, tt)
    written-NoSpace (wf_decimal {p} {s} hp hs) =
        NoSpace-between (codes "DECIMAL(") (print_int p) (codes "," ++ (print_int s ++ codes ")"))
          refl (NoSpace-print_int p hp.0)
          (NoSpace-between (codes ",") (print_int s) (codes ")") refl (NoSpace-print_int s hs.0)
            (refl, tt))
    written-NoSpace (wf_array {e} h) =
        NoSpace-between (codes "ARRAY<") (written e) (codes ">") refl (written-NoSpace h) (refl, tt)
    written-NoSpace (wf_map {k} {v} hk hv) =
        NoSpace-between (codes "MAP<") (written k) (codes "," ++ (written v ++ codes ">")) refl
          (written-NoSpace hk)
          (NoSpace-between (codes ",") (written v) (codes ">") refl (written-NoSpace hv) (refl, tt))
    written-NoSpace (wf_struct {fs} ne h) =
        NoSpace-between (codes "STRUCT<") (written_fields fs) (codes ">") refl
          (written_fields-NoSpace h) (refl, tt)

    written_fields-NoSpace :
        {fs : StructFields}
        → WellFormedFields (IsWord u) (IsScale u) fs
        → NoSpace (written_fields fs)
    written_fields-NoSpace wf_end = tt
    written_fields-NoSpace (wf_field {n} {t} hn ht wf_end) =
        NoSpace-append n (codes ":" ++ written t) (AllWordChars-NoSpace n hn.0)
          (refl, written-NoSpace ht)
    written_fields-NoSpace
          (wf_field {n} {t} hn ht (wf_field {n = n'} {t = t'} {fs = fs'} hn' ht' h)) =
        NoSpace-append n
          (codes ":" ++ (written t ++ (codes "," ++ written_fields (field n' t' fs'))))
          (AllWordChars-NoSpace n hn.0)
          (NoSpace-between (codes ":") (written t) (codes "," ++ written_fields (field n' t' fs'))
            refl (written-NoSpace ht) (refl, written_fields-NoSpace (wf_field hn' ht' h)))

  type_tokens-closed : (t : DataType) → IsClosed u t → is_empty (type_tokens t) ≡ false
  type_tokens-closed (primitive code) c = elim c [ ]
  type_tokens-closed json_type c = elim c [ ]
  type_tokens-closed t c = refl

  -- The tokens of a closed type are found by the loop, with any word behind it left out.
  tokenize_trimmed-closed :
      {t : DataType} (w : Text)
      → IsWritable u t
      → IsClosed u t
      → AllWordChars u w
      → tokenize_trimmed u (written t ++ w) ≡ type_tokens t
  unfolding tokenize_trimmed
  tokenize_trimmed-closed {t} w h c hw =
      let read : token_run u (clean []) (written t ++ w)
          ≡ record { builder = w; tokens = type_tokens t } =
        scan-closed u h c [] w
        ∙ ap (token_run u (clean (type_tokens t))) (sym (append-nil w))
        ∙ token_run-word u w (clean (type_tokens t)) [] hw in
      rw read (rw (type_tokens-closed t c))

  closed_tokens :
      {t : DataType}
      → IsWritable u t
      → IsClosed u t
      → tokenize_trimmed u (written t) ≡ type_tokens t
  closed_tokens {t} h c =
      ap (tokenize_trimmed u) (sym (append-nil (written t))) ∙ tokenize_trimmed-closed [] h c tt

  -- A word behind a closed type is dropped.
  pub tokenize-suffix :
      {t : DataType} (w : Text)
      → IsWritable u t
      → IsClosed u t
      → AllWordChars u w
      → tokenize u (written t ++ w) ≡ type_tokens t
  unfolding tokenize
  tokenize-suffix {t} w h c hw =
      rw
        (trim_space-NoSpace (written t ++ w)
          (NoSpace-append (written t) w (written-NoSpace h) (AllWordChars-NoSpace w hw)))
        (tokenize_trimmed-closed w h c hw)

  -- `tokenize` gives the tokens of every written type.
  pub tokenize-written : {t : DataType} → IsWritable u t → tokenize u (written t) ≡ type_tokens t
  unfolding tokenize name type_id_string
  tokenize-written {t} h = rw (trim_space-NoSpace (written t) (written-NoSpace h)) (go h)
    where
      go : {t : DataType} → IsWritable u t → tokenize_trimmed u (written t) ≡ type_tokens t
      go (wf_primitive {code} h) =
          tokenize_trimmed-word (type_id_string code) (type_id_string-IsWord u code)
      go wf_json = tokenize_trimmed-word (codes "JSON") (type_id_string-IsWord u TypeId.json)
      go h = closed_tokens h tt
