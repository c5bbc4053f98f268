-- ===== src/Datatype/Tokens.antt =====
-- `tokenize` of odps/datatype/data_type_parser.go.
use aliyun_odps_go_sdk.Prelude.{ℕ, Bool, not, ◌&&◌, ◌||◌, List, [], ◌∷◌, ◌++◌, ◌==◌, if◌then◌else◌}
use aliyun_odps_go_sdk.Text.{Text}
use aliyun_odps_go_sdk.Text.Unicode.{
  Unicode, is_empty, is_space, is_letter, is_digit, trim_space, fields,
}

-- The variables of the loop of `tokenize`.
pub record Tokenizer : Type 0 where
  pub builder : Text
  pub tokens : List Text

-- `if tokenBuilder.Len() > 0 { … }`: the word read so far becomes a token.
abbrev pub flush : Tokenizer → List Text
flush st = if is_empty st.builder then st.tokens else st.tokens ++ st.builder ∷ []

abbrev pub clean : List Text → Tokenizer
clean ts = record { builder = []; tokens = ts }

module _ (u : Unicode) where
  unfoldable pub is_identifier_char : ℕ → Bool
  unfolding is_digit is_letter
  is_identifier_char c = is_digit u c || is_letter u c || c == b'_' || c == b'.'

  -- One round of the loop.
  unfoldable pub token_step : Tokenizer → ℕ → Tokenizer
  unfolding is_identifier_char is_space
  token_step st c =
      if is_space u c
      then st
      else if is_identifier_char c
      then record st { builder = st.builder ++ c ∷ [] }
      else clean (flush st ++ (c ∷ []) ∷ [])

  abbrev pub token_run : Tokenizer → Text → Tokenizer
  token_run st [] = st
  token_run st (c ∷ cs) = token_run (token_step st c) cs

  -- The body of `tokenize` behind the trimming.
  unfoldable pub tokenize_trimmed : Text → List Text
  tokenize_trimmed name =
      let tokens = (token_run (clean []) name).tokens in
      if is_empty tokens && not (is_empty name) then tokens ++ fields u name else tokens

  unfoldable pub tokenize : Text → List Text
  tokenize name = tokenize_trimmed (trim_space u name)
