-- ===== src/Text/Unicode.antt =====
-- Package `unicode` and the functions of `strings` that stand on it. The code points below 128 are
-- written out; those above are looked up in tables.
use aliyun_odps_go_sdk.Prelude.{
  ℕ, ◌-◌, Bool, true, false, ◌&&◌, ◌||◌, List, [], ◌∷◌, ◌++◌, ltb, leb, ◌==◌, if◌then◌else◌,
}
use mathlib.Core.List.{reverse}
use aliyun_odps_go_sdk.Text.{Text}

-- The tables of package `unicode` from code point 128 on.
pub record Unicode : Type 0 where
  pub space : ℕ → Bool
  pub letter : ℕ → Bool
  pub digit : ℕ → Bool
  pub upper : ℕ → ℕ

abbrev within : ℕ → ℕ → ℕ → Bool
within lo hi c = leb lo c && leb c hi

abbrev pub is_empty {ℓ} : {A : Type ℓ} → List A → Bool
is_empty [] = true
is_empty (x ∷ xs) = false

module _ (u : Unicode) where
  unfoldable pub is_space : ℕ → Bool
  is_space c = if ltb c 128 then within 9 13 c || c == b' ' else u.space c

  unfoldable pub is_letter : ℕ → Bool
  is_letter c = if ltb c 128 then within b'a' b'z' c || within b'A' b'Z' c else u.letter c

  unfoldable pub is_digit : ℕ → Bool
  is_digit c = if ltb c 128 then within b'0' b'9' c else u.digit c

  unfoldable pub to_upper : ℕ → ℕ
  to_upper c = if ltb c 128 then (if within b'a' b'z' c then c - 32 else c) else u.upper c

  unfoldable pub trim_left : Text → Text
  unfolding is_space
  trim_left [] = []
  trim_left (c ∷ cs) = if is_space c then trim_left cs else c ∷ cs

  -- `strings.TrimSpace`
  unfoldable pub trim_space : Text → Text
  unfolding trim_left
  trim_space s = reverse (trim_left (reverse (trim_left s)))

  unfoldable pub field_step : List Text × Text → ℕ → List Text × Text
  unfolding is_space
  field_step (done, word) c =
      if is_space c
      then (if is_empty word then (done, []) else (done ++ word ∷ [], []))
      else (done, word ++ c ∷ [])

  unfoldable pub field_end : List Text × Text → List Text
  field_end (done, word) = if is_empty word then done else done ++ word ∷ []

  unfoldable pub field_run : List Text × Text → Text → List Text × Text
  unfolding field_step
  field_run st [] = st
  field_run st (c ∷ cs) = field_run (field_step st c) cs

  -- `strings.Fields`
  unfoldable pub fields : Text → List Text
  unfolding field_run field_end
  fields s = field_end (field_run ([], []) s)
