-- ===== src/Data/Make.antt =====
-- odps/data/char.go: `MakeChar` and `MakeVarChar`; lengths are counted in bytes.
use aliyun_odps_go_sdk.Prelude.{ℕ, ◌≡◌, Option, none, some, [], arith, length, if◌then◌else◌}
use aliyun_odps_go_sdk.Prelude.Int.{ℤ, pos, ◌≤ℤ◌, ltb_ℤ}
use aliyun_odps_go_sdk.Words.{Bytes}
use aliyun_odps_go_sdk.Data.{Data, char, var_char}

pub data CharError : Type 0 where
  max_length : ℤ → CharError
  overflow : ℤ → ℕ → CharError

-- The value and the error that are returned; `Char{}` goes with an error.
unfoldable pub make_char : ℤ → Bytes → Data × Option CharError
make_char len bytes =
    if ltb_ℤ (pos 255) len
    then (char (pos 0) [], some (max_length len))
    else if ltb_ℤ len (pos (length bytes))
    then (char (pos 0) [], some (overflow len (length bytes)))
    else (char len bytes, none)

unfoldable pub make_var_char : ℤ → Bytes → Data × Option CharError
make_var_char len bytes =
    if ltb_ℤ (pos 65536) len
    then (var_char (pos 0) [], some (max_length len))
    else if ltb_ℤ len (pos (length bytes))
    then (var_char (pos 0) [], some (overflow len (length bytes)))
    else (var_char len bytes, none)

pub make_char_fits :
    (len : ℤ) (bytes : Bytes)
    → len ≤ℤ pos 255
    → pos (length bytes) ≤ℤ len
    → make_char len bytes ≡ (char len bytes, none)
unfolding make_char
make_char_fits len bytes h k = ground arith

pub make_var_char_fits :
    (len : ℤ) (bytes : Bytes)
    → len ≤ℤ pos 65536
    → pos (length bytes) ≤ℤ len
    → make_var_char len bytes ≡ (var_char len bytes, none)
unfolding make_var_char
make_var_char_fits len bytes h k = ground arith
