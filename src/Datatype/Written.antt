-- ===== src/Datatype/Written.antt =====
-- Type names as the service writes them, in which the fields of a struct stand without quotes.
use aliyun_odps_go_sdk.Prelude.{ℕ, ◌≡◌, ◌≢◌, refl, true, false, [], ◌∷◌, ◌++◌}
use aliyun_odps_go_sdk.Prelude.Int.{ℤ, pos, ◌≤ℤ◌}
use aliyun_odps_go_sdk.Text.{Text, codes}
use aliyun_odps_go_sdk.Text.Unicode.{Unicode, is_space}
use aliyun_odps_go_sdk.Datatype.{
  TypeId, DataType, StructFields, primitive, char_type, varchar_type, decimal_type, array_type,
  map_type, struct_type, json_type, no_fields, field, type_id_string, name,
}
use aliyun_odps_go_sdk.Datatype.Tokens.{is_identifier_char}
use aliyun_odps_go_sdk.Datatype.WellFormed.{WellFormed}

-- `STRUCT<name:type,…>`; all else is `DataType.Name`.
abbrev mutual
  pub written : DataType → Text
  written (primitive code) = name (primitive code)
  written (char_type n) = name (char_type n)
  written (varchar_type n) = name (varchar_type n)
  written (decimal_type p s) = name (decimal_type p s)
  written (array_type e) = type_id_string TypeId.array ++ (codes "<" ++ (written e ++ codes ">"))
  written (map_type k v) =
      type_id_string TypeId.map
      ++ (codes "<" ++ (written k ++ (codes "," ++ (written v ++ codes ">"))))
  written (struct_type fs) =
      type_id_string TypeId.struct ++ (codes "<" ++ (written_fields fs ++ codes ">"))
  written json_type = name json_type

  pub written_fields : StructFields → Text
  written_fields no_fields = []
  written_fields (field n t no_fields) = n ++ (codes ":" ++ written t)
  written_fields (field n t fs) =
      n ++ (codes ":" ++ (written t ++ (codes "," ++ written_fields fs)))

-- No struct stands anywhere in the type.
abbrev pub IsStructFree : DataType → Type 0
IsStructFree (array_type e) = IsStructFree e
IsStructFree (map_type k v) = IsStructFree k × IsStructFree v
IsStructFree (struct_type fs) = ⊥
IsStructFree t = Unit

pub name-written : (t : DataType) → IsStructFree t → name t ≡ written t
unfolding name
name-written (array_type e) h = rw (name-written e h)
name-written (map_type k v) h = rw (name-written k h.0, name-written v h.1)
name-written (struct_type fs) h = elim h [ ]
name-written t h = refl

module _ (u : Unicode) where
  -- A character of a name: neither a space nor a mark.
  abbrev pub IsWordChar : ℕ → Type 0
  IsWordChar c = (is_space u c ≡ false) × (is_identifier_char u c ≡ true)

  abbrev pub AllWordChars : Text → Type 0
  AllWordChars [] = Unit
  AllWordChars (c ∷ cs) = IsWordChar c × AllWordChars cs

  -- A name that is a token of its own.
  abbrev pub IsWord : Text → Type 0
  IsWord w = AllWordChars w × (w ≢ [])

  -- A precision or scale that is printed as one token.
  abbrev pub IsScale : ℤ → Type 0
  IsScale z = (pos 0 ≤ℤ z) × (z ≤ℤ pos 2147483647)

  -- The types that `ParseDataType` reads back.
  abbrev pub IsWritable : DataType → Type 0
  IsWritable = WellFormed IsWord IsScale
