-- ===== src/Data/Composite/Structs.antt =====
-- odps/data/struct.go.
pub mod Indexed
use aliyun_odps_go_sdk.Prelude.{
  ℕ, zero, suc, ◌+◌, ◌<◌, ◌≡◌, ◌≢◌, refl, sym, ap, ◌∙◌, Bool, true, false, Option, none, some, List,
  [], ◌∷◌, ◌++◌, arith, length, get_elem?, ◌==◌, if◌then◌else◌, Bool-cases, inl, inr,
}
use aliyun_odps_go_sdk.Text.{Text, text_eq, text_eq_refl}
use aliyun_odps_go_sdk.Outcome
use aliyun_odps_go_sdk.Outcome.{
  Outcome, ok, err, panic, out_of_fuel, nil_dereference, index_out_of_range,
}
use aliyun_odps_go_sdk.Datatype.{DataType, StructFields, no_fields, field, struct_type}
use aliyun_odps_go_sdk.Data.{Data, Cell, absent, present}
use aliyun_odps_go_sdk.Data.TypeOf.{type_of, types_equal}
use aliyun_odps_go_sdk.Data.Composite.{
  ValueError, type_not_set, type_differs, is_empty_value, no_such_field, if_equal,
}

-- `StructField`
pub record StructField : Type 0 where
  pub name : Text
  pub value : Cell

-- `Struct`; `type_fields` is `typ.Fields`, which may be nil, and the map of indexes is a list with the
-- entry of a name that was set last at its first place.
pub record Struct : Type 0 where
  pub type_fields : Option StructFields
  pub fields : List StructField
  pub field_indexes : List (Text × ℕ)
  pub valid : Bool

-- `NewStruct`, `NewStructWithTyp`
unfoldable pub new_struct : Struct
new_struct = record { type_fields = none; fields = []; field_indexes = []; valid = false }

unfoldable pub new_struct_with_typ : Option StructFields → Struct
new_struct_with_typ fs = record { type_fields = fs; fields = []; field_indexes = []; valid = true }

-- `s.fieldIndexes[fieldName]`
unfoldable pub index_of : Text → List (Text × ℕ) → Option ℕ
index_of n [] = none
index_of n ((n', i) ∷ rest) = if text_eq n n' then some i else index_of n rest

-- `s.fields[i]`
abbrev pub value_at : Option StructField → Struct → Outcome Struct ValueError Cell
value_at none s = panic index_out_of_range
value_at (some f) s = ok f.value s

abbrev pub field_at : Option ℕ → Struct → Outcome Struct ValueError Cell
field_at none s = ok absent s
field_at (some i) s = value_at (get_elem? s.fields i) s

-- `GetField`
unfoldable pub get_field : Text → Struct → Outcome Struct ValueError Cell
unfolding index_of
get_field n s = field_at (index_of n s.field_indexes) s

abbrev cons_to : StructField → Option (List StructField) → Option (List StructField)
cons_to g none = none
cons_to g (some fs) = some (g ∷ fs)

-- `s.fields[i] = …`; `none` is an index out of range.
unfoldable pub replace_at : ℕ → StructField → List StructField → Option (List StructField)
replace_at i f [] = none
replace_at zero f (g ∷ gs) = some (f ∷ gs)
replace_at (suc i) f (g ∷ gs) = cons_to g (replace_at i f gs)

abbrev pub with_fields : Option (List StructField) → Struct → Outcome Struct ValueError (Unit {0})
with_fields none s = panic index_out_of_range
with_fields (some fs) s = ok tt (record s { fields = fs })

-- The branches of `SetField` for a new name and for one with an index.
unfoldable pub set_at : Option ℕ → StructField → Struct → Outcome Struct ValueError (Unit {0})
unfolding replace_at
set_at none f s = ok tt (record s {
  fields = s.fields ++ f ∷ [];
  field_indexes = (f.name, length s.fields) ∷ s.field_indexes;
})
set_at (some i) f s = with_fields (replace_at i f s.fields) s

-- `SetField`
unfoldable pub set_named : Text → Cell → Struct → Outcome Struct ValueError (Unit {0})
unfolding set_at index_of
set_named n c s = set_at (index_of n s.field_indexes) (record { name = n; value = c }) s

-- The type of the first field of the name.
unfoldable pub type_of_field : Text → StructFields → Option DataType
type_of_field n no_fields = none
type_of_field n (field n' t fs) = if text_eq n' n then some t else type_of_field n fs

-- `SafeSetField` behind the lookup of the type; `Type` of a nil stops the program.
unfoldable pub set_checked :
    Option DataType → Text → Cell → Struct → Outcome Struct ValueError (Unit {0})
unfolding set_named types_equal
set_checked none n c s = err no_such_field s
set_checked (some t) n absent s = panic nil_dereference
set_checked (some t) n (present d) s =
    Outcome.bind (if_equal (types_equal (some t) (type_of d)) s) λ _. set_named n (present d)

unfoldable pub set_typed_field :
    Option StructFields → Text → Cell → Struct → Outcome Struct ValueError (Unit {0})
unfolding set_checked type_of_field
set_typed_field none n c s = err type_not_set s
set_typed_field (some fs) n c s = set_checked (type_of_field n fs) n c s

-- `SafeSetField`
unfoldable pub safe_set_field : Text → Cell → Struct → Outcome Struct ValueError (Unit {0})
unfolding set_typed_field
safe_set_field n c s = set_typed_field s.type_fields n c s

-- The reference: a list of fields by name, with no indexes.
abbrev pub next_place : Option ℕ → Option ℕ
next_place none = none
next_place (some i) = some (suc i)

abbrev pub find_place : Text → List StructField → Option ℕ
find_place n [] = none
find_place n (f ∷ fs) = if text_eq n f.name then some 0 else next_place (find_place n fs)

unfoldable pub get_by_name : Text → List StructField → Cell
get_by_name n [] = absent
get_by_name n (f ∷ fs) = if text_eq n f.name then f.value else get_by_name n fs

unfoldable pub set_by_name : StructField → List StructField → List StructField
set_by_name f [] = f ∷ []
set_by_name f (g ∷ gs) = if text_eq f.name g.name then f ∷ gs else g ∷ set_by_name f gs

-- The indexes are those of the fields.
abbrev pub IsIndexed : Struct → Type 0
IsIndexed s = (n : Text) → index_of n s.field_indexes ≡ find_place n s.fields
