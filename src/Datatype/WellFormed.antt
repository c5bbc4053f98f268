-- ===== src/Datatype/WellFormed.antt =====
-- The data types that a type name can denote.
use aliyun_odps_go_sdk.Prelude.Int
use aliyun_odps_go_sdk.Prelude.Int.{ℤ, pos, ◌≤ℤ◌}
use aliyun_odps_go_sdk.Text.{Text}
use aliyun_odps_go_sdk.Datatype.{
  TypeId, DataType, StructFields, primitive, char_type, varchar_type, decimal_type, array_type,
  map_type, struct_type, json_type, no_fields, field,
}

-- The codes that `newPrimitive` is called with.
abbrev pub IsPrimitive : TypeId → Type 0
IsPrimitive TypeId.null = ⊥
IsPrimitive TypeId.array = ⊥
IsPrimitive TypeId.map = ⊥
IsPrimitive TypeId.struct = ⊥
IsPrimitive TypeId.char = ⊥
IsPrimitive TypeId.varchar = ⊥
IsPrimitive TypeId.decimal = ⊥
IsPrimitive TypeId.json = ⊥
IsPrimitive TypeId.type_unknown = ⊥
IsPrimitive code = Unit

abbrev pub IsInhabited : StructFields → Type 0
IsInhabited no_fields = ⊥
IsInhabited (field n t fs) = Unit

-- `N` holds of each field's name, and `D` of each precision and scale.
mutual
  pub data WellFormed (N : Text → Type 0) (D : ℤ → Type 0) : DataType → Type 0 where
    wf_primitive : {code : TypeId} → IsPrimitive code → WellFormed N D (primitive code)
    wf_char : {n : ℤ} → pos 1 ≤ℤ n → n ≤ℤ pos 255 → WellFormed N D (char_type n)
    wf_varchar : {n : ℤ} → pos 1 ≤ℤ n → n ≤ℤ pos 65535 → WellFormed N D (varchar_type n)
    wf_decimal : {p s : ℤ} → D p → D s → WellFormed N D (decimal_type p s)
    wf_array : {e : DataType} → WellFormed N D e → WellFormed N D (array_type e)
    wf_map : {k v : DataType} → WellFormed N D k → WellFormed N D v → WellFormed N D (map_type k v)
    wf_struct :
        {fs : StructFields}
        → IsInhabited fs
        → WellFormedFields N D fs
        → WellFormed N D (struct_type fs)
    wf_json : WellFormed N D json_type

  pub data WellFormedFields (N : Text → Type 0) (D : ℤ → Type 0) : StructFields → Type 0 where
    wf_end : WellFormedFields N D no_fields
    wf_field :
        {n : Text} {t : DataType} {fs : StructFields}
        → N n
        → WellFormed N D t
        → WellFormedFields N D fs
        → WellFormedFields N D (field n t fs)

abbrev pub IsInt32 : ℤ → Type 0
IsInt32 z = (Int.negsuc 2147483647 ≤ℤ z) × (z ≤ℤ pos 2147483647)

-- What `ParseDataType` can return.
abbrev pub IsAccepted : DataType → Type 0
IsAccepted = WellFormed (λ _. Unit) IsInt32
