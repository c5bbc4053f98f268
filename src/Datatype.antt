-- ===== src/Datatype.antt =====
-- odps/datatype/data_type.go: type codes, data types and their names.
mod Tests
pub mod Tokens
pub mod Parser
pub mod WellFormed
pub mod Total
pub mod Written
pub mod Scan
pub mod Tokenized
pub mod RoundTrip
pub mod Quoted
pub mod Equal
use aliyun_odps_go_sdk.Prelude.{
  ℕ, Bool, true, false, Option, none, some, List, [], ◌∷◌, ◌++◌, map as map_list, if◌then◌else◌,
}
use aliyun_odps_go_sdk.Prelude.Int.{ℤ}
use aliyun_odps_go_sdk.Text.{Text, codes, text_eq}
use aliyun_odps_go_sdk.Text.Decimal.{print_int}
use aliyun_odps_go_sdk.Text.Unicode.{Unicode, to_upper}

pub data TypeId : Type 0 where
  null bigint double boolean datetime string decimal map array void : TypeId
  tinyint smallint int float char varchar date timestamp timestamp_ntz : TypeId
  binary interval_day_time interval_year_month struct json geography : TypeId
  type_unknown : TypeId

-- A Go `DataType` value: one constructor for each type that implements the interface, with parts that
-- are not nil.
mutual
  pub data DataType : Type 0 where
    primitive : TypeId → DataType
    char_type : ℤ → DataType
    varchar_type : ℤ → DataType
    decimal_type : ℤ → ℤ → DataType
    array_type : DataType → DataType
    map_type : DataType → DataType → DataType
    struct_type : StructFields → DataType
    json_type : DataType

  pub data StructFields : Type 0 where
    no_fields : StructFields
    field : Text → DataType → StructFields → StructFields

-- The cases of the switch of `TypeCodeFromStr`, in their order.
abbrev pub type_codes : List (Text × TypeId)
type_codes =
    (codes "BIGINT", bigint)
    ∷ (codes "DOUBLE", double)
    ∷ (codes "BOOLEAN", boolean)
    ∷ (codes "DATETIME", datetime)
    ∷ (codes "STRING", string)
    ∷ (codes "DECIMAL", decimal)
    ∷ (codes "MAP", TypeId.map)
    ∷ (codes "ARRAY", array)
    ∷ (codes "VOID", void)
    ∷ (codes "TINYINT", tinyint)
    ∷ (codes "SMALLINT", smallint)
    ∷ (codes "INT", int)
    ∷ (codes "FLOAT", float)
    ∷ (codes "CHAR", char)
    ∷ (codes "VARCHAR", varchar)
    ∷ (codes "DATE", date)
    ∷ (codes "TIMESTAMP", timestamp)
    ∷ (codes "TIMESTAMP_NTZ", timestamp_ntz)
    ∷ (codes "BINARY", binary)
    ∷ (codes "INTERVAL_DAY_TIME", interval_day_time)
    ∷ (codes "INTERVAL_YEAR_MONTH", interval_year_month)
    ∷ (codes "STRUCT", struct)
    ∷ (codes "JSON", json)
    ∷ (codes "GEOGRAPHY", geography)
    ∷ []

unfoldable pub switch : Text → List (Text × TypeId) → TypeId
unfolding text_eq
switch s [] = type_unknown
switch s ((t, code) ∷ cases) = if text_eq s t then code else switch s cases

unfoldable pub type_code_from_str : Unicode → Text → TypeId
unfolding switch to_upper
type_code_from_str u s = switch (map_list (to_upper u) s) type_codes

unfoldable pub type_id_string : TypeId → Text
type_id_string bigint = codes "BIGINT"
type_id_string double = codes "DOUBLE"
type_id_string boolean = codes "BOOLEAN"
type_id_string datetime = codes "DATETIME"
type_id_string string = codes "STRING"
type_id_string decimal = codes "DECIMAL"
type_id_string map = codes "MAP"
type_id_string array = codes "ARRAY"
type_id_string void = codes "VOID"
type_id_string tinyint = codes "TINYINT"
type_id_string smallint = codes "SMALLINT"
type_id_string int = codes "INT"
type_id_string float = codes "FLOAT"
type_id_string char = codes "CHAR"
type_id_string varchar = codes "VARCHAR"
type_id_string date = codes "DATE"
type_id_string timestamp = codes "TIMESTAMP"
type_id_string timestamp_ntz = codes "TIMESTAMP_NTZ"
type_id_string binary = codes "BINARY"
type_id_string interval_day_time = codes "INTERVAL_DAY_TIME"
type_id_string interval_year_month = codes "INTERVAL_YEAR_MONTH"
type_id_string struct = codes "STRUCT"
type_id_string json = codes "JSON"
type_id_string geography = codes "GEOGRAPHY"
type_id_string null = codes "TYPE_UNKNOWN"
type_id_string type_unknown = codes "TYPE_UNKNOWN"

-- `DataType.ID`
unfoldable pub id : DataType → TypeId
id (primitive code) = code
id (char_type n) = char
id (varchar_type n) = varchar
id (decimal_type p s) = decimal
id (array_type e) = array
id (map_type k v) = map
id (struct_type fs) = struct
id json_type = json

-- `common.QuoteRef`
unfoldable pub quote_ref : Text → Text
quote_ref ref = codes "`" ++ (ref ++ codes "`")

-- `DataType.Name`; `field_names` is the loop of `StructType.Name`.
unfoldable mutual
  pub name : DataType → Text
  name (primitive code) = type_id_string code
  name (char_type n) = type_id_string char ++ (codes "(" ++ (print_int n ++ codes ")"))
  name (varchar_type n) = type_id_string varchar ++ (codes "(" ++ (print_int n ++ codes ")"))
  name (decimal_type p s) =
      type_id_string decimal
      ++ (codes "(" ++ (print_int p ++ (codes "," ++ (print_int s ++ codes ")"))))
  name (array_type e) = type_id_string array ++ (codes "<" ++ (name e ++ codes ">"))
  name (map_type k v) =
      type_id_string map ++ (codes "<" ++ (name k ++ (codes "," ++ (name v ++ codes ">"))))
  name (struct_type fs) = type_id_string struct ++ (codes "<" ++ (field_names fs ++ codes ">"))
  name json_type = type_id_string json

  pub field_names : StructFields → Text
  field_names no_fields = []
  field_names (field n t no_fields) = quote_ref n ++ (codes ":" ++ name t)
  field_names (field n t fs) =
      quote_ref n ++ (codes ":" ++ (name t ++ (codes "," ++ field_names fs)))
