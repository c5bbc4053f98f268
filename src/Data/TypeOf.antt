-- ===== src/Data/TypeOf.antt =====
-- The methods `Type` of the values of odps/data.
use aliyun_odps_go_sdk.Prelude.{refl, Bool, false, Option, none, some}
use aliyun_odps_go_sdk.Datatype.{
  TypeId, DataType, primitive, char_type, varchar_type, decimal_type, array_type, map_type,
  struct_type, json_type, id,
}
use aliyun_odps_go_sdk.Datatype.Equal.{id_eq, is_type_equal}
use aliyun_odps_go_sdk.Datatype.Equal.Total.{Decides, is_type_equal-Decides}
use aliyun_odps_go_sdk.Data.{Data}

abbrev pub array_of : Option DataType → Option DataType
array_of none = none
array_of (some t) = some (array_type t)

abbrev pub map_of : Option DataType → Option DataType → Option DataType
map_of (some k) (some v) = some (map_type k v)
map_of _ _ = none

-- `Type`; `none` is the type of an array or a map that was made with no type, which holds nil.
unfoldable pub type_of : Data → Option DataType
type_of Data.null = some (primitive TypeId.null)
type_of (Data.bool b) = some (primitive TypeId.boolean)
type_of (Data.tiny_int z) = some (primitive TypeId.tinyint)
type_of (Data.small_int z) = some (primitive TypeId.smallint)
type_of (Data.int z) = some (primitive TypeId.int)
type_of (Data.big_int z) = some (primitive TypeId.bigint)
type_of (Data.float bits) = some (primitive TypeId.float)
type_of (Data.double bits) = some (primitive TypeId.double)
type_of (Data.string bytes) = some (primitive TypeId.string)
type_of (Data.binary bytes) = some (primitive TypeId.binary)
type_of (Data.geography bytes) = some (primitive TypeId.geography)
type_of (Data.json text) = some json_type
type_of (Data.char len bytes) = some (char_type len)
type_of (Data.var_char len bytes) = some (varchar_type len)
type_of (Data.date t) = some (primitive TypeId.date)
type_of (Data.date_time t) = some (primitive TypeId.datetime)
type_of (Data.timestamp t) = some (primitive TypeId.timestamp)
type_of (Data.timestamp_ntz t) = some (primitive TypeId.timestamp_ntz)
type_of (Data.interval_day_time i) = some (primitive TypeId.interval_day_time)
type_of (Data.interval_year_month z) = some (primitive TypeId.interval_year_month)
type_of (Data.decimal p s value) = some (decimal_type p s)
type_of (Data.array t xs) = array_of t
type_of (Data.map k v es) = map_of k v
type_of (Data.struct fs ms) = some (struct_type fs)

-- `IsTypeEqual` of what the methods `Type` give. A type that holds nil is that of an array or a map; it
-- equals the null type only.
unfoldable pub types_equal : Option DataType → Option DataType → Option Bool
unfolding is_type_equal
types_equal (some t) (some t') = is_type_equal t t'
types_equal none (some t') = some (id_eq (id t') TypeId.null)
types_equal (some t) none = some (id_eq (id t) TypeId.null)
types_equal none none = some false

-- `Type().ID()`, which reads no part of the type.
unfoldable pub id_of : Data → TypeId
id_of Data.null = TypeId.null
id_of (Data.bool b) = TypeId.boolean
id_of (Data.tiny_int z) = TypeId.tinyint
id_of (Data.small_int z) = TypeId.smallint
id_of (Data.int z) = TypeId.int
id_of (Data.big_int z) = TypeId.bigint
id_of (Data.float bits) = TypeId.float
id_of (Data.double bits) = TypeId.double
id_of (Data.string bytes) = TypeId.string
id_of (Data.binary bytes) = TypeId.binary
id_of (Data.geography bytes) = TypeId.geography
id_of (Data.json text) = TypeId.json
id_of (Data.char len bytes) = TypeId.char
id_of (Data.var_char len bytes) = TypeId.varchar
id_of (Data.date t) = TypeId.date
id_of (Data.date_time t) = TypeId.datetime
id_of (Data.timestamp t) = TypeId.timestamp
id_of (Data.timestamp_ntz t) = TypeId.timestamp_ntz
id_of (Data.interval_day_time i) = TypeId.interval_day_time
id_of (Data.interval_year_month z) = TypeId.interval_year_month
id_of (Data.decimal p s value) = TypeId.decimal
id_of (Data.array t xs) = TypeId.array
id_of (Data.map k v es) = TypeId.map
id_of (Data.struct fs ms) = TypeId.struct

-- The comparison has an answer.
pub types_equal-Decides : (o o' : Option DataType) → Decides (types_equal o o')
unfolding types_equal
types_equal-Decides (some t) (some t') = is_type_equal-Decides t t'
types_equal-Decides none (some t') = (id_eq (id t') TypeId.null, refl)
types_equal-Decides (some t) none = (id_eq (id t) TypeId.null, refl)
types_equal-Decides none none = (false, refl)
