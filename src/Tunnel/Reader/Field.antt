-- ===== src/Tunnel/Reader/Field.antt =====
-- `readField`, `readArray`, `readMap` and `readStruct` of odps/tunnel/record_protoc_reader.go.
pub mod Total
use aliyun_odps_go_sdk.Prelude.{
  ℕ, zero, suc, ◌+◌, ◌*◌, Bool, true, false, not, Option, none, some, List, [], ◌∷◌, ◌==◌, ltb,
  ◌&&◌, ◌||◌, ◌%◌, ◌^◌, if◌then◌else◌,
}
use aliyun_odps_go_sdk.Prelude.Int.{ℤ, pos, ◌*ℤ◌, quot_ℤ, rem_ℤ, eqb_ℤ}
use aliyun_odps_go_sdk.Text.{Text, text_eq}
use aliyun_odps_go_sdk.Words.{Bytes, wrap, little_endian}
use aliyun_odps_go_sdk.Outcome
use aliyun_odps_go_sdk.Outcome.{
  Outcome, ok, err, panic, out_of_fuel, type_assertion, unhashable_key,
}
use aliyun_odps_go_sdk.Datatype.{
  TypeId, DataType, StructFields, primitive, char_type, varchar_type, decimal_type, array_type,
  map_type, struct_type, json_type, no_fields, field,
}
use aliyun_odps_go_sdk.Data
use aliyun_odps_go_sdk.Data.{
  Data, Cell, Items, Entries, Members, absent, present, nil, cons, no_entries, entry, no_members,
  member,
}
use aliyun_odps_go_sdk.Data.Instant.{Time, IntervalDayTime, unix_time, new_interval_day_time}
use aliyun_odps_go_sdk.Data.Make.{make_char, make_var_char}
use aliyun_odps_go_sdk.Tunnel.Protowire.{Protowire}
use aliyun_odps_go_sdk.Tunnel.Crc.{crc_update}
use aliyun_odps_go_sdk.Tunnel.StreamReader.{
  StreamReader, ReadError, map_error, S, read_bool, read_bytes, read_sint32, read_sint64,
  read_uint32, read_fixed32, read_fixed64,
}
use aliyun_odps_go_sdk.Tunnel.Writer.{Column, bytes_64, bytes_32, count_items}

-- `RecordProtocReader`
pub record RecordReader : Type 0 where
  pub stream : StreamReader
  pub columns : List Column
  pub record_crc : ℕ
  pub crc_of_crc : ℕ
  pub count : ℤ

abbrev pub M : Type 0 → Type 0
M A = RecordReader → Outcome RecordReader ReadError A

infixl 5 ◌>>=◌ ◌>>◌
abbrev pub ◌>>=◌ : {A B : Type 0} → M A → (A → M B) → M B
◌>>=◌ m f r = Outcome.bind (m r) f

abbrev pub ◌>>◌ : {B : Type 0} → M (Unit {0}) → M B → M B
m >> k = m >>= λ _. k

abbrev pub return : {A : Type 0} → A → M A
return a r = ok a r

abbrev pub throw : {A : Type 0} → ReadError → M A
throw e r = err e r

-- A call of the stream reader, and a call of a function without state.
abbrev pub with_stream :
    {A : Type 0}
    → RecordReader
    → Outcome StreamReader ReadError A
    → Outcome RecordReader ReadError A
with_stream r (ok a s) = ok a (record r { stream = s })
with_stream r (err e s) = err e (record r { stream = s })
with_stream r (panic p) = panic p
with_stream r out_of_fuel = out_of_fuel

abbrev pub get : {A : Type 0} → S A → M A
get m r = with_stream r (m r.stream)

abbrev pub call : {A : Type 0} → Outcome (Unit {0}) ⊥ A → M A
call (ok a _) r = ok a r
call (err e _) r = absurd e
call (panic p) r = panic p
call out_of_fuel r = out_of_fuel

abbrev pub update_crc : Bytes → M (Unit {0})
update_crc bytes r = ok tt (record r { record_crc = crc_update r.record_crc bytes })

-- `==` of Go on two values behind a `data.Data`, as the keys of a map are compared. Arrays, maps,
-- structs, decimals and JSON texts are read into fresh objects and compared by address. A NaN is
-- not equal to itself, and the two zeros are equal.
abbrev float_eq : ℕ → ℕ → ℕ → ℕ → Bool
float_eq sign infinity a b =
    not (ltb infinity (a % sign)) && (a == b || (a % sign == 0 && b % sign == 0))

abbrev bytes_eq : Bytes → Bytes → Bool
bytes_eq = text_eq

abbrev time_eq : Time → Time → Bool
time_eq s t = eqb_ℤ s.unix t.unix && s.nanosecond == t.nanosecond

abbrev bool_eq : Bool → Bool → Bool
bool_eq true b = b
bool_eq false b = not b

unfoldable pub data_eq : Data → Data → Bool
unfolding text_eq
data_eq Data.null Data.null = true
data_eq (Data.bool a) (Data.bool b) = bool_eq a b
data_eq (Data.tiny_int a) (Data.tiny_int b) = eqb_ℤ a b
data_eq (Data.small_int a) (Data.small_int b) = eqb_ℤ a b
data_eq (Data.int a) (Data.int b) = eqb_ℤ a b
data_eq (Data.big_int a) (Data.big_int b) = eqb_ℤ a b
data_eq (Data.interval_year_month a) (Data.interval_year_month b) = eqb_ℤ a b
data_eq (Data.float a) (Data.float b) = float_eq (2 ^ 31) 0x7f800000 a b
data_eq (Data.double a) (Data.double b) = float_eq (2 ^ 63) 0x7ff0000000000000 a b
data_eq (Data.string a) (Data.string b) = bytes_eq a b
data_eq (Data.char n a) (Data.char m b) = eqb_ℤ n m && bytes_eq a b
data_eq (Data.var_char n a) (Data.var_char m b) = eqb_ℤ n m && bytes_eq a b
data_eq (Data.date a) (Data.date b) = time_eq a b
data_eq (Data.date_time a) (Data.date_time b) = time_eq a b
data_eq (Data.timestamp a) (Data.timestamp b) = time_eq a b
data_eq (Data.timestamp_ntz a) (Data.timestamp_ntz b) = time_eq a b
data_eq (Data.interval_day_time a) (Data.interval_day_time b) =
    eqb_ℤ a.total_seconds b.total_seconds && eqb_ℤ a.nanos b.nanos
data_eq a b = false

unfoldable pub key_eq : Cell → Cell → Bool
unfolding data_eq
key_eq absent absent = true
key_eq (present a) (present b) = data_eq a b
key_eq a b = false

-- Byte slices cannot be hashed.
unfoldable pub is_hashable : Cell → Bool
is_hashable (present (Data.binary b)) = false
is_hashable (present (Data.geography b)) = false
is_hashable c = true

-- `m.data[key] = value`; a key that is equal to the new one is replaced too, as Go does for keys of an
-- interface type (+0 and -0).
unfoldable pub set_entry : Cell → Cell → Entries → Entries
unfolding key_eq
set_entry k v no_entries = entry k v no_entries
set_entry k v (entry k' v' es) =
    if key_eq k k' then entry k v es else entry k' v' (set_entry k v es)

-- `SetField`: a field of the name is overwritten, a new one goes to the end.
unfoldable pub set_field : Text → Cell → Members → Members
unfolding text_eq
set_field n c no_members = member n c no_members
set_field n c (member n' c' ms) =
    if text_eq n n' then member n' c ms else member n' c' (set_field n c ms)

-- The loop of `readMap` over the keys and the values, which are as many.
unfoldable pub fill_map : Items → Items → Entries → M Entries
unfolding is_hashable set_entry
fill_map (cons k ks) (cons v vs) es r =
    let rest = fill_map ks vs (set_entry k v es) r in
    if is_hashable k then rest else panic unhashable_key
fill_map ks vs es r = ok es r

-- The end of `readMap`, over the keys and the values.
unfoldable pub pair_up : Items → Items → M Entries
unfolding fill_map
pair_up ks vs r =
    if count_items ks == count_items vs then fill_map ks vs no_entries r else err map_error r

-- An element behind its null flag.
abbrev pub flagged : M Cell → Bool → M Cell
flagged value true = return absent
flagged value false = value

-- `time.Unix(v / 1000, (v % 1000) * 1000_000)`
abbrev pub from_milliseconds : ℤ → Time
from_milliseconds v = unix_time (quot_ℤ v 1000) (rem_ℤ v 1000 *ℤ pos 1_000_000)

-- `epochDay.AddDate(0, 0, int(v))`
abbrev pub from_days : ℤ → Time
from_days v = record { unix = v *ℤ pos 86_400; nanosecond = 0 }

module _ (w : Protowire) where
  -- The loop of `readArray`.
  unfoldable pub read_cells : M Cell → ℕ → M Items
  unfolding read_bool
  read_cells value zero = return nil
  read_cells value (suc n) = do
    b ← get (read_bool w)
    c ← flagged value b
    xs ← read_cells value n
    return (cons c xs)

  unfoldable pub read_array : M Cell → M Items
  unfolding read_cells read_uint32
  read_array value = do n ← get (read_uint32 w); read_cells value n

  unfoldable pub read_map : DataType → DataType → M Cell → M Cell → M Cell
  unfolding read_array pair_up
  read_map kt vt key value = do
    ks ← read_array key
    vs ← read_array value
    es ← pair_up ks vs
    return (present (Data.map (some kt) (some vt) es))

  unfoldable pub read_integer : (ℤ → Data) → M Cell
  unfolding read_sint64
  read_integer make = do z ← get (read_sint64 w); update_crc (bytes_64 z); return (present (make z))

  unfoldable pub read_binary : (Bytes → Data) → M Cell
  unfolding read_bytes
  read_binary make = do b ← get (read_bytes w); update_crc b; return (present (make b))

  -- `dt.(datatype.VarcharType)` of another Go type stops the program behind the read.
  unfoldable pub read_binary_panic : M Cell
  unfolding read_bytes
  read_binary_panic = do b ← get (read_bytes w); update_crc b; λ r. panic type_assertion

  unfoldable pub read_seconds : M (ℤ × ℤ)
  unfolding read_sint64 read_sint32
  read_seconds = do
    seconds ← get (read_sint64 w)
    nanos ← get (read_sint32 w)
    update_crc (bytes_64 seconds)
    update_crc (bytes_32 nanos)
    return (seconds, nanos)

  -- The cases of `readField` for the ids of primitive types. An id with no case leaves a nil value.
  unfoldable pub read_primitive : TypeId → M Cell
  unfolding read_integer read_binary read_binary_panic read_seconds read_fixed64 read_fixed32
      read_bool
  read_primitive TypeId.double = do
    bits ← get (read_fixed64 w)
    update_crc (little_endian 8 bits)
    return (present (Data.double bits))
  read_primitive TypeId.float = do
    bits ← get (read_fixed32 w)
    update_crc (little_endian 4 bits)
    return (present (Data.float bits))
  read_primitive TypeId.boolean = do
    b ← get (read_bool w)
    update_crc ((if b then 1 else 0) ∷ [])
    return (present (Data.bool b))
  read_primitive TypeId.bigint = read_integer Data.big_int
  read_primitive TypeId.interval_year_month =
      read_integer (λ z. Data.interval_year_month (wrap 32 z))
  read_primitive TypeId.int = read_integer (λ z. Data.int (wrap 32 z))
  read_primitive TypeId.smallint = read_integer (λ z. Data.small_int (wrap 16 z))
  read_primitive TypeId.tinyint = read_integer (λ z. Data.tiny_int (wrap 8 z))
  read_primitive TypeId.string = read_binary Data.string
  read_primitive TypeId.varchar = read_binary_panic
  read_primitive TypeId.char = read_binary_panic
  read_primitive TypeId.binary = read_binary Data.binary
  read_primitive TypeId.datetime = read_integer (λ z. Data.date_time (from_milliseconds z))
  read_primitive TypeId.date = read_integer (λ z. Data.date (from_days z))
  read_primitive TypeId.interval_day_time = do
    (seconds, nanos) ← read_seconds
    i ← call (new_interval_day_time seconds nanos)
    return (present (Data.interval_day_time i))
  read_primitive TypeId.timestamp = do
    (seconds, nanos) ← read_seconds
    return (present (Data.timestamp (unix_time seconds nanos)))
  read_primitive TypeId.timestamp_ntz = do
    (seconds, nanos) ← read_seconds
    return (present (Data.timestamp_ntz (unix_time seconds nanos)))
  read_primitive TypeId.decimal = read_binary_panic
  read_primitive TypeId.array = λ r. panic type_assertion
  read_primitive TypeId.map = λ r. panic type_assertion
  read_primitive TypeId.struct = λ r. panic type_assertion
  read_primitive TypeId.json = read_binary Data.json
  read_primitive TypeId.geography = read_binary Data.geography
  read_primitive code = return absent

  -- `readField`; `read_members` is the loop of `readStruct`.
  unfoldable mutual
    unfolding read_binary

    pub read_field : DataType → M Cell
    read_field (primitive code) = read_primitive code
    read_field (char_type n) = read_binary (λ b. (make_char n b).0)
    read_field (varchar_type n) = read_binary (λ b. (make_var_char n b).0)
    read_field (decimal_type p s) = read_binary (λ b. Data.decimal p s b)
    read_field (array_type e) = do
      xs ← read_array (read_field e)
      return (present (Data.array (some e) xs))
    read_field (map_type k v) = read_map k v (read_field k) (read_field v)
    read_field (struct_type fs) = do
      ms ← read_members fs no_members
      return (present (Data.struct fs ms))
    read_field json_type = read_binary Data.json

    pub read_members : StructFields → Members → M Members
    read_members no_fields ms = return ms
    read_members (field n t fs) ms = do
      b ← get (read_bool w)
      c ← flagged (read_field t) b
      read_members fs (set_field n c ms)
