-- ===== src/Tunnel/Writer.antt =====
-- odps/tunnel/record_protoc_writer.go.
pub mod Closed
use aliyun_odps_go_sdk.Prelude.{
  ℕ, suc, ◌+◌, ◌/◌, Bool, true, false, Option, none, some, List, [], ◌∷◌, length, get_elem?, ltb,
  if◌then◌else◌,
}
use aliyun_odps_go_sdk.Prelude.Int.{ℤ, pos, ◌+ℤ◌, ◌*ℤ◌, quot_ℤ}
use aliyun_odps_go_sdk.Text.{Text}
use aliyun_odps_go_sdk.Words.{Bytes, to_word, wrap, little_endian}
use aliyun_odps_go_sdk.Outcome
use aliyun_odps_go_sdk.Outcome.{Outcome, ok, err, panic, index_out_of_range}
use aliyun_odps_go_sdk.Datatype.{TypeId, DataType, id, name}
use aliyun_odps_go_sdk.Data.{
  Data, Cell, Items, Entries, Members, Record, absent, present, nil, cons, no_entries, entry,
  no_members, member,
}
use aliyun_odps_go_sdk.Data.Instant.{Time}
use aliyun_odps_go_sdk.Tunnel.Protowire.{Protowire}
use aliyun_odps_go_sdk.Tunnel.Crc.{crc_update}
use aliyun_odps_go_sdk.Tunnel.StreamWriter.{
  write_tag, write_bytes, write_bool, write_int32, write_sint32, write_sint64, write_uint32,
  write_float32, write_float64,
}

-- `MetaCount`, `MetaChecksum` and `EndRecord` of protoc_common.go.
abbrev pub meta_count : ℕ
meta_count = 33554430

abbrev pub meta_checksum : ℕ
meta_checksum = 33554431

abbrev pub end_record : ℕ
end_record = 33553408

-- What a reader or writer uses of a `tableschema.Column`.
pub record Column : Type 0 where
  pub name : Text
  pub type : DataType

pub data WriteError : Type 0 where
  too_many_values : WriteError
  invalid_tag_type : Text → WriteError
  invalid_data_type : WriteError
  closed_twice : WriteError

-- `RecordProtocWriter`; `out` is what its buffer has taken.
pub record RecordWriter : Type 0 where
  pub out : Bytes
  pub columns : List Column
  pub record_crc : ℕ
  pub crc_of_crc : ℕ
  pub count : ℤ
  pub closed : Bool

-- `newRecordProtocWriter`
unfoldable pub new_record_writer : List Column → RecordWriter
new_record_writer columns = record {
  out = [];
  columns = columns;
  record_crc = 0;
  crc_of_crc = 0;
  count = pos 0;
  closed = false;
}

abbrev pub M : Type 0 → Type 0
M A = RecordWriter → Outcome RecordWriter WriteError A

infixl 5 ◌>>=◌ ◌>>◌
abbrev pub ◌>>=◌ : {A B : Type 0} → M A → (A → M B) → M B
◌>>=◌ m f r = Outcome.bind (m r) f

abbrev pub ◌>>◌ : {B : Type 0} → M (Unit {0}) → M B → M B
m >> k = m >>= λ _. k

abbrev pub throw : {A : Type 0} → WriteError → M A
throw e r = err e r

abbrev pub skip : M (Unit {0})
skip r = ok tt r

-- `r.recordCrc.Update(…)` on the bytes of its argument.
abbrev pub update_crc : Bytes → M (Unit {0})
update_crc bytes r = ok tt (record r { record_crc = crc_update r.record_crc bytes })

-- A call of the stream writer.
abbrev pub put : (Bytes → Bytes) → M (Unit {0})
put write r = ok tt (record r { out = write r.out })

-- `int64(val)` and `int32(val)` in little-endian bytes.
abbrev pub bytes_64 : ℤ → Bytes
bytes_64 z = little_endian 8 (to_word 64 z)

abbrev pub bytes_32 : ℤ → Bytes
bytes_32 z = little_endian 4 (to_word 32 z)

-- `unixSec*1e3 + int64(nanoSec)/1e6`
unfoldable pub milliseconds : Time → ℤ
milliseconds t = wrap 64 (t.unix *ℤ pos 1000 +ℤ pos (t.nanosecond / 1_000_000))

-- `t.Unix() / data.SecondsPerDay`
unfoldable pub days : Time → ℤ
days t = quot_ℤ t.unix 86_400

abbrev pub count_items : Items → ℕ
count_items nil = 0
count_items (cons c xs) = suc (count_items xs)

abbrev pub count_entries : Entries → ℕ
count_entries no_entries = 0
count_entries (entry k v es) = suc (count_entries es)

module _ (w : Protowire) where
  unfoldable pub write_integer : ℤ → M (Unit {0})
  write_integer z = do update_crc (bytes_64 z); put (λ out. write_sint64 w out z)

  unfoldable pub write_binary : Bytes → M (Unit {0})
  write_binary bytes = do update_crc bytes; put (λ out. write_bytes w out bytes)

  -- Seconds and nanoseconds, of a timestamp or an interval.
  unfoldable pub write_seconds : ℤ → ℤ → M (Unit {0})
  write_seconds seconds nanos = do
    update_crc (bytes_64 seconds)
    update_crc (bytes_32 nanos)
    put (λ out. write_sint64 w out seconds)
    put (λ out. write_sint32 w out nanos)

  -- `WriteInt32(int32(len(val)))`
  unfoldable pub write_count : ℕ → M (Unit {0})
  write_count n = put (λ out. write_int32 w out (wrap 32 (pos n)))

  -- `writeField`, `writeArray`, `writeMap` and `writeStruct`; `write_keys` and `write_values` are
  -- the loop of `writeArray` over the keys and the values of a map.
  unfoldable mutual
    pub write_field : Data → M (Unit {0})
    write_field Data.null = throw invalid_data_type
    write_field (Data.double bits) = do
      update_crc (little_endian 8 bits)
      put (λ out. write_float64 w out bits)
    write_field (Data.float bits) = do
      update_crc (little_endian 4 bits)
      put (λ out. write_float32 w out bits)
    write_field (Data.bool b) = do
      update_crc ((if b then 1 else 0) ∷ [])
      put (λ out. write_bool w out b)
    write_field (Data.big_int z) = write_integer z
    write_field (Data.interval_year_month z) = write_integer z
    write_field (Data.int z) = write_integer z
    write_field (Data.small_int z) = write_integer z
    write_field (Data.tiny_int z) = write_integer z
    write_field (Data.string bytes) = write_binary bytes
    write_field (Data.var_char len bytes) = write_binary bytes
    write_field (Data.char len bytes) = write_binary bytes
    write_field (Data.binary bytes) = write_binary bytes
    write_field (Data.geography bytes) = write_binary bytes
    write_field (Data.date_time t) = write_integer (milliseconds t)
    write_field (Data.date t) = write_integer (days t)
    write_field (Data.interval_day_time i) = write_seconds i.total_seconds i.nanos
    write_field (Data.timestamp t) = write_seconds t.unix (pos t.nanosecond)
    write_field (Data.timestamp_ntz t) = write_seconds t.unix (pos t.nanosecond)
    write_field (Data.decimal p s value) = write_binary value
    write_field (Data.array t xs) = do write_count (count_items xs); write_items xs
    write_field (Data.map k v es) = do
      write_count (count_entries es)
      write_keys es
      write_count (count_entries es)
      write_values es
    write_field (Data.struct t ms) = write_members ms
    write_field (Data.json text) = write_binary text

    -- The null flag, and the value behind it.
    pub write_cell : Cell → M (Unit {0})
    write_cell absent = put (λ out. write_bool w out true)
    write_cell (present d) = do put (λ out. write_bool w out false); write_field d

    pub write_items : Items → M (Unit {0})
    write_items nil = skip
    write_items (cons c xs) = do write_cell c; write_items xs

    pub write_keys : Entries → M (Unit {0})
    write_keys no_entries = skip
    write_keys (entry k v es) = do write_cell k; write_keys es

    pub write_values : Entries → M (Unit {0})
    write_values no_entries = skip
    write_values (entry k v es) = do write_cell v; write_values es

    pub write_members : Members → M (Unit {0})
    write_members no_members = skip
    write_members (member n c ms) = do write_cell c; write_members ms

  -- The switch of `writeFieldTag`.
  unfoldable pub wire_type : TypeId → Option ℕ
  wire_type TypeId.datetime = some w.varint_type
  wire_type TypeId.boolean = some w.varint_type
  wire_type TypeId.bigint = some w.varint_type
  wire_type TypeId.tinyint = some w.varint_type
  wire_type TypeId.smallint = some w.varint_type
  wire_type TypeId.int = some w.varint_type
  wire_type TypeId.date = some w.varint_type
  wire_type TypeId.interval_year_month = some w.varint_type
  wire_type TypeId.double = some w.fixed64_type
  wire_type TypeId.float = some w.fixed32_type
  wire_type TypeId.interval_day_time = some w.bytes_type
  wire_type TypeId.timestamp = some w.bytes_type
  wire_type TypeId.timestamp_ntz = some w.bytes_type
  wire_type TypeId.string = some w.bytes_type
  wire_type TypeId.char = some w.bytes_type
  wire_type TypeId.varchar = some w.bytes_type
  wire_type TypeId.binary = some w.bytes_type
  wire_type TypeId.decimal = some w.bytes_type
  wire_type TypeId.array = some w.bytes_type
  wire_type TypeId.map = some w.bytes_type
  wire_type TypeId.struct = some w.bytes_type
  wire_type TypeId.json = some w.bytes_type
  wire_type TypeId.geography = some w.bytes_type
  wire_type code = none

  unfoldable pub put_tag : ℕ → Option ℕ → Text → M (Unit {0})
  put_tag num none type_name = throw (invalid_tag_type type_name)
  put_tag num (some typ) type_name = put (λ out. write_tag w out num typ)

  unfoldable pub write_field_tag : ℕ → DataType → M (Unit {0})
  unfolding put_tag wire_type id
  write_field_tag num dt = put_tag num (wire_type (id dt)) (name dt)

  -- `r.columns[colIndex].Type`
  unfoldable pub column_tag : ℕ → Option Column → M (Unit {0})
  unfolding write_field_tag
  column_tag num none r = panic index_out_of_range
  column_tag num (some c) r = write_field_tag num c.type r

  -- The round of the loop of `write` for the value at `index`; a nil or null value is passed over.
  unfoldable pub write_column : ℕ → Cell → M (Unit {0})
  unfolding column_tag write_field
  write_column index absent = skip
  write_column index (present Data.null) = skip
  write_column index (present d) = do
    update_crc (bytes_32 (pos (index + 1)))
    λ r. column_tag (index + 1) (get_elem? r.columns index) r
    write_field d

  unfoldable pub write_columns : ℕ → Record → M (Unit {0})
  unfolding write_column
  write_columns index [] = skip
  write_columns index (c ∷ cs) = do write_column index c; write_columns (index + 1) cs

  -- The end of a record: its checksum, which goes into the checksum of checksums. The count stands for
  -- an int64, and for the number of records as long as these are fewer than 2^63.
  unfoldable pub end_of_record : M (Unit {0})
  end_of_record r = ok tt (record r {
    out = write_uint32 w (write_tag w r.out end_record w.varint_type) r.record_crc;
    record_crc = 0;
    crc_of_crc = crc_update r.crc_of_crc (little_endian 4 r.record_crc);
    count = r.count +ℤ pos 1;
  })

  -- `write`
  unfoldable pub write : Record → M (Unit {0})
  unfolding write_columns end_of_record
  write values r =
      if ltb (length r.columns) (length values)
      then err too_many_values r
      else (write_columns 0 values >>= λ _. end_of_record) r

  -- `close` and `Close`, over a closer that does not fail.
  unfoldable pub close : M (Unit {0})
  close r =
      if r.closed
      then err closed_twice r
      else ok tt (record r {
        out =
            write_uint32 w
              (write_tag w (write_sint64 w (write_tag w r.out meta_count w.varint_type) r.count)
                meta_checksum w.varint_type)
              r.crc_of_crc;
        closed = true;
      })

  -- Successive calls of `Write`.
  unfoldable pub write_all : List Record → M (Unit {0})
  unfolding write
  write_all [] = skip
  write_all (values ∷ records) = do write values; write_all records
