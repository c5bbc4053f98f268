-- ===== src/Tunnel/Tests.antt =====
-- Runs of the record writer and reader, and what the theorems on them say at concrete inputs.
pub mod Wire
mod Packs
mod Uploaded
mod Sessions
mod Uploads
mod Chunks
use aliyun_odps_go_sdk.Prelude.{
  ℕ, suc, ◌+◌, ◌*◌, ◌^◌, ◌<◌, ◌≤◌, ◌≡◌, ◌≢◌, ◌⊎◌, refl, true, false, some, List, [], ◌∷◌, ◌++◌,
  arith, length,
}
use aliyun_odps_go_sdk.Prelude.Int.{ℤ, pos, negsuc, ◌*ℤ◌, ◌≤ℤ◌}
use aliyun_odps_go_sdk.Text.{Text, codes, text_eq}
use aliyun_odps_go_sdk.Words.{Bytes}
use aliyun_odps_go_sdk.Outcome
use aliyun_odps_go_sdk.Outcome.{Outcome, ok, err, out_of_fuel}
use aliyun_odps_go_sdk.Datatype.{
  TypeId, DataType, StructFields, primitive, char_type, array_type, map_type, struct_type,
  no_fields, field,
}
use aliyun_odps_go_sdk.Data
use aliyun_odps_go_sdk.Data.{
  Data, Cell, Record, absent, present, nil, cons, no_entries, entry, no_members, member,
}
use aliyun_odps_go_sdk.Tunnel.StreamWriter.{
  write_uint32, write_int32, write_int64, write_tag, write_bytes, write_sint32,
}
use aliyun_odps_go_sdk.Tunnel.StreamReader.{
  StreamReader, eof, crc_error, count_error, read_int32, read_int64, read_tag, read_bytes,
  read_sint32,
}
use aliyun_odps_go_sdk.Tunnel.Writer.{
  Column, RecordWriter, write_field, write, write_all, close, new_record_writer,
}
use aliyun_odps_go_sdk.Tunnel.Reader.Field.{RecordReader, key_eq, data_eq, is_hashable, read_field}
use aliyun_odps_go_sdk.Tunnel.Reader.{Delivery, failed, iterate, read, new_record_reader}
use aliyun_odps_go_sdk.Tunnel.Reader.Total.{iterate-ne-out_of_fuel}
use aliyun_odps_go_sdk.Tunnel.RoundTrip.Stream.{
  at, read_int64-write_int64, read_tag-write_tag, read_bytes-write_bytes, read_sint32-write_sint32,
}
use aliyun_odps_go_sdk.Tunnel.RoundTrip.Transmits.{wrote, before}
use aliyun_odps_go_sdk.Tunnel.RoundTrip.Fits.{
  IsMap, IsStruct, Fits, FitsCell, fits_big_int, fits_string, fits_date_time, fits_array, fits_map,
  fits_struct, fits_absent, fits_present, fits_nil, fits_cons, fits_no_keys, fits_key,
  fits_no_values, fits_value, fits_no_members, fits_member,
}
use aliyun_odps_go_sdk.Tunnel.RoundTrip.Field.{read_field-write_field}
use aliyun_odps_go_sdk.Tunnel.RoundTrip.Columns.{FitsColumns}
use aliyun_odps_go_sdk.Tunnel.RoundTrip.Record.{wrote_record, read-crc_error}
use aliyun_odps_go_sdk.Tunnel.RoundTrip.Streamed.{AllFit, deliver}
use aliyun_odps_go_sdk.Tunnel.RoundTrip.Whole.{
  write_all-iterate, iterate-cut, iterate-write_all_count,
}
use aliyun_odps_go_sdk.Tunnel.RoundTrip.Trailer.{trailer}
use Wire.{wire, wire_laws}

-- A map from names to counts, an instant, and an array of structs.
abbrev counts_type : DataType
counts_type = map_type (primitive TypeId.string) (primitive TypeId.bigint)

abbrev point_type : DataType
point_type = struct_type (
    field (codes "x") (primitive TypeId.bigint)
      (field (codes "y") (primitive TypeId.bigint) no_fields))

abbrev counts : Data
counts = Data.map (some (primitive TypeId.string)) (some (primitive TypeId.bigint)) (
    entry (present (Data.string (codes "a"))) (present (Data.big_int (pos 3)))
      (entry (present (Data.string (codes "b"))) absent no_entries))

abbrev point : Data
point =
    Data.struct
      (field (codes "x") (primitive TypeId.bigint)
        (field (codes "y") (primitive TypeId.bigint) no_fields))
      (member (codes "x") (present (Data.big_int (negsuc 6)))
        (member (codes "y") absent no_members))

counts-Fits : Fits counts_type counts
unfolding key_eq data_eq is_hashable text_eq
counts-Fits =
    fits_map (omega arith) (refl, tt, (refl, (refl, tt), tt))
      (fits_key (fits_present (fits_string (omega arith)))
        (fits_key (fits_present (fits_string (omega arith))) fits_no_keys))
      (fits_value (fits_present (fits_big_int (omega arith, omega arith)))
        (fits_value fits_absent fits_no_values))

point-Fits : Fits point_type point
unfolding text_eq
point-Fits =
    fits_struct (tt, ((refl, tt), tt))
      (fits_member (fits_present (fits_big_int (omega arith, omega arith)))
        (fits_member fits_absent fits_no_members))

points-Fits :
    Fits
      (array_type point_type)
      (Data.array (some point_type) (cons (present point) (cons absent nil)))
points-Fits =
    fits_array (omega arith) (fits_cons (fits_present point-Fits) (fits_cons fits_absent fits_nil))

abbrev columns : List Column
columns =
    record { name = codes "counts"; type = counts_type }
    ∷ record { name = codes "time"; type = primitive TypeId.datetime }
    ∷ record { name = codes "points"; type = array_type point_type }
    ∷ []

-- Half past a second before 1970.
abbrev first_record : Record
first_record =
    present counts
    ∷ present (Data.date_time (record { unix = negsuc 0; nanosecond = 1_000_000 * 500 }))
    ∷ present (Data.array (some point_type) (cons (present point) (cons absent nil)))
    ∷ []

-- The second record is short.
abbrev records : List Record
records = first_record ∷ (absent ∷ []) ∷ []

first_record-FitsColumns : FitsColumns columns first_record
first_record-FitsColumns = (
  fits_present counts-Fits,
  (
    fits_present (fits_date_time (negsuc 0) 500 (omega arith, omega arith) (omega arith)),
    (fits_present points-Fits, tt),
  ),
)

records-AllFit : AllFit columns records
records-AllFit = (first_record-FitsColumns, ((fits_absent, tt), tt))

-- The function that keeps all that it is called with.
abbrev keep : List Delivery → Delivery → List Delivery
keep ds d = ds ++ d ∷ []

read_field-write_field_example :
    (bytes : Bytes) × (crc : ℕ) × (write_field wire counts (new_record_writer columns)
      ≡ ok tt (wrote (new_record_writer columns) bytes crc))
    × (read_field wire counts_type (
          before
            (new_record_reader (at [] eof) columns)
            (bytes ++ 7 ∷ [])
            (new_record_writer columns).record_crc)
        ≡ ok (present counts) (before (new_record_reader (at [] eof) columns) (7 ∷ []) crc))
read_field-write_field_example =
    read_field-write_field wire wire_laws counts-Fits (new_record_writer columns)
      (new_record_reader (at [] eof) columns) (7 ∷ [])

write_all-iterate_example :
    (r : RecordWriter) × (Outcome.bind
        (write_all wire records (new_record_writer columns))
        (λ _. close wire)
      ≡ ok tt r)
    × (q : RecordReader) × (iterate wire keep
          (suc (length r.out))
          []
          (new_record_reader (at r.out eof) columns)
        ≡ (deliver keep columns [] records, ok tt q))
write_all-iterate_example =
    write_all-iterate wire wire_laws keep [] columns records (omega arith) records-AllFit
      (omega arith)

iterate-cut_example :
    (r : RecordWriter) × (write_all wire records (new_record_writer columns) ≡ ok tt r)
    × (q : RecordReader) × (iterate wire keep
          (suc (length r.out))
          []
          (new_record_reader (at r.out eof) columns)
        ≡ (deliver keep columns [] records, ok tt q))
iterate-cut_example =
    iterate-cut wire wire_laws keep [] columns records (omega arith) records-AllFit

abbrev fresh_writer : RecordWriter
fresh_writer = record {
  out = [];
  columns = columns;
  record_crc = 0;
  crc_of_crc = 0;
  count = pos 0;
  closed = false;
}

abbrev fresh_reader : RecordReader
fresh_reader = record {
  stream = at [] eof;
  columns = columns;
  record_crc = 0;
  crc_of_crc = 0;
  count = pos 0;
}

read-crc_error_example :
    (bytes : Bytes) × (crc : ℕ) × (write wire first_record fresh_writer
      ≡ ok tt (wrote_record fresh_writer (bytes ++ write_uint32 wire [] crc) crc))
    × ((12345 ≡ crc)
        ⊎ (read wire (before fresh_reader ((bytes ++ write_uint32 wire [] 12345) ++ []) 0)
            ≡ err crc_error (before fresh_reader [] crc)))
read-crc_error_example =
    read-crc_error wire wire_laws columns first_record (omega arith) first_record-FitsColumns
      fresh_writer refl refl fresh_reader [] 12345 refl (omega arith)

iterate-ne-out_of_fuel_example :
    (iterate wire keep 4 [] (new_record_reader (at (8 ∷ 255 ∷ 1 ∷ []) eof) columns)).1 ≢ out_of_fuel
unfolding new_record_reader
iterate-ne-out_of_fuel_example =
    iterate-ne-out_of_fuel wire keep 4 [] (new_record_reader (at (8 ∷ 255 ∷ 1 ∷ []) eof) columns)
      (omega arith)

three-ne-two : 3 ≢ length records
three-ne-two = omega arith

iterate-write_all_count_example :
    (r : RecordWriter) × (write_all wire records (new_record_writer columns) ≡ ok tt r)
    × (q : RecordReader) × (iterate wire keep
          (suc (length (r.out ++ trailer wire wire_laws (pos 3) 12345)))
          []
          (new_record_reader (at (r.out ++ trailer wire wire_laws (pos 3) 12345) eof) columns)
        ≡ (keep (deliver keep columns [] records) (failed count_error), err count_error q))
iterate-write_all_count_example =
    iterate-write_all_count wire wire_laws keep [] columns records 3 12345 (omega arith)
      records-AllFit (omega arith) three-ne-two
