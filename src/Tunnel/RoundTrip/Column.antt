-- ===== src/Tunnel/RoundTrip/Column.antt =====
-- One column of a record: a round of the loop of `write` and a round of `Read`.
use aliyun_odps_go_sdk.Prelude.{
  ℕ, suc, ◌+◌, ◌*◌, ◌^◌, ◌<◌, ◌≤◌, ◌≡◌, ◌≢◌, refl, false, some, [], ◌∷◌, ◌++◌, arith, ltb, ◌==◌,
  length, set, get_elem?,
}
use aliyun_odps_go_sdk.Prelude.Int.{pos}
use aliyun_odps_go_sdk.Words.{Bytes}
use aliyun_odps_go_sdk.Outcome
use aliyun_odps_go_sdk.Outcome.{Outcome, ok}
use aliyun_odps_go_sdk.Datatype.{DataType, id}
use aliyun_odps_go_sdk.Data.{Data, Record, present}
use aliyun_odps_go_sdk.Tunnel.Protowire.{Protowire, ProtowireLaws}
use aliyun_odps_go_sdk.Tunnel.Crc.{crc_update}
use aliyun_odps_go_sdk.Tunnel.StreamWriter.{write_full, write_varint, write_tag}
use aliyun_odps_go_sdk.Tunnel.Writer.{
  Column, RecordWriter, bytes_32, meta_count, end_record, put_tag, wire_type, write_field_tag,
  column_tag, write_field, write_column,
}
use aliyun_odps_go_sdk.Tunnel.Reader.Field.{RecordReader, read_field}
use aliyun_odps_go_sdk.Tunnel.Reader.{read_column_at, read_column, dispatch, read_round}
use aliyun_odps_go_sdk.Tunnel.RoundTrip.Stream.{read_tag-write_tag}
use aliyun_odps_go_sdk.Tunnel.RoundTrip.Transmits.{wrote, before}
use aliyun_odps_go_sdk.Tunnel.RoundTrip.Fits.{
  Fits, fits_double, fits_float, fits_bool, fits_big_int, fits_interval_year_month, fits_int,
  fits_small_int, fits_tiny_int, fits_date_time, fits_date,
}

ne_nil : (l : Bytes) → l ≢ [] → 1 ≤ length l
ne_nil [] h = absurd (h refl)
ne_nil (x ∷ l) h = omega arith

module _ (w : Protowire) (laws : ProtowireLaws w) where
  -- Every value that fits has a wire type.
  pub wire_type-Fits :
      {t : DataType} {d : Data} → Fits t d → (typ : ℕ) × (typ < 8) × (wire_type w (id t) ≡ some typ)
  unfolding wire_type id
  wire_type-Fits (fits_double h) = (w.fixed64_type, laws.fixed64_type_lt, refl)
  wire_type-Fits (fits_float h) = (w.fixed32_type, laws.fixed32_type_lt, refl)
  wire_type-Fits fits_bool = (w.varint_type, laws.varint_type_lt, refl)
  wire_type-Fits (fits_big_int h) = (w.varint_type, laws.varint_type_lt, refl)
  wire_type-Fits (fits_interval_year_month h) = (w.varint_type, laws.varint_type_lt, refl)
  wire_type-Fits (fits_int h) = (w.varint_type, laws.varint_type_lt, refl)
  wire_type-Fits (fits_small_int h) = (w.varint_type, laws.varint_type_lt, refl)
  wire_type-Fits (fits_tiny_int h) = (w.varint_type, laws.varint_type_lt, refl)
  wire_type-Fits (fits_date_time z m h lt) = (w.varint_type, laws.varint_type_lt, refl)
  wire_type-Fits (fits_date z h) = (w.varint_type, laws.varint_type_lt, refl)
  wire_type-Fits h = (w.bytes_type, laws.bytes_type_lt, refl)

  -- A value that fits is not null.
  write_column-tagged :
      {t : DataType} {d : Data} (index : ℕ) (r : RecordWriter)
      → Fits t d
      → write_column w index (present d) r
        ≡ Outcome.bind
            (column_tag w
              (index + 1)
              (get_elem? r.columns index)
              (record r { record_crc = crc_update r.record_crc (bytes_32 (pos (index + 1))) }))
            λ _. write_field w d
  unfolding write_column
  write_column-tagged index r fits_bool = refl
  write_column-tagged index r h = refl

  -- It is written behind the tag of its column.
  pub write_column-Fits :
      {d : Data} (index : ℕ) (c : Column) (typ : ℕ) (r : RecordWriter)
      → Fits c.type d
      → wire_type w (id c.type) ≡ some typ
      → get_elem? r.columns index ≡ some c
      → write_column w index (present d) r
        ≡ write_field w d (
            wrote r
              (write_tag w [] (suc index) typ)
              (crc_update r.record_crc (bytes_32 (pos (suc index)))))
  unfolding column_tag write_field_tag put_tag write_tag write_varint write_full
  write_column-Fits index c typ r h e e' =
      let next : index + 1 ≡ suc index = omega arith in
      rw (write_column-tagged index r h, next, e', e)

  pub tag_length : (num typ : ℕ) → num < 2 ^ 29 → typ < 8 → 1 ≤ length (write_tag w [] num typ)
  unfolding write_tag write_varint write_full
  tag_length num typ lt lt' =
      rw (laws.encode_tag_eq num typ lt lt') (
        ne_nil (w.append_varint (8 * num + typ)) (laws.varint_ne_nil (8 * num + typ) (omega arith)))

  -- What `Read` does with the tag of a column.
  pub read_round-column :
      (index typ : ℕ) (c : Column) (values : Record) (q : RecordReader) (rest : Bytes) (n : ℕ)
      → suc index < end_record
      → typ < 8
      → index < length q.columns
      → get_elem? q.columns index ≡ some c
      → read_round w values (before q (write_tag w [] (suc index) typ ++ rest) n)
        ≡ Outcome.bind
            (read_field w c.type (before q rest (crc_update n (bytes_32 (pos (suc index))))))
            λ v. ok (set values index v, false)
  unfolding read_round dispatch read_column read_column_at
  read_round-column index typ c values q rest n small lt inside e =
      let end : (suc index + 0 == end_record + 0) ≡ false = ground arith in
      let meta : (suc index + 0 == meta_count + 0) ≡ false = ground arith in
      let known : ltb (length q.columns) (suc index) ≡ false = ground arith in
      rw (
        read_tag-write_tag w laws (suc index) typ rest q.stream.ending (omega arith) (omega arith)
            lt,
        end,
        meta,
        known,
        e,
      )
