-- ===== src/Tunnel/RoundTrip/Field.antt =====
-- `writeField` and `readField` on every type and value that fits it.
use aliyun_odps_go_sdk.Prelude.{ℕ, ◌^◌, ◌<◌, ◌≡◌, ◌≤◌, refl, sym, ap, ◌++◌, arith, length}
use aliyun_odps_go_sdk.Prelude.Int.{ℤ, pos, negsuc, ◌≤ℤ◌}
use aliyun_odps_go_sdk.Text.{Text}
use aliyun_odps_go_sdk.Words.{Bytes, InSigned, wrap_8, wrap_16, wrap_32}
use aliyun_odps_go_sdk.Outcome.{ok}
use aliyun_odps_go_sdk.Datatype.{DataType, StructFields}
use aliyun_odps_go_sdk.Data.{
  Data, Cell, Items, Entries, Members, absent, present, nil, cons, no_members, member,
}
use aliyun_odps_go_sdk.Data.Make.{make_char_fits, make_var_char_fits}
use aliyun_odps_go_sdk.Tunnel.StreamReader.{max_length}
use aliyun_odps_go_sdk.Tunnel.Protowire.{Protowire, ProtowireLaws}
use aliyun_odps_go_sdk.Tunnel.Writer.{
  RecordWriter, count_items, count_entries, write_count, write_field, write_items, write_keys,
  write_values, write_members,
}
use aliyun_odps_go_sdk.Tunnel.Reader.Field.{
  RecordReader, set_field, read_cells, read_array, read_map, read_primitive, read_field,
  read_members,
}
use aliyun_odps_go_sdk.Tunnel.RoundTrip.Stream.{wider}
use aliyun_odps_go_sdk.Tunnel.RoundTrip.Collect.{
  keys_of, values_of, pair_up-IsMap, join_members, join_members-nil, join_members-snoc,
  set_field-IsNewName,
}
use aliyun_odps_go_sdk.Tunnel.RoundTrip.Scalar.{
  Carried, double, float, boolean, date_time, date, interval, count,
}
use aliyun_odps_go_sdk.Tunnel.RoundTrip.Time.{unix_time_eq}
use aliyun_odps_go_sdk.Tunnel.RoundTrip.Transmits.{
  Transmits, wrote, before, write_both, nothing, sequence, finally, ungroup, yield, integer, binary,
  seconds, null_cell, value_cell,
}
use aliyun_odps_go_sdk.Tunnel.RoundTrip.Fits.{
  snoc_member, IsNewName, IsStruct, Fits, FitsItems, FitsKeys, FitsValues, FitsMembers, fits_double,
  fits_float, fits_bool, fits_big_int, fits_interval_year_month, fits_int, fits_small_int,
  fits_tiny_int, fits_string, fits_binary, fits_geography, fits_json, fits_char, fits_var_char,
  fits_decimal, fits_date_time, fits_date, fits_timestamp, fits_timestamp_ntz,
  fits_interval_day_time, fits_array, fits_map, fits_struct, fits_absent, fits_present, fits_nil,
  fits_cons, fits_no_keys, fits_key, fits_no_values, fits_value, fits_no_members, fits_member,
}

wider_16 : (z : ℤ) → InSigned 16 z → InSigned 64 z
wider_16 (pos n) h = (omega arith, omega arith)
wider_16 (negsuc n) h = (omega arith, omega arith)

wider_8 : (z : ℤ) → InSigned 8 z → InSigned 64 z
wider_8 (pos n) h = (omega arith, omega arith)
wider_8 (negsuc n) h = (omega arith, omega arith)

fits_length : (m : ℕ) (n : ℤ) (l : ℕ) → m < 2 ^ 48 → n ≤ℤ pos m → pos l ≤ℤ n → l ≤ max_length
fits_length m n l lt h k = omega arith

module _ (w : Protowire) (laws : ProtowireLaws w) where
  -- The first field of a struct, whose name is new behind `acc`.
  next_member :
      (fs : StructFields) (n : Text) (c : Cell) (acc ms : Members)
      → IsNewName n acc
      → Transmits
          (write_members w ms)
          (read_members w fs (snoc_member acc n c))
          (join_members (snoc_member acc n c) ms)
      → Transmits
          (write_members w ms)
          (read_members w fs (set_field n c acc))
          (join_members acc (member n c ms))
  next_member fs n c acc ms new s =
      rw (set_field-IsNewName n c acc new, sym (join_members-snoc acc n c ms)) s

  mutual
    unfolding Carried write_field read_field read_primitive read_cells read_array read_map

    pub write_field-read_field :
        {t : DataType} {d : Data}
        → Fits t d
        → Transmits (write_field w d) (read_field w t) (present d)
    write_field-read_field (fits_double h) = double w laws _ h
    write_field-read_field (fits_float h) = float w laws _ h
    write_field-read_field (fits_bool {b = b}) = boolean w laws b
    write_field-read_field (fits_big_int h) = integer w laws _ _ _ refl h
    write_field-read_field (fits_interval_year_month {z = z} h) =
        integer w laws _ z _ (ap Data.interval_year_month (wrap_32 z h)) (wider z h)
    write_field-read_field (fits_int {z = z} h) =
        integer w laws _ z _ (ap Data.int (wrap_32 z h)) (wider z h)
    write_field-read_field (fits_small_int {z = z} h) =
        integer w laws _ z _ (ap Data.small_int (wrap_16 z h)) (wider_16 z h)
    write_field-read_field (fits_tiny_int {z = z} h) =
        integer w laws _ z _ (ap Data.tiny_int (wrap_8 z h)) (wider_8 z h)
    write_field-read_field (fits_string h) = binary w laws _ _ _ refl h
    write_field-read_field (fits_binary h) = binary w laws _ _ _ refl h
    write_field-read_field (fits_geography h) = binary w laws _ _ _ refl h
    write_field-read_field (fits_json h) = binary w laws _ _ _ refl h
    write_field-read_field (fits_char {n = n} {b = b} h k) =
        binary w laws _ b _ (ap (λ p. p.0) (make_char_fits n b h k))
          (fits_length 255 n (length b) (omega arith) h k)
    write_field-read_field (fits_var_char {n = n} {b = b} h k) =
        binary w laws _ b _ (ap (λ p. p.0) (make_var_char_fits n b h k))
          (fits_length 65536 n (length b) (omega arith) h k)
    write_field-read_field (fits_decimal h) = binary w laws _ _ _ refl h
    write_field-read_field (fits_date_time z m h lt) = date_time w laws z m h lt
    write_field-read_field (fits_date z h) = date w laws z h
    write_field-read_field (fits_timestamp {z = z} {n = n} h lt) =
        finally _ (λ q. rw (unix_time_eq z n lt))
          (seconds w laws z (pos n) h (omega arith, omega arith))
    write_field-read_field (fits_timestamp_ntz {z = z} {n = n} h lt) =
        finally _ (λ q. rw (unix_time_eq z n lt))
          (seconds w laws z (pos n) h (omega arith, omega arith))
    write_field-read_field (fits_interval_day_time {z = z} {n = n} h k neg) =
        interval w laws z n h k neg
    write_field-read_field (fits_array {t = t} {xs = xs} lt h) =
        yield _ _ refl
          (sequence (λ n. read_cells w (read_field w t) n) (count w laws _ lt) (items h))
    write_field-read_field (fits_map {k = k} {v = v} {es = es} lt hm hk hv) =
        ungroup (write_count w (count_entries es)) (write_keys w es)
          (write_both (write_count w (count_entries es)) (write_values w es))
          (sequence _
            (sequence (λ n. read_cells w (read_field w k) n) (count w laws _ lt) (keys hk))
            (finally _ (λ q. rw (pair_up-IsMap es q hm))
              (sequence (λ n. read_cells w (read_field w v) n) (count w laws _ lt) (values hv))))
    write_field-read_field (fits_struct h hs) = yield _ _ refl (members no_members hs h)

    items :
        {t : DataType} {xs : Items}
        → FitsItems t xs
        → Transmits (write_items w xs) (read_cells w (read_field w t) (count_items xs)) xs
    items fits_nil = nothing nil
    items {t = t} (fits_cons {xs = xs} fits_absent hs) =
        null_cell w laws (read_field w t) _ (yield (cons absent) _ refl (items hs))
    items {t = t} (fits_cons {xs = xs} (fits_present {d = d} h) hs) =
        value_cell w laws _ d (write_field-read_field h)
          (yield (cons (present d)) _ refl (items hs))

    keys :
        {t : DataType} {es : Entries}
        → FitsKeys t es
        → Transmits
            (write_keys w es)
            (read_cells w (read_field w t) (count_entries es))
            (keys_of es)
    keys fits_no_keys = nothing nil
    keys {t = t} (fits_key fits_absent hs) =
        null_cell w laws (read_field w t) _ (yield (cons absent) _ refl (keys hs))
    keys (fits_key (fits_present {d = d} h) hs) =
        value_cell w laws _ d (write_field-read_field h) (yield (cons (present d)) _ refl (keys hs))

    values :
        {t : DataType} {es : Entries}
        → FitsValues t es
        → Transmits
            (write_values w es)
            (read_cells w (read_field w t) (count_entries es))
            (values_of es)
    values fits_no_values = nothing nil
    values {t = t} (fits_value fits_absent hs) =
        null_cell w laws (read_field w t) _ (yield (cons absent) _ refl (values hs))
    values (fits_value (fits_present {d = d} h) hs) =
        value_cell w laws _ d (write_field-read_field h)
          (yield (cons (present d)) _ refl (values hs))

    members :
        {fs : StructFields} {ms : Members} (acc : Members)
        → FitsMembers fs ms
        → IsStruct acc ms
        → Transmits (write_members w ms) (read_members w fs acc) (join_members acc ms)
    members acc fits_no_members h = rw (join_members-nil acc) (nothing acc)
    members acc (fits_member {n = n} {t = t} {fs = fs} {ms = ms} fits_absent hs) (new, h) =
        null_cell w laws (read_field w t) (λ c. read_members w fs (set_field n c acc))
          (next_member fs n absent acc ms new (members (snoc_member acc n absent) hs h))
    members acc (fits_member {n = n} {t = t} {fs = fs} {ms = ms} (fits_present {d = d} hd) hs)
          (new, h) =
        value_cell w laws (λ c. read_members w fs (set_field n c acc)) d (write_field-read_field hd)
          (next_member fs n (present d) acc ms new (members (snoc_member acc n (present d)) hs h))

  -- Over a protowire that behaves as documented: a value that fits a type is written with no error,
  -- and what the write appends is read back as that value, whatever follows it; the reader's
  -- checksum, if it was the writer's before, is so again.
  pub read_field-write_field :
      {t : DataType} {d : Data}
      → Fits t d
      → (r : RecordWriter) (q : RecordReader) (rest : Bytes)
      → (bytes : Bytes) × (crc : ℕ) × (write_field w d r ≡ ok tt (wrote r bytes crc))
        × (read_field w t (before q (bytes ++ rest) r.record_crc)
            ≡ ok (present d) (before q rest crc))
  read_field-write_field h r q rest =
      let s = write_field-read_field h in
      (s.bytes, s.crc r.record_crc, s.writes r, s.reads q rest r.record_crc)
