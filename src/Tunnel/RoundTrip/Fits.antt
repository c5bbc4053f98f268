-- ===== src/Tunnel/RoundTrip/Fits.antt =====
-- The values that a column of a type holds and that the tunnel's format carries whole.
use aliyun_odps_go_sdk.Prelude.{ℕ, ◌*◌, ◌^◌, ◌<◌, ◌≡◌, ◌≤◌, Bool, true, false, some, length}
use aliyun_odps_go_sdk.Prelude.Int.{ℤ, pos, ◌*ℤ◌, ◌≤ℤ◌}
use aliyun_odps_go_sdk.Text.{Text, text_eq}
use aliyun_odps_go_sdk.Words.{Bytes, InSigned}
use aliyun_odps_go_sdk.Datatype.{
  TypeId, DataType, StructFields, primitive, char_type, varchar_type, decimal_type, array_type,
  map_type, struct_type, json_type, no_fields, field,
}
use aliyun_odps_go_sdk.Data.{
  Data, Cell, Items, Entries, Members, absent, present, nil, cons, no_entries, entry, no_members,
  member,
}
use aliyun_odps_go_sdk.Tunnel.StreamReader.{max_length}
use aliyun_odps_go_sdk.Tunnel.Writer.{count_items, count_entries}
use aliyun_odps_go_sdk.Tunnel.Reader.Field.{key_eq, is_hashable}

abbrev pub snoc_entry : Entries → Cell → Cell → Entries
snoc_entry no_entries k v = entry k v no_entries
snoc_entry (entry k' v' es) k v = entry k' v' (snoc_entry es k v)

abbrev pub snoc_member : Members → Text → Cell → Members
snoc_member no_members n c = member n c no_members
snoc_member (member n' c' ms) n c = member n' c' (snoc_member ms n c)

-- No key of the entries is equal to `k`.
abbrev pub IsNewKey : Cell → Entries → Type 0
IsNewKey k no_entries = Unit
IsNewKey k (entry k' v es) = (key_eq k k' ≡ false) × IsNewKey k es

-- The entries of a Go map: behind `acc` each key can be hashed and is new.
abbrev pub IsMap : Entries → Entries → Type 0
IsMap acc no_entries = Unit
IsMap acc (entry k v es) = (is_hashable k ≡ true) × IsNewKey k acc × IsMap (snoc_entry acc k v) es

abbrev pub IsNewName : Text → Members → Type 0
IsNewName n no_members = Unit
IsNewName n (member n' c ms) = (text_eq n n' ≡ false) × IsNewName n ms

-- The members of a struct: behind `acc` each name is new.
abbrev pub IsStruct : Members → Members → Type 0
IsStruct acc no_members = Unit
IsStruct acc (member n c ms) = IsNewName n acc × IsStruct (snoc_member acc n c) ms

-- Instants of whole milliseconds, days, and nanoseconds below a second, within their ranges.
mutual
  pub data Fits : DataType → Data → Type 0 where
    fits_double : {bits : ℕ} → bits < 2 ^ 64 → Fits (primitive TypeId.double) (Data.double bits)
    fits_float : {bits : ℕ} → bits < 2 ^ 32 → Fits (primitive TypeId.float) (Data.float bits)
    fits_bool : {b : Bool} → Fits (primitive TypeId.boolean) (Data.bool b)
    fits_big_int : {z : ℤ} → InSigned 64 z → Fits (primitive TypeId.bigint) (Data.big_int z)
    fits_interval_year_month :
        {z : ℤ}
        → InSigned 32 z
        → Fits (primitive TypeId.interval_year_month) (Data.interval_year_month z)
    fits_int : {z : ℤ} → InSigned 32 z → Fits (primitive TypeId.int) (Data.int z)
    fits_small_int : {z : ℤ} → InSigned 16 z → Fits (primitive TypeId.smallint) (Data.small_int z)
    fits_tiny_int : {z : ℤ} → InSigned 8 z → Fits (primitive TypeId.tinyint) (Data.tiny_int z)
    fits_string :
        {b : Bytes} → length b ≤ max_length → Fits (primitive TypeId.string) (Data.string b)
    fits_binary :
        {b : Bytes} → length b ≤ max_length → Fits (primitive TypeId.binary) (Data.binary b)
    fits_geography :
        {b : Bytes} → length b ≤ max_length → Fits (primitive TypeId.geography) (Data.geography b)
    fits_json : {b : Bytes} → length b ≤ max_length → Fits json_type (Data.json b)
    fits_char :
        {n : ℤ} {b : Bytes}
        → n ≤ℤ pos 255
        → pos (length b) ≤ℤ n
        → Fits (char_type n) (Data.char n b)
    fits_var_char :
        {n : ℤ} {b : Bytes}
        → n ≤ℤ pos 65536
        → pos (length b) ≤ℤ n
        → Fits (varchar_type n) (Data.var_char n b)
    fits_decimal :
        {p s : ℤ} {b : Bytes} → length b ≤ max_length → Fits (decimal_type p s) (Data.decimal p s b)
    fits_date_time :
        (z : ℤ) (m : ℕ)
        → InSigned 53 z
        → m < 1000
        → Fits
            (primitive TypeId.datetime)
            (Data.date_time (record { unix = z; nanosecond = 1_000_000 * m }))
    fits_date :
        (z : ℤ)
        → InSigned 32 z
        → Fits
            (primitive TypeId.date)
            (Data.date (record { unix = z *ℤ pos 86_400; nanosecond = 0 }))
    fits_timestamp :
        {z : ℤ} {n : ℕ}
        → InSigned 64 z
        → n < 1_000_000_000
        → Fits (primitive TypeId.timestamp) (Data.timestamp (record { unix = z; nanosecond = n }))
    fits_timestamp_ntz :
        {z : ℤ} {n : ℕ}
        → InSigned 64 z
        → n < 1_000_000_000
        → Fits
            (primitive TypeId.timestamp_ntz)
            (Data.timestamp_ntz (record { unix = z; nanosecond = n }))
    fits_interval_day_time :
        {z n : ℤ}
        → InSigned 64 z
        → InSigned 32 n
        → n ≤ℤ pos 0
        → Fits
            (primitive TypeId.interval_day_time)
            (Data.interval_day_time (record { total_seconds = z; nanos = n }))
    fits_array :
        {t : DataType} {xs : Items}
        → count_items xs < 2 ^ 31
        → FitsItems t xs
        → Fits (array_type t) (Data.array (some t) xs)
    fits_map :
        {k v : DataType} {es : Entries}
        → count_entries es < 2 ^ 31
        → IsMap no_entries es
        → FitsKeys k es
        → FitsValues v es
        → Fits (map_type k v) (Data.map (some k) (some v) es)
    fits_struct :
        {fs : StructFields} {ms : Members}
        → IsStruct no_members ms
        → FitsMembers fs ms
        → Fits (struct_type fs) (Data.struct fs ms)

  pub data FitsCell : DataType → Cell → Type 0 where
    fits_absent : {t : DataType} → FitsCell t absent
    fits_present : {t : DataType} {d : Data} → Fits t d → FitsCell t (present d)

  pub data FitsItems : DataType → Items → Type 0 where
    fits_nil : {t : DataType} → FitsItems t nil
    fits_cons :
        {t : DataType} {c : Cell} {xs : Items}
        → FitsCell t c
        → FitsItems t xs
        → FitsItems t (cons c xs)

  pub data FitsKeys : DataType → Entries → Type 0 where
    fits_no_keys : {t : DataType} → FitsKeys t no_entries
    fits_key :
        {t : DataType} {k v : Cell} {es : Entries}
        → FitsCell t k
        → FitsKeys t es
        → FitsKeys t (entry k v es)

  pub data FitsValues : DataType → Entries → Type 0 where
    fits_no_values : {t : DataType} → FitsValues t no_entries
    fits_value :
        {t : DataType} {k v : Cell} {es : Entries}
        → FitsCell t v
        → FitsValues t es
        → FitsValues t (entry k v es)

  pub data FitsMembers : StructFields → Members → Type 0 where
    fits_no_members : FitsMembers no_fields no_members
    fits_member :
        {n : Text} {t : DataType} {fs : StructFields} {c : Cell} {ms : Members}
        → FitsCell t c
        → FitsMembers fs ms
        → FitsMembers (field n t fs) (member n c ms)
