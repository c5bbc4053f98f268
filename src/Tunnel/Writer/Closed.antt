-- ===== src/Tunnel/Writer/Closed.antt =====
-- What `Write` leaves alone: the mark that the writer is closed.
use aliyun_odps_go_sdk.Prelude.{
  ℕ, ◌+◌, ◌≡◌, refl, ◌∙◌, Option, none, some, List, [], ◌∷◌, ◌++◌, length, get_elem?, ltb,
}
use aliyun_odps_go_sdk.Outcome
use aliyun_odps_go_sdk.Outcome.{
  Outcome, Ensures, ok, err, holds, refused, stopped, Ensures-bind, Ensures-map, Ensures-if,
  Ensures-ok, bind-eq-ok,
}
use aliyun_odps_go_sdk.Datatype.{id}
use aliyun_odps_go_sdk.Data.{
  Data, Cell, Items, Entries, Members, Record, absent, present, nil, cons, no_entries, entry,
  no_members, member,
}
use aliyun_odps_go_sdk.Tunnel.Protowire.{Protowire}
use aliyun_odps_go_sdk.Tunnel.Writer.{
  Column, RecordWriter, WriteError, M, write_integer, write_binary, write_seconds, write_count,
  write_field, write_cell, write_items, write_keys, write_values, write_members, wire_type, put_tag,
  write_field_tag, column_tag, write_column, write_columns, end_of_record, write, write_all,
}

-- A call that does not fail leaves the mark as it is in `r`.
abbrev pub SameMark : RecordWriter → Outcome RecordWriter WriteError (Unit {0}) → Type 0
SameMark r = Ensures (λ _ s. s.closed ≡ r.closed)

SameMark-bind :
    (r : RecordWriter) (o : Outcome RecordWriter WriteError (Unit {0})) (next : M (Unit {0}))
    → SameMark r o
    → ((s : RecordWriter) → SameMark s (next s))
    → SameMark r (Outcome.bind o λ _. next)
SameMark-bind r o next h k = Ensures-bind h λ a s e. Ensures-map (k s) λ b t e'. e' ∙ e

module _ (w : Protowire) where
  mutual
    unfolding write_field write_integer write_binary write_seconds write_count

    write_field-SameMark : (d : Data) (r : RecordWriter) → SameMark r (write_field w d r)
    write_field-SameMark Data.null r = refused
    write_field-SameMark (Data.double bits) r = holds refl
    write_field-SameMark (Data.float bits) r = holds refl
    write_field-SameMark (Data.bool b) r = holds refl
    write_field-SameMark (Data.big_int z) r = holds refl
    write_field-SameMark (Data.interval_year_month z) r = holds refl
    write_field-SameMark (Data.int z) r = holds refl
    write_field-SameMark (Data.small_int z) r = holds refl
    write_field-SameMark (Data.tiny_int z) r = holds refl
    write_field-SameMark (Data.string bytes) r = holds refl
    write_field-SameMark (Data.var_char len bytes) r = holds refl
    write_field-SameMark (Data.char len bytes) r = holds refl
    write_field-SameMark (Data.binary bytes) r = holds refl
    write_field-SameMark (Data.geography bytes) r = holds refl
    write_field-SameMark (Data.date_time t) r = holds refl
    write_field-SameMark (Data.date t) r = holds refl
    write_field-SameMark (Data.interval_day_time i) r = holds refl
    write_field-SameMark (Data.timestamp t) r = holds refl
    write_field-SameMark (Data.timestamp_ntz t) r = holds refl
    write_field-SameMark (Data.decimal p s value) r = holds refl
    write_field-SameMark (Data.array t xs) r = write_items-SameMark xs _
    write_field-SameMark (Data.map k v es) r =
        SameMark-bind r _ _ (write_keys-SameMark es _) λ s. write_values-SameMark es _
    write_field-SameMark (Data.struct t ms) r = write_members-SameMark ms r
    write_field-SameMark (Data.json text) r = holds refl

    write_cell-SameMark : (c : Cell) (r : RecordWriter) → SameMark r (write_cell w c r)
    write_cell-SameMark absent r = holds refl
    write_cell-SameMark (present d) r = write_field-SameMark d _

    write_items-SameMark : (xs : Items) (r : RecordWriter) → SameMark r (write_items w xs r)
    write_items-SameMark nil r = holds refl
    write_items-SameMark (cons c xs) r =
        SameMark-bind r _ _ (write_cell-SameMark c r) λ s. write_items-SameMark xs s

    write_keys-SameMark : (es : Entries) (r : RecordWriter) → SameMark r (write_keys w es r)
    write_keys-SameMark no_entries r = holds refl
    write_keys-SameMark (entry k v es) r =
        SameMark-bind r _ _ (write_cell-SameMark k r) λ s. write_keys-SameMark es s

    write_values-SameMark : (es : Entries) (r : RecordWriter) → SameMark r (write_values w es r)
    write_values-SameMark no_entries r = holds refl
    write_values-SameMark (entry k v es) r =
        SameMark-bind r _ _ (write_cell-SameMark v r) λ s. write_values-SameMark es s

    write_members-SameMark : (ms : Members) (r : RecordWriter) → SameMark r (write_members w ms r)
    write_members-SameMark no_members r = holds refl
    write_members-SameMark (member n c ms) r =
        SameMark-bind r _ _ (write_cell-SameMark c r) λ s. write_members-SameMark ms s

  put_tag-SameMark :
      (num : ℕ) (typ : Option ℕ) (type_name : List ℕ) (r : RecordWriter)
      → SameMark r (put_tag w num typ type_name r)
  unfolding put_tag
  put_tag-SameMark num none type_name r = refused
  put_tag-SameMark num (some typ) type_name r = holds refl

  column_tag-SameMark :
      (num : ℕ) (c : Option Column) (r : RecordWriter) → SameMark r (column_tag w num c r)
  unfolding column_tag write_field_tag
  column_tag-SameMark num none r = stopped
  column_tag-SameMark num (some c) r = put_tag-SameMark num (wire_type w (id c.type)) _ r

  present-SameMark :
      (num : ℕ) (c : Option Column) (d : Data) (r : RecordWriter)
      → SameMark r (Outcome.bind (column_tag w num c r) λ _. write_field w d)
  present-SameMark num c d r =
      SameMark-bind r _ _ (column_tag-SameMark num c r) λ s. write_field-SameMark d s

  write_column-SameMark :
      (index : ℕ) (c : Cell) (r : RecordWriter) → SameMark r (write_column w index c r)
  unfolding write_column
  write_column-SameMark index absent r = holds refl
  write_column-SameMark index (present Data.null) r = holds refl
  write_column-SameMark index (present d) r =
      present-SameMark (index + 1) (get_elem? r.columns index) d _

  write_columns-SameMark :
      (index : ℕ) (values : Record) (r : RecordWriter) → SameMark r (write_columns w index values r)
  unfolding write_columns
  write_columns-SameMark index [] r = holds refl
  write_columns-SameMark index (c ∷ cs) r =
      SameMark-bind r _ _ (write_column-SameMark index c r)
        λ s. write_columns-SameMark (index + 1) cs s

  pub write-SameMark : (values : Record) (r : RecordWriter) → SameMark r (write w values r)
  unfolding write end_of_record
  write-SameMark values r =
      Ensures-if (ltb (length r.columns) (length values)) (λ e. refused)
        λ e. SameMark-bind r _ _ (write_columns-SameMark 0 values r) λ s. holds refl

  -- `Write` that returns no error leaves the mark as it is.
  pub write-closed :
      (values : Record) (r : RecordWriter) {s : RecordWriter}
      → write w values r ≡ ok tt s
      → s.closed ≡ r.closed
  write-closed values r e = Ensures-ok (write-SameMark values r) e

  -- A record that is written behind others.
  pub write_all-append :
      (records : List Record) (values : Record) (r : RecordWriter) {s t : RecordWriter}
      → write_all w records r ≡ ok tt s
      → write w values s ≡ ok tt t
      → write_all w (records ++ values ∷ []) r ≡ ok tt t
  unfolding write_all
  write_all-append [] values r {s} e e' = let same : r ≡ s = cc in rw (same, e')
  write_all-append (v ∷ records) values r e e' =
      let (_, q, written, rest) = bind-eq-ok (write w v r) (λ _. write_all w records) e in
      rw written (write_all-append records values q rest e')
