-- ===== src/Data/Composite/Maps.antt =====
-- odps/data/map.go. The entries of a map come in the order in which its loops run over them.
use aliyun_odps_go_sdk.Prelude.{
  ℕ, ◌+◌, ◌≡◌, refl, Bool, true, false, Option, none, some, ◌==◌, if◌then◌else◌,
}
use aliyun_odps_go_sdk.Outcome
use aliyun_odps_go_sdk.Outcome.{
  Outcome, ok, err, panic, out_of_fuel, nil_dereference, unhashable_key,
}
use aliyun_odps_go_sdk.Datatype.{DataType}
use aliyun_odps_go_sdk.Data.{Data, Cell, Entries, absent, present, no_entries, entry}
use aliyun_odps_go_sdk.Data.TypeOf.{type_of, types_equal, map_of}
use aliyun_odps_go_sdk.Data.Composite.{ValueError, type_not_set, is_empty_value, if_equal}
use aliyun_odps_go_sdk.Tunnel.Reader.Field.{set_entry, is_hashable}

-- `Map`
pub record Map : Type 0 where
  pub key_type : Option DataType
  pub value_type : Option DataType
  pub entries : Entries
  pub valid : Bool

-- `NewMap`, `NewMapWithType`
unfoldable pub new_map : Map
new_map = record { key_type = none; value_type = none; entries = no_entries; valid = false }

unfoldable pub new_map_with_type : DataType → DataType → Map
new_map_with_type k v = record {
  key_type = some k;
  value_type = some v;
  entries = no_entries;
  valid = true;
}

-- `m.data[key] = value`
unfoldable pub put_entry : Cell → Cell → Map → Outcome Map ValueError (Unit {0})
unfolding set_entry is_hashable
put_entry key value m =
    if is_hashable key
    then ok tt (record m { entries = set_entry key value m.entries })
    else panic unhashable_key

-- The tests of `SafeSet` on a key or a value: `Type` of a nil stops the program.
unfoldable pub check_type : Option DataType → Cell → Map → Outcome Map ValueError (Unit {0})
unfolding types_equal
check_type t absent m = panic nil_dereference
check_type t (present d) m = if_equal (types_equal (type_of d) t) m

unfoldable pub set_typed :
    Option DataType → Option DataType → Cell → Cell → Map → Outcome Map ValueError (Unit {0})
unfolding check_type put_entry
set_typed (some k) (some v) key value m =
    Outcome.bind (check_type (some k) key m)
      λ _ m'. Outcome.bind (check_type (some v) value m') λ _ m''. put_entry key value m''
set_typed _ _ key value m = err type_not_set m

-- `SafeSet`
unfoldable pub safe_set : Cell → Cell → Map → Outcome Map ValueError (Unit {0})
unfolding set_typed
safe_set key value m = set_typed m.key_type m.value_type key value m

-- The loop of `TypeInfer` with its `i`, `keyT` and `valueT`; the first branch goes on to the next entry
-- before the increment of `i`.
unfoldable pub infer_rounds :
    ℕ
    → Option DataType
    → Option DataType
    → Entries
    → Outcome (Unit {0}) ValueError (Option DataType × Option DataType)
unfolding types_equal
infer_rounds i k v no_entries = ok (k, v) tt
infer_rounds i k v (entry (present key) (present value) es) =
    let first = infer_rounds i (type_of key) (type_of value) es in
    let rest = infer_rounds (i + 1) k v es in
    if i == 0
    then first
    else Outcome.bind (if_equal (types_equal k (type_of key)) tt)
        λ _ _. Outcome.bind (if_equal (types_equal v (type_of value)) tt) λ _ _. rest
infer_rounds i k v (entry key value es) = panic nil_dereference

-- `TypeInfer`; `none` is a map type that holds nil.
unfoldable pub infer_entries : Entries → Outcome (Unit {0}) ValueError (Option DataType)
unfolding infer_rounds
infer_entries no_entries = err is_empty_value tt
infer_entries (entry key value es) =
    Outcome.bind (infer_rounds 0 none none (entry key value es))
      λ types _. ok (map_of types.0 types.1) tt

-- The entries with no nil in them.
abbrev pub NoNil : Entries → Type 0
NoNil no_entries = Unit
NoNil (entry (present key) (present value) es) = NoNil es
NoNil _ = ⊥

-- Entries with one more at the end.
abbrev pub then_entry : Entries → Data → Data → Entries
then_entry no_entries key value = entry (present key) (present value) no_entries
then_entry (entry k v es) key value = entry k v (then_entry es key value)

infer_rounds-last :
    (k v : Option DataType) (es : Entries) (key value : Data)
    → NoNil es
    → infer_rounds 0 k v (then_entry es key value) ≡ ok (type_of key, type_of value) tt
unfolding infer_rounds
infer_rounds-last k v no_entries key value h = refl
infer_rounds-last k v (entry (present key') (present value') es) key value h =
    infer_rounds-last (type_of key') (type_of value') es key value h
infer_rounds-last k v (entry absent value' es) key value h = absurd h
infer_rounds-last k v (entry (present key') absent es) key value h = absurd h

-- `TypeInfer` of a map with no nil in it returns the types of the entry that its loop comes to last, and
-- no error, whatever the types of the entries before it.
pub infer_entries-last :
    (es : Entries) (key value : Data)
    → NoNil es
    → infer_entries (then_entry es key value) ≡ ok (map_of (type_of key) (type_of value)) tt
unfolding infer_entries infer_rounds
infer_entries-last no_entries key value h = refl
infer_entries-last (entry k v es) key value h =
    rw (infer_rounds-last none none (entry k v es) key value h)
