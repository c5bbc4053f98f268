-- ===== src/Data/Tests.antt =====
-- What the theorems on odps/data say at concrete values.
use aliyun_odps_go_sdk.Prelude.{◌≡◌, ◌≢◌, refl, arith, true, false, List, [], ◌∷◌}
use aliyun_odps_go_sdk.Prelude.Int.{pos}
use aliyun_odps_go_sdk.Text.{codes}
use aliyun_odps_go_sdk.Outcome.{ok, panic, divide_by_zero}
use aliyun_odps_go_sdk.Words.{wrap}
use aliyun_odps_go_sdk.Datatype.{TypeId, primitive}
use aliyun_odps_go_sdk.Data.{Data, Cell, Entries, present, no_entries, entry}
use aliyun_odps_go_sdk.Data.Instant.{
  new_interval_day_time, new_interval_day_time-fraction, new_interval_day_time-ne-normal,
  normal_interval,
}
use aliyun_odps_go_sdk.Data.TypeOf.{type_of, map_of}
use aliyun_odps_go_sdk.Data.Composite.Arrays.{
  Array, new_array_with_type, safe_append, Appended, safe_append-Appended,
}
use aliyun_odps_go_sdk.Data.Composite.Maps.{infer_entries, then_entry, infer_entries-last}
use aliyun_odps_go_sdk.Data.Composite.Structs.{index_of, new_struct, IsIndexed}
use aliyun_odps_go_sdk.Data.Composite.Structs.Indexed.{Set, set_named-Set}

wrap_three : wrap 64 (pos 3) ≡ pos 3
unfolding wrap
wrap_three = refl

new_interval_day_time-fraction_example :
    new_interval_day_time (pos 3) (pos 500_000_000)
    ≡ ok (record { total_seconds = pos 3; nanos = pos 0 }) tt
new_interval_day_time-fraction_example =
    new_interval_day_time-fraction (pos 3) 500_000_000 (omega arith) (omega arith) wrap_three

new_interval_day_time-ne-normal_example :
    new_interval_day_time (pos 3) (pos 2_000_000_000)
    ≢ ok (normal_interval (pos 3) 2_000_000_000) tt
new_interval_day_time-ne-normal_example =
    new_interval_day_time-ne-normal (pos 3) 2_000_000_000 (omega arith)

whole_seconds_panic : new_interval_day_time (pos 3) (pos 2_000_000_000) ≡ panic divide_by_zero
unfolding new_interval_day_time
whole_seconds_panic = refl

abbrev big_ints : Array
big_ints = new_array_with_type (primitive TypeId.bigint)

abbrev mixed : List Cell
mixed = present (Data.big_int (pos 1)) ∷ present (Data.bool true) ∷ []

safe_append-Appended_example :
    Appended (primitive TypeId.bigint) mixed big_ints (safe_append mixed big_ints)
unfolding new_array_with_type
safe_append-Appended_example = safe_append-Appended (primitive TypeId.bigint) mixed big_ints refl

abbrev one_entry : Entries
one_entry = entry (present (Data.bool true)) (present (Data.bool false)) no_entries

infer_entries-last_example :
    infer_entries (then_entry one_entry (Data.big_int (pos 1)) (Data.bool true))
    ≡ ok (map_of (type_of (Data.big_int (pos 1))) (type_of (Data.bool true))) tt
infer_entries-last_example = infer_entries-last one_entry (Data.big_int (pos 1)) (Data.bool true) tt

new_struct-IsIndexed : IsIndexed new_struct
unfolding new_struct index_of
new_struct-IsIndexed n = refl

set_named-Set_example : Set (codes "x") (present (Data.bool true)) new_struct
set_named-Set_example =
    set_named-Set (codes "x") (present (Data.bool true)) new_struct new_struct-IsIndexed
