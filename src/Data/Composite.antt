-- ===== src/Data/Composite.antt =====
-- odps/data/array.go, map.go and struct.go: arrays, maps and structs as objects that methods change,
-- with arguments that are `data.Data` already, which are converted to themselves.
pub mod Arrays
pub mod Maps
pub mod Structs
use aliyun_odps_go_sdk.Prelude.{Bool, true, false, Option, none, some}
use aliyun_odps_go_sdk.Outcome.{Outcome, ok, err, panic, out_of_fuel}

-- The errors of the checked methods and of `TypeInfer`.
pub data ValueError : Type 0 where
  type_not_set type_differs is_empty_value no_such_field : ValueError

-- `if !datatype.IsTypeEqual(…) { return … }` in a method of an object in the state `s`.
abbrev pub if_equal : {S : Type 0} → Option Bool → S → Outcome S ValueError (Unit {0})
if_equal none s = out_of_fuel
if_equal (some true) s = ok tt s
if_equal (some false) s = err type_differs s
