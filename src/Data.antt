-- ===== src/Data.antt =====
-- Package odps/data: the values of a record.
pub mod Instant
pub mod Make
pub mod TypeOf
pub mod Composite
mod Tests
use aliyun_odps_go_sdk.Prelude.{ℕ, Bool, true, false, Option, List, [], ◌∷◌, ◌++◌, if◌then◌else◌}
use aliyun_odps_go_sdk.Prelude.Int.{ℤ}
use aliyun_odps_go_sdk.Text.{Text}
use aliyun_odps_go_sdk.Words.{Bytes}
use aliyun_odps_go_sdk.Datatype.{DataType, StructFields}
use Instant.{Time, IntervalDayTime}

-- A Go `data.Data` that is not nil; a value and a pointer to it are one. Floats are their bit
-- patterns. Arrays and maps may have been made with no type.
mutual
  pub data Data : Type 0 where
    null : Data
    bool : Bool → Data
    tiny_int small_int int big_int : ℤ → Data
    float double : ℕ → Data
    string binary geography json : Bytes → Data
    char var_char : ℤ → Bytes → Data
    date date_time timestamp timestamp_ntz : Time → Data
    interval_day_time : IntervalDayTime → Data
    interval_year_month : ℤ → Data
    decimal : ℤ → ℤ → Bytes → Data
    array : Option DataType → Items → Data
    map : Option DataType → Option DataType → Entries → Data
    struct : StructFields → Members → Data

  -- A `data.Data` that may be nil.
  pub data Cell : Type 0 where
    absent : Cell
    present : Data → Cell

  pub data Items : Type 0 where
    nil : Items
    cons : Cell → Items → Items

  -- The entries of a Go map, in the order in which a loop over it comes to them.
  pub data Entries : Type 0 where
    no_entries : Entries
    entry : Cell → Cell → Entries → Entries

  pub data Members : Type 0 where
    no_members : Members
    member : Text → Cell → Members → Members

-- `data.Record`
abbrev pub Record : Type 0
Record = List Cell
