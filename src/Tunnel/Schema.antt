-- ===== src/Tunnel/Schema.antt =====
-- odps/tunnel/common.go: the schema that the tunnel service answers with.
use aliyun_odps_go_sdk.Prelude.{ℕ, Bool, not, List, [], ◌∷◌, leb, if◌then◌else◌}
use aliyun_odps_go_sdk.Text.{Text}
use aliyun_odps_go_sdk.Text.Unicode.{Unicode}
use aliyun_odps_go_sdk.Outcome
use aliyun_odps_go_sdk.Outcome.{Outcome, ok}
use aliyun_odps_go_sdk.Datatype.{DataType}
use aliyun_odps_go_sdk.Datatype.Parser.{TypeError, parse_data_type}
use aliyun_odps_go_sdk.Tunnel.Writer.{Column}

-- `columnResModel`, less the id of the column.
pub record ColumnModel : Type 0 where
  pub comment : Text
  pub default_value : Text
  pub name : Text
  pub nullable : Bool
  pub type : Text

-- `schemaResModel`
pub record SchemaModel : Type 0 where
  pub is_virtual_view : Bool
  pub columns : List ColumnModel
  pub partition_keys : List ColumnModel

-- The fields of `tableschema.Column` and `tableschema.TableSchema` that are filled here.
pub record TableColumn : Type 0 where
  pub name : Text
  pub type : DataType
  pub comment : Text
  pub not_null : Bool
  pub default_value : Text

pub record TableSchema : Type 0 where
  pub table_name : Text
  pub is_virtual_view : Bool
  pub columns : List TableColumn
  pub partition_columns : List TableColumn

-- What a record writer uses of the columns.
abbrev pub writer_columns : List TableColumn → List Column
writer_columns [] = []
writer_columns (c ∷ cs) = record { name = c.name; type = c.type } ∷ writer_columns cs

abbrev pub Parsed : Type 0 → Type 0
Parsed A = Outcome (Unit {0}) TypeError A

module _ (u : Unicode) where
  -- `toOdpsColumn`
  unfoldable pub to_odps_column : ColumnModel → Parsed TableColumn
  to_odps_column raw = Outcome.bind (parse_data_type u raw.type) λ type _.
      ok
        (record {
          name = raw.name;
          type = type;
          comment = raw.comment;
          not_null = not raw.nullable;
          default_value = raw.default_value;
        })
        tt

  unfoldable pub to_odps_columns : List ColumnModel → Parsed (List TableColumn)
  unfolding to_odps_column
  to_odps_columns [] = ok [] tt
  to_odps_columns (raw ∷ raws) =
      Outcome.bind (to_odps_column raw)
        λ c _. Outcome.bind (to_odps_columns raws) λ cs _. ok (c ∷ cs) tt

  -- `toTableSchema`
  unfoldable pub to_table_schema : Text → SchemaModel → Parsed TableSchema
  unfolding to_odps_columns
  to_table_schema table_name s = Outcome.bind (to_odps_columns s.columns) λ columns _.
      Outcome.bind (to_odps_columns s.partition_keys) λ partition_columns _.
        ok
          (record {
            table_name = table_name;
            is_virtual_view = s.is_virtual_view;
            columns = columns;
            partition_columns = partition_columns;
          })
          tt

-- `min`
unfoldable pub min : ℕ → ℕ → ℕ
min x y = if leb x y then x else y
