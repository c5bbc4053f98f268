-- ===== src/Datatype/Tests.antt =====
-- Runs of the type parser, and what the theorems on it say at concrete types.
use aliyun_odps_go_sdk.Prelude.{◌≡◌, ◌↔◌, refl, arith, some, false, true, [], ◌++◌}
use aliyun_odps_go_sdk.Prelude.Int.{pos}
use aliyun_odps_go_sdk.Text.{Text, codes}
use aliyun_odps_go_sdk.Text.Unicode.{Unicode, trim_space, fields}
use aliyun_odps_go_sdk.Text.Decimal.{parse_int}
use aliyun_odps_go_sdk.Datatype.Tokens.{tokenize, tokenize_trimmed, token_step}
use aliyun_odps_go_sdk.Outcome.{Outcome, ok, err, panic, index_out_of_range}
use aliyun_odps_go_sdk.Datatype.{
  TypeId, DataType, StructFields, type_code_from_str, primitive, char_type, decimal_type,
  array_type, map_type, struct_type, no_fields, field, name,
}
use aliyun_odps_go_sdk.Text.Unicode.{is_space}
use aliyun_odps_go_sdk.Outcome.{Ensures}
use aliyun_odps_go_sdk.Datatype.Tokens.{is_identifier_char}
use aliyun_odps_go_sdk.Datatype.WellFormed.{
  IsAccepted, wf_primitive, wf_char, wf_decimal, wf_map, wf_struct, wf_end, wf_field,
}
use aliyun_odps_go_sdk.Datatype.Written.{written, IsWord, AllWordChars, IsWritable}
use aliyun_odps_go_sdk.Datatype.Total.{parse_data_type-IsAccepted}
use aliyun_odps_go_sdk.Datatype.RoundTrip.{
  parse_data_type-written, parse_data_type-name, parse_data_type-suffix,
}
use aliyun_odps_go_sdk.Datatype.Quoted.{parse_data_type-name_struct}
use aliyun_odps_go_sdk.Datatype.Equal.Same.{Same}
use aliyun_odps_go_sdk.Datatype.Equal.Flat.{is_type_equal-Same}
use aliyun_odps_go_sdk.Datatype.Equal.{
  is_type_equal, sort_fields, text_lt, is_type_equal-first_field,
}
use aliyun_odps_go_sdk.Datatype.Parser.{
  TypeError, parse, parse_type, parse_field, finish, consume_token, first_token, parse_data_type,
  tokens_left, parse_failed, expected,
}

-- Code points above 127 are no letters, digits or spaces here.
abbrev ascii : Unicode
ascii = record { space = λ c. false; letter = λ c. false; digit = λ c. false; upper = λ c. c }

-- `parse_data_type` with all that a run needs.
parse_ascii : Text → Outcome (Unit {0}) TypeError DataType
unfolding parse_data_type parse finish tokenize tokenize_trimmed token_step trim_space fields
    parse_int consume_token parse_type parse_field type_code_from_str first_token
parse_ascii = parse_data_type ascii

parse_map :
    parse_ascii (codes " map<string, struct<x: Int,y:ARRAY<decimal(10,2)>>> ")
    ≡ ok
        (map_type (primitive TypeId.string) (
          struct_type (
            field
              (codes "x")
              (primitive TypeId.int)
              (field (codes "y") (array_type (decimal_type (pos 10) (pos 2))) no_fields))))
        tt
unfolding parse_ascii
parse_map = refl

parse_plain : parse_ascii (codes "bigint") ≡ ok (primitive TypeId.bigint) tt
unfolding parse_ascii
parse_plain = refl

parse_empty : parse_ascii [] ≡ panic index_out_of_range
unfolding parse_ascii
parse_empty = refl

-- An array of `DECIMAL` with no arguments is refused: a `(` is expected before the `>`.
parse_nested_decimal :
    parse_ascii (codes "ARRAY<DECIMAL>")
    ≡ err (parse_failed (codes "ARRAY<DECIMAL>") (expected (codes "(") (codes ">") 4)) tt
unfolding parse_ascii
parse_nested_decimal = refl

IsWord-id : IsWord ascii (codes "id")
unfolding is_space is_identifier_char
IsWord-id = (((refl, refl), ((refl, refl), tt)), cc)

word_x : AllWordChars ascii (codes "x")
unfolding is_space is_identifier_char
word_x = ((refl, refl), tt)

-- STRUCT<id:CHAR(5),x:MAP<STRING,DECIMAL(10,2)>>
abbrev prices : DataType
prices = map_type (primitive TypeId.string) (decimal_type (pos 10) (pos 2))

abbrev sample_fields : StructFields
sample_fields = field (codes "id") (char_type (pos 5)) (field (codes "x") prices no_fields)

prices-IsWritable : IsWritable ascii prices
prices-IsWritable =
    wf_map (wf_primitive tt) (wf_decimal (omega arith, omega arith) (omega arith, omega arith))

sample-IsWritable : IsWritable ascii (struct_type sample_fields)
sample-IsWritable = wf_struct tt (
    wf_field IsWord-id (wf_char (omega arith) (omega arith))
      (wf_field (word_x, cc) prices-IsWritable wf_end))

parse_data_type-IsAccepted_example :
    Ensures (λ t _. IsAccepted t) (parse_data_type ascii (codes "MAP<STRING,ARRAY<CHAR(5)>>"))
parse_data_type-IsAccepted_example =
    parse_data_type-IsAccepted ascii (codes "MAP<STRING,ARRAY<CHAR(5)>>")

parse_data_type-written_example :
    parse_data_type ascii (written (struct_type sample_fields)) ≡ ok (struct_type sample_fields) tt
parse_data_type-written_example = parse_data_type-written ascii sample-IsWritable

parse_data_type-name_example : parse_data_type ascii (name prices) ≡ ok prices tt
parse_data_type-name_example = parse_data_type-name ascii prices-IsWritable (tt, tt)

parse_data_type-suffix_example : parse_data_type ascii (written prices ++ codes "x") ≡ ok prices tt
parse_data_type-suffix_example =
    parse_data_type-suffix ascii (codes "x") prices-IsWritable tt word_x

parse_data_type-name_struct_example :
    parse_data_type ascii (name (struct_type sample_fields))
    ≡ err (tokens_left (name (struct_type sample_fields)) (codes "`") 4) tt
parse_data_type-name_struct_example =
    parse_data_type-name_struct ascii (codes "id") (char_type (pos 5))
      (field (codes "x") prices no_fields) IsWord-id

abbrev names : DataType
names = map_type (char_type (pos 5)) (array_type (decimal_type (pos 10) (pos 2)))

abbrev longer_names : DataType
longer_names = map_type (char_type (pos 6)) (array_type (primitive TypeId.null))

is_type_equal-Same_example :
    (is_type_equal names longer_names ≡ some true) ↔ Same names longer_names
is_type_equal-Same_example = is_type_equal-Same names longer_names (tt, tt) (tt, tt)

abbrev other_fields : StructFields
other_fields =
    field (codes "id") (char_type (pos 5)) (field (codes "y") (primitive TypeId.bigint) no_fields)

sort_sample : sort_fields sample_fields ≡ sample_fields
unfolding sort_fields text_lt
sort_sample = refl

sort_other : sort_fields other_fields ≡ other_fields
unfolding sort_fields text_lt
sort_other = refl

is_type_equal-first_field_example :
    is_type_equal (struct_type sample_fields) (struct_type other_fields) ≡ some true
is_type_equal-first_field_example =
    is_type_equal-first_field sample_fields other_fields (field (codes "x") prices no_fields)
      (field (codes "y") (primitive TypeId.bigint) no_fields) (codes "id") (char_type (pos 5)) refl
      sort_sample sort_other
