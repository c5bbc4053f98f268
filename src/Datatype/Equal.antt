-- ===== src/Datatype/Equal.antt =====
-- `IsTypeEqual` of odps/datatype/data_type.go. The two slices of fields are sorted by name, and the
-- loop over them returns in its first round.
pub mod Total
pub mod Same
pub mod Flat
use aliyun_odps_go_sdk.Prelude.{
  ℕ, zero, suc, ◌+◌, ◌<◌, ◌≤◌, ◌≡◌, refl, Bool, true, false, not, ◌||◌, Option, none, some, arith,
  ltb, ◌==◌, if◌then◌else◌, [], ◌∷◌, ◌⊎◌, ap, Bool-cases, inl, inr,
}
use aliyun_odps_go_sdk.Prelude.Int.{pos, eqb_ℤ}
use aliyun_odps_go_sdk.Text.{Text, text_eq, text_eq_refl}
use aliyun_odps_go_sdk.Datatype.{
  TypeId, DataType, StructFields, char_type, varchar_type, array_type, map_type, struct_type,
  no_fields, field, id,
}

-- The constants of `TypeID` are numbered from 0.
abbrev pub code_number : TypeId → ℕ
code_number TypeId.null = 0
code_number TypeId.bigint = 1
code_number TypeId.double = 2
code_number TypeId.boolean = 3
code_number TypeId.datetime = 4
code_number TypeId.string = 5
code_number TypeId.decimal = 6
code_number TypeId.map = 7
code_number TypeId.array = 8
code_number TypeId.void = 9
code_number TypeId.tinyint = 10
code_number TypeId.smallint = 11
code_number TypeId.int = 12
code_number TypeId.float = 13
code_number TypeId.char = 14
code_number TypeId.varchar = 15
code_number TypeId.date = 16
code_number TypeId.timestamp = 17
code_number TypeId.timestamp_ntz = 18
code_number TypeId.binary = 19
code_number TypeId.interval_day_time = 20
code_number TypeId.interval_year_month = 21
code_number TypeId.struct = 22
code_number TypeId.json = 23
code_number TypeId.geography = 24
code_number TypeId.type_unknown = 25

-- `==` on type codes.
abbrev pub id_eq : TypeId → TypeId → Bool
id_eq a b = code_number a == code_number b

-- `strings.Compare(s, t) < 0`. UTF-8 keeps the order of the code points.
unfoldable pub text_lt : Text → Text → Bool
text_lt s [] = false
text_lt [] (d ∷ t) = true
text_lt (c ∷ s) (d ∷ t) = if c == d then text_lt s t else ltb c d

abbrev pub count_fields : StructFields → ℕ
count_fields no_fields = 0
count_fields (field n t fs) = suc (count_fields fs)

insert_field : Text → DataType → StructFields → StructFields
insert_field n t no_fields = field n t no_fields
insert_field n t (field n' t' fs) =
    if text_lt n' n then field n' t' (insert_field n t fs) else field n t (field n' t' fs)

-- `sort.Sort` of the fields by `Less`, as an insertion sort; it leaves open the order of fields of one
-- name, and here they keep theirs.
unfoldable pub sort_fields : StructFields → StructFields
unfolding insert_field text_lt
sort_fields no_fields = no_fields
sort_fields (field n t fs) = insert_field n t (sort_fields fs)

-- A call of `IsTypeEqual`; `none` if its fuel runs out.
abbrev pub Equality : Type 0
Equality = DataType → DataType → Option Bool

-- The round of the loop at index 0; with no field the loop does not run.
unfoldable pub first_fields : Equality → StructFields → StructFields → Option Bool
first_fields eq (field n t fs) (field n' t' fs') =
    if not (text_eq n n') then some false else eq t t'
first_fields eq fs fs' = some true

-- `t2.(StructType)`: the zero value where the type is another.
abbrev pub as_struct : DataType → StructFields
as_struct (struct_type fs) = fs
as_struct t = no_fields

-- `a && b` of two calls.
abbrev pub and_then : Option Bool → Option Bool → Option Bool
and_then (some true) b = b
and_then (some false) b = some false
and_then none b = none

-- `case ARRAY, MAP` and `case NULL` of the first switch; `none` goes on behind it.
unfoldable pub null_rule : TypeId → TypeId → Option Bool
null_rule TypeId.array b = if id_eq b TypeId.null then some true else none
null_rule TypeId.map b = if id_eq b TypeId.null then some true else none
null_rule TypeId.null b = some (id_eq b TypeId.array || id_eq b TypeId.map || id_eq b TypeId.null)
null_rule a b = none

-- The type switch. Where the ids agree but `t2` has another Go type, the assertion yields the zero
-- value: an absent element type is equal to none, and a length is 0.
unfoldable pub same_id : Equality → DataType → DataType → Option Bool
unfolding sort_fields first_fields
same_id eq (struct_type fs) t2 =
    if not (count_fields fs == count_fields (as_struct t2))
    then some false
    else first_fields eq (sort_fields fs) (sort_fields (as_struct t2))
same_id eq (map_type k v) (map_type k' v') = and_then (eq k k') (eq v v')
same_id eq (map_type k v) t2 = some false
same_id eq (array_type e) (array_type e') = eq e e'
same_id eq (array_type e) t2 = some false
same_id eq (char_type n) (char_type n') = some (eqb_ℤ n n')
same_id eq (char_type n) t2 = some (eqb_ℤ n (pos 0))
same_id eq (varchar_type n) (varchar_type n') = some (eqb_ℤ n n')
same_id eq (varchar_type n) t2 = some (eqb_ℤ n (pos 0))
same_id eq t1 t2 = some true

unfoldable pub compare_ids : Equality → DataType → DataType → Option Bool → Option Bool
unfolding same_id id
compare_ids eq t1 t2 (some b) = some b
compare_ids eq t1 t2 none = if not (id_eq (id t1) (id t2)) then some false else same_id eq t1 t2

-- `IsTypeEqual` of two types that neither are nil nor hold nil. Such types come of arrays and maps made
-- with no type; Data.TypeOf has their comparison, `types_equal`.
unfoldable pub is_equal : ℕ → Equality
unfolding compare_ids null_rule id
is_equal zero t1 t2 = none
is_equal (suc f) t1 t2 = compare_ids (is_equal f) t1 t2 (null_rule (id t1) (id t2))

abbrev mutual
  pub depth : DataType → ℕ
  depth (array_type e) = suc (depth e)
  depth (map_type k v) = suc (depth k + depth v)
  depth (struct_type fs) = suc (depth_fields fs)
  depth t = 0

  pub depth_fields : StructFields → ℕ
  depth_fields no_fields = 0
  depth_fields (field n t fs) = depth t + depth_fields fs

-- The recursion goes no deeper than the first type.
unfoldable pub is_type_equal : Equality
unfolding is_equal
is_type_equal t1 t2 = is_equal (suc (depth t1)) t1 t2

depth-insert_field :
    (n : Text) (t : DataType) (fs : StructFields)
    → depth_fields (insert_field n t fs) ≡ depth t + depth_fields fs
unfolding insert_field
depth-insert_field n t no_fields = refl
depth-insert_field n t (field n' t' fs) = elim (Bool-cases (text_lt n' n)) [
  | inl after ↦ rw after (omega (arith, depth-insert_field n t fs))
  | inr here ↦ rw here (omega arith)
]

pub depth-sort_fields : (fs : StructFields) → depth_fields (sort_fields fs) ≡ depth_fields fs
unfolding sort_fields
depth-sort_fields no_fields = refl
depth-sort_fields (field n t fs) =
    omega (arith, depth-insert_field n t (sort_fields fs), depth-sort_fields fs)

==-refl : (n : ℕ) → (n == n) ≡ true
==-refl n = ground arith

first_fields_refl :
    (d : ℕ) (eq : Equality) (fs : StructFields)
    → ((t : DataType) → depth t ≤ d → eq t t ≡ some true)
    → depth_fields fs ≤ d
    → first_fields eq fs fs ≡ some true
unfolding first_fields
first_fields_refl d eq no_fields h le = refl
first_fields_refl d eq (field n t fs) h le = rw (text_eq_refl n) (h t (omega arith))

null_rule_refl : (code : TypeId) → (null_rule code code ≡ none) ⊎ (null_rule code code ≡ some true)
unfolding null_rule
null_rule_refl TypeId.null = inr refl
null_rule_refl code = inl refl

compare_ids_refl :
    (eq : Equality) (t : DataType)
    → same_id eq t t ≡ some true
    → compare_ids eq t t (null_rule (id t) (id t)) ≡ some true
unfolding compare_ids
compare_ids_refl eq t h = elim (null_rule_refl (id t)) [
  | inl next ↦ rw (next, ==-refl (code_number (id t))) h
  | inr done ↦ rw done
]

same_id_refl :
    (eq : Equality) (t : DataType)
    → ((s : DataType) → depth s < depth t → eq s s ≡ some true)
    → same_id eq t t ≡ some true
unfolding same_id
same_id_refl eq (array_type e) h = h e (omega arith)
same_id_refl eq (map_type k v) h = rw (h k (omega arith), h v (omega arith))
same_id_refl eq (struct_type fs) h = rw (==-refl (count_fields fs)) (
    first_fields_refl (depth_fields fs) eq (sort_fields fs) (λ s le. h s (omega arith))
      (omega (arith, depth-sort_fields fs)))
same_id_refl eq (char_type n) h = ap some (==-refl _)
same_id_refl eq (varchar_type n) h = ap some (==-refl _)
same_id_refl eq t h = refl

pub is_equal_refl : (f : ℕ) (t : DataType) → depth t < f → is_equal f t t ≡ some true
unfolding is_equal
is_equal_refl zero t h = absurd (omega arith)
is_equal_refl (suc f) t h =
    compare_ids_refl (is_equal f) t
      (same_id_refl (is_equal f) t (λ s lt. is_equal_refl f s (omega arith)))

-- Two structs with as many fields each are equal by `IsTypeEqual` as soon as the fields with the
-- least names agree in name and type: the types of the other fields are not compared.
pub is_type_equal-first_field :
    (fs fs' rest rest' : StructFields) (n : Text) (t : DataType)
    → count_fields fs ≡ count_fields fs'
    → sort_fields fs ≡ field n t rest
    → sort_fields fs' ≡ field n t rest'
    → is_type_equal (struct_type fs) (struct_type fs') ≡ some true
unfolding is_type_equal is_equal same_id first_fields
is_type_equal-first_field fs fs' rest rest' n t counts first first' =
    rw (counts, ==-refl (count_fields fs'), first, first', text_eq_refl n)
      (is_equal_refl (suc (depth_fields fs)) t
        (omega (arith, depth-sort_fields fs, ap depth_fields first)))
