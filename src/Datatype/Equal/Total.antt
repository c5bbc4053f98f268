-- ===== src/Datatype/Equal/Total.antt =====
-- `IsTypeEqual` comes to an end on any two types.
use aliyun_odps_go_sdk.Prelude.{
  ℕ, zero, suc, ◌<◌, ◌≤◌, ◌≡◌, refl, Bool, true, false, not, Option, none, some, arith, ◌==◌,
  if◌then◌else◌,
}
use aliyun_odps_go_sdk.Prelude.Int.{pos, eqb_ℤ}
use aliyun_odps_go_sdk.Text.{text_eq}
use aliyun_odps_go_sdk.Datatype.{
  DataType, StructFields, char_type, varchar_type, array_type, map_type, struct_type, no_fields,
  field, id,
}
use aliyun_odps_go_sdk.Datatype.Equal.{
  Equality, id_eq, count_fields, sort_fields, first_fields, as_struct, and_then, null_rule, same_id,
  compare_ids, is_equal, depth, depth_fields, depth-sort_fields, is_type_equal,
}

-- A comparison that has an answer.
abbrev pub Decides : Option Bool → Type 0
Decides o = (b : Bool) × (o ≡ some b)

Decides-and_then : (x y : Option Bool) → Decides x → Decides y → Decides (and_then x y)
Decides-and_then (some true) y h k = k
Decides-and_then (some false) y h k = (false, refl)
Decides-and_then none y h k = absurd (cc h.1)

Decides-if : (b : Bool) {o : Option Bool} → Decides o → Decides (if b then some false else o)
Decides-if true h = (false, refl)
Decides-if false h = h

first_fields-Decides :
    (d : ℕ) (eq : Equality) (fs fs' : StructFields)
    → ((t t' : DataType) → depth t ≤ d → Decides (eq t t'))
    → depth_fields fs ≤ d
    → Decides (first_fields eq fs fs')
unfolding first_fields
first_fields-Decides d eq no_fields fs' h le = (true, refl)
first_fields-Decides d eq (field n t fs) no_fields h le = (true, refl)
first_fields-Decides d eq (field n t fs) (field n' t' fs') h le =
    Decides-if (not (text_eq n n')) (h t t' (omega arith))

same_id-Decides :
    (eq : Equality) (t t' : DataType)
    → ((s s' : DataType) → depth s < depth t → Decides (eq s s'))
    → Decides (same_id eq t t')
unfolding same_id
same_id-Decides eq (array_type e) (array_type e') h = h e e' (omega arith)
same_id-Decides eq (array_type e) t' h = (false, refl)
same_id-Decides eq (map_type k v) (map_type k' v') h =
    Decides-and_then (eq k k') (eq v v') (h k k' (omega arith)) (h v v' (omega arith))
same_id-Decides eq (map_type k v) t' h = (false, refl)
same_id-Decides eq (struct_type fs) t' h =
    Decides-if (not (count_fields fs == count_fields (as_struct t'))) (
      first_fields-Decides (depth_fields fs) eq (sort_fields fs) (sort_fields (as_struct t'))
        (λ s s' le. h s s' (omega arith)) (omega (arith, depth-sort_fields fs)))
same_id-Decides eq (char_type n) (char_type n') h = (eqb_ℤ n n', refl)
same_id-Decides eq (char_type n) t' h = (eqb_ℤ n (pos 0), refl)
same_id-Decides eq (varchar_type n) (varchar_type n') h = (eqb_ℤ n n', refl)
same_id-Decides eq (varchar_type n) t' h = (eqb_ℤ n (pos 0), refl)
same_id-Decides eq t t' h = (true, refl)

compare_ids-Decides :
    (eq : Equality) (t t' : DataType) (o : Option Bool)
    → Decides (same_id eq t t')
    → Decides (compare_ids eq t t' o)
unfolding compare_ids
compare_ids-Decides eq t t' (some b) h = (b, refl)
compare_ids-Decides eq t t' none h = Decides-if (not (id_eq (id t) (id t'))) h

is_equal-Decides : (f : ℕ) (t t' : DataType) → depth t < f → Decides (is_equal f t t')
unfolding is_equal
is_equal-Decides zero t t' lt = absurd (omega arith)
is_equal-Decides (suc f) t t' lt =
    compare_ids-Decides (is_equal f) t t' (null_rule (id t) (id t'))
      (same_id-Decides (is_equal f) t t' λ s s' lt'. is_equal-Decides f s s' (omega arith))

-- The comparison of any two types by `IsTypeEqual` ends with an answer.
pub is_type_equal-Decides : (t t' : DataType) → Decides (is_type_equal t t')
unfolding is_type_equal
is_type_equal-Decides t t' = is_equal-Decides (suc (depth t)) t t' (omega arith)
