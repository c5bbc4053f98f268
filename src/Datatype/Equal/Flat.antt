-- ===== src/Datatype/Equal/Flat.antt =====
-- `IsTypeEqual` of types without structs: it holds exactly of the same types.
use aliyun_odps_go_sdk.Prelude.{
  ℕ, zero, suc, ◌<◌, ◌≡◌, ◌↔◌, refl, ap, subst, Bool, true, false, Option, none, some, arith,
}
use aliyun_odps_go_sdk.Prelude.Int.{ℤ, eqb_ℤ, eqb_ℤ_iff}
use aliyun_odps_go_sdk.Datatype.{
  TypeId, DataType, primitive, char_type, varchar_type, decimal_type, array_type, map_type,
  struct_type, json_type, id,
}
use aliyun_odps_go_sdk.Datatype.Equal.{
  and_then, null_rule, same_id, compare_ids, is_equal, depth, is_type_equal,
}
use aliyun_odps_go_sdk.Datatype.Equal.Same.{
  IsFlat, Same, same_primitive, same_char, same_varchar, same_decimal, same_json, same_array,
  same_map, array_null, null_array, map_null, null_map, Agrees, agree_false, agree_trans,
  primitives-Agrees, primitive-false, primitive-list, list-primitive, other-primitive,
}

char_length : {n m : ℤ} → Same (char_type n) (char_type m) → n ≡ m
char_length same_char = refl

varchar_length : {n m : ℤ} → Same (varchar_type n) (varchar_type m) → n ≡ m
varchar_length same_varchar = refl

array_part : {e e2 : DataType} → Same (array_type e) (array_type e2) → Same e e2
array_part (same_array s) = s

map_parts : {k k2 v v2 : DataType} → Same (map_type k v) (map_type k2 v2) → Same k k2 × Same v v2
map_parts (same_map s s2) = (s, s2)

first_null_array : {a : TypeId} {e : DataType} → Same (primitive a) (array_type e) → a ≡ TypeId.null
first_null_array null_array = refl

first_null_map : {a : TypeId} {k v : DataType} → Same (primitive a) (map_type k v) → a ≡ TypeId.null
first_null_map null_map = refl

second_null_array :
    {a : TypeId} {e : DataType} → Same (array_type e) (primitive a) → a ≡ TypeId.null
second_null_array array_null = refl

second_null_map :
    {a : TypeId} {k v : DataType} → Same (map_type k v) (primitive a) → a ≡ TypeId.null
second_null_map map_null = refl

-- No primitive type is a type with a length, a decimal or JSON.
abbrev IsRelated : DataType → DataType → Type 0
IsRelated (primitive a) (char_type n) = ⊥
IsRelated (primitive a) (varchar_type n) = ⊥
IsRelated (primitive a) (decimal_type p s) = ⊥
IsRelated (primitive a) json_type = ⊥
IsRelated (char_type n) (primitive a) = ⊥
IsRelated (varchar_type n) (primitive a) = ⊥
IsRelated (decimal_type p s) (primitive a) = ⊥
IsRelated json_type (primitive a) = ⊥
IsRelated t t' = Unit

Same-IsRelated : {t t' : DataType} → Same t t' → IsRelated t t'
Same-IsRelated same_primitive = tt
Same-IsRelated same_char = tt
Same-IsRelated same_varchar = tt
Same-IsRelated same_decimal = tt
Same-IsRelated same_json = tt
Same-IsRelated (same_array s) = tt
Same-IsRelated (same_map s s2) = tt
Same-IsRelated array_null = tt
Same-IsRelated null_array = tt
Same-IsRelated map_null = tt
Same-IsRelated null_map = tt

eqb_refl : (n : ℤ) → eqb_ℤ n n ≡ true
eqb_refl n = (eqb_ℤ_iff n n).1 refl

agree_both :
    {x y : Option Bool} {P Q : Type 0} → Agrees x P → Agrees y Q → Agrees (and_then x y) (P × Q)
agree_both {x = some true} h k = ((λ e. (h.0 refl, k.0 e)), (λ b. k.1 b.1))
agree_both {x = some false} h k = ((λ e. cc), (λ b. cc (h.1 b.0)))
agree_both {x = none} h k = ((λ e. cc), (λ b. cc (h.1 b.0)))

step-Agrees :
    (f : ℕ) (t t' : DataType)
    → IsFlat t
    → IsFlat t'
    → ((s s' : DataType)
        → IsFlat s
        → IsFlat s'
        → depth s < depth t
        → Agrees (is_equal f s s') (Same s s'))
    → Agrees (is_equal (suc f) t t') (Same t t')
unfolding is_equal compare_ids null_rule same_id id
step-Agrees f (primitive a) (primitive b) h h2 ih = primitives-Agrees f a b h h2
step-Agrees f (primitive a) (char_type n) h h2 ih =
    agree_false (primitive-false f a (char_type n) h (λ x. x) refl refl) Same-IsRelated
step-Agrees f (char_type n) (primitive b) h h2 ih =
    agree_false (other-primitive f (char_type n) b h2 (λ x. x) refl) Same-IsRelated
step-Agrees f (char_type n) (char_type m) h h2 ih = (
  (λ e.
      let n_eq : n ≡ m = (eqb_ℤ_iff n m).0 (cc) in
      subst (λ l. Same (char_type n) (char_type l)) n_eq same_char),
  (λ s. rw (char_length s) (ap some (eqb_refl m))),
)
step-Agrees f (primitive a) (varchar_type n) h h2 ih =
    agree_false (primitive-false f a (varchar_type n) h (λ x. x) refl refl) Same-IsRelated
step-Agrees f (varchar_type n) (primitive b) h h2 ih =
    agree_false (other-primitive f (varchar_type n) b h2 (λ x. x) refl) Same-IsRelated
step-Agrees f (varchar_type n) (varchar_type m) h h2 ih = (
  (λ e.
      let n_eq : n ≡ m = (eqb_ℤ_iff n m).0 (cc) in
      subst (λ l. Same (varchar_type n) (varchar_type l)) n_eq same_varchar),
  (λ s. rw (varchar_length s) (ap some (eqb_refl m))),
)
step-Agrees f (primitive a) (decimal_type p s) h h2 ih =
    agree_false (primitive-false f a (decimal_type p s) h (λ x. x) refl refl) Same-IsRelated
step-Agrees f (decimal_type p s) (primitive b) h h2 ih =
    agree_false (other-primitive f (decimal_type p s) b h2 (λ x. x) refl) Same-IsRelated
step-Agrees f (decimal_type p s) (decimal_type p2 s2) h h2 ih = ((λ _. same_decimal), (λ _. refl))
step-Agrees f (primitive a) json_type h h2 ih =
    agree_false (primitive-false f a json_type h (λ x. x) refl refl) Same-IsRelated
step-Agrees f json_type (primitive b) h h2 ih =
    agree_false (other-primitive f json_type b h2 (λ x. x) refl) Same-IsRelated
step-Agrees f json_type json_type h h2 ih = ((λ _. same_json), (λ _. refl))
step-Agrees f (primitive a) (array_type e) h h2 ih =
    agree_trans (primitive-list f a (array_type e) h (λ x. x) refl)
      ((λ e. rw e null_array), first_null_array)
step-Agrees f (array_type e) (primitive b) h h2 ih =
    agree_trans (list-primitive f (array_type e) b h2 (λ x. x) refl)
      ((λ e. rw e array_null), second_null_array)
step-Agrees f (array_type e) (array_type e2) h h2 ih =
    agree_trans (ih e e2 h h2 (omega arith)) (same_array, array_part)
step-Agrees f (primitive a) (map_type k v) h h2 ih =
    agree_trans (primitive-list f a (map_type k v) h (λ x. x) refl)
      ((λ e. rw e null_map), first_null_map)
step-Agrees f (map_type k v) (primitive b) h h2 ih =
    agree_trans (list-primitive f (map_type k v) b h2 (λ x. x) refl)
      ((λ e. rw e map_null), second_null_map)
step-Agrees f (map_type k v) (map_type k2 v2) h h2 ih =
    agree_trans (agree_both (ih k k2 h.0 h2.0 (omega arith)) (ih v v2 h.1 h2.1 (omega arith)))
      ((λ b. same_map b.0 b.1), map_parts)
step-Agrees f (struct_type fs) t' h h2 ih = absurd h
step-Agrees f (primitive a) (struct_type fs) h h2 ih = absurd h2
step-Agrees f (char_type n) (struct_type fs) h h2 ih = absurd h2
step-Agrees f (varchar_type n) (struct_type fs) h h2 ih = absurd h2
step-Agrees f (decimal_type p s) (struct_type fs) h h2 ih = absurd h2
step-Agrees f json_type (struct_type fs) h h2 ih = absurd h2
step-Agrees f (array_type e) (struct_type fs) h h2 ih = absurd h2
step-Agrees f (map_type k v) (struct_type fs) h h2 ih = absurd h2
step-Agrees f t t' h h2 ih = agree_false refl (λ s. elim s [ ])

is_equal-Agrees :
    (f : ℕ) (t t' : DataType)
    → IsFlat t
    → IsFlat t'
    → depth t < f
    → Agrees (is_equal f t t') (Same t t')
is_equal-Agrees zero t t' h h2 lt = absurd (omega arith)
is_equal-Agrees (suc f) t t' h h2 lt =
    step-Agrees f t t' h h2 λ s s' k k2 less. is_equal-Agrees f s s' k k2 (omega arith)

-- Two types that hold no struct and no missing element, key or value, and whose primitive parts have a
-- code of a type with no parts, are equal by `IsTypeEqual` exactly when they are the same: of one
-- primitive code, CHAR or VARCHAR of one length, DECIMAL of any precisions and scales, JSON, arrays
-- and maps whose parts are the same, or an array or a map and the null type.
pub is_type_equal-Same :
    (t t' : DataType) → IsFlat t → IsFlat t' → (is_type_equal t t' ≡ some true) ↔ Same t t'
unfolding is_type_equal
is_type_equal-Same t t' h h2 = is_equal-Agrees (suc (depth t)) t t' h h2 (omega arith)
