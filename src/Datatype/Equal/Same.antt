-- ===== src/Datatype/Equal/Same.antt =====
-- What it means for two types without structs to be equal by `IsTypeEqual`.
use aliyun_odps_go_sdk.Prelude.{
  ℕ, suc, ◌≡◌, ◌≢◌, ◌↔◌, ◌⊎◌, refl, sym, ap, ◌∙◌, subst, Bool, true, false, ◌||◌, Option, none,
  some, List, [], ◌∷◌, arith, ◌==◌, if◌then◌else◌, get_elem?, Bool-cases, inl, inr,
}
use aliyun_odps_go_sdk.Prelude.Int.{ℤ}
use aliyun_odps_go_sdk.Datatype.{
  TypeId, DataType, primitive, char_type, varchar_type, decimal_type, array_type, map_type,
  struct_type, json_type, id,
}
use aliyun_odps_go_sdk.Datatype.WellFormed.{IsPrimitive}
use aliyun_odps_go_sdk.Datatype.Equal.{
  code_number, id_eq, null_rule, same_id, compare_ids, is_equal, is_equal_refl,
}

-- The codes of the types that have no parts, the null type among them.
abbrev pub IsSimple : TypeId → Type 0
IsSimple TypeId.null = Unit
IsSimple code = IsPrimitive code

-- The types that hold no struct, and whose primitive parts have a code of a type with no parts.
abbrev pub IsFlat : DataType → Type 0
IsFlat (primitive code) = IsSimple code
IsFlat (array_type e) = IsFlat e
IsFlat (map_type k v) = IsFlat k × IsFlat v
IsFlat (struct_type fs) = ⊥
IsFlat _ = Unit

-- The same type, but for the precision and the scale of decimals; arrays and maps are also the same as
-- the null type.
pub data Same : DataType → DataType → Type 0 where
  same_primitive : {code : TypeId} → Same (primitive code) (primitive code)
  same_char : {n : ℤ} → Same (char_type n) (char_type n)
  same_varchar : {n : ℤ} → Same (varchar_type n) (varchar_type n)
  same_decimal : {p s p' s' : ℤ} → Same (decimal_type p s) (decimal_type p' s')
  same_json : Same json_type json_type
  same_array : {e e' : DataType} → Same e e' → Same (array_type e) (array_type e')
  same_map : {k k' v v' : DataType} → Same k k' → Same v v' → Same (map_type k v) (map_type k' v')
  array_null : {e : DataType} → Same (array_type e) (primitive TypeId.null)
  null_array : {e : DataType} → Same (primitive TypeId.null) (array_type e)
  map_null : {k v : DataType} → Same (map_type k v) (primitive TypeId.null)
  null_map : {k v : DataType} → Same (primitive TypeId.null) (map_type k v)

abbrev codes_by_number : List TypeId
codes_by_number =
    TypeId.null ∷ TypeId.bigint ∷ TypeId.double ∷ TypeId.boolean ∷ TypeId.datetime ∷ TypeId.string
    ∷ TypeId.decimal ∷ TypeId.map ∷ TypeId.array ∷ TypeId.void ∷ TypeId.tinyint ∷ TypeId.smallint
    ∷ TypeId.int ∷ TypeId.float ∷ TypeId.char ∷ TypeId.varchar ∷ TypeId.date ∷ TypeId.timestamp
    ∷ TypeId.timestamp_ntz ∷ TypeId.binary ∷ TypeId.interval_day_time ∷ TypeId.interval_year_month
    ∷ TypeId.struct ∷ TypeId.json ∷ TypeId.geography ∷ TypeId.type_unknown ∷ []

code_at : (code : TypeId) → get_elem? codes_by_number (code_number code) ≡ some code
code_at code = elim code as (λ k. get_elem? codes_by_number (code_number k) ≡ some k) [
  | TypeId.null ↦ refl
  | TypeId.bigint ↦ refl
  | TypeId.double ↦ refl
  | TypeId.boolean ↦ refl
  | TypeId.datetime ↦ refl
  | TypeId.string ↦ refl
  | TypeId.decimal ↦ refl
  | TypeId.map ↦ refl
  | TypeId.array ↦ refl
  | TypeId.void ↦ refl
  | TypeId.tinyint ↦ refl
  | TypeId.smallint ↦ refl
  | TypeId.int ↦ refl
  | TypeId.float ↦ refl
  | TypeId.char ↦ refl
  | TypeId.varchar ↦ refl
  | TypeId.date ↦ refl
  | TypeId.timestamp ↦ refl
  | TypeId.timestamp_ntz ↦ refl
  | TypeId.binary ↦ refl
  | TypeId.interval_day_time ↦ refl
  | TypeId.interval_year_month ↦ refl
  | TypeId.struct ↦ refl
  | TypeId.json ↦ refl
  | TypeId.geography ↦ refl
  | TypeId.type_unknown ↦ refl
]

code_number-injective : (a b : TypeId) → code_number a ≡ code_number b → a ≡ b
code_number-injective a b e =
    let same = sym (code_at a) ∙ (ap (get_elem? codes_by_number) e ∙ code_at b) in cc same

id_eq_iff : (a b : TypeId) → (id_eq a b ≡ true) ↔ (a ≡ b)
id_eq_iff a b =
    ((λ e. code_number-injective a b (ground arith)), (λ e. rw e (refl_at (code_number b))))
  where
    refl_at : (n : ℕ) → (n == n) ≡ true
    refl_at n = ground arith

differ : (a b : TypeId) → a ≢ b → id_eq a b ≡ false
differ a b ne = elim (Bool-cases (id_eq a b)) [
  | inl e ↦ absurd (ne ((id_eq_iff a b).0 e))
  | inr e ↦ e
]

-- A simple code is none of the others.
simple_differs : (a b : TypeId) → IsSimple a → ¬ IsSimple b → id_eq a b ≡ false
simple_differs a b h k = differ a b λ e. k (subst IsSimple e h)

differs_simple : (a b : TypeId) → IsSimple a → ¬ IsSimple b → id_eq b a ≡ false
differs_simple a b h k = differ b a λ e. k (subst IsSimple (sym e) h)

simple_cases :
    (code : TypeId)
    → IsSimple code
    → (code ≡ TypeId.null) ⊎ ((b : TypeId) → null_rule code b ≡ none)
unfolding null_rule
simple_cases TypeId.null h = inl refl
simple_cases TypeId.array h = absurd h
simple_cases TypeId.map h = absurd h
simple_cases code h = inr λ b. refl

-- The answer is `some true` exactly for the same types.
abbrev pub Agrees : Option Bool → Type 0 → Type 0
Agrees o P = (o ≡ some true) ↔ P

pub agree_false : {o : Option Bool} {P : Type 0} → o ≡ some false → ¬ P → Agrees o P
agree_false e ne = ((λ h. let bad : ⊥ = cc in absurd bad), (λ p. absurd (ne p)))

same_codes : {a b : TypeId} → Same (primitive a) (primitive b) → a ≡ b
same_codes same_primitive = refl

pub primitives-Agrees :
    (f : ℕ) (a b : TypeId)
    → IsSimple a
    → IsSimple b
    → Agrees (is_equal (suc f) (primitive a) (primitive b)) (Same (primitive a) (primitive b))
unfolding is_equal compare_ids null_rule same_id id
primitives-Agrees f a b ha hb = elim (Bool-cases (id_eq a b)) [
  | inl e ↦
      let same : a ≡ b = (id_eq_iff a b).0 e in
      (
        (λ _. subst (λ c. Same (primitive a) (primitive c)) same same_primitive),
        (λ _.
            subst (λ c. is_equal (suc f) (primitive a) (primitive c) ≡ some true) same
              (is_equal_refl (suc f) (primitive a) (omega arith))),
      )
  | inr e ↦
      let ne : a ≢ b = λ same. cc ((id_eq_iff a b).1 same) in
      agree_false
        (elim (simple_cases a ha) [
          | inl null ↦
              let not_null : id_eq b TypeId.null ≡ false =
                differ b TypeId.null λ k. ne (null ∙ sym k) in
              rw (
                null,
                simple_differs b TypeId.array hb λ x. x,
                simple_differs b TypeId.map hb λ x. x,
                not_null,
              )
          | inr next ↦ rw (next b, e)
        ])
        (λ s. ne (same_codes s))
]

-- A primitive type and one with parts that is no array and no map.
pub primitive-false :
    (f : ℕ) (a : TypeId) (t : DataType)
    → IsSimple a
    → ¬ IsSimple (id t)
    → id_eq (id t) TypeId.array ≡ false
    → id_eq (id t) TypeId.map ≡ false
    → is_equal (suc f) (primitive a) t ≡ some false
unfolding is_equal compare_ids null_rule id
primitive-false f a t ha other no_array no_map = elim (simple_cases a ha) [
  | inl null ↦
      let not_null = differs_simple TypeId.null (id t) tt other in
      rw (null, no_array, no_map, not_null)
  | inr next ↦ rw (next (id t), simple_differs a (id t) ha other)
]

-- A primitive type and an array or a map.
pub primitive-list :
    (f : ℕ) (a : TypeId) (t : DataType)
    → IsSimple a
    → ¬ IsSimple (id t)
    → (id_eq (id t) TypeId.array || id_eq (id t) TypeId.map || id_eq (id t) TypeId.null) ≡ true
    → Agrees (is_equal (suc f) (primitive a) t) (a ≡ TypeId.null)
unfolding is_equal compare_ids null_rule id
primitive-list f a t ha other list = elim (simple_cases a ha) [
  | inl null ↦ ((λ _. null), (λ _. rw (null, list)))
  | inr next ↦
      agree_false (rw (next (id t), simple_differs a (id t) ha other))
        (λ e. let bad = next (id t) in cc (rw e at bad))
]

pub list-primitive :
    (f : ℕ) (t : DataType) (b : TypeId)
    → IsSimple b
    → ¬ IsSimple (id t)
    → null_rule (id t) b ≡ (if id_eq b TypeId.null then some true else none)
    → Agrees (is_equal (suc f) t (primitive b)) (b ≡ TypeId.null)
unfolding is_equal compare_ids id
list-primitive f t b hb other rule = elim (Bool-cases (id_eq b TypeId.null)) [
  | inl e ↦ ((λ _. (id_eq_iff b TypeId.null).0 e), (λ _. rw (rule, e)))
  | inr e ↦
      agree_false (rw (rule, e, differs_simple b (id t) hb other))
        (λ null. cc ((id_eq_iff b TypeId.null).1 null))
]

pub other-primitive :
    (f : ℕ) (t : DataType) (b : TypeId)
    → IsSimple b
    → ¬ IsSimple (id t)
    → null_rule (id t) b ≡ none
    → is_equal (suc f) t (primitive b) ≡ some false
unfolding is_equal compare_ids id
other-primitive f t b hb other rule = rw (rule, differs_simple b (id t) hb other)

-- A chain of equivalent statements.
pub agree_trans : {o : Option Bool} {P Q : Type 0} → Agrees o P → (P ↔ Q) → Agrees o Q
agree_trans h k = ((λ e. k.0 (h.0 e)), (λ q. h.1 (k.1 q)))
