-- ===== src/Data/Composite/Structs/Indexed.antt =====
-- The indexes of a struct, and what its fields come to by their names.
use aliyun_odps_go_sdk.Prelude.{
  ℕ, suc, ◌≡◌, refl, sym, ap, ◌∙◌, Bool, true, false, Option, none, some, List, [], ◌∷◌, ◌++◌,
  length, get_elem?, if◌then◌else◌, Bool-cases, inl, inr,
}
use aliyun_odps_go_sdk.Text.{Text, text_eq, text_eq_iff}
use aliyun_odps_go_sdk.Outcome.{ok}
use aliyun_odps_go_sdk.Data.{Cell, Members, absent, no_members, member}
use aliyun_odps_go_sdk.Tunnel.Reader.Field.{set_field}
use aliyun_odps_go_sdk.Data.Composite.Structs.{
  StructField, Struct, index_of, get_field, replace_at, set_at, set_named, next_place, find_place,
  get_by_name, set_by_name, IsIndexed,
}

same_name : (n m : Text) → text_eq n m ≡ true → n ≡ m
same_name n m = (text_eq_iff n m).0

other_name : (m n k : Text) → text_eq n k ≡ false → text_eq m k ≡ true → text_eq m n ≡ false
other_name m n k differs same = elim (Bool-cases (text_eq m n)) [
  | inl e ↦
      let equal : n ≡ k = sym (same_name m n e) ∙ same_name m k same in
      cc ((text_eq_iff n k).1 equal)
  | inr e ↦ e
]

-- Where a name stands among the fields, and what a field of that name put there comes to.
data Look (n : Text) (f : StructField) (fs : List StructField) : Type 0 where
  not_there :
      find_place n fs ≡ none
      → get_by_name n fs ≡ absent
      → set_by_name f fs ≡ fs ++ f ∷ []
      → Look n f fs
  there :
      (i : ℕ) (g : StructField)
      → find_place n fs ≡ some i
      → get_elem? fs i ≡ some g
      → get_by_name n fs ≡ g.value
      → replace_at i f fs ≡ some (set_by_name f fs)
      → Look n f fs

look : (f : StructField) (fs : List StructField) → Look f.name f fs
unfolding get_by_name set_by_name replace_at
look f [] = not_there refl refl refl
look f (g ∷ gs) = elim (Bool-cases (text_eq f.name g.name)) [
  | inl same ↦ there 0 g (rw same) refl (rw same) (rw same)
  | inr other ↦ elim (look f gs) [
    | not_there a b c ↦ not_there (rw (other, a)) (rw (other, b)) (rw (other, c))
    | there i h a b c d ↦ there (suc i) h (rw (other, a)) b (rw (other, c)) (rw (other, d))
  ]
]

next_place-none : (o : Option ℕ) → next_place o ≡ none → o ≡ none
next_place-none none h = refl
next_place-none (some i) h = cc

next_place-some : (o : Option ℕ) {i : ℕ} → next_place o ≡ some i → (j : ℕ) × (o ≡ some j)
next_place-some none h = absurd (cc h)
next_place-some (some j) h = (j, refl)

push_place :
    (b : Bool) (k : ℕ) (o : Option ℕ)
    → next_place (if b then some k else o) ≡ (if b then some (suc k) else next_place o)
push_place true k o = refl
push_place false k o = refl

find_place-append :
    (f : StructField) (fs : List StructField) (m : Text)
    → find_place f.name fs ≡ none
    → find_place m (fs ++ f ∷ []) ≡ (if text_eq m f.name then some (length fs) else find_place m fs)
find_place-append f [] m h = refl
find_place-append f (g ∷ gs) m h = elim (Bool-cases (text_eq f.name g.name)) [
  | inl same ↦ cc (rw same at h)
  | inr other ↦ elim (Bool-cases (text_eq m g.name)) [
    | inl e ↦ rw (e, other_name m f.name g.name other e)
    | inr e ↦ rw e (
        ap next_place
          (find_place-append f gs m (next_place-none (find_place f.name gs) (rw other at h)))
        ∙ push_place (text_eq m f.name) (length gs) (find_place m gs))
  ]
]

find_place-set_by_name :
    (f : StructField) (fs : List StructField) (m : Text) (i : ℕ)
    → find_place f.name fs ≡ some i
    → find_place m (set_by_name f fs) ≡ find_place m fs
unfolding set_by_name
find_place-set_by_name f [] m i h = cc
find_place-set_by_name f (g ∷ gs) m i h = elim (Bool-cases (text_eq f.name g.name)) [
  | inl same ↦ rw (same, same_name f.name g.name same)
  | inr other ↦
      let (j, here) = next_place-some (find_place f.name gs) (rw other at h) in
      rw (other, find_place-set_by_name f gs m j here)
]

-- A field that is read behind a write: the value written for its name, the old one for another.
get_by_name-set_by_name :
    (f : StructField) (fs : List StructField) (m : Text)
    → get_by_name m (set_by_name f fs) ≡ (if text_eq m f.name then f.value else get_by_name m fs)
unfolding get_by_name set_by_name
get_by_name-set_by_name f [] m = refl
get_by_name-set_by_name f (g ∷ gs) m = elim (Bool-cases (text_eq f.name g.name)) [
  | inl same ↦ elim (Bool-cases (text_eq m f.name)) [
    | inl e ↦ rw (same, e)
    | inr e ↦
        let e' : text_eq m g.name ≡ false =
          ap (text_eq m) (sym (same_name f.name g.name same)) ∙ e in
        rw (same, e, e')
  ]
  | inr other ↦ elim (Bool-cases (text_eq m g.name)) [
    | inl e ↦ rw (other, e, other_name m f.name g.name other e)
    | inr e ↦ rw (other, e) (get_by_name-set_by_name f gs m)
  ]
]

-- What `GetField` finds in a struct whose indexes are those of its fields.
pub get_field-get_by_name :
    (n : Text) (s : Struct) → IsIndexed s → get_field n s ≡ ok (get_by_name n s.fields) s
unfolding get_field
get_field-get_by_name n s indexed = elim (look (record { name = n; value = absent }) s.fields) [
  | not_there a b c ↦ rw (indexed n, a, b)
  | there i g a here b c ↦ rw (indexed n, a, here, b)
]

-- The fields as the record reader fills them in.
abbrev pub members : List StructField → Members
members [] = no_members
members (f ∷ fs) = member f.name f.value (members fs)

members-set_by_name :
    (f : StructField) (fs : List StructField)
    → members (set_by_name f fs) ≡ set_field f.name f.value (members fs)
unfolding set_by_name set_field
members-set_by_name f [] = refl
members-set_by_name f (g ∷ gs) = elim (Bool-cases (text_eq f.name g.name)) [
  | inl same ↦ rw same (ap (λ n. member n f.value (members gs)) (same_name f.name g.name same))
  | inr other ↦ rw other (ap (member g.name g.value) (members-set_by_name f gs))
]

-- What `SetField` of the value `c` for the name `n` comes to.
pub record Set (n : Text) (c : Cell) (s : Struct) : Type 0 where
  pub after : Struct
  pub returns : set_named n c s ≡ ok tt after
  pub indexed : IsIndexed after
  pub replaces : members after.fields ≡ set_field n c (members s.fields)
  pub reads :
      (m : Text) → get_field m after ≡ ok (if text_eq m n then c else get_by_name m s.fields) after

module _ (n : Text) (c : Cell) (s : Struct) where
  abbrev new_field : StructField
  new_field = record { name = n; value = c }

  make_set :
      (after : Struct)
      → set_named n c s ≡ ok tt after
      → IsIndexed after
      → after.fields ≡ set_by_name new_field s.fields
      → Set n c s
  make_set after returns indexed replaces = record {
    after = after;
    returns = returns;
    indexed = indexed;
    replaces = ap members replaces ∙ members-set_by_name new_field s.fields;
    reads = λ m.
        get_field-get_by_name m after indexed
        ∙ ap (λ v. ok v after)
            (ap (get_by_name m) replaces ∙ get_by_name-set_by_name new_field s.fields m);
  }

  -- For a struct whose indexes are those of its fields: `SetField` returns no error and does not stop the
  -- program, overwrites the field of the name in its place or puts a new one at the end, as the
  -- record reader does with its list of members; the indexes stay those of the fields, and
  -- `GetField` behind it gives the value for this name and what it gave before for any other.
  pub set_named-Set : IsIndexed s → Set n c s
  unfolding set_named set_at index_of
  set_named-Set indexed = elim (look new_field s.fields) [
    | not_there a b same ↦
        make_set
          (record s {
            fields = s.fields ++ new_field ∷ [];
            field_indexes = (n, length s.fields) ∷ s.field_indexes;
          })
          (rw (indexed n, a))
          (λ m.
            ap (λ o. if text_eq m n then some (length s.fields) else o) (indexed m)
            ∙ sym (find_place-append new_field s.fields m a))
          (sym same)
    | there i g a here b put ↦
        make_set (record s { fields = set_by_name new_field s.fields }) (rw (indexed n, a, put))
          (λ m. indexed m ∙ sym (find_place-set_by_name new_field s.fields m i a)) refl
  ]
