-- ===== src/Data/Composite/Arrays.antt =====
-- odps/data/array.go.
use aliyun_odps_go_sdk.Prelude.{
  ◌≡◌, subst, refl, sym, ap, ◌∙◌, Bool, true, false, Option, none, some, List, [], ◌∷◌, ◌++◌,
  append_assoc, append-nil,
}
use aliyun_odps_go_sdk.Outcome
use aliyun_odps_go_sdk.Outcome.{Outcome, ok, err, panic, out_of_fuel, nil_dereference}
use aliyun_odps_go_sdk.Datatype.{DataType}
use aliyun_odps_go_sdk.Data.{Data, Cell, absent, present}
use aliyun_odps_go_sdk.Data.TypeOf.{type_of, types_equal, array_of, types_equal-Decides}
use aliyun_odps_go_sdk.Data.Composite.{
  ValueError, type_not_set, type_differs, is_empty_value, if_equal,
}

-- `Array`
pub record Array : Type 0 where
  pub element_type : Option DataType
  pub data_of : List Cell
  pub valid : Bool

-- `NewArray`, `NewArrayWithType`, `SetType`
unfoldable pub new_array : Array
new_array = record { element_type = none; data_of = []; valid = false }

unfoldable pub new_array_with_type : DataType → Array
new_array_with_type t = record { element_type = some t; data_of = []; valid = true }

unfoldable pub set_type : DataType → Array → Array
set_type t a = record a { element_type = some t }

-- `UnSafeAppend`; `Append` of values that are `data.Data` does the same.
unfoldable pub unsafe_append : List Cell → Array → Array
unsafe_append cells a = record a { data_of = a.data_of ++ cells }

-- The rounds of the loop of `SafeAppend`.
unfoldable pub append_checked : DataType → Cell → Array → Outcome Array ValueError (Unit {0})
unfolding types_equal
append_checked t absent a = panic nil_dereference
append_checked t (present d) a =
    Outcome.bind (if_equal (types_equal (type_of d) (some t)) a)
      λ _ a'. ok tt (record a' { data_of = a'.data_of ++ present d ∷ [] })

unfoldable pub append_all : DataType → List Cell → Array → Outcome Array ValueError (Unit {0})
unfolding append_checked
append_all t [] a = ok tt a
append_all t (c ∷ cs) a = Outcome.bind (append_checked t c a) λ _. append_all t cs

unfoldable pub append_typed :
    Option DataType → List Cell → Array → Outcome Array ValueError (Unit {0})
unfolding append_all
append_typed none cells a = err type_not_set a
append_typed (some t) cells a = append_all t cells a

-- `SafeAppend`
unfoldable pub safe_append : List Cell → Array → Outcome Array ValueError (Unit {0})
unfolding append_typed
safe_append cells a = append_typed a.element_type cells a

-- The loop of `TypeInfer`, with the type of the first element.
unfoldable pub same_types : Option DataType → List Cell → Outcome (Unit {0}) ValueError (Unit {0})
unfolding types_equal
same_types t [] = ok tt tt
same_types t (absent ∷ cs) = panic nil_dereference
same_types t (present d ∷ cs) =
    Outcome.bind (if_equal (types_equal (type_of d) t) tt) λ _ _. same_types t cs

-- `TypeInfer`; `none` is an array type that holds nil.
unfoldable pub infer_items : List Cell → Outcome (Unit {0}) ValueError (Option DataType)
unfolding same_types type_of
infer_items [] = err is_empty_value tt
infer_items (absent ∷ cs) = panic nil_dereference
infer_items (present d ∷ cs) =
    Outcome.bind (same_types (type_of d) cs) λ _ _. ok (array_of (type_of d)) tt

-- The elements are of the type, as `IsTypeEqual` sees it.
abbrev pub IsOfType : DataType → Cell → Type 0
IsOfType t absent = ⊥
IsOfType t (present d) = types_equal (type_of d) (some t) ≡ some true

abbrev pub AllOfType : DataType → List Cell → Type 0
AllOfType t [] = Unit
AllOfType t (c ∷ cs) = IsOfType t c × AllOfType t cs

AllOfType-append :
    (t : DataType) (xs ys : List Cell) → AllOfType t xs → AllOfType t ys → AllOfType t (xs ++ ys)
AllOfType-append t [] ys h k = k
AllOfType-append t (x ∷ xs) ys h k = (h.0, AllOfType-append t xs ys h.1 k)

-- What a call of `SafeAppend` with an array of the type `t` leaves: a beginning of the arguments behind
-- the elements, all of them of the type; without an error, all arguments. An error, or a panic of a
-- nil value, comes of the argument behind the beginning.
pub data Appended (t : DataType) (cells : List Cell) (a : Array)
    : Outcome Array ValueError (Unit {0}) → Type 0 where
  all_appended :
      {a' : Array} → AllOfType t cells → a' ≡ unsafe_append cells a → Appended t cells a (ok tt a')
  some_appended :
      {a' : Array} (front : List Cell) (d : Data) (back : List Cell)
      → cells ≡ front ++ present d ∷ back
      → AllOfType t front
      → types_equal (type_of d) (some t) ≡ some false
      → a' ≡ unsafe_append front a
      → Appended t cells a (err type_differs a')
  nil_argument :
      (front back : List Cell)
      → cells ≡ front ++ absent ∷ back
      → AllOfType t front
      → Appended t cells a (panic nil_dereference)

Appended-cons :
    (t : DataType) (d : Data) (cs : List Cell) (a : Array) {o : Outcome Array ValueError (Unit {0})}
    → types_equal (type_of d) (some t) ≡ some true
    → Appended t cs (unsafe_append (present d ∷ []) a) o
    → Appended t (present d ∷ cs) a o
unfolding unsafe_append
Appended-cons t d cs a e (all_appended h same) =
    all_appended (e, h)
      (same ∙ ap (λ l. record a { data_of = l }) (append_assoc a.data_of (present d ∷ []) cs))
Appended-cons t d cs a e (some_appended front d' back split h differs same) =
    some_appended (present d ∷ front) d' back (ap (λ l. present d ∷ l) split) (e, h) differs
      (same ∙ ap (λ l. record a { data_of = l }) (append_assoc a.data_of (present d ∷ []) front))
Appended-cons t d cs a e (nil_argument front back split h) =
    nil_argument (present d ∷ front) back (ap (λ l. present d ∷ l) split) (e, h)

append_all-Appended :
    (t : DataType) (cells : List Cell) (a : Array) → Appended t cells a (append_all t cells a)
unfolding append_all append_checked unsafe_append
append_all-Appended t [] a =
    all_appended tt (ap (λ l. record a { data_of = l }) (sym (append-nil a.data_of)))
append_all-Appended t (absent ∷ cs) a = nil_argument [] cs refl tt
append_all-Appended t (present d ∷ cs) a =
    go (types_equal (type_of d) (some t)) refl
      (append_all-Appended t cs (record a { data_of = a.data_of ++ present d ∷ [] }))
  where
    go :
        (o : Option Bool)
        → types_equal (type_of d) (some t) ≡ o
        → (let a' : Array = record a { data_of = a.data_of ++ present d ∷ [] } in
            Appended t cs a' (append_all t cs a'))
        → Appended t (present d ∷ cs) a (
            Outcome.bind {0, 0, 0, 0}
              (Outcome.bind {0, 0, 0, 0}
                (if_equal o a)
                λ _ a'. ok tt (record a' { data_of = a'.data_of ++ present d ∷ [] }))
              λ _. append_all t cs)
    go none e h = absurd (cc (types_equal-Decides (type_of d) (some t)).1)
    go (some false) e h =
        some_appended [] d cs refl tt e
          (ap (λ l. record a { data_of = l }) (sym (append-nil a.data_of)))
    go (some true) e h = Appended-cons t d cs a e h

-- `SafeAppend` with an array whose type is set comes to an end: it appends exactly the arguments before
-- the first one that is nil or whose type differs from the type of the elements, and returns an error
-- for a type that differs and stops the program for a nil; with no such argument, it appends all of
-- them and returns no error.
pub safe_append-Appended :
    (t : DataType) (cells : List Cell) (a : Array)
    → a.element_type ≡ some t
    → Appended t cells a (safe_append cells a)
unfolding safe_append append_typed
safe_append-Appended t cells a e =
    subst (λ o. Appended t cells a (append_typed o cells a)) (sym e) (append_all-Appended t cells a)
