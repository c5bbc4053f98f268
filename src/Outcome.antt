-- ===== src/Outcome.antt =====
-- What a call of a method of a stateful object yields: a value or an error, with the object as the
-- call left it, or a run-time panic.
use aliyun_odps_go_sdk.Prelude.{Bool, true, false, ◌≡◌, refl, sym, ◌≢◌, if◌then◌else◌}

-- The run-time panics that the modelled code can raise.
pub data Fault : Type 0 where
  index_out_of_range : Fault
  type_assertion : Fault
  divide_by_zero : Fault
  unhashable_key : Fault
  nil_dereference : Fault
  length_out_of_range : Fault

-- `out_of_fuel` has no counterpart in the program.
pub data Outcome {ℓ κ μ} (S : Type ℓ) (E : Type κ) (A : Type μ) : Type (ℓ ⊔ κ ⊔ μ) where
  ok : A → S → Outcome S E A
  err : E → S → Outcome S E A
  panic : Fault → Outcome S E A
  out_of_fuel : Outcome S E A

abbrev pub bind {ℓ κ μ ν} :
    {S : Type ℓ} {E : Type κ} {A : Type μ} {B : Type ν}
    → Outcome S E A
    → (A → S → Outcome S E B)
    → Outcome S E B
bind (ok a s) f = f a s
bind (err e s) f = err e s
bind (panic p) f = panic p
bind out_of_fuel f = out_of_fuel

-- The run keeps within its fuel, and `P` holds of its value and state if it has one.
pub data Ensures {ℓ κ μ ν} {S : Type ℓ} {E : Type κ} {A : Type μ} (P : A → S → Type ν)
    : Outcome S E A → Type (ℓ ⊔ κ ⊔ μ ⊔ ν) where
  holds : {a : A} {s : S} → P a s → Ensures P (ok a s)
  refused : {e : E} {s : S} → Ensures P (err e s)
  stopped : {p : Fault} → Ensures P (panic p)

module _ {ℓ κ μ ν} {S : Type ℓ} {E : Type κ} {A : Type μ} {P : A → S → Type ν} where
  pub Ensures-ne-out_of_fuel : {r : Outcome S E A} → Ensures P r → r ≢ out_of_fuel
  Ensures-ne-out_of_fuel (holds h) = cc
  Ensures-ne-out_of_fuel refused = cc
  Ensures-ne-out_of_fuel stopped = cc

  pub Ensures-if :
      (b : Bool) {x y : Outcome S E A}
      → (b ≡ true → Ensures P x)
      → (b ≡ false → Ensures P y)
      → Ensures P (if b then x else y)
  Ensures-if true hx hy = hx refl
  Ensures-if false hx hy = hy refl

  pub Ensures-bind {μ' ν'} :
      {B : Type μ'} {Q : B → S → Type ν'} {r : Outcome S E A} {f : A → S → Outcome S E B}
      → Ensures P r
      → ((a : A) (s : S) → P a s → Ensures Q (f a s))
      → Ensures Q (bind r f)
  Ensures-bind (holds {a} {s} h) k = k a s h
  Ensures-bind refused k = refused
  Ensures-bind stopped k = stopped

  pub Ensures-map {ν'} :
      {Q : A → S → Type ν'} {r : Outcome S E A}
      → Ensures P r
      → ((a : A) (s : S) → P a s → Q a s)
      → Ensures Q r
  Ensures-map (holds {a} {s} h) k = holds (k a s h)
  Ensures-map refused k = refused
  Ensures-map stopped k = stopped

  -- What holds of the value and the state of a call that returned.
  pub Ensures-ok : {r : Outcome S E A} {a : A} {s : S} → Ensures P r → r ≡ ok a s → P a s
  Ensures-ok {a} {s} (holds {a = a'} {s = s'} h) e =
      let value : a' ≡ a = cc in let state : s' ≡ s = cc in rw (sym value, sym state) h
  Ensures-ok refused e = cc
  Ensures-ok stopped e = cc

pub bind-eq-ok {ℓ κ μ ν} :
    {S : Type ℓ} {E : Type κ} {A : Type μ} {B : Type ν} (o : Outcome S E A)
    (f : A → S → Outcome S E B) {b : B} {t : S}
    → bind o f ≡ ok b t
    → (a : A) × (s : S) × (o ≡ ok a s) × (f a s ≡ ok b t)
bind-eq-ok (ok a s) f e = (a, s, refl, e)
bind-eq-ok (err e s) f h = cc
bind-eq-ok (panic p) f h = cc
bind-eq-ok out_of_fuel f h = cc
