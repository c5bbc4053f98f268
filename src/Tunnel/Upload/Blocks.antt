-- ===== src/Tunnel/Upload/Blocks.antt =====
-- The comparison of the blocks that `Commit` is given with those that the server has.
use mathlib.Core.Nat.{ℕ as ℕᵤ, le_of_eq}
use mathlib.Core.Logic.Or
use mathlib.Core.List.{
  Mem, Mem-prop, Perm, Nodup, Subset, mem-cons, not-mem-nil, length as length_unary,
}
use mathlib.Core.List.Perm
use mathlib.Core.List.Nodup
use mathlib.Core.List.Subperm
use aliyun_odps_go_sdk.Prelude.{
  ℕ, zero, suc, ◌≡◌, ◌↔◌, ◌≢◌, refl, sym, ap, ◌∙◌, Bool, true, false, not, List, [], ◌∷◌, arith,
  length, replicate, length-replicate, ◌==◌, if◌then◌else◌, Bool-cases, inl, inr,
}
use aliyun_odps_go_sdk.Prelude.Int.{ℤ, eqb_ℤ, eqb_ℤ_iff}
use aliyun_odps_go_sdk.Tunnel.Upload.{is_found, all_found, blocks_agree}

true_prop : (b : Bool) → IsProp (b ≡ true)
true_prop b = hlevel

is_found_if : (wanted real : ℤ) (b : Bool) → Bool
is_found_if wanted real b = if eqb_ℤ wanted real then true else b

is_found-Mem : (wanted : ℤ) (reals : List ℤ) → is_found wanted reals ≡ true → Mem wanted reals
unfolding is_found
is_found-Mem wanted [] h = cc
is_found-Mem wanted (real ∷ reals) h = elim (Bool-cases (eqb_ℤ wanted real)) [
  | inl same ↦ mem-cons.1 ∣ inl ((eqb_ℤ_iff wanted real).0 same) ∣₁
  | inr other ↦ mem-cons.1 ∣ inr (is_found-Mem wanted reals (rw other at h)) ∣₁
]

Mem-is_found : (wanted : ℤ) (reals : List ℤ) → Mem wanted reals → is_found wanted reals ≡ true
unfolding is_found
Mem-is_found wanted [] m = absurd (not-mem-nil m)
Mem-is_found wanted (real ∷ reals) m =
    Or.elim (true_prop (is_found wanted (real ∷ reals))) (mem-cons.0 m)
      (λ e. rw ((eqb_ℤ_iff wanted real).1 e))
      (λ m'. elim (Bool-cases (eqb_ℤ wanted real)) [
        | inl same ↦ rw same
        | inr other ↦ rw other (Mem-is_found wanted reals m')
      ])

all_found-Subset : (wanted reals : List ℤ) → all_found wanted reals ≡ true → Subset wanted reals
unfolding all_found
all_found-Subset [] reals h a m = absurd (not-mem-nil m)
all_found-Subset (w ∷ wanted) reals h a m = elim (Bool-cases (is_found w reals)) [
  | inl found ↦
      Or.elim (Mem-prop {l = reals}) (mem-cons.0 m) (λ e. rw e (is_found-Mem w reals found))
        (all_found-Subset wanted reals (rw found at h) a)
  | inr missing ↦ cc (rw missing at h)
]

Subset-all_found : (wanted reals : List ℤ) → Subset wanted reals → all_found wanted reals ≡ true
unfolding all_found
Subset-all_found [] reals h = refl
Subset-all_found (w ∷ wanted) reals h =
    let found = Mem-is_found w reals (h w (mem-cons.1 ∣ inl refl ∣₁)) in
    rw found (Subset-all_found wanted reals λ a m. h a (mem-cons.1 ∣ inr m ∣₁))

-- The library's length, on its own numbers, is the same for lists of one length.
same_length {ℓ} :
    {A : Type ℓ} (xs ys : List A) → length xs ≡ length ys → length_unary xs ≡ length_unary ys
same_length [] [] h = refl
same_length [] (y ∷ ys) h = absurd (omega arith)
same_length (x ∷ xs) [] h = absurd (omega arith)
same_length (x ∷ xs) (y ∷ ys) h = ap ℕᵤ.suc (same_length xs ys (omega arith))

native : ℕᵤ → ℕ
native ℕᵤ.zero = 0
native (ℕᵤ.suc n) = suc (native n)

native-length {ℓ} : {A : Type ℓ} (xs : List A) → native (length_unary xs) ≡ length xs
unfolding native
native-length [] = refl
native-length (x ∷ xs) = ap suc (native-length xs)

if_agree :
    (b : Bool) (wanted reals : List ℤ)
    → (if not b then false else all_found wanted reals) ≡ true
    → (b ≡ true) × (all_found wanted reals ≡ true)
if_agree true wanted reals h = (refl, h)
if_agree false wanted reals h = cc

-- A list of blocks that names none twice passes the comparison of `Commit` exactly when it is a
-- permutation of the blocks that the server has.
pub blocks_agree-Perm :
    (wanted reals : List ℤ) → Nodup wanted → (blocks_agree wanted reals ≡ true) ↔ Perm wanted reals
unfolding blocks_agree
blocks_agree-Perm wanted reals once = (forth, back)
  where
    forth : blocks_agree wanted reals ≡ true → Perm wanted reals
    forth h =
        let (same, found) = if_agree (length reals == length wanted) wanted reals h in
        Subperm.perm_of_length_le (Nodup.subperm once (all_found-Subset wanted reals found))
          (le_of_eq (same_length reals wanted (ground arith)))

    back : Perm wanted reals → blocks_agree wanted reals ≡ true
    back p =
        let same : length wanted ≡ length reals =
          sym (native-length wanted) ∙ (ap native (Perm.length-eq p) ∙ native-length reals) in
        let equal : (length reals == length wanted) ≡ true = ground arith in
        rw (equal, Subset-all_found wanted reals (Perm.subset p))

all_found-replicate :
    (n : ℕ) (a : ℤ) (reals : List ℤ)
    → is_found a reals ≡ true
    → all_found (replicate n a) reals ≡ true
unfolding all_found
all_found-replicate zero a reals h = refl
all_found-replicate (suc n) a reals h = rw h (all_found-replicate n a reals h)

not-Mem-replicate : (n : ℕ) (a b : ℤ) → a ≢ b → ¬ Mem b (replicate n a)
not-Mem-replicate zero a b ne m = not-mem-nil m
not-Mem-replicate (suc n) a b ne m =
    Or.elim (λ x y. absurd x) (mem-cons.0 m) (λ e. ne (sym e)) (not-Mem-replicate n a b ne)

-- A list that names one block of the server as often as the server has blocks passes the comparison of
-- `Commit`, though it leaves every other block out.
pub blocks_agree-replicate :
    (a b : ℤ) (reals : List ℤ)
    → a ≢ b
    → Mem a reals
    → (blocks_agree (replicate (length reals) a) reals ≡ true)
      × (¬ Mem b (replicate (length reals) a))
unfolding blocks_agree
blocks_agree-replicate a b reals ne m =
    let equal : (length reals == length (replicate (length reals) a)) ≡ true =
      ground (arith, length-replicate (length reals) a) in
    (
      rw (equal, all_found-replicate (length reals) a reals (Mem-is_found a reals m)),
      not-Mem-replicate (length reals) a b ne,
    )
