-- ===== src/Tunnel/Tests/Wire.antt =====
-- The documented wire format of protocol buffers: base-128 varints, little-endian numbers, zig-zag.
use aliyun_odps_go_sdk.Prelude.{
  ℕ, zero, suc, ◌+◌, ◌-◌, ◌*◌, ◌/◌, ◌%◌, ◌<◌, ◌≤◌, ◌≡◌, ◌≢◌, refl, sym, ap, ◌∙◌, ◌⊎◌, inl, inr,
  Bool-cases, Bool, true, false, not, Option, none, some, [], ◌∷◌, ◌++◌, arith, ltb, ◌==◌, length,
  if◌then◌else◌,
}
use aliyun_odps_go_sdk.Prelude.Int.{pos, negsuc}
use aliyun_odps_go_sdk.Words.{Bytes, little_endian}
use aliyun_odps_go_sdk.Tunnel.Protowire.{Protowire, ProtowireLaws}

abbrev base_128 : ℕ → ℕ → Bytes
base_128 zero v = []
base_128 (suc k) v =
    let rest = base_128 k (v / 128) in if ltb v 128 then v ∷ [] else (v % 128 + 128) ∷ rest

abbrev add_digit : ℕ → Option ℕ → Option ℕ
add_digit b none = none
add_digit b (some v) = some (b - 128 + 128 * v)

abbrev from_base_128 : Bytes → Option ℕ
from_base_128 [] = none
from_base_128 (b ∷ bs) =
    let rest = from_base_128 bs in if ltb b 128 then some b else add_digit b rest

abbrev power : ℕ → ℕ → ℕ
power b zero = 1
power b (suc k) = b * power b k

length-base_128 : (k v : ℕ) → length (base_128 k v) ≤ k
length-base_128 zero v = omega arith
length-base_128 (suc k) v = ground (arith, length-base_128 k (v / 128))

base_128-ne-nil : (k v : ℕ) → base_128 (suc k) v ≢ []
base_128-ne-nil k v = go (ltb v 128)
  where
    go : (b : Bool) → (if b then v ∷ [] else (v % 128 + 128) ∷ base_128 k (v / 128)) ≢ []
    go true = cc
    go false = cc

last_digit : (v : ℕ) → v < 128 → ltb v 128 ≡ true
last_digit v h = ground arith

more_digits : (v : ℕ) → 128 ≤ v → ltb v 128 ≡ false
more_digits v h = ground arith

small_or_not : (v : ℕ) → (v < 128) ⊎ (128 ≤ v)
small_or_not v = elim (Bool-cases (ltb v 128)) [
  | inl e ↦ inl (ground arith)
  | inr e ↦ inr (ground arith)
]

digits_small : (k v : ℕ) → v < 128 → base_128 (suc k) v ≡ v ∷ []
digits_small k v h = rw (last_digit v h)

digits_large : (k v : ℕ) → 128 ≤ v → base_128 (suc k) v ≡ (v % 128 + 128) ∷ base_128 k (v / 128)
digits_large k v h = rw (more_digits v h)

from_base_128-base_128 :
    (k v : ℕ) → v < power 128 (suc k) → from_base_128 (base_128 (suc k) v) ≡ some v
from_base_128-base_128 zero v h = rw (digits_small 0 v (omega arith), last_digit v (omega arith))
from_base_128-base_128 (suc k) v h = elim (small_or_not v) [
  | inl small ↦ rw (digits_small (suc k) v small, last_digit v small)
  | inr large ↦
      let digit : 128 ≤ v % 128 + 128 = omega arith in
      let value : v % 128 + 128 - 128 + 128 * (v / 128) ≡ v = omega arith in
      rw (
        digits_large (suc k) v large,
        more_digits (v % 128 + 128) digit,
        from_base_128-base_128 k (v / 128) (omega arith),
        value,
      )
]

tail_eq : {x y : ℕ} {xs ys : Bytes} → ◌≡◌ {A = Bytes} (x ∷ xs) (y ∷ ys) → (x ≡ y) × (xs ≡ ys)
tail_eq e = (cc, cc)

append_ne_nil : (p q : Bytes) → q ≢ [] → [] ≢ p ++ q
append_ne_nil [] q ne e = ne (sym e)
append_ne_nil (c ∷ p) q ne e = cc

from_base_128-cut :
    (k v : ℕ) (p q : Bytes) → base_128 k v ≡ p ++ q → q ≢ [] → from_base_128 p ≡ none
from_base_128-cut k v [] q e ne = refl
from_base_128-cut zero v (c ∷ p) q e ne = absurd (append_ne_nil (c ∷ p) q ne e)
from_base_128-cut (suc k) v (c ∷ p) q e ne = elim (small_or_not v) [
  | inl small ↦ absurd (append_ne_nil p q ne (tail_eq (sym (digits_small k v small) ∙ e)).1)
  | inr large ↦
      let parts = tail_eq (sym (digits_large k v large) ∙ e) in
      let digit : ltb c 128 ≡ false = more_digits c (rw (sym parts.0) (omega arith)) in
      rw (digit, from_base_128-cut k (v / 128) p q parts.1 ne)
]

abbrev from_little_endian : Bytes → ℕ
from_little_endian [] = 0
from_little_endian (b ∷ bs) = b + 256 * from_little_endian bs

length-little_endian : (k v : ℕ) → length (little_endian k v) ≡ k
unfolding little_endian
length-little_endian zero v = refl
length-little_endian (suc k) v = ap suc (length-little_endian k (v / 256))

from_little_endian-little_endian :
    (k v : ℕ) → v < power 256 k → from_little_endian (little_endian k v) ≡ v
unfolding little_endian
from_little_endian-little_endian zero v h = omega arith
from_little_endian-little_endian (suc k) v h =
    omega (arith, from_little_endian-little_endian k (v / 256) (omega arith))

abbrev pub wire : Protowire
wire = record {
  varint_type = 0;
  fixed32_type = 5;
  fixed64_type = 1;
  bytes_type = 2;
  append_varint = base_128 10;
  consume_varint = from_base_128;
  append_fixed32 = little_endian 4;
  consume_fixed32 = from_little_endian;
  append_fixed64 = little_endian 8;
  consume_fixed64 = from_little_endian;
  encode_zig_zag = λ z. elim z [ pos n ↦ 2 * n | negsuc n ↦ 2 * n + 1 ];
  decode_zig_zag = λ n. if n % 2 == 0 then pos (n / 2) else negsuc (n / 2);
  encode_tag = λ num typ. 8 * num + typ;
  decode_tag = λ n. (pos (n / 8), n % 8);
  encode_bool = λ b. if b then 1 else 0;
  decode_bool = λ n. not (n == 0);
}

bool_eq : (b : Bool) → wire.decode_bool (wire.encode_bool b) ≡ b
bool_eq true = refl
bool_eq false = refl

bool_lt : (b : Bool) → wire.encode_bool b < 2
bool_lt true = omega arith
bool_lt false = omega arith

tag_eq : (num typ : ℕ) → typ < 8 → wire.decode_tag (8 * num + typ) ≡ (pos num, typ)
tag_eq num typ h =
    let number : (8 * num + typ) / 8 ≡ num = omega arith in
    let type : (8 * num + typ) % 8 ≡ typ = omega arith in rw (number, type)

even : (n : ℕ) → wire.decode_zig_zag (2 * n) ≡ pos n
even n = ground arith

odd : (n : ℕ) → wire.decode_zig_zag (2 * n + 1) ≡ negsuc n
odd n = ground arith

pub wire_laws : ProtowireLaws wire
wire_laws = record {
  varint_type_lt = omega arith;
  fixed32_type_lt = omega arith;
  fixed64_type_lt = omega arith;
  bytes_type_lt = omega arith;
  varint_length = λ v h. length-base_128 10 v;
  varint_ne_nil = λ v h. base_128-ne-nil 9 v;
  varint_whole = λ v h. from_base_128-base_128 9 v (omega arith);
  varint_cut = λ v p q h e ne. from_base_128-cut 10 v p q e ne;
  fixed32_length = length-little_endian 4;
  fixed32_whole = λ v h. from_little_endian-little_endian 4 v (omega arith);
  fixed64_length = length-little_endian 8;
  fixed64_whole = λ v h. from_little_endian-little_endian 8 v (omega arith);
  encode_pos = λ n h. refl;
  encode_negsuc = λ n h. refl;
  decode_even = λ n h. even n;
  decode_odd = λ n h. odd n;
  encode_tag_eq = λ num typ h k. refl;
  decode_tag_eq = λ num typ h k. tag_eq num typ k;
  encode_bool_eq = bool_eq;
  encode_bool_lt = bool_lt;
}
