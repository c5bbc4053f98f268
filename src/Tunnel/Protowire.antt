-- ===== src/Tunnel/Protowire.antt =====
-- What the tunnel uses of google.golang.org/protobuf/encoding/protowire.
use aliyun_odps_go_sdk.Prelude.{
  ℕ, ◌+◌, ◌*◌, ◌^◌, ◌<◌, ◌≤◌, ◌≡◌, ◌≢◌, Bool, Option, none, some, [], ◌++◌, length,
}
use aliyun_odps_go_sdk.Prelude.Int.{ℤ, pos, negsuc}
use aliyun_odps_go_sdk.Words.{Bytes}

-- The functions, as the code calls them. `consume_varint` is the value where the count of bytes
-- that is returned with it is positive.
pub record Protowire : Type 0 where
  pub varint_type : ℕ
  pub fixed32_type : ℕ
  pub fixed64_type : ℕ
  pub bytes_type : ℕ
  pub append_varint : ℕ → Bytes
  pub consume_varint : Bytes → Option ℕ
  pub append_fixed32 : ℕ → Bytes
  pub consume_fixed32 : Bytes → ℕ
  pub append_fixed64 : ℕ → Bytes
  pub consume_fixed64 : Bytes → ℕ
  pub encode_zig_zag : ℤ → ℕ
  pub decode_zig_zag : ℕ → ℤ
  pub encode_tag : ℕ → ℕ → ℕ
  pub decode_tag : ℕ → ℤ × ℕ
  pub encode_bool : Bool → ℕ
  pub decode_bool : ℕ → Bool

-- The documented behaviour that the round trip rests on.
pub record ProtowireLaws (w : Protowire) : Type 0 where
  -- The wire types are three bits wide.
  pub varint_type_lt : w.varint_type < 8
  pub fixed32_type_lt : w.fixed32_type < 8
  pub fixed64_type_lt : w.fixed64_type < 8
  pub bytes_type_lt : w.bytes_type < 8
  -- A varint takes at most ten bytes, is read back, and is refused while it is cut short.
  pub varint_length : (v : ℕ) → v < 2 ^ 64 → length (w.append_varint v) ≤ 10
  pub varint_ne_nil : (v : ℕ) → v < 2 ^ 64 → w.append_varint v ≢ []
  pub varint_whole : (v : ℕ) → v < 2 ^ 64 → w.consume_varint (w.append_varint v) ≡ some v
  pub varint_cut :
      (v : ℕ) (p q : Bytes)
      → v < 2 ^ 64
      → w.append_varint v ≡ p ++ q
      → q ≢ []
      → w.consume_varint p ≡ none
  -- Fixed-width numbers take four and eight bytes.
  pub fixed32_length : (v : ℕ) → length (w.append_fixed32 v) ≡ 4
  pub fixed32_whole : (v : ℕ) → v < 2 ^ 32 → w.consume_fixed32 (w.append_fixed32 v) ≡ v
  pub fixed64_length : (v : ℕ) → length (w.append_fixed64 v) ≡ 8
  pub fixed64_whole : (v : ℕ) → v < 2 ^ 64 → w.consume_fixed64 (w.append_fixed64 v) ≡ v
  -- Zig-zag takes 0, -1, 1, -2, … to 0, 1, 2, 3, … and back.
  pub encode_pos : (n : ℕ) → n < 2 ^ 63 → w.encode_zig_zag (pos n) ≡ 2 * n
  pub encode_negsuc : (n : ℕ) → n < 2 ^ 63 → w.encode_zig_zag (negsuc n) ≡ 2 * n + 1
  pub decode_even : (n : ℕ) → n < 2 ^ 63 → w.decode_zig_zag (2 * n) ≡ pos n
  pub decode_odd : (n : ℕ) → n < 2 ^ 63 → w.decode_zig_zag (2 * n + 1) ≡ negsuc n
  -- A tag is the field's number above the three bits of the wire type.
  pub encode_tag_eq : (num typ : ℕ) → num < 2 ^ 29 → typ < 8 → w.encode_tag num typ ≡ 8 * num + typ
  pub decode_tag_eq :
      (num typ : ℕ) → num < 2 ^ 29 → typ < 8 → w.decode_tag (8 * num + typ) ≡ (pos num, typ)
  pub encode_bool_eq : (b : Bool) → w.decode_bool (w.encode_bool b) ≡ b
  pub encode_bool_lt : (b : Bool) → w.encode_bool b < 2
