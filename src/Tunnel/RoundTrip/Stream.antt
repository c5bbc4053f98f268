-- ===== src/Tunnel/RoundTrip/Stream.antt =====
-- The functions of protoc_stream_reader.go behind their counterparts of protoc_stream_writer.go.
use aliyun_odps_go_sdk.Prelude.{
  ℕ, ◌+◌, ◌*◌, ◌^◌, ◌%◌, ◌<◌, ◌≤◌, ◌≡◌, ◌≢◌, refl, sym, ◌∙◌, Bool, true, false, none, some, [], ◌∷◌,
  ◌++◌, arith, ltb, leb, length, take-append, drop-append, length-append, append_assoc,
}
use aliyun_odps_go_sdk.Prelude.Int.{ℤ, pos, negsuc}
use aliyun_odps_go_sdk.Words.{Bytes, InSigned, to_word, from_word, wrap_32}
use aliyun_odps_go_sdk.Outcome.{ok}
use aliyun_odps_go_sdk.Tunnel.Protowire.{Protowire, ProtowireLaws}
use aliyun_odps_go_sdk.Tunnel.StreamWriter.{
  write_full, write_varint, write_tag, write_fixed32, write_fixed64, write_bytes, write_bool,
  write_int32, write_sint32, write_sint64, write_uint32, write_int64,
}
use aliyun_odps_go_sdk.Tunnel.StreamReader.{
  IoError, StreamReader, varint_round, varint_loop, read_full, read_varint, check_tag, read_tag,
  read_made, max_length, read_fixed32, read_fixed64, read_bytes, read_bool, read_sint32,
  read_uint32, read_sint64, read_int64,
}

-- The stream that still has `bytes` to give.
abbrev pub at : Bytes → IoError → StreamReader
at bytes ending = record { unread = bytes; ending = ending }

read_full-append :
    (bytes rest : Bytes) (ending : IoError)
    → read_full (length bytes) (at (bytes ++ rest) ending) ≡ ok bytes (at rest ending)
unfolding read_full
read_full-append bytes rest ending =
    let fits : leb (length bytes) (length (bytes ++ rest)) ≡ true =
      ground (arith, length-append bytes rest) in
    rw (fits, take-append bytes rest, drop-append bytes rest)

read_full_n :
    (n : ℕ) (bytes rest : Bytes) (ending : IoError)
    → length bytes ≡ n
    → read_full n (at (bytes ++ rest) ending) ≡ ok bytes (at rest ending)
read_full_n n bytes rest ending e = rw (sym e) (read_full-append bytes rest ending)

not_ltb : (a b : ℕ) → b ≤ a → ltb a b ≡ false
not_ltb a b h = ground arith

cons-ne-nil : {x : ℕ} {xs : Bytes} → ◌≢◌ {A = Bytes} (x ∷ xs) []
cons-ne-nil = cc

pub wider : (z : ℤ) → InSigned 32 z → InSigned 64 z
wider (pos n) h = (omega arith, omega arith)
wider (negsuc n) h = (omega arith, omega arith)

to_word_lt : (z : ℤ) → to_word 64 z < 2 ^ 64
unfolding to_word
to_word_lt (pos n) = omega arith
to_word_lt (negsuc n) = omega arith

from_word-to_word-64 : (z : ℤ) → InSigned 64 z → from_word 64 (to_word 64 z) ≡ z
unfolding from_word to_word
from_word-to_word-64 (pos n) h = ground arith
from_word-to_word-64 (negsuc n) h = ground arith

module _ (w : Protowire) (laws : ProtowireLaws w) where
  prefix_short : (v : ℕ) (p q : Bytes) → v < 2 ^ 64 → w.append_varint v ≡ p ++ q → length p ≤ 10
  prefix_short v p q lt e =
      let whole : length (p ++ q) ≤ 10 = rw (sym e) (laws.varint_length v lt) in
      omega (arith, length-append p q)

  varint_loop-append :
      (v : ℕ) (buf q rest : Bytes) (ending : IoError)
      → v < 2 ^ 64
      → w.append_varint v ≡ buf ++ q
      → q ≢ []
      → varint_loop w buf ending (q ++ rest) ≡ ok v (at rest ending)
  unfolding varint_loop varint_round
  varint_loop-append v buf [] rest ending lt e ne = absurd (ne refl)
  varint_loop-append v buf (c ∷ []) rest ending lt e ne =
      let short : ltb 10 (length (buf ++ c ∷ [])) ≡ false =
        not_ltb 10 _ (rw (sym e) (laws.varint_length v lt)) in
      let whole : w.consume_varint (buf ++ c ∷ []) ≡ some v = rw (sym e) (laws.varint_whole v lt) in
      rw (short, whole)
  varint_loop-append v buf (c ∷ d ∷ q) rest ending lt e ne =
      let e' : w.append_varint v ≡ (buf ++ c ∷ []) ++ d ∷ q =
        e ∙ sym (append_assoc buf (c ∷ []) (d ∷ q)) in
      let short : ltb 10 (length (buf ++ c ∷ [])) ≡ false =
        not_ltb 10 _ (prefix_short v (buf ++ c ∷ []) (d ∷ q) lt e') in
      let cut : w.consume_varint (buf ++ c ∷ []) ≡ none =
        laws.varint_cut v (buf ++ c ∷ []) (d ∷ q) lt e' cons-ne-nil in
      rw (short, cut) (varint_loop-append v (buf ++ c ∷ []) (d ∷ q) rest ending lt e' cons-ne-nil)

  pub read_varint-append :
      (v : ℕ) (rest : Bytes) (ending : IoError)
      → v < 2 ^ 64
      → read_varint w (at (w.append_varint v ++ rest) ending) ≡ ok v (at rest ending)
  unfolding read_varint
  read_varint-append v rest ending lt =
      varint_loop-append v [] (w.append_varint v) rest ending lt refl (laws.varint_ne_nil v lt)

  pub zig_zag : (z : ℤ) → InSigned 64 z → w.decode_zig_zag (w.encode_zig_zag z) ≡ z
  zig_zag (pos n) h = rw (laws.encode_pos n (omega arith)) (laws.decode_even n (omega arith))
  zig_zag (negsuc n) h = rw (laws.encode_negsuc n (omega arith)) (laws.decode_odd n (omega arith))

  encode_zig_zag_lt : (z : ℤ) → InSigned 64 z → w.encode_zig_zag z < 2 ^ 64
  encode_zig_zag_lt (pos n) h = rw (laws.encode_pos n (omega arith)) (omega arith)
  encode_zig_zag_lt (negsuc n) h = rw (laws.encode_negsuc n (omega arith)) (omega arith)

  encode_zig_zag_lt_32 : (z : ℤ) → InSigned 32 z → w.encode_zig_zag z < 2 ^ 32
  encode_zig_zag_lt_32 (pos n) h = rw (laws.encode_pos n (omega arith)) (omega arith)
  encode_zig_zag_lt_32 (negsuc n) h = rw (laws.encode_negsuc n (omega arith)) (omega arith)

  pub read_sint64-write_sint64 :
      (z : ℤ) (rest : Bytes) (ending : IoError)
      → InSigned 64 z
      → read_sint64 w (at (write_sint64 w [] z ++ rest) ending) ≡ ok z (at rest ending)
  unfolding read_sint64 write_sint64
  read_sint64-write_sint64 z rest ending h =
      rw (read_varint-append (w.encode_zig_zag z) rest ending (encode_zig_zag_lt z h), zig_zag z h)

  -- Over a protowire that behaves as documented: an int32 that is written in zig-zag is read back,
  -- whatever follows it.
  pub read_sint32-write_sint32 :
      (z : ℤ) (rest : Bytes) (ending : IoError)
      → InSigned 32 z
      → read_sint32 w (at (write_sint32 w [] z ++ rest) ending) ≡ ok z (at rest ending)
  unfolding read_sint32 write_sint32
  read_sint32-write_sint32 z rest ending h =
      let lt : w.encode_zig_zag z < 2 ^ 32 = encode_zig_zag_lt_32 z h in
      let low : w.encode_zig_zag z % 2 ^ 32 ≡ w.encode_zig_zag z = omega arith in
      rw (
        read_varint-append (w.encode_zig_zag z) rest ending (omega arith),
        low,
        zig_zag z (wider z h),
        wrap_32 z h,
      )

  pub read_bool-write_bool :
      (b : Bool) (rest : Bytes) (ending : IoError)
      → read_bool w (at (write_bool w [] b ++ rest) ending) ≡ ok b (at rest ending)
  unfolding read_bool write_bool
  read_bool-write_bool b rest ending =
      let lt = laws.encode_bool_lt b in
      rw (read_varint-append (w.encode_bool b) rest ending (omega arith), laws.encode_bool_eq b)

  pub read_uint32-write_uint32 :
      (v : ℕ) (rest : Bytes) (ending : IoError)
      → v < 2 ^ 32
      → read_uint32 w (at (write_uint32 w [] v ++ rest) ending) ≡ ok v (at rest ending)
  unfolding read_uint32 write_uint32
  read_uint32-write_uint32 v rest ending lt =
      let low : v % 2 ^ 32 ≡ v = omega arith in
      rw (read_varint-append v rest ending (omega arith), low)

  -- The size of an array is written as an int32 and read as an uint32.
  pub read_uint32-write_int32 :
      (n : ℕ) (rest : Bytes) (ending : IoError)
      → n < 2 ^ 31
      → read_uint32 w (at (write_int32 w [] (pos n) ++ rest) ending) ≡ ok n (at rest ending)
  unfolding read_uint32 write_int32
  read_uint32-write_int32 n rest ending lt =
      let wide : n % 2 ^ 64 ≡ n = omega arith in
      let low : n % 2 ^ 32 ≡ n = omega arith in
      rw (wide, read_varint-append n rest ending (omega arith), low)

  -- Over a protowire that behaves as documented: bytes that are written behind their length are read
  -- back, whatever follows them, if they are no more than a slice can hold.
  pub read_bytes-write_bytes :
      (bytes rest : Bytes) (ending : IoError)
      → length bytes ≤ max_length
      → read_bytes w (at (write_bytes w [] bytes ++ rest) ending) ≡ ok bytes (at rest ending)
  unfolding read_bytes read_made write_bytes write_full write_varint
  read_bytes-write_bytes bytes rest ending le =
      let lt : length bytes < 2 ^ 64 = omega arith in
      let in_range : leb (length bytes) max_length ≡ true = ground arith in
      rw
        (
          append_assoc (w.append_varint (length bytes)) bytes rest,
          read_varint-append (length bytes) (bytes ++ rest) ending lt,
          in_range,
        )
        (read_full-append bytes rest ending)

  pub read_fixed32-write_fixed32 :
      (v : ℕ) (rest : Bytes) (ending : IoError)
      → v < 2 ^ 32
      → read_fixed32 w (at (write_fixed32 w [] v ++ rest) ending) ≡ ok v (at rest ending)
  unfolding read_fixed32 write_fixed32 write_full
  read_fixed32-write_fixed32 v rest ending lt = rw (
    read_full_n 4 (w.append_fixed32 v) rest ending (laws.fixed32_length v),
    laws.fixed32_whole v lt,
  )

  pub read_fixed64-write_fixed64 :
      (v : ℕ) (rest : Bytes) (ending : IoError)
      → v < 2 ^ 64
      → read_fixed64 w (at (write_fixed64 w [] v ++ rest) ending) ≡ ok v (at rest ending)
  unfolding read_fixed64 write_fixed64 write_full
  read_fixed64-write_fixed64 v rest ending lt = rw (
    read_full_n 8 (w.append_fixed64 v) rest ending (laws.fixed64_length v),
    laws.fixed64_whole v lt,
  )

  -- Over a protowire that behaves as documented: a tag with a number from 1 to 2^29 - 1 and a wire
  -- type of three bits is read back as it was written, whatever follows it.
  pub read_tag-write_tag :
      (num typ : ℕ) (rest : Bytes) (ending : IoError)
      → 0 < num
      → num < 2 ^ 29
      → typ < 8
      → read_tag w (at (write_tag w [] num typ ++ rest) ending) ≡ ok (pos num, typ) (at rest ending)
  unfolding read_tag write_tag check_tag
  read_tag-write_tag num typ rest ending positive lt typ_lt =
      let first : ltb num 1 ≡ false = not_ltb num 1 (omega arith) in
      rw
        (
          laws.encode_tag_eq num typ lt typ_lt,
          read_varint-append (8 * num + typ) rest ending (omega arith),
          laws.decode_tag_eq num typ lt typ_lt,
        )
        (ground arith)

  -- Over a protowire that behaves as documented: an int64 that is written as a varint, the sign bits
  -- included, is read back, whatever follows it.
  pub read_int64-write_int64 :
      (z : ℤ) (rest : Bytes) (ending : IoError)
      → InSigned 64 z
      → read_int64 w (at (write_int64 w [] z ++ rest) ending) ≡ ok z (at rest ending)
  unfolding read_int64 write_int64
  read_int64-write_int64 z rest ending h =
      rw (read_varint-append (to_word 64 z) rest ending (to_word_lt z), from_word-to_word-64 z h)
