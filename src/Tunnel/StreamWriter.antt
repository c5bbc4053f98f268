-- ===== src/Tunnel/StreamWriter.antt =====
-- odps/tunnel/protoc_stream_writer.go over a writer that takes all that it is given, as the
-- `bytes.Buffer` of a record pack does: each function appends to the bytes written so far.
use aliyun_odps_go_sdk.Prelude.{ℕ, Bool, ◌++◌, length}
use aliyun_odps_go_sdk.Prelude.Int.{ℤ}
use aliyun_odps_go_sdk.Words.{Bytes, to_word}
use aliyun_odps_go_sdk.Tunnel.Protowire.{Protowire}

-- `writeFull`: the one round of its loop takes everything.
unfoldable pub write_full : Bytes → Bytes → Bytes
write_full out bytes = out ++ bytes

module _ (w : Protowire) where
  unfoldable pub write_varint : Bytes → ℕ → Bytes
  unfolding write_full
  write_varint out v = write_full out (w.append_varint v)

  unfoldable pub write_tag : Bytes → ℕ → ℕ → Bytes
  unfolding write_varint
  write_tag out num typ = write_varint out (w.encode_tag num typ)

  unfoldable pub write_fixed32 : Bytes → ℕ → Bytes
  unfolding write_full
  write_fixed32 out v = write_full out (w.append_fixed32 v)

  unfoldable pub write_fixed64 : Bytes → ℕ → Bytes
  unfolding write_full
  write_fixed64 out v = write_full out (w.append_fixed64 v)

  unfoldable pub write_bytes : Bytes → Bytes → Bytes
  unfolding write_full write_varint
  write_bytes out bytes = write_full (write_varint out (length bytes)) bytes

  unfoldable pub write_bool : Bytes → Bool → Bytes
  unfolding write_varint
  write_bool out b = write_varint out (w.encode_bool b)

  -- `uint64(val)` extends the sign.
  unfoldable pub write_int32 : Bytes → ℤ → Bytes
  unfolding write_varint to_word
  write_int32 out z = write_varint out (to_word 64 z)

  unfoldable pub write_sint32 : Bytes → ℤ → Bytes
  unfolding write_varint
  write_sint32 out z = write_varint out (w.encode_zig_zag z)

  unfoldable pub write_sint64 : Bytes → ℤ → Bytes
  unfolding write_varint
  write_sint64 out z = write_varint out (w.encode_zig_zag z)

  unfoldable pub write_uint32 : Bytes → ℕ → Bytes
  unfolding write_varint
  write_uint32 out v = write_varint out v

  unfoldable pub write_int64 : Bytes → ℤ → Bytes
  unfolding write_varint to_word
  write_int64 out z = write_varint out (to_word 64 z)

  unfoldable pub write_uint64 : Bytes → ℕ → Bytes
  unfolding write_varint
  write_uint64 out v = write_varint out v

  -- Floats are their bit patterns.
  unfoldable pub write_float32 : Bytes → ℕ → Bytes
  unfolding write_fixed32
  write_float32 out bits = write_fixed32 out bits

  unfoldable pub write_float64 : Bytes → ℕ → Bytes
  unfolding write_fixed64
  write_float64 out bits = write_fixed64 out bits
