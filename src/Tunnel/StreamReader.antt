-- ===== src/Tunnel/StreamReader.antt =====
-- odps/tunnel/protoc_stream_reader.go over a reader that gives some bytes and then an error.
use aliyun_odps_go_sdk.Prelude.{
  ℕ, zero, suc, ◌%◌, ◌^◌, Bool, true, false, Option, none, some, [], ◌∷◌, ◌++◌, length, take, drop,
  ltb, leb, if◌then◌else◌,
}
use aliyun_odps_go_sdk.Prelude.Int.{ℤ, pos, ltb_ℤ}
use aliyun_odps_go_sdk.Words.{Bytes, from_word, wrap}
use aliyun_odps_go_sdk.Outcome
use aliyun_odps_go_sdk.Outcome.{Outcome, ok, err, panic, length_out_of_range}
use aliyun_odps_go_sdk.Tunnel.Protowire.{Protowire}

-- `io.EOF`, `io.ErrUnexpectedEOF`, and what else a connection can end with.
pub data IoError : Type 0 where
  eof unexpected_eof broken : IoError

-- The errors of the two readers of the package.
pub data ReadError : Type 0 where
  io : IoError → ReadError
  invalid_varint invalid_tag crc_error count_error invalid_stream stream_goes_on : ReadError
  checksum_error invalid_field map_error : ReadError

-- `unread` has not been read yet; reading on behind it gives the error `ending`.
pub record StreamReader : Type 0 where
  pub unread : Bytes
  pub ending : IoError

abbrev pub S : Type 0 → Type 0
S A = StreamReader → Outcome StreamReader ReadError A

infixl 5 ◌>>=◌
abbrev pub ◌>>=◌ : {A B : Type 0} → S A → (A → S B) → S B
◌>>=◌ m f r = Outcome.bind (m r) f

abbrev pub return : {A : Type 0} → A → S A
return a r = ok a r

abbrev pub advance : StreamReader → Bytes → StreamReader
advance r rest = record r { unread = rest }

-- The error of `io.ReadFull` when `got` bytes have come before the end.
unfoldable pub short_read : ℕ → IoError → IoError
short_read zero e = e
short_read (suc n) eof = unexpected_eof
short_read (suc n) e = e

-- `io.ReadFull` into a slice of `n` bytes.
unfoldable pub read_full : ℕ → S Bytes
unfolding short_read
read_full n r =
    if leb n (length r.unread)
    then ok (take n r.unread) (advance r (drop n r.unread))
    else err (io (short_read (length r.unread) r.ending)) (advance r [])

-- The greatest length of a slice of bytes that can be made, with addresses of 48 bits.
abbrev pub max_length : ℕ
max_length = 2 ^ 48

-- `make([]byte, m)`, which stops the program for a length out of range, and `io.ReadFull` into it.
unfoldable pub read_made : ℕ → S Bytes
unfolding read_full
read_made m r = if leb m max_length then read_full m r else panic length_out_of_range

-- Behind a byte of a varint: it is too long, it is whole, or the loop goes on.
unfoldable pub varint_round :
    Bool
    → Option ℕ
    → StreamReader
    → (Unit {0} → Outcome StreamReader ReadError ℕ)
    → Outcome StreamReader ReadError ℕ
varint_round true o here more = err invalid_varint here
varint_round false (some v) here more = ok v here
varint_round false none here more = more tt

module _ (w : Protowire) where
  -- The loop of `ReadVarint`: `buf` holds the bytes read so far.
  unfoldable pub varint_loop : Bytes → IoError → Bytes → Outcome StreamReader ReadError ℕ
  unfolding varint_round
  varint_loop buf ending [] = err (io ending) (record { unread = []; ending = ending })
  varint_loop buf ending (c ∷ cs) =
      let longer = buf ++ c ∷ [] in
      varint_round (ltb 10 (length longer)) (w.consume_varint longer)
        (record { unread = cs; ending = ending }) λ _. varint_loop longer ending cs

  unfoldable pub read_varint : S ℕ
  unfolding varint_loop
  read_varint r = varint_loop [] r.ending r.unread

  -- The test of `ReadTag` on the decoded tag.
  unfoldable pub check_tag : ℤ × ℕ → S (ℤ × ℕ)
  check_tag (num, typ) r = if ltb_ℤ num (pos 1) then err invalid_tag r else ok (num, typ) r

  unfoldable pub read_tag : S (ℤ × ℕ)
  unfolding read_varint check_tag
  read_tag = do m ← read_varint; check_tag (w.decode_tag m)

  unfoldable pub read_fixed32 : S ℕ
  unfolding read_full
  read_fixed32 = do b ← read_full 4; return (w.consume_fixed32 b)

  unfoldable pub read_fixed64 : S ℕ
  unfolding read_full
  read_fixed64 = do b ← read_full 8; return (w.consume_fixed64 b)

  unfoldable pub read_bytes : S Bytes
  unfolding read_varint read_made
  read_bytes = do m ← read_varint; read_made m

  unfoldable pub read_bool : S Bool
  unfolding read_varint
  read_bool = do m ← read_varint; return (w.decode_bool m)

  -- `int32(protowire.DecodeZigZag(m & math.MaxUint32))`
  unfoldable pub read_sint32 : S ℤ
  unfolding read_varint wrap
  read_sint32 = do m ← read_varint; return (wrap 32 (w.decode_zig_zag (m % 2 ^ 32)))

  -- `uint32(m)`
  unfoldable pub read_uint32 : S ℕ
  unfolding read_varint
  read_uint32 = do m ← read_varint; return (m % 2 ^ 32)

  unfoldable pub read_sint64 : S ℤ
  unfolding read_varint
  read_sint64 = do m ← read_varint; return (w.decode_zig_zag m)

  -- `int32(m)` and `int64(m)`
  unfoldable pub read_int32 : S ℤ
  unfolding read_varint
  read_int32 = do m ← read_varint; return (from_word 32 m)

  unfoldable pub read_int64 : S ℤ
  unfolding read_varint
  read_int64 = do m ← read_varint; return (from_word 64 m)

  unfoldable pub read_uint64 : S ℕ
  unfolding read_varint
  read_uint64 = read_varint

  unfoldable pub read_sfixed32 : S ℤ
  unfolding read_fixed32
  read_sfixed32 = do v ← read_fixed32; return (from_word 32 v)

  unfoldable pub read_sfixed64 : S ℤ
  unfolding read_fixed64
  read_sfixed64 = do v ← read_fixed64; return (from_word 64 v)
