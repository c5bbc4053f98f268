-- ===== src/Tunnel/RoundTrip/Trailer.antt =====
-- The end of a stream: `close`, and the call of `Read` that comes to what it writes.
use aliyun_odps_go_sdk.Prelude.{
  ℕ, suc, ◌+◌, ◌-◌, ◌^◌, ◌<◌, ◌≤◌, ◌≡◌, ◌≢◌, sym, ap, ◌∙◌, true, false, [], ◌++◌, arith, ◌==◌,
  length, replicate, length-append, append_assoc, append-nil,
}
use aliyun_odps_go_sdk.Prelude.Int.{ℤ, pos}
use aliyun_odps_go_sdk.Words.{Bytes}
use aliyun_odps_go_sdk.Outcome.{ok, err}
use aliyun_odps_go_sdk.Data.{Record, absent}
use aliyun_odps_go_sdk.Tunnel.Protowire.{Protowire, ProtowireLaws}
use aliyun_odps_go_sdk.Tunnel.StreamWriter.{
  write_full, write_varint, write_tag, write_uint32, write_sint64,
}
use aliyun_odps_go_sdk.Tunnel.StreamReader.{count_error, eof, io, read_uint32}
use aliyun_odps_go_sdk.Tunnel.Writer.{RecordWriter, meta_count, meta_checksum, close}
use aliyun_odps_go_sdk.Tunnel.Reader.Field.{RecordReader}
use aliyun_odps_go_sdk.Tunnel.Reader.{
  Delivery, failed, end_of_stream, expect_end, last_checksum, check_count, check_sum, checked_by,
  read_meta, dispatch, read_round, read_loop, after_round, after_read, read, iterate,
}
use aliyun_odps_go_sdk.Tunnel.RoundTrip.Stream.{
  at, read_tag-write_tag, read_uint32-write_uint32, read_sint64-write_sint64,
}
use aliyun_odps_go_sdk.Tunnel.RoundTrip.Column.{tag_length}
use aliyun_odps_go_sdk.Tunnel.RoundTrip.Record.{read-read_loop, equal}
use aliyun_odps_go_sdk.Tunnel.RoundTrip.Streamed.{iterate-suc}

differ : (m n : ℕ) → m ≢ n → (m + 0 == n + 0) ≡ false
differ m n ne = ground arith

module _ (w : Protowire) (laws : ProtowireLaws w) where
  unfoldable pub trailer : ℤ → ℕ → Bytes
  trailer count sum =
      write_tag w [] meta_count w.varint_type
      ++ (write_sint64 w [] count
          ++ (write_tag w [] meta_checksum w.varint_type ++ write_uint32 w [] sum))

  pub close-trailer :
      (r : RecordWriter)
      → r.closed ≡ false
      → close w r ≡ ok tt (record r { out = r.out ++ trailer r.count r.crc_of_crc; closed = true })
  unfolding trailer close write_uint32 write_sint64 write_tag write_varint write_full
  close-trailer r e =
      let count_tag = write_tag w [] meta_count w.varint_type in
      let count_bytes = write_sint64 w [] r.count in
      let sum_tag = write_tag w [] meta_checksum w.varint_type in
      let sum_bytes = write_uint32 w [] r.crc_of_crc in
      rw (
        e,
        append_assoc ((r.out ++ count_tag) ++ count_bytes) sum_tag sum_bytes,
        append_assoc (r.out ++ count_tag) count_bytes (sum_tag ++ sum_bytes),
        append_assoc r.out count_tag (count_bytes ++ (sum_tag ++ sum_bytes)),
      )

  trailer-length : (count : ℤ) (sum : ℕ) → 1 ≤ length (trailer count sum)
  unfolding trailer
  trailer-length count sum =
      let rest =
        write_sint64 w [] count
        ++ (write_tag w [] meta_checksum w.varint_type ++ write_uint32 w [] sum) in
      let some_byte =
        tag_length w laws meta_count w.varint_type (omega arith) laws.varint_type_lt in
      omega (arith, length-append (write_tag w [] meta_count w.varint_type) rest)

  read_round-trailer :
      (n sum : ℕ) (values : Record) (q : RecordReader)
      → n < 2 ^ 63
      → sum < 2 ^ 32
      → q.count ≡ pos n
      → q.crc_of_crc ≡ sum
      → read_round w values (record q { stream = at (trailer (pos n) sum) eof })
        ≡ ok (values, false) (record q { stream = at [] eof })
  unfolding trailer read_round dispatch read_meta check_count checked_by last_checksum expect_end
      end_of_stream check_sum
  read_round-trailer n sum values q small lt e e' =
      let sum_bytes = write_uint32 w [] sum in
      let tag_bytes = write_tag w [] meta_checksum w.varint_type in
      let sum_read : read_uint32 w (at sum_bytes eof) ≡ ok sum (at [] eof) =
        ap (λ b. read_uint32 w (at b eof)) (sym (append-nil sum_bytes))
        ∙ read_uint32-write_uint32 w laws sum [] eof lt in
      let same_count : (n + 0 == n + 0) ≡ true = equal (n + 0) in
      rw (
        read_tag-write_tag w laws meta_count w.varint_type
            (write_sint64 w [] (pos n) ++ (tag_bytes ++ sum_bytes)) eof (omega arith) (omega arith)
            laws.varint_type_lt,
        read_sint64-write_sint64 w laws (pos n) (tag_bytes ++ sum_bytes) eof
            (omega arith, omega arith),
        e,
        same_count,
        read_tag-write_tag w laws meta_checksum w.varint_type sum_bytes eof (omega arith)
            (omega arith) laws.varint_type_lt,
        sum_read,
        e',
        equal sum,
      )

  -- The call of `Read` that comes to the trailer finds the end of the stream behind it.
  read-trailer :
      (n sum : ℕ) (q : RecordReader)
      → n < 2 ^ 63
      → sum < 2 ^ 32
      → q.count ≡ pos n
      → q.crc_of_crc ≡ sum
      → read w (record q { stream = at (trailer (pos n) sum) eof })
        ≡ err (io eof) (record q { stream = at [] eof })
  unfolding read_loop after_round
  read-trailer n sum q small lt e e' =
      let start = record q { stream = at (trailer (pos n) sum) eof } in
      let blank = replicate (length q.columns) absent in
      let long : length (trailer (pos n) sum) ≡ suc (length (trailer (pos n) sum) - 1) =
        let some_byte = trailer-length (pos n) sum in omega arith in
      rw (read-read_loop w laws start, long, read_round-trailer n sum blank q small lt e e')

  pub iterate-trailer :
      {A : Type 0} (f : A → Delivery → A) (fuel : ℕ) (a : A) (n sum : ℕ) (q : RecordReader)
      → n < 2 ^ 63
      → sum < 2 ^ 32
      → q.count ≡ pos n
      → q.crc_of_crc ≡ sum
      → iterate w f (suc fuel) a (record q { stream = at (trailer (pos n) sum) eof })
        ≡ (a, ok tt (record q { stream = at [] eof }))
  unfolding after_read
  iterate-trailer f fuel a n sum q small lt e e' = rw (
    iterate-suc w laws f fuel a (record q { stream = at (trailer (pos n) sum) eof }),
    read-trailer n sum q small lt e e',
  )

  -- A trailer with another count than the reader's.
  read-count_error :
      (m n sum : ℕ) (q : RecordReader)
      → m < 2 ^ 63
      → m ≢ n
      → q.count ≡ pos n
      → read w (record q { stream = at (trailer (pos m) sum) eof })
        ≡ err count_error (record q {
          stream = at (write_tag w [] meta_checksum w.varint_type ++ write_uint32 w [] sum) eof;
        })
  unfolding trailer read_loop read_round dispatch read_meta check_count
  read-count_error m n sum q small ne e =
      let rest = write_tag w [] meta_checksum w.varint_type ++ write_uint32 w [] sum in
      let other : (m + 0 == n + 0) ≡ false = differ m n ne in
      rw (
        read-read_loop w laws (record q { stream = at (trailer (pos m) sum) eof }),
        read_tag-write_tag w laws meta_count w.varint_type (write_sint64 w [] (pos m) ++ rest) eof
            (omega arith) (omega arith) laws.varint_type_lt,
        read_sint64-write_sint64 w laws (pos m) rest eof (omega arith, omega arith),
        e,
        other,
      )

  pub iterate-count_error :
      {A : Type 0} (f : A → Delivery → A) (fuel : ℕ) (a : A) (m n sum : ℕ) (q : RecordReader)
      → m < 2 ^ 63
      → m ≢ n
      → q.count ≡ pos n
      → iterate w f (suc fuel) a (record q { stream = at (trailer (pos m) sum) eof }) ≡ (
        f a (failed count_error),
        err count_error (record q {
          stream = at (write_tag w [] meta_checksum w.varint_type ++ write_uint32 w [] sum) eof;
        }),
      )
  unfolding after_read
  iterate-count_error f fuel a m n sum q small ne e = rw (
    iterate-suc w laws f fuel a (record q { stream = at (trailer (pos m) sum) eof }),
    read-count_error m n sum q small ne e,
  )
