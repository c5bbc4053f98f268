-- ===== src/Tunnel/Reader.antt =====
-- `Read` and `Iterator` of odps/tunnel/record_protoc_reader.go.
use aliyun_odps_go_sdk.Prelude.{
  ℕ, zero, suc, ◌+◌, Bool, true, false, not, Option, none, some, List, [], ◌∷◌, ◌==◌, ltb, length,
  get_elem?, set, replicate, if◌then◌else◌,
}
use aliyun_odps_go_sdk.Prelude.Int.{ℤ, pos, negsuc, ◌+ℤ◌, eqb_ℤ}
use aliyun_odps_go_sdk.Words.{Bytes, little_endian}
use aliyun_odps_go_sdk.Outcome
use aliyun_odps_go_sdk.Outcome.{Outcome, ok, err, panic, out_of_fuel, index_out_of_range}
use aliyun_odps_go_sdk.Data.{Cell, Record, absent}
use aliyun_odps_go_sdk.Tunnel.Protowire.{Protowire}
use aliyun_odps_go_sdk.Tunnel.Crc.{crc_update}
use aliyun_odps_go_sdk.Tunnel.StreamReader.{
  IoError, ReadError, StreamReader, S, eof, unexpected_eof, broken, io, crc_error, count_error,
  invalid_stream, stream_goes_on, checksum_error, invalid_field, advance, read_tag, read_sint64,
  read_uint32,
}
use aliyun_odps_go_sdk.Tunnel.Writer.{Column, meta_count, meta_checksum, end_record, bytes_32}
use aliyun_odps_go_sdk.Tunnel.Reader.Field.{
  RecordReader, M, ◌>>=◌, ◌>>◌, return, throw, get, update_crc, read_field,
}
pub mod Field
pub mod Total

-- `newRecordProtocReader`, over a body that has not been read.
unfoldable pub new_record_reader : StreamReader → List Column → RecordReader
new_record_reader body columns = record {
  stream = body;
  columns = columns;
  record_crc = 0;
  crc_of_crc = 0;
  count = pos 0;
}

-- `inner.Read` into one byte, behind the checksum of checksums: the stream has to end there.
unfoldable pub end_of_stream : Bytes → IoError → Outcome StreamReader ReadError (Unit {0})
end_of_stream (c ∷ cs) ending = err stream_goes_on (record { unread = cs; ending = ending })
end_of_stream [] eof = ok tt (record { unread = []; ending = eof })
end_of_stream [] unexpected_eof = ok tt (record { unread = []; ending = unexpected_eof })
end_of_stream [] broken = err stream_goes_on (record { unread = []; ending = broken })

unfoldable pub expect_end : S (Unit {0})
unfolding end_of_stream
expect_end s = end_of_stream s.unread s.ending

-- The checksum that is read last; its error is passed over, and 0 stands for it.
unfoldable pub last_checksum : Outcome StreamReader ReadError ℕ → Outcome StreamReader ReadError ℕ
unfolding expect_end
last_checksum (ok v s) = Outcome.bind (expect_end s) (λ _. ok v)
last_checksum (err e s) = ok 0 s
last_checksum (panic p) = panic p
last_checksum out_of_fuel = out_of_fuel

-- What a round of the loop of `Read` leaves: the record so far, and whether the loop is left.
abbrev pub Round : Type 0
Round = Record × Bool

-- `m.recordCrc.Reset()` and the rest of the case of `EndRecord`.
unfoldable pub accept_record : Record → ℕ → M Round
accept_record values sum r =
    if not (r.record_crc == sum)
    then err crc_error r
    else ok (values, true)
        (record r {
          record_crc = 0;
          crc_of_crc = crc_update r.crc_of_crc (little_endian 4 r.record_crc);
        })

unfoldable pub check_count : ℤ → M (Unit {0})
check_count z r = if eqb_ℤ z r.count then ok tt r else err count_error r

unfoldable pub check_sum : Record → ℕ → M Round
check_sum values sum r = if r.crc_of_crc == sum then ok (values, false) r else err checksum_error r

-- What the function that `Iterator` is given is called with.
pub data Delivery : Type 0 where
  delivered : Record → Delivery
  failed : ReadError → Delivery

-- Behind a call of `Read` in `Iterator`: `go_on` is its next round.
unfoldable pub after_read :
    {A : Type 0}
    → (A → Delivery → A)
    → A
    → (A → RecordReader → A × Outcome RecordReader ReadError (Unit {0}))
    → Outcome RecordReader ReadError Record
    → A × Outcome RecordReader ReadError (Unit {0})
after_read f a go_on (ok values r) = go_on (f a (delivered values)) r
after_read f a go_on (err (io eof) r) = (a, ok tt r)
after_read f a go_on (err e r) = (f a (failed e), err e r)
after_read f a go_on (panic p) = (a, panic p)
after_read f a go_on out_of_fuel = (a, out_of_fuel)

-- Behind a round of `Read`: the loop is left, or `go_on` is its next round.
unfoldable pub after_round : (Record → M Record) → Record → Bool → M Record
after_round go_on values true r = ok values r
after_round go_on values false r = go_on values r

-- `r.count += 1` behind the loop of `Read`.
unfoldable pub count_record : Record → M Record
count_record values r = ok values (record r { count = r.count +ℤ pos 1 })

module _ (w : Protowire) where
  unfoldable pub read_end : Record → M Round
  unfolding read_uint32 accept_record
  read_end values = do sum ← get (read_uint32 w); accept_record values sum

  unfoldable pub checked_by : ℤ → Record → M Round
  unfolding read_uint32 last_checksum check_sum
  checked_by num values r =
      if eqb_ℤ num (pos meta_checksum)
      then (get (λ s. last_checksum (read_uint32 w s)) >>= check_sum values) r
      else err invalid_stream r

  unfoldable pub read_meta : Record → M Round
  unfolding read_sint64 read_tag check_count checked_by
  read_meta values = do
    z ← get (read_sint64 w)
    check_count z
    (num, typ) ← get (read_tag w)
    checked_by num values

  -- `r.columns[columnIndex-1]` and `record[columnIndex-1] = fv`
  unfoldable pub read_column_at : ℕ → Option Column → Record → M Round
  unfolding read_field
  read_column_at index none values r = panic index_out_of_range
  read_column_at index (some c) values r =
      (read_field w c.type >>= λ v. return (set values index v, false)) r

  unfoldable pub read_column : ℤ → Record → M Round
  unfolding read_column_at
  read_column (pos (suc index)) values r =
      if ltb (length r.columns) (suc index)
      then err invalid_field r
      else (update_crc (bytes_32 (pos (suc index))) >> λ r'.
            read_column_at index (get_elem? r'.columns index) values r')
          r
  read_column num values r = panic index_out_of_range

  -- The switch over the number of the tag.
  unfoldable pub dispatch : ℤ → Record → M Round
  unfolding read_end read_meta read_column
  dispatch num values r =
      if eqb_ℤ num (pos end_record)
      then read_end values r
      else (if eqb_ℤ num (pos meta_count) then read_meta values r else read_column num values r)

  unfoldable pub read_round : Record → M Round
  unfolding read_tag dispatch
  read_round values = do (num, typ) ← get (read_tag w); dispatch num values

  -- The loop of `Read`; every round takes a byte at least.
  unfoldable pub read_loop : ℕ → Record → M Record
  unfolding read_round after_round
  read_loop zero values = λ r. out_of_fuel
  read_loop (suc fuel) values = do
    (more, finished) ← read_round values
    after_round (read_loop fuel) more finished

  -- `Read`
  unfoldable pub read : M Record
  unfolding read_loop count_record
  read r =
      (read_loop (suc (length r.stream.unread)) (replicate (length r.columns) absent)
          >>= count_record)
        r

  -- `Iterator`, with a function that changes a state of type `A`.
  unfoldable pub iterate :
      {A : Type 0}
      → (A → Delivery → A)
      → ℕ
      → A
      → RecordReader
      → A × Outcome RecordReader ReadError (Unit {0})
  unfolding read after_read
  iterate f zero a r = (a, out_of_fuel)
  iterate f (suc fuel) a r = after_read f a (iterate f fuel) (read r)
