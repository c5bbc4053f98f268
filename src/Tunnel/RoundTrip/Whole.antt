-- ===== src/Tunnel/RoundTrip/Whole.antt =====
-- A whole stream: `Write` for each record, `Close`, and `Iterator` over what was written.
use aliyun_odps_go_sdk.Prelude.{
  ℕ, suc, ◌+◌, ◌-◌, ◌^◌, ◌<◌, ◌≡◌, ◌≢◌, refl, sym, ap, ◌∙◌, true, List, [], ◌++◌, arith, length,
  length-append, append-nil,
}
use aliyun_odps_go_sdk.Prelude.Int.{pos}
use aliyun_odps_go_sdk.Outcome
use aliyun_odps_go_sdk.Outcome.{Outcome, ok, err}
use aliyun_odps_go_sdk.Data.{Record}
use aliyun_odps_go_sdk.Tunnel.Protowire.{Protowire, ProtowireLaws}
use aliyun_odps_go_sdk.Tunnel.StreamWriter.{write_tag, write_uint32}
use aliyun_odps_go_sdk.Tunnel.StreamReader.{count_error, eof, varint_loop, read_varint, read_tag}
use aliyun_odps_go_sdk.Tunnel.Writer.{
  Column, RecordWriter, meta_checksum, end_record, write_all, close, new_record_writer,
}
use aliyun_odps_go_sdk.Tunnel.Reader.Field.{RecordReader}
use aliyun_odps_go_sdk.Tunnel.Reader.{
  Delivery, failed, read_round, read_loop, after_read, read, iterate, new_record_reader,
}
use aliyun_odps_go_sdk.Tunnel.RoundTrip.Stream.{at}
use aliyun_odps_go_sdk.Tunnel.RoundTrip.Streamed.{AllFit, deliver, counted, counted_pos, streamed}
use aliyun_odps_go_sdk.Tunnel.RoundTrip.Trailer.{
  trailer, close-trailer, iterate-trailer, iterate-count_error,
}

module _ (w : Protowire) (laws : ProtowireLaws w) where
  -- Over a protowire that behaves as documented: records that fit fewer than 33553408 columns are
  -- written and the writer is closed with no error, if they are fewer than 2^63; and `Iterator` over
  -- what was written, with any function and any state of that function, delivers exactly those
  -- records in their order, a nil value at the end of a short record for each column it lacks, and
  -- returns no error: every checksum and the count agree.
  pub write_all-iterate :
      {A : Type 0} (f : A → Delivery → A) (a : A) (cs : List Column) (records : List Record)
      → length cs < end_record
      → AllFit cs records
      → length records < 2 ^ 63
      → (r : RecordWriter) × (Outcome.bind
            (write_all w records (new_record_writer cs))
            (λ _. close w)
          ≡ ok tt r)
        × (q : RecordReader) × (iterate w f
              (suc (length r.out))
              a
              (new_record_reader (at r.out eof) cs)
            ≡ (deliver f cs a records, ok tt q))
  unfolding new_record_writer new_record_reader
  write_all-iterate f a cs records small h few =
      let s = streamed w laws cs records small h in
      let n = length records in
      let total : counted records (pos 0) ≡ pos n = counted_pos records 0 ∙ ap pos (omega arith) in
      let sum = s.crc 0 in
      let tail = trailer w laws (pos n) sum in
      let r : RecordWriter = record {
        out = s.bytes ++ tail;
        columns = cs;
        record_crc = 0;
        crc_of_crc = sum;
        count = pos n;
        closed = true;
      } in
      let q : RecordReader = record {
        stream = at tail eof;
        columns = cs;
        record_crc = 0;
        crc_of_crc = sum;
        count = pos n;
      } in
      let fuel = length s.bytes + length tail - n in
      let enough = s.enough in
      let split : suc (length (s.bytes ++ tail)) ≡ n + suc fuel =
        omega (arith, length-append s.bytes tail) in
      (
        r,
        rw (s.writes (new_record_writer cs) refl refl, total) (close-trailer w laws _ refl),
        record q { stream = at [] eof },
        rw
            (
              s.iterates f a (new_record_reader (at (s.bytes ++ tail) eof) cs)
                  (suc (length (s.bytes ++ tail))) (suc fuel) tail refl split,
              total,
            )
            (iterate-trailer w laws f fuel (deliver f cs a records) n sum q few
              (s.crc_lt 0 (omega arith)) refl refl),
      )

  iterate-eof :
      {A : Type 0} (f : A → Delivery → A) (fuel : ℕ) (a : A) (q : RecordReader)
      → iterate w f (suc fuel) a (record q { stream = at [] eof })
        ≡ (a, ok tt (record q { stream = at [] eof }))
  unfolding iterate after_read read read_loop read_round read_tag read_varint varint_loop
  iterate-eof f fuel a q = refl

  -- Over a protowire that behaves as documented: a stream that ends behind its last record, with
  -- neither the count of records nor the checksum of checksums, is taken for a whole one: for
  -- records that fit fewer than 33553408 columns `Iterator` over what `Write` wrote before any call
  -- of `Close` delivers the records and returns no error.
  pub iterate-cut :
      {A : Type 0} (f : A → Delivery → A) (a : A) (cs : List Column) (records : List Record)
      → length cs < end_record
      → AllFit cs records
      → (r : RecordWriter) × (write_all w records (new_record_writer cs) ≡ ok tt r)
        × (q : RecordReader) × (iterate w f
              (suc (length r.out))
              a
              (new_record_reader (at r.out eof) cs)
            ≡ (deliver f cs a records, ok tt q))
  unfolding new_record_writer new_record_reader
  iterate-cut f a cs records small h =
      let s = streamed w laws cs records small h in
      let r = record (new_record_writer cs) {
        out = s.bytes;
        crc_of_crc = s.crc 0;
        count = counted records (pos 0);
      } in
      let q = record (new_record_reader (at [] eof) cs) {
        crc_of_crc = s.crc 0;
        count = counted records (pos 0);
      } in
      let fuel = length s.bytes - length records in
      let enough = s.enough in
      let split : suc (length s.bytes) ≡ length records + suc fuel = omega arith in
      (
        r,
        s.writes (new_record_writer cs) refl refl,
        q,
        ap (λ b. iterate w f (suc (length s.bytes)) a (new_record_reader (at b eof) cs))
              (sym (append-nil s.bytes))
            ∙ (s.iterates f a (new_record_reader (at s.bytes eof) cs) (suc (length s.bytes))
                  (suc fuel) [] refl split
                ∙ iterate-eof f fuel (deliver f cs a records) q),
      )

  -- Over a protowire that behaves as documented: records that fit fewer than 33553408 columns are
  -- written as some bytes; if a trailer with another count below 2^63 than the count of the records
  -- stands behind those bytes, whatever its checksum, `Iterator` delivers the records and then the
  -- error of a wrong count, which it also returns.
  pub iterate-write_all_count :
      {A : Type 0} (f : A → Delivery → A) (a : A) (cs : List Column) (records : List Record)
      (m sum : ℕ)
      → length cs < end_record
      → AllFit cs records
      → m < 2 ^ 63
      → m ≢ length records
      → (r : RecordWriter) × (write_all w records (new_record_writer cs) ≡ ok tt r)
        × (q : RecordReader) × (let stream = r.out ++ trailer w laws (pos m) sum in
            iterate w f (suc (length stream)) a (new_record_reader (at stream eof) cs)
            ≡ (f (deliver f cs a records) (failed count_error), err count_error q))
  unfolding new_record_writer new_record_reader
  iterate-write_all_count f a cs records m sum small h few ne =
      let s = streamed w laws cs records small h in
      let n = length records in
      let total : counted records (pos 0) ≡ pos n = counted_pos records 0 ∙ ap pos (omega arith) in
      let tail = trailer w laws (pos m) sum in
      let r = record (new_record_writer cs) {
        out = s.bytes;
        crc_of_crc = s.crc 0;
        count = counted records (pos 0);
      } in
      let q = record (new_record_reader (at tail eof) cs) { crc_of_crc = s.crc 0; count = pos n } in
      let fuel = length s.bytes + length tail - n in
      let enough = s.enough in
      let split : suc (length (s.bytes ++ tail)) ≡ n + suc fuel =
        omega (arith, length-append s.bytes tail) in
      (
        r,
        s.writes (new_record_writer cs) refl refl,
        record q {
          stream = at (write_tag w [] meta_checksum w.varint_type ++ write_uint32 w [] sum) eof;
        },
        rw
            (
              s.iterates f a (new_record_reader (at (s.bytes ++ tail) eof) cs)
                  (suc (length (s.bytes ++ tail))) (suc fuel) tail refl split,
              total,
            )
            (iterate-count_error w laws f fuel (deliver f cs a records) m n sum q few ne refl),
      )
