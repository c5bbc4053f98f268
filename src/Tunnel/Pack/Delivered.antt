-- ===== src/Tunnel/Pack/Delivered.antt =====
-- What the record reader makes of the stream that a flush gives the session.
use aliyun_odps_go_sdk.Prelude.{suc, ◌^◌, ◌<◌, ◌≡◌, ◌≢◌, sym, Bool, List, [], length}
use aliyun_odps_go_sdk.Prelude.Int.{ℤ, pos}
use aliyun_odps_go_sdk.Text.{Text}
use aliyun_odps_go_sdk.Words.{Bytes}
use aliyun_odps_go_sdk.Outcome
use aliyun_odps_go_sdk.Outcome.{Outcome, ok}
use aliyun_odps_go_sdk.Data.{Record}
use aliyun_odps_go_sdk.Tunnel.Protowire.{Protowire, ProtowireLaws}
use aliyun_odps_go_sdk.Tunnel.Writer.{
  Column, RecordWriter, end_record, new_record_writer, write_all, close,
}
use aliyun_odps_go_sdk.Tunnel.StreamReader.{eof}
use aliyun_odps_go_sdk.Tunnel.Reader.Field.{RecordReader}
use aliyun_odps_go_sdk.Tunnel.Reader.{Delivery, iterate, new_record_reader}
use aliyun_odps_go_sdk.Tunnel.RoundTrip.Stream.{at}
use aliyun_odps_go_sdk.Tunnel.RoundTrip.Streamed.{AllFit, deliver}
use aliyun_odps_go_sdk.Tunnel.RoundTrip.Whole.{write_all-iterate}
use aliyun_odps_go_sdk.Tunnel.Pack.{Pack, Answer, new_pack, flush}
use aliyun_odps_go_sdk.Tunnel.Pack.Steps.{
  Reached, IsStream, Handed, none_held, handed, flush-Handed,
}

module _ {N E : Type 0} (w : Protowire) (laws : ProtowireLaws w) (columns : List Column)
    (allow : Bool) (flush_stream : Bytes → ℤ → N → Outcome N E (Text × ℤ)) where
  IsStream-writes :
      (records : List Record) (r : RecordWriter)
      → IsStream w columns allow flush_stream records r
      → Outcome.bind (write_all w records (new_record_writer columns)) (λ _. close w) ≡ ok tt r
  IsStream-writes records r s = rw (s.written) s.closing

  -- Over a protowire that behaves as documented, and with any session: when a pack holds at least one
  -- record and its records fit fewer than 33553408 columns and are fewer than 2^63, a `Flush` that
  -- returns no error has given the session bytes from which `Iterator` delivers exactly those
  -- records in their order, a nil value at the end of a short record for each column it lacks, with
  -- no error; the number that it returns is that of the records.
  pub flush-iterate :
      {A : Type 0} (f : A → Delivery → A) (a : A) (p : Pack N E) (records : List Record)
      (answer : Answer) (p' : Pack N E)
      → Reached w columns allow flush_stream p records
      → records ≢ []
      → length columns < end_record
      → AllFit columns records
      → length records < 2 ^ 63
      → flush w columns flush_stream p ≡ ok answer p'
      → (bytes : Bytes) × (flush_stream bytes (pos (length records)) p.session
          ≡ ok (answer.0, answer.2) p'.session)
        × (answer.1 ≡ pos (length records))
        × (q : RecordReader) × (iterate w f
              (suc (length bytes))
              a
              (new_record_reader (at bytes eof) columns)
            ≡ (deliver f columns a records, ok tt q))
  unfolding new_pack
  flush-iterate f a p records answer p' reached some_record small fit few e =
      go (flush-Handed w columns allow flush_stream p records answer p' reached e)
    where
      go :
          Handed w columns allow flush_stream p records answer p'
          → (bytes : Bytes) × (flush_stream bytes (pos (length records)) p.session
              ≡ ok (answer.0, answer.2) p'.session)
            × (answer.1 ≡ pos (length records))
            × (q : RecordReader) × (iterate w f
                  (suc (length bytes))
                  a
                  (new_record_reader (at bytes eof) columns)
                ≡ (deliver f columns a records, ok tt q))
      go (none_held nil e' same) = absurd (some_record nil)
      go (handed r id n session _ s given e' same) =
          let (r', whole, q, read_back) =
            write_all-iterate w laws f a columns records small fit few in
          let one_stream : r' ≡ r = cc (whole, IsStream-writes records r s) in
          (r.out, rw (same, e') given, rw e', q, rw (sym one_stream) read_back)
