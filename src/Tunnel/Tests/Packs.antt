-- ===== src/Tunnel/Tests/Packs.antt =====
-- What the theorems on packs say at a pack with one record, over a session that fails every other time.
use aliyun_odps_go_sdk.Prelude.{
  ℕ, suc, ◌+◌, ◌%◌, ◌≡◌, refl, true, some, List, [], ◌∷◌, ◌++◌, arith, length, ◌==◌, if◌then◌else◌,
}
use aliyun_odps_go_sdk.Prelude.Int.{ℤ, pos, ◌+ℤ◌}
use aliyun_odps_go_sdk.Text.{Text, codes}
use aliyun_odps_go_sdk.Words.{Bytes}
use aliyun_odps_go_sdk.Outcome.{Outcome, ok, err}
use aliyun_odps_go_sdk.Datatype.{TypeId, primitive}
use aliyun_odps_go_sdk.Data.{Data, Record, present}
use aliyun_odps_go_sdk.Tunnel.Writer.{Column, write, write_integer, close, new_record_writer}
use aliyun_odps_go_sdk.Tunnel.StreamReader.{eof}
use aliyun_odps_go_sdk.Tunnel.Reader.Field.{RecordReader}
use aliyun_odps_go_sdk.Tunnel.Reader.{Delivery, iterate, new_record_reader}
use aliyun_odps_go_sdk.Tunnel.RoundTrip.Stream.{at}
use aliyun_odps_go_sdk.Tunnel.RoundTrip.Fits.{fits_present, fits_big_int}
use aliyun_odps_go_sdk.Tunnel.RoundTrip.Streamed.{AllFit, deliver}
use aliyun_odps_go_sdk.Tunnel.Pack.{
  Pack, PackOutcome, Answer, sending, unsuccessful_flush, unsuccessful_append, new_pack, reset,
  after_send, append, flush,
}
use aliyun_odps_go_sdk.Tunnel.Pack.Steps.{Reached, opened, called, appended, Handed, flush-Handed}
use aliyun_odps_go_sdk.Tunnel.Pack.Retry.{
  here, flush-again, flush-append_refused, reset-append_refused,
}
use aliyun_odps_go_sdk.Tunnel.Pack.Delivered.{flush-iterate}
use aliyun_odps_go_sdk.Tunnel.Tests.Wire.{wire, wire_laws}

abbrev pub one_column : List Column
one_column = record { name = codes "n"; type = primitive TypeId.bigint } ∷ []

abbrev pub five : Record
five = present (Data.big_int (pos 5)) ∷ []

-- The session counts its calls, and fails at those of even number.
abbrev every_other : Bytes → ℤ → ℕ → Outcome ℕ Text (Text × ℤ)
every_other bytes count n =
    if n % 2 == 0 then err (codes "gone") (n + 1) else ok (codes "id", pos (length bytes)) (n + 1)

abbrev pack_of : {A : Type 0} → Pack ℕ Text → PackOutcome ℕ Text A → Pack ℕ Text
pack_of p (ok a p') = p'
pack_of p (err e p') = p'
pack_of p _ = p

abbrev answer_of : PackOutcome ℕ Text Answer → Answer
answer_of (ok a p') = a
answer_of _ = ([], pos 0, pos 0)

abbrev start : ℕ → Pack ℕ Text
unfolding new_pack
start n = new_pack one_column n

abbrev with_five : ℕ → Pack ℕ Text
unfolding append
with_five n = pack_of (start n) (append wire one_column true five (start n))

abbrev flush_five : ℕ → PackOutcome ℕ Text Answer
unfolding flush
flush_five n = flush wire one_column every_other (with_five n)

abbrev sent : Answer
unfolding flush
sent = answer_of (flush_five 1)

abbrev behind : ℕ → Pack ℕ Text
unfolding flush
behind n = pack_of (with_five n) (flush_five n)

five_appended : append wire one_column true five (start 1) ≡ ok tt (with_five 1)
unfolding append new_pack start with_five write new_record_writer write_integer
five_appended = refl

flush_of_five : flush wire one_column every_other (with_five 1) ≡ ok sent (behind 1)
unfolding flush append new_pack start with_five sent behind flush_five write new_record_writer
    write_integer close ◌+ℤ◌
flush_of_five = refl

failed_flush :
    flush wire one_column every_other (with_five 0) ≡ err (sending (codes "gone")) (behind 0)
unfolding flush append new_pack start with_five sent behind flush_five write new_record_writer
    write_integer close ◌+ℤ◌
failed_flush = refl

reached : Reached wire one_column true every_other (with_five 1) (five ∷ [])
unfolding new_pack start with_five
reached = called (opened 1) (appended five five_appended refl)

flush-Handed_example :
    Handed wire one_column true every_other (with_five 1) (five ∷ []) sent (behind 1)
flush-Handed_example =
    flush-Handed wire one_column true every_other (with_five 1) (five ∷ []) sent (behind 1) reached
      flush_of_five

pub five-AllFit : AllFit one_column (five ∷ [])
five-AllFit = ((fits_present (fits_big_int (omega arith, omega arith)), tt), tt)

abbrev pub keep : List Delivery → Delivery → List Delivery
keep ds d = ds ++ d ∷ []

flush-iterate_example :
    (bytes : Bytes) × (every_other bytes (pos (length (five ∷ []))) (with_five 1).session
      ≡ ok (sent.0, sent.2) (behind 1).session)
    × (sent.1 ≡ pos (length (five ∷ [])))
    × (q : RecordReader) × (iterate wire keep
          (suc (length bytes))
          []
          (new_record_reader (at bytes eof) one_column)
        ≡ (deliver keep one_column [] (five ∷ []), ok tt q))
flush-iterate_example =
    flush-iterate wire wire_laws one_column true every_other keep [] (with_five 1) (five ∷ []) sent
      (behind 1) reached (cc) (omega arith) five-AllFit (omega arith) flush_of_five

flush-again_example :
    let p' = behind 0 in
    (every_other p'.protoc.out p'.record_count (with_five 0).session
      ≡ err (codes "gone") p'.session)
    × (flush wire one_column every_other p'
        ≡ after_send one_column (every_other p'.protoc.out p'.record_count p'.session) p')
flush-again_example =
    flush-again wire one_column every_other (with_five 0) (behind 0) (codes "gone") failed_flush

flush-append_refused_example :
    let p'' = record (behind 0) { append_err = some unsuccessful_flush } in
    (append wire one_column true five (behind 0) ≡ err unsuccessful_flush p'')
    × (flush wire one_column every_other p'' ≡ err unsuccessful_append p'')
flush-append_refused_example =
    flush-append_refused wire one_column every_other true five (with_five 0) (behind 0)
      (codes "gone") failed_flush

reset-append_refused_example :
    append wire one_column true five (reset one_column (behind 0))
    ≡ err unsuccessful_flush
        (record (reset one_column (behind 0)) { append_err = some unsuccessful_flush })
reset-append_refused_example =
    reset-append_refused wire one_column every_other true (with_five 0) (behind 0)
      (reset one_column (behind 0)) (codes "gone") [] five failed_flush here
