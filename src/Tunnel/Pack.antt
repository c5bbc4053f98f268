-- ===== src/Tunnel/Pack.antt =====
-- odps/tunnel/record_pack_stream_writer.go: a pack of records, which a flush sends in one stream.
pub mod Calls
pub mod Steps
pub mod Retry
pub mod Delivered
pub mod Uploaded
use aliyun_odps_go_sdk.Prelude.{
  ℕ, ◌+◌, Bool, true, false, not, ◌&&◌, Option, none, some, List, [], ◌∷◌, length, ◌==◌,
  if◌then◌else◌,
}
use aliyun_odps_go_sdk.Prelude.Int.{ℤ, pos, ◌+ℤ◌, eqb_ℤ}
use aliyun_odps_go_sdk.Text.{Text}
use aliyun_odps_go_sdk.Words.{Bytes}
use aliyun_odps_go_sdk.Outcome
use aliyun_odps_go_sdk.Outcome.{Outcome, ok, err, panic, out_of_fuel, nil_dereference}
use aliyun_odps_go_sdk.Datatype.{DataType, id, name}
use aliyun_odps_go_sdk.Datatype.Equal.{id_eq}
use aliyun_odps_go_sdk.Data.{Data, Cell, Record, absent, present}
use aliyun_odps_go_sdk.Data.TypeOf.{type_of, id_of}
use aliyun_odps_go_sdk.Tunnel.Protowire.{Protowire}
use aliyun_odps_go_sdk.Tunnel.Writer.{
  Column, RecordWriter, WriteError, new_record_writer, write, close,
}

-- `E` is what an upload session fails with.
pub data PackError (E : Type 0) : Type 0 where
  unsuccessful_flush unsuccessful_append : PackError E
  length_mismatch : ℕ → ℕ → PackError E
  type_mismatch : ℕ → Text → Text → PackError E
  writing : WriteError → PackError E
  sending : E → PackError E

-- `RecordPackStreamWriter` with the session that it points at, of type `N`; its buffer is what the
-- record writer has put out. The number of records stays below the numbers of an int64, since every
-- record takes memory.
pub record Pack (N E : Type 0) : Type 0 where
  pub session : N
  pub protoc : RecordWriter
  pub flushing : Bool
  pub record_count : ℤ
  pub append_err : Option (PackError E)

-- The round of the loop of `checkIfRecordSchemaMatchSessionSchema`, at a value that does not match.
mismatch :
    {E : Type 0} → ℕ → Option DataType → DataType → Outcome (Unit {0}) (PackError E) (Unit {0})
mismatch index none column = panic nil_dereference
mismatch index (some t) column = err (type_mismatch index (name t) (name column)) tt

unfoldable pub check_cell :
    {E : Type 0} → ℕ → Cell → DataType → Outcome (Unit {0}) (PackError E) (Unit {0})
unfolding mismatch
check_cell index absent column = ok tt tt
check_cell index (present Data.null) column = ok tt tt
check_cell index (present d) column =
    if id_eq (id_of d) (id column) then ok tt tt else mismatch index (type_of d) column

unfoldable pub check_cells :
    {E : Type 0} → ℕ → Record → List Column → Outcome (Unit {0}) (PackError E) (Unit {0})
unfolding check_cell
check_cells index (c ∷ cs) (column ∷ columns) =
    Outcome.bind (check_cell index c column.type) λ _ _. check_cells (index + 1) cs columns
check_cells index _ _ = ok tt tt

-- `checkIfRecordSchemaMatchSessionSchema`
unfoldable pub check_schema :
    {E : Type 0} → Record → List Column → Outcome (Unit {0}) (PackError E) (Unit {0})
unfolding check_cells
check_schema values columns =
    if not (length values == length columns)
    then err (length_mismatch (length values) (length columns)) tt
    else check_cells 0 values columns

-- What `Flush` returns: the id of the request, the number of records and of bytes sent.
abbrev pub Answer : Type 0
Answer = Text × ℤ × ℤ

abbrev pub PackOutcome : Type 0 → Type 0 → Type 0 → Type 0
PackOutcome N E A = Outcome (Pack N E) (PackError E) A

module _ {N E : Type 0} where
  -- `newRecordStreamHttpWriter`
  unfoldable pub new_pack : List Column → N → Pack N E
  new_pack columns session = record {
    session = session;
    protoc = new_record_writer columns;
    flushing = false;
    record_count = pos 0;
    append_err = none;
  }

  -- `Reset`
  unfoldable pub reset : List Column → Pack N E → Pack N E
  reset columns p = record p {
    protoc = new_record_writer columns;
    record_count = pos 0;
    append_err = none;
  }

  -- The error is kept and returned.
  unfoldable pub fail_append : PackError E → Pack N E → PackOutcome N E (Unit {0})
  fail_append e p = err e (record p { append_err = some e })

  unfoldable pub after_write :
      Outcome RecordWriter WriteError (Unit {0}) → Pack N E → PackOutcome N E (Unit {0})
  unfolding fail_append
  after_write (ok _ protoc) p =
      ok tt (record p { protoc = protoc; record_count = p.record_count +ℤ pos 1 })
  after_write (err e protoc) p = fail_append (writing e) (record p { protoc = protoc })
  after_write (panic fault) p = panic fault
  after_write out_of_fuel p = out_of_fuel

  unfoldable pub after_check :
      Outcome (Unit {0}) (PackError E) (Unit {0})
      → (Pack N E → PackOutcome N E (Unit {0}))
      → Pack N E
      → PackOutcome N E (Unit {0})
  unfolding fail_append
  after_check (ok _ _) next p = next p
  after_check (err e _) next p = fail_append e p
  after_check (panic fault) next p = panic fault
  after_check out_of_fuel next p = out_of_fuel

  -- The part of `Flush` behind `flushStream`.
  unfoldable pub after_send :
      List Column → Outcome N E (Text × ℤ) → Pack N E → PackOutcome N E Answer
  unfolding reset
  after_send columns (ok (request_id, bytes_sent) session) p =
      ok (request_id, p.record_count, bytes_sent)
        (reset columns (record p { session = session; flushing = false }))
  after_send columns (err e session) p = err (sending e) (record p { session = session })
  after_send columns (panic fault) p = panic fault
  after_send columns out_of_fuel p = out_of_fuel

  unfoldable pub after_close :
      Outcome RecordWriter WriteError (Unit {0})
      → (Pack N E → PackOutcome N E Answer)
      → Pack N E
      → PackOutcome N E Answer
  after_close (ok _ protoc) next p = next (record p { protoc = protoc })
  after_close (err e protoc) next p = err (writing e) (record p { protoc = protoc })
  after_close (panic fault) next p = panic fault
  after_close out_of_fuel next p = out_of_fuel

  -- The test at the head of `Flush`.
  unfoldable pub unless_failed :
      Option (PackError E) → (Pack N E → PackOutcome N E Answer) → Pack N E → PackOutcome N E Answer
  unless_failed none next p = next p
  unless_failed (some e) next p = err unsuccessful_append p

  module _ (w : Protowire) (columns : List Column) where
    unfoldable pub append_checked : Record → Pack N E → PackOutcome N E (Unit {0})
    unfolding after_write
    append_checked values p = after_write (write w values p.protoc) p

    -- `Append`
    unfoldable pub append : Bool → Record → Pack N E → PackOutcome N E (Unit {0})
    unfolding fail_append after_check append_checked check_schema
    append allow_mismatch values p =
        if p.flushing
        then fail_append unsuccessful_flush p
        else after_check (if not allow_mismatch then check_schema values columns else ok tt tt)
            (append_checked values) p

    module _ (flush_stream : Bytes → ℤ → N → Outcome N E (Text × ℤ)) where
      unfoldable pub send : Pack N E → PackOutcome N E Answer
      unfolding after_send
      send p =
          after_send columns (flush_stream p.protoc.out p.record_count p.session)
            (record p { flushing = true })

      unfoldable pub close_and_send : Pack N E → PackOutcome N E Answer
      unfolding after_close send
      close_and_send p =
          if eqb_ℤ p.record_count (pos 0)
          then ok ([], pos 0, pos 0) p
          else if not p.flushing && not p.protoc.closed
          then after_close (close w p.protoc) send p
          else send p

      -- `Flush`; the time limit is one of the session's.
      unfoldable pub flush : Pack N E → PackOutcome N E Answer
      unfolding unless_failed close_and_send
      flush p = unless_failed p.append_err close_and_send p

  -- `RecordCount`, `DataSize`
  unfoldable pub record_count_of : Pack N E → ℤ
  record_count_of p = p.record_count

  unfoldable pub data_size : Pack N E → ℕ
  data_size p = length p.protoc.out
