-- ===== src/Tunnel/RoundTrip/Record.antt =====
-- `Write` and `Read` of one record.
use aliyun_odps_go_sdk.Prelude.{
  ℕ, suc, ◌+◌, ◌-◌, ◌^◌, ◌<◌, ◌≤◌, ◌≡◌, ◌⊎◌, inl, inr, Bool-cases, ==_iff, refl, sym, true, false,
  List, [], ◌∷◌, ◌++◌, arith, ltb, ◌==◌, length, replicate, length-append, append_assoc,
}
use aliyun_odps_go_sdk.Prelude.Int.{pos, ◌+ℤ◌}
use aliyun_odps_go_sdk.Words.{Bytes, little_endian}
use aliyun_odps_go_sdk.Outcome
use aliyun_odps_go_sdk.Outcome.{Outcome, ok, err}
use aliyun_odps_go_sdk.Data.{Record, absent}
use aliyun_odps_go_sdk.Tunnel.Protowire.{Protowire, ProtowireLaws}
use aliyun_odps_go_sdk.Tunnel.Crc.{crc_update}
use aliyun_odps_go_sdk.Tunnel.StreamWriter.{write_full, write_varint, write_tag, write_uint32}
use aliyun_odps_go_sdk.Tunnel.StreamReader.{crc_error}
use aliyun_odps_go_sdk.Tunnel.Writer.{Column, RecordWriter, end_record, end_of_record, write}
use aliyun_odps_go_sdk.Tunnel.Reader.Field.{RecordReader}
use aliyun_odps_go_sdk.Tunnel.Reader.{
  accept_record, read_end, dispatch, read_round, read_loop, after_round, count_record, read,
}
use aliyun_odps_go_sdk.Tunnel.RoundTrip.Stream.{at, read_tag-write_tag, read_uint32-write_uint32}
use aliyun_odps_go_sdk.Tunnel.RoundTrip.Transmits.{before}
use aliyun_odps_go_sdk.Tunnel.RoundTrip.Column.{tag_length}
use aliyun_odps_go_sdk.Tunnel.RoundTrip.Columns.{FitsColumns, padded, Sent, columns}

FitsColumns-length : (cs : List Column) (vs : Record) → FitsColumns cs vs → length vs ≤ length cs
FitsColumns-length cs [] h = omega arith
FitsColumns-length [] (v ∷ vs) h = absurd h
FitsColumns-length (c ∷ cs) (v ∷ vs) (h, hs) = omega (arith, FitsColumns-length cs vs hs)

-- The writer and the reader behind a record of the checksum `sum`.
abbrev pub wrote_record : RecordWriter → Bytes → ℕ → RecordWriter
wrote_record r bytes sum = record r {
  out = r.out ++ bytes;
  record_crc = 0;
  crc_of_crc = crc_update r.crc_of_crc (little_endian 4 sum);
  count = r.count +ℤ pos 1;
}

abbrev pub behind_record : RecordReader → Bytes → ℕ → RecordReader
behind_record q rest sum = record q {
  stream = at rest q.stream.ending;
  record_crc = 0;
  crc_of_crc = crc_update q.crc_of_crc (little_endian 4 sum);
  count = q.count +ℤ pos 1;
}

pub equal : (n : ℕ) → (n == n) ≡ true
equal n = ground arith

module _ (w : Protowire) (laws : ProtowireLaws w) where
  pub record RecordSent (cs : List Column) (vs : Record) : Type 0 where
    pub bytes : Bytes
    pub sum : ℕ
    pub some_byte : 1 ≤ length bytes
    pub writes :
        (r : RecordWriter)
        → r.columns ≡ cs
        → r.record_crc ≡ 0
        → write w vs r ≡ ok tt (wrote_record r bytes sum)
    pub reads :
        (q : RecordReader) (rest : Bytes)
        → q.columns ≡ cs
        → read w (before q (bytes ++ rest) 0) ≡ ok (padded cs vs) (behind_record q rest sum)

  end_bytes : ℕ → Bytes
  end_bytes sum = write_tag w [] end_record w.varint_type ++ write_uint32 w [] sum

  write-bytes :
      (cs : List Column) (vs : Record) (s : Sent w laws [] 0 cs vs) (r : RecordWriter)
      → FitsColumns cs vs
      → r.columns ≡ cs
      → r.record_crc ≡ 0
      → write w vs r ≡ ok tt (wrote_record r (s.bytes ++ end_bytes (s.crc 0)) (s.crc 0))
  unfolding end_bytes write end_of_record write_uint32 write_tag write_varint write_full
  write-bytes cs vs s r h e e' =
      let few : ltb (length r.columns) (length vs) ≡ false =
        rw e (ground (arith, FitsColumns-length cs vs h)) in
      let tag = write_tag w [] end_record w.varint_type in
      rw (
        few,
        s.writes r e,
        e',
        append_assoc r.out s.bytes tag,
        append_assoc r.out (s.bytes ++ tag) (w.append_varint (s.crc 0)),
        append_assoc s.bytes tag (w.append_varint (s.crc 0)),
      )

  read_loop-end :
      (fuel sum : ℕ) (values : Record) (q : RecordReader) (rest : Bytes)
      → sum < 2 ^ 32
      → read_loop w (suc fuel) values (before q (end_bytes sum ++ rest) sum)
        ≡ ok values (record q {
          stream = at rest q.stream.ending;
          record_crc = 0;
          crc_of_crc = crc_update q.crc_of_crc (little_endian 4 sum);
        })
  unfolding end_bytes read_loop after_round read_round dispatch read_end accept_record
  read_loop-end fuel sum values q rest lt =
      let tag = write_tag w [] end_record w.varint_type in
      rw (
        append_assoc tag (write_uint32 w [] sum) rest,
        read_tag-write_tag w laws end_record w.varint_type (write_uint32 w [] sum ++ rest)
            q.stream.ending (omega arith) (omega arith) laws.varint_type_lt,
        read_uint32-write_uint32 w laws sum rest q.stream.ending lt,
        equal sum,
      )

  pub read-read_loop :
      (r : RecordReader)
      → read w r
        ≡ Outcome.bind
            (read_loop w (suc (length r.stream.unread)) (replicate (length r.columns) absent) r)
            count_record
  unfolding read
  read-read_loop r = refl

  read-bytes :
      (cs : List Column) (vs : Record) (s : Sent w laws [] 0 cs vs) (q : RecordReader)
      (rest : Bytes)
      → q.columns ≡ cs
      → read w (before q ((s.bytes ++ end_bytes (s.crc 0)) ++ rest) 0)
        ≡ ok (padded cs vs) (behind_record q rest (s.crc 0))
  unfolding count_record
  read-bytes cs vs s q rest e =
      let total = suc (length (s.bytes ++ (end_bytes (s.crc 0) ++ rest))) in
      let left = length s.bytes + length (end_bytes (s.crc 0) ++ rest) - s.rounds in
      let enough = s.enough in
      let split : total ≡ s.rounds + suc left =
        omega (arith, length-append s.bytes (end_bytes (s.crc 0) ++ rest)) in
      let blank : replicate (length q.columns) absent ≡ replicate (length cs) absent = rw e in
      rw (
        append_assoc s.bytes (end_bytes (s.crc 0)) rest,
        read-read_loop (before q (s.bytes ++ (end_bytes (s.crc 0) ++ rest)) 0),
        blank,
        s.reads q [] total (suc left) (end_bytes (s.crc 0) ++ rest) 0 e refl split,
        read_loop-end left (s.crc 0) (padded cs vs) q rest (s.crc_lt 0 (omega arith)),
      )

  pub sent_record :
      (cs : List Column) (vs : Record)
      → length cs < end_record
      → FitsColumns cs vs
      → RecordSent cs vs
  unfolding end_bytes
  sent_record cs vs small h =
      let s : Sent w laws [] 0 cs vs = columns w laws [] 0 cs vs refl (omega arith) h in
      record {
        bytes = s.bytes ++ end_bytes (s.crc 0);
        sum = s.crc 0;
        some_byte =
            let tag = write_tag w [] end_record w.varint_type in
            let some_byte =
              tag_length w laws end_record w.varint_type (omega arith) laws.varint_type_lt in
            omega (
              arith,
              length-append s.bytes (end_bytes (s.crc 0)),
              length-append tag (write_uint32 w [] (s.crc 0)),
            );
        writes = λ r e e'. write-bytes cs vs s r h e e';
        reads = read-bytes cs vs s;
      }

  read_loop-crc_error :
      (fuel crc sum : ℕ) (values : Record) (q : RecordReader) (rest : Bytes)
      → sum < 2 ^ 32
      → (crc == sum) ≡ false
      → read_loop w (suc fuel) values (before q (end_bytes sum ++ rest) crc)
        ≡ err crc_error (before q rest crc)
  unfolding end_bytes read_loop after_round read_round dispatch read_end accept_record
  read_loop-crc_error fuel crc sum values q rest lt other =
      let tag = write_tag w [] end_record w.varint_type in
      rw (
        append_assoc tag (write_uint32 w [] sum) rest,
        read_tag-write_tag w laws end_record w.varint_type (write_uint32 w [] sum ++ rest)
            q.stream.ending (omega arith) (omega arith) laws.varint_type_lt,
        read_uint32-write_uint32 w laws sum rest q.stream.ending lt,
        other,
      )

  -- Over a protowire that behaves as documented: a record that fits fewer than 33553408 columns is
  -- written as some bytes and, at their end, its checksum; behind the same bytes with any other
  -- 32-bit checksum in its place `Read` returns the error of a wrong checksum, whatever follows.
  pub read-crc_error :
      (cs : List Column) (vs : Record)
      → length cs < end_record
      → FitsColumns cs vs
      → (r : RecordWriter) → r.columns ≡ cs
      → r.record_crc ≡ 0
      → (q : RecordReader) (rest : Bytes) (sum : ℕ) → q.columns ≡ cs
      → sum < 2 ^ 32
      → (bytes : Bytes) × (crc : ℕ) × (write w vs r
          ≡ ok tt (wrote_record r (bytes ++ write_uint32 w [] crc) crc))
        × ((sum ≡ crc)
            ⊎ (read w (before q ((bytes ++ write_uint32 w [] sum) ++ rest) 0)
                ≡ err crc_error (before q rest crc)))
  unfolding end_bytes
  read-crc_error cs vs small h r e' e'' q rest sum e lt =
      let s : Sent w laws [] 0 cs vs = columns w laws [] 0 cs vs refl (omega arith) h in
      let tag = write_tag w [] end_record w.varint_type in
      (
        s.bytes ++ tag,
        s.crc 0,
        rw (append_assoc s.bytes tag (write_uint32 w [] (s.crc 0)))
            (write-bytes cs vs s r h e' e''),
        elim (Bool-cases (s.crc 0 == sum)) [
          | inl same ↦ inl (sym ((==_iff (s.crc 0) sum).0 same))
          | inr other ↦ inr (
              let left = length s.bytes + length (end_bytes sum ++ rest) - s.rounds in
              let enough = s.enough in
              let total = suc (length (s.bytes ++ (end_bytes sum ++ rest))) in
              let split : total ≡ s.rounds + suc left =
                omega (arith, length-append s.bytes (end_bytes sum ++ rest)) in
              let blank : replicate (length q.columns) absent ≡ replicate (length cs) absent =
                rw e in
              rw (
                append_assoc s.bytes tag (write_uint32 w [] sum),
                append_assoc s.bytes (end_bytes sum) rest,
                read-read_loop (before q (s.bytes ++ (end_bytes sum ++ rest)) 0),
                blank,
                s.reads q [] total (suc left) (end_bytes sum ++ rest) 0 e refl split,
                read_loop-crc_error left (s.crc 0) sum (padded cs vs) q rest lt other,
              ))
        ],
      )
