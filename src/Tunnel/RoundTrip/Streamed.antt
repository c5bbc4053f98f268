-- ===== src/Tunnel/RoundTrip/Streamed.antt =====
-- The records of a stream: successive calls of `Write`, and the rounds of `Iterator`.
use aliyun_odps_go_sdk.Prelude.{
  ℕ, suc, ◌+◌, ◌^◌, ◌<◌, ◌≤◌, ◌≡◌, refl, sym, ap, List, [], ◌∷◌, ◌++◌, arith, length, length-append,
  append_assoc, append-nil,
}
use aliyun_odps_go_sdk.Prelude.Int.{ℤ, pos, ◌+ℤ◌}
use aliyun_odps_go_sdk.Words.{Bytes, little_endian}
use aliyun_odps_go_sdk.Outcome.{ok}
use aliyun_odps_go_sdk.Data.{Record}
use aliyun_odps_go_sdk.Tunnel.Protowire.{Protowire, ProtowireLaws}
use aliyun_odps_go_sdk.Tunnel.Crc.{crc_update, crc_update_lt}
use aliyun_odps_go_sdk.Tunnel.Writer.{Column, RecordWriter, end_record, write_all}
use aliyun_odps_go_sdk.Tunnel.Reader.Field.{RecordReader}
use aliyun_odps_go_sdk.Tunnel.Reader.{Delivery, delivered, after_read, read, iterate}
use aliyun_odps_go_sdk.Tunnel.RoundTrip.Stream.{at}
use aliyun_odps_go_sdk.Tunnel.RoundTrip.Transmits.{before}
use aliyun_odps_go_sdk.Tunnel.RoundTrip.Columns.{FitsColumns, padded}
use aliyun_odps_go_sdk.Tunnel.RoundTrip.Record.{behind_record, RecordSent, sent_record}

-- Every record fits the columns.
abbrev pub AllFit : List Column → List Record → Type 0
AllFit cs [] = Unit
AllFit cs (vs ∷ records) = FitsColumns cs vs × AllFit cs records

-- The state of the function that `Iterator` is given, behind the records.
abbrev pub deliver : {A : Type 0} → (A → Delivery → A) → List Column → A → List Record → A
deliver f cs a [] = a
deliver f cs a (vs ∷ records) = deliver f cs (f a (delivered (padded cs vs))) records

abbrev pub counted : List Record → ℤ → ℤ
counted [] z = z
counted (vs ∷ records) z = counted records (z +ℤ pos 1)

pub counted_pos :
    (records : List Record) (n : ℕ) → counted records (pos n) ≡ pos (n + length records)
unfolding ◌+ℤ◌
counted_pos [] n = ground arith
counted_pos (vs ∷ records) n =
    let next : pos n +ℤ pos 1 ≡ pos (n + 1) = ground arith in
    rw (next, counted_pos records (n + 1)) (ap pos (omega arith))

module _ (w : Protowire) (laws : ProtowireLaws w) where
  pub record Streamed (cs : List Column) (records : List Record) : Type 1 where
    pub bytes : Bytes
    pub crc : ℕ → ℕ
    pub crc_lt : (n : ℕ) → n < 2 ^ 32 → crc n < 2 ^ 32
    pub enough : length records ≤ length bytes
    pub writes :
        (r : RecordWriter)
        → r.columns ≡ cs
        → r.record_crc ≡ 0
        → write_all w records r
          ≡ ok tt (record r {
            out = r.out ++ bytes;
            record_crc = 0;
            crc_of_crc = crc r.crc_of_crc;
            count = counted records r.count;
          })
    pub iterates :
        {A : Type 0} (f : A → Delivery → A) (a : A) (q : RecordReader) (total fuel : ℕ)
        (rest : Bytes)
        → q.columns ≡ cs
        → total ≡ length records + fuel
        → iterate w f total a (before q (bytes ++ rest) 0)
          ≡ iterate w f fuel (deliver f cs a records) (record q {
            stream = at rest q.stream.ending;
            record_crc = 0;
            crc_of_crc = crc q.crc_of_crc;
            count = counted records q.count;
          })

  pub iterate-suc :
      {A : Type 0} (f : A → Delivery → A) (fuel : ℕ) (a : A) (q : RecordReader)
      → iterate w f (suc fuel) a q ≡ after_read f a (iterate w f fuel) (read w q)
  unfolding iterate
  iterate-suc f fuel a q = refl

  Streamed-step :
      (cs : List Column) (vs : Record) (records : List Record)
      → RecordSent w laws cs vs
      → Streamed cs records
      → Streamed cs (vs ∷ records)
  unfolding write_all after_read
  Streamed-step cs vs records t s = record {
    bytes = t.bytes ++ s.bytes;
    crc = λ n. s.crc (crc_update n (little_endian 4 t.sum));
    crc_lt = λ n h. s.crc_lt _ (crc_update_lt n (little_endian 4 t.sum));
    enough =
        let some_byte = t.some_byte in
        let enough = s.enough in omega (arith, length-append t.bytes s.bytes);
    writes = λ r e e'.
        rw (t.writes r e e', sym (append_assoc r.out t.bytes s.bytes)) (s.writes _ e refl);
    iterates = λ f a q total fuel rest e e'.
        let step : total ≡ suc (length records + fuel) = omega arith in
        rw
          (
            step,
            iterate-suc f (length records + fuel) a (before q ((t.bytes ++ s.bytes) ++ rest) 0),
            append_assoc t.bytes s.bytes rest,
            t.reads q (s.bytes ++ rest) e,
          )
          (s.iterates f (f a (delivered (padded cs vs))) (behind_record q (s.bytes ++ rest) t.sum)
            (length records + fuel) fuel rest e refl);
  }

  pub streamed :
      (cs : List Column) (records : List Record)
      → length cs < end_record
      → AllFit cs records
      → Streamed cs records
  unfolding write_all
  streamed cs [] small h = record {
    bytes = [];
    crc = λ n. n;
    crc_lt = λ n h. h;
    enough = omega arith;
    writes = λ r e e'. rw (append-nil r.out, e');
    iterates = λ f a q total fuel rest e e'. let same : total ≡ fuel = omega arith in rw same;
  }
  streamed cs (vs ∷ records) small (h, hs) =
      Streamed-step cs vs records (sent_record w laws cs vs small h) (streamed cs records small hs)
