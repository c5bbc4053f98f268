-- ===== src/Tunnel/RoundTrip/Columns.antt =====
-- The columns of a record: the loop of `write` and the loop of `Read`.
use aliyun_odps_go_sdk.Prelude.{
  ℕ, suc, ◌+◌, ◌^◌, ◌<◌, ◌≤◌, ◌≡◌, refl, sym, ap, ◌∙◌, some, List, [], ◌∷◌, ◌++◌, arith, length,
  set, replicate, get_elem?, length-append, append_assoc, append-nil,
}
use aliyun_odps_go_sdk.Prelude.Int.{pos}
use aliyun_odps_go_sdk.Words.{Bytes}
use aliyun_odps_go_sdk.Outcome.{ok}
use aliyun_odps_go_sdk.Datatype.{id}
use aliyun_odps_go_sdk.Data.{Data, Cell, Record, absent, present}
use aliyun_odps_go_sdk.Tunnel.Protowire.{Protowire, ProtowireLaws}
use aliyun_odps_go_sdk.Tunnel.Crc.{crc_update, crc_update_lt}
use aliyun_odps_go_sdk.Tunnel.StreamWriter.{write_tag}
use aliyun_odps_go_sdk.Tunnel.Writer.{
  Column, RecordWriter, bytes_32, end_record, wire_type, write_field, write_column, write_columns,
}
use aliyun_odps_go_sdk.Tunnel.Reader.Field.{RecordReader, read_field}
use aliyun_odps_go_sdk.Tunnel.Reader.{read_loop, after_round}
use aliyun_odps_go_sdk.Tunnel.RoundTrip.Transmits.{Transmits, wrote, before}
use aliyun_odps_go_sdk.Tunnel.RoundTrip.Fits.{Fits, FitsCell, fits_present}
use aliyun_odps_go_sdk.Tunnel.RoundTrip.Field.{write_field-read_field}
use aliyun_odps_go_sdk.Tunnel.RoundTrip.Column.{
  wire_type-Fits, write_column-Fits, tag_length, read_round-column,
}

-- The values fit the columns; the last values may be missing.
abbrev pub FitsColumns : List Column → Record → Type 0
FitsColumns cs [] = Unit
FitsColumns [] (v ∷ vs) = ⊥
FitsColumns (c ∷ cs) (v ∷ vs) = FitsCell c.type v × FitsColumns cs vs

-- The record that is read: a nil value for each missing one.
abbrev pub padded : List Column → Record → Record
padded [] vs = []
padded (c ∷ cs) [] = absent ∷ padded cs []
padded (c ∷ cs) (v ∷ vs) = v ∷ padded cs vs

padded-nil : (cs : List Column) → padded cs [] ≡ replicate (length cs) absent
padded-nil [] = refl
padded-nil (c ∷ cs) = ap (◌∷◌ absent) (padded-nil cs)

get_elem?-append :
    (pre : List Column) (c : Column) (cs : List Column)
    → get_elem? (pre ++ c ∷ cs) (length pre) ≡ some c
get_elem?-append [] c cs = refl
get_elem?-append (p ∷ pre) c cs = get_elem?-append pre c cs

set-append :
    (done : Record) (v v' : Cell) (vs : Record)
    → set (done ++ v ∷ vs) (length done) v' ≡ done ++ v' ∷ vs
set-append [] v v' vs = refl
set-append (d ∷ done) v v' vs = ap (◌∷◌ d) (set-append done v v' vs)

length-snoc {ℓ} : {A : Type ℓ} (xs : List A) (x : A) → length (xs ++ x ∷ []) ≡ length xs + 1
length-snoc xs x = length-append xs (x ∷ [])

module _ (w : Protowire) (laws : ProtowireLaws w) where
  -- The values from `index` on, behind the columns `pre`, are written as `bytes`, and `rounds` rounds
  -- of the loop of `Read` take them up again.
  pub record Sent (pre : List Column) (index : ℕ) (cs : List Column) (vs : Record) : Type 0 where
    pub bytes : Bytes
    pub crc : ℕ → ℕ
    pub crc_lt : (n : ℕ) → n < 2 ^ 32 → crc n < 2 ^ 32
    pub rounds : ℕ
    pub enough : rounds ≤ length bytes
    pub writes :
        (r : RecordWriter)
        → r.columns ≡ pre ++ cs
        → write_columns w index vs r ≡ ok tt (wrote r bytes (crc r.record_crc))
    pub reads :
        (q : RecordReader) (done : Record) (total fuel : ℕ) (rest : Bytes) (n : ℕ)
        → q.columns ≡ pre ++ cs
        → length done ≡ index
        → total ≡ rounds + fuel
        → read_loop w total (done ++ replicate (length cs) absent) (before q (bytes ++ rest) n)
          ≡ read_loop w fuel (done ++ padded cs vs) (before q rest (crc n))

  no_values : (pre : List Column) (index : ℕ) (cs : List Column) → Sent pre index cs []
  unfolding write_columns
  no_values pre index cs = record {
    bytes = [];
    crc = λ n. n;
    crc_lt = λ n h. h;
    rounds = 0;
    enough = omega arith;
    writes = λ r e. rw (append-nil r.out);
    reads = λ q done total fuel rest n e e' e''.
        let same : total ≡ fuel = omega arith in rw (padded-nil cs, same);
  }

  nil_value :
      (pre : List Column) (index : ℕ) (c : Column) (cs : List Column) (vs : Record)
      → Sent (pre ++ c ∷ []) (index + 1) cs vs
      → Sent pre index (c ∷ cs) (absent ∷ vs)
  unfolding write_columns write_column
  nil_value pre index c cs vs s = record {
    bytes = s.bytes;
    crc = s.crc;
    crc_lt = s.crc_lt;
    rounds = s.rounds;
    enough = s.enough;
    writes = λ r e. s.writes r (e ∙ sym (append_assoc pre (c ∷ []) cs));
    reads = λ q done total fuel rest n e e' e''.
        rw
          (
            sym (append_assoc done (absent ∷ []) (replicate (length cs) absent)),
            sym (append_assoc done (absent ∷ []) (padded cs vs)),
          )
          (s.reads q (done ++ absent ∷ []) total fuel rest n
            (e ∙ sym (append_assoc pre (c ∷ []) cs)) (omega (arith, length-snoc done absent)) e'');
  }

  value_writes :
      (pre : List Column) (index : ℕ) (c : Column) (cs : List Column) (d : Data) (vs : Record)
      (typ : ℕ)
      → length pre ≡ index
      → Fits c.type d
      → wire_type w (id c.type) ≡ some typ
      → (t : Transmits (write_field w d) (read_field w c.type) (present d))
      → (s : Sent (pre ++ c ∷ []) (index + 1) cs vs) → (r : RecordWriter)
      → r.columns ≡ pre ++ c ∷ cs
      → write_columns w index (present d ∷ vs) r
        ≡ ok tt (
            wrote r
              ((write_tag w [] (suc index) typ ++ t.bytes) ++ s.bytes)
              (s.crc (t.crc (crc_update r.record_crc (bytes_32 (pos (suc index)))))))
  unfolding write_columns
  value_writes pre index c cs d vs typ at_index h wire t s r e =
      let tag = write_tag w [] (suc index) typ in
      let sum = crc_update r.record_crc (bytes_32 (pos (suc index))) in
      let here : get_elem? r.columns index ≡ some c =
        rw (e, sym at_index) (get_elem?-append pre c cs) in
      rw (
        write_column-Fits w laws index c typ r h wire here,
        t.writes (wrote r tag sum),
        s.writes (wrote (wrote r tag sum) t.bytes (t.crc sum))
            (e ∙ sym (append_assoc pre (c ∷ []) cs)),
        append_assoc r.out tag t.bytes,
        append_assoc r.out (tag ++ t.bytes) s.bytes,
      )

  value_reads :
      (pre : List Column) (index : ℕ) (c : Column) (cs : List Column) (d : Data) (vs : Record)
      (typ : ℕ)
      → length pre ≡ index
      → suc index < end_record
      → typ < 8
      → (t : Transmits (write_field w d) (read_field w c.type) (present d))
      → (s : Sent (pre ++ c ∷ []) (index + 1) cs vs)
      → (q : RecordReader) (done : Record) (total fuel : ℕ) (rest : Bytes) (n : ℕ)
      → q.columns ≡ pre ++ c ∷ cs
      → length done ≡ index
      → total ≡ suc s.rounds + fuel
      → read_loop w total
          (done ++ absent ∷ replicate (length cs) absent)
          (before q (((write_tag w [] (suc index) typ ++ t.bytes) ++ s.bytes) ++ rest) n)
        ≡ read_loop w fuel
            (done ++ present d ∷ padded cs vs)
            (before q rest (s.crc (t.crc (crc_update n (bytes_32 (pos (suc index)))))))
  unfolding read_loop after_round
  value_reads pre index c cs d vs typ at_index small lt t s q done total fuel rest n e e' e'' =
      let tag = write_tag w [] (suc index) typ in
      let sum = crc_update n (bytes_32 (pos (suc index))) in
      let here : get_elem? q.columns index ≡ some c =
        rw (e, sym at_index) (get_elem?-append pre c cs) in
      let inside : index < length q.columns = rw e (omega (arith, length-append pre (c ∷ cs))) in
      let step : total ≡ suc (s.rounds + fuel) = omega arith in
      let stored : set (done ++ absent ∷ replicate (length cs) absent) index (present d)
          ≡ done ++ present d ∷ replicate (length cs) absent =
        rw (sym e') (set-append done absent (present d) (replicate (length cs) absent)) in
      rw
        (
          step,
          append_assoc (tag ++ t.bytes) s.bytes rest,
          append_assoc tag t.bytes (s.bytes ++ rest),
          read_round-column w laws index typ c (done ++ absent ∷ replicate (length cs) absent) q
              (t.bytes ++ (s.bytes ++ rest)) n small lt inside here,
          t.reads q (s.bytes ++ rest) sum,
          stored,
          sym (append_assoc done (present d ∷ []) (replicate (length cs) absent)),
          sym (append_assoc done (present d ∷ []) (padded cs vs)),
        )
        (s.reads q (done ++ present d ∷ []) (s.rounds + fuel) fuel rest (t.crc sum)
          (e ∙ sym (append_assoc pre (c ∷ []) cs)) (omega (arith, length-snoc done (present d)))
          refl)

  value :
      (pre : List Column) (index : ℕ) (c : Column) (cs : List Column) (d : Data) (vs : Record)
      → length pre ≡ index
      → suc index < end_record
      → Fits c.type d
      → Sent (pre ++ c ∷ []) (index + 1) cs vs
      → Sent pre index (c ∷ cs) (present d ∷ vs)
  value pre index c cs d vs at_index small h s =
      let (typ, lt, wire) = wire_type-Fits w laws h in
      let t = write_field-read_field w laws h in
      let tag = write_tag w [] (suc index) typ in
      record {
        bytes = (tag ++ t.bytes) ++ s.bytes;
        crc = λ n. s.crc (t.crc (crc_update n (bytes_32 (pos (suc index)))));
        crc_lt = λ n h. s.crc_lt _ (t.crc_lt _ (crc_update_lt n (bytes_32 (pos (suc index)))));
        rounds = suc s.rounds;
        enough =
            let some_byte = tag_length w laws (suc index) typ (omega arith) lt in
            let enough = s.enough in
            omega (arith, length-append (tag ++ t.bytes) s.bytes, length-append tag t.bytes);
        writes = value_writes pre index c cs d vs typ at_index h wire t s;
        reads = value_reads pre index c cs d vs typ at_index small lt t s;
      }

  pub columns :
      (pre : List Column) (index : ℕ) (cs : List Column) (vs : Record)
      → length pre ≡ index
      → index + length cs < end_record
      → FitsColumns cs vs
      → Sent pre index cs vs
  columns pre index cs [] e small h = no_values pre index cs
  columns pre index [] (v ∷ vs) e small h = absurd h
  columns pre index (c ∷ cs) (absent ∷ vs) e small (h, hs) = nil_value pre index c cs vs (
      columns (pre ++ c ∷ []) (index + 1) cs vs (omega (arith, length-snoc pre c)) (omega arith) hs)
  columns pre index (c ∷ cs) (present d ∷ vs) e small (fits_present h, hs) =
      value pre index c cs d vs e (omega arith) h (
        columns (pre ++ c ∷ []) (index + 1) cs vs (omega (arith, length-snoc pre c)) (omega arith)
          hs)
