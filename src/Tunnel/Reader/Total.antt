-- ===== src/Tunnel/Reader/Total.antt =====
-- The fuel of `Read` and `Iterator`.
use aliyun_odps_go_sdk.Prelude.{
  ℕ, zero, suc, ◌+◌, ◌<◌, ◌≤◌, ◌≡◌, ◌≢◌, refl, Bool, true, false, not, Option, none, some, [], ◌∷◌,
  ◌++◌, arith, ltb, ◌==◌, length, get_elem?,
}
use aliyun_odps_go_sdk.Prelude.Int.{ℤ, pos, negsuc, eqb_ℤ}
use aliyun_odps_go_sdk.Words.{Bytes}
use aliyun_odps_go_sdk.Outcome
use aliyun_odps_go_sdk.Outcome.{
  Outcome, ok, err, panic, out_of_fuel, Ensures, holds, refused, stopped, Ensures-bind, Ensures-if,
  Ensures-map, Ensures-ne-out_of_fuel,
}
use aliyun_odps_go_sdk.Data.{Record}
use aliyun_odps_go_sdk.Tunnel.Protowire.{Protowire}
use aliyun_odps_go_sdk.Tunnel.StreamReader.{
  IoError, ReadError, StreamReader, eof, unexpected_eof, broken, io, varint_round, varint_loop,
  read_varint, read_uint32,
}
use aliyun_odps_go_sdk.Tunnel.Writer.{Column, meta_count, meta_checksum, end_record}
use aliyun_odps_go_sdk.Tunnel.Reader.Field.{RecordReader, M}
use aliyun_odps_go_sdk.Tunnel.Reader.Field.Total.{
  Eats, Takes, with_stream-Ensures, read_tag-Eats, read_uint32-Eats, read_sint64-Eats,
  read_field-Takes,
}
use aliyun_odps_go_sdk.Tunnel.Reader.{
  Delivery, end_of_stream, last_checksum, accept_record, check_count, check_sum, read_end,
  checked_by, read_meta, read_column_at, read_column, dispatch, read_round, read_loop, count_record,
  after_round, after_read, read, iterate,
}

end_of_stream-Ensures :
    (l : Bytes) (e : IoError)
    → Ensures (λ a s'. length s'.unread + 0 ≤ length l) (end_of_stream l e)
unfolding end_of_stream
end_of_stream-Ensures (c ∷ cs) e = refused
end_of_stream-Ensures [] eof = holds (omega arith)
end_of_stream-Ensures [] unexpected_eof = holds (omega arith)
end_of_stream-Ensures [] broken = refused

-- A read that fails has taken bytes, too.
last_checksum-varint_round :
    (b : Bool) (o : Option ℕ) (ending : IoError) (cs : Bytes)
    (more : Unit {0} → Outcome StreamReader ReadError ℕ) (last : ℕ → ℕ)
    → Ensures
        (λ v s'. length s'.unread + 0 ≤ length cs)
        (last_checksum (Outcome.bind (more tt) λ v. ok (last v)))
    → Ensures
        (λ v s'. length s'.unread + 0 ≤ suc (length cs))
        (last_checksum (
          Outcome.bind
            (varint_round b o (record { unread = cs; ending = ending }) more)
            λ v. ok (last v)))
unfolding varint_round last_checksum
last_checksum-varint_round true o ending cs more last h = holds (omega arith)
last_checksum-varint_round false (some v) ending cs more last h =
    Ensures-bind (end_of_stream-Ensures cs ending) λ _ s' k. holds (omega arith)
last_checksum-varint_round false none ending cs more last h = Ensures-map h λ v s' k. omega arith

accept_record-Takes :
    (values : Record) (sum : ℕ) (r : RecordReader) → Takes 0 (accept_record values sum) r
unfolding accept_record
accept_record-Takes values sum r =
    Ensures-if (not (r.record_crc == sum)) (λ _. refused) λ _. holds (omega arith)

check_sum-Takes : (values : Record) (sum : ℕ) (r : RecordReader) → Takes 0 (check_sum values sum) r
unfolding check_sum
check_sum-Takes values sum r =
    Ensures-if (r.crc_of_crc == sum) (λ _. holds (omega arith)) λ _. refused

check_count-Takes : (z : ℤ) (r : RecordReader) → Takes 0 (check_count z) r
unfolding check_count
check_count-Takes z r = Ensures-if (eqb_ℤ z r.count) (λ _. holds (omega arith)) λ _. refused

after_round-Ensures :
    {n : ℕ} (go_on : Record → M Record) (values : Record) (finished : Bool) (r : RecordReader)
    → length r.stream.unread + 1 ≤ n
    → (finished ≡ false → Ensures (λ a r'. length r'.stream.unread + 1 ≤ n) (go_on values r))
    → Ensures (λ a r'. length r'.stream.unread + 1 ≤ n) (after_round go_on values finished r)
unfolding after_round
after_round-Ensures go_on values true r h k = holds h
after_round-Ensures go_on values false r h k = k refl

after_read-ne-out_of_fuel :
    {A : Type 0} (f : A → Delivery → A) (a : A)
    (go_on : A → RecordReader → A × Outcome RecordReader ReadError (Unit {0})) {n : ℕ}
    {o : Outcome RecordReader ReadError Record}
    → Ensures (λ v r. length r.stream.unread + 1 ≤ n) o
    → ((b : A) (r : RecordReader) → length r.stream.unread + 1 ≤ n → (go_on b r).1 ≢ out_of_fuel)
    → (after_read f a go_on o).1 ≢ out_of_fuel
unfolding after_read
after_read-ne-out_of_fuel f a go_on (holds {s = r} h) k = k _ r h
after_read-ne-out_of_fuel f a go_on (refused {e = io eof}) k = cc
after_read-ne-out_of_fuel f a go_on (refused {e = e}) k = cc
after_read-ne-out_of_fuel f a go_on stopped k = cc

module _ (w : Protowire) where
  last_checksum-varint_loop :
      (buf : Bytes) (ending : IoError) (l : Bytes) (last : ℕ → ℕ)
      → Ensures
          (λ v s'. length s'.unread + 0 ≤ length l)
          (last_checksum (Outcome.bind (varint_loop w buf ending l) λ v. ok (last v)))
  unfolding varint_loop last_checksum
  last_checksum-varint_loop buf ending [] last = holds (omega arith)
  last_checksum-varint_loop buf ending (c ∷ cs) last =
      last_checksum-varint_round (ltb 10 (length (buf ++ c ∷ [])))
        (w.consume_varint (buf ++ c ∷ [])) ending cs (λ _. varint_loop w (buf ++ c ∷ []) ending cs)
        last (last_checksum-varint_loop (buf ++ c ∷ []) ending cs last)

  last_checksum-Eats : (s : StreamReader) → Eats 0 (λ s'. last_checksum (read_uint32 w s')) s
  unfolding last_checksum read_uint32 read_varint
  last_checksum-Eats s = last_checksum-varint_loop [] s.ending s.unread _

  read_end-Takes : (values : Record) (r : RecordReader) → Takes 0 (read_end w values) r
  unfolding read_end
  read_end-Takes values r =
      Ensures-bind (with_stream-Ensures _ r (read_uint32-Eats w r.stream))
        λ sum r₁ h₁. Ensures-map (accept_record-Takes values sum r₁) λ a r₂ h₂. omega arith

  checked_by-Takes :
      (num : ℤ) (values : Record) (r : RecordReader) → Takes 0 (checked_by w num values) r
  unfolding checked_by
  checked_by-Takes num values r =
      Ensures-if (eqb_ℤ num (pos meta_checksum))
        (λ _.
          Ensures-bind (with_stream-Ensures _ r (last_checksum-Eats r.stream))
            λ sum r₁ h₁. Ensures-map (check_sum-Takes values sum r₁) λ a r₂ h₂. omega arith)
        λ _. refused

  read_meta-Takes : (values : Record) (r : RecordReader) → Takes 0 (read_meta w values) r
  unfolding read_meta
  read_meta-Takes values r =
      Ensures-bind (with_stream-Ensures _ r (read_sint64-Eats w r.stream)) λ z r₁ h₁.
        Ensures-bind (check_count-Takes z r₁) λ _ r₂ h₂.
          Ensures-bind (with_stream-Ensures _ r₂ (read_tag-Eats w r₂.stream))
            λ tag r₃ h₃. Ensures-map (checked_by-Takes tag.0 values r₃) λ a r₄ h₄. omega arith

  read_column_at-Takes :
      (index : ℕ) (c : Option Column) (values : Record) (r : RecordReader)
      → Takes 0 (read_column_at w index c values) r
  unfolding read_column_at
  read_column_at-Takes index none values r = stopped
  read_column_at-Takes index (some c) values r =
      Ensures-bind (read_field-Takes w c.type r) λ v r₁ h₁. holds h₁

  read_column-Takes :
      (num : ℤ) (values : Record) (r : RecordReader) → Takes 0 (read_column w num values) r
  unfolding read_column
  read_column-Takes (pos (suc index)) values r =
      Ensures-if (ltb (length r.columns) (suc index)) (λ _. refused)
        λ _. read_column_at-Takes index (get_elem? r.columns index) values _
  read_column-Takes (pos zero) values r = stopped
  read_column-Takes (negsuc n) values r = stopped

  dispatch-Takes :
      (num : ℤ) (values : Record) (r : RecordReader) → Takes 0 (dispatch w num values) r
  unfolding dispatch
  dispatch-Takes num values r =
      Ensures-if (eqb_ℤ num (pos end_record)) (λ _. read_end-Takes values r)
        λ _.
          Ensures-if (eqb_ℤ num (pos meta_count)) (λ _. read_meta-Takes values r)
            λ _. read_column-Takes num values r

  read_round-Takes : (values : Record) (r : RecordReader) → Takes 1 (read_round w values) r
  unfolding read_round
  read_round-Takes values r =
      Ensures-bind (with_stream-Ensures _ r (read_tag-Eats w r.stream))
        λ tag r₁ h₁. Ensures-map (dispatch-Takes tag.0 values r₁) λ a r₂ h₂. omega arith

  read_loop-Takes :
      (fuel : ℕ) (values : Record) (r : RecordReader)
      → length r.stream.unread < fuel
      → Takes 1 (read_loop w fuel values) r
  unfolding read_loop
  read_loop-Takes zero values r h = absurd (omega arith)
  read_loop-Takes (suc fuel) values r h =
      Ensures-bind (read_round-Takes values r) λ (more, finished) r₁ h₁.
        after_round-Ensures (read_loop w fuel) more finished r₁ (omega arith)
          λ _. Ensures-map (read_loop-Takes fuel more r₁ (omega arith)) λ a r₂ h₂. omega arith

  -- `Read` ends within the fuel that it is given, and a record that it returns takes a byte at least.
  pub read-Takes : (r : RecordReader) → Takes 1 (read w) r
  unfolding read count_record
  read-Takes r =
      Ensures-bind (read_loop-Takes (suc (length r.stream.unread)) _ r (omega arith))
        λ a r₁ h₁. holds h₁

  -- `Iterator` ends on every stream, whatever it holds and however it ends: as many calls of `Read`
  -- as there are bytes, and one more, are enough.
  pub iterate-ne-out_of_fuel :
      {A : Type 0} (f : A → Delivery → A) (fuel : ℕ) (a : A) (r : RecordReader)
      → length r.stream.unread < fuel
      → (iterate w f fuel a r).1 ≢ out_of_fuel
  unfolding iterate
  iterate-ne-out_of_fuel f zero a r h = absurd (omega arith)
  iterate-ne-out_of_fuel f (suc fuel) a r h =
      after_read-ne-out_of_fuel f a (iterate w f fuel) (read-Takes r)
        λ b r₁ h₁. iterate-ne-out_of_fuel f fuel b r₁ (omega arith)
