-- ===== src/Tunnel/Reader/Field/Total.antt =====
-- How far the calls of the stream reader and the reading of a field move on.
use aliyun_odps_go_sdk.Prelude.{
  ℕ, zero, suc, ◌+◌, ◌≤◌, ◌≢◌, refl, Bool, true, false, Option, none, some, [], ◌∷◌, ◌++◌, arith,
  ltb, leb, ◌==◌, length, length-drop,
}
use aliyun_odps_go_sdk.Prelude.Int.{ℤ, pos, ltb_ℤ}
use aliyun_odps_go_sdk.Words.{Bytes}
use aliyun_odps_go_sdk.Outcome.{
  Outcome, ok, err, panic, out_of_fuel, Ensures, holds, refused, stopped, Ensures-bind, Ensures-if,
  Ensures-map,
}
use aliyun_odps_go_sdk.Datatype.{
  TypeId, DataType, StructFields, primitive, char_type, varchar_type, decimal_type, array_type,
  map_type, struct_type, json_type, no_fields, field,
}
use aliyun_odps_go_sdk.Data.{Data, Cell, Items, Entries, Members, nil, cons}
use aliyun_odps_go_sdk.Data.Instant.{new_interval_day_time}
use aliyun_odps_go_sdk.Tunnel.Protowire.{Protowire}
use aliyun_odps_go_sdk.Tunnel.StreamReader.{
  IoError, ReadError, StreamReader, S, check_tag, varint_round, varint_loop, read_full, read_made,
  max_length, read_varint, read_tag, read_fixed32, read_fixed64, read_bytes, read_bool, read_sint32,
  read_uint32, read_sint64,
}
use aliyun_odps_go_sdk.Tunnel.Writer.{count_items}
use aliyun_odps_go_sdk.Tunnel.Reader.Field.{
  RecordReader, M, with_stream, call, is_hashable, set_entry, fill_map, pair_up, flagged,
  read_cells, read_array, read_map, read_integer, read_binary, read_binary_panic, read_seconds,
  read_primitive, read_field, read_members,
}

-- From `s` the call is within its fuel, and takes at least `n` bytes.
abbrev pub Eats : {A : Type 0} → ℕ → S A → StreamReader → Type 0
Eats n m s = Ensures (λ a s'. length s'.unread + n ≤ length s.unread) (m s)

abbrev pub Takes : {A : Type 0} → ℕ → M A → RecordReader → Type 0
Takes n m r = Ensures (λ a r'. length r'.stream.unread + n ≤ length r.stream.unread) (m r)

pub with_stream-Ensures :
    {A : Type 0} (n : ℕ) (r : RecordReader) {o : Outcome StreamReader ReadError A}
    → Ensures (λ a s'. length s'.unread + n ≤ length r.stream.unread) o
    → Ensures (λ a r'. length r'.stream.unread + n ≤ length r.stream.unread) (with_stream r o)
with_stream-Ensures n r (holds h) = holds h
with_stream-Ensures n r refused = refused
with_stream-Ensures n r stopped = stopped

read_full-Eats : (n : ℕ) (s : StreamReader) → Eats 0 (read_full n) s
unfolding read_full
read_full-Eats n s =
    Ensures-if (leb n (length s.unread)) (λ _. holds (omega (arith, length-drop n s.unread)))
      λ _. refused

varint_round-Ensures :
    (b : Bool) (o : Option ℕ) (ending : IoError) (cs : Bytes)
    (more : Unit {0} → Outcome StreamReader ReadError ℕ)
    → Ensures (λ v s'. length s'.unread + 1 ≤ length cs) (more tt)
    → Ensures
        (λ v s'. length s'.unread + 1 ≤ suc (length cs))
        (varint_round b o (record { unread = cs; ending = ending }) more)
unfolding varint_round
varint_round-Ensures true o ending cs more h = refused
varint_round-Ensures false (some v) ending cs more h = holds (omega arith)
varint_round-Ensures false none ending cs more h = Ensures-map h λ v s' k. omega arith

read_made-Eats : (n : ℕ) (s : StreamReader) → Eats 0 (read_made n) s
unfolding read_made
read_made-Eats n s = Ensures-if (leb n max_length) (λ _. read_full-Eats n s) λ _. stopped

module _ (w : Protowire) where
  varint_loop-Ensures :
      (buf : Bytes) (ending : IoError) (l : Bytes)
      → Ensures (λ v s'. length s'.unread + 1 ≤ length l) (varint_loop w buf ending l)
  unfolding varint_loop
  varint_loop-Ensures buf ending [] = refused
  varint_loop-Ensures buf ending (c ∷ cs) =
      varint_round-Ensures (ltb 10 (length (buf ++ c ∷ []))) (w.consume_varint (buf ++ c ∷ []))
        ending cs _ (varint_loop-Ensures (buf ++ c ∷ []) ending cs)

  read_varint-Eats : (s : StreamReader) → Eats 1 (read_varint w) s
  unfolding read_varint
  read_varint-Eats s = varint_loop-Ensures [] s.ending s.unread

  pub read_tag-Eats : (s : StreamReader) → Eats 1 (read_tag w) s
  unfolding read_tag check_tag
  read_tag-Eats s =
      Ensures-bind (read_varint-Eats s)
        λ v s₁ h. Ensures-if (ltb_ℤ (w.decode_tag v).0 (pos 1)) (λ _. refused) λ _. holds h

  read_fixed32-Eats : (s : StreamReader) → Eats 0 (read_fixed32 w) s
  unfolding read_fixed32
  read_fixed32-Eats s = Ensures-bind (read_full-Eats 4 s) λ b s₁ h. holds h

  read_fixed64-Eats : (s : StreamReader) → Eats 0 (read_fixed64 w) s
  unfolding read_fixed64
  read_fixed64-Eats s = Ensures-bind (read_full-Eats 8 s) λ b s₁ h. holds h

  read_bytes-Eats : (s : StreamReader) → Eats 0 (read_bytes w) s
  unfolding read_bytes
  read_bytes-Eats s =
      Ensures-bind (read_varint-Eats s)
        λ v s₁ h. Ensures-map (read_made-Eats v s₁) λ b s₂ k. omega arith

  read_bool-Eats : (s : StreamReader) → Eats 0 (read_bool w) s
  unfolding read_bool
  read_bool-Eats s = Ensures-bind (read_varint-Eats s) λ v s₁ h. holds (omega arith)

  read_sint32-Eats : (s : StreamReader) → Eats 0 (read_sint32 w) s
  unfolding read_sint32
  read_sint32-Eats s = Ensures-bind (read_varint-Eats s) λ v s₁ h. holds (omega arith)

  pub read_uint32-Eats : (s : StreamReader) → Eats 0 (read_uint32 w) s
  unfolding read_uint32
  read_uint32-Eats s = Ensures-bind (read_varint-Eats s) λ v s₁ h. holds (omega arith)

  pub read_sint64-Eats : (s : StreamReader) → Eats 0 (read_sint64 w) s
  unfolding read_sint64
  read_sint64-Eats s = Ensures-bind (read_varint-Eats s) λ v s₁ h. holds (omega arith)

  read_integer-Takes : (make : ℤ → Data) (r : RecordReader) → Takes 0 (read_integer w make) r
  unfolding read_integer
  read_integer-Takes make r =
      Ensures-bind (with_stream-Ensures _ r (read_sint64-Eats r.stream)) λ z r₁ h. holds h

  read_binary-Takes : (make : Bytes → Data) (r : RecordReader) → Takes 0 (read_binary w make) r
  unfolding read_binary
  read_binary-Takes make r =
      Ensures-bind (with_stream-Ensures _ r (read_bytes-Eats r.stream)) λ z r₁ h. holds h

  read_binary_panic-Takes : (r : RecordReader) → Takes 0 (read_binary_panic w) r
  unfolding read_binary_panic
  read_binary_panic-Takes r =
      Ensures-bind (with_stream-Ensures _ r (read_bytes-Eats r.stream)) λ z r₁ h. stopped

  read_seconds-Takes : (r : RecordReader) → Takes 0 (read_seconds w) r
  unfolding read_seconds
  read_seconds-Takes r =
      Ensures-bind (with_stream-Ensures _ r (read_sint64-Eats r.stream)) λ z r₁ h.
        Ensures-bind (with_stream-Ensures _ r₁ (read_sint32-Eats r₁.stream))
          λ y r₂ k. holds (omega arith)

  call-Takes :
      (r : RecordReader) {A : Type 0} (o : Outcome (Unit {0}) ⊥ A)
      → o ≢ out_of_fuel
      → Takes 0 (call o) r
  call-Takes r (ok a s) h = holds (omega arith)
  call-Takes r (err e s) h = absurd e
  call-Takes r (panic p) h = stopped
  call-Takes r out_of_fuel h = absurd (h refl)

  new_interval_day_time-ne-out_of_fuel :
      (seconds nanos : ℤ) → new_interval_day_time seconds nanos ≢ out_of_fuel
  unfolding new_interval_day_time
  new_interval_day_time-ne-out_of_fuel seconds nanos = ground arith

  read_primitive-Takes : (code : TypeId) (r : RecordReader) → Takes 0 (read_primitive w code) r
  unfolding read_primitive
  read_primitive-Takes TypeId.double r =
      Ensures-bind (with_stream-Ensures _ r (read_fixed64-Eats r.stream)) λ z r₁ h. holds h
  read_primitive-Takes TypeId.float r =
      Ensures-bind (with_stream-Ensures _ r (read_fixed32-Eats r.stream)) λ z r₁ h. holds h
  read_primitive-Takes TypeId.boolean r =
      Ensures-bind (with_stream-Ensures _ r (read_bool-Eats r.stream)) λ z r₁ h. holds h
  read_primitive-Takes TypeId.bigint r = read_integer-Takes _ r
  read_primitive-Takes TypeId.interval_year_month r = read_integer-Takes _ r
  read_primitive-Takes TypeId.int r = read_integer-Takes _ r
  read_primitive-Takes TypeId.smallint r = read_integer-Takes _ r
  read_primitive-Takes TypeId.tinyint r = read_integer-Takes _ r
  read_primitive-Takes TypeId.string r = read_binary-Takes _ r
  read_primitive-Takes TypeId.varchar r = read_binary_panic-Takes r
  read_primitive-Takes TypeId.char r = read_binary_panic-Takes r
  read_primitive-Takes TypeId.binary r = read_binary-Takes _ r
  read_primitive-Takes TypeId.datetime r = read_integer-Takes _ r
  read_primitive-Takes TypeId.date r = read_integer-Takes _ r
  read_primitive-Takes TypeId.interval_day_time r =
      Ensures-bind (read_seconds-Takes r) λ (seconds, nanos) r₁ h.
        Ensures-bind (call-Takes r₁ _ (new_interval_day_time-ne-out_of_fuel seconds nanos))
          λ i r₂ k. holds (omega arith)
  read_primitive-Takes TypeId.timestamp r = Ensures-bind (read_seconds-Takes r) λ p r₁ h. holds h
  read_primitive-Takes TypeId.timestamp_ntz r =
      Ensures-bind (read_seconds-Takes r) λ p r₁ h. holds h
  read_primitive-Takes TypeId.decimal r = read_binary_panic-Takes r
  read_primitive-Takes TypeId.array r = stopped
  read_primitive-Takes TypeId.map r = stopped
  read_primitive-Takes TypeId.struct r = stopped
  read_primitive-Takes TypeId.json r = read_binary-Takes _ r
  read_primitive-Takes TypeId.geography r = read_binary-Takes _ r
  read_primitive-Takes code r = holds (omega arith)

  flagged-Takes :
      (value : M Cell) (b : Bool) (r : RecordReader)
      → ((r : RecordReader) → Takes 0 value r)
      → Takes 0 (flagged value b) r
  flagged-Takes value true r h = holds (omega arith)
  flagged-Takes value false r h = h r

  read_cells-Takes :
      (value : M Cell) (n : ℕ) (r : RecordReader)
      → ((r : RecordReader) → Takes 0 value r)
      → Takes 0 (read_cells w value n) r
  unfolding read_cells
  read_cells-Takes value zero r h = holds (omega arith)
  read_cells-Takes value (suc n) r h =
      Ensures-bind (with_stream-Ensures _ r (read_bool-Eats r.stream)) λ b r₁ h₁.
        Ensures-bind (flagged-Takes value b r₁ h)
          λ c r₂ h₂. Ensures-bind (read_cells-Takes value n r₂ h) λ xs r₃ h₃. holds (omega arith)

  read_array-Takes :
      (value : M Cell) (r : RecordReader)
      → ((r : RecordReader) → Takes 0 value r)
      → Takes 0 (read_array w value) r
  unfolding read_array
  read_array-Takes value r h =
      Ensures-bind (with_stream-Ensures _ r (read_uint32-Eats r.stream))
        λ n r₁ h₁. Ensures-map (read_cells-Takes value n r₁ h) λ xs r₂ h₂. omega arith

  fill_map-Takes : (ks vs : Items) (es : Entries) (r : RecordReader) → Takes 0 (fill_map ks vs es) r
  unfolding fill_map
  fill_map-Takes (cons k ks) (cons v vs) es r =
      Ensures-if (is_hashable k) (λ _. fill_map-Takes ks vs (set_entry k v es) r) λ _. stopped
  fill_map-Takes nil vs es r = holds (omega arith)
  fill_map-Takes (cons k ks) nil es r = holds (omega arith)

  pair_up-Takes : (ks vs : Items) (r : RecordReader) → Takes 0 (pair_up ks vs) r
  unfolding pair_up
  pair_up-Takes ks vs r =
      Ensures-if (count_items ks == count_items vs) (λ _. fill_map-Takes ks vs _ r) λ _. refused

  mutual
    unfolding read_field read_map pair_up

    pub read_field-Takes : (t : DataType) (r : RecordReader) → Takes 0 (read_field w t) r
    read_field-Takes (primitive code) r = read_primitive-Takes code r
    read_field-Takes (char_type n) r = read_binary-Takes _ r
    read_field-Takes (varchar_type n) r = read_binary-Takes _ r
    read_field-Takes (decimal_type p s) r = read_binary-Takes _ r
    read_field-Takes (array_type e) r =
        Ensures-bind (read_array-Takes _ r (read_field-Takes e)) λ xs r₁ h₁. holds h₁
    read_field-Takes (map_type k v) r =
        Ensures-bind (read_array-Takes _ r (read_field-Takes k)) λ ks r₁ h₁.
          Ensures-bind (read_array-Takes _ r₁ (read_field-Takes v))
            λ vs r₂ h₂. Ensures-bind (pair_up-Takes ks vs r₂) λ es r₃ h₃. holds (omega arith)
    read_field-Takes (struct_type fs) r =
        Ensures-bind (read_members-Takes fs _ r) λ ms r₁ h₁. holds h₁
    read_field-Takes json_type r = read_binary-Takes _ r

    read_members-Takes :
        (fs : StructFields) (ms : Members) (r : RecordReader) → Takes 0 (read_members w fs ms) r
    read_members-Takes no_fields ms r = holds (omega arith)
    read_members-Takes (field n t fs) ms r =
        Ensures-bind (with_stream-Ensures _ r (read_bool-Eats r.stream)) λ b r₁ h₁.
          Ensures-bind (flagged-Takes _ b r₁ (read_field-Takes t))
            λ c r₂ h₂. Ensures-map (read_members-Takes fs _ r₂) λ ms r₃ h₃. omega arith
