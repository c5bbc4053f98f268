-- ===== src/Tunnel/RoundTrip/Transmits.antt =====
-- Calls of the record writer paired with the calls of the record reader that read them back.
use aliyun_odps_go_sdk.Prelude.{
  ℕ, ◌^◌, ◌<◌, ◌≡◌, ◌≤◌, refl, sym, ap, ◌∙◌, Bool, true, false, [], ◌++◌, length, append_assoc,
  append-nil,
}
use aliyun_odps_go_sdk.Prelude.Int.{ℤ}
use aliyun_odps_go_sdk.Words.{Bytes, InSigned}
use aliyun_odps_go_sdk.Outcome
use aliyun_odps_go_sdk.Outcome.{Outcome, ok, err, panic, out_of_fuel}
use aliyun_odps_go_sdk.Data.{Data, Cell, absent, present}
use aliyun_odps_go_sdk.Tunnel.Protowire.{Protowire, ProtowireLaws}
use aliyun_odps_go_sdk.Tunnel.Crc.{crc_update, crc_update_lt}
use aliyun_odps_go_sdk.Tunnel.StreamWriter.{
  write_full, write_varint, write_bytes, write_bool, write_sint32, write_sint64,
}
use aliyun_odps_go_sdk.Tunnel.StreamReader.{IoError, S, max_length, read_bool}
use aliyun_odps_go_sdk.Tunnel.Writer
use aliyun_odps_go_sdk.Tunnel.Writer.{
  RecordWriter, put, skip, bytes_64, bytes_32, write_integer, write_binary, write_seconds,
}
use aliyun_odps_go_sdk.Tunnel.Reader.Field
use aliyun_odps_go_sdk.Tunnel.Reader.Field.{
  RecordReader, get, flagged, read_integer, read_binary, read_seconds,
}
use aliyun_odps_go_sdk.Tunnel.RoundTrip.Stream.{
  at, read_bool-write_bool, read_sint64-write_sint64, read_sint32-write_sint32,
  read_bytes-write_bytes,
}

-- Two calls, one after the other.
abbrev pub write_both : Writer.M (Unit {0}) → Writer.M (Unit {0}) → Writer.M (Unit {0})
write_both write write' r = Outcome.bind (write r) λ _. write'

abbrev pub read_then : {A B : Type 0} → Field.M A → (A → Field.M B) → Field.M B
read_then read read' q = Outcome.bind (read q) read'

-- The writer behind some bytes, and the reader before some bytes.
abbrev pub wrote : RecordWriter → Bytes → ℕ → RecordWriter
wrote r bytes crc = record r { out = r.out ++ bytes; record_crc = crc }

abbrev pub before : RecordReader → Bytes → ℕ → RecordReader
before q bytes crc = record q { stream = at bytes q.stream.ending; record_crc = crc }

-- The write appends `bytes`, the read takes them and yields `a`, and the two change their checksums
-- alike.
pub record Transmits {A : Type 0} (write : Writer.M (Unit {0})) (read : Field.M A) (a : A)
    : Type 0 where
  pub bytes : Bytes
  pub crc : ℕ → ℕ
  pub crc_lt : (n : ℕ) → n < 2 ^ 32 → crc n < 2 ^ 32
  pub writes : (r : RecordWriter) → write r ≡ ok tt (wrote r bytes (crc r.record_crc))
  pub reads :
      (q : RecordReader) (rest : Bytes) (n : ℕ)
      → read (before q (bytes ++ rest) n) ≡ ok a (before q rest (crc n))

pub nothing : {A : Type 0} (a : A) → Transmits skip (Field.return a) a
nothing a = record {
  bytes = [];
  crc = λ n. n;
  crc_lt = λ n h. h;
  writes = λ r. rw (append-nil r.out);
  reads = λ q rest n. refl;
}

pub sequence :
    {A B : Type 0} {write write' : Writer.M (Unit {0})} {read : Field.M A} {a : A} {b : B}
    (read' : A → Field.M B)
    → Transmits write read a
    → Transmits write' (read' a) b
    → Transmits (write_both write write') (read_then read read') b
sequence read' s t = record {
  bytes = s.bytes ++ t.bytes;
  crc = λ n. t.crc (s.crc n);
  crc_lt = λ n h. t.crc_lt (s.crc n) (s.crc_lt n h);
  writes = λ r. rw (
    s.writes r,
    t.writes (wrote r s.bytes (s.crc r.record_crc)),
    append_assoc r.out s.bytes t.bytes,
  );
  reads = λ q rest n.
      rw (append_assoc s.bytes t.bytes rest, s.reads q (t.bytes ++ rest) n)
        (t.reads q rest (s.crc n));
}

pub yield :
    {A B : Type 0} {write : Writer.M (Unit {0})} {read : Field.M A} {a : A} (f : A → B) (b : B)
    → f a ≡ b
    → Transmits write read a
    → Transmits write (read_then read λ x. Field.return (f x)) b
yield f b e s = record {
  bytes = s.bytes;
  crc = s.crc;
  crc_lt = s.crc_lt;
  writes = s.writes;
  reads = λ q rest n. rw (s.reads q rest n, e);
}

-- The read goes on without the stream.
pub finally :
    {A B : Type 0} {write : Writer.M (Unit {0})} {read : Field.M A} {a : A} (read' : A → Field.M B)
    {b : B}
    → ((q : RecordReader) → read' a q ≡ ok b q)
    → Transmits write read a
    → Transmits write (read_then read read') b
finally read' h s = record {
  bytes = s.bytes;
  crc = s.crc;
  crc_lt = s.crc_lt;
  writes = s.writes;
  reads = λ q rest n. rw (s.reads q rest n) (h (before q rest (s.crc n)));
}

bind_assoc :
    {S E A B C : Type 0} (o : Outcome S E A) (f : A → S → Outcome S E B) (g : B → S → Outcome S E C)
    → Outcome.bind (Outcome.bind o f) g ≡ Outcome.bind o (λ a s. Outcome.bind (f a s) g)
bind_assoc (ok a s) f g = refl
bind_assoc (err e s) f g = refl
bind_assoc (panic p) f g = refl
bind_assoc out_of_fuel f g = refl

-- The two calls of a write are told apart or not.
pub regroup :
    {A : Type 0} {read : Field.M A} {a : A} (write₁ write₂ write₃ : Writer.M (Unit {0}))
    → Transmits (write_both write₁ (write_both write₂ write₃)) read a
    → Transmits (write_both (write_both write₁ write₂) write₃) read a
regroup write₁ write₂ write₃ s = record {
  bytes = s.bytes;
  crc = s.crc;
  crc_lt = s.crc_lt;
  writes = λ r. bind_assoc (write₁ r) (λ _. write₂) (λ _. write₃) ∙ s.writes r;
  reads = s.reads;
}

pub ungroup :
    {A : Type 0} {read : Field.M A} {a : A} (write₁ write₂ write₃ : Writer.M (Unit {0}))
    → Transmits (write_both (write_both write₁ write₂) write₃) read a
    → Transmits (write_both write₁ (write_both write₂ write₃)) read a
ungroup write₁ write₂ write₃ s = record {
  bytes = s.bytes;
  crc = s.crc;
  crc_lt = s.crc_lt;
  writes = λ r. sym (bind_assoc (write₁ r) (λ _. write₂) (λ _. write₃)) ∙ s.writes r;
  reads = s.reads;
}

-- One call of the stream writer and one of the stream reader.
pub sent :
    {A : Type 0} (write : Bytes → Bytes) (read : S A) (a : A)
    → ((out : Bytes) → write out ≡ out ++ write [])
    → ((rest : Bytes) (ending : IoError)
        → read (at (write [] ++ rest) ending) ≡ ok a (at rest ending))
    → Transmits (put write) (get read) a
sent write read a appends h = record {
  bytes = write [];
  crc = λ n. n;
  crc_lt = λ n h. h;
  writes = λ r. rw (appends r.out);
  reads = λ q rest n. rw (h rest q.stream.ending);
}

-- The same with an update of the checksum before the write and behind the read.
pub checked :
    {A B : Type 0} (write : Bytes → Bytes) (read : S A) (sum : A → Bytes) (make : A → B) (a : A)
    (b : B)
    → make a ≡ b
    → ((out : Bytes) → write out ≡ out ++ write [])
    → ((rest : Bytes) (ending : IoError)
        → read (at (write [] ++ rest) ending) ≡ ok a (at rest ending))
    → Transmits
        (write_both (Writer.update_crc (sum a)) (put write))
        (read_then (get read) λ x. read_then (Field.update_crc (sum x)) λ _. Field.return (make x))
        b
checked write read sum make a b e appends h = record {
  bytes = write [];
  crc = λ n. crc_update n (sum a);
  crc_lt = λ n h. crc_update_lt n (sum a);
  writes = λ r. rw (appends r.out);
  reads = λ q rest n. rw (h rest q.stream.ending, e);
}

module _ (w : Protowire) (laws : ProtowireLaws w) where
  pub integer :
      (make : ℤ → Data) (z : ℤ) (d : Data)
      → make z ≡ d
      → InSigned 64 z
      → Transmits (write_integer w z) (read_integer w make) (present d)
  unfolding write_integer read_integer write_sint64 write_varint write_full
  integer make z d e h =
      checked (λ out. write_sint64 w out z) _ bytes_64 (λ x. present (make x)) z (present d)
        (ap present e) (λ out. refl)
        (λ rest ending. read_sint64-write_sint64 w laws z rest ending h)

  pub binary :
      (make : Bytes → Data) (bytes : Bytes) (d : Data)
      → make bytes ≡ d
      → length bytes ≤ max_length
      → Transmits (write_binary w bytes) (read_binary w make) (present d)
  unfolding write_binary read_binary write_bytes write_varint write_full
  binary make bytes d e h =
      checked (λ out. write_bytes w out bytes) _ (λ x. x) (λ x. present (make x)) bytes (present d)
        (ap present e) (λ out. append_assoc out _ bytes)
        (λ rest ending. read_bytes-write_bytes w laws bytes rest ending h)

  pub seconds :
      (s n : ℤ)
      → InSigned 64 s
      → InSigned 32 n
      → Transmits (write_seconds w s n) (read_seconds w) (s, n)
  unfolding write_seconds read_seconds write_sint64 write_sint32 write_varint write_full
  seconds s n hs hn = record {
    bytes = write_sint64 w [] s ++ write_sint32 w [] n;
    crc = λ c. crc_update (crc_update c (bytes_64 s)) (bytes_32 n);
    crc_lt = λ c h. crc_update_lt (crc_update c (bytes_64 s)) (bytes_32 n);
    writes = λ r. rw (append_assoc r.out (write_sint64 w [] s) (write_sint32 w [] n));
    reads = λ q rest c. rw (
      append_assoc (write_sint64 w [] s) (write_sint32 w [] n) rest,
      read_sint64-write_sint64 w laws s (write_sint32 w [] n ++ rest) q.stream.ending hs,
      read_sint32-write_sint32 w laws n rest q.stream.ending hn,
    );
  }

  flag : (b : Bool) → Transmits (put (λ out. write_bool w out b)) (get (read_bool w)) b
  unfolding write_bool write_varint write_full
  flag b =
      sent (λ out. write_bool w out b) (read_bool w) b (λ out. refl) (read_bool-write_bool w laws b)

  -- A null flag, the value if there is one, and what follows.
  pub null_cell :
      {B : Type 0} {write : Writer.M (Unit {0})} {b : B} (value : Field.M Cell)
      (read : Cell → Field.M B)
      → Transmits write (read absent) b
      → Transmits
          (write_both (put (λ out. write_bool w out true)) write)
          (read_then (get (read_bool w)) λ c. read_then (flagged value c) read)
          b
  null_cell value read t = sequence (λ c. read_then (flagged value c) read) (flag true) t

  pub value_cell :
      {B : Type 0} {value : Field.M Cell} {field write : Writer.M (Unit {0})} {b : B}
      (read : Cell → Field.M B) (d : Data)
      → Transmits field value (present d)
      → Transmits write (read (present d)) b
      → Transmits
          (write_both (write_both (put (λ out. write_bool w out false)) field) write)
          (read_then (get (read_bool w)) λ c. read_then (flagged value c) read)
          b
  value_cell {value = value} {field = field} {write = write} read d s t =
      regroup (put (λ out. write_bool w out false)) field write
        (sequence (λ c. read_then (flagged value c) read) (flag false) (sequence read s t))
