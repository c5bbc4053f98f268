-- ===== src/Tunnel/RoundTrip/Scalar.antt =====
-- `writeField` and `readField` on the types without elements.
use aliyun_odps_go_sdk.Prelude.{
  ℕ, zero, suc, ◌*◌, ◌^◌, ◌<◌, refl, ap, Bool, [], ◌∷◌, arith, if◌then◌else◌,
}
use aliyun_odps_go_sdk.Prelude.Int.{ℤ, pos, negsuc, ◌+ℤ◌, ◌*ℤ◌, ◌≤ℤ◌}
use aliyun_odps_go_sdk.Words.{InSigned, little_endian, wrap_32}
use aliyun_odps_go_sdk.Datatype.{TypeId, DataType, primitive}
use aliyun_odps_go_sdk.Data.{Data, present}
use aliyun_odps_go_sdk.Data.Instant.{new_interval_day_time}
use aliyun_odps_go_sdk.Tunnel.Protowire.{Protowire, ProtowireLaws}
use aliyun_odps_go_sdk.Tunnel.StreamWriter.{
  write_full, write_varint, write_bool, write_int32, write_float32, write_float64, write_fixed32,
  write_fixed64,
}
use aliyun_odps_go_sdk.Tunnel.StreamReader.{read_bool, read_fixed32, read_fixed64, read_uint32}
use aliyun_odps_go_sdk.Tunnel.Writer.{write_count, write_field}
use aliyun_odps_go_sdk.Tunnel.Reader.Field.{get, read_primitive, read_field}
use aliyun_odps_go_sdk.Tunnel.RoundTrip.Stream.{
  wider, read_bool-write_bool, read_uint32-write_int32, read_fixed32-write_fixed32,
  read_fixed64-write_fixed64,
}
use aliyun_odps_go_sdk.Tunnel.RoundTrip.Time.{
  milliseconds_InSigned, milliseconds_eq, from_milliseconds_eq, days_eq,
}
use aliyun_odps_go_sdk.Tunnel.RoundTrip.Transmits.{
  Transmits, finally, sent, checked, integer, seconds,
}

module _ (w : Protowire) (laws : ProtowireLaws w) where
  unfoldable pub Carried : Data → DataType → Type 0
  Carried d t = Transmits (write_field w d) (read_field w t) (present d)

  pub double : (bits : ℕ) → bits < 2 ^ 64 → Carried (Data.double bits) (primitive TypeId.double)
  unfolding Carried write_field read_field read_primitive write_float64 write_fixed64 write_full
  double bits h =
      checked (λ out. write_float64 w out bits) (read_fixed64 w) (little_endian 8)
        (λ v. present (Data.double v)) bits _ refl (λ out. refl)
        (λ rest ending. read_fixed64-write_fixed64 w laws bits rest ending h)

  pub float : (bits : ℕ) → bits < 2 ^ 32 → Carried (Data.float bits) (primitive TypeId.float)
  unfolding Carried write_field read_field read_primitive write_float32 write_fixed32 write_full
  float bits h =
      checked (λ out. write_float32 w out bits) (read_fixed32 w) (little_endian 4)
        (λ v. present (Data.float v)) bits _ refl (λ out. refl)
        (λ rest ending. read_fixed32-write_fixed32 w laws bits rest ending h)

  pub boolean : (b : Bool) → Carried (Data.bool b) (primitive TypeId.boolean)
  unfolding Carried write_field read_field read_primitive write_bool write_varint write_full
  boolean b =
      checked (λ out. write_bool w out b) (read_bool w) (λ v. (if v then 1 else 0) ∷ [])
        (λ v. present (Data.bool v)) b _ refl (λ out. refl) (read_bool-write_bool w laws b)

  pub date_time :
      (z : ℤ) (m : ℕ)
      → InSigned 53 z
      → m < 1000
      → Carried
          (Data.date_time (record { unix = z; nanosecond = 1_000_000 * m }))
          (primitive TypeId.datetime)
  unfolding Carried write_field read_field read_primitive
  date_time z m h lt = rw (milliseconds_eq z m h lt) (
      integer w laws _ (z *ℤ pos 1000 +ℤ pos m) _ (ap Data.date_time (from_milliseconds_eq z m lt))
        (milliseconds_InSigned z m h lt))

  pub date :
      (z : ℤ)
      → InSigned 32 z
      → Carried
          (Data.date (record { unix = z *ℤ pos 86_400; nanosecond = 0 }))
          (primitive TypeId.date)
  unfolding Carried write_field read_field read_primitive
  date z h = rw (days_eq z) (integer w laws _ z _ refl (wider z h))

  pub interval :
      (z n : ℤ)
      → InSigned 64 z
      → InSigned 32 n
      → n ≤ℤ pos 0
      → Carried
          (Data.interval_day_time (record { total_seconds = z; nanos = n }))
          (primitive TypeId.interval_day_time)
  unfolding Carried write_field read_field read_primitive new_interval_day_time
  interval z (pos zero) hz hn neg = finally _ (λ q. refl) (seconds w laws z (pos zero) hz hn)
  interval z (pos (suc n)) hz hn neg = absurd (omega arith)
  interval z (negsuc n) hz hn neg = finally _ (λ q. refl) (seconds w laws z (negsuc n) hz hn)

  pub count : (n : ℕ) → n < 2 ^ 31 → Transmits (write_count w n) (get (read_uint32 w)) n
  unfolding write_count write_int32 write_varint write_full
  count n h = rw (wrap_32 (pos n) (omega arith, omega arith)) (
      sent (λ out. write_int32 w out (pos n)) (read_uint32 w) n (λ out. refl)
        λ rest ending. read_uint32-write_int32 w laws n rest ending h)
