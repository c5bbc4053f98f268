-- ===== src/Tunnel/RoundTrip/Time.antt =====
-- The conversions of instants on both sides of the tunnel.
use aliyun_odps_go_sdk.Prelude.{ℕ, ◌*◌, ◌/◌, ◌<◌, ◌≡◌, arith}
use aliyun_odps_go_sdk.Prelude.Int.{ℤ, pos, negsuc, ◌+ℤ◌, ◌*ℤ◌}
use aliyun_odps_go_sdk.Words.{InSigned, wrap_64}
use aliyun_odps_go_sdk.Data.Instant.{unix_time}
use aliyun_odps_go_sdk.Tunnel.Writer.{milliseconds, days}
use aliyun_odps_go_sdk.Tunnel.Reader.Field.{from_milliseconds}

pub milliseconds_InSigned :
    (z : ℤ) (m : ℕ) → InSigned 53 z → m < 1000 → InSigned 64 (z *ℤ pos 1000 +ℤ pos m)
unfolding ◌+ℤ◌ ◌*ℤ◌
milliseconds_InSigned (pos n) m h lt = ground arith
milliseconds_InSigned (negsuc n) m h lt = ground arith

pub milliseconds_eq :
    (z : ℤ) (m : ℕ)
    → InSigned 53 z
    → m < 1000
    → milliseconds (record { unix = z; nanosecond = 1_000_000 * m }) ≡ z *ℤ pos 1000 +ℤ pos m
unfolding milliseconds
milliseconds_eq z m h lt =
    let whole : 1_000_000 * m / 1_000_000 ≡ m = omega arith in
    rw whole (wrap_64 (z *ℤ pos 1000 +ℤ pos m) (milliseconds_InSigned z m h lt))

pub from_milliseconds_eq :
    (z : ℤ) (m : ℕ)
    → m < 1000
    → from_milliseconds (z *ℤ pos 1000 +ℤ pos m) ≡ record { unix = z; nanosecond = 1_000_000 * m }
unfolding unix_time ◌+ℤ◌ ◌*ℤ◌
from_milliseconds_eq (pos n) m lt = ground arith
from_milliseconds_eq (negsuc n) m lt = ground arith

pub days_eq : (z : ℤ) → days (record { unix = z *ℤ pos 86_400; nanosecond = 0 }) ≡ z
unfolding days ◌*ℤ◌
days_eq (pos n) = ground arith
days_eq (negsuc n) = ground arith

pub unix_time_eq :
    (z : ℤ) (n : ℕ) → n < 1_000_000_000 → unix_time z (pos n) ≡ record { unix = z; nanosecond = n }
unfolding unix_time ◌+ℤ◌
unix_time_eq (pos m) n lt = ground arith
unix_time_eq (negsuc m) n lt = ground arith
