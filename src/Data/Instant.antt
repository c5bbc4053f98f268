-- ===== src/Data/Instant.antt =====
-- `time.Time` as far as the tunnel uses it, and odps/data/interval_time.go.
use native.Mathlib.Nat.{mod-lt}
use aliyun_odps_go_sdk.Prelude.{
  ℕ, zero, suc, ◌-◌, ◌/◌, ◌%◌, ◌<◌, ◌≡◌, ◌≢◌, ap, Bool-cases, inl, inr, arith, ◌==◌, if◌then◌else◌,
}
use aliyun_odps_go_sdk.Prelude.Int.{ℤ, pos, negsuc, ◌+ℤ◌}
use aliyun_odps_go_sdk.Words.{wrap}
use aliyun_odps_go_sdk.Outcome.{Outcome, ok, panic, divide_by_zero}

-- An instant: `Unix()` and `Nanosecond()`.
pub record Time : Type 0 where
  pub unix : ℤ
  pub nanosecond : ℕ

-- `time.Unix(sec, nsec)`: the nanoseconds are brought into [0, 10^9).
unfoldable pub unix_time : ℤ → ℤ → Time
unfolding ◌+ℤ◌
unix_time sec (pos n) = record {
  unix = sec +ℤ pos (n / 1_000_000_000);
  nanosecond = n % 1_000_000_000;
}
unix_time sec (negsuc n) = record {
  unix = sec +ℤ negsuc (n / 1_000_000_000);
  nanosecond = 999_999_999 - n % 1_000_000_000;
}

pub record IntervalDayTime : Type 0 where
  pub total_seconds : ℤ
  pub nanos : ℤ

-- `a % b` on int32, which panics at a zero divisor.
abbrev remainder : ℕ → ℕ → Outcome (Unit {0}) ⊥ ℕ
remainder a b = if b == 0 then panic divide_by_zero else ok (a % b) tt

-- `NewIntervalDayTime`. Its `nanos %= nanos % NanosPerSecond` takes the remainder by a remainder.
unfoldable pub new_interval_day_time : ℤ → ℤ → Outcome (Unit {0}) ⊥ IntervalDayTime
new_interval_day_time seconds (pos (suc n)) =
    let divisor = suc n % 1_000_000_000 in
    let total = wrap 64 (seconds +ℤ pos (suc n / 1_000_000_000)) in
    if divisor == 0
    then panic divide_by_zero
    else ok (record { total_seconds = total; nanos = pos (suc n % divisor) }) tt
new_interval_day_time seconds nanos = ok (record { total_seconds = seconds; nanos = nanos }) tt

+ℤ-zero : (a : ℤ) → a +ℤ pos 0 ≡ a
unfolding ◌+ℤ◌
+ℤ-zero a = ground arith

-- A fraction of a second is lost: for every positive count of nanoseconds below a second, and
-- seconds that are an int64, the interval that `NewIntervalDayTime` makes has no nanoseconds, and
-- the seconds are kept.
pub new_interval_day_time-fraction :
    (seconds : ℤ) (n : ℕ)
    → 0 < n
    → n < 1_000_000_000
    → wrap 64 seconds ≡ seconds
    → new_interval_day_time seconds (pos n)
      ≡ ok (record { total_seconds = seconds; nanos = pos 0 }) tt
unfolding new_interval_day_time
new_interval_day_time-fraction seconds zero lo hi h = absurd (omega arith)
new_interval_day_time-fraction seconds (suc n) lo hi h =
    let whole : suc n / 1_000_000_000 ≡ 0 = omega arith in
    let rest : suc n % 1_000_000_000 ≡ suc n = omega arith in
    let none : suc n % suc n ≡ 0 = grind arith in
    rw (whole, rest, none, +ℤ-zero seconds, h) (ground arith)

-- The interval of so many seconds and nanoseconds, with the nanoseconds below a second.
abbrev pub normal_interval : ℤ → ℕ → IntervalDayTime
normal_interval seconds n = record {
  total_seconds = wrap 64 (seconds +ℤ pos (n / 1_000_000_000));
  nanos = pos (n % 1_000_000_000);
}

nanos_of : Outcome (Unit {0}) ⊥ IntervalDayTime → ℤ
nanos_of (ok i s) = i.nanos
nanos_of _ = pos 0

pos_eq : (a b : ℕ) → pos a ≡ pos b → a ≡ b
pos_eq a b h = cc

-- For any seconds and any positive nanoseconds, `NewIntervalDayTime` does not return the interval whose
-- whole seconds are counted among the seconds and whose nanoseconds are the rest: it stops the program
-- or returns another interval.
pub new_interval_day_time-ne-normal :
    (seconds : ℤ) (n : ℕ)
    → 0 < n
    → new_interval_day_time seconds (pos n) ≢ ok (normal_interval seconds n) tt
unfolding new_interval_day_time nanos_of
new_interval_day_time-ne-normal seconds zero positive e = absurd (omega arith)
new_interval_day_time-ne-normal seconds (suc n) positive e =
    let divisor = suc n % 1_000_000_000 in
    elim (Bool-cases (divisor == 0)) [
      | inl whole ↦ cc (rw whole at e)
      | inr part ↦
          let same : suc n % divisor ≡ divisor = pos_eq _ _ (ap nanos_of (rw part at e)) in
          let less : suc n % divisor < divisor = mod-lt (suc n) (ground arith) in
          absurd (omega arith)
    ]
