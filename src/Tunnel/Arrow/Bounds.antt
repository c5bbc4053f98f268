-- ===== src/Tunnel/Arrow/Bounds.antt =====
-- `Read` of any stream of bytes, whole or broken, comes to an end.
use aliyun_odps_go_sdk.Prelude.{ℕ, ◌+◌, ◌≤◌, ◌<◌, length}
use aliyun_odps_go_sdk.Words.{Bytes}
use aliyun_odps_go_sdk.Outcome.{ok, err}
use aliyun_odps_go_sdk.Tunnel.Arrow.Reader.{ArrowReader, ArrowError, ReadOutcome}
use aliyun_odps_go_sdk.Tunnel.Arrow.Loads.{IsOpen, left, Loads}

-- What a call of `Read` into a slice of `space` bytes returns, behind the bytes `got`.
pub data Bounded (most : ℕ) : ReadOutcome → Type 0 where
  delivers :
      {bytes : Bytes} {ar : ArrowReader}
      → IsOpen ar
      → length bytes ≤ most
      → Bounded most (ok bytes ar)
  fails :
      {bytes : Bytes} {e : ArrowError} {ar : ArrowReader}
      → IsOpen ar
      → length bytes ≤ most
      → Bounded most (err (bytes, e) ar)

-- The rounds of `Read` with fuel for the room that is left and for what is left of the stream.
abbrev Rounds : ℕ → ℕ → (ℕ → Bytes → ArrowReader → ReadOutcome) → Type 0
Rounds most fuel next =
    (space : ℕ) (got : Bytes) (ar : ArrowReader)
    → IsOpen ar
    → length got + space ≤ most
    → space + left ar < fuel
    → Bounded most (next space got ar)
