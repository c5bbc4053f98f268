-- ===== src/Tunnel/Arrow.antt =====
-- odps/tunnel/arrow_stream_writer.go and arrow_stream_reader.go: bytes in chunks with checksums.
pub mod Writer
pub mod Reader
pub mod Pieces
pub mod Encoded
pub mod Delivers
pub mod Reads
pub mod RoundTrip
pub mod Loads
pub mod Bounds
use aliyun_odps_go_sdk.Prelude.{
  ℕ, zero, suc, ◌+◌, ◌-◌, ◌*◌, ◌/◌, ◌%◌, ◌^◌, Bool, true, false, not, ◌&&◌, List, [], ◌∷◌, ◌++◌,
  length, take, drop, ltb, leb, ◌==◌, if◌then◌else◌,
}
use aliyun_odps_go_sdk.Text.Unicode.{is_empty}
use aliyun_odps_go_sdk.Words.{Bytes}
use aliyun_odps_go_sdk.Outcome
use aliyun_odps_go_sdk.Outcome.{Outcome, ok, err, panic, out_of_fuel, index_out_of_range}
use aliyun_odps_go_sdk.Tunnel.Crc.{crc_update}
use aliyun_odps_go_sdk.Tunnel.StreamReader.{
  StreamReader, IoError, eof, unexpected_eof, broken, short_read,
}
use aliyun_odps_go_sdk.Tunnel.Schema.{min}

-- `uint32ToBytes`
unfoldable pub uint32_to_bytes : ℕ → Bytes
uint32_to_bytes n = (n / 2 ^ 24 % 256) ∷ (n / 2 ^ 16 % 256) ∷ (n / 2 ^ 8 % 256) ∷ (n % 256) ∷ []

-- `bytesToUint32`, of a slice.
unfoldable pub bytes_to_uint32 : Bytes → ℕ
bytes_to_uint32 (a ∷ b ∷ c ∷ d ∷ rest) = (a * 2 ^ 24 + b * 2 ^ 16 + c * 2 ^ 8 + d) % 2 ^ 32
bytes_to_uint32 _ = 0
