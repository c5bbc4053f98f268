-- ===== src/Tunnel/Tests/Chunks.antt =====
-- What the theorems on Arrow streams say of five bytes in chunks of two.
use aliyun_odps_go_sdk.Prelude.{suc, ◌%◌, ◌≡◌, [], ◌∷◌, ◌++◌, arith, length}
use aliyun_odps_go_sdk.Words.{Bytes}
use aliyun_odps_go_sdk.Outcome.{ok}
use aliyun_odps_go_sdk.Tunnel.StreamReader.{eof}
use aliyun_odps_go_sdk.Tunnel.RoundTrip.Stream.{at}
use aliyun_odps_go_sdk.Tunnel.Crc.Append.{IsBytes}
use aliyun_odps_go_sdk.Tunnel.Arrow.Writer.{new_arrow_writer, write_arrow, close_arrow}
use aliyun_odps_go_sdk.Tunnel.Arrow.Reader.{ArrowReader, new_arrow_reader}
use aliyun_odps_go_sdk.Tunnel.Arrow.Pieces.{write_arrow-append}
use aliyun_odps_go_sdk.Tunnel.Arrow.RoundTrip.{read_all, read_all-write_arrow}

-- A stream that is cut in the checksum of its first chunk.
abbrev cut_stream : Bytes
cut_stream = 0 ∷ 0 ∷ 0 ∷ 2 ∷ 7 ∷ 7 ∷ 1 ∷ []

abbrev five_bytes : Bytes
five_bytes = 1 ∷ 2 ∷ 3 ∷ 4 ∷ 255 ∷ []

five_bytes-IsBytes : IsBytes five_bytes
five_bytes-IsBytes = (omega arith, (omega arith, (omega arith, (omega arith, (omega arith, tt)))))

write_arrow-append_example :
    write_arrow 2 (7 ∷ []) (write_arrow 2 five_bytes new_arrow_writer)
    ≡ write_arrow 2 (five_bytes ++ 7 ∷ []) new_arrow_writer
unfolding new_arrow_writer
write_arrow-append_example =
    write_arrow-append 2 five_bytes (7 ∷ []) new_arrow_writer five_bytes-IsBytes (omega arith, tt)
      (omega arith)

read_all-write_arrow_example :
    (ar : ArrowReader) × (read_all
        (suc (length five_bytes))
        (λ i. i % 2)
        0
        (new_arrow_reader (at (close_arrow (write_arrow 2 five_bytes new_arrow_writer)).out eof))
      ≡ ok five_bytes ar)
read_all-write_arrow_example =
    read_all-write_arrow 2 (omega arith) (omega arith) five_bytes (λ i. i % 2) five_bytes-IsBytes
