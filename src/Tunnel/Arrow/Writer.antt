-- ===== src/Tunnel/Arrow/Writer.antt =====
-- odps/tunnel/arrow_stream_writer.go.
use aliyun_odps_go_sdk.Prelude.{
  ℕ, zero, suc, ◌+◌, ◌-◌, Bool, true, false, [], ◌∷◌, ◌++◌, length, take, drop, leb, if◌then◌else◌,
}
use aliyun_odps_go_sdk.Words.{Bytes}
use aliyun_odps_go_sdk.Tunnel.Crc.{crc_update}
use aliyun_odps_go_sdk.Tunnel.Schema.{min}
use aliyun_odps_go_sdk.Tunnel.Arrow.{uint32_to_bytes}

-- `ArrowStreamWriter`; `out` is what its inner writer has taken, which takes everything.
pub record ArrowWriter : Type 0 where
  pub out : Bytes
  pub chunk_crc : ℕ
  pub global_crc : ℕ
  pub current_chunk_length : ℕ
  pub first_write : Bool

-- `NewArrowStreamWriter`
unfoldable pub new_arrow_writer : ArrowWriter
new_arrow_writer = record {
  out = [];
  chunk_crc = 0;
  global_crc = 0;
  current_chunk_length = 0;
  first_write = true;
}

-- `DefaultChunkSize`; the definitions below take the size of a chunk as an argument.
abbrev pub default_chunk_size : ℕ
default_chunk_size = 65536

-- `writeUint32`
unfoldable pub put_uint32 : ℕ → ArrowWriter → ArrowWriter
unfolding uint32_to_bytes
put_uint32 n aw = record aw { out = aw.out ++ uint32_to_bytes n }

-- `Close`, over an inner writer that closes.
unfoldable pub close_arrow : ArrowWriter → ArrowWriter
unfolding put_uint32
close_arrow aw = record (put_uint32 aw.global_crc aw) { global_crc = 0 }

module _ (size : ℕ) where
  -- The test behind the bytes of a round of the loop of `Write`.
  unfoldable pub end_chunk : ArrowWriter → ArrowWriter
  unfolding put_uint32
  end_chunk aw =
      if leb size aw.current_chunk_length
      then record (put_uint32 aw.chunk_crc aw) { chunk_crc = 0; current_chunk_length = 0 }
      else aw

  -- A round of the loop, for the bytes that fit in the chunk.
  unfoldable pub write_piece : Bytes → ArrowWriter → ArrowWriter
  unfolding end_chunk
  write_piece piece aw = end_chunk (record aw {
    out = aw.out ++ piece;
    chunk_crc = crc_update aw.chunk_crc piece;
    global_crc = crc_update aw.global_crc piece;
    current_chunk_length = aw.current_chunk_length + length piece;
  })

  -- The loop of `Write`, on fuel for the bytes left.
  unfoldable pub write_chunks : ℕ → Bytes → ArrowWriter → ArrowWriter
  unfolding write_piece min
  write_chunks zero bytes aw = aw
  write_chunks (suc fuel) [] aw = aw
  write_chunks (suc fuel) (b ∷ bs) aw =
      let n = min (size - aw.current_chunk_length) (length (b ∷ bs)) in
      write_chunks fuel (drop n (b ∷ bs)) (write_piece (take n (b ∷ bs)) aw)

  -- The size of the chunks stands before the bytes of the first `Write`.
  unfoldable pub write_header : ArrowWriter → ArrowWriter
  unfolding put_uint32
  write_header aw =
      if aw.first_write then record (put_uint32 size aw) { first_write = false } else aw

  -- `Write`
  unfoldable pub write_arrow : Bytes → ArrowWriter → ArrowWriter
  unfolding write_chunks write_header
  write_arrow bytes aw = write_chunks (length bytes) bytes (write_header aw)
