-- ===== src/Tunnel/Arrow/Reader.antt =====
-- odps/tunnel/arrow_stream_reader.go.
use aliyun_odps_go_sdk.Prelude.{
  ℕ, zero, suc, ◌+◌, ◌-◌, Bool, true, false, not, ◌&&◌, [], ◌++◌, length, take, drop, ltb, leb,
  ◌==◌, if◌then◌else◌,
}
use aliyun_odps_go_sdk.Text.Unicode.{is_empty}
use aliyun_odps_go_sdk.Words.{Bytes}
use aliyun_odps_go_sdk.Outcome
use aliyun_odps_go_sdk.Outcome.{Outcome, ok, err, panic, out_of_fuel, index_out_of_range}
use aliyun_odps_go_sdk.Tunnel.Crc.{crc_update}
use aliyun_odps_go_sdk.Tunnel.StreamReader.{
  StreamReader, IoError, eof, unexpected_eof, broken, short_read,
}
use aliyun_odps_go_sdk.Tunnel.Schema.{min}
use aliyun_odps_go_sdk.Tunnel.Arrow.{bytes_to_uint32}

-- The errors of the reader; `ArrowCrcErr` is the second.
pub data ArrowError : Type 0 where
  io_error : IoError → ArrowError
  crc_differs : ArrowError
  not_enough_bytes : ArrowError

-- `ArrowStreamReader`. `pending` are the bytes of its chunk between the offset and the end; the
-- checksum of a chunk is reset before each chunk and is not kept here.
pub record ArrowReader : Type 0 where
  pub inner : StreamReader
  pub global_crc : ℕ
  pub chunk_size : ℕ
  pub pending : Bytes
  pub first_read : Bool
  pub eof : Bool

-- `NewArrowStreamReader`
unfoldable pub new_arrow_reader : StreamReader → ArrowReader
new_arrow_reader inner = record {
  inner = inner;
  global_crc = 0;
  chunk_size = 0;
  pending = [];
  first_read = true;
  eof = false;
}

abbrev pub ArrowOutcome : Type 0 → Type 0
ArrowOutcome A = Outcome ArrowReader ArrowError A

-- The case of `ReadChunk` for a whole chunk, whose last four bytes are its checksum.
unfoldable pub whole_chunk : Bytes → ArrowReader → ArrowOutcome (Unit {0})
unfolding bytes_to_uint32
whole_chunk buf ar =
    let bytes = take (ar.chunk_size - 4) buf in
    let sum = bytes_to_uint32 (drop (ar.chunk_size - 4) buf) in
    let ar' = record ar { pending = bytes; global_crc = crc_update ar.global_crc bytes } in
    if sum == crc_update 0 bytes then ok tt ar' else err crc_differs ar'

-- The case for the end of the stream, whose last four bytes are the checksum of everything.
unfoldable pub last_chunk : Bytes → ArrowReader → ArrowOutcome (Unit {0})
unfolding bytes_to_uint32
last_chunk buf ar =
    if ltb (length buf) 4
    then err not_enough_bytes (record ar { eof = true; pending = buf })
    else (let bytes = take (length buf - 4) buf in
        let sum = bytes_to_uint32 (drop (length buf - 4) buf) in
        let ar' = record ar { eof = true; pending = bytes; global_crc = 0 } in
        if sum == crc_update ar.global_crc bytes then ok tt ar' else err crc_differs ar')

-- The other cases behind `io.ReadFull`, by the error that the stream ends with.
unfoldable pub short_chunk : IoError → Bytes → ArrowReader → ArrowOutcome (Unit {0})
unfolding last_chunk
short_chunk broken buf ar = err (io_error broken) ar
short_chunk eof buf ar = last_chunk buf ar
short_chunk unexpected_eof buf ar = last_chunk buf ar

-- The part of `ReadChunk` behind the size: `io.ReadFull` into the chunk, and what it came to.
unfoldable pub read_rest : ArrowReader → ArrowOutcome (Unit {0})
unfolding whole_chunk short_chunk
read_rest ar =
    let unread = ar.inner.unread in
    if leb ar.chunk_size (length unread)
    then whole_chunk (take ar.chunk_size unread) (record ar {
      inner = record (ar.inner) { unread = drop ar.chunk_size unread };
      pending = [];
    })
    else short_chunk ar.inner.ending unread
        (record ar { inner = record (ar.inner) { unread = [] }; pending = [] })

-- The first four bytes.
unfoldable pub read_size : ArrowReader → ArrowOutcome (Unit {0})
unfolding bytes_to_uint32 short_read
read_size ar =
    let unread = ar.inner.unread in
    if leb 4 (length unread)
    then ok tt (record ar {
      inner = record (ar.inner) { unread = drop 4 unread };
      chunk_size = bytes_to_uint32 (take 4 unread) + 4;
      first_read = false;
    })
    else err (io_error (short_read (length unread) ar.inner.ending))
        (record ar { inner = record (ar.inner) { unread = [] } })

-- `ReadChunk`
unfoldable pub read_chunk : ArrowReader → ArrowOutcome (Unit {0})
unfolding read_size read_rest
read_chunk ar =
    if ar.first_read then Outcome.bind (read_size ar) (λ _ ar'. read_rest ar') else read_rest ar

-- What `Read` returns: the bytes that it put into its argument, or these and an error.
abbrev pub ReadOutcome : Type 0
ReadOutcome = Outcome ArrowReader (Bytes × ArrowError) Bytes

-- Behind the loop of `Read`.
unfoldable pub end_read : Bytes → ArrowReader → ReadOutcome
end_read got ar = if ar.eof && is_empty got then err ([], io_error eof) ar else ok got ar

-- The end of a round of the loop: bytes of the chunk are copied into the `space` that is left.
unfoldable pub copy_pending :
    (ℕ → Bytes → ArrowReader → ReadOutcome) → ℕ → Bytes → ArrowReader → ReadOutcome
unfolding min
copy_pending next space got ar =
    let n = min space (length ar.pending) in
    next (space - n) (got ++ take n ar.pending) (record ar { pending = drop n ar.pending })

unfoldable pub after_chunk :
    (ℕ → Bytes → ArrowReader → ReadOutcome) → ℕ → Bytes → ArrowOutcome (Unit {0}) → ReadOutcome
unfolding copy_pending
after_chunk next space got (ok _ ar) = copy_pending next space got ar
after_chunk next space got (err e ar) = err (got, e) ar
after_chunk next space got (panic fault) = panic fault
after_chunk next space got out_of_fuel = out_of_fuel

-- A round of the loop of `Read`, with the rounds behind it.
unfoldable pub read_round :
    (ℕ → Bytes → ArrowReader → ReadOutcome) → ℕ → Bytes → ArrowReader → ReadOutcome
unfolding end_read copy_pending after_chunk read_chunk
read_round next space got ar =
    if space == 0
    then end_read got ar
    else if not (is_empty ar.pending)
    then copy_pending next space got ar
    else if ar.eof
    then end_read got ar
    else after_chunk next space got (read_chunk ar)

-- The loop of `Read` into `space` bytes, on fuel.
unfoldable pub read_rounds : ℕ → ℕ → Bytes → ArrowReader → ReadOutcome
unfolding read_round
read_rounds zero space got ar = out_of_fuel
read_rounds (suc fuel) space got ar =
    read_round (λ space' got' ar'. read_rounds fuel space' got' ar') space got ar

-- `Read` into a slice of that length; every round but two copies a byte or reads four.
unfoldable pub read_arrow : ℕ → ArrowReader → ReadOutcome
unfolding read_rounds
read_arrow space ar = read_rounds (space + length ar.inner.unread + 3) space [] ar
