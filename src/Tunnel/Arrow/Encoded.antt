-- ===== src/Tunnel/Arrow/Encoded.antt =====
-- The stream of some bytes: whole chunks with their checksums, the rest, and the checksum of all.
use aliyun_odps_go_sdk.Prelude.{
  ℕ, zero, suc, ◌+◌, ◌≤◌, ◌<◌, ◌^◌, ◌≡◌, refl, sym, ap, ◌∙◌, true, false, [], ◌∷◌, ◌++◌, arith,
  length, take, drop, length-drop, take-drop, length-take, leb, ltb, append_assoc, append-nil,
  if◌then◌else◌, Bool-cases, inl, inr,
}
use aliyun_odps_go_sdk.Words.{Bytes}
use aliyun_odps_go_sdk.Tunnel.Crc.{crc_update, crc_update_lt}
use aliyun_odps_go_sdk.Tunnel.Crc.Append.{IsBytes, crc_update-nil, IsBytes-take, IsBytes-drop}
use aliyun_odps_go_sdk.Tunnel.Arrow.{uint32_to_bytes, bytes_to_uint32}
use aliyun_odps_go_sdk.Tunnel.Arrow.Writer.{
  ArrowWriter, new_arrow_writer, put_uint32, close_arrow, end_chunk, write_piece, write_header,
  write_arrow,
}
use aliyun_odps_go_sdk.Tunnel.Arrow.Pieces.{
  write_bytewise, write_bytewise-append, write_bytewise-piece, write_arrow-bytewise,
}

-- `bytesToUint32` takes back what `uint32ToBytes` made.
pub bytes_to_uint32-uint32_to_bytes : (n : ℕ) → n < 2 ^ 32 → bytes_to_uint32 (uint32_to_bytes n) ≡ n
unfolding bytes_to_uint32 uint32_to_bytes
bytes_to_uint32-uint32_to_bytes n h = omega arith

pub length-uint32_to_bytes : (n : ℕ) → length (uint32_to_bytes n) ≡ 4
unfolding uint32_to_bytes
length-uint32_to_bytes n = refl

module _ (size : ℕ) where
  -- The bytes `bytes` behind others whose checksum is `sum`, from the start of a chunk, on fuel for the
  -- number of chunks.
  unfoldable pub encoded : ℕ → ℕ → Bytes → Bytes
  encoded zero sum bytes = bytes ++ uint32_to_bytes (crc_update sum bytes)
  encoded (suc fuel) sum bytes =
      let rest = encoded fuel (crc_update sum (take size bytes)) (drop size bytes) in
      if ltb (length bytes) size
      then bytes ++ uint32_to_bytes (crc_update sum bytes)
      else take size bytes ++ (uint32_to_bytes (crc_update 0 (take size bytes)) ++ rest)

  -- The writer at the start of a chunk.
  abbrev pub at_chunk : Bytes → ℕ → ArrowWriter
  at_chunk out sum = record {
    out = out;
    chunk_crc = 0;
    global_crc = sum;
    current_chunk_length = 0;
    first_write = false;
  }

  abbrev part_of : Bytes → Bytes → ℕ → ArrowWriter
  part_of bytes out sum = record {
    out = out ++ bytes;
    chunk_crc = crc_update 0 bytes;
    global_crc = crc_update sum bytes;
    current_chunk_length = length bytes;
    first_write = false;
  }

  piece_part :
      (piece out : Bytes) (sum : ℕ)
      → length piece < size
      → write_piece size piece (at_chunk out sum) ≡ part_of piece out sum
  unfolding write_piece end_chunk
  piece_part piece out sum short =
      let same : 0 + length piece ≡ length piece = omega arith in
      let open_ : leb size (length piece) ≡ false = ground arith in rw (same, open_)

  piece_whole :
      (piece out : Bytes) (sum : ℕ)
      → length piece ≡ size
      → write_piece size piece (at_chunk out sum)
        ≡ at_chunk (out ++ (piece ++ uint32_to_bytes (crc_update 0 piece))) (crc_update sum piece)
  unfolding write_piece end_chunk put_uint32
  piece_whole piece out sum whole =
      let full : leb size (0 + length piece) ≡ true = ground arith in
      rw (full, append_assoc out piece (uint32_to_bytes (crc_update 0 piece)))

  write_part :
      (bytes out : Bytes) (sum : ℕ)
      → IsBytes bytes
      → sum < 2 ^ 32
      → length bytes < size
      → write_bytewise size bytes (at_chunk out sum) ≡ part_of bytes out sum
  unfolding write_bytewise
  write_part [] out sum h lt short =
      rw (append-nil out, crc_update-nil sum lt, crc_update-nil 0 (omega arith))
  write_part (b ∷ bs) out sum h lt short =
      write_bytewise-piece size b bs (at_chunk out sum) h (omega arith)
      ∙ piece_part (b ∷ bs) out sum short

  write_whole :
      (bytes out : Bytes) (sum : ℕ)
      → IsBytes bytes
      → 0 < size
      → length bytes ≡ size
      → write_bytewise size bytes (at_chunk out sum)
        ≡ at_chunk (out ++ (bytes ++ uint32_to_bytes (crc_update 0 bytes))) (crc_update sum bytes)
  write_whole [] out sum h some_room whole = absurd (omega arith)
  write_whole (b ∷ bs) out sum h some_room whole =
      write_bytewise-piece size b bs (at_chunk out sum) h (omega arith)
      ∙ piece_whole (b ∷ bs) out sum whole

  close_part :
      (bytes out : Bytes) (sum : ℕ)
      → (close_arrow (part_of bytes out sum)).out
        ≡ out ++ (bytes ++ uint32_to_bytes (crc_update sum bytes))
  unfolding close_arrow put_uint32
  close_part bytes out sum = append_assoc out bytes (uint32_to_bytes (crc_update sum bytes))

  close-encoded :
      (fuel : ℕ) (bytes out : Bytes) (sum : ℕ)
      → 0 < size
      → IsBytes bytes
      → sum < 2 ^ 32
      → length bytes ≤ fuel
      → (close_arrow (write_bytewise size bytes (at_chunk out sum))).out
        ≡ out ++ encoded fuel sum bytes
  unfolding encoded
  close-encoded zero bytes out sum some_room h lt enough =
      ap (λ aw. (close_arrow aw).out) (write_part bytes out sum h lt (omega arith))
      ∙ close_part bytes out sum
  close-encoded (suc fuel) bytes out sum some_room h lt enough =
      elim (Bool-cases (ltb (length bytes) size)) [
        | inl short ↦ rw short (
            ap (λ aw. (close_arrow aw).out) (write_part bytes out sum h lt (ground arith))
            ∙ close_part bytes out sum)
        | inr long ↦
            let front = take size bytes in
            let back = drop size bytes in
            let whole : length front ≡ size = length-take size bytes (ground arith) in
            let out' = out ++ (front ++ uint32_to_bytes (crc_update 0 front)) in
            let sum' = crc_update sum front in
            rw long (
              ap (λ l. (close_arrow (write_bytewise size l (at_chunk out sum))).out)
                (sym (take-drop size bytes))
              ∙ (ap (λ aw. (close_arrow aw).out)
                    (write_bytewise-append size front back (at_chunk out sum)
                      ∙ ap (write_bytewise size back)
                          (write_whole front out sum (IsBytes-take size bytes h) some_room whole))
                  ∙ (close-encoded fuel back out' sum' some_room (IsBytes-drop size bytes h)
                        (crc_update_lt sum front) (omega (arith, length-drop size bytes))
                      ∙ rw (
                        append_assoc out (front ++ uint32_to_bytes (crc_update 0 front))
                            (encoded fuel sum' back),
                        append_assoc front (uint32_to_bytes (crc_update 0 front))
                            (encoded fuel sum' back),
                      ))))
      ]

  header-at_chunk : write_header size new_arrow_writer ≡ at_chunk (uint32_to_bytes size) 0
  unfolding write_header new_arrow_writer put_uint32
  header-at_chunk = refl

  new_arrow_writer-room : 0 < size → new_arrow_writer.current_chunk_length < size
  unfolding new_arrow_writer
  new_arrow_writer-room h = h

  -- The stream of a new writer behind one `Write` and `Close`: the size of the chunks and the chunks.
  pub write_arrow-encoded :
      (bytes : Bytes)
      → 0 < size
      → IsBytes bytes
      → (close_arrow (write_arrow size bytes new_arrow_writer)).out
        ≡ uint32_to_bytes size ++ encoded (length bytes) 0 bytes
  write_arrow-encoded bytes some_room h =
      ap (λ aw. (close_arrow aw).out)
        (write_arrow-bytewise size bytes new_arrow_writer h (new_arrow_writer-room some_room)
          ∙ ap (write_bytewise size bytes) header-at_chunk)
      ∙ close-encoded (length bytes) bytes (uint32_to_bytes size) 0 some_room h (omega arith)
          (omega arith)
