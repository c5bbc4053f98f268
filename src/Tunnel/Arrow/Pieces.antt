-- ===== src/Tunnel/Arrow/Pieces.antt =====
-- Writes in pieces: however the bytes are cut, the stream is the same.
use aliyun_odps_go_sdk.Prelude.{
  ℕ, zero, suc, ◌+◌, ◌-◌, ◌≤◌, ◌<◌, ◌≡◌, refl, sym, ap, ◌∙◌, false, [], ◌∷◌, ◌++◌, arith, length,
  take, drop, length-drop, take-drop, length-take, leb, append_assoc, Bool-cases, inl, inr,
}
use aliyun_odps_go_sdk.Words.{Bytes}
use aliyun_odps_go_sdk.Tunnel.Crc.{crc_update}
use aliyun_odps_go_sdk.Tunnel.Crc.Append.{
  IsBytes, crc_update-append, IsBytes-append, IsBytes-take, IsBytes-drop,
}
use aliyun_odps_go_sdk.Tunnel.Schema.{min}
use aliyun_odps_go_sdk.Tunnel.Arrow.Writer.{
  ArrowWriter, put_uint32, end_chunk, write_piece, write_chunks, write_header, write_arrow,
}

module _ (size : ℕ) where
  -- The reference: byte by byte.
  abbrev pub write_byte : ℕ → ArrowWriter → ArrowWriter
  write_byte b = write_piece size (b ∷ [])

  unfoldable pub write_bytewise : Bytes → ArrowWriter → ArrowWriter
  write_bytewise [] aw = aw
  write_bytewise (b ∷ bs) aw = write_bytewise bs (write_byte b aw)

  pub write_bytewise-append :
      (xs ys : Bytes) (aw : ArrowWriter)
      → write_bytewise (xs ++ ys) aw ≡ write_bytewise ys (write_bytewise xs aw)
  unfolding write_bytewise
  write_bytewise-append [] ys aw = refl
  write_bytewise-append (x ∷ xs) ys aw = write_bytewise-append xs ys (write_byte x aw)

  -- A piece that leaves room in the chunk.
  abbrev absorb : Bytes → ArrowWriter → ArrowWriter
  absorb piece aw = record aw {
    out = aw.out ++ piece;
    chunk_crc = crc_update aw.chunk_crc piece;
    global_crc = crc_update aw.global_crc piece;
    current_chunk_length = aw.current_chunk_length + length piece;
  }

  absorb-cons :
      (b : ℕ) (bs : Bytes) (aw : ArrowWriter)
      → b < 256
      → absorb bs (absorb (b ∷ []) aw) ≡ absorb (b ∷ bs) aw
  absorb-cons b bs aw h =
      rw
        (
          sym (crc_update-append aw.chunk_crc (b ∷ []) bs (h, tt)),
          sym (crc_update-append aw.global_crc (b ∷ []) bs (h, tt)),
          append_assoc aw.out (b ∷ []) bs,
        )
        (ap
          (λ n. record aw {
            out = aw.out ++ b ∷ bs;
            chunk_crc = crc_update aw.chunk_crc (b ∷ bs);
            global_crc = crc_update aw.global_crc (b ∷ bs);
            current_chunk_length = n;
          })
          (omega arith))

  write_piece-absorb :
      (b : ℕ) (bs : Bytes) (aw : ArrowWriter)
      → b < 256
      → write_piece size bs (absorb (b ∷ []) aw) ≡ write_piece size (b ∷ bs) aw
  unfolding write_piece
  write_piece-absorb b bs aw h = ap (end_chunk size) (absorb-cons b bs aw h)

  write_byte-absorb :
      (b : ℕ) (aw : ArrowWriter)
      → aw.current_chunk_length + 1 < size
      → write_byte b aw ≡ absorb (b ∷ []) aw
  unfolding write_piece end_chunk
  write_byte-absorb b aw h =
      let more : leb size (aw.current_chunk_length + 1) ≡ false = ground arith in rw more

  -- Bytes that fit into the chunk, one by one or in one piece.
  pub write_bytewise-piece :
      (b : ℕ) (bs : Bytes) (aw : ArrowWriter)
      → IsBytes (b ∷ bs)
      → aw.current_chunk_length + length (b ∷ bs) ≤ size
      → write_bytewise (b ∷ bs) aw ≡ write_piece size (b ∷ bs) aw
  unfolding write_bytewise
  write_bytewise-piece b [] aw h fits = refl
  write_bytewise-piece b (c ∷ cs) aw h fits =
      ap (write_bytewise (c ∷ cs)) (write_byte-absorb b aw (omega arith))
      ∙ (write_bytewise-piece c cs (absorb (b ∷ []) aw) h.1 (omega arith)
          ∙ write_piece-absorb b (c ∷ cs) aw h.0)

  write_piece-room :
      (piece : Bytes) (aw : ArrowWriter)
      → 0 < size
      → aw.current_chunk_length + length piece ≤ size
      → (write_piece size piece aw).current_chunk_length < size
  unfolding write_piece end_chunk put_uint32
  write_piece-room piece aw some_room fits =
      elim (Bool-cases (leb size (aw.current_chunk_length + length piece))) [
        | inl full ↦ rw full some_room
        | inr open_ ↦ rw open_ (ground arith)
      ]

  write_bytewise-take :
      (n b : ℕ) (bs : Bytes) (aw : ArrowWriter)
      → IsBytes (b ∷ bs)
      → 0 < n
      → n ≤ length (b ∷ bs)
      → aw.current_chunk_length + n ≤ size
      → write_bytewise (b ∷ bs) aw
        ≡ write_bytewise (drop n (b ∷ bs)) (write_piece size (take n (b ∷ bs)) aw)
  write_bytewise-take zero b bs aw h some_byte within fits = absurd (omega arith)
  write_bytewise-take (suc n) b bs aw h some_byte within fits =
      let front = take n bs in
      let whole : front ++ drop n bs ≡ bs = take-drop n bs in
      let long : length front ≡ n = length-take n bs (omega arith) in
      ap (λ l. write_bytewise (b ∷ l) aw) (sym whole)
      ∙ (write_bytewise-append (b ∷ front) (drop n bs) aw
          ∙ ap (write_bytewise (drop n bs))
              (write_bytewise-piece b front aw (h.0, IsBytes-take n bs h.1) (omega arith)))

  chunk_step :
      (fuel n b : ℕ) (bs : Bytes) (aw : ArrowWriter)
      → ((bytes : Bytes) (aw : ArrowWriter)
          → IsBytes bytes
          → length bytes ≤ fuel
          → aw.current_chunk_length < size
          → write_chunks size fuel bytes aw ≡ write_bytewise bytes aw)
      → 0 < size
      → IsBytes (b ∷ bs)
      → length bs ≤ fuel
      → 0 < n
      → n ≤ length (b ∷ bs)
      → aw.current_chunk_length + n ≤ size
      → write_chunks size fuel (drop n (b ∷ bs)) (write_piece size (take n (b ∷ bs)) aw)
        ≡ write_bytewise (b ∷ bs) aw
  chunk_step fuel n b bs aw ih pos_size h enough some_byte within fits =
      let long : length (take n (b ∷ bs)) ≡ n = length-take n (b ∷ bs) within in
      ih (drop n (b ∷ bs)) (write_piece size (take n (b ∷ bs)) aw) (IsBytes-drop n (b ∷ bs) h)
        (omega (arith, length-drop n (b ∷ bs)))
        (write_piece-room (take n (b ∷ bs)) aw pos_size (omega arith))
      ∙ sym (write_bytewise-take n b bs aw h some_byte within fits)

  -- The loop of `Write` writes what the bytes one by one do.
  write_chunks-bytewise :
      (fuel : ℕ) (bytes : Bytes) (aw : ArrowWriter)
      → 0 < size
      → IsBytes bytes
      → length bytes ≤ fuel
      → aw.current_chunk_length < size
      → write_chunks size fuel bytes aw ≡ write_bytewise bytes aw
  unfolding write_chunks min write_bytewise
  write_chunks-bytewise zero [] aw pos_size h enough room = refl
  write_chunks-bytewise zero (b ∷ bs) aw pos_size h enough room = absurd (omega arith)
  write_chunks-bytewise (suc fuel) [] aw pos_size h enough room = refl
  write_chunks-bytewise (suc fuel) (b ∷ bs) aw pos_size h enough room =
      let ih =
        λ (bytes : Bytes) (aw : ArrowWriter) (h : IsBytes bytes) (e : length bytes ≤ fuel)
            (r : aw.current_chunk_length < size).
          write_chunks-bytewise fuel bytes aw pos_size h e r in
      let left = size - aw.current_chunk_length in
      elim (Bool-cases (leb left (suc (length bs)))) [
        | inl less ↦ rw less (
            chunk_step fuel left b bs aw ih pos_size h (omega arith) (omega arith) (ground arith)
              (omega arith))
        | inr all ↦ rw all (
            chunk_step fuel (suc (length bs)) b bs aw ih pos_size h (omega arith) (omega arith)
              (omega arith) (ground arith))
      ]

  write_bytewise-room :
      (bytes : Bytes) (aw : ArrowWriter)
      → aw.current_chunk_length < size
      → (write_bytewise bytes aw).current_chunk_length < size
  unfolding write_bytewise
  write_bytewise-room [] aw room = room
  write_bytewise-room (b ∷ bs) aw room =
      write_bytewise-room bs (write_byte b aw)
        (write_piece-room (b ∷ []) aw (omega arith) (omega arith))

  write_byte-first : (b : ℕ) (aw : ArrowWriter) → (write_byte b aw).first_write ≡ aw.first_write
  unfolding write_piece end_chunk put_uint32
  write_byte-first b aw = elim (Bool-cases (leb size (aw.current_chunk_length + 1))) [
    | inl full ↦ rw full
    | inr open_ ↦ rw open_
  ]

  pub write_bytewise-first :
      (bytes : Bytes) (aw : ArrowWriter) → (write_bytewise bytes aw).first_write ≡ aw.first_write
  unfolding write_bytewise
  write_bytewise-first [] aw = refl
  write_bytewise-first (b ∷ bs) aw =
      write_bytewise-first bs (write_byte b aw) ∙ write_byte-first b aw

  write_header-length :
      (aw : ArrowWriter)
      → ((write_header size aw).current_chunk_length ≡ aw.current_chunk_length)
        × ((write_header size aw).first_write ≡ false)
  unfolding write_header put_uint32
  write_header-length aw = elim (Bool-cases aw.first_write) [
    | inl first ↦ (rw first, rw first)
    | inr other ↦ (rw other, rw other)
  ]

  write_header-later : (aw : ArrowWriter) → aw.first_write ≡ false → write_header size aw ≡ aw
  unfolding write_header
  write_header-later aw h = rw h

  -- `Write` puts the size before its first bytes, and writes what the bytes one by one do.
  pub write_arrow-bytewise :
      (bytes : Bytes) (aw : ArrowWriter)
      → IsBytes bytes
      → aw.current_chunk_length < size
      → write_arrow size bytes aw ≡ write_bytewise bytes (write_header size aw)
  unfolding write_arrow
  write_arrow-bytewise bytes aw h room =
      let (same, later) = write_header-length aw in
      write_chunks-bytewise (length bytes) bytes (write_header size aw) (omega arith) h
        (omega arith) (omega arith)

  -- For chunks of any size but 0, and bytes below 256: one `Write` behind another, from a writer whose
  -- chunk is not full, leaves the writer as one `Write` of both, so that the stream does not depend
  -- on how its bytes are cut into writes.
  pub write_arrow-append :
      (xs ys : Bytes) (aw : ArrowWriter)
      → IsBytes xs
      → IsBytes ys
      → aw.current_chunk_length < size
      → write_arrow size ys (write_arrow size xs aw) ≡ write_arrow size (xs ++ ys) aw
  write_arrow-append xs ys aw h k room =
      let (same, later) = write_header-length aw in
      let start = write_header size aw in
      let front = write_bytewise xs start in
      let once : write_header size front ≡ front =
        write_header-later front (write_bytewise-first xs start ∙ later) in
      rw
        (
          write_arrow-bytewise xs aw h room,
          write_arrow-bytewise (xs ++ ys) aw (IsBytes-append xs ys h k) room,
        )
        (write_arrow-bytewise ys front k (write_bytewise-room xs start (omega arith))
          ∙ (ap (write_bytewise ys) once ∙ sym (write_bytewise-append xs ys start)))
