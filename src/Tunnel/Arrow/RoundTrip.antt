-- ===== src/Tunnel/Arrow/RoundTrip.antt =====
-- Bytes that are written in chunks and read again.
use aliyun_odps_go_sdk.Prelude.{
  ℕ, zero, suc, ◌+◌, ◌≤◌, ◌<◌, ◌^◌, ◌≡◌, ◌≢◌, refl, sym, ap, ◌∙◌, Bool, true, false, ◌&&◌, [], ◌∷◌,
  ◌++◌, arith, length, take, drop, length-drop, length-append, take-drop, take-exact, drop-exact,
  leb, if◌then◌else◌,
}
use aliyun_odps_go_sdk.Words.{Bytes}
use aliyun_odps_go_sdk.Outcome
use aliyun_odps_go_sdk.Outcome.{Outcome, ok, err, panic, out_of_fuel}
use aliyun_odps_go_sdk.Tunnel.StreamReader.{eof}
use aliyun_odps_go_sdk.Tunnel.RoundTrip.Stream.{at}
use aliyun_odps_go_sdk.Tunnel.Crc.Append.{IsBytes}
use aliyun_odps_go_sdk.Tunnel.Arrow.{uint32_to_bytes}
use aliyun_odps_go_sdk.Tunnel.Arrow.Writer.{new_arrow_writer, write_arrow, close_arrow}
use aliyun_odps_go_sdk.Tunnel.Arrow.Reader.{
  ArrowReader, ReadOutcome, io_error, new_arrow_reader, read_rest, read_size, read_chunk, end_read,
  read_round, read_rounds, read_arrow,
}
use aliyun_odps_go_sdk.Tunnel.Arrow.Encoded.{
  encoded, bytes_to_uint32-uint32_to_bytes, length-uint32_to_bytes, write_arrow-encoded,
}
use aliyun_odps_go_sdk.Tunnel.Arrow.Delivers.{on_stream, Holds, read_rest-Loaded}
use aliyun_odps_go_sdk.Tunnel.Arrow.Reads.{Read, after_load-Read, some_space, read_rounds-Read}

-- Successive calls of `Read` up to `io.EOF`, with slices of the lengths `1 + lengths i`, on fuel for
-- the calls; the bytes that they gave, or the first other error.
unfoldable pub after_read_all : (ArrowReader → ReadOutcome) → ReadOutcome → ReadOutcome
after_read_all next (ok piece ar) = Outcome.bind (next ar) λ rest ar'. ok (piece ++ rest) ar'
after_read_all next (err ([], io_error eof) ar) = ok [] ar
after_read_all next (err e ar) = err e ar
after_read_all next (panic fault) = panic fault
after_read_all next out_of_fuel = out_of_fuel

unfoldable pub read_all : ℕ → (ℕ → ℕ) → ℕ → ArrowReader → ReadOutcome
unfolding after_read_all read_arrow
read_all zero lengths i ar = out_of_fuel
read_all (suc fuel) lengths i ar =
    after_read_all (λ ar'. read_all fuel lengths (i + 1) ar') (read_arrow (suc (lengths i)) ar)

module _ (size : ℕ) where
  -- A reader that still has to give `bytes`: a new one, or one that has read.
  data Gives (bytes : Bytes) : ArrowReader → Type 0 where
    new :
        (fuel : ℕ)
        → length bytes ≤ fuel
        → Gives bytes
            (new_arrow_reader (at (uint32_to_bytes size ++ encoded size fuel 0 bytes) eof))
    running : {ar : ArrowReader} → Holds size bytes ar → Gives bytes ar

  read_size-new :
      (stream : Bytes)
      → size < 2 ^ 32
      → read_size (new_arrow_reader (at (uint32_to_bytes size ++ stream) eof))
        ≡ ok tt (on_stream size stream 0 [])
  unfolding read_size new_arrow_reader
  read_size-new stream small =
      let word = uint32_to_bytes size in
      let four = length-uint32_to_bytes size in
      let enough : leb 4 (length (word ++ stream)) ≡ true =
        ground (arith, length-append word stream) in
      rw (
        enough,
        take-exact 4 word stream (sym four),
        drop-exact 4 word stream (sym four),
        bytes_to_uint32-uint32_to_bytes size small,
      )

  at_most_one : (b : Bool) → (if b then 0 else 1) ≤ 1
  at_most_one true = omega arith
  at_most_one false = omega arith

  module _ (some_room : 0 < size) (small : size < 2 ^ 32) where
    read_rounds-new :
        (f k fuel : ℕ) (bytes : Bytes)
        → suc k < f
        → length bytes ≤ fuel
        → Read size [] (suc k) bytes (
            read_rounds
              (suc f)
              (suc k)
              []
              (new_arrow_reader (at (uint32_to_bytes size ++ encoded size fuel 0 bytes) eof)))
    unfolding read_rounds read_round read_chunk new_arrow_reader
    read_rounds-new f k fuel bytes enough le =
        rw (some_space size k, read_size-new (encoded size fuel 0 bytes) small)
          (after_load-Read size f k [] bytes
            (read_rest (on_stream size (encoded size fuel 0 bytes) 0 []))
            (λ s g b a. read_rounds-Read size some_room f s g b a)
            (read_rest-Loaded size fuel 0 bytes some_room le) enough)

    read_arrow-Read :
        (k : ℕ) (bytes : Bytes) (ar : ArrowReader)
        → Gives bytes ar
        → Read size [] (suc k) bytes (read_arrow (suc k) ar)
    unfolding read_arrow
    read_arrow-Read k bytes ar (running h) =
        read_rounds-Read size some_room (suc k + length ar.inner.unread + 3) (suc k) [] bytes ar h
          (omega (arith, at_most_one ar.eof))
    read_arrow-Read k bytes _ (new fuel le) =
        let ar = new_arrow_reader (at (uint32_to_bytes size ++ encoded size fuel 0 bytes) eof) in
        let long = length ar.inner.unread in
        let one_more : suc k + long + 3 ≡ suc (suc k + long + 2) = omega arith in
        rw one_more (read_rounds-new (suc k + long + 2) k fuel bytes (omega arith) le)

    -- What one `Read` does: the next bytes, or `io.EOF` when there are none.
    record Piece (k : ℕ) (bytes : Bytes) (o : ReadOutcome) : Type 0 where
      reader : ArrowReader
      gives : Gives (drop k bytes) reader
      none_left : bytes ≡ [] → o ≡ err ([], io_error eof) reader
      some_left : bytes ≢ [] → o ≡ ok (take k bytes) reader

    ends-eof :
        (k : ℕ) (reader : ArrowReader)
        → reader.eof ≡ true
        → end_read ([] ++ take k []) reader ≡ err ([], io_error eof) reader
    unfolding end_read
    ends-eof zero reader h = rw h
    ends-eof (suc k) reader h = rw h

    ends-ok :
        (k b : ℕ) (bs : Bytes) (reader : ArrowReader)
        → end_read (b ∷ bs) reader ≡ ok (b ∷ bs) reader
    unfolding end_read
    ends-ok k b bs reader = go reader.eof
      where
        go :
            (e : Bool)
            → let ended : ReadOutcome = err ([], io_error eof) reader in
              (if e && false then ended else ok (b ∷ bs) reader) ≡ ok (b ∷ bs) reader
        go true = refl
        go false = refl

    read_arrow-Piece :
        (k : ℕ) (bytes : Bytes) (ar : ArrowReader)
        → Gives bytes ar
        → Piece (suc k) bytes (read_arrow (suc k) ar)
    read_arrow-Piece k [] ar g =
        let r = read_arrow-Read k [] ar g in
        let over = r.over in
        record {
          reader = r.reader;
          gives = running r.holds;
          none_left = λ e. r.ends ∙ ends-eof (suc k) r.reader (over (omega arith));
          some_left = λ ne. absurd (ne refl);
        }
    read_arrow-Piece k (b ∷ bs) ar g =
        let r = read_arrow-Read k (b ∷ bs) ar g in
        record {
          reader = r.reader;
          gives = running r.holds;
          none_left = λ e. cc;
          some_left = λ ne. r.ends ∙ ends-ok k b (take k bs) r.reader;
        }

    read_all-Gives :
        (fuel : ℕ) (lengths : ℕ → ℕ) (i : ℕ) (bytes : Bytes) (ar : ArrowReader)
        → Gives bytes ar
        → length bytes < fuel
        → (ar' : ArrowReader) × (read_all fuel lengths i ar ≡ ok bytes ar')
    unfolding read_all after_read_all
    read_all-Gives zero lengths i bytes ar g enough = absurd (omega arith)
    read_all-Gives (suc fuel) lengths i [] ar g enough =
        let p = read_arrow-Piece (lengths i) [] ar g in
        let none_left = p.none_left in (p.reader, rw (none_left refl))
    read_all-Gives (suc fuel) lengths i (b ∷ bs) ar g enough =
        let k = suc (lengths i) in
        let p = read_arrow-Piece (lengths i) (b ∷ bs) ar g in
        let some_left = p.some_left in
        let got : read_arrow k ar ≡ ok (take k (b ∷ bs)) p.reader = some_left (cc) in
        let (ar', rest) =
          read_all-Gives fuel lengths (i + 1) (drop k (b ∷ bs)) p.reader p.gives
            (omega (arith, length-drop k (b ∷ bs))) in
        (ar', rw (got, rest) (ap (λ l. ok l ar') (take-drop k (b ∷ bs))))

    -- For chunks of any size from 1 to 2^32 - 1: what a new writer writes of any bytes and then closes is
    -- read back by a new reader, in `Read`s with slices of any lengths but 0, as exactly those bytes up
    -- to `io.EOF`, in as many calls as there are bytes and one at most, and every checksum agrees.
    pub read_all-write_arrow :
        (bytes : Bytes) (lengths : ℕ → ℕ)
        → IsBytes bytes
        → (ar : ArrowReader) × (read_all (suc (length bytes)) lengths 0 (
              new_arrow_reader (at (close_arrow (write_arrow size bytes new_arrow_writer)).out eof))
            ≡ ok bytes ar)
    read_all-write_arrow bytes lengths h = rw (write_arrow-encoded size bytes some_room h) (
        read_all-Gives (suc (length bytes)) lengths 0 bytes _ (new (length bytes) (omega arith))
          (omega arith))
