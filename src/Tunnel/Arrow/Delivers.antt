-- ===== src/Tunnel/Arrow/Delivers.antt =====
-- The reads of a stream of chunks.
use aliyun_odps_go_sdk.Prelude.{
  ℕ, zero, suc, ◌+◌, ◌-◌, ◌≤◌, ◌<◌, ◌≡◌, refl, sym, true, false, [], ◌++◌, arith, length, take,
  drop, length-drop, length-append, take-exact, drop-exact, take-drop, length-take, leb, ltb, ◌==◌,
  append_assoc, if◌then◌else◌, Bool-cases, inl, inr, ◌⊎◌,
}
use aliyun_odps_go_sdk.Words.{Bytes}
use aliyun_odps_go_sdk.Outcome.{Outcome, ok}
use aliyun_odps_go_sdk.Tunnel.Crc.{crc_update, crc_update_lt}
use aliyun_odps_go_sdk.Tunnel.StreamReader.{eof}
use aliyun_odps_go_sdk.Tunnel.RoundTrip.Stream.{at}
use aliyun_odps_go_sdk.Tunnel.Arrow.{uint32_to_bytes, bytes_to_uint32}
use aliyun_odps_go_sdk.Tunnel.Arrow.Reader.{
  ArrowReader, ArrowError, whole_chunk, last_chunk, short_chunk, read_rest,
}
use aliyun_odps_go_sdk.Tunnel.Arrow.Encoded.{
  encoded, bytes_to_uint32-uint32_to_bytes, length-uint32_to_bytes,
}

module _ (size : ℕ) where
  abbrev pub on_stream : Bytes → ℕ → Bytes → ArrowReader
  on_stream stream sum pending = record {
    inner = at stream eof;
    global_crc = sum;
    chunk_size = size + 4;
    pending = pending;
    first_read = false;
    eof = false;
  }

  abbrev pub on_last : Bytes → ArrowReader
  on_last pending = record {
    inner = at [] eof;
    global_crc = 0;
    chunk_size = size + 4;
    pending = pending;
    first_read = false;
    eof = true;
  }

  whole_chunk-ok :
      (front : Bytes) (ar : ArrowReader)
      → ar.chunk_size - 4 ≡ length front
      → whole_chunk (front ++ uint32_to_bytes (crc_update 0 front)) ar
        ≡ ok tt (record ar { pending = front; global_crc = crc_update ar.global_crc front })
  unfolding whole_chunk
  whole_chunk-ok front ar e =
      let sum = crc_update 0 front in
      let read_back : bytes_to_uint32 (uint32_to_bytes sum) ≡ sum =
        bytes_to_uint32-uint32_to_bytes sum (crc_update_lt 0 front) in
      let same : (sum == sum) ≡ true = ground arith in
      rw (
        take-exact (ar.chunk_size - 4) front (uint32_to_bytes sum) e,
        drop-exact (ar.chunk_size - 4) front (uint32_to_bytes sum) e,
        read_back,
        same,
      )

  last_chunk-ok :
      (bytes : Bytes) (ar : ArrowReader)
      → last_chunk (bytes ++ uint32_to_bytes (crc_update ar.global_crc bytes)) ar
        ≡ ok tt (record ar { eof = true; pending = bytes; global_crc = 0 })
  unfolding last_chunk
  last_chunk-ok bytes ar =
      let sum = crc_update ar.global_crc bytes in
      let word = uint32_to_bytes sum in
      let read_back : bytes_to_uint32 word ≡ sum =
        bytes_to_uint32-uint32_to_bytes sum (crc_update_lt ar.global_crc bytes) in
      let same : (sum == sum) ≡ true = ground arith in
      let four = length-uint32_to_bytes sum in
      let enough : ltb (length (bytes ++ word)) 4 ≡ false =
        ground (arith, length-append bytes word) in
      let e : length (bytes ++ word) - 4 ≡ length bytes = omega (arith, length-append bytes word) in
      rw (
        enough,
        take-exact (length (bytes ++ word) - 4) bytes word e,
        drop-exact (length (bytes ++ word) - 4) bytes word e,
        read_back,
        same,
      )

  read_rest-whole :
      (front rest : Bytes) (sum : ℕ)
      → length front ≡ size
      → read_rest (on_stream (front ++ (uint32_to_bytes (crc_update 0 front) ++ rest)) sum [])
        ≡ ok tt (on_stream rest (crc_update sum front) front)
  unfolding read_rest
  read_rest-whole front rest sum whole =
      let word = uint32_to_bytes (crc_update 0 front) in
      let four = length-uint32_to_bytes (crc_update 0 front) in
      let long : size + 4 ≡ length (front ++ word) = omega (arith, length-append front word) in
      let enough : leb (size + 4) (length ((front ++ word) ++ rest)) ≡ true =
        ground (arith, length-append (front ++ word) rest) in
      rw
        (
          sym (append_assoc front word rest),
          enough,
          take-exact (size + 4) (front ++ word) rest long,
          drop-exact (size + 4) (front ++ word) rest long,
        )
        (whole_chunk-ok front (on_stream rest sum []) (omega arith))

  read_rest-last :
      (bytes : Bytes) (sum : ℕ)
      → length bytes < size
      → read_rest (on_stream (bytes ++ uint32_to_bytes (crc_update sum bytes)) sum [])
        ≡ ok tt (on_last bytes)
  unfolding read_rest short_chunk
  read_rest-last bytes sum short =
      let word = uint32_to_bytes (crc_update sum bytes) in
      let four = length-uint32_to_bytes (crc_update sum bytes) in
      let less : leb (size + 4) (length (bytes ++ word)) ≡ false =
        ground (arith, length-append bytes word) in
      rw less (last_chunk-ok bytes (on_stream [] sum []))

  -- The reader still has to give the bytes `bytes`: those pending in its chunk, and those of the stream.
  pub data Holds (bytes : Bytes) : ArrowReader → Type 0 where
    more :
        (pending rest : Bytes) (fuel sum : ℕ)
        → length rest ≤ fuel
        → bytes ≡ pending ++ rest
        → Holds bytes (on_stream (encoded size fuel sum rest) sum pending)
    last : (pending : Bytes) → bytes ≡ pending → Holds bytes (on_last pending)

  abbrev pub rounds_left : ArrowReader → ℕ
  rounds_left ar = if ar.eof then 0 else 1

  pub record Loaded (bytes : Bytes) (r : Outcome ArrowReader ArrowError (Unit {0})) : Type 0 where
    pub reader : ArrowReader
    pub loaded : r ≡ ok tt reader
    pub holds : Holds bytes reader
    -- the stream has ended, or there are pending bytes
    pub moves : (reader.eof ≡ true) ⊎ (0 < length reader.pending)

  pub read_rest-Loaded :
      (fuel sum : ℕ) (rest : Bytes)
      → 0 < size
      → length rest ≤ fuel
      → Loaded rest (read_rest (on_stream (encoded size fuel sum rest) sum []))
  unfolding encoded
  read_rest-Loaded zero sum rest some_room enough = record {
    reader = on_last rest;
    loaded = read_rest-last rest sum (omega arith);
    holds = last rest refl;
    moves = inl refl;
  }
  read_rest-Loaded (suc fuel) sum rest some_room enough =
      elim (Bool-cases (ltb (length rest) size)) [
        | inl short ↦ rw short (record {
          reader = on_last rest;
          loaded = read_rest-last rest sum (ground arith);
          holds = last rest refl;
          moves = inl refl;
        })
        | inr long ↦
            let front = take size rest in
            let back = drop size rest in
            let whole : length front ≡ size = length-take size rest (ground arith) in
            rw long (record {
              reader =
                  on_stream (encoded size fuel (crc_update sum front) back) (crc_update sum front)
                    front;
              loaded =
                  read_rest-whole front (encoded size fuel (crc_update sum front) back) sum whole;
              holds =
                  more front back fuel (crc_update sum front) (omega (arith, length-drop size rest))
                    (sym (take-drop size rest));
              moves = inr (omega arith);
            })
      ]
