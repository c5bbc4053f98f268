-- ===== src/Tunnel/Arrow/Reads.antt =====
-- What `Read` returns of a stream of chunks.
use aliyun_odps_go_sdk.Prelude.{
  ℕ, zero, suc, ◌+◌, ◌-◌, ◌≤◌, ◌<◌, ◌≡◌, refl, sym, ap, ◌∙◌, Bool, true, false, [], ◌∷◌, ◌++◌,
  arith, length, take, drop, length-drop, length-append, take_split, drop_split, take-prefix,
  drop-prefix, leb, ◌==◌, append_assoc, append-nil, if◌then◌else◌, Bool-cases, inl, inr, ◌⊎◌,
}
use aliyun_odps_go_sdk.Words.{Bytes}
use aliyun_odps_go_sdk.Outcome.{Outcome}
use aliyun_odps_go_sdk.Tunnel.Schema.{min}
use aliyun_odps_go_sdk.Tunnel.Arrow.Reader.{
  ArrowReader, ArrowError, ReadOutcome, read_rest, read_chunk, end_read, copy_pending, after_chunk,
  read_round, read_rounds,
}
use aliyun_odps_go_sdk.Tunnel.Arrow.Encoded.{encoded}
use aliyun_odps_go_sdk.Tunnel.Arrow.Delivers.{
  on_stream, on_last, Holds, more, last, Loaded, rounds_left, read_rest-Loaded,
}

pub min_le : (x y : ℕ) → (min x y ≤ x) × (min x y ≤ y) × ((min x y ≡ x) ⊎ (min x y ≡ y))
unfolding min
min_le x y = elim (Bool-cases (leb x y)) [
  | inl less ↦ (rw less (omega arith), rw less (ground arith), inl (rw less))
  | inr greater ↦ (rw greater (ground arith), rw greater (omega arith), inr (rw greater))
]

module _ (size : ℕ) where
  copied :
      {bytes : Bytes} {ar : ArrowReader} (n : ℕ)
      → n ≤ length ar.pending
      → Holds size bytes ar
      → Holds size (drop n bytes) (record ar { pending = drop n ar.pending })
  copied n h (more pending rest fuel sum enough e) =
      more (drop n pending) rest fuel sum enough (rw e (drop-prefix n pending rest h))
  copied n h (last pending e) = last (drop n pending) (rw e)

  taken :
      {bytes : Bytes} {ar : ArrowReader} (n : ℕ)
      → n ≤ length ar.pending
      → Holds size bytes ar
      → take n ar.pending ≡ take n bytes
  taken n h (more pending rest fuel sum enough e) = rw e (sym (take-prefix n pending rest h))
  taken n h (last pending e) = rw e

  long_enough :
      {bytes : Bytes} {ar : ArrowReader} → Holds size bytes ar → length ar.pending ≤ length bytes
  long_enough (more pending rest fuel sum enough e) =
      rw e (omega (arith, length-append pending rest))
  long_enough (last pending e) = rw e (omega arith)

  -- A run of the loop of `Read`: the bytes that it adds, the reader that it leaves, and what the part
  -- behind the loop makes of both. When more was asked for than there is, the stream has ended.
  pub record Read (got : Bytes) (space : ℕ) (bytes : Bytes) (o : ReadOutcome) : Type 0 where
    pub reader : ArrowReader
    pub holds : Holds size (drop space bytes) reader
    pub ends : o ≡ end_read (got ++ take space bytes) reader
    pub over : length bytes < space → reader.eof ≡ true

  copy-Read :
      (next : ℕ → Bytes → ArrowReader → ReadOutcome) (space : ℕ) (got bytes : Bytes)
      (ar : ArrowReader)
      → Holds size bytes ar
      → (let n = min space (length ar.pending) in
          Read (got ++ take n ar.pending) (space - n) (drop n bytes) (
            next
              (space - n)
              (got ++ take n ar.pending)
              (record ar { pending = drop n ar.pending })))
      → Read got space bytes (copy_pending next space got ar)
  unfolding copy_pending
  copy-Read next space got bytes ar h r =
      let n = min space (length ar.pending) in
      let (below, inside, which) = min_le space (length ar.pending) in
      let within = long_enough h in
      let same : take n ar.pending ≡ take n bytes = taken n inside h in
      let front : (got ++ take n ar.pending) ++ take (space - n) (drop n bytes)
          ≡ got ++ take space bytes =
        append_assoc got (take n ar.pending) (take (space - n) (drop n bytes))
        ∙ ap (λ l. got ++ l) (rw same (take_split n space bytes below)) in
      let over = r.over in
      record {
        reader = r.reader;
        holds = rw (sym (drop_split n space bytes below)) r.holds;
        ends = r.ends ∙ ap (λ l. end_read l r.reader) front;
        over = λ short. over (omega (arith, length-drop n bytes));
      }

  none_left :
      (got : Bytes) (ar : ArrowReader) (bytes : Bytes)
      → Holds size bytes ar
      → Read got 0 bytes (end_read got ar)
  none_left got ar bytes h = record {
    reader = ar;
    holds = h;
    ends = rw (append-nil got);
    over = λ short. absurd (omega arith);
  }

  -- The rounds behind a copy, given that they are right for less fuel.
  copy_rounds :
      (fuel space : ℕ) (got bytes : Bytes) (ar : ArrowReader)
      → ((space : ℕ) (got bytes : Bytes) (ar : ArrowReader)
          → Holds size bytes ar
          → space + rounds_left size ar < fuel
          → Read got space bytes (read_rounds fuel space got ar))
      → Holds size bytes ar
      → space - min space (length ar.pending) + rounds_left size ar < fuel
      → Read got space bytes
          (copy_pending (λ space' got' ar'. read_rounds fuel space' got' ar') space got ar)
  copy_rounds fuel space got bytes ar ih h enough =
      let n = min space (length ar.pending) in
      let (below, inside, which) = min_le space (length ar.pending) in
      copy-Read (λ space' got' ar'. read_rounds fuel space' got' ar') space got bytes ar h
        (ih (space - n) (got ++ take n ar.pending) (drop n bytes)
          (record ar { pending = drop n ar.pending }) (copied n inside h) enough)

  min_pos : (x y : ℕ) → 0 < x → 0 < y → 0 < min x y
  min_pos x y h k = elim (min_le x y).2 [ inl e ↦ rw e h | inr e ↦ rw e k ]

  pub after_load-Read :
      (fuel k : ℕ) (got bytes : Bytes) (r : Outcome ArrowReader ArrowError (Unit {0}))
      → ((space : ℕ) (got bytes : Bytes) (ar : ArrowReader)
          → Holds size bytes ar
          → space + rounds_left size ar < fuel
          → Read got space bytes (read_rounds fuel space got ar))
      → Loaded size bytes r
      → suc k < fuel
      → Read got
          (suc k)
          bytes
          (after_chunk (λ space' got' ar'. read_rounds fuel space' got' ar') (suc k) got r)
  unfolding after_chunk
  after_load-Read fuel k got bytes r ih l enough =
      rw (l.loaded) (copy_rounds fuel (suc k) got bytes l.reader ih l.holds (go l.moves))
    where
      ended : (b : Bool) → b ≡ true → (if b then 0 else 1) ≤ 0
      ended true h = omega arith
      ended false h = cc

      one_round : (b : Bool) → (if b then 0 else 1) ≤ 1
      one_round true = omega arith
      one_round false = omega arith

      go :
          (l.reader.eof ≡ true) ⊎ (0 < length l.reader.pending)
          → suc k - min (suc k) (length l.reader.pending) + rounds_left size l.reader < fuel
      go (inl h) = omega (arith, ended l.reader.eof h)
      go (inr h) =
          omega (
            arith,
            one_round l.reader.eof,
            min_pos (suc k) (length l.reader.pending) (omega arith) h,
          )

  pub some_space : (k : ℕ) → (suc k == 0) ≡ false
  some_space k = ground arith

  module _ (some_room : 0 < size) where
    pub read_rounds-Read :
        (fuel space : ℕ) (got bytes : Bytes) (ar : ArrowReader)
        → Holds size bytes ar
        → space + rounds_left size ar < fuel
        → Read got space bytes (read_rounds fuel space got ar)
    unfolding read_rounds read_round read_chunk
    read_rounds-Read zero space got bytes ar h enough = absurd (omega arith)
    read_rounds-Read (suc fuel) zero got bytes ar h enough = none_left got ar bytes h
    read_rounds-Read (suc fuel) (suc k) got bytes _ (last [] e) enough = rw (some_space k) (record {
      reader = on_last size [];
      holds = last [] (rw e);
      ends = rw (e, append-nil got);
      over = λ short. refl;
    })
    read_rounds-Read (suc fuel) (suc k) got bytes _ (last (p ∷ ps) e) enough = rw (some_space k) (
        copy_rounds fuel (suc k) got bytes (on_last size (p ∷ ps))
          (λ s g b a. read_rounds-Read fuel s g b a) (last (p ∷ ps) e)
          (omega (arith, min_pos (suc k) (suc (length ps)) (omega arith) (omega arith))))
    read_rounds-Read (suc fuel) (suc k) got bytes _ (more (p ∷ ps) rest f sum le e) enough =
        rw (some_space k) (
          copy_rounds fuel (suc k) got bytes (on_stream size (encoded size f sum rest) sum (p ∷ ps))
            (λ s g b a. read_rounds-Read fuel s g b a) (more (p ∷ ps) rest f sum le e)
            (omega (arith, min_pos (suc k) (suc (length ps)) (omega arith) (omega arith))))
    read_rounds-Read (suc fuel) (suc k) got bytes _ (more [] rest f sum le e) enough =
        rw (e, some_space k)
          (after_load-Read fuel k got rest
            (read_rest (on_stream size (encoded size f sum rest) sum []))
            (λ s g b a. read_rounds-Read fuel s g b a)
            (read_rest-Loaded size f sum rest some_room le) (omega arith))
