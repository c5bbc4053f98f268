-- ===== src/Tunnel/Arrow/Loads.antt =====
-- Loading a chunk of a broken or a whole stream: what it takes of the stream.
use aliyun_odps_go_sdk.Prelude.{
  ℕ, ◌+◌, ◌-◌, ◌≤◌, ◌<◌, ◌≡◌, refl, Bool, true, false, [], arith, length, take, drop, length-drop,
  ltb, leb, ◌==◌, if◌then◌else◌, inl, inr, ◌⊎◌,
}
use aliyun_odps_go_sdk.Words.{Bytes}
use aliyun_odps_go_sdk.Outcome
use aliyun_odps_go_sdk.Outcome.{Outcome, ok, err}
use aliyun_odps_go_sdk.Tunnel.StreamReader.{IoError, eof, unexpected_eof, broken}
use aliyun_odps_go_sdk.Tunnel.Crc.{crc_update}
use aliyun_odps_go_sdk.Tunnel.Arrow.{bytes_to_uint32}
use aliyun_odps_go_sdk.Tunnel.Arrow.Reader.{
  ArrowReader, ArrowError, ArrowOutcome, whole_chunk, last_chunk, short_chunk, read_rest, read_size,
  read_chunk,
}

-- A reader between two calls: it has not begun, or knows the length of a chunk and its checksum.
abbrev pub IsOpen : ArrowReader → Type 0
IsOpen ar = (ar.first_read ≡ true) ⊎ (4 ≤ ar.chunk_size)

abbrev pub end_left : Bool → ℕ
end_left true = 0
end_left false = 1

-- What is left to do but to fill the slice: the bytes of the stream, and its end.
abbrev pub left : ArrowReader → ℕ
left ar = length ar.inner.unread + end_left ar.eof

pub if_cases :
    {A : Type 0} (P : A → Type 0) (b : Bool) {x y : A}
    → (b ≡ true → P x)
    → (b ≡ false → P y)
    → P (if b then x else y)
if_cases P true h k = h refl
if_cases P false h k = k refl

-- A chunk is loaded, or is refused; loading one takes bytes of the stream or its end.
pub data Loads (n : ℕ) : ArrowOutcome (Unit {0}) → Type 0 where
  loads : {ar : ArrowReader} → IsOpen ar → left ar < n → Loads n (ok tt ar)
  refused : {e : ArrowError} {ar : ArrowReader} → IsOpen ar → Loads n (err e ar)

Loads-if :
    {n : ℕ} (b : Bool) {x y : ArrowOutcome (Unit {0})}
    → Loads n x
    → Loads n y
    → Loads n (if b then x else y)
Loads-if true h k = h
Loads-if false h k = k

last_chunk-Loads :
    (n : ℕ) (buf : Bytes) (ar : ArrowReader)
    → IsOpen ar
    → length ar.inner.unread < n
    → Loads n (last_chunk buf ar)
unfolding last_chunk
last_chunk-Loads n buf ar h lt = Loads-if (ltb (length buf) 4) (refused h) (
    Loads-if
      (bytes_to_uint32 (drop (length buf - 4) buf)
        == crc_update ar.global_crc (take (length buf - 4) buf))
      (loads h (omega arith)) (refused h))

short_chunk-Loads :
    (n : ℕ) (e : IoError) (buf : Bytes) (ar : ArrowReader)
    → IsOpen ar
    → length ar.inner.unread < n
    → Loads n (short_chunk e buf ar)
unfolding short_chunk
short_chunk-Loads n broken buf ar h lt = refused h
short_chunk-Loads n eof buf ar h lt = last_chunk-Loads n buf ar h lt
short_chunk-Loads n unexpected_eof buf ar h lt = last_chunk-Loads n buf ar h lt

whole_chunk-Loads :
    (n : ℕ) (buf : Bytes) (ar : ArrowReader)
    → IsOpen ar
    → left ar < n
    → Loads n (whole_chunk buf ar)
unfolding whole_chunk
whole_chunk-Loads n buf ar h lt =
    Loads-if
      (bytes_to_uint32 (drop (ar.chunk_size - 4) buf)
        == crc_update 0 (take (ar.chunk_size - 4) buf))
      (loads h lt) (refused h)

-- The part of `ReadChunk` behind the size.
read_rest-Loads :
    (ar : ArrowReader)
    → 4 ≤ ar.chunk_size
    → ar.eof ≡ false
    → Loads (length ar.inner.unread + 1) (read_rest ar)
unfolding read_rest
read_rest-Loads ar big going =
    let unread = ar.inner.unread in
    let one : end_left ar.eof ≡ 1 = rw going in
    if_cases (Loads (length unread + 1)) (leb ar.chunk_size (length unread))
      (λ enough.
        let within : ar.chunk_size ≤ length unread = ground arith in
        let ar' : ArrowReader = record ar {
          inner = record (ar.inner) { unread = drop ar.chunk_size unread };
          pending = [];
        } in
        whole_chunk-Loads (length unread + 1) (take ar.chunk_size unread) ar' (inr big)
          (omega (arith, length-drop ar.chunk_size unread, one)))
      (λ short.
        let ar' : ArrowReader = record ar {
          inner = record (ar.inner) { unread = [] };
          pending = [];
        } in
        short_chunk-Loads (length unread + 1) ar.inner.ending unread ar' (inr big) (omega arith))

Loads-weaken : {n m : ℕ} {o : ArrowOutcome (Unit {0})} → n ≤ m → Loads n o → Loads m o
Loads-weaken le (loads h lt) = loads h (omega arith)
Loads-weaken le (refused h) = refused h

size_known : (ar : ArrowReader) → IsOpen ar → ar.first_read ≡ false → 4 ≤ ar.chunk_size
size_known ar (inl first) later = absurd (let bad : ⊥ = cc in bad)
size_known ar (inr big) later = big

read_size-Loads :
    (ar : ArrowReader)
    → IsOpen ar
    → ar.eof ≡ false
    → Loads (length ar.inner.unread + 1) (Outcome.bind (read_size ar) (λ _ ar'. read_rest ar'))
unfolding read_size
read_size-Loads ar h going =
    let unread = ar.inner.unread in
    let ar' : ArrowReader = record ar {
      inner = record (ar.inner) { unread = drop 4 unread };
      chunk_size = bytes_to_uint32 (take 4 unread) + 4;
      first_read = false;
    } in
    let cut : ArrowReader = record ar { inner = record (ar.inner) { unread = [] } } in
    if_cases
      (λ (o : ArrowOutcome (Unit {0})).
        Loads (length unread + 1) (Outcome.bind o (λ _ ar'. read_rest ar')))
      (leb 4 (length unread))
      (λ enough.
        Loads-weaken (omega (arith, length-drop 4 unread))
          (read_rest-Loads ar' (omega arith) going))
      (λ short. refused h)

pub read_chunk-Loads :
    (ar : ArrowReader)
    → IsOpen ar
    → ar.eof ≡ false
    → Loads (length ar.inner.unread + 1) (read_chunk ar)
unfolding read_chunk read_size
read_chunk-Loads ar h going =
    if_cases (Loads (length ar.inner.unread + 1)) ar.first_read
      (λ first. read_size-Loads ar h going)
      (λ later. read_rest-Loads ar (size_known ar h later) going)
