-- ===== src/Tunnel/Pack/Calls.antt =====
-- The calls of a pack, taken apart by how they end.
use aliyun_odps_go_sdk.Prelude.{
  ◌≡◌, refl, subst, Bool, true, false, not, ◌&&◌, Option, none, some, List, [], if◌then◌else◌,
  arith,
}
use aliyun_odps_go_sdk.Prelude.Int.{ℤ, pos, ◌+ℤ◌, eqb_ℤ}
use aliyun_odps_go_sdk.Text.{Text}
use aliyun_odps_go_sdk.Words.{Bytes}
use aliyun_odps_go_sdk.Outcome.{Outcome, ok, err, panic, out_of_fuel, Fault}
use aliyun_odps_go_sdk.Data.{Record}
use aliyun_odps_go_sdk.Tunnel.Protowire.{Protowire}
use aliyun_odps_go_sdk.Tunnel.Writer.{Column, RecordWriter, WriteError, write, close}
use aliyun_odps_go_sdk.Tunnel.Pack.{
  Pack, PackError, PackOutcome, Answer, unsuccessful_flush, unsuccessful_append, sending, new_pack,
  reset, fail_append, after_write, after_check, after_send, after_close, unless_failed,
  append_checked, append, send, close_and_send, flush,
}

module _ {N E : Type 0} where
  -- A call of `Append` that failed keeps its error, and counts no record.
  pub record Failed (p : Pack N E) (e : PackError E) (p' : Pack N E) : Type 0 where
    pub kept : p'.append_err ≡ some e
    pub count : p'.record_count ≡ p.record_count
    pub mark : p'.flushing ≡ p.flushing

  pub after_write-ok :
      (o : Outcome RecordWriter WriteError (Unit {0})) (p : Pack N E) {p' : Pack N E}
      → after_write o p ≡ ok tt p'
      → (q : RecordWriter) × (o ≡ ok tt q)
        × (p' ≡ record p { protoc = q; record_count = p.record_count +ℤ pos 1 })
  unfolding after_write
  after_write-ok (ok _ q) p e = (q, refl, cc)
  after_write-ok (err x q) p e = cc
  after_write-ok (panic fault) p e = cc
  after_write-ok out_of_fuel p e = cc

  pub after_write-err :
      (o : Outcome RecordWriter WriteError (Unit {0})) (p : Pack N E) {x : PackError E}
      {p' : Pack N E}
      → after_write o p ≡ err x p'
      → Failed p x p'
  unfolding after_write
  after_write-err (ok _ q) p e = cc
  after_write-err (err y q) p e = record {
    kept = ground arith;
    count = ground arith;
    mark = ground arith;
  }
  after_write-err (panic fault) p e = cc
  after_write-err out_of_fuel p e = cc

  pub after_check-ok :
      (o : Outcome (Unit {0}) (PackError E) (Unit {0}))
      (next : Pack N E → PackOutcome N E (Unit {0})) (p : Pack N E) {p' : Pack N E}
      → after_check o next p ≡ ok tt p'
      → next p ≡ ok tt p'
  unfolding after_check fail_append
  after_check-ok (ok _ _) next p e = e
  after_check-ok (err x _) next p e = cc
  after_check-ok (panic fault) next p e = cc
  after_check-ok out_of_fuel next p e = cc

  pub after_check-err :
      (o : Outcome (Unit {0}) (PackError E) (Unit {0}))
      (next : Pack N E → PackOutcome N E (Unit {0})) (p : Pack N E) {x : PackError E}
      {p' : Pack N E}
      → after_check o next p ≡ err x p'
      → ((next p ≡ err x p') → Failed p x p')
      → Failed p x p'
  unfolding after_check fail_append
  after_check-err (ok _ _) next p e h = h e
  after_check-err (err y _) next p e h = record {
    kept = ground arith;
    count = ground arith;
    mark = ground arith;
  }
  after_check-err (panic fault) next p e h = cc
  after_check-err out_of_fuel next p e h = cc

  module _ (w : Protowire) (columns : List Column) where
    module _ (values : Record) (p : Pack N E)
        (o : Outcome (Unit {0}) (PackError E) (Unit {0})) where
      abbrev append_if : Bool → PackOutcome N E (Unit {0})
      append_if flushing =
          if flushing
          then fail_append unsuccessful_flush p
          else after_check o (append_checked w columns values) p

      append_if-ok :
          (b : Bool) {p' : Pack N E}
          → append_if b ≡ ok tt p'
          → (b ≡ false)
            × (q : RecordWriter) × (write w values p.protoc ≡ ok tt q)
            × (p' ≡ record p { protoc = q; record_count = p.record_count +ℤ pos 1 })
      unfolding fail_append append_checked
      append_if-ok true e = cc
      append_if-ok false e =
          let (q, written, after) =
            after_write-ok (write w values p.protoc) p (after_check-ok o _ p e) in
          (refl, q, written, after)

      append_if-err :
          (b : Bool) {x : PackError E} {p' : Pack N E} → append_if b ≡ err x p' → Failed p x p'
      unfolding fail_append append_checked
      append_if-err true e = record {
        kept = ground arith;
        count = ground arith;
        mark = ground arith;
      }
      append_if-err false e =
          after_check-err o (append_checked w columns values) p e
            λ e'. after_write-err (write w values p.protoc) p e'

    -- What a call of `Append` with no error did.
    pub append-ok :
        (allow : Bool) (values : Record) (p : Pack N E) {p' : Pack N E}
        → append w columns allow values p ≡ ok tt p'
        → (p.flushing ≡ false)
          × (q : RecordWriter) × (write w values p.protoc ≡ ok tt q)
          × (p' ≡ record p { protoc = q; record_count = p.record_count +ℤ pos 1 })
    unfolding append
    append-ok allow values p e = append_if-ok values p _ p.flushing e

    pub append-err :
        (allow : Bool) (values : Record) (p : Pack N E) {x : PackError E} {p' : Pack N E}
        → append w columns allow values p ≡ err x p'
        → Failed p x p'
    unfolding append
    append-err allow values p e = append_if-err values p _ p.flushing e

    -- Of a pack with records, the stream that a flush sends: the one that it closes, or the one closed
    -- before.
    pub data Ready (p : Pack N E) (q : RecordWriter) : Type 0 where
      now :
          eqb_ℤ p.record_count (pos 0) ≡ false
          → p.flushing ≡ false
          → close w p.protoc ≡ ok tt q
          → Ready p q
      before :
          eqb_ℤ p.record_count (pos 0) ≡ false
          → (not p.flushing && not p.protoc.closed) ≡ false
          → q ≡ p.protoc
          → Ready p q

    module _ (flush_stream : Bytes → ℤ → N → Outcome N E (Text × ℤ)) where
      -- A flush that returned no error: it had nothing to send, or the session sent the stream.
      pub data Flushed (p : Pack N E) (a : Answer) (p' : Pack N E) : Type 0 where
        nothing :
            eqb_ℤ p.record_count (pos 0) ≡ true → a ≡ ([], pos 0, pos 0) → p' ≡ p → Flushed p a p'
        sent :
            (q : RecordWriter) (id : Text) (n : ℤ) (session : N)
            → Ready p q
            → flush_stream q.out p.record_count p.session ≡ ok (id, n) session
            → a ≡ (id, p.record_count, n)
            → p' ≡ new_pack columns session
            → Flushed p a p'

      -- A flush that returned an error: it was refused, or the session did not send the stream.
      pub data Unsent (p : Pack N E) (x : PackError E) (p' : Pack N E) : Type 0 where
        refused_after : x ≡ unsuccessful_append → p' ≡ p → Unsent p x p'
        not_sent :
            (q : RecordWriter) (y : E) (session : N)
            → p.append_err ≡ none
            → Ready p q
            → flush_stream q.out p.record_count p.session ≡ err y session
            → x ≡ sending y
            → p' ≡ record p { session = session; protoc = q; flushing = true }
            → Unsent p x p'

      -- Either of them, of an outcome.
      pub data Ended (p : Pack N E) : PackOutcome N E Answer → Type 0 where
        ended :
            {a : Answer} {p' : Pack N E} → p.append_err ≡ none → Flushed p a p' → Ended p (ok a p')
        failed : {x : PackError E} {p' : Pack N E} → Unsent p x p' → Ended p (err x p')
        panicked : {fault : Fault} → Ended p (panic fault)
        no_fuel : Ended p out_of_fuel

      after_send-Ended :
          (p : Pack N E) (q : RecordWriter) (o : Outcome N E (Text × ℤ))
          → p.append_err ≡ none
          → Ready p q
          → flush_stream q.out p.record_count p.session ≡ o
          → Ended p (after_send columns o (record p { protoc = q; flushing = true }))
      unfolding after_send reset new_pack
      after_send-Ended p q (ok (id, n) session) free r e =
          ended free (sent q id n session r e refl refl)
      after_send-Ended p q (err y session) free r e =
          failed (not_sent q y session free r e refl refl)
      after_send-Ended p q (panic fault) free r e = panicked
      after_send-Ended p q out_of_fuel free r e = no_fuel

      send-Ended :
          (p : Pack N E) (q : RecordWriter)
          → p.append_err ≡ none
          → Ready p q
          → Ended p (send w columns flush_stream (record p { protoc = q }))
      unfolding send
      send-Ended p q free r =
          after_send-Ended p q (flush_stream q.out p.record_count p.session) free r refl

      after_close-Ended :
          (p : Pack N E) (o : Outcome RecordWriter WriteError (Unit {0}))
          → p.append_err ≡ none
          → eqb_ℤ p.record_count (pos 0) ≡ false
          → p.flushing ≡ false
          → p.protoc.closed ≡ false
          → close w p.protoc ≡ o
          → Ended p (after_close o (send w columns flush_stream) p)
      unfolding after_close close
      after_close-Ended p (ok _ q) free some_record h k e =
          send-Ended p q free (now some_record h e)
      after_close-Ended p (err x q) free some_record h k e = cc (rw k at e)
      after_close-Ended p (panic fault) free some_record h k e = panicked
      after_close-Ended p out_of_fuel free some_record h k e = no_fuel

      close_if-Ended :
          (p : Pack N E) (b c : Bool)
          → p.append_err ≡ none
          → eqb_ℤ p.record_count (pos 0) ≡ false
          → p.flushing ≡ b
          → p.protoc.closed ≡ c
          → Ended p (
              if not b && not c
              then after_close (close w p.protoc) (send w columns flush_stream) p
              else send w columns flush_stream p)
      close_if-Ended p true c free some_record h k =
          send-Ended p p.protoc free (before some_record (rw h) refl)
      close_if-Ended p false true free some_record h k =
          send-Ended p p.protoc free (before some_record (rw (h, k)) refl)
      close_if-Ended p false false free some_record h k =
          after_close-Ended p (close w p.protoc) free some_record h k refl

      count_if-Ended :
          (p : Pack N E) (b : Bool) (next : PackOutcome N E Answer)
          → p.append_err ≡ none
          → eqb_ℤ p.record_count (pos 0) ≡ b
          → (eqb_ℤ p.record_count (pos 0) ≡ false → Ended p next)
          → Ended p (if b then ok ([], pos 0, pos 0) p else next)
      count_if-Ended p true next free e h = ended free (nothing e refl refl)
      count_if-Ended p false next free e h = h e

      unless_failed-Ended :
          (p : Pack N E) (o : Option (PackError E))
          → p.append_err ≡ o
          → Ended p (unless_failed o (close_and_send w columns flush_stream) p)
      unfolding unless_failed close_and_send
      unless_failed-Ended p none free =
          count_if-Ended p _ _ free refl
            λ some_record. close_if-Ended p p.flushing p.protoc.closed free some_record refl refl
      unless_failed-Ended p (some e) free = failed (refused_after refl refl)

      pub flush-Ended : (p : Pack N E) → Ended p (flush w columns flush_stream p)
      unfolding flush
      flush-Ended p = unless_failed-Ended p p.append_err refl

      pub flush-ok :
          (p : Pack N E) {a : Answer} {p' : Pack N E}
          → flush w columns flush_stream p ≡ ok a p'
          → (p.append_err ≡ none) × Flushed p a p'
      flush-ok p {a} {p'} e = go (subst (Ended p) e (flush-Ended p))
        where
          go : Ended p (ok a p') → (p.append_err ≡ none) × Flushed p a p'
          go (ended free h) = (free, h)

      pub flush-err :
          (p : Pack N E) {x : PackError E} {p' : Pack N E}
          → flush w columns flush_stream p ≡ err x p'
          → Unsent p x p'
      flush-err p {x} {p'} e = go (subst (Ended p) e (flush-Ended p))
        where
          go : Ended p (err x p') → Unsent p x p'
          go (failed h) = h
