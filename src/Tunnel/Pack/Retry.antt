-- ===== src/Tunnel/Pack/Retry.antt =====
-- The calls of a pack behind a flush that the session did not carry out.
use aliyun_odps_go_sdk.Prelude.{◌≡◌, refl, sym, ◌∙◌, Bool, true, false, none, some, List, [], arith}
use aliyun_odps_go_sdk.Prelude.Int.{ℤ, pos, eqb_ℤ}
use aliyun_odps_go_sdk.Text.{Text}
use aliyun_odps_go_sdk.Words.{Bytes}
use aliyun_odps_go_sdk.Outcome.{Outcome, err}
use aliyun_odps_go_sdk.Data.{Record}
use aliyun_odps_go_sdk.Tunnel.Protowire.{Protowire}
use aliyun_odps_go_sdk.Tunnel.Writer.{Column, RecordWriter}
use aliyun_odps_go_sdk.Tunnel.Pack.{
  Pack, PackError, sending, unsuccessful_flush, unsuccessful_append, reset, fail_append, append,
  after_send, send, close_and_send, unless_failed, flush,
}
use aliyun_odps_go_sdk.Tunnel.Pack.Calls.{
  Ready, now, before, Flushed, nothing, sent, Unsent, refused_after, not_sent, append-ok,
  append-err, flush-ok, flush-err,
}
use aliyun_odps_go_sdk.Tunnel.Pack.Steps.{
  Step, appended, not_appended, flushed, not_flushed, was_reset,
}

module _ {N E : Type 0} (w : Protowire) (columns : List Column)
    (flush_stream : Bytes → ℤ → N → Outcome N E (Text × ℤ)) where
  Ready-count :
      (p : Pack N E) {q : RecordWriter} → Ready w columns p q → eqb_ℤ p.record_count (pos 0) ≡ false
  Ready-count p (now h e c) = h
  Ready-count p (before h e c) = h

  flush-flushing :
      (p : Pack N E)
      → p.append_err ≡ none
      → p.flushing ≡ true
      → eqb_ℤ p.record_count (pos 0) ≡ false
      → flush w columns flush_stream p
        ≡ after_send columns (flush_stream p.protoc.out p.record_count p.session) p
  unfolding flush unless_failed close_and_send send
  flush-flushing p free h some_record = rw (free, some_record, h)

  again :
      (p p' : Pack N E) (y : E)
      → Unsent w columns flush_stream p (sending y) p'
      → (flush_stream p'.protoc.out p'.record_count p.session ≡ err y p'.session)
        × (flush w columns flush_stream p'
            ≡ after_send columns (flush_stream p'.protoc.out p'.record_count p'.session) p')
  again p p' y (refused_after e same) = cc
  again p p' y (not_sent q z session free ready e e' same) =
      let given : z ≡ y = cc in
      rw (same, sym given)
        (
          e,
          flush-flushing (record p { session = session; protoc = q; flushing = true }) free refl
              (Ready-count p ready),
        )

  -- When the session did not send the stream of a `Flush`, the pack holds that stream as it was given
  -- to the session; another `Flush` gives the session the same bytes and the same count again, in
  -- its new state, and returns what comes of that.
  pub flush-again :
      (p p' : Pack N E) (y : E)
      → flush w columns flush_stream p ≡ err (sending y) p'
      → (flush_stream p'.protoc.out p'.record_count p.session ≡ err y p'.session)
        × (flush w columns flush_stream p'
            ≡ after_send columns (flush_stream p'.protoc.out p'.record_count p'.session) p')
  flush-again p p' y e = again p p' y (flush-err w columns flush_stream p e)

  flushing_of :
      (p p' : Pack N E) (y : E)
      → Unsent w columns flush_stream p (sending y) p'
      → p'.flushing ≡ true
  flushing_of p p' y (refused_after e same) = cc
  flushing_of p p' y (not_sent q z session free ready e e' same) = rw same

  append-flushing :
      (allow : Bool) (values : Record) (p : Pack N E)
      → p.flushing ≡ true
      → append w columns allow values p
        ≡ err unsuccessful_flush (record p { append_err = some unsuccessful_flush })
  unfolding append fail_append
  append-flushing allow values p h = rw h

  -- When the session did not send the stream of a `Flush`, an `Append` returns the error that asks for
  -- another `Flush` or a `Reset`; and behind it that other `Flush` is refused, and gives the session
  -- nothing.
  pub flush-append_refused :
      (allow : Bool) (values : Record) (p p' : Pack N E) (y : E)
      → flush w columns flush_stream p ≡ err (sending y) p'
      → let p'' = record p' { append_err = some unsuccessful_flush } in
        (append w columns allow values p' ≡ err unsuccessful_flush p'')
        × (flush w columns flush_stream p'' ≡ err unsuccessful_append p'')
  unfolding flush unless_failed
  flush-append_refused allow values p p' y e = (
    append-flushing allow values p' (flushing_of p p' y (flush-err w columns flush_stream p e)),
    refl,
  )

  module _ (allow : Bool) where
    -- The packs that calls lead to, from a pack with records in its buffer.
    pub data Later (p : Pack N E) (records : List Record) : Pack N E → List Record → Type 0 where
      here : Later p records p records
      called :
          {q q' : Pack N E} {held held' : List Record}
          → Later p records q held
          → Step w columns allow flush_stream q held q' held'
          → Later p records q' held'

    record IsStuck (p : Pack N E) : Type 0 where
      flushing : p.flushing ≡ true
      count : p.record_count ≡ pos 0

    reset-IsStuck : (p : Pack N E) → p.flushing ≡ true → IsStuck (reset columns p)
    unfolding reset
    reset-IsStuck p h = record { flushing = h; count = refl }

    no_stream : (p : Pack N E) (q : RecordWriter) → IsStuck p → Ready w columns p q → ⊥
    no_stream p q s r = let count = s.count in let some_record = Ready-count p r in ground arith

    Flushed-IsStuck :
        (p : Pack N E) (a : Text × ℤ × ℤ) (p' : Pack N E)
        → IsStuck p
        → Flushed w columns flush_stream p a p'
        → IsStuck p'
    Flushed-IsStuck p a p' s (nothing e e' same) = rw same s
    Flushed-IsStuck p a p' s (sent q id n session ready e e' same) = absurd (no_stream p q s ready)

    Unsent-IsStuck :
        (p : Pack N E) (x : PackError E) (p' : Pack N E)
        → IsStuck p
        → Unsent w columns flush_stream p x p'
        → IsStuck p'
    Unsent-IsStuck p x p' s (refused_after e same) = rw same s
    Unsent-IsStuck p x p' s (not_sent q y session free ready e e' same) =
        absurd (no_stream p q s ready)

    Step-IsStuck :
        {p p' : Pack N E} {records records' : List Record}
        → Step w columns allow flush_stream p records p' records'
        → IsStuck p
        → IsStuck p'
    Step-IsStuck {p} (appended values e same) s =
        let flushing = s.flushing in
        let (idle, q, written, after) = append-ok w columns allow values p e in cc
    Step-IsStuck {p} {p'} (not_appended values x e same) s =
        let f = append-err w columns allow values p e in
        record { flushing = f.mark ∙ s.flushing; count = f.count ∙ s.count }
    Step-IsStuck {p} {p'} (flushed a e same) s =
        Flushed-IsStuck p a p' s (flush-ok w columns flush_stream p e).1
    Step-IsStuck {p} {p'} (not_flushed x e same) s =
        Unsent-IsStuck p x p' s (flush-err w columns flush_stream p e)
    Step-IsStuck {p} (was_reset same same') s = rw same (reset-IsStuck p s.flushing)

    Later-IsStuck :
        {p : Pack N E} {records : List Record} {q : Pack N E} {held : List Record}
        → IsStuck p
        → Later p records q held
        → IsStuck q
    Later-IsStuck s here = s
    Later-IsStuck s (called l t) = Step-IsStuck t (Later-IsStuck s l)

    -- When the session did not send the stream of a `Flush`, and `Reset` is called: whatever calls of
    -- the pack follow, every later `Append` returns the error of the flush that was not carried out,
    -- which asks for a `Reset`, and takes no record.
    pub reset-append_refused :
        (p p' q : Pack N E) (y : E) (held : List Record) (values : Record)
        → flush w columns flush_stream p ≡ err (sending y) p'
        → Later (reset columns p') [] q held
        → append w columns allow values q
          ≡ err unsuccessful_flush (record q { append_err = some unsuccessful_flush })
    reset-append_refused p p' q y held values e l =
        let failed = flushing_of p p' y (flush-err w columns flush_stream p e) in
        let s = Later-IsStuck (reset-IsStuck p' failed) l in
        append-flushing allow values q s.flushing
