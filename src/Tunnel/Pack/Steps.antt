-- ===== src/Tunnel/Pack/Steps.antt =====
-- Any calls of a pack, against a buffer of records: `Append` puts a record behind the others, `Flush`
-- hands them to the session, `Reset` drops them.
use aliyun_odps_go_sdk.Prelude.{
  ◌≡◌, ◌≢◌, refl, sym, ◌∙◌, Bool, true, false, none, List, [], ◌∷◌, ◌++◌, arith, length,
  length-append,
}
use aliyun_odps_go_sdk.Prelude.Int.{ℤ, pos, ◌+ℤ◌, eqb_ℤ}
use aliyun_odps_go_sdk.Text.{Text}
use aliyun_odps_go_sdk.Words.{Bytes}
use aliyun_odps_go_sdk.Outcome.{Outcome, ok, err}
use aliyun_odps_go_sdk.Data.{Record}
use aliyun_odps_go_sdk.Tunnel.Protowire.{Protowire}
use aliyun_odps_go_sdk.Tunnel.Writer.{
  Column, RecordWriter, new_record_writer, write, write_all, close,
}
use aliyun_odps_go_sdk.Tunnel.Writer.Closed.{write-closed, write_all-append}
use aliyun_odps_go_sdk.Tunnel.Pack.{Pack, PackError, Answer, new_pack, reset, append, flush}
use aliyun_odps_go_sdk.Tunnel.Pack.Calls.{
  Failed, Ready, now, before, Flushed, nothing, sent, Unsent, refused_after, not_sent, append-ok,
  append-err, flush-ok, flush-err,
}

module _ {N E : Type 0} (w : Protowire) (columns : List Column) (allow : Bool)
    (flush_stream : Bytes → ℤ → N → Outcome N E (Text × ℤ)) where
  -- A call, with the records in the buffer before and behind it.
  pub data Step (p : Pack N E) (records : List Record) (p' : Pack N E) (records' : List Record)
      : Type 0 where
    appended :
        (values : Record)
        → append w columns allow values p ≡ ok tt p'
        → records' ≡ records ++ values ∷ []
        → Step p records p' records'
    not_appended :
        (values : Record) (e : PackError E)
        → append w columns allow values p ≡ err e p'
        → records' ≡ records
        → Step p records p' records'
    flushed :
        (a : Answer)
        → flush w columns flush_stream p ≡ ok a p'
        → records' ≡ []
        → Step p records p' records'
    not_flushed :
        (e : PackError E)
        → flush w columns flush_stream p ≡ err e p'
        → records' ≡ records
        → Step p records p' records'
    was_reset : p' ≡ reset columns p → records' ≡ [] → Step p records p' records'

  pub data Reached : Pack N E → List Record → Type 0 where
    opened : (session : N) → Reached (new_pack columns session) []
    called :
        {p p' : Pack N E} {records records' : List Record}
        → Reached p records
        → Step p records p' records'
        → Reached p' records'

  -- The stream of the pack is that of the records, or that stream closed.
  pub data Buffered (records : List Record) (p : Pack N E) : Type 0 where
    growing :
        write_all w records (new_record_writer columns) ≡ ok tt p.protoc
        → p.protoc.closed ≡ false
        → (p.flushing ≡ true → records ≡ [])
        → Buffered records p
    finished :
        (q : RecordWriter)
        → write_all w records (new_record_writer columns) ≡ ok tt q
        → close w q ≡ ok tt p.protoc
        → p.flushing ≡ true
        → Buffered records p

  pub record Holds (records : List Record) (p : Pack N E) : Type 0 where
    pub counted : p.record_count ≡ pos (length records)
    pub buffered : p.append_err ≡ none → Buffered records p

  -- The stream of some records, closed.
  pub record IsStream (records : List Record) (r : RecordWriter) : Type 0 where
    pub before_close : RecordWriter
    pub written : write_all w records (new_record_writer columns) ≡ ok tt before_close
    pub closing : close w before_close ≡ ok tt r

  new_pack-Holds : (session : N) → Holds [] (new_pack columns session)
  unfolding new_pack new_record_writer write_all
  new_pack-Holds session = record { counted = refl; buffered = λ e. growing refl refl λ h. refl }

  reset-Holds : (p : Pack N E) → Holds [] (reset columns p)
  unfolding reset new_record_writer write_all
  reset-Holds p = record { counted = refl; buffered = λ e. growing refl refl λ h. refl }

  count_more :
      (records : List Record) (values : Record) (n : ℤ)
      → n ≡ pos (length records)
      → n +ℤ pos 1 ≡ pos (length (records ++ values ∷ []))
  unfolding ◌+ℤ◌
  count_more records values n e = rw e (ground (arith, length-append records (values ∷ [])))

  append-Buffered :
      (records : List Record) (values : Record) (p : Pack N E) (q : RecordWriter)
      → p.flushing ≡ false
      → write w values p.protoc ≡ ok tt q
      → Buffered records p
      → Buffered
          (records ++ values ∷ [])
          (record p { protoc = q; record_count = p.record_count +ℤ pos 1 })
  append-Buffered records values p q open_ written (growing all mark idle) =
      growing (write_all-append w records values (new_record_writer columns) all written)
        (write-closed w values p.protoc written ∙ mark) λ h. cc
  append-Buffered records values p q open_ written (finished r all closing h) = cc

  -- The stream that a flush sends is the whole stream of the records.
  Ready-IsStream :
      (records : List Record) (p : Pack N E) (q : RecordWriter)
      → Buffered records p
      → p.record_count ≡ pos (length records)
      → Ready w columns p q
      → IsStream records q
  Ready-IsStream records p q (growing all mark idle) count (now some_record h closing) = record {
    before_close = p.protoc;
    written = all;
    closing = closing;
  }
  Ready-IsStream records p q (growing all mark idle) count (before some_record h same) =
      let flushing : p.flushing ≡ true = ground arith in
      let nothing_held : records ≡ [] = idle flushing in absurd (ground arith)
  Ready-IsStream records p q (finished r all closing h) count (now some_record h' c) = cc
  Ready-IsStream records p q (finished r all closing h) count (before some_record h' same) =
      record { before_close = r; written = all; closing = rw same closing }

  not_sent-Buffered :
      (records : List Record) (p : Pack N E) (q : RecordWriter) (session : N)
      → IsStream records q
      → Buffered records (record p { session = session; protoc = q; flushing = true })
  not_sent-Buffered records p q session s = finished s.before_close s.written s.closing refl

  Failed-Holds :
      (records : List Record) (p : Pack N E) (x : PackError E) (p' : Pack N E)
      → Holds records p
      → Failed p x p'
      → Holds records p'
  Failed-Holds records p x p' h f =
      let kept = f.kept in record { counted = f.count ∙ h.counted; buffered = λ free. cc }

  Unsent-Holds :
      (records : List Record) (p : Pack N E) (x : PackError E) (p' : Pack N E)
      → Holds records p
      → Unsent w columns flush_stream p x p'
      → Holds records p'
  Unsent-Holds records p x p' h (refused_after e same) = rw same h
  Unsent-Holds records p x p' h (not_sent q y session free ready e e' same) = rw same (record {
    counted = h.counted;
    buffered = λ _.
        not_sent-Buffered records p q session
          (Ready-IsStream records p q (h.buffered free) h.counted ready);
  })

  nil_of_count :
      (records : List Record) (n : ℤ)
      → n ≡ pos (length records)
      → eqb_ℤ n (pos 0) ≡ true
      → records ≡ []
  nil_of_count [] n e h = refl
  nil_of_count (values ∷ records) n e h = absurd (ground arith)

  count-some :
      (records : List Record) (n : ℤ)
      → n ≡ pos (length records)
      → eqb_ℤ n (pos 0) ≡ false
      → records ≢ []
  count-some [] n e h nil = absurd (cc (rw e at h))
  count-some (values ∷ records) n e h nil = cc

  Ready-some :
      (records : List Record) (p : Pack N E) (q : RecordWriter)
      → p.record_count ≡ pos (length records)
      → Ready w columns p q
      → records ≢ []
  Ready-some records p q e (now some_record _ _) = count-some records p.record_count e some_record
  Ready-some records p q e (before some_record _ _) =
      count-some records p.record_count e some_record

  Flushed-Holds :
      (records : List Record) (p : Pack N E) (a : Answer) (p' : Pack N E)
      → Holds records p
      → Flushed w columns flush_stream p a p'
      → Holds [] p'
  Flushed-Holds records p a p' h (nothing e e' same) =
      rw (same, sym (nil_of_count records p.record_count h.counted e)) h
  Flushed-Holds records p a p' h (sent q id n session ready e e' same) =
      rw same (new_pack-Holds session)

  Step-Holds :
      {p p' : Pack N E} {records records' : List Record}
      → Step p records p' records'
      → Holds records p
      → Holds records' p'
  Step-Holds {p} {p'} {records} (appended values e same) h =
      let (idle, q, written, after) = append-ok w columns allow values p e in
      rw (same, after)
        (record {
          counted = count_more records values p.record_count h.counted;
          buffered = λ free. append-Buffered records values p q idle written (h.buffered free);
        })
  Step-Holds {p} {p'} {records} (not_appended values x e same) h =
      rw same (Failed-Holds records p x p' h (append-err w columns allow values p e))
  Step-Holds {p} {p'} {records} (flushed a e same) h =
      rw same (Flushed-Holds records p a p' h (flush-ok w columns flush_stream p e).1)
  Step-Holds {p} {p'} {records} (not_flushed x e same) h =
      rw same (Unsent-Holds records p x p' h (flush-err w columns flush_stream p e))
  Step-Holds {p} (was_reset same same') h = rw (same, same') (reset-Holds p)

  pub Reached-Holds : {p : Pack N E} {records : List Record} → Reached p records → Holds records p
  Reached-Holds (opened session) = new_pack-Holds session
  Reached-Holds (called r s) = Step-Holds s (Reached-Holds r)

  -- What a flush without an error did with the records: there were none, or the session took their
  -- whole stream in one call and the pack is a new one.
  pub data Handed (p : Pack N E) (records : List Record) (a : Answer) (p' : Pack N E) : Type 0 where
    none_held : records ≡ [] → a ≡ ([], pos 0, pos 0) → p' ≡ p → Handed p records a p'
    handed :
        (r : RecordWriter) (id : Text) (n : ℤ) (session : N)
        → records ≢ []
        → IsStream records r
        → flush_stream r.out (pos (length records)) p.session ≡ ok (id, n) session
        → a ≡ (id, pos (length records), n)
        → p' ≡ new_pack columns session
        → Handed p records a p'

  -- After any calls of a new pack, whether they failed or not, and with any session: a `Flush` that
  -- returns no error has handed the session, in one call, the closed stream of exactly the records
  -- that were appended without an error since the last `Flush` without an error or `Reset`, in their
  -- order, and returns their number and what the session returns, with the pack as a new one; if
  -- there are no such records, it returns zeros and changes nothing.
  pub flush-Handed :
      (p : Pack N E) (records : List Record) (a : Answer) (p' : Pack N E)
      → Reached p records
      → flush w columns flush_stream p ≡ ok a p'
      → Handed p records a p'
  flush-Handed p records a p' r e =
      let h = Reached-Holds r in
      let (free, f) = flush-ok w columns flush_stream p e in hand h (h.buffered free) f
    where
      hand :
          Holds records p
          → Buffered records p
          → Flushed w columns flush_stream p a p'
          → Handed p records a p'
      hand h b (nothing e e' same) =
          none_held (nil_of_count records p.record_count h.counted e) e' same
      hand h b (sent q id n session ready e e' same) =
          handed q id n session (Ready-some records p q h.counted ready)
            (Ready-IsStream records p q b h.counted ready) (rw (sym h.counted) e)
            (rw (sym h.counted) e') same
