-- ===== src/Tunnel/Pack/Uploaded.antt =====
-- A pack over a stream upload session: what a flush of the pack comes to at the service.
use aliyun_odps_go_sdk.Prelude.{ℕ, suc, subst, ◌/◌, ◌^◌, ◌<◌, ◌≡◌, ◌≢◌, ap, Bool, List, [], length}
use aliyun_odps_go_sdk.Prelude.Int.{ℤ, pos}
use aliyun_odps_go_sdk.Text.{Text}
use aliyun_odps_go_sdk.Text.Unicode.{Unicode}
use aliyun_odps_go_sdk.Words.{Bytes}
use aliyun_odps_go_sdk.Outcome.{Outcome, ok}
use aliyun_odps_go_sdk.Data.{Record}
use aliyun_odps_go_sdk.Tunnel.Protowire.{Protowire, ProtowireLaws}
use aliyun_odps_go_sdk.Tunnel.Writer.{Column, end_record}
use aliyun_odps_go_sdk.Tunnel.StreamReader.{eof}
use aliyun_odps_go_sdk.Tunnel.Reader.Field.{RecordReader}
use aliyun_odps_go_sdk.Tunnel.Reader.{Delivery, iterate, new_record_reader}
use aliyun_odps_go_sdk.Tunnel.RoundTrip.Stream.{at}
use aliyun_odps_go_sdk.Tunnel.RoundTrip.Streamed.{AllFit, deliver}
use aliyun_odps_go_sdk.Tunnel.Session.Load.{Session, SessionError}
use aliyun_odps_go_sdk.Tunnel.Session.{Service, PutReply, response, flush_stream}
use aliyun_odps_go_sdk.Tunnel.Session.Settles.{TypedReply, HasSlots, Picked}
use aliyun_odps_go_sdk.Tunnel.Session.Routing.{Routed}
use aliyun_odps_go_sdk.Tunnel.Slot.{Slot}
use aliyun_odps_go_sdk.Tunnel.Session.Refreshed.{fails}
use aliyun_odps_go_sdk.Tunnel.Session.Flushes.{
  Ends, sent, refused, not_made, broken, broken_by, lost, flush_stream-Run,
}
use aliyun_odps_go_sdk.Tunnel.Pack.{Pack, Answer, flush}
use aliyun_odps_go_sdk.Tunnel.Pack.Steps.{Reached}
use aliyun_odps_go_sdk.Tunnel.Pack.Delivered.{flush-iterate}

-- The response of success that a flush without an error has had.
pub record Answered (reply : PutReply) (id : Text) (n : ℤ) (su : Session) : Type 0 where
  pub status : ℕ
  pub slots : Text
  pub server : Text
  pub replied : reply ≡ response status id n slots server
  pub success : status / 100 ≡ 2
  pub has_slots : HasSlots su

module _ {S : Type 0} where
  ok-injective :
      {a b : Text × ℤ} {st st' : Session × S}
      → (let o : Outcome (Session × S) SessionError (Text × ℤ) = ok a st in o ≡ ok b st')
      → ◌≡◌ {A = (Text × ℤ) × (Session × S)} (a, st) (b, st')
  ok-injective {a} {st} e = ap (λ (o : Outcome (Session × S) SessionError (Text × ℤ)). parts o) e
    where
      parts : Outcome (Session × S) SessionError (Text × ℤ) → (Text × ℤ) × (Session × S)
      parts (ok x y) = (x, y)
      parts _ = (a, st)

  Ends-ok :
      {u : Unicode} {choice : ℕ → ℕ} {table : Text} {service : Service S} {current : Slot}
      {su : Session} {s : S} {reply : PutReply} {r : Outcome (Session × S) SessionError (Text × ℤ)}
      {id : Text} {n : ℤ} {st : Session × S}
      → Ends u choice table service current su s reply r
      → r ≡ ok (id, n) st
      → Answered reply id n st.0
  Ends-ok {n} (sent {status} {request_id} {slots} {server} {bytes_sent} {su'} {s'} fine h _) e =
      let same = ok-injective e in
      record {
        status = status;
        slots = slots;
        server = server;
        replied = ap (λ q. response status q.0.0 q.0.1 slots server) same;
        success = fine;
        has_slots = subst (λ (q : (Text × ℤ) × (Session × S)). HasSlots q.1.0) same h;
      }
  Ends-ok (refused _ (fails _)) e = cc
  Ends-ok not_made e = cc
  Ends-ok (broken (fails _)) e = cc
  Ends-ok (broken_by (fails _)) e = cc
  Ends-ok (lost (fails _)) e = cc

  module _ (w : Protowire) (laws : ProtowireLaws w) (columns : List Column) (allow : Bool)
      (u : Unicode) (choice : ℕ → ℕ) (table : Text) (service : Service S)
      (typed : (su : Session) (s : S) → TypedReply (service.reload su s).0) where
    -- The upload of a flush of the records: the session and the service when a slot is picked, the slot,
    -- the bytes, the response of success, and the records that `Iterator` delivers from the bytes.
    pub record Uploaded {A : Type 0} (f : A → Delivery → A) (a : A) (records : List Record)
        (before after : Session × S) (answer : Answer) : Type 0 where
      pub session : Session
      pub state : S
      pub routed : Routed u choice table service typed before.0 before.1 session state
      pub picked : Picked session.selector
      pub bytes : Bytes
      pub answered :
          let su = record session { selector = picked.selector } in
          let count = pos (length records) in
          Answered (service.put su picked.slot bytes count state).0 answer.0 answer.2 after.0
      pub counted : answer.1 ≡ pos (length records)
      pub reader : RecordReader
      pub delivered :
          iterate w f (suc (length bytes)) a (new_record_reader (at bytes eof) columns)
          ≡ (deliver f columns a records, ok tt reader)

    -- Over a protowire that behaves as documented, a pack of a stream upload session that has a slot, and
    -- any service whose answers to a reload list a number and a text for each slot: when the pack
    -- holds at least one record and its records fit fewer than 33553408 columns and are fewer than
    -- 2^63, a `Flush` that returns no error has uploaded bytes, to a slot of the session, behind a
    -- try to reload the slots where they were stale, and had a response of success with the request id and the
    -- number of bytes that it returns; `Iterator` delivers from the bytes exactly the records of the
    -- pack in their order with no error, and the session keeps a slot.
    pub flush-Uploaded :
        {A : Type 0} (f : A → Delivery → A) (a : A) (p : Pack (Session × S) SessionError)
        (records : List Record) (answer : Answer) (p' : Pack (Session × S) SessionError)
        → Reached w columns allow
            (λ bytes count. flush_stream u choice table service bytes count)
            p
            records
        → records ≢ []
        → length columns < end_record
        → AllFit columns records
        → length records < 2 ^ 63
        → HasSlots p.session.0
        → flush w columns (λ bytes count. flush_stream u choice table service bytes count) p
          ≡ ok answer p'
        → Uploaded f a records p.session p'.session answer
    flush-Uploaded f a p records answer p' reached some_record small fit few has_slots e =
        let (bytes, given, counted, reader, delivered) =
          flush-iterate w laws columns allow
            (λ bytes count. flush_stream u choice table service bytes count) f a p records answer p'
            reached some_record small fit few e in
        let run =
          flush_stream-Run u choice table service typed bytes (pos (length records)) p.session.0
            p.session.1 has_slots in
        record {
          session = run.session;
          state = run.state;
          routed = run.routed;
          picked = run.picked;
          bytes = bytes;
          answered = Ends-ok run.ends given;
          counted = counted;
          reader = reader;
          delivered = delivered;
        }
