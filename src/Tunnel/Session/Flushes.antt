-- ===== src/Tunnel/Session/Flushes.antt =====
-- The flushes of a stream upload session.
use aliyun_odps_go_sdk.Prelude.{ℕ, ◌/◌, ◌≡◌, ◌≢◌, none, some, arith, ◌==◌, Bool-cases, inl, inr}
use aliyun_odps_go_sdk.Prelude.Int.{ℤ}
use aliyun_odps_go_sdk.Text.{Text}
use aliyun_odps_go_sdk.Text.Unicode.{Unicode}
use aliyun_odps_go_sdk.Words.{Bytes}
use aliyun_odps_go_sdk.Outcome
use aliyun_odps_go_sdk.Outcome.{Outcome, ok, err}
use aliyun_odps_go_sdk.Tunnel.Slot.{Slot}
use aliyun_odps_go_sdk.Tunnel.Session.Load.{Session, SessionError, http_error}
use aliyun_odps_go_sdk.Tunnel.Session.{
  Service, PutReply, not_created, interrupted, no_response, response, after_put, put_stream,
  flush_stream,
}
use aliyun_odps_go_sdk.Tunnel.Session.Settles.{
  Settles, returned, failed, TypedReply, HasSlots, Picked, next_slot-Picked,
}
use aliyun_odps_go_sdk.Tunnel.Session.Routing.{
  Ready, Routed, pick_slot-Picked, reload_slots_if_stale-Prepared,
}
use aliyun_odps_go_sdk.Tunnel.Session.Refreshed.{
  is_marked, not_marked, Fails, fails, flush_failed-Fails, Refreshed, Refreshes, refreshes,
  refresh_slot_routing-Refreshes,
}

module _ {S : Type 0} (u : Unicode) (choice : ℕ → ℕ) (table : Text) (service : Service S) where
  -- How a flush ends, by the end of its upload to the slot `current`, with the session `su` and the
  -- service in the state `s` behind the upload.
  pub data Ends (current : Slot) (su : Session) (s : S)
      : PutReply → Outcome (Session × S) SessionError (Text × ℤ) → Type 0 where
    sent :
        {status : ℕ} {request_id slots server : Text} {bytes_sent : ℤ} {su' : Session} {s' : S}
        → status / 100 ≡ 2
        → HasSlots su'
        → Refreshed u choice table service current slots server su s su' s'
        → Ends current su s
            (response status request_id bytes_sent slots server)
            (ok (request_id, bytes_sent) (su', s'))
    refused :
        {status : ℕ} {request_id slots server : Text} {bytes_sent : ℤ}
        {r : Outcome (Session × S) SessionError (Text × ℤ)}
        → status / 100 ≢ 2
        → Fails (http_error status) su s r
        → Ends current su s (response status request_id bytes_sent slots server) r
    not_made : {e : SessionError} → Ends current su s (not_created e) (err e (su, s))
    broken :
        {e : SessionError} {r : Outcome (Session × S) SessionError (Text × ℤ)}
        → Fails e su s r
        → Ends current su s (interrupted e none) r
    broken_by :
        {e e' : SessionError} {r : Outcome (Session × S) SessionError (Text × ℤ)}
        → Fails e' su s r
        → Ends current su s (interrupted e (some e')) r
    lost :
        {e : SessionError} {r : Outcome (Session × S) SessionError (Text × ℤ)}
        → Fails e su s r
        → Ends current su s (no_response e) r

  after_refresh-Ends :
      (current : Slot) (su : Session) (s : S) (status : ℕ) (request_id slots server : Text)
      (bytes_sent : ℤ) {r : Outcome (Session × S) SessionError (Unit {0})}
      → status / 100 ≡ 2
      → Refreshes u choice table service current slots server su s r
      → Ends current su s
          (response status request_id bytes_sent slots server)
          (Outcome.bind r λ _ st. ok (request_id, bytes_sent) st)
  after_refresh-Ends current su s status request_id slots server bytes_sent h (refreshes r k) =
      sent h k r

  module _ (typed : (su : Session) (s : S) → TypedReply (service.reload su s).0) where
    after_response-Ends :
        (su : Session) (s : S) (current : Slot) (status : ℕ) (request_id slots server : Text)
        (bytes_sent : ℤ)
        → HasSlots su
        → Ends current su s (response status request_id bytes_sent slots server) (
            after_put u choice table service current
              (response status request_id bytes_sent slots server)
              (su, s))
    unfolding after_put
    after_response-Ends su s current status request_id slots server bytes_sent h =
        elim (Bool-cases (status / 100 == 2)) [
          | inl fine ↦ rw fine (
              after_refresh-Ends current su s status request_id slots server bytes_sent
                (ground arith)
                (refresh_slot_routing-Refreshes u choice table service current slots server su s h
                  (typed su s)))
          | inr bad ↦ rw bad (refused (ground arith) (flush_failed-Fails (http_error status) su s))
        ]

    after_put-Ends :
        (su : Session) (s : S) (current : Slot) (reply : PutReply)
        → HasSlots su
        → Ends current su s reply (after_put u choice table service current reply (su, s))
    unfolding after_put
    after_put-Ends su s current (not_created e) h = not_made
    after_put-Ends su s current (interrupted e none) h = broken (flush_failed-Fails e su s)
    after_put-Ends su s current (interrupted e (some e')) h = broken_by (flush_failed-Fails e' su s)
    after_put-Ends su s current (no_response e) h = lost (flush_failed-Fails e su s)
    after_put-Ends su s current (response status request_id bytes_sent slots server) h =
        after_response-Ends su s current status request_id slots server bytes_sent h

    -- A flush of `bytes`: the session and the service when the slot is picked, the slot, and the end.
    pub record Run (bytes : Bytes) (count : ℤ) (su : Session) (s : S)
        (r : Outcome (Session × S) SessionError (Text × ℤ)) : Type 0 where
      pub session : Session
      pub state : S
      pub routed : Routed u choice table service typed su s session state
      pub has_slots : HasSlots session
      pub picked : Picked session.selector
      pub ends :
          let su' = record session { selector = picked.selector } in
          let (reply, s') = service.put su' picked.slot bytes count state in
          Ends picked.slot su' s' reply r

    -- With any service whose answers to a reload list a number and a text for each slot, and from any
    -- session that has a slot, `flushStream` returns: it reloads the slots first exactly when they
    -- are marked as stale, and goes on with the slots at hand and the mark when that fails; it
    -- uploads the bytes once, to the slot that the selector gives. When the response is one of
    -- success it returns the request id and the number of bytes, and no error; behind the upload it
    -- then sends a reload exactly when the response gives another number of slots, moves the slot
    -- exactly when the number is the same and the response gives another server, and marks the slots
    -- as stale when the number cannot be read, the reload fails or the slot cannot be moved. In every
    -- other case it returns the error of the upload, sends nothing more, and marks the slots as
    -- stale exactly for the statuses 308, 502 and 504 and for errors with no status, unless no
    -- request could be made.
    pub flush_stream-Run :
        (bytes : Bytes) (count : ℤ) (su : Session) (s : S)
        → HasSlots su
        → Run bytes count su s (flush_stream u choice table service bytes count (su, s))
    unfolding flush_stream put_stream
    flush_stream-Run bytes count su s h =
        let p = reload_slots_if_stale-Prepared u choice table service typed su s h in
        let picked = next_slot-Picked p.session.selector p.has_slots in
        let su' : Session = record (p.session) { selector = picked.selector } in
        let (reply, s') = service.put su' picked.slot bytes count p.state in
        let has_slots = p.has_slots in
        let same = picked.same in
        record {
          session = p.session;
          state = p.state;
          routed = p.routed;
          has_slots = p.has_slots;
          picked = picked;
          ends =
              rw (p.prepared, pick_slot-Picked p.session p.state picked)
                (after_put-Ends su' s' picked.slot reply (rw same has_slots));
        }

    Fails-Settles :
        {e : SessionError} {su : Session} {s : S}
        {r : Outcome (Session × S) SessionError (Text × ℤ)}
        → HasSlots su
        → Fails e su s r
        → Settles Ready r
    Fails-Settles h (fails (is_marked _)) = failed h
    Fails-Settles h (fails (not_marked _)) = failed h

    Ends-Settles :
        (current : Slot) (su : Session) (s : S) (reply : PutReply)
        (r : Outcome (Session × S) SessionError (Text × ℤ))
        → HasSlots su
        → Ends current su s reply r
        → Settles Ready r
    Ends-Settles current su s _ _ h (sent e k _) = returned k
    Ends-Settles current su s _ _ h (refused e f) = Fails-Settles h f
    Ends-Settles current su s _ _ h not_made = failed h
    Ends-Settles current su s _ _ h (broken f) = Fails-Settles h f
    Ends-Settles current su s _ _ h (broken_by f) = Fails-Settles h f
    Ends-Settles current su s _ _ h (lost f) = Fails-Settles h f

    -- With any service whose answers to a reload list a number and a text for each slot: a flush from
    -- a session that has a slot returns, with an error or without, there is no panic, and the session
    -- that it leaves has a slot.
    pub flush_stream-Settles :
        (bytes : Bytes) (count : ℤ) (su : Session) (s : S)
        → HasSlots su
        → Settles Ready (flush_stream u choice table service bytes count (su, s))
    flush_stream-Settles bytes count su s h =
        let run = flush_stream-Run bytes count su s h in
        let picked = run.picked in
        let su' : Session = record (run.session) { selector = picked.selector } in
        let (reply, s') = service.put su' picked.slot bytes count run.state in
        let has_slots = run.has_slots in
        let same = picked.same in
        Ends-Settles picked.slot su' s' reply _ (rw same has_slots) run.ends
