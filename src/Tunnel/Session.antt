-- ===== src/Tunnel/Session.antt =====
-- odps/tunnel/stream_upload_session.go: the slots of a stream upload session, and its flushes. What
-- the tunnel service answers is a parameter, with the requests that reach it.
pub mod Load
pub mod Settles
pub mod Routing
pub mod Refreshed
pub mod Flushes
pub mod Created
pub mod Malformed
use aliyun_odps_go_sdk.Prelude.{
  ℕ, ◌/◌, Bool, true, false, not, ◌&&◌, ◌||◌, Option, none, some, List, [], ◌∷◌, ◌==◌,
  if◌then◌else◌,
}
use aliyun_odps_go_sdk.Prelude.Int.{ℤ, pos, eqb_ℤ}
use aliyun_odps_go_sdk.Text.{Text, codes, text_eq}
use aliyun_odps_go_sdk.Text.Decimal.{parse_int, print_int}
use aliyun_odps_go_sdk.Text.Unicode.{Unicode, is_empty}
use aliyun_odps_go_sdk.Words.{Bytes}
use aliyun_odps_go_sdk.Outcome
use aliyun_odps_go_sdk.Outcome.{
  Outcome, ok, err, panic, out_of_fuel, index_out_of_range, type_assertion,
}
use aliyun_odps_go_sdk.Datatype.Parser.{TypeError}
use aliyun_odps_go_sdk.Tunnel.Schema.{SchemaModel, TableSchema, Parsed, to_table_schema}
use aliyun_odps_go_sdk.Tunnel.Slot.{
  Slot, SlotError, Selector, new_slot, server_of, reset, next_slot, update_server, slot_num,
}
use Load.{
  SessionError, Session, LoadReply, http_error, slot_error, slot_routing_is_stale, load_information,
}

-- How the upload of a stream ends: no request could be made; writing or closing the body failed, and
-- then closing the response may have; no response came; or one did, with its status, request id, the
-- number of bytes sent and the headers for the number of slots and the routed server.
pub data PutReply : Type 0 where
  not_created : SessionError → PutReply
  interrupted : SessionError → Option SessionError → PutReply
  no_response : SessionError → PutReply
  response : ℕ → Text → ℤ → Text → Text → PutReply

-- The tunnel service behind the requests of a session, in states of type `S`.
pub record Service (S : Type 0) : Type 0 where
  pub reload : Session → S → LoadReply × S
  pub put : Session → Slot → Bytes → ℤ → S → PutReply × S

-- A call of a session, which may send requests.
abbrev pub M : Type 0 → Type 0 → Type 0
M S A = Session × S → Outcome (Session × S) SessionError A

infixl 5 ◌>>=◌ ◌>>◌
abbrev pub ◌>>=◌ : {S A B : Type 0} → M S A → (A → M S B) → M S B
◌>>=◌ m f st = Outcome.bind (m st) f

abbrev pub ◌>>◌ : {S B : Type 0} → M S (Unit {0}) → M S B → M S B
m >> k = m >>= λ _. k

module _ {S : Type 0} where
  abbrev pub skip : M S (Unit {0})
  skip st = ok tt st

  -- `markSlotsStale`
  unfoldable pub mark_slots_stale : M S (Unit {0})
  mark_slots_stale (su, s) = ok tt (record su { slots_stale = true }, s)

  -- `takeSlotsStale`
  unfoldable pub take_slots_stale : M S Bool
  take_slots_stale (su, s) = ok su.slots_stale (record su { slots_stale = false }, s)

  -- `if err := …; err != nil { su.markSlotsStale() }`
  unfoldable pub or_mark :
      Outcome (Session × S) SessionError (Unit {0}) → Outcome (Session × S) SessionError (Unit {0})
  unfolding mark_slots_stale
  or_mark (ok _ st) = ok tt st
  or_mark (err e st) = mark_slots_stale st
  or_mark (panic fault) = panic fault
  or_mark out_of_fuel = out_of_fuel

  abbrev pub with_service :
      {A : Type 0} → S → Outcome Session SessionError A → Outcome (Session × S) SessionError A
  with_service s (ok a su) = ok a (su, s)
  with_service s (err e su) = err e (su, s)
  with_service s (panic fault) = panic fault
  with_service s out_of_fuel = out_of_fuel

  abbrev pub with_selector :
      Session → S → Outcome Selector SlotError Slot → Outcome (Session × S) SessionError Slot
  with_selector su s (ok e selector) = ok e (record su { selector = selector }, s)
  with_selector su s (err e selector) = err (slot_error e) (record su { selector = selector }, s)
  with_selector su s (panic fault) = panic fault
  with_selector su s out_of_fuel = out_of_fuel

  unfoldable pub pick_slot : M S Slot
  unfolding next_slot
  pick_slot (su, s) = with_selector su s (next_slot su.selector)

  -- `flushFailed`, whose error the caller returns.
  unfoldable pub flush_failed : {A : Type 0} → SessionError → M S A
  unfolding slot_routing_is_stale
  flush_failed e (su, s) =
      err e ((if slot_routing_is_stale e then record su { slots_stale = true } else su), s)

  -- The end of `refreshSlotRouting`: the selector and the error of `UpdateServer`.
  unfoldable pub after_update :
      Session → S → Selector × Option SlotError → Outcome (Session × S) SessionError (Unit {0})
  unfolding mark_slots_stale
  after_update su s (selector, none) = ok tt (record su { selector = selector }, s)
  after_update su s (selector, some e) = mark_slots_stale (record su { selector = selector }, s)

  unfoldable pub update_routing : Slot → Text → M S (Unit {0})
  unfolding after_update update_server server_of
  update_routing current server (su, s) =
      if is_empty server || text_eq server (server_of current)
      then ok tt (su, s)
      else after_update su s (update_server current.id server su.selector)

  module _ (u : Unicode) (choice : ℕ → ℕ) (table : Text) (service : Service S) where
    -- `reloadSlotNum`
    unfoldable pub reload_slot_num : M S (Unit {0})
    unfolding load_information
    reload_slot_num (su, s) =
        let (reply, s') = service.reload su s in
        with_service s' (load_information u choice table false reply su)

    -- `reloadSlotsIfStale`
    unfoldable pub reload_slots_if_stale : M S (Unit {0})
    unfolding take_slots_stale or_mark reload_slot_num
    reload_slots_if_stale = do
      stale ← take_slots_stale
      λ st. if stale then or_mark (reload_slot_num st) else ok tt st

    -- `refreshSlotRouting`, behind `strconv.Atoi` of the number of slots.
    unfoldable pub refresh_number : Slot → Option ℤ → Text → M S (Unit {0})
    unfolding mark_slots_stale or_mark reload_slot_num update_routing slot_num
    refresh_number current none server st = mark_slots_stale st
    refresh_number current (some n) server st =
        if not (eqb_ℤ n (pos (slot_num st.0.selector)))
        then or_mark (reload_slot_num st)
        else update_routing current server st

    unfoldable pub refresh_slot_routing : Slot → Text → Text → M S (Unit {0})
    unfolding refresh_number
    refresh_slot_routing current slots server = refresh_number current (parse_int 64 slots) server

    -- The end of `flushStream`, behind the upload.
    unfoldable pub after_put : Slot → PutReply → M S (Text × ℤ)
    unfolding flush_failed refresh_slot_routing
    after_put current (not_created e) st = err e st
    after_put current (interrupted e none) st = flush_failed e st
    after_put current (interrupted e (some e')) st = flush_failed e' st
    after_put current (no_response e) st = flush_failed e st
    after_put current (response status request_id bytes_sent slots server) st =
        if not (status / 100 == 2)
        then flush_failed (http_error status) st
        else (do refresh_slot_routing current slots server; λ st'. ok (request_id, bytes_sent) st')
            st

    unfoldable pub put_stream : Bytes → ℤ → Slot → M S (Text × ℤ)
    unfolding after_put
    put_stream bytes count current (su, s) =
        let (reply, s') = service.put su current bytes count s in after_put current reply (su, s')

    -- `flushStream` with the bytes and the number of records of the pack.
    unfoldable pub flush_stream : Bytes → ℤ → M S (Text × ℤ)
    unfolding reload_slots_if_stale pick_slot put_stream
    flush_stream bytes count = do
      reload_slots_if_stale
      current ← pick_slot
      put_stream bytes count current
