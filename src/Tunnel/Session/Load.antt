-- ===== src/Tunnel/Session/Load.antt =====
-- `loadInformation` of odps/tunnel/stream_upload_session.go: what the tunnel service says of a session.
use aliyun_odps_go_sdk.Prelude.{
  ℕ, Bool, true, false, ◌&&◌, ◌||◌, List, [], ◌∷◌, ◌==◌, if◌then◌else◌,
}
use aliyun_odps_go_sdk.Prelude.Int.{ℤ}
use aliyun_odps_go_sdk.Text.{Text, codes, text_eq}
use aliyun_odps_go_sdk.Text.Decimal.{print_int}
use aliyun_odps_go_sdk.Text.Unicode.{Unicode, is_empty}
use aliyun_odps_go_sdk.Outcome
use aliyun_odps_go_sdk.Outcome.{
  Outcome, ok, err, panic, out_of_fuel, index_out_of_range, type_assertion,
}
use aliyun_odps_go_sdk.Datatype.Parser.{TypeError}
use aliyun_odps_go_sdk.Tunnel.Schema.{SchemaModel, TableSchema, Parsed, to_table_schema}
use aliyun_odps_go_sdk.Tunnel.Slot.{Slot, SlotError, Selector, new_slot, reset}

-- A value of JSON as it stands in the list of slots; a number by the int that it is made.
pub data Json : Type 0 where
  number : ℤ → Json
  text : Text → Json
  other : Json

-- `ResModel` of `loadInformation`, less what is not used.
pub record Information : Type 0 where
  pub schema : SchemaModel
  pub session_name : Text
  pub slots : List (List Json)
  pub status : Text
  pub quota_name : Text
  pub schema_version : ℤ

-- An error with a status code (`restclient.HttpError`) or another one.
pub data SessionError : Type 0 where
  http_error : ℕ → SessionError
  transport_error : Text → SessionError
  slot_error : SlotError → SessionError
  schema_error : TypeError → SessionError
  initiating no_slot_returned : SessionError

pub data LoadReply : Type 0 where
  load_failed : SessionError → LoadReply
  loaded : Information → LoadReply

-- `StreamUploadSession`, less the settings that no call changes.
pub record Session : Type 0 where
  pub id : Text
  pub schema : TableSchema
  pub schema_version : ℤ
  pub quota_name : Text
  pub selector : Selector
  pub slots_stale : Bool

-- `newSlot(strconv.Itoa(int(rawSlot[0].(float64))), rawSlot[1].(string))`
unfoldable pub raw_slot : List Json → Outcome (Unit {0}) SlotError Slot
unfolding new_slot
raw_slot (number n ∷ text server ∷ rest) = new_slot (print_int n) server
raw_slot (number n ∷ []) = panic index_out_of_range
raw_slot [] = panic index_out_of_range
raw_slot _ = panic type_assertion

unfoldable pub raw_slots : List (List Json) → Outcome (Unit {0}) SlotError (List Slot)
unfolding raw_slot
raw_slots [] = ok [] tt
raw_slots (raw ∷ raws) =
    Outcome.bind (raw_slot raw) λ e _. Outcome.bind (raw_slots raws) λ es _. ok (e ∷ es) tt

-- `slotRoutingIsStale` of an error that is not nil.
unfoldable pub slot_routing_is_stale : SessionError → Bool
slot_routing_is_stale (http_error code) = code == 308 || code == 502 || code == 504
slot_routing_is_stale e = true

-- The end of `loadInformation`, behind the loop over the slots.
unfoldable pub with_slots :
    (ℕ → ℕ)
    → Bool
    → Session
    → Outcome (Unit {0}) SlotError (List Slot)
    → Outcome Session SessionError (Unit {0})
unfolding reset
with_slots choice inited su (ok slots _) =
    if inited && is_empty slots
    then err no_slot_returned su
    else ok tt (record su { selector = reset choice slots su.selector })
with_slots choice inited su (err e _) = err (slot_error e) su
with_slots choice inited su (panic fault) = panic fault
with_slots choice inited su out_of_fuel = out_of_fuel

-- The branch for a new session, and what is behind it.
unfoldable pub with_schema :
    (ℕ → ℕ) → Information → Session → Parsed TableSchema → Outcome Session SessionError (Unit {0})
unfolding with_slots
with_schema choice info su (ok schema _) =
    with_slots choice true
      (record su {
        id = info.session_name;
        schema = schema;
        schema_version = info.schema_version;
        quota_name = if is_empty info.quota_name then su.quota_name else info.quota_name;
      })
      (raw_slots info.slots)
with_schema choice info su (err e _) = err (schema_error e) su
with_schema choice info su (panic fault) = panic fault
with_schema choice info su out_of_fuel = out_of_fuel

-- `loadInformation` of a table of that name
unfoldable pub load_information :
    Unicode → (ℕ → ℕ) → Text → Bool → LoadReply → Session → Outcome Session SessionError (Unit {0})
unfolding with_schema with_slots to_table_schema raw_slots
load_information u choice table inited (load_failed e) su = err e su
load_information u choice table inited (loaded info) su =
    if text_eq info.status (codes "init")
    then err initiating su
    else if inited
    then with_schema choice info su (to_table_schema u table info.schema)
    else with_slots choice false su (raw_slots info.slots)

-- What `CreateStreamUploadSession` begins with: the settings for the version of the schema and the
-- quota, and no slots.
unfoldable pub new_session : (ℕ → ℕ) → ℤ → Session
new_session choice schema_version = record {
  id = [];
  schema = record {
    table_name = [];
    is_virtual_view = false;
    columns = [];
    partition_columns = [];
  };
  schema_version = schema_version;
  quota_name = [];
  selector = record { index = 0; arr = [] };
  slots_stale = false;
}

-- `CreateStreamUploadSession`, with the answer to its request.
unfoldable pub create_session :
    Unicode → (ℕ → ℕ) → Text → ℤ → LoadReply → Outcome Session SessionError (Unit {0})
unfolding load_information new_session
create_session u choice table schema_version reply =
    load_information u choice table true reply (new_session choice schema_version)
