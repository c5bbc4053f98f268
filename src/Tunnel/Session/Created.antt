-- ===== src/Tunnel/Session/Created.antt =====
-- The sessions that `CreateStreamUploadSession` returns.
use aliyun_odps_go_sdk.Prelude.{
  ℕ, ◌<◌, ◌≡◌, refl, sym, Bool, true, false, List, [], ◌∷◌, arith, length, if◌then◌else◌,
}
use aliyun_odps_go_sdk.Prelude.Int.{ℤ}
use aliyun_odps_go_sdk.Text.{Text, codes, text_eq}
use aliyun_odps_go_sdk.Text.Unicode.{Unicode}
use aliyun_odps_go_sdk.Outcome.{Outcome, ok, err, panic, out_of_fuel}
use aliyun_odps_go_sdk.Tunnel.Schema.{TableSchema, Parsed, to_table_schema}
use aliyun_odps_go_sdk.Tunnel.Slot.{Slot, SlotError, reset}
use aliyun_odps_go_sdk.Tunnel.Session.Load.{
  Information, LoadReply, Session, initiating, load_failed, loaded, raw_slots, with_slots,
  with_schema, load_information, new_session, create_session,
}
use aliyun_odps_go_sdk.Tunnel.Session.Settles.{HasSlots}

-- A session that comes of the answer: the service has said that it is ready, with the id, the schema,
-- the version and the slots of the answer, and at least one of them; no reload is due.
pub record Created (u : Unicode) (table : Text) (reply : LoadReply) (su : Session) : Type 0 where
  pub info : Information
  pub answered : reply ≡ loaded info
  pub is_ready : text_eq info.status (codes "init") ≡ false
  pub parsed : to_table_schema u table info.schema ≡ ok su.schema tt
  pub slots : raw_slots info.slots ≡ ok su.selector.arr tt
  pub id : su.id ≡ info.session_name
  pub version : su.schema_version ≡ info.schema_version
  pub fresh : su.slots_stale ≡ false
  pub has_slots : HasSlots su

with_slots-ok :
    (choice : ℕ → ℕ) (su : Session) (o : Outcome (Unit {0}) SlotError (List Slot)) {su' : Session}
    → with_slots choice true su o ≡ ok tt su'
    → (o ≡ ok su'.selector.arr tt)
      × (0 < length su'.selector.arr)
      × (su' ≡ record su { selector = su'.selector })
unfolding with_slots reset
with_slots-ok choice su (ok [] _) h = cc
with_slots-ok choice su (ok (e ∷ es) _) {su'} h =
    let s : Session = record su {
      selector = record { index = choice (length (e ∷ es)); arr = e ∷ es };
    } in
    let same : s ≡ su' = cc in (rw (sym same), rw (sym same) (omega arith), rw (sym same))
with_slots-ok choice su (err x _) h = cc
with_slots-ok choice su (panic fault) h = cc
with_slots-ok choice su out_of_fuel h = cc

module _ (u : Unicode) (choice : ℕ → ℕ) (table : Text) where
  with_schema-Created :
      (info : Information) (su : Session) (o : Parsed TableSchema) {su' : Session}
      → text_eq info.status (codes "init") ≡ false
      → to_table_schema u table info.schema ≡ o
      → su.slots_stale ≡ false
      → with_schema choice info su o ≡ ok tt su'
      → Created u table (loaded info) su'
  unfolding with_schema
  with_schema-Created info su (ok schema _) is_ready parsed fresh h =
      let (slots, has_slots, same) = with_slots-ok choice _ (raw_slots info.slots) h in
      record {
        info = info;
        answered = refl;
        is_ready = is_ready;
        parsed = rw same parsed;
        slots = slots;
        id = rw same;
        version = rw same;
        fresh = rw same fresh;
        has_slots = has_slots;
      }
  with_schema-Created info su (err e _) is_ready parsed fresh h = cc
  with_schema-Created info su (panic fault) is_ready parsed fresh h = cc
  with_schema-Created info su out_of_fuel is_ready parsed fresh h = cc

  -- `CreateStreamUploadSession` returns a session only for an answer of a service that is ready, whose
  -- schema and slots can all be read and which has a slot at least; the session has the id, the
  -- schema, its version and the slots of the answer, in their order, and no mark for a reload.
  pub create_session-Created :
      (version : ℤ) (reply : LoadReply) (su : Session)
      → create_session u choice table version reply ≡ ok tt su
      → Created u table reply su
  unfolding create_session load_information new_session
  create_session-Created version (load_failed e) su h = cc
  create_session-Created version (loaded info) su h = go (text_eq info.status (codes "init")) refl h
    where
      go :
          (b : Bool)
          → text_eq info.status (codes "init") ≡ b
          → (if b
              then err initiating (new_session choice version)
              else with_schema choice info
                  (new_session choice version)
                  (to_table_schema u table info.schema))
            ≡ ok tt su
          → Created u table (loaded info) su
      go true e h = cc
      go false e h =
          with_schema-Created info (new_session choice version)
            (to_table_schema u table info.schema) e refl refl h
