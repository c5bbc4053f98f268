-- ===== src/Tunnel/Session/Malformed.antt =====
-- A reload whose answer lists a slot in another form than a number and a text.
use aliyun_odps_go_sdk.Prelude.{ℕ, ◌/◌, ◌≡◌, refl, true, false, some, List, [], ◌∷◌, arith, ◌==◌}
use aliyun_odps_go_sdk.Prelude.Int.{ℤ, pos, eqb_ℤ}
use aliyun_odps_go_sdk.Text.{Text, codes, text_eq}
use aliyun_odps_go_sdk.Text.Decimal.{parse_int}
use aliyun_odps_go_sdk.Text.Unicode.{Unicode}
use aliyun_odps_go_sdk.Outcome.{Fault, panic, index_out_of_range, type_assertion}
use aliyun_odps_go_sdk.Tunnel.Slot.{Slot, slot_num}
use aliyun_odps_go_sdk.Tunnel.Session.Load.{
  Json, Information, Session, number, text, other, loaded, raw_slot, raw_slots, with_slots,
  load_information,
}
use aliyun_odps_go_sdk.Tunnel.Session.{
  Service, response, or_mark, reload_slot_num, refresh_number, refresh_slot_routing, after_put,
}
use aliyun_odps_go_sdk.Tunnel.Session.Settles.{IsTyped}

raw_slot-panic : (raw : List Json) → ¬ IsTyped raw → (fault : Fault) × (raw_slot raw ≡ panic fault)
unfolding raw_slot
raw_slot-panic (number n ∷ text server ∷ rest) h = absurd (h tt)
raw_slot-panic [] h = (index_out_of_range, refl)
raw_slot-panic (number n ∷ []) h = (index_out_of_range, refl)
raw_slot-panic (number n ∷ number m ∷ rest) h = (type_assertion, refl)
raw_slot-panic (number n ∷ other ∷ rest) h = (type_assertion, refl)
raw_slot-panic (text t ∷ rest) h = (type_assertion, refl)
raw_slot-panic (other ∷ rest) h = (type_assertion, refl)

module _ {S : Type 0} (u : Unicode) (choice : ℕ → ℕ) (table : Text) (service : Service S) where
  -- When a flush has been answered with success, the answer gives another number of slots, and the
  -- first slot in the answer to the reload is no number and text, `flushStream` stops the program
  -- behind data that the service has taken.
  pub after_put-panic :
      (su : Session) (s s' : S) (current : Slot) (status : ℕ) (request_id slots server : Text)
      (bytes_sent n : ℤ) (info : Information) (raw : List Json) (raws : List (List Json))
      → status / 100 ≡ 2
      → parse_int 64 slots ≡ some n
      → eqb_ℤ n (pos (slot_num su.selector)) ≡ false
      → service.reload su s ≡ (loaded info, s')
      → text_eq info.status (codes "init") ≡ false
      → info.slots ≡ raw ∷ raws
      → ¬ IsTyped raw
      → (fault : Fault) × (after_put u choice table service current
            (response status request_id bytes_sent slots server)
            (su, s)
          ≡ panic fault)
  unfolding after_put refresh_slot_routing refresh_number reload_slot_num load_information or_mark
      with_slots raw_slots
  after_put-panic su s s' current status request_id slots server bytes_sent n info raw raws fine e
        other_number reply is_ready listed malformed =
      let (fault, stops) = raw_slot-panic raw malformed in
      let success : (status / 100 == 2) ≡ true = ground arith in
      (fault, rw (success, e, other_number, reply, is_ready, listed, stops))
