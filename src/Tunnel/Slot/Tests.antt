-- ===== src/Tunnel/Slot/Tests.antt =====
-- What the theorems on the slots say at concrete slots.
use aliyun_odps_go_sdk.Prelude.{ℕ, ◌≡◌, ◌≢◌, refl, none, some, [], ◌∷◌, ◌++◌, arith, length}
use aliyun_odps_go_sdk.Prelude.Int.{pos}
use aliyun_odps_go_sdk.Text.{codes}
use aliyun_odps_go_sdk.Text.Decimal.{parse_int, parse_nat, parse_digits}
use aliyun_odps_go_sdk.Outcome.{ok}
use aliyun_odps_go_sdk.Tunnel.Slot.{
  Slot, Selector, invalid_port, new_slot, set_server, server_of, update_server,
}
use aliyun_odps_go_sdk.Tunnel.Slot.Rotation.{next_slots, next_slots-rotation}
use aliyun_odps_go_sdk.Tunnel.Slot.Server.{
  HasNoColon, ids, new_slot-server_of, set_server-invalid_port, update_server-ids,
}

abbrev slot_a : Slot
slot_a = record { id = codes "a"; ip = codes "10.0.0.1"; port = pos 80 }

abbrev slot_b : Slot
slot_b = record { id = codes "b"; ip = codes "10.0.0.2"; port = pos 81 }

abbrev slot_c : Slot
slot_c = record { id = codes "c"; ip = codes "10.0.0.3"; port = pos 82 }

address-HasNoColon : HasNoColon (codes "10.0.0.1")
address-HasNoColon = (refl, (refl, (refl, (refl, (refl, (refl, (refl, (refl, tt))))))))

address-ne-nil : codes "10.0.0.1" ≢ []
address-ne-nil = cc

next_slots-rotation_example :
    (index : ℕ) × (next_slots
        (length (slot_a ∷ slot_b ∷ slot_c ∷ []))
        (record { index = 1; arr = slot_a ∷ slot_b ∷ slot_c ∷ [] })
      ≡ ok
          (slot_b ∷ slot_c ∷ slot_a ∷ [])
          (record { index = index; arr = slot_a ∷ slot_b ∷ slot_c ∷ [] }))
next_slots-rotation_example = next_slots-rotation (slot_a ∷ []) (slot_b ∷ slot_c ∷ [])

new_slot-server_of_example :
    (new_slot (codes "a") (server_of slot_a) ≡ ok slot_a tt)
    × (set_server (server_of slot_a) slot_b ≡ (record slot_a { id = codes "b" }, none))
new_slot-server_of_example =
    new_slot-server_of (codes "a") (codes "10.0.0.1") 80 slot_b address-ne-nil address-HasNoColon
      (omega arith)

not_a_port : parse_int 64 (codes "8x") ≡ none
unfolding parse_int parse_nat parse_digits
not_a_port = refl

set_server-invalid_port_example :
    set_server (codes "10.0.0.1" ++ (codes ":" ++ codes "8x")) slot_b ≡ (
      record slot_b { ip = codes "10.0.0.1" },
      some (invalid_port (codes "10.0.0.1" ++ (codes ":" ++ codes "8x"))),
    )
set_server-invalid_port_example =
    set_server-invalid_port (codes "10.0.0.1") (codes "8x") slot_b address-ne-nil address-HasNoColon
      (refl, (refl, tt)) not_a_port

abbrev both : Selector
both = record { index = 1; arr = slot_a ∷ slot_b ∷ [] }

update_server-ids_example :
    (ids (update_server (codes "b") (codes "10.0.0.9:90") both).0.arr ≡ ids both.arr)
    × ((update_server (codes "b") (codes "10.0.0.9:90") both).0.index ≡ both.index)
update_server-ids_example = update_server-ids (codes "b") (codes "10.0.0.9:90") both
