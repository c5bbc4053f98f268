-- ===== src/Tunnel/Slot/Server.antt =====
-- The address of a slot.
use aliyun_odps_go_sdk.Prelude.{
  ℕ, ◌^◌, ◌<◌, ◌≡◌, ◌≢◌, refl, ap, inl, inr, Bool-cases, false, Option, none, some, List, [], ◌∷◌,
  ◌++◌, arith, ◌==◌,
}
use aliyun_odps_go_sdk.Prelude.Int.{ℤ, pos}
use aliyun_odps_go_sdk.Text.{Text, codes, text_eq}
use aliyun_odps_go_sdk.Text.Unicode.{is_empty}
use aliyun_odps_go_sdk.Text.Decimal.{
  print_nat, print_int, parse_int, is_decimal, AllDigits, print_nat-AllDigits, parse_int-print_int,
}
use aliyun_odps_go_sdk.Outcome.{ok}
use aliyun_odps_go_sdk.Tunnel.Slot.{
  Slot, invalid_port, split_colon, make_slot, from_parts, new_slot, set_port, set_parts, set_server,
  server_of, Selector, after_set, update_slots, update_server,
}

abbrev pub HasNoColon : Text → Type 0
HasNoColon [] = Unit
HasNoColon (c ∷ cs) = ((c == b':') ≡ false) × HasNoColon cs

split_colon-HasNoColon : (s : Text) → HasNoColon s → split_colon s ≡ s ∷ []
unfolding split_colon
split_colon-HasNoColon [] h = refl
split_colon-HasNoColon (c ∷ cs) (h, hs) = rw (h, split_colon-HasNoColon cs hs)

split_colon-parts :
    (ip port : Text)
    → HasNoColon ip
    → HasNoColon port
    → split_colon (ip ++ (codes ":" ++ port)) ≡ ip ∷ port ∷ []
unfolding split_colon
split_colon-parts [] port h k = rw (split_colon-HasNoColon port k)
split_colon-parts (c ∷ ip) port (h, hs) k = rw (h, split_colon-parts ip port hs k)

digits-HasNoColon : (s : Text) → AllDigits s → HasNoColon s
unfolding is_decimal
digits-HasNoColon [] h = tt
digits-HasNoColon (c ∷ cs) (h, hs) = (ground arith, digits-HasNoColon cs hs)

not_empty : (s : Text) → s ≢ [] → is_empty s ≡ false
not_empty [] h = absurd (h refl)
not_empty (c ∷ cs) h = refl

-- A slot whose address is not empty and has no colon, and whose port is a number below 2^63, is made
-- again by `newSlot` of what `Server` prints; and `SetServer` of it brings another slot to that address
-- and port, and keeps its id.
pub new_slot-server_of :
    (id ip : Text) (n : ℕ) (other : Slot)
    → ip ≢ []
    → HasNoColon ip
    → n < 2 ^ 63
    → let s : Slot = record { id = id; ip = ip; port = pos n } in
      (new_slot id (server_of s) ≡ ok s tt)
      × (set_server (server_of s) other ≡ (record s { id = other.id }, none))
unfolding new_slot set_server from_parts set_parts make_slot set_port server_of print_int
new_slot-server_of id ip n other ne h lt =
    let parts =
      split_colon-parts ip (print_nat n) h
        (digits-HasNoColon (print_nat n) (print_nat-AllDigits n)) in
    let number : parse_int 64 (print_nat n) ≡ some (pos n) = parse_int-print_int 64 n lt in
    (rw (parts, not_empty ip ne, number), rw (parts, not_empty ip ne, number))

-- `SetServer` of an address with no colon, a colon and a text that is no number returns an error and
-- leaves the slot with the new address and the old port.
pub set_server-invalid_port :
    (ip port : Text) (s : Slot)
    → ip ≢ []
    → HasNoColon ip
    → HasNoColon port
    → parse_int 64 port ≡ none
    → set_server (ip ++ (codes ":" ++ port)) s
      ≡ (record s { ip = ip }, some (invalid_port (ip ++ (codes ":" ++ port))))
unfolding set_server set_parts set_port
set_server-invalid_port ip port s ne h k e = rw (split_colon-parts ip port h k, not_empty ip ne, e)

abbrev pub ids : List Slot → List Text
ids [] = []
ids (e ∷ es) = e.id ∷ ids es

set_port-ids :
    (server : Text) (o : Option ℤ) (s : Slot) (es : List Slot)
    → ids (after_set (set_port server o s) es).0 ≡ s.id ∷ ids es
unfolding set_port
set_port-ids server none s es = refl
set_port-ids server (some port) s es = refl

set_parts-ids :
    (server : Text) (parts : List Text) (s : Slot) (es : List Slot)
    → ids (after_set (set_parts server parts s) es).0 ≡ s.id ∷ ids es
unfolding set_parts
set_parts-ids server (ip ∷ port ∷ []) s es = elim (Bool-cases (is_empty ip)) [
  | inl empty ↦ rw empty
  | inr full ↦ rw full (set_port-ids server (parse_int 64 port) (record s { ip = ip }) es)
]
set_parts-ids server [] s es = refl
set_parts-ids server (a ∷ []) s es = refl
set_parts-ids server (a ∷ b ∷ c ∷ parts) s es = refl

update_slots-ids :
    (id server : Text) (arr : List Slot) → ids (update_slots id server arr).0 ≡ ids arr
unfolding update_slots set_server
update_slots-ids id server [] = refl
update_slots-ids id server (e ∷ es) = elim (Bool-cases (text_eq e.id id)) [
  | inl found ↦ rw found (set_parts-ids server (split_colon server) e es)
  | inr other ↦ rw other (ap (◌∷◌ e.id) (update_slots-ids id server es))
]

-- `UpdateServer` changes neither the ids of the slots, nor their order and number, nor the index,
-- whether it returns an error or not.
pub update_server-ids :
    (id server : Text) (s : Selector)
    → let s' = (update_server id server s).0 in (ids s'.arr ≡ ids s.arr) × (s'.index ≡ s.index)
unfolding update_server
update_server-ids id server s = (update_slots-ids id server s.arr, refl)
