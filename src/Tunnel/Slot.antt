-- ===== src/Tunnel/Slot.antt =====
-- odps/tunnel/slot.go: the slots of a stream upload session. The methods of the selector hold its
-- lock, so that a run of several goroutines is a sequence of them.
pub mod Rotation
pub mod Server
mod Tests
use aliyun_odps_go_sdk.Prelude.{
  ℕ, zero, suc, ◌+◌, Bool, true, false, Option, none, some, List, [], ◌∷◌, ◌++◌, length, get_elem?,
  leb, ◌==◌, if◌then◌else◌,
}
use aliyun_odps_go_sdk.Prelude.Int.{ℤ}
use aliyun_odps_go_sdk.Text.{Text, codes, text_eq}
use aliyun_odps_go_sdk.Text.Decimal.{parse_int, print_int}
use aliyun_odps_go_sdk.Text.Unicode.{is_empty}
use aliyun_odps_go_sdk.Outcome.{Outcome, ok, err, panic, index_out_of_range}

-- `slot`
pub record Slot : Type 0 where
  pub id : Text
  pub ip : Text
  pub port : ℤ

pub data SlotError : Type 0 where
  invalid_format empty_ip invalid_port not_owned : Text → SlotError
  no_slot : SlotError

-- `strings.Split(server, ":")`
abbrev push : ℕ → List Text → List Text
push c [] = (c ∷ []) ∷ []
push c (part ∷ parts) = (c ∷ part) ∷ parts

unfoldable pub split_colon : Text → List Text
split_colon [] = [] ∷ []
split_colon (c ∷ cs) = let parts = split_colon cs in if c == b':' then [] ∷ parts else push c parts

-- `newSlot`, behind `strconv.Atoi` and behind the split.
unfoldable pub make_slot : Text → Text → Text → Option ℤ → Outcome (Unit {0}) SlotError Slot
make_slot id server ip none = err (invalid_port server) tt
make_slot id server ip (some port) = ok (record { id = id; ip = ip; port = port }) tt

unfoldable pub from_parts : Text → Text → List Text → Outcome (Unit {0}) SlotError Slot
unfolding make_slot
from_parts id server (ip ∷ port ∷ []) =
    if is_empty ip then err (empty_ip server) tt else make_slot id server ip (parse_int 64 port)
from_parts id server parts = err (invalid_format server) tt

unfoldable pub new_slot : Text → Text → Outcome (Unit {0}) SlotError Slot
unfolding from_parts split_colon
new_slot id server = from_parts id server (split_colon server)

-- `SetServer`, with the slot that it leaves and its error; the address is written before the port is
-- read.
unfoldable pub set_port : Text → Option ℤ → Slot → Slot × Option SlotError
set_port server none s = (s, some (invalid_port server))
set_port server (some port) s = (record s { port = port }, none)

unfoldable pub set_parts : Text → List Text → Slot → Slot × Option SlotError
unfolding set_port
set_parts server (ip ∷ port ∷ []) s =
    if is_empty ip
    then (s, some (empty_ip server))
    else set_port server (parse_int 64 port) (record s { ip = ip })
set_parts server parts s = (s, some (invalid_format server))

unfoldable pub set_server : Text → Slot → Slot × Option SlotError
unfolding set_parts split_colon
set_server server s = set_parts server (split_colon server) s

-- `Server`
unfoldable pub server_of : Slot → Text
server_of s = s.ip ++ (codes ":" ++ print_int s.port)

-- `slotSelector`
pub record Selector : Type 0 where
  pub index : ℕ
  pub arr : List Slot

-- `Reset`; `rand.Intn` gives `choice`, which depends on its argument at least.
unfoldable pub reset : (ℕ → ℕ) → List Slot → Selector → Selector
reset choice [] s = s
reset choice (e ∷ es) s = record { index = choice (length (e ∷ es)); arr = e ∷ es }

-- `newSlotSelect`
unfoldable pub new_selector : (ℕ → ℕ) → List Slot → Selector
unfolding reset
new_selector choice arr = reset choice arr (record { index = 0; arr = [] })

-- The read of `s.arr[s.index]`, and the step of the index behind it.
unfoldable pub take_slot : ℕ → List Slot → Option Slot → Outcome Selector SlotError Slot
take_slot index arr none = panic index_out_of_range
take_slot index arr (some e) = ok e (record { index = suc index; arr = arr })

-- `NextSlot`
unfoldable pub next_slot : Selector → Outcome Selector SlotError Slot
unfolding take_slot
next_slot s =
    if is_empty s.arr
    then err no_slot s
    else (let index = if leb (length s.arr) s.index then 0 else s.index in
        take_slot index s.arr (get_elem? s.arr index))

-- The loop of `UpdateServer`: the slots behind it and the error, if there is one.
abbrev pub after_set : Slot × Option SlotError → List Slot → List Slot × Option SlotError
after_set (s, error) es = (s ∷ es, error)

unfoldable pub update_slots : Text → Text → List Slot → List Slot × Option SlotError
unfolding set_server text_eq
update_slots id server [] = ([], some (not_owned id))
update_slots id server (e ∷ es) =
    let (es', error) = update_slots id server es in
    if text_eq e.id id then after_set (set_server server e) es else (e ∷ es', error)

-- `UpdateServer`
unfoldable pub update_server : Text → Text → Selector → Selector × Option SlotError
unfolding update_slots
update_server id server s =
    let (arr, error) = update_slots id server s.arr in (record s { arr = arr }, error)

-- `SlotNum`
unfoldable pub slot_num : Selector → ℕ
slot_num s = length s.arr
