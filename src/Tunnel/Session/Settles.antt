-- ===== src/Tunnel/Session/Settles.antt =====
-- A session that has slots keeps having slots, and its flushes come to an end without a panic.
use aliyun_odps_go_sdk.Prelude.{
  ℕ, zero, suc, ◌<◌, ◌≡◌, refl, ◌∙◌, Bool, true, false, Option, none, some, List, [], ◌∷◌, arith,
  length, get_elem?, leb, if◌then◌else◌, Bool-cases, inl, inr,
}
use aliyun_odps_go_sdk.Prelude.Int.{ℤ}
use aliyun_odps_go_sdk.Text.{Text, codes, text_eq}
use aliyun_odps_go_sdk.Text.Decimal.{print_int, parse_int}
use aliyun_odps_go_sdk.Text.Unicode.{Unicode, is_empty}
use aliyun_odps_go_sdk.Outcome
use aliyun_odps_go_sdk.Outcome.{Outcome, ok, err, panic, out_of_fuel}
use aliyun_odps_go_sdk.Tunnel.Slot.{
  Slot, SlotError, Selector, new_slot, from_parts, make_slot, split_colon, reset, take_slot,
  next_slot,
}
use aliyun_odps_go_sdk.Tunnel.Session.Load.{
  Json, LoadReply, Session, SessionError, number, text, other, initiating, load_failed, loaded,
  raw_slot, raw_slots, with_slots, load_information,
}

-- The call returns, with or without an error, and `P` holds of the state that it leaves.
pub data Settles {S E A : Type 0} (P : S → Type 0) : Outcome S E A → Type 0 where
  returned : {a : A} {s : S} → P s → Settles P (ok a s)
  failed : {e : E} {s : S} → P s → Settles P (err e s)

Settles-bind :
    {S E A B : Type 0} {P Q : S → Type 0} {r : Outcome S E A} {f : A → S → Outcome S E B}
    → Settles P r
    → ((s : S) → P s → Q s)
    → ((a : A) (s : S) → P s → Settles Q (f a s))
    → Settles Q (Outcome.bind r f)
Settles-bind (returned {a} {s} h) g k = k a s h
Settles-bind (failed {e} {s} h) g k = failed (g s h)

Settles-if :
    {S E A : Type 0} {P : S → Type 0} (b : Bool) {x y : Outcome S E A}
    → Settles P x
    → Settles P y
    → Settles P (if b then x else y)
Settles-if true hx hy = hx
Settles-if false hx hy = hy

-- A list of slots as the service sends it: a number and a text for each slot.
abbrev pub IsTyped : List Json → Type 0
IsTyped (number n ∷ text server ∷ rest) = Unit
IsTyped _ = ⊥

abbrev pub AllTyped : List (List Json) → Type 0
AllTyped [] = Unit
AllTyped (raw ∷ raws) = IsTyped raw × AllTyped raws

abbrev pub TypedReply : LoadReply → Type 0
TypedReply (load_failed e) = Unit
TypedReply (loaded info) = AllTyped info.slots

abbrev Anything : Unit {0} → Type 0
Anything s = Unit

make_slot-Settles :
    (id server ip : Text) (o : Option ℤ) → Settles Anything (make_slot id server ip o)
unfolding make_slot
make_slot-Settles id server ip none = failed tt
make_slot-Settles id server ip (some port) = returned tt

from_parts-Settles :
    (id server : Text) (parts : List Text) → Settles Anything (from_parts id server parts)
unfolding from_parts
from_parts-Settles id server [] = failed tt
from_parts-Settles id server (a ∷ []) = failed tt
from_parts-Settles id server (a ∷ b ∷ []) =
    Settles-if (is_empty a) (failed tt) (make_slot-Settles id server a (parse_int 64 b))
from_parts-Settles id server (a ∷ b ∷ c ∷ parts) = failed tt

raw_slot-Settles : (raw : List Json) → IsTyped raw → Settles Anything (raw_slot raw)
unfolding raw_slot new_slot
raw_slot-Settles (number n ∷ text server ∷ rest) h =
    from_parts-Settles (print_int n) server (split_colon server)
raw_slot-Settles [] h = absurd h
raw_slot-Settles (number n ∷ []) h = absurd h
raw_slot-Settles (number n ∷ number m ∷ rest) h = absurd h
raw_slot-Settles (number n ∷ other ∷ rest) h = absurd h
raw_slot-Settles (text t ∷ rest) h = absurd h
raw_slot-Settles (other ∷ rest) h = absurd h

raw_slots-Settles : (raws : List (List Json)) → AllTyped raws → Settles Anything (raw_slots raws)
unfolding raw_slots
raw_slots-Settles [] h = returned tt
raw_slots-Settles (raw ∷ raws) h =
    Settles-bind (raw_slot-Settles raw h.0) (λ s k. tt)
      λ e s k. Settles-bind (raw_slots-Settles raws h.1) (λ s k. tt) λ es s k. returned tt

-- The session has a slot at least.
abbrev pub HasSlots : Session → Type 0
HasSlots su = 0 < length su.selector.arr

reset-HasSlots :
    (choice : ℕ → ℕ) (slots : List Slot) (s : Selector)
    → 0 < length s.arr
    → 0 < length (reset choice slots s).arr
unfolding reset
reset-HasSlots choice [] s h = h
reset-HasSlots choice (e ∷ es) s h = omega arith

with_slots-HasSlots :
    (choice : ℕ → ℕ) (su : Session) (o : Outcome (Unit {0}) SlotError (List Slot))
    → HasSlots su
    → Settles Anything o
    → Settles HasSlots (with_slots choice false su o)
unfolding with_slots
with_slots-HasSlots choice su _ h (returned {a = slots} k) =
    returned (reset-HasSlots choice slots su.selector h)
with_slots-HasSlots choice su _ h (failed k) = failed h

pub load_information-HasSlots :
    (u : Unicode) (choice : ℕ → ℕ) (table : Text) (reply : LoadReply) (su : Session)
    → TypedReply reply
    → HasSlots su
    → Settles HasSlots (load_information u choice table false reply su)
unfolding load_information
load_information-HasSlots u choice table (load_failed e) su t h = failed h
load_information-HasSlots u choice table (loaded info) su t h =
    Settles-if (text_eq info.status (codes "init")) (failed h)
      (with_slots-HasSlots choice su (raw_slots info.slots) h (raw_slots-Settles info.slots t))

-- A reload that fails changes nothing.
with_slots-err :
    (choice : ℕ → ℕ) (su : Session) (o : Outcome (Unit {0}) SlotError (List Slot))
    {e : SessionError} {su' : Session}
    → with_slots choice false su o ≡ err e su'
    → su' ≡ su
unfolding with_slots
with_slots-err choice su (ok slots _) h = cc
with_slots-err choice su (err x _) h = cc
with_slots-err choice su (panic fault) h = cc
with_slots-err choice su out_of_fuel h = cc

pub load_information-err :
    (u : Unicode) (choice : ℕ → ℕ) (table : Text) (reply : LoadReply) (su : Session)
    {e : SessionError} {su' : Session}
    → load_information u choice table false reply su ≡ err e su'
    → su' ≡ su
unfolding load_information
load_information-err u choice table (load_failed x) su h = cc
load_information-err u choice table (loaded info) su {e} {su'} h =
    go (text_eq info.status (codes "init")) h
  where
    go :
        (b : Bool)
        → (if b then err initiating su else with_slots choice false su (raw_slots info.slots))
          ≡ err e su'
        → su' ≡ su
    go true h = cc
    go false h = with_slots-err choice su (raw_slots info.slots) h

get_elem?-lt {ℓ} :
    {A : Type ℓ} (xs : List A) (i : ℕ) → i < length xs → (a : A) × (get_elem? xs i ≡ some a)
get_elem?-lt [] i h = absurd (omega arith)
get_elem?-lt (x ∷ xs) zero h = (x, refl)
get_elem?-lt (x ∷ xs) (suc i) h = get_elem?-lt xs i (omega arith)

-- A selector with slots gives one of them, and keeps them.
pub record Picked (s : Selector) : Type 0 where
  pub slot : Slot
  pub selector : Selector
  pub place : ℕ
  pub found : get_elem? s.arr place ≡ some slot
  pub taken : next_slot s ≡ ok slot selector
  pub same : selector.arr ≡ s.arr

take_slot-some :
    (s : Selector) (i : ℕ)
    → i < length s.arr
    → next_slot s ≡ take_slot i s.arr (get_elem? s.arr i)
    → Picked s
unfolding take_slot
take_slot-some s i h e =
    let (slot, here) = get_elem?-lt s.arr i h in
    record {
      slot = slot;
      selector = record { index = suc i; arr = s.arr };
      place = i;
      found = here;
      taken = rw (e, here);
      same = refl;
    }

next_slot-index :
    (s : Selector)
    → 0 < length s.arr
    → next_slot s ≡ (
        let i = if leb (length s.arr) s.index then 0 else s.index in
        take_slot i s.arr (get_elem? s.arr i))
unfolding next_slot
next_slot-index s h = rw (not_empty s.arr h)
  where
    not_empty : (arr : List Slot) → 0 < length arr → is_empty arr ≡ false
    not_empty [] h = absurd (omega arith)
    not_empty (e ∷ es) h = refl

pub next_slot-Picked : (s : Selector) → 0 < length s.arr → Picked s
next_slot-Picked s h = elim (Bool-cases (leb (length s.arr) s.index)) [
  | inl past ↦ take_slot-some s 0 h (next_slot-index s h ∙ rw past)
  | inr inside ↦ take_slot-some s s.index (ground arith) (next_slot-index s h ∙ rw inside)
]
