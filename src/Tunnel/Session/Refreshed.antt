-- ===== src/Tunnel/Session/Refreshed.antt =====
-- What a flush leaves of the slots: behind a response of success, and behind an error.
use aliyun_odps_go_sdk.Prelude.{
  ℕ, suc, ◌<◌, ◌≡◌, ◌≢◌, refl, sym, ap, ◌∙◌, subst, ◌⊎◌, true, false, ◌||◌, Option, none, some,
  List, [], ◌∷◌, arith, length, ◌==◌, Bool-cases, inl, inr,
}
use aliyun_odps_go_sdk.Prelude.Int.{ℤ, pos, eqb_ℤ, eqb_ℤ_iff}
use aliyun_odps_go_sdk.Text.{Text, text_eq, text_eq_iff}
use aliyun_odps_go_sdk.Text.Decimal.{parse_int}
use aliyun_odps_go_sdk.Text.Unicode.{Unicode, is_empty}
use aliyun_odps_go_sdk.Outcome.{Outcome, ok, err}
use aliyun_odps_go_sdk.Tunnel.Slot.{Slot, SlotError, Selector, server_of, update_server, slot_num}
use aliyun_odps_go_sdk.Tunnel.Slot.Server.{ids, update_server-ids}
use aliyun_odps_go_sdk.Tunnel.Session.Load.{
  Session, SessionError, http_error, slot_routing_is_stale, load_information,
}
use aliyun_odps_go_sdk.Tunnel.Session.{
  Service, mark_slots_stale, or_mark, with_service, after_update, update_routing, reload_slot_num,
  refresh_number, refresh_slot_routing, flush_failed,
}
use aliyun_odps_go_sdk.Tunnel.Session.Settles.{
  Settles, returned, failed, TypedReply, HasSlots, load_information-HasSlots, load_information-err,
}

length-ids : (arr : List Slot) → length (ids arr) ≡ length arr
length-ids [] = refl
length-ids (e ∷ es) = ap suc (length-ids es)

update_server-length :
    (id server : Text) (s : Selector) → length (update_server id server s).0.arr ≡ length s.arr
update_server-length id server s =
    sym (length-ids (update_server id server s).0.arr)
    ∙ (ap length (update_server-ids id server s).0 ∙ length-ids s.arr)

-- The errors after which the slots are out of date: the statuses 308, 502 and 504, and every error
-- that has no status.
abbrev pub IsStale : SessionError → Type 0
IsStale (http_error status) = (status ≡ 308) ⊎ (status ≡ 502) ⊎ (status ≡ 504)
IsStale _ = Unit

abbrev pub stale : Session → Session
stale su = record su { slots_stale = true }

-- The session behind an error of an upload: its slots are marked as stale, or nothing is changed.
pub data Marked (e : SessionError) (su : Session) : Session → Type 0 where
  is_marked : IsStale e → Marked e su (stale su)
  not_marked : ¬ IsStale e → Marked e su su

empty_nil : (t : Text) → is_empty t ≡ true → t ≡ []
empty_nil [] h = refl
empty_nil (c ∷ t) h = cc

not_nil : (t : Text) → is_empty t ≡ false → t ≢ []
not_nil [] h = cc
not_nil (c ∷ t) h = cc

status_cases :
    (status : ℕ)
    → (IsStale (http_error status) × ((status == 308 || status == 502 || status == 504) ≡ true))
      ⊎ (¬ IsStale (http_error status)
          × ((status == 308 || status == 502 || status == 504) ≡ false))
status_cases status = elim (Bool-cases (status == 308)) [
  | inl a ↦ inl (inl (ground arith), rw a)
  | inr a ↦ elim (Bool-cases (status == 502)) [
    | inl b ↦ inl (inr (inl (ground arith)), rw (a, b))
    | inr b ↦ elim (Bool-cases (status == 504)) [
      | inl c ↦ inl (inr (inr (ground arith)), rw (a, b, c))
      | inr c ↦ inr (ground arith, rw (a, b, c))
    ]
  ]
]

module _ {S : Type 0} where
  -- An upload that failed with the error `e` from the session `su` and with the service in the state `s`.
  pub data Fails (e : SessionError) (su : Session) (s : S) {A : Type 0}
      : Outcome (Session × S) SessionError A → Type 0 where
    fails : {su' : Session} → Marked e su su' → Fails e su s (err e (su', s))

  pub flush_failed-Fails :
      {A : Type 0} (e : SessionError) (su : Session) (s : S)
      → Fails e su s {A = A} (flush_failed e (su, s))
  unfolding flush_failed slot_routing_is_stale
  flush_failed-Fails (http_error status) su s = elim (status_cases status) [
    | inl (h, e) ↦ rw e (fails (is_marked h))
    | inr (h, e) ↦ rw e (fails (not_marked h))
  ]
  flush_failed-Fails e su s = fails (is_marked tt)

  module _ (u : Unicode) (choice : ℕ → ℕ) (table : Text) (service : Service S) where
    -- What `refreshSlotRouting` leaves of the session `su` and the service in the state `s`, by the
    -- headers for the number of slots and for the routed server: `current` is the slot of the upload.
    pub data Refreshed (current : Slot) (slots server : Text) (su : Session) (s : S)
        : Session → S → Type 0 where
      no_number : parse_int 64 slots ≡ none → Refreshed current slots server su s (stale su) s
      loaded_again :
          (n : ℤ) (su' : Session)
          → parse_int 64 slots ≡ some n
          → n ≢ pos (length su.selector.arr)
          → load_information u choice table false (service.reload su s).0 su ≡ ok tt su'
          → Refreshed current slots server su s su' (service.reload su s).1
      not_loaded :
          (n : ℤ) (e : SessionError)
          → parse_int 64 slots ≡ some n
          → n ≢ pos (length su.selector.arr)
          → load_information u choice table false (service.reload su s).0 su ≡ err e su
          → Refreshed current slots server su s (stale su) (service.reload su s).1
      same_server :
          parse_int 64 slots ≡ some (pos (length su.selector.arr))
          → (server ≡ []) ⊎ (server ≡ server_of current)
          → Refreshed current slots server su s su s
      moved :
          (selector : Selector)
          → parse_int 64 slots ≡ some (pos (length su.selector.arr))
          → server ≢ []
          → server ≢ server_of current
          → update_server current.id server su.selector ≡ (selector, none)
          → Refreshed current slots server su s (record su { selector = selector }) s
      not_moved :
          (selector : Selector) (e : SlotError)
          → parse_int 64 slots ≡ some (pos (length su.selector.arr))
          → server ≢ []
          → server ≢ server_of current
          → update_server current.id server su.selector ≡ (selector, some e)
          → Refreshed current slots server su s (stale (record su { selector = selector })) s

    -- The call returns no error, and leaves such a session and service, with slots.
    pub data Refreshes (current : Slot) (slots server : Text) (su : Session) (s : S)
        : Outcome (Session × S) SessionError (Unit {0}) → Type 0 where
      refreshes :
          {su' : Session} {s' : S}
          → Refreshed current slots server su s su' s'
          → HasSlots su'
          → Refreshes current slots server su s (ok tt (su', s'))

    module _ (current : Slot) (slots server : Text) (su : Session) (s : S)
        (has_slots : HasSlots su) where
      reload-Refreshes :
          (n : ℤ) {r : Outcome Session SessionError (Unit {0})}
          → parse_int 64 slots ≡ some n
          → n ≢ pos (length su.selector.arr)
          → load_information u choice table false (service.reload su s).0 su ≡ r
          → Settles HasSlots r
          → Refreshes current slots server su s (or_mark (with_service (service.reload su s).1 r))
      unfolding or_mark mark_slots_stale
      reload-Refreshes n parsed ne e (returned {s = su'} k) =
          refreshes (loaded_again n su' parsed ne e) k
      reload-Refreshes n parsed ne e (failed {e = x} {s = su'} k) =
          let same : su' ≡ su = load_information-err u choice table (service.reload su s).0 su e in
          rw same (refreshes (not_loaded n x parsed ne (e ∙ ap (λ t. err x t) same)) has_slots)

      slots_kept :
          (selector : Selector) (o : Option SlotError)
          → update_server current.id server su.selector ≡ (selector, o)
          → 0 < length selector.arr
      slots_kept selector o e =
          subst (λ (p : Selector × Option SlotError). 0 < length p.0.arr) e
            (omega (arith, update_server-length current.id server su.selector))

      update-Refreshes :
          (selector : Selector) (o : Option SlotError)
          → parse_int 64 slots ≡ some (pos (length su.selector.arr))
          → server ≢ []
          → server ≢ server_of current
          → update_server current.id server su.selector ≡ (selector, o)
          → Refreshes current slots server su s (after_update su s (selector, o))
      unfolding after_update mark_slots_stale
      update-Refreshes selector none parsed ne ne' e =
          refreshes (moved selector parsed ne ne' e) (slots_kept selector none e)
      update-Refreshes selector (some x) parsed ne ne' e =
          refreshes (not_moved selector x parsed ne ne' e) (slots_kept selector (some x) e)

      routing-Refreshes :
          parse_int 64 slots ≡ some (pos (length su.selector.arr))
          → Refreshes current slots server su s (update_routing current server (su, s))
      unfolding update_routing
      routing-Refreshes parsed = elim (Bool-cases (is_empty server)) [
        | inl e ↦ rw e (refreshes (same_server parsed (inl (empty_nil server e))) has_slots)
        | inr some_server ↦ elim (Bool-cases (text_eq server (server_of current))) [
          | inl e ↦
              let same : server ≡ server_of current =
                (text_eq_iff server (server_of current)).0 e in
              rw (some_server, e) (refreshes (same_server parsed (inr same)) has_slots)
          | inr other ↦
              let (selector, o) = update_server current.id server su.selector in
              rw (some_server, other)
                (update-Refreshes selector o parsed (not_nil server some_server)
                  (λ e. cc ((text_eq_iff server (server_of current)).1 e)) refl)
        ]
      ]

      number-Refreshes :
          (typed : TypedReply (service.reload su s).0) (o : Option ℤ)
          → parse_int 64 slots ≡ o
          → Refreshes current slots server su s
              (refresh_number u choice table service current o server (su, s))
      unfolding refresh_number mark_slots_stale reload_slot_num slot_num
      number-Refreshes typed none parsed = refreshes (no_number parsed) has_slots
      number-Refreshes typed (some n) parsed =
          let number = pos (length su.selector.arr) in
          elim (Bool-cases (eqb_ℤ n number)) [
            | inl same ↦
                rw same (routing-Refreshes (parsed ∙ ap some ((eqb_ℤ_iff n number).0 same)))
            | inr other ↦ rw other (
                reload-Refreshes n parsed (λ e. cc ((eqb_ℤ_iff n number).1 e)) refl
                  (load_information-HasSlots u choice table (service.reload su s).0 su typed
                    has_slots))
          ]

      pub refresh_slot_routing-Refreshes :
          TypedReply (service.reload su s).0
          → Refreshes current slots server su s
              (refresh_slot_routing u choice table service current slots server (su, s))
      unfolding refresh_slot_routing
      refresh_slot_routing-Refreshes typed = number-Refreshes typed (parse_int 64 slots) refl
