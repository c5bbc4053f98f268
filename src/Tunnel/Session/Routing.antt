-- ===== src/Tunnel/Session/Routing.antt =====
-- The calls by which a session keeps the slots of its flushes up to date.
use aliyun_odps_go_sdk.Prelude.{ℕ, ◌≡◌, refl, sym, ap, ◌∙◌, Bool, true, false, if◌then◌else◌}
use aliyun_odps_go_sdk.Text.{Text}
use aliyun_odps_go_sdk.Text.Unicode.{Unicode}
use aliyun_odps_go_sdk.Outcome.{Outcome, ok, err}
use aliyun_odps_go_sdk.Tunnel.Session.Load.{Session, SessionError, load_information}
use aliyun_odps_go_sdk.Tunnel.Session.{
  Service, mark_slots_stale, take_slots_stale, or_mark, with_service, pick_slot, reload_slot_num,
  reload_slots_if_stale,
}
use aliyun_odps_go_sdk.Tunnel.Session.Settles.{
  Settles, returned, failed, TypedReply, HasSlots, load_information-HasSlots, load_information-err,
  Picked,
}

abbrev pub unmarked : Session → Session
unmarked su = record su { slots_stale = false }

module _ {S : Type 0} where
  -- The state of a session and its service, whose session has slots.
  abbrev pub Ready : Session × S → Type 0
  Ready st = HasSlots st.0

  pub pick_slot-Picked :
      (su : Session) (s : S) (p : Picked su.selector)
      → pick_slot (su, s) ≡ ok p.slot (record su { selector = p.selector }, s)
  unfolding pick_slot
  pick_slot-Picked su s p = rw (p.taken)

  module _ (u : Unicode) (choice : ℕ → ℕ) (table : Text) (service : Service S)
      (typed : (su : Session) (s : S) → TypedReply (service.reload su s).0) where
    -- What a flush does before it picks a slot: nothing, if the slots are not marked as stale; or a
    -- reload, which takes the mark away, or fails and leaves the session with the mark and its slots.
    pub data Routed (su : Session) (s : S) (su' : Session) (s' : S) : Type 0 where
      kept : su.slots_stale ≡ false → su' ≡ su → s' ≡ s → Routed su s su' s'
      reloaded :
          su.slots_stale ≡ true
          → (let (reply, after) = service.reload (unmarked su) s in
              (load_information u choice table false reply (unmarked su) ≡ ok tt su')
              × (s' ≡ after))
          → Routed su s su' s'
      not_reloaded :
          (e : SessionError)
          → su.slots_stale ≡ true
          → (let (reply, after) = service.reload (unmarked su) s in
              (load_information u choice table false reply (unmarked su) ≡ err e (unmarked su))
              × (s' ≡ after))
          → su' ≡ su
          → Routed su s su' s'

    pub record Prepared (su : Session) (s : S) (r : Outcome (Session × S) SessionError (Unit {0}))
        : Type 0 where
      pub session : Session
      pub state : S
      pub prepared : r ≡ ok tt (session, state)
      pub has_slots : HasSlots session
      pub routed : Routed su s session state

    reload-Prepared :
        (su : Session) (s : S) (r : Outcome Session SessionError (Unit {0}))
        → HasSlots su
        → su.slots_stale ≡ true
        → (let (reply, after) = service.reload (unmarked su) s in
            load_information u choice table false reply (unmarked su) ≡ r)
        → Settles HasSlots r
        → Prepared su s (or_mark (with_service (service.reload (unmarked su) s).1 r))
    unfolding or_mark mark_slots_stale
    reload-Prepared su s _ h stale e (returned {a} {s = su'} k) = record {
      session = su';
      state = (service.reload (unmarked su) s).1;
      prepared = refl;
      has_slots = k;
      routed = reloaded stale (e, refl);
    }
    reload-Prepared su s _ h stale e (failed {e = x} {s = su'} k) =
        let (reply, after) = service.reload (unmarked su) s in
        let same : su' ≡ unmarked su = load_information-err u choice table reply (unmarked su) e in
        record {
          session = su;
          state = after;
          prepared = rw (same, sym stale);
          has_slots = h;
          routed = not_reloaded x stale (e ∙ ap (λ t. err x t) same, refl) refl;
        }

    reload_if-Prepared :
        (su : Session) (s : S) (b : Bool)
        → HasSlots su
        → su.slots_stale ≡ b
        → let st : Session × S = (unmarked su, s) in
          Prepared su s
            (if b then or_mark (reload_slot_num u choice table service st) else ok tt st)
    unfolding reload_slot_num
    reload_if-Prepared su s true h stale =
        let (reply, after) = service.reload (unmarked su) s in
        reload-Prepared su s _ h stale refl
          (load_information-HasSlots u choice table reply (unmarked su) (typed (unmarked su) s) h)
    reload_if-Prepared su s false h fresh = record {
      session = su;
      state = s;
      prepared = rw (sym fresh);
      has_slots = h;
      routed = kept fresh refl refl;
    }

    pub reload_slots_if_stale-Prepared :
        (su : Session) (s : S)
        → HasSlots su
        → Prepared su s (reload_slots_if_stale u choice table service (su, s))
    unfolding reload_slots_if_stale take_slots_stale
    reload_slots_if_stale-Prepared su s h = reload_if-Prepared su s su.slots_stale h refl
