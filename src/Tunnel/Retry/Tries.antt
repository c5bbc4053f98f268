-- ===== src/Tunnel/Retry/Tries.antt =====
-- The calls that `Retry` makes.
use aliyun_odps_go_sdk.Prelude.{ℕ, zero, suc, ◌+◌, ◌≡◌, refl, sym, ap, some, ◌⊎◌, inl, inr}
use aliyun_odps_go_sdk.Outcome.{Outcome, ok, err, panic, out_of_fuel}
use aliyun_odps_go_sdk.Tunnel.Retry.{Waiting, after_call, retry_rounds, retry}

module _ {S E : Type 0} (f : S → Outcome S E (Unit {0})) where
  after_call-ok :
      (i : ℕ) (next : E → Waiting S → Outcome (Waiting S) E (Unit {0})) (t : Waiting S)
      (o : Outcome S E (Unit {0})) {t' : Waiting S}
      → f t.state ≡ o
      → ((e : E) (q : Waiting S) → next e q ≡ ok tt t' → (s : S) × (f s ≡ ok tt t'.state))
      → after_call i next t o ≡ ok tt t'
      → (s : S) × (f s ≡ ok tt t'.state)
  unfolding after_call
  after_call-ok i next t (ok _ s) {t'} e more h =
      let now : s ≡ t'.state = ap (λ (o : Outcome (Waiting S) E (Unit {0})). state_of s o) h in
      (t.state, rw (sym now) e)
    where
      state_of : S → Outcome (Waiting S) E (Unit {0}) → S
      state_of s (ok _ q) = q.state
      state_of s _ = s
  after_call-ok i next t (err x s) e more h = more x _ h
  after_call-ok i next t (panic fault) e more h = cc
  after_call-ok i next t out_of_fuel e more h = cc

  retry_rounds-ok :
      (n i : ℕ) (x : E) (t : Waiting S) (t' : Waiting S)
      → retry_rounds f n i (some x) t ≡ ok tt t'
      → (s : S) × (f s ≡ ok tt t'.state)
  unfolding retry_rounds
  retry_rounds-ok zero i x t t' h = cc
  retry_rounds-ok (suc n) i x t t' h =
      after_call-ok i (λ e. retry_rounds f n (i + 1) (some e)) t (f t.state) refl
        (λ e q. retry_rounds-ok n (i + 1) e q t') h

  -- `Retry` that returns no error has made a call that did so, and leaves what that call left.
  pub retry-ok : (s : S) (t : Waiting S) → retry f s ≡ ok tt t → (s' : S) × (f s' ≡ ok tt t.state)
  unfolding retry retry_rounds
  retry-ok s t h =
      after_call-ok 0 (λ e. retry_rounds f 2 1 (some e))
        (record { state = s; sleep_time = 1; slept = 0 }) (f s) refl
        (λ e q. retry_rounds-ok 2 1 e q t) h

  -- How a run of `Retry` ends: at the first call that returns no error, or with the error of the third;
  -- the pauses are of 1, 2 and 8 seconds.
  pub data Tried (s : S) : Outcome (Waiting S) E (Unit {0}) → Type 0 where
    at_once : {t : Waiting S} → f s ≡ ok tt t.state → t.slept ≡ 0 → Tried s (ok tt t)
    second :
        {e : E} {s' : S} {t : Waiting S}
        → f s ≡ err e s'
        → f s' ≡ ok tt t.state
        → t.slept ≡ 1
        → Tried s (ok tt t)
    third :
        {e e' : E} {s' s'' : S} {t : Waiting S}
        → f s ≡ err e s'
        → f s' ≡ err e' s''
        → f s'' ≡ ok tt t.state
        → t.slept ≡ 3
        → Tried s (ok tt t)
    never :
        {e e' e'' : E} {s' s'' : S} {t : Waiting S}
        → f s ≡ err e s'
        → f s' ≡ err e' s''
        → f s'' ≡ err e'' t.state
        → t.slept ≡ 11
        → Tried s (err e'' t)

  module _
      (settles : (s : S)
        → ((s' : S) × (f s ≡ ok tt s')) ⊎ ((e : E) × (s' : S) × (f s ≡ err e s'))) where
    third_call :
        (s s' s'' : S) {e e' : E}
        → f s ≡ err e s'
        → f s' ≡ err e' s''
        → Tried s (retry_rounds f 1 2 (some e') (record { state = s''; sleep_time = 2; slept = 3 }))
    unfolding retry_rounds after_call
    third_call s s' s'' h h' = elim (settles s'') [
      | inl (t, fine) ↦ rw fine (third h h' fine refl)
      | inr (x, t, bad) ↦ rw bad (never h h' bad refl)
    ]

    second_call :
        (s s' : S) {e : E}
        → f s ≡ err e s'
        → Tried s (retry_rounds f 2 1 (some e) (record { state = s'; sleep_time = 1; slept = 1 }))
    unfolding retry_rounds after_call
    second_call s s' h = elim (settles s') [
      | inl (t, fine) ↦ rw fine (second h fine refl)
      | inr (x, t, bad) ↦ rw bad (third_call s s' t h bad)
    ]

    -- For calls that return, with an error or without: `Retry` ends at the first call that returns no
    -- error, or with the error of the third; it calls three times at most, and has slept 0, 1 or 3
    -- seconds before the first, second or third call, and 11 seconds when it returns an error.
    pub retry-Tried : (s : S) → Tried s (retry f s)
    unfolding retry retry_rounds after_call
    retry-Tried s = elim (settles s) [
      | inl (t, fine) ↦ rw fine (at_once fine refl)
      | inr (x, t, bad) ↦ rw bad (second_call s t bad)
    ]
