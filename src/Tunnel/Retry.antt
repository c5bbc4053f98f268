-- ===== src/Tunnel/Retry.antt =====
-- `Retry` of odps/tunnel/common.go: a call that is tried three times.
pub mod Tries
use aliyun_odps_go_sdk.Prelude.{ℕ, zero, suc, ◌+◌, ◌*◌, ◌^◌, Option, none, some}
use aliyun_odps_go_sdk.Outcome.{Outcome, ok, err, panic, out_of_fuel}

-- The state of type `S` that the calls change, the factor of the pauses, and the seconds that were
-- slept.
pub record Waiting (S : Type 0) : Type 0 where
  pub state : S
  pub sleep_time : ℕ
  pub slept : ℕ

module _ {S E : Type 0} where
  unfoldable pub after_call :
      ℕ
      → (E → Waiting S → Outcome (Waiting S) E (Unit {0}))
      → Waiting S
      → Outcome S E (Unit {0})
      → Outcome (Waiting S) E (Unit {0})
  after_call i next t (ok _ s) = ok tt (record t { state = s })
  after_call i next t (err e s) =
      let sleep_time = t.sleep_time * 2 ^ i in
      next e (record { state = s; sleep_time = sleep_time; slept = t.slept + sleep_time })
  after_call i next t (panic fault) = panic fault
  after_call i next t out_of_fuel = out_of_fuel

  module _ (f : S → Outcome S E (Unit {0})) where
    -- The rounds of the loop from the round `i` on, with the error of the round before.
    unfoldable pub retry_rounds : ℕ → ℕ → Option E → Waiting S → Outcome (Waiting S) E (Unit {0})
    unfolding after_call
    retry_rounds zero i none t = ok tt t
    retry_rounds zero i (some e) t = err e t
    retry_rounds (suc n) i last t =
        after_call i (λ e. retry_rounds n (i + 1) (some e)) t (f t.state)

    -- `Retry`
    unfoldable pub retry : S → Outcome (Waiting S) E (Unit {0})
    unfolding retry_rounds
    retry s = retry_rounds 3 0 none (record { state = s; sleep_time = 1; slept = 0 })
