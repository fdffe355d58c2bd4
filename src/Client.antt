-- ===== src/Client.antt =====
-- src/pymod/retry.py and `execute` of src/pymod/client.py: the attempts at one request.
-- The transport is a parameter: `send k` is the outcome of the `k`-th attempt, counted from 1. The
-- backoff is a number of seconds of the type of `Backoff`, and sleeping leaves no trace but the
-- list of the delays.
pub mod Batch
pub mod Factory
pub mod Sync
pub mod Runs
pub mod Retry
use pymod.Prelude.{
  ℕ, zero, suc, ◌+◌, ◌-◌, ltb, Bool, true, false, List, [], ◌∷◌, ◌++◌, if◌then◌else◌,
}
use pymod.Errors.{Exc, Result, ok, err, timeout_error, connection_error, assertion_error}
use pymod.Bytes.{Bytes}

-- The arithmetic of Python's floats that `delay_for` uses.
pub record Backoff : Type 1 where
  pub Seconds : Type 0
  pub no_delay : Seconds
  -- `min(initial * factor ** n, cap)`
  pub capped_power : Seconds → Seconds → Seconds → ℕ → Seconds

module _ (times : Backoff) where
  open times use {Seconds}

  -- `retry_on` as the test that `isinstance` makes.
  pub record RetryPolicy : Type 0 where
    pub max_attempts : ℕ
    pub backoff_initial_s : Seconds
    pub backoff_factor : Seconds
    pub backoff_cap_s : Seconds
    pub retry_on : Exc → Bool

  unfoldable pub delay_for : RetryPolicy → ℕ → Seconds
  delay_for policy zero = times.no_delay
  delay_for policy (suc n) =
      times.capped_power policy.backoff_initial_s policy.backoff_factor policy.backoff_cap_s n

  -- What one call of `execute` did: its outcome, the number of attempts, the delays before them.
  pub record Run : Type 0 where
    pub outcome : Result Bytes
    pub attempts : ℕ
    pub delays : List Seconds

  -- What an attempt's outcome leads to; `next` is the run from the attempt after it.
  unfoldable pub settle : RetryPolicy → ℕ → List Seconds → Run → Result Bytes → Run
  settle policy attempt delays next (ok pdu) = record {
    outcome = ok pdu;
    attempts = attempt;
    delays = delays;
  }
  settle policy attempt delays next (err e) =
      if policy.retry_on e
      then if ltb attempt policy.max_attempts
        then next
        else record { outcome = err e; attempts = attempt; delays = delays }
      else record { outcome = err e; attempts = attempt; delays = delays }

  -- The delays after the sleep before `attempt`.
  unfoldable pub delays_at : RetryPolicy → ℕ → List Seconds → List Seconds
  unfolding delay_for
  delays_at policy attempt delays =
      if ltb 1 attempt then delays ++ (delay_for policy (attempt - 1) ∷ []) else delays

  -- The loop from `attempt` on, with `left` attempts of the range left.
  unfoldable pub attempt_loop : RetryPolicy → (ℕ → Result Bytes) → ℕ → ℕ → List Seconds → Run
  unfolding settle delays_at
  attempt_loop policy send zero attempt delays = record {
    outcome = err assertion_error;
    attempts = attempt - 1;
    delays = delays;
  }
  attempt_loop policy send (suc left) attempt delays =
      settle policy attempt (delays_at policy attempt delays)
        (attempt_loop policy send left (attempt + 1) (delays_at policy attempt delays))
        (send attempt)

  unfoldable pub execute : RetryPolicy → (ℕ → Result Bytes) → Run
  unfolding attempt_loop
  execute policy send = attempt_loop policy send policy.max_attempts 1 []

-- The default of `retry_on`.
unfoldable pub retry_on_default : Exc → Bool
retry_on_default timeout_error = true
retry_on_default connection_error = true
retry_on_default _ = false
