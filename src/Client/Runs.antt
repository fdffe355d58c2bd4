-- ===== src/Client/Runs.antt =====
-- A call that times out once and is then answered, and the theorem at it.
use pymod.Prelude.{ℕ, ◌*◌, ◌^◌, min, ◌==◌, ◌≡◌, refl, [], ◌∷◌, arith, if◌then◌else◌}
use pymod.Errors.{Result, ok, err, timeout_error}
use pymod.Bytes.{Bytes}
use pymod.Client.{Backoff, RetryPolicy, execute, retry_on_default}
use pymod.Client.Retry.{RunsWell, execute_lem}

-- Delays in whole milliseconds.
abbrev pub milliseconds : Backoff
milliseconds = record {
  Seconds = ℕ;
  no_delay = 0;
  capped_power = λ initial factor cap n. min (initial * factor ^ n) cap;
}

abbrev pub default_policy : RetryPolicy milliseconds
default_policy = record {
  max_attempts = 2;
  backoff_initial_s = 50;
  backoff_factor = 2;
  backoff_cap_s = 1000;
  retry_on = retry_on_default;
}

abbrev second_time : ℕ → Result Bytes
second_time k = if k == 1 then err timeout_error else ok (3 ∷ 2 ∷ 0 ∷ 7 ∷ [])

second_time_run :
    execute milliseconds default_policy second_time
    ≡ record { outcome = ok (3 ∷ 2 ∷ 0 ∷ 7 ∷ []); attempts = 2; delays = 50 ∷ [] }
unfolding execute retry_on_default
second_time_run = refl

execute_lem_example :
    RunsWell milliseconds default_policy second_time 1
      (execute milliseconds default_policy second_time)
execute_lem_example = execute_lem milliseconds default_policy second_time (omega arith)
