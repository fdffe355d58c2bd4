-- ===== src/Cli/Run.antt =====
-- `_make_client`, `_run_read`, `_run_write`, `_run_scan` and `main` of src/pymod/cli.py. The client
-- that the factory's settings lead to is a parameter: what its `connect` and its calls return.
-- Closing it raises nothing.
use pymod.Prelude.{ℕ, ◌+◌, max, Bool, true, false, Option, none, some, List, [], ◌∷◌, if◌then◌else◌}
use pymod.Prelude.Int.{ℤ, pos, negsuc}
use pymod.Text.{Text}
use pymod.Errors.{Exc, Result, ok, err, connection_error, index_error, is_modbus_error, ◌>>=◌, ◌>>◌}
use pymod.Bytes.{Bytes}
use pymod.Types.{ReadItem, ReadResult, WriteItem, WriteResult}
use pymod.Protocol.Pdu.{fc_read_holding_registers, detect_exception}
use pymod.Protocol.Pdu.Request.{encode_read_holding_registers}
use pymod.Client.{Backoff, RetryPolicy}
use pymod.Client.Factory.{AsyncClient, tcp, rtu, rtu_over_tcp}
use pymod.Cli.{
  Cli, done, system_exit, raised, TransportArgs, CallArgs, ReadArgs, WriteArgs, ScanArgs,
}
use pymod.Cli.Items.{build_read_item, build_write_item}
use pymod.Cli.Display.{Exit, json_alive, alive, emit_read_result, emit_write_result, emit_failure}

-- `max(1, retries + 1)`
unfoldable pub attempts_for : ℤ → ℕ
attempts_for (pos n) = max 1 (n + 1)
attempts_for (negsuc n) = 1

-- `bool(s)` of an optional text.
abbrev pub given : Option Text → Option Text
given none = none
given (some []) = none
given (some (c ∷ s)) = some (c ∷ s)

-- The dataclass defaults of `RetryPolicy` are the policy `defaults`, 3.0 is `three_s`.
module _ (times : Backoff) (F : Type 0) (defaults : RetryPolicy times) (three_s : F) where
  unfoldable pub retry_for : ℤ → RetryPolicy times
  unfolding attempts_for
  retry_for retries = record {
    max_attempts = attempts_for retries;
    backoff_initial_s = defaults.backoff_initial_s;
    backoff_factor = defaults.backoff_factor;
    backoff_cap_s = defaults.backoff_cap_s;
    retry_on = defaults.retry_on;
  }

  unfoldable pub make_client : TransportArgs F → CallArgs F → Cli (AsyncClient times F)
  unfolding retry_for tcp rtu rtu_over_tcp
  make_client args call = elim (given args.rtu) [
    | some path ↦ done (
        rtu times F defaults path args.baudrate args.bytesize args.parity args.stopbits call.unit_id
          call.timeout_s (some (retry_for call.retries)) none)
    | none ↦ elim (given args.host) [
      | none ↦ system_exit
      | some host ↦
          if args.rtu_over_tcp
          then done (
              rtu_over_tcp times F defaults host args.port call.unit_id call.timeout_s
                (some (retry_for call.retries)) three_s)
          else done (
              tcp times F defaults host args.port call.unit_id call.timeout_s
                (some (retry_for call.retries)) true three_s)
    ]
  ]

-- What the calls of an opened client return.
pub record ClientCalls (F : Type 0) : Type 0 where
  pub connect : Result (Unit {0})
  pub read : List ReadItem → Result (List (ReadResult F))
  pub write : List (WriteItem F) → Result (List (WriteResult F))
  pub execute : Bytes → Result Bytes

module _ {F : Type 0} where
  -- `except ModbusConnectionError`, then `except ModbusError`.
  unfoldable pub caught : Bool → Exc → Cli (Exit F)
  unfolding emit_failure
  caught json_mode connection_error = done (emit_failure json_mode connection_error 2)
  caught json_mode e = if is_modbus_error e then done (emit_failure json_mode e 1) else raised e

  -- `results[0]` and what is emitted for it, or the `except` clauses.
  unfoldable pub finish : {R : Type 0} → Bool → (R → Exit F) → Result (List R) → Cli (Exit F)
  unfolding caught
  finish json_mode emit (err e) = caught json_mode e
  finish json_mode emit (ok []) = raised index_error
  finish json_mode emit (ok (result ∷ rest)) = done (emit result)

  -- The answer of `_run_scan` to a response PDU.
  unfoldable pub report_alive : Bool → Option Exc → Exit F
  report_alive true e = record { code = 0; printed = json_alive e ∷ [] }
  report_alive false e = record { code = 0; printed = alive e ∷ [] }

  -- `_run_scan` after the `try`: `detect_exception` may raise there.
  unfoldable pub probe : Bool → Result Bytes → Cli (Exit F)
  unfolding caught report_alive
  probe json_mode (err e) = caught json_mode e
  probe json_mode (ok pdu) = elim (detect_exception pdu fc_read_holding_registers) [
    | err e ↦ raised e
    | ok exc ↦ done (report_alive json_mode exc)
  ]

module _ (times : Backoff) (F : Type 0) (defaults : RetryPolicy times) (three_s : F)
    (to_float : Text → Result F) (str_float : F → Text)
    (calls : AsyncClient times F → ClientCalls F) where
  -- `async with client` around the call, and what is made of the result.
  unfoldable pub with_client :
      TransportArgs F → CallArgs F → (ClientCalls F → Cli (Exit F)) → Cli (Exit F)
  unfolding make_client
  with_client args call body = elim (make_client times F defaults three_s args call) [
    | system_exit ↦ system_exit
    | raised e ↦ raised e
    | done client ↦ body (calls client)
  ]

  unfoldable pub run_read : ReadArgs F → Cli (Exit F)
  unfolding build_read_item with_client finish
  run_read args = elim (build_read_item args) [
    | system_exit ↦ system_exit
    | raised e ↦ raised e
    | done item ↦ with_client args.transport args.call λ client.
        finish args.json (λ result. emit_read_result str_float result args.json)
          (client.connect >> client.read (item ∷ []))
  ]

  unfoldable pub run_write : WriteArgs F → Cli (Exit F)
  unfolding build_write_item with_client finish
  run_write args = elim (build_write_item to_float args) [
    | system_exit ↦ system_exit
    | raised e ↦ raised e
    | done item ↦ with_client args.transport args.call λ client.
        finish args.json (λ result. emit_write_result result args.json)
          (client.connect >> client.write (item ∷ []))
  ]

  -- The argument of `execute` is evaluated after the connection is made.
  unfoldable pub run_scan : ScanArgs F → Cli (Exit F)
  unfolding with_client probe
  run_scan args = with_client args.transport args.call λ client.
      probe args.json
        (client.connect >> (encode_read_holding_registers args.start 1 >>= client.execute))

-- The parsed command: its subcommand with its arguments. `serve` runs until it is interrupted.
pub data Command (F : Type 0) : Type 0 where
  read_command : ReadArgs F → Command F
  write_command : WriteArgs F → Command F
  scan_command : ScanArgs F → Command F
  serve_command : Command F

-- A run that Ctrl-C, or the end of the input, may cut off.
pub data Attempt {ℓ} (A : Type ℓ) : Type ℓ where
  finished : A → Attempt A
  interrupted : Attempt A

module _ {F : Type 0} where
  -- `try: return asyncio.run(…) except KeyboardInterrupt: return 130`
  unfoldable pub run_or_130 : Attempt (Cli (Exit F)) → Cli ℕ
  run_or_130 interrupted = done 130
  run_or_130 (finished system_exit) = system_exit
  run_or_130 (finished (raised e)) = raised e
  run_or_130 (finished (done exit)) = done exit.code

  -- The wizard is the argument `wizard`; it returns nothing when the user declines.
  unfoldable pub dispatch_guide :
      (Command F → Attempt (Cli (Exit F))) → Attempt (Option (Command F)) → Cli ℕ
  unfolding run_or_130
  dispatch_guide run interrupted = done 130
  dispatch_guide run (finished none) = done 0
  dispatch_guide run (finished (some command)) = run_or_130 (run command)

  -- `main` once the arguments are parsed: `guide` is the flag, the command may be missing.
  unfoldable pub main :
      (Command F → Attempt (Cli (Exit F)))
      → Attempt (Option (Command F))
      → Bool
      → Option (Command F)
      → Cli ℕ
  unfolding dispatch_guide
  main run wizard true command = dispatch_guide run wizard
  main run wizard false none = done 2
  main run wizard false (some command) = run_or_130 (run command)

module _ (times : Backoff) (F : Type 0) (defaults : RetryPolicy times) (three_s : F)
    (to_float : Text → Result F) (str_float : F → Text)
    (calls : AsyncClient times F → ClientCalls F) where
  -- `_run`, when Ctrl-C does not cut it off; nothing else ends `serve`.
  unfoldable pub run : Command F → Attempt (Cli (Exit F))
  unfolding run_read run_write run_scan
  run (read_command args) =
      finished (run_read times F defaults three_s to_float str_float calls args)
  run (write_command args) =
      finished (run_write times F defaults three_s to_float str_float calls args)
  run (scan_command args) =
      finished (run_scan times F defaults three_s to_float str_float calls args)
  run serve_command = interrupted
