-- ===== src/Server.antt =====
-- src/pymod/server.py: the dispatch of a request PDU to the application's callbacks.
-- The application is a parameter: `S` is its state, and a callback is a function of the state that
-- returns the state after the call and a value or an exception. Whether a callback is awaited makes
-- no difference here. Cancellation, sockets and logging are left out.
pub mod Runs
pub mod Connection
pub mod System
pub mod Writes
pub mod Lifecycle
pub mod Total
use pymod.Prelude.{
  ℕ, ◌==◌, Bool, true, false, ◌&&◌, not, Option, none, some, List, [], ◌∷◌, map, length,
  if◌then◌else◌,
}
use pymod.Prelude.Int.{ℤ, pos, negsuc, leb_ℤ}
use pymod.Errors.{
  ExceptionClass, Exc, Result, ok, err, exception_response, new_response, class_code, ◌>>=◌, ◌>>◌,
  guard,
}
use pymod.Types.{Area}
use pymod.Bytes.{Bytes}
use pymod.Protocol.Pdu.{
  fc_read_coils, fc_read_discrete_inputs, fc_read_holding_registers, fc_read_input_registers,
  fc_write_single_coil, fc_write_single_register, fc_write_multiple_coils,
  fc_write_multiple_registers,
}
use pymod.Protocol.Pdu.SlaveRequest.{
  decode_request_read_coils, decode_request_read_discrete_inputs,
  decode_request_read_holding_registers, decode_request_read_input_registers,
  decode_request_write_single_coil, decode_request_write_single_register,
  decode_request_write_multiple_coils, decode_request_write_multiple_registers,
}
use pymod.Protocol.Pdu.SlaveResponse.{
  encode_response_read_coils, encode_response_read_discrete_inputs,
  encode_response_read_holding_registers, encode_response_read_input_registers,
  encode_response_write_single_coil, encode_response_write_single_register,
  encode_response_write_multiple_coils, encode_response_write_multiple_registers,
  encode_exception_response,
}

-- One element of a `Sequence[int | bool]`.
pub data Datum : Type 0 where
  integer : ℤ → Datum
  boolean : Bool → Datum

pub record Server (S : Type 0) : Type 0 where
  pub on_read : S → Area → ℕ → ℕ → S × Result (List Datum)
  pub on_write : Option (S → Area → ℕ → List Datum → S × Result (Unit {0}))
  pub unit_id : Option ℕ

-- `_GATEWAY_TARGET_FAILED_TO_RESPOND`
abbrev pub gateway_target : ℕ
gateway_target = 0x0B

-- `SlaveDeviceFailure(...)`
unfoldable pub device_failure : Exc
unfolding new_response
device_failure = new_response ExceptionClass.slave_device_failure none

-- `bool(v)`
unfoldable pub to_bool : Datum → Bool
to_bool (integer (pos n)) = not (n == 0)
to_bool (integer (negsuc n)) = true
to_bool (boolean b) = b

-- `int(v)`
unfoldable pub to_int : Datum → ℤ
to_int (integer n) = n
to_int (boolean b) = if b then pos 1 else pos 0

unfoldable pub to_bool_list : List Datum → ℕ → Result (List Bool)
unfolding to_bool device_failure
to_bool_list values expected_count = do
  guard (length values == expected_count) device_failure
  ok (map to_bool values)

-- The loop of `_to_int_list`.
unfoldable pub collect_words : List Datum → Result (List ℕ)
unfolding to_int device_failure
collect_words [] = ok []
collect_words (v ∷ vs) = do
  guard (leb_ℤ (pos 0) (to_int v) && leb_ℤ (to_int v) (pos 0xFFFF)) device_failure
  out ← collect_words vs
  elim (to_int v) [ pos n ↦ ok (n ∷ out) | negsuc n ↦ err device_failure ]

unfoldable pub to_int_list : List Datum → ℕ → Result (List ℕ)
unfolding collect_words device_failure
to_int_list values expected_count = do
  guard (length values == expected_count) device_failure
  collect_words values

module _ {S : Type 0} (server : Server S) where
  -- The four read branches of `_handle`.
  unfoldable pub handle_read :
      Area → Result (ℕ × ℕ) → (List Datum → ℕ → Result Bytes) → S → S × Result Bytes
  handle_read area (err e) respond s = (s, err e)
  handle_read area (ok (start, count)) respond s =
      let (after, values) = server.on_read s area start count in
      (after, values >>= λ vs. respond vs count)

  -- A write branch of `_handle`, once `on_write` is known to be there.
  unfoldable pub handle_write :
      (S → Area → ℕ → List Datum → S × Result (Unit {0}))
      → Area
      → Result (ℕ × List Datum)
      → (ℕ → List Datum → Result Bytes)
      → S
      → S × Result Bytes
  handle_write on_write area (err e) respond s = (s, err e)
  handle_write on_write area (ok (start, values)) respond s =
      let (after, done) = on_write s area start values in (after, done >> respond start values)

  abbrev pub datum_of : ℕ → Datum
  datum_of n = integer (pos n)

  unfoldable pub handle_writes :
      (S → Area → ℕ → List Datum → S × Result (Unit {0})) → ℕ → Bytes → S → S × Result Bytes
  unfolding handle_write
  handle_writes on_write fc pdu s =
      if fc == fc_write_single_coil
      then elim (decode_request_write_single_coil pdu) [
        | err e ↦ (s, err e)
        | ok (a, v) ↦
            handle_write on_write Area.coil (ok (a, boolean v ∷ []))
              (λ addr vs. encode_response_write_single_coil addr v) s
      ]
      else if fc == fc_write_single_register
      then elim (decode_request_write_single_register pdu) [
        | err e ↦ (s, err e)
        | ok (a, v) ↦
            handle_write on_write Area.holding_register (ok (a, datum_of v ∷ []))
              (λ addr vs. encode_response_write_single_register addr v) s
      ]
      else if fc == fc_write_multiple_coils
      then handle_write on_write Area.coil
          (decode_request_write_multiple_coils pdu >>= λ (start, bits).
            ok (start, map boolean bits))
          (λ start bits. encode_response_write_multiple_coils start (length bits)) s
      else handle_write on_write Area.holding_register
          (decode_request_write_multiple_registers pdu >>= λ (start, regs).
            ok (start, map datum_of regs))
          (λ start regs. encode_response_write_multiple_registers start (length regs)) s

  abbrev pub is_write_fc : ℕ → Bool
  is_write_fc fc =
      if fc == fc_write_single_coil
      then true
      else if fc == fc_write_single_register
      then true
      else if fc == fc_write_multiple_coils
      then true
      else fc == fc_write_multiple_registers

  unfoldable pub handle : ℕ → Bytes → S → S × Result Bytes
  unfolding handle_read handle_writes
  handle fc pdu s =
      if fc == fc_read_coils
      then handle_read Area.coil (decode_request_read_coils pdu)
          (λ vs n. to_bool_list vs n >>= encode_response_read_coils) s
      else if fc == fc_read_discrete_inputs
      then handle_read Area.discrete_input (decode_request_read_discrete_inputs pdu)
          (λ vs n. to_bool_list vs n >>= encode_response_read_discrete_inputs) s
      else if fc == fc_read_holding_registers
      then handle_read Area.holding_register (decode_request_read_holding_registers pdu)
          (λ vs n. to_int_list vs n >>= encode_response_read_holding_registers) s
      else if fc == fc_read_input_registers
      then handle_read Area.input_register (decode_request_read_input_registers pdu)
          (λ vs n. to_int_list vs n >>= encode_response_read_input_registers) s
      else if is_write_fc fc
      then elim server.on_write [
        | none ↦ (s, encode_exception_response fc (class_code ExceptionClass.illegal_function))
        | some on_write ↦ handle_writes on_write fc pdu s
      ]
      else (s, encode_exception_response fc (class_code ExceptionClass.illegal_function))

  -- The two `except` clauses of `_dispatch`.
  unfoldable pub catch_handler : ℕ → S × Result Bytes → S × Result Bytes
  catch_handler fc (s, ok pdu) = (s, ok pdu)
  catch_handler fc (s, err (exception_response cls code)) = (s, encode_exception_response fc code)
  catch_handler fc (s, err e) =
      (s, encode_exception_response fc (class_code ExceptionClass.slave_device_failure))

  -- `self._unit_id is not None and uid != self._unit_id`
  abbrev pub is_foreign : ℕ → Bool
  is_foreign uid = elim server.unit_id [ none ↦ false | some own ↦ not (uid == own) ]

  unfoldable pub dispatch : ℕ → Bytes → S → S × Result Bytes
  unfolding handle catch_handler
  dispatch uid [] s = (s, encode_exception_response 0 (class_code ExceptionClass.illegal_function))
  dispatch uid (fc ∷ rest) s =
      if is_foreign uid
      then (s, encode_exception_response fc gateway_target)
      else catch_handler fc (handle fc (fc ∷ rest) s)
