-- ===== src/Server/Total/Handlers.antt =====
-- The branches of `_handle` of src/pymod/server.py: their replies, and the codes of what they
-- raise.
use pymod.Prelude.{
  ℕ, ◌≡◌, refl, Bool, true, false, Option, none, some, List, [], ◌∷◌, map, length, if◌then◌else◌,
  ◌==◌, leb, bit_and, bit_or,
}
use pymod.Errors.{ExceptionClass, class_code, value_error, Result, ok, err, ◌>>=◌, ◌>>◌, guard}
use pymod.Types.{Area}
use pymod.Bytes.{Bytes}
use pymod.Protocol.Pdu.Requests.{
  LengthWithin, CountWithin, request_limit, decode_request-Decodes,
  decode_request_write_multiple_coils-Decodes, decode_request_write_multiple_registers-Decodes,
}
use pymod.Protocol.Pdu.SlaveRequest.{
  decode_request_write_single_coil, decode_request_write_single_register,
  decode_request_write_multiple_coils, decode_request_write_multiple_registers,
}
use pymod.Protocol.Pdu.RoundTrip.{decode_request}
use pymod.Protocol.Pdu.SlaveResponse.{
  encode_response_read_coils, encode_response_read_discrete_inputs,
  encode_response_read_holding_registers, encode_response_read_input_registers,
  encode_exception_response, encode_response_write_single_coil,
  encode_response_write_single_register, encode_response_write_multiple_coils,
  encode_response_write_multiple_registers,
}
use pymod.Server.{
  Datum, boolean, Server, datum_of, handle_read, handle_write, handle_writes, handle, is_write_fc,
  to_bool_list, to_int_list,
}
use pymod.Server.Total.Codes.{
  RaisesBytes, RaisesBytes-bind, RaisesBytes-guard, Decodes-RaisesBytes, pack_bhh-RaisesBytes,
  write_single_coil-RaisesBytes, write_single_register-RaisesBytes, coils-RaisesBytes,
  discrete_inputs-RaisesBytes, holding_registers-RaisesBytes, input_registers-RaisesBytes,
}

exception-RaisesBytes : (fc code : ℕ) → RaisesBytes (encode_exception_response fc code)
unfolding encode_exception_response
exception-RaisesBytes fc code =
    let reply : Result Bytes = ok (bit_and (bit_or fc 0x80) 0xFF ∷ code ∷ []) in
    RaisesBytes-guard (leb fc 0xFF) value_error (guard (leb code 0xFF) value_error >> reply) tt
      (RaisesBytes-guard (leb code 0xFF) value_error reply tt tt)

-- The callbacks raise exception responses only with codes that fit a byte.
abbrev pub CallbacksFit : {S : Type 0} → Server S → Type 0
CallbacksFit {S} server =
    ((s : S) (area : Area) (x n : ℕ) → RaisesBytes (server.on_read s area x n).1)
    × ((w : S → Area → ℕ → List Datum → S × Result (Unit {0}))
        → server.on_write ≡ some w
        → (s : S) (area : Area) (x : ℕ) (vs : List Datum) → RaisesBytes (w s area x vs).1)

-- What a handler comes to: the device after it, and a reply or such an exception.
pub data Handles {S : Type 0} : S × Result Bytes → Type 0 where
  handles : (t : S × Result Bytes) → RaisesBytes t.1 → Handles t

module _ {S : Type 0} (server : Server S) (fits : CallbacksFit server) where
  handle_read-Handles :
      (area : Area) (m : Result (ℕ × ℕ)) (respond : List Datum → ℕ → Result Bytes) (s : S)
      → RaisesBytes m
      → ((vs : List Datum) (n : ℕ) → RaisesBytes (respond vs n))
      → Handles (handle_read server area m respond s)
  unfolding handle_read
  handle_read-Handles area (err e) respond s h hr = handles (s, err e) h
  handle_read-Handles area (ok (start, count)) respond s h hr =
      let (after, values) = server.on_read s area start count in
      handles (after, values >>= λ vs. respond vs count)
        (RaisesBytes-bind values (λ vs. respond vs count) (fits.0 s area start count)
          λ vs. hr vs count)

  handle_write-Handles :
      (w : S → Area → ℕ → List Datum → S × Result (Unit {0}))
      → server.on_write ≡ some w
      → (area : Area) (m : Result (ℕ × List Datum)) (respond : ℕ → List Datum → Result Bytes)
        (s : S)
      → RaisesBytes m
      → ((n : ℕ) (vs : List Datum) → RaisesBytes (respond n vs))
      → Handles (handle_write server w area m respond s)
  unfolding handle_write
  handle_write-Handles w e area (err x) respond s h hr = handles (s, err x) h
  handle_write-Handles w e area (ok (start, values)) respond s h hr =
      let (after, done) = w s area start values in
      handles (after, done >> respond start values)
        (RaisesBytes-bind done (λ x. respond start values) (fits.1 w e s area start values)
          λ x. hr start values)

  branch-Handles :
      (b : Bool) (p q : S × Result Bytes) → Handles p → Handles q → Handles (if b then p else q)
  branch-Handles true p q hp hq = hp
  branch-Handles false p q hp hq = hq

  decoded-Handles :
      {A : Type 0} (m : Result A) (k : A → S × Result Bytes) (s : S)
      → RaisesBytes m
      → ((a : A) → Handles (k a))
      → Handles (elim m as (λ x. S × Result Bytes) [ err e ↦ (s, err e) | ok a ↦ k a ])
  decoded-Handles (err e) k s h hk = handles (s, err e) h
  decoded-Handles (ok a) k s h hk = hk a

  handle_writes-Handles :
      (w : S → Area → ℕ → List Datum → S × Result (Unit {0}))
      → server.on_write ≡ some w
      → (fc : ℕ) (pdu : Bytes) (s : S) → Handles (handle_writes server w fc pdu s)
  unfolding handle_writes encode_response_write_single_coil encode_response_write_single_register
      encode_response_write_multiple_coils encode_response_write_multiple_registers
  handle_writes-Handles w e fc pdu s =
      branch-Handles (fc == 5) _ _
        (decoded-Handles (decode_request_write_single_coil pdu) _ s
          (write_single_coil-RaisesBytes pdu)
          λ (a, v).
            handle_write-Handles w e Area.coil (ok (a, boolean v ∷ []))
              (λ addr vs. encode_response_write_single_coil addr v) s tt
              λ n vs. pack_bhh-RaisesBytes 5 n (if v then 0xFF00 else 0))
        (branch-Handles (fc == 6) _ _
          (decoded-Handles (decode_request_write_single_register pdu) _ s
            (write_single_register-RaisesBytes pdu)
            λ (a, v).
              handle_write-Handles w e Area.holding_register (ok (a, datum_of server v ∷ []))
                (λ addr vs. encode_response_write_single_register addr v) s tt
                λ n vs. pack_bhh-RaisesBytes 6 n v)
          (branch-Handles (fc == 15) _ _
            (handle_write-Handles w e Area.coil
              (decode_request_write_multiple_coils pdu >>= λ (start, bits).
                ok (start, map boolean bits))
              (λ start bits. encode_response_write_multiple_coils start (length bits)) s
              (RaisesBytes-bind (decode_request_write_multiple_coils pdu)
                (λ (start, bits). ok (start, map boolean bits))
                (Decodes-RaisesBytes (LengthWithin 1968) (decode_request_write_multiple_coils pdu)
                  (decode_request_write_multiple_coils-Decodes pdu))
                λ p. tt)
              λ n vs. pack_bhh-RaisesBytes 15 n (length vs))
            (handle_write-Handles w e Area.holding_register
              (decode_request_write_multiple_registers pdu >>= λ (start, regs).
                ok (start, map (datum_of server) regs))
              (λ start regs. encode_response_write_multiple_registers start (length regs)) s
              (RaisesBytes-bind (decode_request_write_multiple_registers pdu)
                (λ (start, regs). ok (start, map (datum_of server) regs))
                (Decodes-RaisesBytes (LengthWithin 123)
                  (decode_request_write_multiple_registers pdu)
                  (decode_request_write_multiple_registers-Decodes pdu))
                λ p. tt)
              λ n vs. pack_bhh-RaisesBytes 16 n (length vs))))

  decode_request-Handles :
      (area : Area) (respond : List Datum → ℕ → Result Bytes) (pdu : Bytes) (s : S)
      → ((vs : List Datum) (n : ℕ) → RaisesBytes (respond vs n))
      → Handles (handle_read server area (decode_request area pdu) respond s)
  decode_request-Handles area respond pdu s hr =
      handle_read-Handles area (decode_request area pdu) respond s
        (Decodes-RaisesBytes (CountWithin (request_limit area)) (decode_request area pdu)
          (decode_request-Decodes area pdu))
        hr

  refusal-Handles :
      (fc : ℕ) (s : S)
      → Handles (s, encode_exception_response fc (class_code ExceptionClass.illegal_function))
  refusal-Handles fc s =
      handles (s, encode_exception_response fc (class_code ExceptionClass.illegal_function))
        (exception-RaisesBytes fc (class_code ExceptionClass.illegal_function))

  optional-Handles :
      (fc : ℕ) (pdu : Bytes) (s : S)
      → (o : Option (S → Area → ℕ → List Datum → S × Result (Unit {0}))) → server.on_write ≡ o
      → Handles (elim o as (λ x. S × Result Bytes) [
        | none ↦ (s, encode_exception_response fc (class_code ExceptionClass.illegal_function))
        | some w ↦ handle_writes server w fc pdu s
      ])
  optional-Handles fc pdu s none e = refusal-Handles fc s
  optional-Handles fc pdu s (some w) e = handle_writes-Handles w e fc pdu s

  pub handle-Handles : (fc : ℕ) (pdu : Bytes) (s : S) → Handles (handle server fc pdu s)
  unfolding handle
  handle-Handles fc pdu s =
      branch-Handles (fc == 1) _ _
        (decode_request-Handles Area.coil (λ vs n. to_bool_list vs n >>= encode_response_read_coils)
          pdu s coils-RaisesBytes)
        (branch-Handles (fc == 2) _ _
          (decode_request-Handles Area.discrete_input
            (λ vs n. to_bool_list vs n >>= encode_response_read_discrete_inputs) pdu s
            discrete_inputs-RaisesBytes)
          (branch-Handles (fc == 3) _ _
            (decode_request-Handles Area.holding_register
              (λ vs n. to_int_list vs n >>= encode_response_read_holding_registers) pdu s
              holding_registers-RaisesBytes)
            (branch-Handles (fc == 4) _ _
              (decode_request-Handles Area.input_register
                (λ vs n. to_int_list vs n >>= encode_response_read_input_registers) pdu s
                input_registers-RaisesBytes)
              (branch-Handles (is_write_fc server fc) _ _
                (optional-Handles fc pdu s server.on_write refl) (refusal-Handles fc s)))))
