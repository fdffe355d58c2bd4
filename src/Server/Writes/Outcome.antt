-- ===== src/Server/Writes/Outcome.antt =====
-- What a write request comes to at the client: the reply of a callback that carries it out, and of one
-- that refuses it.
use pymod.Prelude.{ℕ, ◌<◌, ◌≡◌, refl, sym, ap, ◌∙◌, arith, true, false, some, List, [], ◌∷◌, length}
use mathlib.Core.Path.{subst}
use pymod.Errors.{ExceptionClass, Exc, exception_response, Result, ok, err, ◌>>=◌, bind_ok}
use pymod.Types.{Area}
use pymod.Bytes.{Bytes}
use pymod.Protocol.Pdu.Request.{encode_write_single_coil, encode_write_single_register}
use pymod.Protocol.Pdu.Response.{
  decode_write_single_coil, decode_write_single_register, decode_write_multiple_coils,
  decode_write_multiple_registers, decode_echo,
}
use pymod.Protocol.Pdu.{detect_exception, raise_exception}
use pymod.Protocol.Pdu.SlaveResponse.{
  encode_response_write_single_coil, encode_response_write_single_register,
  encode_response_write_multiple_coils, encode_response_write_multiple_registers,
}
use pymod.Protocol.Pdu.RoundTrip.{multiple_coils_bytes, multiple_registers_bytes}
use pymod.Protocol.Pdu.Replies.{
  documented, class_in, write_responses, detect_exception-encode_exception_response,
}
use pymod.Planner.Write.{Payload, register_values, coil_values, request_write}
use pymod.Server.{Datum, Server, handle, catch_handler, is_foreign, dispatch}
use pymod.Server.Writes.{
  encode_payload, payload_area, payload_data, encode_reply, decode_reply, write_code,
  handle-payload, payload_head,
}

-- The replies are formed, and the client accepts them.
reply_accepted :
    (start : ℕ) (p : Payload) {pdu : Bytes}
    → encode_payload start p ≡ ok pdu
    → (resp : Bytes) × (encode_reply start p ≡ ok resp) × (decode_reply p resp ≡ ok tt)
unfolding encode_write_single_coil encode_write_single_register
reply_accepted start (register_values (v ∷ [])) h =
    let (resp, e, d) =
      bind_ok (encode_response_write_single_register start v) decode_write_single_register
        (start, v) (write_responses start v true (ground arith) (ground arith)).1 in
    (resp, e, rw d refl)
reply_accepted start (register_values []) h =
    let (_, lo, _, _) = multiple_registers_bytes start [] h in absurd (omega arith)
reply_accepted start (register_values (v ∷ u ∷ vs)) h =
    let (hs, lo, hi, _) = multiple_registers_bytes start (v ∷ u ∷ vs) h in
    let n = length (v ∷ u ∷ vs) in
    let (resp, e, d) =
      bind_ok (encode_response_write_multiple_registers start n) decode_write_multiple_registers
        (start, n) (write_responses start n true hs (omega arith)).3 in
    (resp, e, rw d refl)
reply_accepted start (coil_values (v ∷ [])) h =
    let (resp, e, d) =
      bind_ok (encode_response_write_single_coil start v) decode_write_single_coil (start, v)
        (write_responses start 0 v (ground arith) (omega arith)).0 in
    (resp, e, rw d refl)
reply_accepted start (coil_values []) h =
    let (_, lo, _, _) = multiple_coils_bytes start [] h in absurd (omega arith)
reply_accepted start (coil_values (v ∷ u ∷ vs)) h =
    let (hs, lo, hi, _) = multiple_coils_bytes start (v ∷ u ∷ vs) h in
    let n = length (v ∷ u ∷ vs) in
    let (resp, e, d) =
      bind_ok (encode_response_write_multiple_coils start n) decode_write_multiple_coils (start, n)
        (write_responses start n true hs (omega arith)).2 in
    (resp, e, rw d refl)

-- What the client does with the reply to a request that it formed.
request_write-replies :
    (start : ℕ) (p : Payload) (pdu : Bytes) (execute : Bytes → Result Bytes)
    → encode_payload start p ≡ ok pdu
    → request_write start p execute ≡ (execute pdu >>= decode_reply p)
unfolding request_write
request_write-replies start (register_values (v ∷ [])) pdu execute h = rw h refl
request_write-replies start (register_values []) pdu execute h = rw h refl
request_write-replies start (register_values (v ∷ u ∷ vs)) pdu execute h = rw h refl
request_write-replies start (coil_values (v ∷ [])) pdu execute h = rw h refl
request_write-replies start (coil_values []) pdu execute h = rw h refl
request_write-replies start (coil_values (v ∷ u ∷ vs)) pdu execute h = rw h refl

-- The decoders of the replies raise the exception that they detect.
decode_reply-exception :
    (p : Payload) (resp : Bytes) (e : Exc)
    → detect_exception resp (write_code p) ≡ ok (some e)
    → decode_reply p resp ≡ err e
unfolding decode_write_single_coil decode_write_single_register decode_write_multiple_coils
    decode_write_multiple_registers decode_echo raise_exception
decode_reply-exception (register_values (v ∷ [])) resp e h = rw h refl
decode_reply-exception (register_values []) resp e h = rw h refl
decode_reply-exception (register_values (v ∷ u ∷ vs)) resp e h = rw h refl
decode_reply-exception (coil_values (v ∷ [])) resp e h = rw h refl
decode_reply-exception (coil_values []) resp e h = rw h refl
decode_reply-exception (coil_values (v ∷ u ∷ vs)) resp e h = rw h refl

write_code-lt : (p : Payload) → write_code p < 128
write_code-lt (register_values (v ∷ [])) = omega arith
write_code-lt (register_values []) = omega arith
write_code-lt (register_values (v ∷ u ∷ vs)) = omega arith
write_code-lt (coil_values (v ∷ [])) = omega arith
write_code-lt (coil_values []) = omega arith
write_code-lt (coil_values (v ∷ u ∷ vs)) = omega arith

module _ {S : Type 0} (server : Server S) (w : S → Area → ℕ → List Datum → S × Result (Unit {0}))
    (writable : server.on_write ≡ some w) (uid : ℕ) (own : is_foreign server uid ≡ false) where
  -- A server that serves the unit and takes writes, and whose callback carries out a write that the
  -- client's encoder accepts: the callback gets exactly the client's values at their address, the
  -- server is in the state that the callback leaves, and the client's request succeeds.
  pub dispatch-write :
      (start : ℕ) (p : Payload) (pdu : Bytes) (s after : S)
      → encode_payload start p ≡ ok pdu
      → w s (payload_area p) start (payload_data p) ≡ (after, ok tt)
      → ((dispatch server uid pdu s).0 ≡ after)
        × (request_write start p (λ b. (dispatch server uid b s).1) ≡ ok tt)
  unfolding dispatch catch_handler
  dispatch-write start p pdu s after h hw =
      let (rest, e) = payload_head start p h in
      let (resp, r, d) = reply_accepted start p h in
      let handled : handle server (write_code p) pdu s ≡ (after, ok resp) =
        handle-payload server w writable start p pdu s after (ok tt) h hw
        ∙ ap (λ (m : Result Bytes). (after, m)) r in
      let whole : dispatch server uid pdu s ≡ (after, ok resp) =
        subst
          (λ (b : Bytes).
            handle server (write_code p) b s ≡ (after, ok resp)
            → dispatch server uid b s ≡ (after, ok resp))
          (sym e) (λ t. rw (own, t) refl) handled in
      (
        ap (λ (t : S × Result Bytes). t.0) whole,
        request_write-replies start p pdu (λ b. (dispatch server uid b s).1) h ∙ (rw whole d),
      )

  -- A server that serves the unit and takes writes, and whose callback refuses a write that the
  -- client's encoder accepts with a Modbus exception whose code fits a byte: the server is in the
  -- state that the callback leaves, and the client raises the class of that code with the code kept.
  pub dispatch_refused :
      (start : ℕ) (p : Payload) (pdu : Bytes) (s after : S) (cls : ExceptionClass) (code : ℕ)
      → encode_payload start p ≡ ok pdu
      → code < 256
      → w s (payload_area p) start (payload_data p) ≡ (after, err (exception_response cls code))
      → ((dispatch server uid pdu s).0 ≡ after)
        × (request_write start p (λ b. (dispatch server uid b s).1)
            ≡ err (exception_response (class_in documented code) code))
  unfolding dispatch catch_handler
  dispatch_refused start p pdu s after cls code h hc hw =
      let (rest, e) = payload_head start p h in
      let (resp, r, d) =
        detect_exception-encode_exception_response (write_code p) code (write_code-lt p) hc in
      let handled : handle server (write_code p) pdu s
          ≡ (after, err (exception_response cls code)) =
        handle-payload server w writable start p pdu s after (err (exception_response cls code)) h
          hw in
      let whole : dispatch server uid pdu s ≡ (after, ok resp) =
        subst
          (λ (b : Bytes).
            handle server (write_code p) b s ≡ (after, err (exception_response cls code))
            → dispatch server uid b s ≡ (after, ok resp))
          (sym e) (λ t. rw (own, t, r) refl) handled in
      (
        ap (λ (t : S × Result Bytes). t.0) whole,
        request_write-replies start p pdu (λ b. (dispatch server uid b s).1) h
            ∙ rw whole (
                decode_reply-exception p resp (exception_response (class_in documented code) code)
                  d),
      )
