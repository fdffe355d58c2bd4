-- ===== src/Cli/Simulator/Served.antt =====
-- The memory of `serve` in src/pymod/cli.py behind the server: a write of a client, and then a
-- read.
use pymod.Prelude.{
  ℕ, ◌≤◌, ◌≡◌, refl, sym, ap, ◌∙◌, arith, Bool, false, Option, List, [], ◌∷◌, map, length,
  length-map, All,
}
use mathlib.Core.Path.{subst}
use pymod.Prelude.Int.{pos}
use pymod.Errors.{Result, ok, ◌>>=◌}
use pymod.Types.{Area}
use pymod.Bytes.{Bytes, IsWord}
use pymod.Protocol.Pdu.Request.{encode_write_single_register, encode_write_multiple_registers}
use pymod.Protocol.Pdu.Response.{decode_read_holding_registers, decode_read_coils}
use pymod.Protocol.Pdu.RoundTrip.{
  encode_request, decode_request, decode_request-encode_request, multiple_coils_bytes,
  check_values-IsWord,
}
use pymod.Protocol.Pdu.Replies.{register_responses, bit_responses}
use pymod.Planner.Write.{Payload, register_values, coil_values, request_write}
use pymod.Server.{Datum, integer, boolean, handle, handle_read, catch_handler, is_foreign, dispatch}
use pymod.Server.System.{to_int_list-words, to_bool_list-booleans, request_head, function_code}
use pymod.Server.Writes.{encode_payload, payload_area, payload_data}
use pymod.Server.Writes.Outcome.{dispatch-write}
use pymod.Cli.Simulator.{SimState, write_state, read_state, sim_server}
use pymod.Cli.Simulator.Memory.{read_state-write_state}

abbrev pub payload_length : Payload → ℕ
payload_length (register_values values) = length values
payload_length (coil_values values) = length values

-- The client's decoder of a read of the payload's area, for as many cells.
abbrev pub decode_values : Payload → Bytes → Result Payload
decode_values (register_values values) resp =
    decode_read_holding_registers resp (length values) >>= λ vs. ok (register_values vs)
decode_values (coil_values values) resp =
    decode_read_coils resp (length values) >>= λ vs. ok (coil_values vs)

payload_words :
    (start : ℕ) (values : List ℕ) {pdu : Bytes}
    → encode_payload start (register_values values) ≡ ok pdu
    → All IsWord values × (length values ≤ 123)
unfolding encode_write_single_register encode_write_multiple_registers
payload_words start [] h = (tt, omega arith)
payload_words start (v ∷ []) h = ((ground arith, tt), omega arith)
payload_words start (v ∷ u ∷ vs) h =
    (ground (arith, check_values-IsWord (v ∷ u ∷ vs)), ground arith)

payload_bits :
    (start : ℕ) (values : List Bool) {pdu : Bytes}
    → encode_payload start (coil_values values) ≡ ok pdu
    → length values ≤ 1968
payload_bits start [] h = omega arith
payload_bits start (v ∷ []) h = omega arith
payload_bits start (v ∷ u ∷ vs) h =
    let (_, _, hi, _) = multiple_coils_bytes start (v ∷ u ∷ vs) h in hi

-- The written range holds the data of the payload.
stored_data :
    (s : SimState) (start : ℕ) (p : Payload)
    → read_state
        (write_state s (payload_area p) start (payload_data p))
        (payload_area p)
        start
        (payload_length p)
      ≡ ok (payload_data p)
stored_data s start (register_values values) =
    ap
      (read_state (write_state s Area.holding_register start (map (λ v. integer (pos v)) values))
        Area.holding_register start)
      (sym (length-map (λ (v : ℕ). integer (pos v)) values))
    ∙ read_state-write_state s Area.holding_register start (map (λ v. integer (pos v)) values)
stored_data s start (coil_values values) =
    ap (read_state (write_state s Area.coil start (map boolean values)) Area.coil start)
      (sym (length-map boolean values))
    ∙ read_state-write_state s Area.coil start (map boolean values)

module _ (unit : Option ℕ) (uid : ℕ) (own : is_foreign (sim_server false unit) uid ≡ false) where
  -- A read request of a range that a state holds.
  handle-stored :
      (s : SimState) (start : ℕ) (p : Payload) (pdu req : Bytes)
      → encode_payload start p ≡ ok pdu
      → decode_request (payload_area p) req ≡ ok (start, payload_length p)
      → read_state s (payload_area p) start (payload_length p) ≡ ok (payload_data p)
      → (resp : Bytes) × (handle (sim_server false unit) (function_code (payload_area p)) req s
          ≡ (s, ok resp))
        × (decode_values p resp ≡ ok p)
  unfolding handle handle_read sim_server
  handle-stored s start (register_values values) pdu req h dec stored =
      let (words, len) = payload_words start values h in
      let (resp, e, d) = (register_responses values words (omega arith)).0 in
      (
        resp,
        rw (dec, stored, to_int_list-words values (length values) words refl, e) refl,
        rw d refl,
      )
  handle-stored s start (coil_values values) pdu req h dec stored =
      let (resp, e, d) = (bit_responses values (omega (arith, payload_bits start values h))).0 in
      (resp, rw (dec, stored, to_bool_list-booleans values (length values) refl, e) refl, rw d refl)

  dispatch-stored :
      (s : SimState) (start : ℕ) (p : Payload) (pdu req : Bytes)
      → encode_payload start p ≡ ok pdu
      → encode_request (payload_area p) start (payload_length p) ≡ ok req
      → read_state s (payload_area p) start (payload_length p) ≡ ok (payload_data p)
      → (resp : Bytes) × (dispatch (sim_server false unit) uid req s ≡ (s, ok resp))
        × (decode_values p resp ≡ ok p)
  unfolding dispatch catch_handler
  dispatch-stored s start p pdu req h hr stored =
      let (rest, e, _) = request_head (payload_area p) start (payload_length p) hr in
      let dec = decode_request-encode_request (payload_area p) start (payload_length p) hr in
      let (resp, handled, d) = handle-stored s start p pdu req h dec stored in
      let whole : dispatch (sim_server false unit) uid req s ≡ (s, ok resp) =
        subst
          (λ (b : Bytes).
            handle (sim_server false unit) (function_code (payload_area p)) b s ≡ (s, ok resp)
            → dispatch (sim_server false unit) uid b s ≡ (s, ok resp))
          (sym e) (λ t. rw (own, t) refl) handled in
      (resp, whole, d)

  -- On a writable simulator that serves the unit: a write that the client's encoder accepts
  -- succeeds, and a read of the same range by the client afterwards, of registers as of coils,
  -- returns the values that were written and leaves the state as it is.
  pub read_after_write :
      (s : SimState) (start : ℕ) (p : Payload) (pdu req : Bytes)
      → encode_payload start p ≡ ok pdu
      → encode_request (payload_area p) start (payload_length p) ≡ ok req
      → (request_write start p (λ b. (dispatch (sim_server false unit) uid b s).1) ≡ ok tt)
        × (resp : Bytes) × (dispatch
              (sim_server false unit)
              uid
              req
              (dispatch (sim_server false unit) uid pdu s).0
            ≡ ((dispatch (sim_server false unit) uid pdu s).0, ok resp))
        × (decode_values p resp ≡ ok p)
  unfolding sim_server
  read_after_write s start p pdu req h hr =
      let w : SimState → Area → ℕ → List Datum → SimState × Result (Unit {0}) =
        λ t area address values. (write_state t area address values, ok tt) in
      let after = write_state s (payload_area p) start (payload_data p) in
      let (moved, done) =
        dispatch-write (sim_server false unit) w refl uid own start p pdu s after h refl in
      let (resp, e, d) = dispatch-stored after start p pdu req h hr (stored_data s start p) in
      (done, resp, rw moved e, d)
