-- ===== src/Server/Writes.antt =====
-- The write requests of the planner at the server: what its `on_write` callback gets, and what the
-- client makes of the reply.
pub mod Outcome
use pymod.Prelude.{
  ℕ, ◌/◌, ◌%◌, ◌≡◌, refl, arith, true, false, some, List, [], ◌∷◌, map, length, length-map,
}
use pymod.Prelude.Int.{pos}
use pymod.Errors.{Result, ok, ◌>>=◌, ◌>>◌}
use pymod.Types.{Area}
use pymod.Bytes.{Bytes}
use pymod.Bytes.Laws.{pack_bhh_lem}
use pymod.Protocol.Pdu.Request.{
  encode_write_single_coil, encode_write_single_register, encode_write_multiple_coils,
  encode_write_multiple_registers,
}
use pymod.Protocol.Pdu.Response.{
  decode_write_single_coil, decode_write_single_register, decode_write_multiple_coils,
  decode_write_multiple_registers,
}
use pymod.Protocol.Pdu.SlaveResponse.{
  encode_response_write_single_coil, encode_response_write_single_register,
  encode_response_write_multiple_coils, encode_response_write_multiple_registers,
}
use pymod.Protocol.Pdu.RoundTrip.{
  request_write_single_coil, request_write_single_register, request_write_multiple_coils,
  request_write_multiple_registers, multiple_coils_bytes, multiple_registers_bytes,
}
use pymod.Planner.Write.{Payload, register_values, coil_values}
use pymod.Server.{Datum, integer, boolean, Server, handle, handle_writes, handle_write}

-- The request that `_execute_write_chunk` forms for its values.
abbrev pub encode_payload : ℕ → Payload → Result Bytes
encode_payload start (register_values (value ∷ [])) = encode_write_single_register start value
encode_payload start (register_values values) = encode_write_multiple_registers start values
encode_payload start (coil_values (value ∷ [])) = encode_write_single_coil start value
encode_payload start (coil_values values) = encode_write_multiple_coils start values

abbrev pub payload_area : Payload → Area
payload_area (register_values values) = Area.holding_register
payload_area (coil_values values) = Area.coil

abbrev pub payload_data : Payload → List Datum
payload_data (register_values values) = map (λ v. integer (pos v)) values
payload_data (coil_values values) = map boolean values

-- The reply to a write that the callback carried out.
abbrev pub encode_reply : ℕ → Payload → Result Bytes
encode_reply start (register_values (value ∷ [])) =
    encode_response_write_single_register start value
encode_reply start (register_values values) =
    encode_response_write_multiple_registers start (length values)
encode_reply start (coil_values (value ∷ [])) = encode_response_write_single_coil start value
encode_reply start (coil_values values) = encode_response_write_multiple_coils start (length values)

abbrev pub decode_reply : Payload → Bytes → Result (Unit {0})
decode_reply (register_values (value ∷ [])) resp = do _ ← decode_write_single_register resp; ok tt
decode_reply (register_values values) resp = do _ ← decode_write_multiple_registers resp; ok tt
decode_reply (coil_values (value ∷ [])) resp = do _ ← decode_write_single_coil resp; ok tt
decode_reply (coil_values values) resp = do _ ← decode_write_multiple_coils resp; ok tt

abbrev pub write_code : Payload → ℕ
write_code (register_values (value ∷ [])) = 6
write_code (register_values values) = 16
write_code (coil_values (value ∷ [])) = 5
write_code (coil_values values) = 15

module _ {S : Type 0} (server : Server S) (w : S → Area → ℕ → List Datum → S × Result (Unit {0}))
    (writable : server.on_write ≡ some w) where
  -- The callback gets the client's values, at the address and in the area of the request.
  pub handle-payload :
      (start : ℕ) (p : Payload) (pdu : Bytes) (s after : S) (outcome : Result (Unit {0}))
      → encode_payload start p ≡ ok pdu
      → w s (payload_area p) start (payload_data p) ≡ (after, outcome)
      → handle server (write_code p) pdu s ≡ (after, outcome >> encode_reply start p)
  unfolding handle handle_writes handle_write
  handle-payload start (register_values (v ∷ [])) pdu s after outcome h hw =
      rw (writable, request_write_single_register start v h, hw) refl
  handle-payload start (register_values []) pdu s after outcome h hw =
      rw (writable, request_write_multiple_registers start [] h, hw) refl
  handle-payload start (register_values (v ∷ u ∷ vs)) pdu s after outcome h hw =
      rw
        (
          writable,
          request_write_multiple_registers start (v ∷ u ∷ vs) h,
          hw,
          length-map (λ v. integer (pos v)) vs,
        )
        refl
  handle-payload start (coil_values (v ∷ [])) pdu s after outcome h hw =
      rw (writable, request_write_single_coil start v h, hw) refl
  handle-payload start (coil_values []) pdu s after outcome h hw =
      rw (writable, request_write_multiple_coils start [] h, hw) refl
  handle-payload start (coil_values (v ∷ u ∷ vs)) pdu s after outcome h hw =
      rw (writable, request_write_multiple_coils start (v ∷ u ∷ vs) h, hw, length-map boolean vs)
        refl

-- The first byte of a write request, and the ranges of what it names.
pub payload_head :
    (start : ℕ) (p : Payload) {pdu : Bytes}
    → encode_payload start p ≡ ok pdu
    → (rest : Bytes) × (pdu ≡ write_code p ∷ rest)
unfolding encode_write_single_coil encode_write_single_register
payload_head start (register_values (v ∷ [])) h = (
  (start / 256) ∷ (start % 256) ∷ (v / 256) ∷ (v % 256) ∷ [],
  ground (arith, pack_bhh_lem 6 start v),
)
payload_head start (register_values []) h =
    let (_, _, _, e) = multiple_registers_bytes start [] h in (_, e)
payload_head start (register_values (v ∷ u ∷ vs)) h =
    let (_, _, _, e) = multiple_registers_bytes start (v ∷ u ∷ vs) h in (_, e)
payload_head start (coil_values (true ∷ [])) h = (
  (start / 256) ∷ (start % 256) ∷ (0xFF00 / 256) ∷ (0xFF00 % 256) ∷ [],
  ground (arith, pack_bhh_lem 5 start 0xFF00),
)
payload_head start (coil_values (false ∷ [])) h = (
  (start / 256) ∷ (start % 256) ∷ (0 / 256) ∷ (0 % 256) ∷ [],
  ground (arith, pack_bhh_lem 5 start 0),
)
payload_head start (coil_values []) h = let (_, _, _, e) = multiple_coils_bytes start [] h in (_, e)
payload_head start (coil_values (v ∷ u ∷ vs)) h =
    let (_, _, _, e) = multiple_coils_bytes start (v ∷ u ∷ vs) h in (_, e)
