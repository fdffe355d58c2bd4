-- ===== src/Protocol/Pdu/RoundTrip.antt =====
-- The two sides of src/pymod/protocol/pdu.py after one another, for requests and for responses.
use pymod.Prelude.{
  ℕ, ◌+◌, ◌*◌, ◌/◌, ◌%◌, ◌≤◌, ◌<◌, ◌≡◌, Bool, true, false, List, [], ◌∷◌, arith, length, All,
}
use pymod.Types.{Area}
use pymod.Errors.{Result, ok}
use pymod.Bytes.{Bytes, IsWord, unpack_hh, unpack_bhh, join_words}
use pymod.Bytes.Laws.{
  pack_bhh_lem, pack_bhhb_lem, pack_words-join_words, length-join_words, unpack_words-join_words,
}
use pymod.Protocol.Pdu.{pack_bits}
use pymod.Protocol.Pdu.Bitmap.{length-pack_bits, read_bits-pack_bits}
use pymod.Protocol.Pdu.Request.{
  encode_read_coils, encode_read_discrete_inputs, encode_read_holding_registers,
  encode_read_input_registers, encode_write_single_coil, encode_write_single_register,
  encode_write_multiple_coils, encode_write_multiple_registers, check_values,
}
use pymod.Protocol.Pdu.SlaveRequest.{
  decode_request_read_coils, decode_request_read_discrete_inputs,
  decode_request_read_holding_registers, decode_request_read_input_registers,
  decode_request_write_single_coil, decode_request_write_single_register,
  decode_request_write_multiple_coils, decode_request_write_multiple_registers,
}

-- The functions for an area, as the planner and the server choose them.
abbrev pub encode_request : Area → ℕ → ℕ → Result Bytes
encode_request Area.coil = encode_read_coils
encode_request Area.discrete_input = encode_read_discrete_inputs
encode_request Area.holding_register = encode_read_holding_registers
encode_request Area.input_register = encode_read_input_registers

abbrev pub decode_request : Area → Bytes → Result (ℕ × ℕ)
decode_request Area.coil = decode_request_read_coils
decode_request Area.discrete_input = decode_request_read_discrete_inputs
decode_request Area.holding_register = decode_request_read_holding_registers
decode_request Area.input_register = decode_request_read_input_registers

-- For each area: every start and count that the client's encoder accepts are what the server's
-- decoder reads out of the request.
pub decode_request-encode_request :
    (area : Area) (start count : ℕ) {pdu : Bytes}
    → encode_request area start count ≡ ok pdu
    → decode_request area pdu ≡ ok (start, count)
unfolding encode_read_coils encode_read_discrete_inputs encode_read_holding_registers
    encode_read_input_registers decode_request_read_coils decode_request_read_discrete_inputs
    decode_request_read_holding_registers decode_request_read_input_registers unpack_hh
decode_request-encode_request Area.coil start count h = ground (arith, pack_bhh_lem 1 start count)
decode_request-encode_request Area.discrete_input start count h =
    ground (arith, pack_bhh_lem 2 start count)
decode_request-encode_request Area.holding_register start count h =
    ground (arith, pack_bhh_lem 3 start count)
decode_request-encode_request Area.input_register start count h =
    ground (arith, pack_bhh_lem 4 start count)

-- A write of one coil that the client's encoder accepts is what the server's decoder reads.
pub request_write_single_coil :
    (address : ℕ) (value : Bool) {pdu : Bytes}
    → encode_write_single_coil address value ≡ ok pdu
    → decode_request_write_single_coil pdu ≡ ok (address, value)
unfolding encode_write_single_coil decode_request_write_single_coil unpack_bhh
request_write_single_coil address true h = ground (arith, pack_bhh_lem 5 address 0xFF00)
request_write_single_coil address false h = ground (arith, pack_bhh_lem 5 address 0)

-- A write of one register that the client's encoder accepts is what the server's decoder reads.
pub request_write_single_register :
    (address value : ℕ) {pdu : Bytes}
    → encode_write_single_register address value ≡ ok pdu
    → decode_request_write_single_register pdu ≡ ok (address, value)
unfolding encode_write_single_register decode_request_write_single_register unpack_bhh
request_write_single_register address value h = ground (arith, pack_bhh_lem 6 address value)

-- The bytes that the encoder of FC15 returns, when it returns any.
pub multiple_coils_bytes :
    (start : ℕ) (values : List Bool) {pdu : Bytes}
    → encode_write_multiple_coils start values ≡ ok pdu
    → (start < 65536)
      × (1 ≤ length values)
      × (length values ≤ 1968)
      × (pdu ≡ (
          15
          ∷ (start / 256)
          ∷ (start % 256)
          ∷ (length values / 256)
          ∷ (length values % 256)
          ∷ ((length values + 7) / 8)
          ∷ pack_bits values))
unfolding encode_write_multiple_coils
multiple_coils_bytes start values h =
    ground (arith, pack_bhhb_lem 15 start (length values) ((length values + 7) / 8))

-- A write of coils that the client's encoder accepts is what the server's decoder reads: the start
-- and the values in order, for every number of coils.
pub request_write_multiple_coils :
    (start : ℕ) (values : List Bool) {pdu : Bytes}
    → encode_write_multiple_coils start values ≡ ok pdu
    → decode_request_write_multiple_coils pdu ≡ ok (start, values)
unfolding decode_request_write_multiple_coils unpack_hh
request_write_multiple_coils start values h =
    let (hs, lo, hi, e) = multiple_coils_bytes start values h in
    rw e (ground (arith, length-pack_bits values, read_bits-pack_bits [] values))

-- A value that is written fits a register, or the encoder raises.
pub check_values-IsWord : (values : List ℕ) → check_values values ≡ ok tt → All IsWord values
unfolding check_values
check_values-IsWord [] h = tt
check_values-IsWord (v ∷ vs) h = (ground arith, check_values-IsWord vs (ground arith))

pub multiple_registers_bytes :
    (start : ℕ) (values : List ℕ) {pdu : Bytes}
    → encode_write_multiple_registers start values ≡ ok pdu
    → (start < 65536)
      × (1 ≤ length values)
      × (length values ≤ 123)
      × (pdu ≡ (
          16
          ∷ (start / 256)
          ∷ (start % 256)
          ∷ (length values / 256)
          ∷ (length values % 256)
          ∷ (2 * length values)
          ∷ join_words values))
unfolding encode_write_multiple_registers
multiple_registers_bytes start values h = ground (
  arith,
  pack_bhhb_lem 16 start (length values) (2 * length values),
  check_values-IsWord values,
  pack_words-join_words values,
)

-- A write of registers that the client's encoder accepts is what the server's decoder reads: the
-- start and the values in order, for every number of registers.
pub request_write_multiple_registers :
    (start : ℕ) (values : List ℕ) {pdu : Bytes}
    → encode_write_multiple_registers start values ≡ ok pdu
    → decode_request_write_multiple_registers pdu ≡ ok (start, values)
unfolding decode_request_write_multiple_registers unpack_hh
request_write_multiple_registers start values h =
    let (hs, lo, hi, e) = multiple_registers_bytes start values h in
    rw e (ground (arith, length-join_words values, unpack_words-join_words values))
