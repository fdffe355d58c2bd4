-- ===== src/Protocol/Pdu/Replies.antt =====
-- What the server answers and the client reads out of the answer: values, echoes and exceptions.
use pymod.Prelude.{
  sym, if◌then◌else◌, ◌≢◌, not, ◌&&◌, ℕ, ◌+◌, ◌/◌, ◌≤◌, ◌<◌, ◌≡◌, refl, Bool, true, false, some,
  List, [], ◌∷◌, arith, length, All, bit_and, bit_or, ◌==◌,
}
use pymod.Prelude.Bits.{all_below, all_below_sound}
use pymod.Errors.{ExceptionClass, ok, exception_response, exception_by_code, class_of_code, ◌>>=◌}
use pymod.Bytes.{Bytes, IsWord, unpack_bhh, join_words}
use pymod.Bytes.Laws.{
  pack_bhh_lem, length-join_words, unpack_words-join_words, to_bytes_words-join_words,
}
use pymod.Protocol.Pdu.{pack_bits, detect_exception, raise_exception}
use pymod.Protocol.Pdu.Bitmap.{length-pack_bits, read_bits-pack_bits}
use pymod.Protocol.Pdu.Response.{
  decode_read_coils, decode_read_discrete_inputs, decode_read_holding_registers,
  decode_read_input_registers, decode_write_single_coil, decode_write_single_register,
  decode_write_multiple_coils, decode_write_multiple_registers,
}
use pymod.Protocol.Pdu.SlaveResponse.{
  encode_response_read_coils, encode_response_read_discrete_inputs,
  encode_response_read_holding_registers, encode_response_read_input_registers,
  encode_response_write_single_coil, encode_response_write_single_register,
  encode_response_write_multiple_coils, encode_response_write_multiple_registers,
  encode_exception_response,
}

-- For at most 2040 bits the server's two bit responses are formed, and the client's decoders read
-- the same bits, in order, out of them.
pub bit_responses :
    (values : List Bool)
    → length values ≤ 2040
    → ((pdu : Bytes) × (encode_response_read_coils values ≡ ok pdu)
        × (decode_read_coils pdu (length values) ≡ ok values))
      × ((pdu : Bytes) × (encode_response_read_discrete_inputs values ≡ ok pdu)
          × (decode_read_discrete_inputs pdu (length values) ≡ ok values))
unfolding encode_response_read_coils decode_read_coils encode_response_read_discrete_inputs
    decode_read_discrete_inputs raise_exception
bit_responses values h = (
  (
    1 ∷ ((length values + 7) / 8) ∷ pack_bits values,
    ground arith,
    ground (
      arith,
      length-pack_bits values,
      read_bits-pack_bits (1 ∷ ((length values + 7) / 8) ∷ []) values,
    ),
  ),
  (
    2 ∷ ((length values + 7) / 8) ∷ pack_bits values,
    ground arith,
    ground (
      arith,
      length-pack_bits values,
      read_bits-pack_bits (2 ∷ ((length values + 7) / 8) ∷ []) values,
    ),
  ),
)

-- For at most 127 values that fit a register the server's two register responses are formed, and
-- the client's decoders read the same values, in order, out of them.
pub register_responses :
    (values : List ℕ)
    → All IsWord values
    → length values ≤ 127
    → ((pdu : Bytes) × (encode_response_read_holding_registers values ≡ ok pdu)
        × (decode_read_holding_registers pdu (length values) ≡ ok values))
      × ((pdu : Bytes) × (encode_response_read_input_registers values ≡ ok pdu)
          × (decode_read_input_registers pdu (length values) ≡ ok values))
unfolding encode_response_read_holding_registers decode_read_holding_registers
    encode_response_read_input_registers decode_read_input_registers raise_exception
register_responses values fits h = (
  (
    3 ∷ (length (join_words values)) ∷ join_words values,
    ground (arith, to_bytes_words-join_words values fits, length-join_words values),
    ground (arith, length-join_words values, unpack_words-join_words values),
  ),
  (
    4 ∷ (length (join_words values)) ∷ join_words values,
    ground (arith, to_bytes_words-join_words values fits, length-join_words values),
    ground (arith, length-join_words values, unpack_words-join_words values),
  ),
)

-- The four write responses echo what the client checks them for: for words `a` and `b` the decoders
-- return the pair that was encoded.
pub write_responses :
    (a b : ℕ) (v : Bool)
    → IsWord a
    → IsWord b
    → ((encode_response_write_single_coil a v >>= decode_write_single_coil) ≡ ok (a, v))
      × ((encode_response_write_single_register a b >>= decode_write_single_register) ≡ ok (a, b))
      × ((encode_response_write_multiple_coils a b >>= decode_write_multiple_coils) ≡ ok (a, b))
      × ((encode_response_write_multiple_registers a b >>= decode_write_multiple_registers)
          ≡ ok (a, b))
unfolding encode_response_write_single_coil encode_response_write_single_register
    encode_response_write_multiple_coils encode_response_write_multiple_registers
    decode_write_single_coil decode_write_single_register decode_write_multiple_coils
    decode_write_multiple_registers raise_exception unpack_bhh
write_responses a b true ha hb = (
  rw (pack_bhh_lem 5 a 0xFF00 (omega arith) ha (omega arith)) (ground arith),
  rw (pack_bhh_lem 6 a b (omega arith) ha hb) (ground arith),
  rw (pack_bhh_lem 15 a b (omega arith) ha hb) (ground arith),
  rw (pack_bhh_lem 16 a b (omega arith) ha hb) (ground arith),
)
write_responses a b false ha hb = (
  rw (pack_bhh_lem 5 a 0 (omega arith) ha (omega arith)) (ground arith),
  rw (pack_bhh_lem 6 a b (omega arith) ha hb) (ground arith),
  rw (pack_bhh_lem 15 a b (omega arith) ha hb) (ground arith),
  rw (pack_bhh_lem 16 a b (omega arith) ha hb) (ground arith),
)

-- The exception codes of the Modbus application protocol and their classes. A code outside the list is
-- taken for a device failure.
abbrev pub documented : List (ℕ × ExceptionClass)
documented =
    (1, ExceptionClass.illegal_function)
    ∷ (2, ExceptionClass.illegal_data_address)
    ∷ (3, ExceptionClass.illegal_data_value)
    ∷ (4, ExceptionClass.slave_device_failure)
    ∷ (5, ExceptionClass.acknowledge)
    ∷ (6, ExceptionClass.slave_device_busy)
    ∷ (8, ExceptionClass.memory_parity_error)
    ∷ (10, ExceptionClass.gateway_path_unavailable)
    ∷ (11, ExceptionClass.gateway_target_failed_to_respond)
    ∷ []

abbrev pub class_in : List (ℕ × ExceptionClass) → ℕ → ExceptionClass
class_in [] code = ExceptionClass.slave_device_failure
class_in ((c, cls) ∷ rest) code = if code == c then cls else class_in rest code

class_of_code-documented : (code : ℕ) → class_of_code code ≡ class_in documented code
unfolding class_of_code exception_by_code
class_of_code-documented code = ground arith

fc_table :
    all_below 128
      (λ fc. (bit_and (bit_or fc 0x80) 0xFF == bit_or fc 0x80) && not (bit_or fc 0x80 == fc))
    ≡ true
unfolding all_below
fc_table = refl

fc_bits :
    (fc : ℕ) → fc < 128 → (bit_and (bit_or fc 0x80) 0xFF ≡ bit_or fc 0x80) × (bit_or fc 0x80 ≢ fc)
fc_bits fc h = ground (arith, all_below_sound 128 _ fc_table fc h)

-- For a function code below 128 and a code that fits a byte, the exception response of the server
-- is detected by the client as the exception of the class that the protocol gives the code, a device failure
-- for a code outside its list, with the code kept.
pub detect_exception-encode_exception_response :
    (fc code : ℕ)
    → fc < 128
    → code < 256
    → (pdu : Bytes) × (encode_exception_response fc code ≡ ok pdu)
      × (detect_exception pdu fc ≡ ok (some (exception_response (class_in documented code) code)))
unfolding encode_exception_response detect_exception
detect_exception-encode_exception_response fc code hf hc = (
  bit_or fc 0x80 ∷ code ∷ [],
  ground (arith, fc_bits fc hf),
  rw (sym (class_of_code-documented code)) (ground (arith, fc_bits fc hf)),
)
