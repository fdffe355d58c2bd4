-- ===== src/Protocol/Pdu/SlaveResponse.antt =====
-- The `encode_response_*` functions of pdu.py, and the exception response.
use pymod.Prelude.{
  ℕ, ◌+◌, ◌/◌, leb, Bool, List, [], ◌∷◌, ◌++◌, length, bit_and, bit_or, if◌then◌else◌,
}
use pymod.Errors.{Result, ok, value_error, ◌>>=◌, ◌>>◌, guard}
use pymod.Bytes.{Bytes, bytes_pair, pack_bhh, to_bytes_words}
use pymod.Protocol.Pdu.{
  fc_read_coils, fc_read_discrete_inputs, fc_read_holding_registers, fc_read_input_registers,
  fc_write_single_coil, fc_write_single_register, fc_write_multiple_coils,
  fc_write_multiple_registers, exception_bit, coil_on, coil_off, pack_bits,
}

unfoldable pub encode_response_read_coils : List Bool → Result Bytes
unfolding bytes_pair
encode_response_read_coils values = do
  head ← bytes_pair fc_read_coils ((length values + 7) / 8)
  ok (head ++ pack_bits values)

unfoldable pub encode_response_read_discrete_inputs : List Bool → Result Bytes
unfolding bytes_pair
encode_response_read_discrete_inputs values = do
  head ← bytes_pair fc_read_discrete_inputs ((length values + 7) / 8)
  ok (head ++ pack_bits values)

unfoldable pub encode_response_read_holding_registers : List ℕ → Result Bytes
unfolding bytes_pair
encode_response_read_holding_registers values = do
  body ← to_bytes_words values
  head ← bytes_pair fc_read_holding_registers (length body)
  ok (head ++ body)

unfoldable pub encode_response_read_input_registers : List ℕ → Result Bytes
unfolding bytes_pair
encode_response_read_input_registers values = do
  body ← to_bytes_words values
  head ← bytes_pair fc_read_input_registers (length body)
  ok (head ++ body)

unfoldable pub encode_response_write_single_coil : ℕ → Bool → Result Bytes
encode_response_write_single_coil address value =
    pack_bhh fc_write_single_coil address (if value then coil_on else coil_off)

unfoldable pub encode_response_write_single_register : ℕ → ℕ → Result Bytes
encode_response_write_single_register address value =
    pack_bhh fc_write_single_register address value

unfoldable pub encode_response_write_multiple_coils : ℕ → ℕ → Result Bytes
encode_response_write_multiple_coils start count = pack_bhh fc_write_multiple_coils start count

unfoldable pub encode_response_write_multiple_registers : ℕ → ℕ → Result Bytes
encode_response_write_multiple_registers start count =
    pack_bhh fc_write_multiple_registers start count

unfoldable pub encode_exception_response : ℕ → ℕ → Result Bytes
encode_exception_response fc exception_code = do
  guard (leb fc 0xFF) value_error
  guard (leb exception_code 0xFF) value_error
  ok (bit_and (bit_or fc exception_bit) 0xFF ∷ exception_code ∷ [])
