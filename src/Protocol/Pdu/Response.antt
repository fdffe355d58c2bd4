-- ===== src/Protocol/Pdu/Response.antt =====
-- The `decode_*` functions of pdu.py: what the client reads out of a response PDU.
use pymod.Prelude.{ℕ, ◌+◌, ◌*◌, ◌/◌, ◌==◌, Bool, true, false, List, length, drop, if◌then◌else◌}
use pymod.Errors.{Result, ok, err, protocol_error, ◌>>=◌, ◌>>◌, guard}
use pymod.Prelude.{leb}
use pymod.Bytes.{Bytes, index, unpack_bhh, unpack_words}
use pymod.Protocol.Pdu.{
  fc_read_coils, fc_read_discrete_inputs, fc_read_holding_registers, fc_read_input_registers,
  fc_write_single_coil, fc_write_single_register, fc_write_multiple_coils,
  fc_write_multiple_registers, coil_on, coil_off, raise_exception, read_bits,
}

unfoldable pub decode_bit_response : Bytes → ℕ → ℕ → Result (List Bool)
unfolding index
decode_bit_response pdu count fc = do
  raise_exception pdu fc
  guard (leb 2 (length pdu)) protocol_error
  byte_count ← index pdu 1
  guard (byte_count == (count + 7) / 8) protocol_error
  guard (length pdu == 2 + byte_count) protocol_error
  read_bits pdu 2 count 0

unfoldable pub decode_read_coils : Bytes → ℕ → Result (List Bool)
unfolding decode_bit_response
decode_read_coils pdu count = decode_bit_response pdu count fc_read_coils

unfoldable pub decode_read_discrete_inputs : Bytes → ℕ → Result (List Bool)
unfolding decode_bit_response
decode_read_discrete_inputs pdu count = decode_bit_response pdu count fc_read_discrete_inputs

unfoldable pub decode_register_response : Bytes → ℕ → ℕ → Result (List ℕ)
unfolding index
decode_register_response pdu count fc = do
  raise_exception pdu fc
  guard (leb 2 (length pdu)) protocol_error
  byte_count ← index pdu 1
  guard (byte_count == 2 * count) protocol_error
  guard (length pdu == 2 + byte_count) protocol_error
  unpack_words count (drop 2 pdu)

unfoldable pub decode_read_holding_registers : Bytes → ℕ → Result (List ℕ)
unfolding decode_register_response
decode_read_holding_registers pdu count =
    decode_register_response pdu count fc_read_holding_registers

unfoldable pub decode_read_input_registers : Bytes → ℕ → Result (List ℕ)
unfolding decode_register_response
decode_read_input_registers pdu count = decode_register_response pdu count fc_read_input_registers

-- The tests on the value of a coil, shared by the four functions that read one.
unfoldable pub decode_write_single_coil : Bytes → Result (ℕ × Bool)
decode_write_single_coil pdu = do
  raise_exception pdu fc_write_single_coil
  guard (length pdu == 5) protocol_error
  (_, address, coded) ← unpack_bhh pdu
  if coded == coil_on
      then ok (address, true)
      else if coded == coil_off
      then ok (address, false)
      else err protocol_error

-- FC06, FC15 and FC16 differ in the function code alone.
unfoldable pub decode_echo : ℕ → Bytes → Result (ℕ × ℕ)
decode_echo fc pdu = do
  raise_exception pdu fc
  guard (length pdu == 5) protocol_error
  (_, first, second) ← unpack_bhh pdu
  ok (first, second)

unfoldable pub decode_write_single_register : Bytes → Result (ℕ × ℕ)
unfolding decode_echo
decode_write_single_register pdu = decode_echo fc_write_single_register pdu

unfoldable pub decode_write_multiple_coils : Bytes → Result (ℕ × ℕ)
unfolding decode_echo
decode_write_multiple_coils pdu = decode_echo fc_write_multiple_coils pdu

unfoldable pub decode_write_multiple_registers : Bytes → Result (ℕ × ℕ)
unfolding decode_echo
decode_write_multiple_registers pdu = decode_echo fc_write_multiple_registers pdu
