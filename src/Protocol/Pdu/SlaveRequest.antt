-- ===== src/Protocol/Pdu/SlaveRequest.antt =====
-- The `decode_request_*` functions of pdu.py: what the server reads out of a request PDU.
use pymod.Prelude.{
  ℕ, ◌+◌, ◌*◌, ◌/◌, ◌==◌, leb, Bool, true, false, none, ◌&&◌, List, length, take, drop,
  if◌then◌else◌,
}
use pymod.Errors.{ExceptionClass, Exc, Result, ok, err, new_response, ◌>>=◌, ◌>>◌, guard}
use pymod.Bytes.{Bytes, index, unpack_hh, unpack_bhh, unpack_words}
use pymod.Protocol.Pdu.{
  max_read_coils, max_read_discrete_inputs, max_read_registers, max_write_coils,
  max_write_registers, coil_on, coil_off, read_bits,
}

-- `IllegalDataValue(...)`
unfoldable pub illegal_value : Exc
unfolding new_response
illegal_value = new_response ExceptionClass.illegal_data_value none

-- The body of the four read requests, which differ in the limit alone.
unfoldable pub decode_request_read : ℕ → Bytes → Result (ℕ × ℕ)
unfolding illegal_value
decode_request_read limit pdu = do
  guard (length pdu == 5) illegal_value
  (start, count) ← unpack_hh (take 4 (drop 1 pdu))
  guard (leb 1 count && leb count limit) illegal_value
  ok (start, count)

unfoldable pub decode_request_read_coils : Bytes → Result (ℕ × ℕ)
unfolding decode_request_read
decode_request_read_coils pdu = decode_request_read max_read_coils pdu

unfoldable pub decode_request_read_discrete_inputs : Bytes → Result (ℕ × ℕ)
unfolding decode_request_read
decode_request_read_discrete_inputs pdu = decode_request_read max_read_discrete_inputs pdu

unfoldable pub decode_request_read_holding_registers : Bytes → Result (ℕ × ℕ)
unfolding decode_request_read
decode_request_read_holding_registers pdu = decode_request_read max_read_registers pdu

unfoldable pub decode_request_read_input_registers : Bytes → Result (ℕ × ℕ)
unfolding decode_request_read
decode_request_read_input_registers pdu = decode_request_read max_read_registers pdu

unfoldable pub decode_request_write_single_coil : Bytes → Result (ℕ × Bool)
unfolding illegal_value
decode_request_write_single_coil pdu = do
  guard (length pdu == 5) illegal_value
  (_, address, coded) ← unpack_bhh pdu
  if coded == coil_on
      then ok (address, true)
      else if coded == coil_off
      then ok (address, false)
      else err illegal_value

unfoldable pub decode_request_write_single_register : Bytes → Result (ℕ × ℕ)
unfolding illegal_value
decode_request_write_single_register pdu = do
  guard (length pdu == 5) illegal_value
  (_, address, value) ← unpack_bhh pdu
  ok (address, value)

unfoldable pub decode_request_write_multiple_coils : Bytes → Result (ℕ × List Bool)
unfolding illegal_value index
decode_request_write_multiple_coils pdu = do
  guard (leb 6 (length pdu)) illegal_value
  (start, count) ← unpack_hh (take 4 (drop 1 pdu))
  byte_count ← index pdu 5
  guard (leb 1 count && leb count max_write_coils) illegal_value
  guard (byte_count == (count + 7) / 8) illegal_value
  guard (length pdu == 6 + byte_count) illegal_value
  bits ← read_bits (drop 6 pdu) 0 count 0
  ok (start, bits)

unfoldable pub decode_request_write_multiple_registers : Bytes → Result (ℕ × List ℕ)
unfolding illegal_value index
decode_request_write_multiple_registers pdu = do
  guard (leb 6 (length pdu)) illegal_value
  (start, count) ← unpack_hh (take 4 (drop 1 pdu))
  byte_count ← index pdu 5
  guard (leb 1 count && leb count max_write_registers) illegal_value
  guard (byte_count == 2 * count) illegal_value
  guard (length pdu == 6 + byte_count) illegal_value
  values ← unpack_words count (drop 6 pdu)
  ok (start, values)
