-- ===== src/Protocol/Pdu/Request.antt =====
-- The `encode_*` functions of pdu.py: request PDUs. Addresses, counts and register values are
-- natural numbers: a negative argument, which every encoder rejects, is not representable.
use pymod.Prelude.{ℕ, ◌+◌, ◌*◌, ◌/◌, leb, Bool, ◌&&◌, List, [], ◌∷◌, ◌++◌, length, if◌then◌else◌}
use pymod.Errors.{Result, ok, value_error, ◌>>=◌, ◌>>◌, guard}
use pymod.Bytes.{Bytes, pack_bhh, pack_bhhb, pack_words}
use pymod.Protocol.Pdu.{
  fc_read_coils, fc_read_discrete_inputs, fc_read_holding_registers, fc_read_input_registers,
  fc_write_single_coil, fc_write_single_register, fc_write_multiple_coils,
  fc_write_multiple_registers, max_read_coils, max_read_discrete_inputs, max_read_registers,
  max_write_coils, max_write_registers, coil_on, coil_off, check_address, check_count, pack_bits,
}

unfoldable pub encode_read_coils : ℕ → ℕ → Result Bytes
unfolding check_address check_count
encode_read_coils start count = do
  check_address start
  check_count count max_read_coils
  pack_bhh fc_read_coils start count

unfoldable pub encode_read_discrete_inputs : ℕ → ℕ → Result Bytes
unfolding check_address check_count
encode_read_discrete_inputs start count = do
  check_address start
  check_count count max_read_discrete_inputs
  pack_bhh fc_read_discrete_inputs start count

unfoldable pub encode_read_holding_registers : ℕ → ℕ → Result Bytes
unfolding check_address check_count
encode_read_holding_registers start count = do
  check_address start
  check_count count max_read_registers
  pack_bhh fc_read_holding_registers start count

unfoldable pub encode_read_input_registers : ℕ → ℕ → Result Bytes
unfolding check_address check_count
encode_read_input_registers start count = do
  check_address start
  check_count count max_read_registers
  pack_bhh fc_read_input_registers start count

unfoldable pub encode_write_single_coil : ℕ → Bool → Result Bytes
unfolding check_address
encode_write_single_coil address value = do
  check_address address
  pack_bhh fc_write_single_coil address (if value then coil_on else coil_off)

unfoldable pub encode_write_single_register : ℕ → ℕ → Result Bytes
unfolding check_address
encode_write_single_register address value = do
  check_address address
  guard (leb value 0xFFFF) value_error
  pack_bhh fc_write_single_register address value

unfoldable pub encode_write_multiple_coils : ℕ → List Bool → Result Bytes
unfolding check_address
encode_write_multiple_coils start values = do
  check_address start
  guard (leb 1 (length values) && leb (length values) max_write_coils) value_error
  header ← pack_bhhb fc_write_multiple_coils start (length values) ((length values + 7) / 8)
  ok (header ++ pack_bits values)

-- `for v in values: if not 0 <= v <= 0xFFFF: raise ValueError`
unfoldable pub check_values : List ℕ → Result (Unit {0})
check_values [] = ok tt
check_values (v ∷ vs) = do guard (leb v 0xFFFF) value_error; check_values vs

unfoldable pub encode_write_multiple_registers : ℕ → List ℕ → Result Bytes
unfolding check_address check_values
encode_write_multiple_registers start values = do
  check_address start
  guard (leb 1 (length values) && leb (length values) max_write_registers) value_error
  check_values values
  header ← pack_bhhb fc_write_multiple_registers start (length values) (2 * length values)
  body ← pack_words values
  ok (header ++ body)
