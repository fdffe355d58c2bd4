-- ===== src/Protocol/Pdu.antt =====
-- src/pymod/protocol/pdu.py: constants, argument checks, exception detection and the packing of bits.
-- `Request` and `Response` are the client's side, `SlaveRequest` and `SlaveResponse` the server's.
pub mod Registry
pub mod Bitmap
pub mod Runs
pub mod RoundTrip
pub mod Requests
pub mod Errors
pub mod Replies
pub mod Request
pub mod Response
pub mod SlaveRequest
pub mod SlaveResponse
use pymod.Prelude.{
  ℕ, zero, suc, ◌+◌, ◌/◌, ◌%◌, ◌^◌, ◌==◌, leb, Bool, ◌&&◌, Option, none, some, List, [], ◌∷◌,
  length, get_or, set, replicate, bit_or, if◌then◌else◌,
}
use pymod.Prelude.Bits.{test_bit}
use pymod.Errors.{
  Exc, Result, ok, err, protocol_error, value_error, class_of_code, new_response, ◌>>=◌, ◌>>◌,
  guard,
}
use pymod.Bytes.{Bytes, index}

abbrev pub fc_read_coils : ℕ
fc_read_coils = 0x01

abbrev pub fc_read_discrete_inputs : ℕ
fc_read_discrete_inputs = 0x02

abbrev pub fc_read_holding_registers : ℕ
fc_read_holding_registers = 0x03

abbrev pub fc_read_input_registers : ℕ
fc_read_input_registers = 0x04

abbrev pub fc_write_single_coil : ℕ
fc_write_single_coil = 0x05

abbrev pub fc_write_single_register : ℕ
fc_write_single_register = 0x06

abbrev pub fc_write_multiple_coils : ℕ
fc_write_multiple_coils = 0x0F

abbrev pub fc_write_multiple_registers : ℕ
fc_write_multiple_registers = 0x10

abbrev pub exception_bit : ℕ
exception_bit = 0x80

abbrev pub max_read_coils : ℕ
max_read_coils = 2000

abbrev pub max_read_discrete_inputs : ℕ
max_read_discrete_inputs = 2000

abbrev pub max_read_registers : ℕ
max_read_registers = 125

abbrev pub max_write_coils : ℕ
max_write_coils = 1968

abbrev pub max_write_registers : ℕ
max_write_registers = 123

abbrev pub address_max : ℕ
address_max = 0xFFFF

abbrev pub coil_on : ℕ
coil_on = 0xFF00

abbrev pub coil_off : ℕ
coil_off = 0x0000

unfoldable pub check_address : ℕ → Result (Unit {0})
check_address addr = guard (leb addr address_max) value_error

unfoldable pub check_count : ℕ → ℕ → Result (Unit {0})
check_count count maximum = guard (leb 1 count && leb count maximum) value_error

-- What follows the function code of an exception response.
unfoldable pub exception_of : Bytes → Result (Option Exc)
unfolding new_response
exception_of [] = err protocol_error
exception_of (code ∷ _) = ok (some (new_response (class_of_code code) (some code)))

unfoldable pub detect_exception : Bytes → ℕ → Result (Option Exc)
unfolding exception_of
detect_exception [] expected_fc = err protocol_error
detect_exception (fc ∷ rest) expected_fc =
    if fc == expected_fc
    then ok none
    else if fc == bit_or expected_fc exception_bit
    then exception_of rest
    else err protocol_error

-- The first lines of every decoder: `if exc is not None: raise exc`.
unfoldable pub raise_exception : Bytes → ℕ → Result (Unit {0})
unfolding detect_exception
raise_exception pdu fc = do
  exc ← detect_exception pdu fc
  elim exc [ none ↦ ok tt | some e ↦ err e ]

-- `for i, v in enumerate(values): if v: buf[i // 8] |= 1 << (i % 8)`, from index `i` on. The index
-- `i // 8` is below `len(buf)`, the length of the values over 8, rounded up.
unfoldable pub pack_loop : List Bool → ℕ → Bytes → Bytes
pack_loop [] i buf = buf
pack_loop (v ∷ vs) i buf =
    pack_loop vs (i + 1)
      (if v then set buf (i / 8) (bit_or (get_or buf (i / 8) 0) (2 ^ (i % 8))) else buf)

-- `buf` of a list of bits.
unfoldable pub pack_bits : List Bool → Bytes
unfolding pack_loop
pack_bits values = pack_loop values 0 (replicate ((length values + 7) / 8) 0)

-- `bool((raw[offset + i // 8] >> (i % 8)) & 1)`
unfoldable pub read_bit : Bytes → ℕ → ℕ → Result Bool
unfolding index
read_bit raw offset i = do b ← index raw (offset + i / 8); ok (test_bit b (i % 8))

-- The loop over `range(count)`, with the rounds left and the next index.
unfoldable pub read_bits : Bytes → ℕ → ℕ → ℕ → Result (List Bool)
unfolding read_bit
read_bits raw offset zero i = ok []
read_bits raw offset (suc left) i = do
  b ← read_bit raw offset i
  rest ← read_bits raw offset left (i + 1)
  ok (b ∷ rest)
