-- ===== src/Protocol/AduRtu/Runs.antt =====
-- The RTU codec at concrete frames, and its theorems there.
use pymod.Prelude.{◌≡◌, refl, [], ◌∷◌, arith}
use pymod.Errors.{ok, err, crc_error}
use pymod.Bytes.{Bytes}
use pymod.Protocol.AduRtu.{crc16, crc16_table, encode_rtu_frame, decode_rtu_frame}
use pymod.Protocol.AduRtu.Laws.{single_byte_detected, decode_rtu_frame-encode_rtu_frame}
use pymod.Protocol.AduRtu.Crc.{crc16-eq-bitwise, bitwise_loop}

abbrev read_pdu : Bytes
read_pdu = 3 ∷ 0 ∷ 0 ∷ 0 ∷ 10 ∷ []

abbrev read_frame_bytes : Bytes
read_frame_bytes = 1 ∷ 3 ∷ 0 ∷ 0 ∷ 0 ∷ 10 ∷ 0xC5 ∷ 0xCD ∷ []

encode_read : encode_rtu_frame 1 read_pdu ≡ ok read_frame_bytes
unfolding encode_rtu_frame crc16 crc16_table
encode_read = refl

single_byte_detected_example :
    decode_rtu_frame (1 ∷ 3 ∷ 0 ∷ 0 ∷ 0 ∷ 11 ∷ 0xC5 ∷ 0xCD ∷ []) ≡ err crc_error
single_byte_detected_example =
    single_byte_detected 1 read_pdu 5 11 (ground arith) encode_read (ground arith) (ground arith)
      (ground arith)

decode_rtu_frame-encode_rtu_frame_example : decode_rtu_frame read_frame_bytes ≡ ok (1, read_pdu)
decode_rtu_frame-encode_rtu_frame_example = decode_rtu_frame-encode_rtu_frame 1 read_pdu encode_read

crc16-eq-bitwise_example : crc16 (1 ∷ 3 ∷ []) ≡ bitwise_loop 0xFFFF (1 ∷ 3 ∷ [])
crc16-eq-bitwise_example = crc16-eq-bitwise (1 ∷ 3 ∷ []) (ground arith)

-- The check value of the Modbus CRC, of the digits 1 to 9.
check_value : crc16 (0x31 ∷ 0x32 ∷ 0x33 ∷ 0x34 ∷ 0x35 ∷ 0x36 ∷ 0x37 ∷ 0x38 ∷ 0x39 ∷ []) ≡ 0x4B37
unfolding crc16 crc16_table
check_value = refl
