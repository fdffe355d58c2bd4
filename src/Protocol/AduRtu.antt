-- ===== src/Protocol/AduRtu.antt =====
-- src/pymod/protocol/adu_rtu.py: the CRC and the framing of Modbus RTU.
pub mod Runs
pub mod Crc
pub mod Laws
use pymod.Prelude.{
  ℕ, zero, suc, ◌+◌, ◌-◌, ◌*◌, ◌/◌, ◌%◌, ◌==◌, leb, List, [], ◌∷◌, ◌++◌, length, take, drop, get_or,
  bit_and, bit_xor, if◌then◌else◌,
}
use pymod.Errors.{
  Result, ok, err, crc_error, protocol_error, value_error, struct_error, ◌>>=◌, ◌>>◌, guard,
}
use pymod.Bytes.{Bytes, index}

abbrev pub rtu_min_frame_length : ℕ
rtu_min_frame_length = 4

-- One round of the inner loop of `_build_crc16_table`.
unfoldable pub crc_round : ℕ → ℕ
crc_round crc = if bit_and crc 1 == 0 then crc / 2 else bit_xor (crc / 2) 0xA001

-- `for _ in range(n)`
unfoldable pub crc_rounds : ℕ → ℕ → ℕ
unfolding crc_round
crc_rounds zero crc = crc
crc_rounds (suc n) crc = crc_rounds n (crc_round crc)

-- `for byte in range(...)`: the entries from `byte` on, `left` of them.
unfoldable pub table_from : ℕ → ℕ → List ℕ
unfolding crc_rounds
table_from zero byte = []
table_from (suc left) byte = crc_rounds 8 byte ∷ table_from left (byte + 1)

unfoldable pub crc16_table : List ℕ
unfolding table_from
crc16_table = table_from 256 0

-- The loop body of `crc16`. The index is below 256 and the table has 256 entries.
unfoldable pub crc_step : ℕ → ℕ → ℕ
crc_step crc byte = bit_xor (crc / 256) (get_or crc16_table (bit_and (bit_xor crc byte) 0xFF) 0)

unfoldable pub crc_loop : ℕ → Bytes → ℕ
unfolding crc_step
crc_loop crc [] = crc
crc_loop crc (byte ∷ rest) = crc_loop (crc_step crc byte) rest

unfoldable pub crc16 : Bytes → ℕ
unfolding crc_loop
crc16 raw = crc_loop 0xFFFF raw

-- `struct.pack("<H", v)`
unfoldable pub pack_le : ℕ → Result Bytes
pack_le v = if leb v 0xFFFF then ok ((v % 256) ∷ (v / 256) ∷ []) else err struct_error

-- `struct.unpack("<H", raw)[0]`
unfoldable pub unpack_le : Bytes → Result ℕ
unpack_le (a ∷ b ∷ []) = ok (b * 256 + a)
unpack_le _ = err struct_error

unfoldable pub encode_rtu_frame : ℕ → Bytes → Result Bytes
unfolding pack_le
encode_rtu_frame unit_id pdu = do
  guard (leb unit_id 0xFF) value_error
  guard (leb 1 (length pdu)) value_error
  let body = unit_id ∷ pdu
  tail ← pack_le (crc16 body)
  ok (body ++ tail)

-- `frame[:-2]` and `frame[-2:]` of a frame that is long enough.
unfoldable pub decode_rtu_frame : Bytes → Result (ℕ × Bytes)
unfolding unpack_le index
decode_rtu_frame frame = do
  guard (leb rtu_min_frame_length (length frame)) protocol_error
  let body = take (length frame - 2) frame
  actual ← unpack_le (drop (length frame - 2) frame)
  guard (crc16 body == actual) crc_error
  unit_id ← index body 0
  ok (unit_id, drop 1 body)
