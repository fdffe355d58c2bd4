-- ===== src/Protocol/AduTcp.antt =====
-- src/pymod/protocol/adu_tcp.py: the MBAP framing of Modbus TCP.
pub mod Runs
pub mod Laws
use pymod.Prelude.{ℕ, ◌+◌, ◌*◌, ◌==◌, leb, [], ◌∷◌, ◌++◌, length, take, drop}
use pymod.Errors.{Result, ok, err, protocol_error, value_error, struct_error, ◌>>=◌, ◌>>◌, guard}
use pymod.Bytes.{Bytes, pack_h, pack_b}

abbrev pub mbap_header_length : ℕ
mbap_header_length = 7

abbrev pub mbap_length_field_offset : ℕ
mbap_length_field_offset = 4

abbrev pub mbap_length_field_size : ℕ
mbap_length_field_size = 2

abbrev pub mbap_protocol_id : ℕ
mbap_protocol_id = 0x0000

abbrev pub mbap_min_peek_bytes : ℕ
mbap_min_peek_bytes = mbap_length_field_offset + mbap_length_field_size

-- `struct.pack(">HHHB", a, b, c, d)`
unfoldable pub pack_hhhb : ℕ → ℕ → ℕ → ℕ → Result Bytes
unfolding pack_h pack_b
pack_hhhb a b c d = do
  w ← pack_h a
  x ← pack_h b
  y ← pack_h c
  z ← pack_b d
  ok (w ++ (x ++ (y ++ z)))

-- `struct.unpack(">HHHB", raw)`
unfoldable pub unpack_hhhb : Bytes → Result (ℕ × ℕ × ℕ × ℕ)
unpack_hhhb (a ∷ b ∷ c ∷ d ∷ e ∷ f ∷ g ∷ []) = ok (a * 256 + b, c * 256 + d, e * 256 + f, g)
unpack_hhhb _ = err struct_error

-- `struct.unpack(">H", raw)[0]`
unfoldable pub unpack_h : Bytes → Result ℕ
unpack_h (a ∷ b ∷ []) = ok (a * 256 + b)
unpack_h _ = err struct_error

unfoldable pub encode_mbap_frame : ℕ → ℕ → Bytes → Result Bytes
unfolding pack_hhhb
encode_mbap_frame transaction_id unit_id pdu = do
  guard (leb transaction_id 0xFFFF) value_error
  guard (leb unit_id 0xFF) value_error
  guard (leb 1 (length pdu)) value_error
  guard (leb (1 + length pdu) 0xFFFF) value_error
  header ← pack_hhhb transaction_id mbap_protocol_id (1 + length pdu) unit_id
  ok (header ++ pdu)

-- The source compares `length - 1`, which may be -1, with `len(pdu)`.
unfoldable pub decode_mbap_frame : Bytes → Result (ℕ × ℕ × Bytes)
unfolding unpack_hhhb
decode_mbap_frame frame = do
  guard (leb mbap_header_length (length frame)) protocol_error
  (tid, pid, size, uid) ← unpack_hhhb (take mbap_header_length frame)
  guard (pid == mbap_protocol_id) protocol_error
  let pdu = drop mbap_header_length frame
  guard (size == 1 + length pdu) protocol_error
  guard (leb 1 (length pdu)) protocol_error
  ok (tid, uid, pdu)

unfoldable pub expected_frame_length : Bytes → Result ℕ
unfolding unpack_h
expected_frame_length header_prefix = do
  guard (leb mbap_min_peek_bytes (length header_prefix)) protocol_error
  size ← unpack_h (take mbap_length_field_size (drop mbap_length_field_offset header_prefix))
  ok (mbap_min_peek_bytes + size)
