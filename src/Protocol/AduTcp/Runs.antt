-- ===== src/Protocol/AduTcp/Runs.antt =====
-- The MBAP codec at concrete frames, and its theorems there.
use pymod.Prelude.{◌≡◌, refl, [], ◌∷◌, arith}
use pymod.Errors.{ok, err, protocol_error}
use pymod.Bytes.{Bytes}
use pymod.Protocol.AduTcp.{encode_mbap_frame, decode_mbap_frame}
use pymod.Protocol.AduTcp.Laws.{
  decode_mbap_frame-encode_mbap_frame, encode_mbap_frame-decode_mbap_frame,
}

abbrev read_pdu : Bytes
read_pdu = 3 ∷ 0 ∷ 107 ∷ 0 ∷ 3 ∷ []

abbrev read_frame_bytes : Bytes
read_frame_bytes = 1 ∷ 5 ∷ 0 ∷ 0 ∷ 0 ∷ 6 ∷ 17 ∷ 3 ∷ 0 ∷ 107 ∷ 0 ∷ 3 ∷ []

encode_read : encode_mbap_frame 261 17 read_pdu ≡ ok read_frame_bytes
unfolding encode_mbap_frame
encode_read = refl

decode_read : decode_mbap_frame read_frame_bytes ≡ ok (261, 17, read_pdu)
unfolding decode_mbap_frame
decode_read = refl

decode_foreign : decode_mbap_frame (1 ∷ 5 ∷ 0 ∷ 1 ∷ 0 ∷ 2 ∷ 17 ∷ 3 ∷ []) ≡ err protocol_error
unfolding decode_mbap_frame
decode_foreign = refl

decode_mbap_frame-encode_mbap_frame_example :
    decode_mbap_frame read_frame_bytes ≡ ok (261, 17, read_pdu)
decode_mbap_frame-encode_mbap_frame_example =
    decode_mbap_frame-encode_mbap_frame 261 17 read_pdu encode_read

encode_mbap_frame-decode_mbap_frame_example :
    encode_mbap_frame 261 17 read_pdu ≡ ok read_frame_bytes
encode_mbap_frame-decode_mbap_frame_example =
    encode_mbap_frame-decode_mbap_frame read_frame_bytes 261 17 read_pdu (ground arith) decode_read
