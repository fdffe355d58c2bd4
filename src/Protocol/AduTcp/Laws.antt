-- ===== src/Protocol/AduTcp/Laws.antt =====
-- The MBAP codec of src/pymod/protocol/adu_tcp.py: the two directions, and the length field.
use pymod.Prelude.{ℕ, ◌+◌, ◌/◌, ◌%◌, ◌≤◌, ◌<◌, ◌≡◌, [], ◌∷◌, ◌++◌, arith, length, take, All}
use pymod.Errors.{Exc, ok, err, protocol_error}
use pymod.Bytes.{Bytes, IsByte}
use pymod.Protocol.AduTcp.{encode_mbap_frame, decode_mbap_frame, expected_frame_length, pack_hhhb}

pack_hhhb_lem :
    (a c d : ℕ)
    → a < 65536
    → c < 65536
    → d < 256
    → pack_hhhb a 0 c d ≡ ok ((a / 256) ∷ (a % 256) ∷ 0 ∷ 0 ∷ (c / 256) ∷ (c % 256) ∷ d ∷ [])
unfolding pack_hhhb
pack_hhhb_lem a c d ha hc hd = ground arith

-- The bytes of a frame that the encoder returns, and what it has checked.
pub mbap_bytes :
    (tid uid : ℕ) (pdu : Bytes) {frame : Bytes}
    → encode_mbap_frame tid uid pdu ≡ ok frame
    → (tid < 65536)
      × (uid < 256)
      × (1 ≤ length pdu)
      × (length pdu + 1 < 65536)
      × (frame
          ≡ (tid / 256)
            ∷ (tid % 256)
            ∷ 0
            ∷ 0
            ∷ ((1 + length pdu) / 256)
            ∷ ((1 + length pdu) % 256)
            ∷ uid
            ∷ pdu)
unfolding encode_mbap_frame
mbap_bytes tid uid pdu h = ground (arith, pack_hhhb_lem tid (1 + length pdu) uid)

-- Whatever the encoder accepts, the decoder reads back from the frame.
pub decode_mbap_frame-encode_mbap_frame :
    (tid uid : ℕ) (pdu : Bytes) {frame : Bytes}
    → encode_mbap_frame tid uid pdu ≡ ok frame
    → decode_mbap_frame frame ≡ ok (tid, uid, pdu)
unfolding decode_mbap_frame
decode_mbap_frame-encode_mbap_frame tid uid pdu h =
    let (ht, hu, lo, hi, e) = mbap_bytes tid uid pdu h in rw e (ground arith)

-- Conversely, for a frame of bytes: what the decoder accepts is exactly the encoding of what it
-- returns, so no two frames decode to the same triple.
pub encode_mbap_frame-decode_mbap_frame :
    (frame : Bytes) (tid uid : ℕ) (pdu : Bytes)
    → All IsByte frame
    → decode_mbap_frame frame ≡ ok (tid, uid, pdu)
    → encode_mbap_frame tid uid pdu ≡ ok frame
unfolding decode_mbap_frame encode_mbap_frame
encode_mbap_frame-decode_mbap_frame (a ∷ b ∷ c ∷ d ∷ e ∷ f ∷ g ∷ body) tid uid pdu hb h =
    ground (arith, pack_hhhb_lem tid (1 + length pdu) uid)
encode_mbap_frame-decode_mbap_frame frame tid uid pdu hb h = ground arith

-- The first six bytes of a frame, whatever follows it, tell the frame's length.
pub expected_frame_length-encode_mbap_frame :
    (tid uid : ℕ) (pdu more : Bytes) {frame : Bytes}
    → encode_mbap_frame tid uid pdu ≡ ok frame
    → expected_frame_length (take 6 (frame ++ more)) ≡ ok (length frame)
unfolding expected_frame_length
expected_frame_length-encode_mbap_frame tid uid pdu more h =
    let (ht, hu, lo, hi, e) = mbap_bytes tid uid pdu h in rw e (ground arith)

-- On any bytes the MBAP decoder raises nothing but a protocol error.
pub decode_mbap_frame-err :
    (frame : Bytes) {e : Exc} → decode_mbap_frame frame ≡ err e → e ≡ protocol_error
unfolding decode_mbap_frame
decode_mbap_frame-err (a ∷ b ∷ c ∷ d ∷ e ∷ f ∷ g ∷ body) h = ground arith
decode_mbap_frame-err frame h = ground arith
