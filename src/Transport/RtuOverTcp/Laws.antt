-- ===== src/Transport/RtuOverTcp/Laws.antt =====
-- A call of src/pymod/transport/rtu_over_tcp.py over an open, drained stream on which a response
-- arrives.
use pymod.Prelude.{ℕ, ◌≤◌, ◌≡◌, refl, ◌==◌, Bool, true, false, [], ◌∷◌, ◌++◌, length, arith}
use pymod.Errors.{ok}
use pymod.Bytes.{Bytes}
use pymod.Protocol.AduRtu.{encode_rtu_frame}
use pymod.Protocol.AduRtu.Laws.{decode_rtu_frame-encode_rtu_frame}
use pymod.Transport.RtuResponse.Laws.{IsResponse, read_rtu_response-encode_rtu_frame}
use pymod.Transport.RtuOverTcp.{
  Ending, open_locked, with_unread, check_response, receive, exchange, send_and_receive,
}

pub check_response-encode_rtu_frame :
    (unit : ℕ) (pdu : Bytes) {frame : Bytes}
    → encode_rtu_frame unit pdu ≡ ok frame
    → check_response unit frame ≡ ok pdu
unfolding check_response
check_response-encode_rtu_frame unit pdu h =
    rw (decode_rtu_frame-encode_rtu_frame unit pdu h) (ground arith)

-- On an open stream with no byte left over, a request that the encoder accepts and the network takes
-- returns the response whose frame arrives next from the same unit, and leaves exactly the bytes
-- behind that frame.
pub send_and_receive-response :
    (request response more : Bytes) (unit : ℕ) (ending : Ending) (opens : Bool) {sent frame : Bytes}
    → 1 ≤ length request
    → encode_rtu_frame unit request ≡ ok sent
    → IsResponse response
    → encode_rtu_frame unit response ≡ ok frame
    → send_and_receive request unit
        (record { opens = opens; sends = true; arriving = frame ++ more; ending = ending })
        (record { closed = false; connected = true; unread = [] })
      ≡ (record { closed = false; connected = true; unread = more }, ok response)
unfolding send_and_receive open_locked exchange receive with_unread
send_and_receive-response (b ∷ request) response more unit ending opens {sent} {frame} h s r e =
    let some_bytes : (length (b ∷ request) == 0) ≡ false = ground arith in
    rw
      (
        send_and_receive,
        some_bytes,
        exchange,
        s,
        receive,
        read_rtu_response-encode_rtu_frame unit response more r e,
        check_response-encode_rtu_frame unit response e,
      )
      refl
send_and_receive-response [] response more unit ending opens h s r e = absurd (omega arith)
