-- ===== src/Transport/RtuOverTcp.antt =====
-- `send_and_receive` of src/pymod/transport/rtu_over_tcp.py. What the network does during a call is
-- the parameter `Network`; the stream keeps the bytes that were not read.
pub mod Laws
use pymod.Prelude.{ℕ, ◌+◌, ◌==◌, Bool, true, false, [], ◌++◌, length, drop, if◌then◌else◌}
use pymod.Errors.{
  Exc, Result, ok, err, modbus_error, timeout_error, connection_error, protocol_error, value_error,
  incomplete_read, ◌>>=◌, ◌>>◌, guard,
}
use pymod.Bytes.{Bytes}
use pymod.Protocol.AduRtu.{encode_rtu_frame, decode_rtu_frame}
use pymod.Transport.RtuResponse.{read_rtu_response}

pub record RtuOverTcpTransport : Type 0 where
  pub closed : Bool
  pub connected : Bool
  pub unread : Bytes

-- How a read ends when no more bytes come.
pub data Ending : Type 0 where
  timed_out ended reset : Ending

pub record Network : Type 0 where
  pub opens : Bool
  pub sends : Bool
  pub arriving : Bytes
  pub ending : Ending

unfoldable pub open_locked : Network → RtuOverTcpTransport → Result RtuOverTcpTransport
open_locked w t =
    if t.connected
    then ok t
    else if t.closed
    then err modbus_error
    else if w.opens
    then ok (record { closed = t.closed; connected = true; unread = [] })
    else err connection_error

unfoldable pub teardown_locked : RtuOverTcpTransport → RtuOverTcpTransport
teardown_locked t = record { closed = t.closed; connected = false; unread = [] }

-- The stream after a read that left `rest`.
unfoldable pub with_unread : Bytes → RtuOverTcpTransport → RtuOverTcpTransport
with_unread rest t = record { closed = t.closed; connected = t.connected; unread = rest }

unfoldable pub ending_error : Ending → Exc
ending_error timed_out = timeout_error
ending_error ended = connection_error
ending_error reset = connection_error

-- The last lines: the frame is checked, and its unit id is compared.
unfoldable pub check_response : ℕ → Bytes → Result Bytes
check_response unit_id response_frame = do
  (uid, response_pdu) ← decode_rtu_frame response_frame
  guard (uid == unit_id) protocol_error
  ok response_pdu

-- What comes of the read. A reader that raises `ModbusProtocolError` has taken the two bytes of the
-- head, and nothing catches the exception.
unfoldable pub receive : ℕ → Network → RtuOverTcpTransport → RtuOverTcpTransport × Result Bytes
unfolding teardown_locked with_unread ending_error check_response
receive unit_id w t = elim (read_rtu_response (t.unread ++ w.arriving)) [
  | ok (frame, rest) ↦ (with_unread rest t, check_response unit_id frame)
  | err incomplete_read ↦ (teardown_locked t, err (ending_error w.ending))
  | err e ↦ (with_unread (drop 2 (t.unread ++ w.arriving)) t, err e)
]

-- The body of `async with self._lock`, once the stream is open.
unfoldable pub exchange :
    Bytes → ℕ → Network → RtuOverTcpTransport → RtuOverTcpTransport × Result Bytes
unfolding receive
exchange pdu unit_id w t = elim (encode_rtu_frame unit_id pdu) [
  | err e ↦ (t, err e)
  | ok frame ↦ if w.sends then receive unit_id w t else (teardown_locked t, err connection_error)
]

unfoldable pub send_and_receive :
    Bytes → ℕ → Network → RtuOverTcpTransport → RtuOverTcpTransport × Result Bytes
unfolding open_locked exchange
send_and_receive pdu unit_id w t =
    if t.closed
    then (t, err modbus_error)
    else if length pdu == 0
    then (t, err value_error)
    else elim (open_locked w t) [ err e ↦ (t, err e) | ok open_t ↦ exchange pdu unit_id w open_t ]
