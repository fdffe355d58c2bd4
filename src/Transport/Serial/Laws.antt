-- ===== src/Transport/Serial/Laws.antt =====
-- A call of src/pymod/transport/serial.py: the gap between frames, and the response over an open
-- port.
use pymod.Prelude.{ℕ, ◌≤◌, ◌≡◌, refl, ◌==◌, Bool, true, false, some, [], ◌∷◌, ◌++◌, length, arith}
use pymod.Errors.{Result, ok, err}
use pymod.Bytes.{Bytes}
use pymod.Protocol.AduRtu.{encode_rtu_frame}
use pymod.Transport.RtuResponse.Laws.{IsResponse, read_rtu_response-encode_rtu_frame}
use pymod.Transport.RtuOverTcp.Laws.{check_response-encode_rtu_frame}
use pymod.Transport.Serial.{
  SerialTransport, Line, ReadEnd, written, open_locked, write_time, with_buffer, input_of,
  read_response, exchange_blocking, send_and_receive,
}

-- The transport with an open port.
abbrev opened : SerialTransport → SerialTransport
opened t = record {
  closed = t.closed;
  connected = true;
  unread = [];
  frame_gap = t.frame_gap;
  last_op = t.last_op;
}

-- What a call that returns keeps: the gap, and the time of its own end.
abbrev IsKept : Line → SerialTransport → SerialTransport × Result Bytes → Type 0
IsKept line t (after, ok response) =
    (after.last_op ≡ line.done_at) × (after.frame_gap ≡ t.frame_gap)
IsKept line t (after, err e) = Unit

-- An open port, and a line that takes the frame and on which bytes arrive.
abbrev pub open_port : Bytes → ℕ → ℕ → SerialTransport
open_port unread gap last = record {
  closed = false;
  connected = true;
  unread = unread;
  frame_gap = gap;
  last_op = last;
}

abbrev pub answering : Bool → ReadEnd → ℕ → ℕ → Bytes → Line
answering opens read_end now done_at arriving = record {
  opens = opens;
  resets = true;
  write_end = written;
  arriving = arriving;
  read_end = read_end;
  now = now;
  done_at = done_at;
}

-- Over an open port that drops stale input: a request that the encoder accepts and the port takes returns
-- the response whose frame arrives next from the same unit, leaves exactly the bytes behind that
-- frame, and keeps the time of its end.
pub serial-response :
    (request response more stale : Bytes) (unit gap last now done_at : ℕ) (opens : Bool)
    (read_end : ReadEnd) {sent frame : Bytes}
    → 1 ≤ length request
    → encode_rtu_frame unit request ≡ ok sent
    → IsResponse response
    → encode_rtu_frame unit response ≡ ok frame
    → send_and_receive request unit
        (answering opens read_end now done_at (frame ++ more))
        (open_port stale gap last)
      ≡ record {
        after = open_port more gap done_at;
        sent_at = some (
            write_time
              (answering opens read_end now done_at (frame ++ more))
              (open_port stale gap last));
        outcome = ok response;
      }
unfolding send_and_receive open_locked exchange_blocking read_response input_of with_buffer
serial-response [] response more stale unit gap last now done_at opens read_end h s r e =
    absurd (omega arith)
serial-response (b ∷ request) response more stale unit gap last now done_at opens read_end {sent}
      {frame} h s r e =
    let some_bytes : (length (b ∷ request) == 0) ≡ false = ground arith in
    rw
      (
        send_and_receive,
        some_bytes,
        s,
        exchange_blocking,
        read_response,
        input_of,
        read_rtu_response-encode_rtu_frame unit response more r e,
        check_response-encode_rtu_frame unit response e,
      )
      refl
