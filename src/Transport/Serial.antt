-- ===== src/Transport/Serial.antt =====
-- `SerialTransport` of src/pymod/transport/serial.py. What pyserial and the line do during a call is the
-- parameter `Line`. Times are numbers of one small unit of the monotonic clock. The lock makes the
-- calls follow one another, so that a call is a function of the transport's state. Only the
-- reader's end is told apart, not the deadlines of its single reads.
pub mod Laws
use pymod.Prelude.{
  ℕ, ◌+◌, ◌-◌, ltb, ◌==◌, Bool, true, false, Option, none, some, [], ◌++◌, length, drop,
  if◌then◌else◌,
}
use pymod.Errors.{
  Exc, Result, ok, err, modbus_error, timeout_error, connection_error, value_error, incomplete_read,
}
use pymod.Bytes.{Bytes}
use pymod.Client.Factory.{Parity, parity_none}
use pymod.Protocol.AduRtu.{encode_rtu_frame}
use pymod.Transport.RtuResponse.{read_rtu_response}
use pymod.Transport.RtuOverTcp.{check_response}

-- `_bits_per_char`; `stop_bits` is `int(round(stopbits))`.
unfoldable pub bits_per_char : ℕ → Parity → ℕ → ℕ
bits_per_char bytesize Parity.parity_none stop_bits = 1 + bytesize + 0 + stop_bits
bits_per_char bytesize _ stop_bits = 1 + bytesize + 1 + stop_bits

-- The fields that change, and the gap; `unread` is the port's input buffer.
pub record SerialTransport : Type 0 where
  pub closed : Bool
  pub connected : Bool
  pub unread : Bytes
  pub frame_gap : ℕ
  pub last_op : ℕ

-- The end of a write, and of a read that wants more bytes than come.
pub data WriteEnd : Type 0 where
  written write_timed_out write_failed : WriteEnd

pub data ReadEnd : Type 0 where
  read_timed_out read_failed : ReadEnd

pub record Line : Type 0 where
  pub opens : Bool
  pub resets : Bool
  pub write_end : WriteEnd
  pub arriving : Bytes
  pub read_end : ReadEnd
  -- The clock at the start of the exchange and at its end.
  pub now : ℕ
  pub done_at : ℕ

-- What a call did: the time at which it wrote its frame, if it did, and its outcome.
pub record Call : Type 0 where
  pub after : SerialTransport
  pub sent_at : Option ℕ
  pub outcome : Result Bytes

-- `SerialTransport.__init__`
unfoldable pub new_transport : ℕ → SerialTransport
new_transport frame_gap = record {
  closed = false;
  connected = false;
  unread = [];
  frame_gap = frame_gap;
  last_op = 0;
}

unfoldable pub open_locked : Line → SerialTransport → Result SerialTransport
open_locked line t =
    if t.connected
    then ok t
    else if t.closed
    then err modbus_error
    else if line.opens
    then ok (record {
      closed = t.closed;
      connected = true;
      unread = [];
      frame_gap = t.frame_gap;
      last_op = t.last_op;
    })
    else err connection_error

-- `connect`
unfoldable pub connect : Line → SerialTransport → Result SerialTransport
unfolding open_locked
connect line t = if t.closed then err modbus_error else open_locked line t

-- `close`; what the port's own `close` raises is dropped.
unfoldable pub close : SerialTransport → SerialTransport
close t = record {
  closed = true;
  connected = false;
  unread = [];
  frame_gap = t.frame_gap;
  last_op = t.last_op;
}

-- The time of the write: after `time.sleep(gap - elapsed)`, if the gap has not passed.
unfoldable pub write_time : Line → SerialTransport → ℕ
write_time line t =
    let elapsed = line.now - t.last_op in
    if ltb elapsed t.frame_gap then line.now + (t.frame_gap - elapsed) else line.now

-- The transport after the call, with the bytes left in the buffer and the time of the last exchange.
unfoldable pub with_buffer : Bytes → ℕ → SerialTransport → SerialTransport
with_buffer unread last_op t = record {
  closed = t.closed;
  connected = t.connected;
  unread = unread;
  frame_gap = t.frame_gap;
  last_op = last_op;
}

-- `reset_input_buffer`, which a backend need not have.
unfoldable pub input_of : Line → SerialTransport → Bytes
input_of line t = (if line.resets then [] else t.unread) ++ line.arriving

unfoldable pub read_error : ReadEnd → Exc
read_error read_timed_out = timeout_error
read_error read_failed = connection_error

-- The reader, and the time that is kept only when it returns. A frame is checked afterwards. A reader
-- that raises `ModbusProtocolError` has taken the two bytes of the head.
unfoldable pub read_response : ℕ → Line → SerialTransport → SerialTransport × Result Bytes
unfolding input_of with_buffer read_error
read_response unit_id line t = elim (read_rtu_response (input_of line t)) [
  | ok (frame, rest) ↦ (with_buffer rest line.done_at t, check_response unit_id frame)
  | err incomplete_read ↦ (with_buffer [] t.last_op t, err (read_error line.read_end))
  | err e ↦ (with_buffer (drop 2 (input_of line t)) t.last_op t, err e)
]

-- `_exchange_blocking`, with the check of the response that follows it. The input buffer is reset before
-- the write, so that only what arrives from then on is in it when the write fails.
unfoldable pub exchange_blocking : ℕ → Line → SerialTransport → Call
unfolding read_response write_time input_of with_buffer
exchange_blocking unit_id line t = elim line.write_end [
  | write_timed_out ↦ record {
    after = with_buffer (input_of line t) t.last_op t;
    sent_at = some (write_time line t);
    outcome = err timeout_error;
  }
  | write_failed ↦ record {
    after = with_buffer (input_of line t) t.last_op t;
    sent_at = some (write_time line t);
    outcome = err connection_error;
  }
  | written ↦
      let (after, outcome) = read_response unit_id line t in
      record { after = after; sent_at = some (write_time line t); outcome = outcome }
]

abbrev pub unsent : SerialTransport → Exc → Call
unsent t e = record { after = t; sent_at = none; outcome = err e }

unfoldable pub send_and_receive : Bytes → ℕ → Line → SerialTransport → Call
unfolding open_locked exchange_blocking
send_and_receive pdu unit_id line t =
    if t.closed
    then unsent t modbus_error
    else if length pdu == 0
    then unsent t value_error
    else elim (open_locked line t) [
      | err e ↦ unsent t e
      | ok open_t ↦ elim (encode_rtu_frame unit_id pdu) [
        | err e ↦ unsent open_t e
        | ok frame ↦ exchange_blocking unit_id line open_t
      ]
    ]
