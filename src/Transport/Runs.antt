-- ===== src/Transport/Runs.antt =====
-- The transports at concrete frames, and their theorems there.
use pymod.Prelude.{ℕ, ◌≢◌, some, arith, true, false, ◌<◌, ◌≡◌, refl, [], ◌∷◌, ◌++◌}
use pymod.Errors.{Exc, ok, err, protocol_error}
use pymod.Bytes.{Bytes, to_bytes_words, bytes_pair}
use pymod.Protocol.AduRtu.{crc16, crc16_table, encode_rtu_frame}
use pymod.Protocol.AduTcp.{encode_mbap_frame}
use pymod.Transport.RtuOverTcp.{timed_out, send_and_receive}
use pymod.Transport.RtuOverTcp.Laws.{send_and_receive-response}
use pymod.Transport.Serial
use pymod.Transport.Serial.{Line, write_timed_out, read_timed_out, write_time}
use pymod.Transport.Serial.Laws.{open_port, answering, serial-response}
use pymod.Transport.Tcp.Steps.{
  new_transport, set_connected, connects, begins, Reach, starts, moves, IsSound, Reach-IsSound,
}
use pymod.Transport.Tcp.{
  TcpTransport, waiting, begin_request, lookup, is_pending, allocate_tid, deliver,
}
use pymod.Transport.Tcp.Pending.{settled, allocate_tid_lem, deliver-encode_mbap_frame}
use pymod.Transport.RtuResponse.{read_rtu_response}
use pymod.Transport.RtuResponse.Replies.{holding_registers, read_rtu_response-IsReply}
use pymod.Protocol.Pdu.SlaveResponse.{encode_response_read_holding_registers}
use pymod.Transport.RtuResponse.Laws.{values, read_rtu_response-encode_rtu_frame}

abbrev reply_bytes : Bytes
reply_bytes = 1 ∷ 3 ∷ 2 ∷ 0 ∷ 7 ∷ 0xF9 ∷ 0x86 ∷ []

encode_reply : encode_rtu_frame 1 (3 ∷ 2 ∷ 0 ∷ 7 ∷ []) ≡ ok reply_bytes
unfolding encode_rtu_frame crc16 crc16_table
encode_reply = refl

read_rtu_response-encode_rtu_frame_example :
    read_rtu_response (reply_bytes ++ (1 ∷ 5 ∷ [])) ≡ ok (reply_bytes, 1 ∷ 5 ∷ [])
read_rtu_response-encode_rtu_frame_example =
    read_rtu_response-encode_rtu_frame 1 (3 ∷ 2 ∷ 0 ∷ 7 ∷ []) (1 ∷ 5 ∷ [])
      (values 3 2 (0 ∷ 7 ∷ []) (omega arith) (omega arith) refl) encode_reply

encode_request_bytes :
    encode_rtu_frame 1 (3 ∷ 0 ∷ 0 ∷ 0 ∷ 1 ∷ []) ≡ ok (1 ∷ 3 ∷ 0 ∷ 0 ∷ 0 ∷ 1 ∷ 0x84 ∷ 0x0A ∷ [])
unfolding encode_rtu_frame crc16 crc16_table
encode_request_bytes = refl

send_and_receive-response_example :
    send_and_receive
      (3 ∷ 0 ∷ 0 ∷ 0 ∷ 1 ∷ [])
      1
      (record {
        opens = false;
        sends = true;
        arriving = reply_bytes ++ (9 ∷ []);
        ending = timed_out;
      })
      (record { closed = false; connected = true; unread = [] })
    ≡ (record { closed = false; connected = true; unread = 9 ∷ [] }, ok (3 ∷ 2 ∷ 0 ∷ 7 ∷ []))
send_and_receive-response_example =
    send_and_receive-response (3 ∷ 0 ∷ 0 ∷ 0 ∷ 1 ∷ []) (3 ∷ 2 ∷ 0 ∷ 7 ∷ []) (9 ∷ []) 1 timed_out
      false (omega arith) encode_request_bytes
      (values 3 2 (0 ∷ 7 ∷ []) (omega arith) (omega arith) refl) encode_reply

-- Two requests in flight, at the end of the range of ids.
abbrev two_pending : TcpTransport
two_pending = record {
  next_tid = 65535;
  pending = (65535, waiting) ∷ (0, waiting) ∷ [];
  connected = true;
}

allocated : allocate_tid two_pending ≡ ok (1, 2)
unfolding allocate_tid
allocated = refl

allocate_tid_lem_example :
    ((tid next : ℕ)
      → allocate_tid two_pending ≡ ok (tid, next)
      → (tid < 65536) × (next < 65536) × (is_pending tid two_pending.pending ≡ false))
    × ((e : Exc)
        → allocate_tid two_pending ≡ err e
        → (x : ℕ) → x < 65536
        → is_pending x two_pending.pending ≡ true)
allocate_tid_lem_example = allocate_tid_lem two_pending (omega arith)

encode_response_frame :
    encode_mbap_frame 0 1 (3 ∷ 2 ∷ 0 ∷ 7 ∷ []) ≡ ok (0 ∷ 0 ∷ 0 ∷ 0 ∷ 0 ∷ 5 ∷ 1 ∷ 3 ∷ 2 ∷ 0 ∷ 7 ∷ [])
unfolding encode_mbap_frame
encode_response_frame = refl

abbrev response_frame : Bytes
response_frame = 0 ∷ 0 ∷ 0 ∷ 0 ∷ 0 ∷ 5 ∷ 1 ∷ 3 ∷ 2 ∷ 0 ∷ 7 ∷ []

abbrev last_id : ℕ
last_id = 65535

deliver-encode_mbap_frame_example :
    (lookup 0 (deliver response_frame two_pending).pending
      ≡ settled (3 ∷ 2 ∷ 0 ∷ 7 ∷ []) (lookup 0 two_pending.pending))
    × (last_id ≢ 0
        → lookup 65535 (deliver response_frame two_pending).pending
          ≡ lookup 65535 two_pending.pending)
deliver-encode_mbap_frame_example =
    deliver-encode_mbap_frame 0 1 65535 (3 ∷ 2 ∷ 0 ∷ 7 ∷ []) two_pending encode_response_frame

-- A response with an unknown function code: the three bytes behind its head stay in the stream.
unknown_code :
    send_and_receive
      (3 ∷ 0 ∷ 0 ∷ 0 ∷ 1 ∷ [])
      1
      (record {
        opens = false;
        sends = true;
        arriving = 1 ∷ 0x41 ∷ 7 ∷ 8 ∷ 9 ∷ [];
        ending = timed_out;
      })
      (record { closed = false; connected = true; unread = [] })
    ≡ (record { closed = false; connected = true; unread = 7 ∷ 8 ∷ 9 ∷ [] }, err protocol_error)
unfolding send_and_receive encode_rtu_frame crc16 crc16_table read_rtu_response
unknown_code = refl

-- The same stream at the next call: its intact response is not read.
next_call :
    send_and_receive
      (3 ∷ 0 ∷ 0 ∷ 0 ∷ 1 ∷ [])
      1
      (record { opens = false; sends = true; arriving = reply_bytes; ending = timed_out })
      (record { closed = false; connected = true; unread = 7 ∷ 8 ∷ 9 ∷ [] })
    ≡ (record { closed = false; connected = true; unread = 9 ∷ reply_bytes }, err protocol_error)
unfolding send_and_receive encode_rtu_frame crc16 crc16_table read_rtu_response
next_call = refl

-- A request in flight whose response comes before it ends.
abbrev in_flight : TcpTransport
in_flight = record { next_tid = 1; pending = (0, waiting) ∷ []; connected = true }

abbrev connected_transport : TcpTransport
connected_transport = record { next_tid = 0; pending = []; connected = true }

begun : begin_request connected_transport ≡ ok (0, in_flight)
unfolding begin_request
begun = refl

in_flight_reached : Reach in_flight
unfolding new_transport set_connected
in_flight_reached =
    moves connected_transport in_flight (moves new_transport connected_transport starts connects)
      (begins 0 in_flight begun)

Reach-IsSound_example : IsSound in_flight
Reach-IsSound_example = Reach-IsSound in_flight in_flight_reached

serial-response_example :
    Serial.send_and_receive
      (3 ∷ 0 ∷ 0 ∷ 0 ∷ 1 ∷ [])
      1
      (answering false read_timed_out 1000 5000 (reply_bytes ++ (9 ∷ [])))
      (open_port (255 ∷ []) 1750 500)
    ≡ record {
      after = open_port (9 ∷ []) 1750 5000;
      sent_at = some (
          write_time
            (answering false read_timed_out 1000 5000 (reply_bytes ++ (9 ∷ [])))
            (open_port (255 ∷ []) 1750 500));
      outcome = ok (3 ∷ 2 ∷ 0 ∷ 7 ∷ []);
    }
serial-response_example =
    serial-response (3 ∷ 0 ∷ 0 ∷ 0 ∷ 1 ∷ []) (3 ∷ 2 ∷ 0 ∷ 7 ∷ []) (9 ∷ []) (255 ∷ []) 1 1750 500
      1000 5000 false read_timed_out (omega arith) encode_request_bytes
      (values 3 2 (0 ∷ 7 ∷ []) (omega arith) (omega arith) refl) encode_reply

-- A call that ends at 5000, and one that comes at 6000 to a line on which nothing can be written.
abbrev silent : Line
silent = record {
  opens = true;
  resets = true;
  write_end = write_timed_out;
  arriving = [];
  read_end = read_timed_out;
  now = 6000;
  done_at = 7000;
}

abbrev read_word : Bytes
read_word = 3 ∷ 0 ∷ 0 ∷ 0 ∷ 1 ∷ []

encode_register : encode_response_read_holding_registers (7 ∷ []) ≡ ok (3 ∷ 2 ∷ 0 ∷ 7 ∷ [])
unfolding encode_response_read_holding_registers to_bytes_words bytes_pair
encode_register = refl

read_rtu_response-IsReply_example :
    read_rtu_response (reply_bytes ++ (1 ∷ 5 ∷ [])) ≡ ok (reply_bytes, 1 ∷ 5 ∷ [])
read_rtu_response-IsReply_example =
    read_rtu_response-IsReply 1 (3 ∷ 2 ∷ 0 ∷ 7 ∷ []) (1 ∷ 5 ∷ [])
      (holding_registers (7 ∷ []) encode_register) encode_reply
