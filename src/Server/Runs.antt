-- ===== src/Server/Runs.antt =====
-- A server of the counting device, a connection to it, and the theorems there.
use pymod.Prelude.{ℕ, List, Option, ◌≡◌, refl, ap, none, some, [], ◌∷◌, ◌++◌, arith}
use pymod.Errors.{
  ExceptionClass, exception_response, Result, ok, err, protocol_error, value_error, ◌>>◌,
}
use pymod.Bytes.{Bytes, pack_bhh, unpack_hh, to_bytes_words}
use pymod.Protocol.Pdu.SlaveRequest.{decode_request_read_holding_registers}
use pymod.Protocol.Pdu.SlaveResponse.{encode_response_read_holding_registers}
use pymod.Protocol.Pdu.Request.{encode_read_holding_registers}
use pymod.Codec.Runs.{whole_floats}
use pymod.Protocol.AduTcp.{encode_mbap_frame, decode_mbap_frame, expected_frame_length}
use pymod.Planner.Read.{validate_all, plan_and_execute_reads}
use pymod.Planner.Read.EndToEnd.{Answers, direct_reads, plan_and_execute_reads-direct_reads}
use pymod.Planner.Runs.{counting, counting-IsDevice, batch}
use pymod.Types.{Area}
use pymod.Server.{to_int_list, Datum, Server, dispatch}
use pymod.Server.Total.{dispatch_total}
use pymod.Server.Total.Handlers.{CallbacksFit}
use pymod.Server.Total.Codes.{RaisesBytes}
use mathlib.Core.Path.{subst}
use pymod.Server.Connection.{serve}
use pymod.Server.Connection.Fuel.{EndsWithin, serve_ends}
use pymod.Server.Lifecycle.{start}
use pymod.Server.Connection.Served.{IsFramed, finished, request, malformed, serve-Served}
use pymod.Server.System.{device_data, dispatch-device_response, read_through_server}

abbrev counting_server : Server (Unit {0})
counting_server = record {
  on_read = λ s area x n. (s, ok (device_data counting area x n));
  on_write = none;
  unit_id = some 1;
}

read_through_server_example :
    plan_and_execute_reads whole_floats batch (λ k req. (dispatch counting_server 1 req tt).1)
    ≡ (validate_all batch >> direct_reads whole_floats counting batch)
read_through_server_example =
    read_through_server counting_server counting counting-IsDevice tt 1 refl (λ area x n. refl)
      whole_floats batch (ground arith)

counting_server-Answers : Answers counting (λ k req. (dispatch counting_server 1 req tt).1)
counting_server-Answers k area start count req e =
    ap (λ (t : Unit {0} × Result Bytes). t.1)
      (dispatch-device_response counting_server counting counting-IsDevice tt 1 refl (λ a x n. refl)
        area start count req e)

-- The same batch for any executor that answers, here the one that asks the server.
plan_and_execute_reads-direct_reads_example :
    plan_and_execute_reads whole_floats batch (λ k req. (dispatch counting_server 1 req tt).1)
    ≡ (validate_all batch >> direct_reads whole_floats counting batch)
plan_and_execute_reads-direct_reads_example =
    plan_and_execute_reads-direct_reads whole_floats counting
      (λ k req. (dispatch counting_server 1 req tt).1) batch counting-IsDevice
      counting_server-Answers (ground arith)

abbrev read_words : Bytes
read_words = 3 ∷ 0 ∷ 100 ∷ 0 ∷ 2 ∷ []

encode_words : encode_read_holding_registers 100 2 ≡ ok read_words
unfolding encode_read_holding_registers pack_bhh
encode_words = refl

abbrev first_request : Bytes
first_request = 0 ∷ 9 ∷ 0 ∷ 0 ∷ 0 ∷ 6 ∷ 1 ∷ 3 ∷ 0 ∷ 100 ∷ 0 ∷ 2 ∷ []

abbrev bad_frame : Bytes
bad_frame = 0 ∷ 9 ∷ 0 ∷ 1 ∷ 0 ∷ 2 ∷ 1 ∷ 3 ∷ []

abbrev first_reply : Bytes
first_reply = 0 ∷ 9 ∷ 0 ∷ 0 ∷ 0 ∷ 7 ∷ 1 ∷ 3 ∷ 4 ∷ 0 ∷ 100 ∷ 0 ∷ 101 ∷ []

bad_frame-IsFramed : IsFramed bad_frame
unfolding expected_frame_length
bad_frame-IsFramed = (omega arith, refl)

bad_frame_dropped : decode_mbap_frame bad_frame ≡ err protocol_error
unfolding decode_mbap_frame
bad_frame_dropped = refl

encode_first : encode_mbap_frame 9 1 read_words ≡ ok first_request
unfolding encode_mbap_frame
encode_first = refl

abbrev words_response : Bytes
words_response = 3 ∷ 4 ∷ 0 ∷ 100 ∷ 0 ∷ 101 ∷ []

words_answered : dispatch counting_server 1 read_words tt ≡ (tt, ok words_response)
unfolding dispatch decode_request_read_holding_registers unpack_hh to_int_list
    encode_response_read_holding_registers to_bytes_words
words_answered = refl

encode_reply : encode_mbap_frame 9 1 words_response ≡ ok first_reply
unfolding encode_mbap_frame
encode_reply = refl

serve-Served_example :
    serve counting_server 30 (bad_frame ++ (first_request ++ [])) tt ≡ (tt, first_reply ∷ [])
serve-Served_example =
    serve-Served counting_server 30 tt tt (bad_frame ++ (first_request ++ [])) (first_reply ∷ [])
      (malformed bad_frame (first_request ++ []) bad_frame-IsFramed bad_frame_dropped (
        request 9 1 read_words words_response first_request [] tt encode_first words_answered
          encode_reply finished))
      (omega arith)

serve_ends_example :
    EndsWithin counting_server 20
      (bad_frame ++ first_request)
      tt
      (serve counting_server 20 (bad_frame ++ first_request) tt)
serve_ends_example = serve_ends counting_server 20 (bad_frame ++ first_request) tt (omega arith)

-- A device that refuses every read, and whose writes fail with an exception that is no response.
abbrev refusing : Server (Unit {0})
refusing = record {
  on_read = λ s area x n. (s, err (exception_response ExceptionClass.illegal_data_address 2));
  on_write = some (λ s area x vs. (s, err value_error));
  unit_id = none;
}

refusing-CallbacksFit : CallbacksFit refusing
refusing-CallbacksFit = (
  λ s area x n. omega arith,
  λ w e s area x vs.
      subst
        (λ (o : Option (Unit {0} → Area → ℕ → List Datum → Unit {0} × Result (Unit {0}))).
          elim o as (λ z. Type 0) [ none ↦ Unit | some g ↦ RaisesBytes (g s area x vs).1 ])
        e tt,
)

dispatch_total_example : (resp : Bytes) × ((dispatch refusing 1 read_words tt).1 ≡ ok resp)
dispatch_total_example =
    dispatch_total refusing refusing-CallbacksFit 1 read_words (ground arith) tt
