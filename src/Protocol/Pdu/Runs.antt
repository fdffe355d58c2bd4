-- ===== src/Protocol/Pdu/Runs.antt =====
-- The PDU codecs at concrete requests and responses, and their theorems there.
use pymod.Prelude.{
  ◌≤◌, ◌<◌, none, ◌⊎◌, ◌≢◌, ℕ, ◌≡◌, refl, Bool, true, false, some, List, [], ◌∷◌, ◌++◌, arith,
}
use pymod.Errors.{ok, err, protocol_error, exception_response}
use pymod.Types.{Area}
use pymod.Bytes.{Bytes, pack_bhh, pack_bhhb, pack_words, unpack_words}
use pymod.Protocol.Pdu.{pack_bits, read_bits, detect_exception, raise_exception}
use pymod.Protocol.Pdu.Bitmap.{bit_of, bit_of-pack_bits, read_bits-pack_bits}
use pymod.Protocol.Pdu.Request.{
  encode_read_holding_registers, encode_write_single_coil, encode_write_single_register,
  encode_write_multiple_coils, encode_write_multiple_registers,
}
use pymod.Protocol.Pdu.Response.{
  decode_bit_response, decode_register_response, decode_read_coils, decode_read_discrete_inputs,
  decode_read_holding_registers, decode_read_input_registers,
}
use pymod.Protocol.Pdu.SlaveRequest.{
  decode_request_write_single_coil, decode_request_write_multiple_registers,
}
use pymod.Protocol.Pdu.SlaveResponse.{
  encode_response_read_coils, encode_response_read_discrete_inputs,
  encode_response_read_holding_registers, encode_response_read_input_registers,
  encode_exception_response,
}
use pymod.Protocol.Pdu.RoundTrip.{
  decode_request, decode_request-encode_request, request_write_single_coil,
}
use pymod.Protocol.Pdu.Replies.{
  documented, class_in, bit_responses, register_responses,
  detect_exception-encode_exception_response,
}
use pymod.Protocol.Pdu.Registry.{
  CustomCodec, Registry, register_codec, get_codec, register_codec_lem,
}
use pymod.Protocol.Pdu.Requests.{
  Decodes, CountWithin, LengthWithin, request_limit, decode_request-Decodes,
  decode_request_write_multiple_registers-Decodes,
}

encode_three : encode_read_holding_registers 107 3 ≡ ok (3 ∷ 0 ∷ 107 ∷ 0 ∷ 3 ∷ [])
unfolding encode_read_holding_registers pack_bhh
encode_three = refl

encode_coil : encode_write_single_coil 172 true ≡ ok (5 ∷ 0 ∷ 172 ∷ 255 ∷ 0 ∷ [])
unfolding encode_write_single_coil pack_bhh
encode_coil = refl

encode_register : encode_write_single_register 1 259 ≡ ok (6 ∷ 0 ∷ 1 ∷ 1 ∷ 3 ∷ [])
unfolding encode_write_single_register pack_bhh
encode_register = refl

abbrev three_coils : List Bool
three_coils = true ∷ false ∷ true ∷ []

encode_coils : encode_write_multiple_coils 19 three_coils ≡ ok (15 ∷ 0 ∷ 19 ∷ 0 ∷ 3 ∷ 1 ∷ 5 ∷ [])
unfolding encode_write_multiple_coils pack_bhhb pack_bits
encode_coils = refl

encode_two :
    encode_write_multiple_registers 1 (10 ∷ 258 ∷ [])
    ≡ ok (16 ∷ 0 ∷ 1 ∷ 0 ∷ 2 ∷ 4 ∷ 0 ∷ 10 ∷ 1 ∷ 2 ∷ [])
unfolding encode_write_multiple_registers pack_bhhb pack_words
encode_two = refl

abbrev two_words : List ℕ
two_words = 10 ∷ 258 ∷ []

abbrev two_words_pdu : Bytes
two_words_pdu = 3 ∷ 4 ∷ 0 ∷ 10 ∷ 1 ∷ 2 ∷ []

decode_two : decode_register_response (3 ∷ 4 ∷ 0 ∷ 10 ∷ 1 ∷ 2 ∷ []) 2 3 ≡ ok (10 ∷ 258 ∷ [])
unfolding decode_register_response raise_exception unpack_words
decode_two = refl

decode_three : decode_bit_response (1 ∷ 1 ∷ 5 ∷ []) 3 1 ≡ ok three_coils
unfolding decode_bit_response raise_exception read_bits
decode_three = refl

short_registers : decode_register_response (3 ∷ 4 ∷ 0 ∷ 10 ∷ []) 2 3 ≡ err protocol_error
unfolding decode_register_response raise_exception unpack_words
short_registers = refl

short_bits : decode_bit_response (1 ∷ []) 3 1 ≡ err protocol_error
unfolding decode_bit_response raise_exception read_bits
short_bits = refl

decode_request-encode_request_example :
    decode_request Area.holding_register (3 ∷ 0 ∷ 107 ∷ 0 ∷ 3 ∷ []) ≡ ok (107, 3)
decode_request-encode_request_example =
    decode_request-encode_request Area.holding_register 107 3 encode_three

request_write_single_coil_example :
    decode_request_write_single_coil (5 ∷ 0 ∷ 172 ∷ 255 ∷ 0 ∷ []) ≡ ok (172, true)
request_write_single_coil_example = request_write_single_coil 172 true encode_coil

bit_responses_example :
    ((pdu : Bytes) × (encode_response_read_coils three_coils ≡ ok pdu)
      × (decode_read_coils pdu 3 ≡ ok three_coils))
    × ((pdu : Bytes) × (encode_response_read_discrete_inputs three_coils ≡ ok pdu)
        × (decode_read_discrete_inputs pdu 3 ≡ ok three_coils))
bit_responses_example = bit_responses three_coils (omega arith)

register_responses_example :
    ((pdu : Bytes) × (encode_response_read_holding_registers (10 ∷ 258 ∷ []) ≡ ok pdu)
      × (decode_read_holding_registers pdu 2 ≡ ok (10 ∷ 258 ∷ [])))
    × ((pdu : Bytes) × (encode_response_read_input_registers (10 ∷ 258 ∷ []) ≡ ok pdu)
        × (decode_read_input_registers pdu 2 ≡ ok (10 ∷ 258 ∷ [])))
register_responses_example = register_responses (10 ∷ 258 ∷ []) (ground arith) (omega arith)

detect_exception-encode_exception_response_example :
    (pdu : Bytes) × (encode_exception_response 3 2 ≡ ok pdu)
    × (detect_exception pdu 3 ≡ ok (some (exception_response (class_in documented 2) 2)))
detect_exception-encode_exception_response_example =
    detect_exception-encode_exception_response 3 2 (omega arith) (omega arith)

decode_request-Decodes_example :
    Decodes (CountWithin (request_limit Area.coil)) (decode_request Area.coil (1 ∷ 0 ∷ 0 ∷ []))
decode_request-Decodes_example = decode_request-Decodes Area.coil (1 ∷ 0 ∷ 0 ∷ [])

decode_request_write_multiple_registers-Decodes_example :
    Decodes
      (LengthWithin 123)
      (decode_request_write_multiple_registers (16 ∷ 0 ∷ 1 ∷ 0 ∷ 2 ∷ 4 ∷ 0 ∷ 10 ∷ 1 ∷ 2 ∷ []))
decode_request_write_multiple_registers-Decodes_example =
    decode_request_write_multiple_registers-Decodes (16 ∷ 0 ∷ 1 ∷ 0 ∷ 2 ∷ 4 ∷ 0 ∷ 10 ∷ 1 ∷ 2 ∷ [])

read_bits-pack_bits_example :
    read_bits ((1 ∷ 1 ∷ []) ++ pack_bits three_coils) 2 3 0 ≡ ok three_coils
read_bits-pack_bits_example = read_bits-pack_bits (1 ∷ 1 ∷ []) three_coils

bit_of-pack_bits_example : bit_of (pack_bits three_coils) 2 ≡ true
bit_of-pack_bits_example = bit_of-pack_bits three_coils 2

abbrev vendor_codec : CustomCodec (Unit {0})
vendor_codec = record { code = 0x41; functions = tt }

registered : register_codec vendor_codec [] ≡ ok ((0x41, vendor_codec) ∷ [])
unfolding register_codec
registered = refl

abbrev no_codecs : Registry (Unit {0})
no_codecs = []

register_codec_lem_example :
    (get_codec 0x41 ((0x41, vendor_codec) ∷ []) ≡ some vendor_codec)
    × (get_codec 0x41 no_codecs ≡ none)
    × ((vendor_codec.code ≡ 0) ⊎ ((17 ≤ vendor_codec.code) × (vendor_codec.code < 128)))
    × ((other : ℕ)
        → other ≢ vendor_codec.code
        → get_codec other ((0x41, vendor_codec) ∷ []) ≡ get_codec other no_codecs)
register_codec_lem_example =
    register_codec_lem vendor_codec [] ((0x41, vendor_codec) ∷ []) registered
