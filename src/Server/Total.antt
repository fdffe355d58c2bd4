-- ===== src/Server/Total.antt =====
-- The replies of `_dispatch` of src/pymod/server.py to arbitrary bytes, and callbacks that raise.
pub mod Codes
pub mod Handlers
use pymod.Prelude.{
  All, ℕ, ◌<◌, ◌≡◌, refl, arith, Bool, true, false, [], ◌∷◌, if◌then◌else◌, bit_and, bit_or,
}
use pymod.Errors.{
  exception_response, class_code, modbus_error, timeout_error, connection_error, crc_error,
  protocol_error, value_error, struct_error, index_error, assertion_error, incomplete_read,
  python_error, Result, ok, err,
}
use pymod.Bytes.{Bytes, IsByte}
use pymod.Protocol.Pdu.SlaveResponse.{encode_exception_response}
use pymod.Server.{Server, handle, catch_handler, is_foreign, dispatch, gateway_target}
use pymod.Server.Total.Handlers.{CallbacksFit, Handles, handles, handle-Handles}

exception_total :
    (fc code : ℕ)
    → fc < 256
    → code < 256
    → (resp : Bytes) × (encode_exception_response fc code ≡ ok resp)
unfolding encode_exception_response
exception_total fc code hf hc = (bit_and (bit_or fc 0x80) 0xFF ∷ code ∷ [], ground arith)

module _ {S : Type 0} (server : Server S) (fits : CallbacksFit server) where
  catch_total :
      (fc : ℕ) (t : S × Result Bytes)
      → fc < 256
      → Handles t
      → (resp : Bytes) × ((catch_handler server fc t).1 ≡ ok resp)
  unfolding catch_handler class_code
  catch_total fc t hf (handles (s, ok pdu) h) = (pdu, refl)
  catch_total fc t hf (handles (s, err (exception_response cls code)) h) =
      exception_total fc code hf h
  catch_total fc t hf (handles (s, err modbus_error) h) = exception_total fc 4 hf (omega arith)
  catch_total fc t hf (handles (s, err timeout_error) h) = exception_total fc 4 hf (omega arith)
  catch_total fc t hf (handles (s, err connection_error) h) = exception_total fc 4 hf (omega arith)
  catch_total fc t hf (handles (s, err crc_error) h) = exception_total fc 4 hf (omega arith)
  catch_total fc t hf (handles (s, err protocol_error) h) = exception_total fc 4 hf (omega arith)
  catch_total fc t hf (handles (s, err value_error) h) = exception_total fc 4 hf (omega arith)
  catch_total fc t hf (handles (s, err struct_error) h) = exception_total fc 4 hf (omega arith)
  catch_total fc t hf (handles (s, err index_error) h) = exception_total fc 4 hf (omega arith)
  catch_total fc t hf (handles (s, err assertion_error) h) = exception_total fc 4 hf (omega arith)
  catch_total fc t hf (handles (s, err incomplete_read) h) = exception_total fc 4 hf (omega arith)
  catch_total fc t hf (handles (s, err python_error) h) = exception_total fc 4 hf (omega arith)

  foreign_total :
      (b : Bool) (fc : ℕ) (t : S × Result Bytes) (s : S)
      → fc < 256
      → ((resp : Bytes) × (t.1 ≡ ok resp))
      → (resp : Bytes) × ((if b then (s, encode_exception_response fc gateway_target) else t).1
          ≡ ok resp)
  unfolding gateway_target class_code
  foreign_total true fc t s hf h = exception_total fc gateway_target hf (omega arith)
  foreign_total false fc t s hf h = h

-- On every byte string and in every state `_dispatch` returns a response PDU and raises nothing, whatever
-- exceptions the callbacks raise, if the codes of the exception responses that they raise fit a byte.
pub dispatch_total :
    {S : Type 0} (server : Server S)
    → CallbacksFit server
    → (uid : ℕ) (pdu : Bytes) → All IsByte pdu
    → (s : S) → (resp : Bytes) × ((dispatch server uid pdu s).1 ≡ ok resp)
unfolding dispatch class_code
dispatch_total server fits uid [] hb s = exception_total 0 1 (omega arith) (omega arith)
dispatch_total server fits uid (fc ∷ rest) (hf, hb) s =
    foreign_total server fits (is_foreign server uid) fc
      (catch_handler server fc (handle server fc (fc ∷ rest) s)) s hf
      (catch_total server fits fc (handle server fc (fc ∷ rest) s) hf
        (handle-Handles server fits fc (fc ∷ rest) s))
