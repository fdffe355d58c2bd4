-- ===== src/Server/Total/Codes.antt =====
-- The codes of the exceptions that the decoders and the encoders of src/pymod/server.py raise.
use pymod.Prelude.{
  ℕ, ◌+◌, ◌/◌, ◌<◌, sym, arith, leb, Bool, true, false, inl, inr, List, [], ◌∷◌, length, ◌==◌, ◌&&◌,
  if◌then◌else◌,
}
use mathlib.Core.Path.{subst}
use pymod.Prelude.Int.{ℤ, pos, negsuc, leb_ℤ}
use pymod.Errors.{
  Exc, exception_response, Result, ok, err, new_response, class_code, value_error, python_error,
  ◌>>=◌, ◌>>◌, guard,
}
use pymod.Bytes.{Bytes, pack_b, pack_h, pack_bhh, unpack_bhh, to_bytes_words, bytes_pair}
use pymod.Protocol.Pdu.Requests.{Decodes}
use pymod.Protocol.Pdu.SlaveRequest.{
  illegal_value, decode_request_write_single_coil, decode_request_write_single_register,
}
use pymod.Protocol.Pdu.SlaveResponse.{
  encode_response_read_coils, encode_response_read_discrete_inputs,
  encode_response_read_holding_registers, encode_response_read_input_registers,
}
use pymod.Server.{Datum, device_failure, to_bool_list, to_int, collect_words, to_int_list}

-- An exception response's code fits a byte.
abbrev pub HasByteCode : Exc → Type 0
HasByteCode (exception_response cls code) = code < 256
HasByteCode _ = Unit

-- What a call raises has a code that fits a byte, if it has a code.
abbrev pub RaisesBytes {ℓ} : {A : Type ℓ} → Result A → Type 0
RaisesBytes (ok a) = Unit
RaisesBytes (err e) = HasByteCode e

module _ {κ ℓ} {A : Type κ} {B : Type ℓ} where
  pub RaisesBytes-bind :
      (m : Result A) (k : A → Result B)
      → RaisesBytes m
      → ((a : A) → RaisesBytes (k a))
      → RaisesBytes (m >>= k)
  RaisesBytes-bind (ok a) k h hk = hk a
  RaisesBytes-bind (err e) k h hk = h

pub RaisesBytes-guard {ℓ} :
    {B : Type ℓ} (b : Bool) (e : Exc) (r : Result B)
    → HasByteCode e
    → RaisesBytes r
    → RaisesBytes (guard b e >> r)
RaisesBytes-guard true e r he hr = hr
RaisesBytes-guard false e r he hr = he

illegal_value-HasByteCode : HasByteCode illegal_value
unfolding illegal_value new_response class_code
illegal_value-HasByteCode = omega arith

pub device_failure-HasByteCode : HasByteCode device_failure
unfolding device_failure new_response class_code
device_failure-HasByteCode = omega arith

pub Decodes-RaisesBytes : {A : Type 0} (P : A → Type 0) (r : Result A) → Decodes P r → RaisesBytes r
unfolding illegal_value new_response class_code
Decodes-RaisesBytes P (ok a) h = tt
Decodes-RaisesBytes P (err e) (inl (a, x, p)) = ground arith
Decodes-RaisesBytes {A = A} P (err e) (inr x) =
    subst (λ (r : Result A). RaisesBytes r) (sym x) illegal_value-HasByteCode

-- Both branches of a test.
test-RaisesBytes {ℓ} :
    {A : Type ℓ} (b : Bool) (r q : Result A)
    → RaisesBytes r
    → RaisesBytes q
    → RaisesBytes (if b then r else q)
test-RaisesBytes true r q hr hq = hr
test-RaisesBytes false r q hr hq = hq

pack_h-RaisesBytes : (v : ℕ) → RaisesBytes (pack_h v)
unfolding pack_h
pack_h-RaisesBytes v = test-RaisesBytes (leb v 0xFFFF) _ _ tt tt

pack_b-RaisesBytes : (v : ℕ) → RaisesBytes (pack_b v)
unfolding pack_b
pack_b-RaisesBytes v = test-RaisesBytes (leb v 0xFF) _ _ tt tt

pub pack_bhh-RaisesBytes : (fc a b : ℕ) → RaisesBytes (pack_bhh fc a b)
unfolding pack_bhh
pack_bhh-RaisesBytes fc a b = RaisesBytes-bind (pack_b fc) _ (pack_b-RaisesBytes fc) λ x.
    RaisesBytes-bind (pack_h a) _ (pack_h-RaisesBytes a)
      λ y. RaisesBytes-bind (pack_h b) _ (pack_h-RaisesBytes b) λ z. tt

bytes_pair-RaisesBytes : (a b : ℕ) → RaisesBytes (bytes_pair a b)
unfolding bytes_pair
bytes_pair-RaisesBytes a b = RaisesBytes-guard (leb a 0xFF && leb b 0xFF) value_error _ tt tt

to_bytes_words-RaisesBytes : (vs : List ℕ) → RaisesBytes (to_bytes_words vs)
unfolding to_bytes_words
to_bytes_words-RaisesBytes [] = tt
to_bytes_words-RaisesBytes (v ∷ vs) =
    RaisesBytes-guard (leb v 0xFFFF) python_error _ tt
      (RaisesBytes-bind (to_bytes_words vs) _ (to_bytes_words-RaisesBytes vs) λ rest. tt)

unpack_bhh-RaisesBytes : (raw : Bytes) → RaisesBytes (unpack_bhh raw)
unfolding unpack_bhh
unpack_bhh-RaisesBytes [] = tt
unpack_bhh-RaisesBytes (a ∷ []) = tt
unpack_bhh-RaisesBytes (a ∷ b ∷ []) = tt
unpack_bhh-RaisesBytes (a ∷ b ∷ c ∷ []) = tt
unpack_bhh-RaisesBytes (a ∷ b ∷ c ∷ d ∷ []) = tt
unpack_bhh-RaisesBytes (a ∷ b ∷ c ∷ d ∷ e ∷ []) = tt
unpack_bhh-RaisesBytes (a ∷ b ∷ c ∷ d ∷ e ∷ f ∷ rest) = tt

pub write_single_coil-RaisesBytes :
    (pdu : Bytes) → RaisesBytes (decode_request_write_single_coil pdu)
unfolding decode_request_write_single_coil
write_single_coil-RaisesBytes pdu =
    RaisesBytes-guard (length pdu == 5) illegal_value _ illegal_value-HasByteCode (
      RaisesBytes-bind (unpack_bhh pdu) _ (unpack_bhh-RaisesBytes pdu) λ (f, a, coded).
        test-RaisesBytes (coded == 0xFF00) _ _ tt
          (test-RaisesBytes (coded == 0) _ _ tt illegal_value-HasByteCode))

pub write_single_register-RaisesBytes :
    (pdu : Bytes) → RaisesBytes (decode_request_write_single_register pdu)
unfolding decode_request_write_single_register
write_single_register-RaisesBytes pdu =
    RaisesBytes-guard (length pdu == 5) illegal_value _ illegal_value-HasByteCode
      (RaisesBytes-bind (unpack_bhh pdu) _ (unpack_bhh-RaisesBytes pdu) λ p. tt)

to_bool_list-RaisesBytes : (vs : List Datum) (n : ℕ) → RaisesBytes (to_bool_list vs n)
unfolding to_bool_list
to_bool_list-RaisesBytes vs n =
    RaisesBytes-guard (length vs == n) device_failure _ device_failure-HasByteCode tt

collect_words-RaisesBytes : (vs : List Datum) → RaisesBytes (collect_words vs)
unfolding collect_words
collect_words-RaisesBytes [] = tt
collect_words-RaisesBytes (v ∷ vs) =
    RaisesBytes-guard (leb_ℤ (pos 0) (to_int v) && leb_ℤ (to_int v) (pos 0xFFFF)) device_failure _
      device_failure-HasByteCode
      (RaisesBytes-bind (collect_words vs) _ (collect_words-RaisesBytes vs)
        λ out. word (to_int v) out)
  where
    word :
        (z : ℤ) (out : List ℕ)
        → RaisesBytes (elim z as (λ x. Result (List ℕ)) [
          | pos n ↦ ok (n ∷ out)
          | negsuc n ↦ err device_failure
        ])
    word (pos n) out = tt
    word (negsuc n) out = device_failure-HasByteCode

to_int_list-RaisesBytes : (vs : List Datum) (n : ℕ) → RaisesBytes (to_int_list vs n)
unfolding to_int_list
to_int_list-RaisesBytes vs n =
    RaisesBytes-guard (length vs == n) device_failure _ device_failure-HasByteCode
      (collect_words-RaisesBytes vs)

-- The four read responses, from the callback's values on.
pub coils-RaisesBytes :
    (vs : List Datum) (n : ℕ) → RaisesBytes (to_bool_list vs n >>= encode_response_read_coils)
unfolding encode_response_read_coils
coils-RaisesBytes vs n =
    RaisesBytes-bind (to_bool_list vs n) _ (to_bool_list-RaisesBytes vs n) λ bits.
      RaisesBytes-bind (bytes_pair 1 ((length bits + 7) / 8)) _ (bytes_pair-RaisesBytes 1 _) λ h. tt

pub discrete_inputs-RaisesBytes :
    (vs : List Datum) (n : ℕ)
    → RaisesBytes (to_bool_list vs n >>= encode_response_read_discrete_inputs)
unfolding encode_response_read_discrete_inputs
discrete_inputs-RaisesBytes vs n =
    RaisesBytes-bind (to_bool_list vs n) _ (to_bool_list-RaisesBytes vs n) λ bits.
      RaisesBytes-bind (bytes_pair 2 ((length bits + 7) / 8)) _ (bytes_pair-RaisesBytes 2 _) λ h. tt

pub holding_registers-RaisesBytes :
    (vs : List Datum) (n : ℕ)
    → RaisesBytes (to_int_list vs n >>= encode_response_read_holding_registers)
unfolding encode_response_read_holding_registers
holding_registers-RaisesBytes vs n =
    RaisesBytes-bind (to_int_list vs n) _ (to_int_list-RaisesBytes vs n) λ words.
      RaisesBytes-bind (to_bytes_words words) _ (to_bytes_words-RaisesBytes words)
        λ body. RaisesBytes-bind (bytes_pair 3 (length body)) _ (bytes_pair-RaisesBytes 3 _) λ h. tt

pub input_registers-RaisesBytes :
    (vs : List Datum) (n : ℕ)
    → RaisesBytes (to_int_list vs n >>= encode_response_read_input_registers)
unfolding encode_response_read_input_registers
input_registers-RaisesBytes vs n =
    RaisesBytes-bind (to_int_list vs n) _ (to_int_list-RaisesBytes vs n) λ words.
      RaisesBytes-bind (to_bytes_words words) _ (to_bytes_words-RaisesBytes words)
        λ body. RaisesBytes-bind (bytes_pair 4 (length body)) _ (bytes_pair-RaisesBytes 4 _) λ h. tt
