-- ===== src/Transport/RtuResponse/Replies.antt =====
-- The response reader of src/pymod/transport/_rtu_response.py on what the server's encoders form.
use pymod.Prelude.{
  ℕ, ◌+◌, ◌/◌, ◌%◌, ◌≤◌, ◌<◌, ◌≡◌, refl, sym, ap, ◌∙◌, ◌⊎◌, inl, inr, ltb, leb, ◌&&◌, not, Bool,
  true, false, List, [], ◌∷◌, ◌++◌, arith, bit_and, bit_or, length, if◌then◌else◌,
}
use mathlib.Core.Path.{subst}
use pymod.Prelude.Bits.{all_below, all_below_sound}
use pymod.Errors.{Result, ok, err, bind_ok, value_error, struct_error, guard, ◌>>=◌, ◌>>◌}
use pymod.Bytes.{Bytes, be16, bytes_pair, pack_bhh, pack_b, pack_h, to_bytes_words}
use pymod.Protocol.AduRtu.{encode_rtu_frame}
use pymod.Protocol.Pdu.{pack_bits}
use pymod.Protocol.Pdu.Bitmap.{length-pack_bits}
use pymod.Protocol.Pdu.SlaveResponse.{
  encode_response_read_coils, encode_response_read_discrete_inputs,
  encode_response_read_holding_registers, encode_response_read_input_registers,
  encode_response_write_single_coil, encode_response_write_single_register,
  encode_response_write_multiple_coils, encode_response_write_multiple_registers,
  encode_exception_response,
}
use pymod.Transport.RtuResponse.{read_rtu_response}
use pymod.Transport.RtuResponse.Laws.{
  IsResponse, values, echo, failure, read_rtu_response-encode_rtu_frame,
}

-- What the server's encoders return.
pub data IsReply (pdu : Bytes) : Type 0 where
  coils : (bits : List Bool) → encode_response_read_coils bits ≡ ok pdu → IsReply pdu
  discrete_inputs :
      (bits : List Bool) → encode_response_read_discrete_inputs bits ≡ ok pdu → IsReply pdu
  holding_registers :
      (words : List ℕ) → encode_response_read_holding_registers words ≡ ok pdu → IsReply pdu
  input_registers :
      (words : List ℕ) → encode_response_read_input_registers words ≡ ok pdu → IsReply pdu
  single_coil : (a : ℕ) (v : Bool) → encode_response_write_single_coil a v ≡ ok pdu → IsReply pdu
  single_register : (a v : ℕ) → encode_response_write_single_register a v ≡ ok pdu → IsReply pdu
  multiple_coils : (a n : ℕ) → encode_response_write_multiple_coils a n ≡ ok pdu → IsReply pdu
  multiple_registers :
      (a n : ℕ) → encode_response_write_multiple_registers a n ≡ ok pdu → IsReply pdu
  exception : (fc code : ℕ) → encode_exception_response fc code ≡ ok pdu → IsReply pdu

ok_inj {ℓ} : {A : Type ℓ} {x y : A} → ok x ≡ ok y → x ≡ y
ok_inj {x = x} h = ap (λ r. elim r [ ok z ↦ z | err e ↦ x ]) h

if_ok : (b : Bool) {x y : Bytes} → (if b then ok x else err struct_error) ≡ ok y → x ≡ y
if_ok true h = ok_inj h
if_ok false h = ground arith

bytes_pair_ok : (a n : ℕ) (head : Bytes) → bytes_pair a n ≡ ok head → head ≡ a ∷ n ∷ []
unfolding bytes_pair
bytes_pair_ok a n head h =
    let (u, e, k) =
      bind_ok (guard (leb a 0xFF && leb n 0xFF) value_error) (λ x. ok (a ∷ n ∷ [])) head h in
    sym (ok_inj k)

-- A head with the count of the bytes behind it.
counted :
    (fc n : ℕ) (body pdu : Bytes)
    → 1 ≤ fc
    → fc ≤ 4
    → length body ≡ n
    → (bytes_pair fc n >>= λ head. ok (head ++ body)) ≡ ok pdu
    → IsResponse pdu
counted fc n body pdu lo hi e h =
    let (head, p, q) = bind_ok (bytes_pair fc n) (λ x. ok (x ++ body)) pdu h in
    subst IsResponse (ap (λ (x : Bytes). x ++ body) (sym (bytes_pair_ok fc n head p)) ∙ ok_inj q)
      (values fc n body lo hi e)

echoed :
    (fc a v : ℕ) (pdu : Bytes)
    → (fc ≡ 5) ⊎ ((fc ≡ 6) ⊎ ((fc ≡ 15) ⊎ (fc ≡ 16)))
    → pack_bhh fc a v ≡ ok pdu
    → IsResponse pdu
unfolding pack_bhh pack_b pack_h be16
echoed fc a v pdu codes h =
    let fields : Bytes → Bytes → Bytes → Result Bytes = λ x y z. ok (x ++ (y ++ z)) in
    let (x, p, k) = bind_ok (pack_b fc) (λ x. pack_h a >>= λ y. pack_h v >>= fields x y) pdu h in
    let (y, q, l) = bind_ok (pack_h a) (λ y. pack_h v >>= fields x y) pdu k in
    let (z, r, m) = bind_ok (pack_h v) (fields x y) pdu l in
    subst IsResponse
      (ap (λ (t : Bytes). t ++ (be16 a ++ be16 v)) (if_ok (leb fc 0xFF) p)
        ∙ ap (λ (t : Bytes). x ++ (t ++ be16 v)) (if_ok (leb a 0xFFFF) q)
        ∙ ap (λ (t : Bytes). x ++ (y ++ t)) (if_ok (leb v 0xFFFF) r)
        ∙ ok_inj m)
      (echo fc (a / 256) (a % 256) (v / 256) (v % 256) codes)

exception_table :
    all_below 256 (λ fc.
      not (ltb (bit_and (bit_or fc 0x80) 0xFF) 128) && ltb (bit_and (bit_or fc 0x80) 0xFF) 256)
    ≡ true
unfolding all_below
exception_table = refl

excepted : (fc code : ℕ) (pdu : Bytes) → encode_exception_response fc code ≡ ok pdu → IsResponse pdu
unfolding encode_exception_response
excepted fc code pdu h =
    let reply : Result Bytes = ok (bit_and (bit_or fc 0x80) 0xFF ∷ code ∷ []) in
    let (u, e, k) =
      bind_ok (guard (leb fc 0xFF) value_error) (λ x. guard (leb code 0xFF) value_error >> reply)
        pdu h in
    let (u', e', k') = bind_ok (guard (leb code 0xFF) value_error) (λ x. reply) pdu k in
    let small : fc < 256 = ground (arith, e) in
    subst IsResponse (ok_inj k') (
      failure (bit_and (bit_or fc 0x80) 0xFF) code
        (ground (arith, all_below_sound 256 _ exception_table fc small))
        (ground (arith, all_below_sound 256 _ exception_table fc small)))

pub IsReply-IsResponse : (pdu : Bytes) → IsReply pdu → IsResponse pdu
unfolding encode_response_read_coils encode_response_read_discrete_inputs
    encode_response_read_holding_registers encode_response_read_input_registers
    encode_response_write_single_coil encode_response_write_single_register
    encode_response_write_multiple_coils encode_response_write_multiple_registers
IsReply-IsResponse pdu (coils bits h) =
    counted 1 ((length bits + 7) / 8) (pack_bits bits) pdu (omega arith) (omega arith)
      (length-pack_bits bits) h
IsReply-IsResponse pdu (discrete_inputs bits h) =
    counted 2 ((length bits + 7) / 8) (pack_bits bits) pdu (omega arith) (omega arith)
      (length-pack_bits bits) h
IsReply-IsResponse pdu (holding_registers words h) =
    let (body, e, k) =
      bind_ok (to_bytes_words words)
        (λ body. bytes_pair 3 (length body) >>= λ head. ok (head ++ body)) pdu h in
    counted 3 (length body) body pdu (omega arith) (omega arith) refl k
IsReply-IsResponse pdu (input_registers words h) =
    let (body, e, k) =
      bind_ok (to_bytes_words words)
        (λ body. bytes_pair 4 (length body) >>= λ head. ok (head ++ body)) pdu h in
    counted 4 (length body) body pdu (omega arith) (omega arith) refl k
IsReply-IsResponse pdu (single_coil a v h) = echoed 5 a (if v then 0xFF00 else 0) pdu (inl refl) h
IsReply-IsResponse pdu (single_register a v h) = echoed 6 a v pdu (inr (inl refl)) h
IsReply-IsResponse pdu (multiple_coils a n h) = echoed 15 a n pdu (inr (inr (inl refl))) h
IsReply-IsResponse pdu (multiple_registers a n h) = echoed 16 a n pdu (inr (inr (inr refl))) h
IsReply-IsResponse pdu (exception fc code h) = excepted fc code pdu h

-- Each response that one of the server's nine encoders returns, values, echoes and exceptions, is taken
-- off the line by the reader: exactly the frame that carries it, and what follows is left.
pub read_rtu_response-IsReply :
    (unit : ℕ) (pdu more : Bytes) {frame : Bytes}
    → IsReply pdu
    → encode_rtu_frame unit pdu ≡ ok frame
    → read_rtu_response (frame ++ more) ≡ ok (frame, more)
read_rtu_response-IsReply unit pdu more reply h =
    read_rtu_response-encode_rtu_frame unit pdu more (IsReply-IsResponse pdu reply) h
