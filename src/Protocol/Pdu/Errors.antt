-- ===== src/Protocol/Pdu/Errors.antt =====
-- Which exceptions the decoders of pdu.py raise, on arbitrary bytes.
use pymod.Prelude.{
  ℕ, zero, suc, ◌+◌, ◌*◌, ◌/◌, ◌≤◌, ◌<◌, ◌≡◌, ap, refl, inl, inr, ◌⊎◌, Bool, true, some, List, [],
  ◌∷◌, arith, length, get_elem?, get_or, ◌%◌, bit_or, drop, ◌==◌, Bool-cases, length-drop,
  get_elem?-eq-get_or,
}
use pymod.Prelude.Bits.{test_bit}
use pymod.Errors.{protocol_error, Exc, ok, err, exception_response, class_of_code, is_modbus_error}
use pymod.Bytes.{Bytes, unpack_words}
use pymod.Protocol.Pdu.{raise_exception, read_bit, read_bits}
use pymod.Protocol.Pdu.Response.{decode_bit_response, decode_register_response}

pub unpack_words_total :
    (n : ℕ) (raw : Bytes)
    → length raw ≡ 2 * n
    → (vs : List ℕ) × (unpack_words n raw ≡ ok vs) × (length vs ≡ n)
unfolding unpack_words
unpack_words_total zero [] h = ([], refl, refl)
unpack_words_total zero (a ∷ raw) h = absurd (omega arith)
unpack_words_total (suc n) [] h = absurd (omega arith)
unpack_words_total (suc n) (a ∷ []) h = absurd (omega arith)
unpack_words_total (suc n) (a ∷ b ∷ raw) h =
    let (vs, e, l) = unpack_words_total n raw (omega arith) in
    ((a * 256 + b) ∷ vs, rw e refl, ap suc l)

read_bit_total :
    (raw : Bytes) (offset i : ℕ)
    → offset + i / 8 < length raw
    → (b : Bool) × (read_bit raw offset i ≡ ok b)
unfolding read_bit
read_bit_total raw offset i h = (
  test_bit (get_or raw (offset + i / 8) 0) (i % 8),
  ground (arith, get_elem?-eq-get_or raw (offset + i / 8) 0),
)

pub read_bits_total :
    (raw : Bytes) (offset n i : ℕ)
    → 8 * offset + i + n ≤ 8 * length raw
    → (vs : List Bool) × (read_bits raw offset n i ≡ ok vs) × (length vs ≡ n)
unfolding read_bits
read_bits_total raw offset zero i h = ([], refl, refl)
read_bits_total raw offset (suc n) i h =
    let (b, e) = read_bit_total raw offset i (omega arith) in
    let (vs, f, l) = read_bits_total raw offset n (i + 1) (omega arith) in
    (b ∷ vs, rw (e, f) refl, ap suc l)

raise_exception-cases :
    (pdu : Bytes) (fc : ℕ)
    → (raise_exception pdu fc ≡ ok tt)
      ⊎ ((e : Exc) × (raise_exception pdu fc ≡ err e) × (is_modbus_error e ≡ true))
unfolding raise_exception
raise_exception-cases [] fc = inr (protocol_error, refl, refl)
raise_exception-cases (x ∷ []) fc = elim (Bool-cases (x == fc)) [
  | inl e ↦ inl (rw e refl)
  | inr n ↦ inr (protocol_error, ground arith, refl)
]
raise_exception-cases (x ∷ code ∷ rest) fc = elim (Bool-cases (x == fc)) [
  | inl e ↦ inl (rw e refl)
  | inr n ↦ elim (Bool-cases (x == bit_or fc 0x80)) [
    | inl e ↦ inr (exception_response (class_of_code code) code, rw (n, e) refl, refl)
    | inr m ↦ inr (protocol_error, rw (n, m) refl, refl)
  ]
]

-- Behind the tests the reads of `decode_register_response` are in range.
register_body :
    (pdu : Bytes) (count : ℕ)
    → length pdu ≡ 2 + 2 * count
    → (vs : List ℕ) × (unpack_words count (drop 2 pdu) ≡ ok vs) × (length vs ≡ count)
register_body pdu count h = unpack_words_total count (drop 2 pdu) (omega (arith, length-drop 2 pdu))

-- Whatever the bytes are, the register decoder raises nothing but a `ModbusError`.
pub decode_register_response-err :
    (pdu : Bytes) (count fc : ℕ) {e : Exc}
    → decode_register_response pdu count fc ≡ err e
    → is_modbus_error e ≡ true
unfolding decode_register_response
decode_register_response-err pdu count fc h = elim (raise_exception-cases pdu fc) [
  | inl r ↦ ground (arith, register_body pdu count, get_elem?-eq-get_or pdu 1 0)
  | inr (x, r, m) ↦ ground arith
]

bit_body :
    (pdu : Bytes) (count : ℕ)
    → length pdu ≡ 2 + (count + 7) / 8
    → (vs : List Bool) × (read_bits pdu 2 count 0 ≡ ok vs) × (length vs ≡ count)
bit_body pdu count h = read_bits_total pdu 2 count 0 (omega arith)

-- Whatever the bytes are, the bit decoder raises nothing but a `ModbusError`.
pub decode_bit_response-err :
    (pdu : Bytes) (count fc : ℕ) {e : Exc}
    → decode_bit_response pdu count fc ≡ err e
    → is_modbus_error e ≡ true
unfolding decode_bit_response
decode_bit_response-err pdu count fc h = elim (raise_exception-cases pdu fc) [
  | inl r ↦ ground (arith, bit_body pdu count, get_elem?-eq-get_or pdu 1 0)
  | inr (x, r, m) ↦ ground arith
]

-- A response that the register decoder accepts has the function code, the byte count of `count`
-- registers and exactly their bytes; and the decoder returns `count` values.
pub decode_register_response-ok :
    (pdu : Bytes) (count fc : ℕ) {values : List ℕ}
    → decode_register_response pdu count fc ≡ ok values
    → (length values ≡ count) × (length pdu ≡ 2 + 2 * count) × (get_elem? pdu 1 ≡ some (2 * count))
unfolding decode_register_response
decode_register_response-ok pdu count fc h = elim (raise_exception-cases pdu fc) [
  | inl r ↦ ground (arith, register_body pdu count, get_elem?-eq-get_or pdu 1 0)
  | inr (x, r, m) ↦ ground arith
]

pub decode_bit_response-ok :
    (pdu : Bytes) (count fc : ℕ) {values : List Bool}
    → decode_bit_response pdu count fc ≡ ok values
    → length values ≡ count
unfolding decode_bit_response
decode_bit_response-ok pdu count fc h = elim (raise_exception-cases pdu fc) [
  | inl r ↦ ground (arith, bit_body pdu count, get_elem?-eq-get_or pdu 1 0)
  | inr (x, r, m) ↦ ground arith
]
