-- ===== src/Protocol/Pdu/Requests.antt =====
-- The server's request decoders of src/pymod/protocol/pdu.py on arbitrary bytes.
use pymod.Prelude.{
  ℕ, ◌+◌, ◌*◌, ◌/◌, ◌≤◌, ◌≡◌, refl, inl, inr, ◌⊎◌, Bool, true, false, ◌&&◌, List, [], ◌∷◌, arith,
  length, get_or, drop, take, ◌==◌, leb, length-drop, length-take, get_elem?-eq-get_or, ==→eq,
  leb→le,
}
use pymod.Errors.{Result, ok, err, ◌>>=◌, ◌>>◌, guard}
use pymod.Types.{Area}
use pymod.Bytes.{Bytes, index, unpack_hh}
use pymod.Protocol.Pdu.Errors.{unpack_words_total, read_bits_total}
use pymod.Protocol.Pdu.RoundTrip.{decode_request}
use pymod.Protocol.Pdu.SlaveRequest.{
  illegal_value, decode_request_read, decode_request_read_coils,
  decode_request_read_discrete_inputs, decode_request_read_holding_registers,
  decode_request_read_input_registers, decode_request_write_multiple_coils,
  decode_request_write_multiple_registers,
}

-- `r` is a value with `P`, or `IllegalDataValue`.
abbrev pub Decodes {ℓ} : {A : Type ℓ} → (A → Type 0) → Result A → Type ℓ
Decodes {A} P r = ((a : A) × (r ≡ ok a) × P a) ⊎ (r ≡ err illegal_value)

module _ {ℓ} {A : Type ℓ} (P : A → Type 0) where
  Decodes-guard :
      (b : Bool) (r : Result A) → (b ≡ true → Decodes P r) → Decodes P (guard b illegal_value >> r)
  Decodes-guard true r h = h refl
  Decodes-guard false r h = inr refl

  Decodes-ok : (a : A) → P a → Decodes P (ok a)
  Decodes-ok a p = inl (a, refl, p)

module _ {ℓ κ} {A : Type ℓ} {B : Type κ} (P : B → Type 0) where
  Decodes-bind :
      (m : Result A) (f : A → Result B) (a : A) → m ≡ ok a → Decodes P (f a) → Decodes P (m >>= f)
  Decodes-bind m f a e h = rw e h

unpack_hh_total : (raw : Bytes) → length raw ≡ 4 → (p : ℕ × ℕ) × (unpack_hh raw ≡ ok p)
unfolding unpack_hh
unpack_hh_total (a ∷ b ∷ c ∷ d ∷ []) h = ((a * 256 + b, c * 256 + d), refl)
unpack_hh_total [] h = absurd (omega arith)
unpack_hh_total (a ∷ []) h = absurd (omega arith)
unpack_hh_total (a ∷ b ∷ []) h = absurd (omega arith)
unpack_hh_total (a ∷ b ∷ c ∷ []) h = absurd (omega arith)
unpack_hh_total (a ∷ b ∷ c ∷ d ∷ e ∷ l) h = absurd (omega arith)

header_total :
    (pdu : Bytes) → 5 ≤ length pdu → (p : ℕ × ℕ) × (unpack_hh (take 4 (drop 1 pdu)) ≡ ok p)
header_total pdu h =
    unpack_hh_total (take 4 (drop 1 pdu))
      (omega (arith, length-take 4 (drop 1 pdu), length-drop 1 pdu))

sixth : (pdu : Bytes) → 6 ≤ length pdu → index pdu 5 ≡ ok (get_or pdu 5 0)
unfolding index
sixth pdu h = rw (get_elem?-eq-get_or pdu 5 0 h, index) refl

-- A request that is read has the fields in range.
abbrev pub CountWithin : ℕ → ℕ × ℕ → Type 0
CountWithin limit (start, count) = (1 ≤ count) × (count ≤ limit)

within_limit :
    (limit count : ℕ) → (leb 1 count && leb count limit) ≡ true → (1 ≤ count) × (count ≤ limit)
within_limit limit count h = ground arith

decode_request_read-Decodes :
    (limit : ℕ) (pdu : Bytes) → Decodes (CountWithin limit) (decode_request_read limit pdu)
unfolding decode_request_read
decode_request_read-Decodes limit pdu = Decodes-guard _ (length pdu == 5) _ λ h.
    let ((start, count), e) = header_total pdu (omega (arith, ==→eq _ _ h)) in
    Decodes-bind _ _ _ (start, count) e
      (Decodes-guard _ _ _ λ k. Decodes-ok _ (start, count) (within_limit limit count k))

abbrev pub request_limit : Area → ℕ
request_limit Area.coil = 2000
request_limit Area.discrete_input = 2000
request_limit Area.holding_register = 125
request_limit Area.input_register = 125

-- On every byte string and for each area, the server's read-request decoder returns a count between
-- 1 and the area's limit, or raises `IllegalDataValue`: there is no third outcome.
pub decode_request-Decodes :
    (area : Area) (pdu : Bytes)
    → Decodes (CountWithin (request_limit area)) (decode_request area pdu)
unfolding decode_request_read_coils decode_request_read_discrete_inputs
    decode_request_read_holding_registers decode_request_read_input_registers
decode_request-Decodes Area.coil pdu = decode_request_read-Decodes 2000 pdu
decode_request-Decodes Area.discrete_input pdu = decode_request_read-Decodes 2000 pdu
decode_request-Decodes Area.holding_register pdu = decode_request_read-Decodes 125 pdu
decode_request-Decodes Area.input_register pdu = decode_request_read-Decodes 125 pdu

abbrev pub LengthWithin {ℓ} : {A : Type ℓ} → ℕ → ℕ × List A → Type 0
LengthWithin limit (start, values) = (1 ≤ length values) × (length values ≤ limit)

payload : (pdu : Bytes) (n : ℕ) → length pdu ≡ 6 + n → length (drop 6 pdu) ≡ n
payload pdu n h = omega (arith, length-drop 6 pdu)

-- On every byte string the server's decoder of FC15 returns between 1 and 1968 coils, or raises
-- `IllegalDataValue`: there is no third outcome.
pub decode_request_write_multiple_coils-Decodes :
    (pdu : Bytes) → Decodes (LengthWithin 1968) (decode_request_write_multiple_coils pdu)
unfolding decode_request_write_multiple_coils
decode_request_write_multiple_coils-Decodes pdu = Decodes-guard _ (leb 6 (length pdu)) _ λ h.
    let ((start, count), e) = header_total pdu (omega (arith, leb→le _ _ h)) in
    Decodes-bind _ _ _ (start, count) e
      (Decodes-bind _ _ _ (get_or pdu 5 0) (sixth pdu (omega (arith, leb→le _ _ h))) (
        Decodes-guard _ (leb 1 count && leb count 1968) _ λ k.
          Decodes-guard _ (get_or pdu 5 0 == (count + 7) / 8) _ λ l.
            Decodes-guard _ (length pdu == 6 + get_or pdu 5 0) _ λ m.
              let (vs, f, n) = read_bits_total (drop 6 pdu) 0 count 0 (
                omega (
                  arith,
                  payload pdu (get_or pdu 5 0) (==→eq (length pdu) (6 + get_or pdu 5 0) m),
                  ==→eq (get_or pdu 5 0) ((count + 7) / 8) l,
                )) in
              Decodes-bind _ _ _ vs f
                (Decodes-ok _ (start, vs) (omega (arith, within_limit 1968 count k)))))

-- On every byte string the server's decoder of FC16 returns between 1 and 123 registers, or raises
-- `IllegalDataValue`: there is no third outcome.
pub decode_request_write_multiple_registers-Decodes :
    (pdu : Bytes) → Decodes (LengthWithin 123) (decode_request_write_multiple_registers pdu)
unfolding decode_request_write_multiple_registers
decode_request_write_multiple_registers-Decodes pdu = Decodes-guard _ (leb 6 (length pdu)) _ λ h.
    let ((start, count), e) = header_total pdu (omega (arith, leb→le _ _ h)) in
    Decodes-bind _ _ _ (start, count) e
      (Decodes-bind _ _ _ (get_or pdu 5 0) (sixth pdu (omega (arith, leb→le _ _ h))) (
        Decodes-guard _ (leb 1 count && leb count 123) _ λ k.
          Decodes-guard _ (get_or pdu 5 0 == 2 * count) _ λ l.
            Decodes-guard _ (length pdu == 6 + get_or pdu 5 0) _ λ m.
              let (vs, f, n) = unpack_words_total count (drop 6 pdu) (
                omega (
                  arith,
                  payload pdu (get_or pdu 5 0) (==→eq (length pdu) (6 + get_or pdu 5 0) m),
                  ==→eq (get_or pdu 5 0) (2 * count) l,
                )) in
              Decodes-bind _ _ _ vs f
                (Decodes-ok _ (start, vs) (omega (arith, within_limit 123 count k)))))
