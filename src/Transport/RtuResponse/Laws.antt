-- ===== src/Transport/RtuResponse/Laws.antt =====
-- The response reader of src/pymod/transport/_rtu_response.py on frames of the response shapes.
use pymod.Prelude.{
  zero, suc, ◌≤◌, ◌<◌, ◌⊎◌, inl, inr, ltb, ℕ, ◌+◌, ◌/◌, ◌%◌, ◌≡◌, refl, ◌==◌, ◌||◌, not, true,
  false, [], ◌∷◌, ◌++◌, arith, bit_and, length, length-append,
}
use pymod.Prelude.Bits.{all_below, all_below_sound}
use pymod.Errors.{ok}
use pymod.Bytes.{Bytes, index}
use pymod.Bytes.Stream.{read_exactly-append}
use pymod.Protocol.AduRtu.{encode_rtu_frame, crc16, pack_le}
use pymod.Transport.RtuResponse.{read_rtu_response, is_read_fc, is_write_fc}

-- The shapes of a response PDU of the Modbus application protocol: values after their byte count for
-- FC01 to FC04, the echo of four bytes for FC05, FC06, FC15 and FC16, and an exception, whose function
-- code has the top bit.
pub data IsResponse : Bytes → Type 0 where
  values :
      (fc count : ℕ) (body : Bytes)
      → 1 ≤ fc
      → fc ≤ 4
      → length body ≡ count
      → IsResponse (fc ∷ count ∷ body)
  echo :
      (fc a b c d : ℕ)
      → (fc ≡ 5) ⊎ ((fc ≡ 6) ⊎ ((fc ≡ 15) ⊎ (fc ≡ 16)))
      → IsResponse (fc ∷ a ∷ b ∷ c ∷ d ∷ [])
  failure : (fc code : ℕ) → 128 ≤ fc → fc < 256 → IsResponse (fc ∷ code ∷ [])

-- The frame of a PDU is the unit, the PDU and two more bytes.
rtu_bytes :
    (unit : ℕ) (pdu : Bytes) {frame : Bytes}
    → encode_rtu_frame unit pdu ≡ ok frame
    → (lo hi : ℕ) × (frame ≡ unit ∷ (pdu ++ (lo ∷ hi ∷ [])))
unfolding encode_rtu_frame pack_le
rtu_bytes unit pdu h = (crc16 (unit ∷ pdu) % 256, crc16 (unit ∷ pdu) / 256, ground arith)

read_plain : (fc : ℕ) → 1 ≤ fc → fc ≤ 4 → (bit_and fc 0x80 ≡ 0) × (is_read_fc fc ≡ true)
read_plain zero lo hi = absurd (omega arith)
read_plain (suc zero) lo hi = (refl, refl)
read_plain (suc (suc zero)) lo hi = (refl, refl)
read_plain (suc (suc (suc zero))) lo hi = (refl, refl)
read_plain (suc (suc (suc (suc zero)))) lo hi = (refl, refl)
read_plain (suc (suc (suc (suc (suc n))))) lo hi = absurd (omega arith)

write_plain :
    (fc : ℕ)
    → (fc ≡ 5) ⊎ ((fc ≡ 6) ⊎ ((fc ≡ 15) ⊎ (fc ≡ 16)))
    → (bit_and fc 0x80 ≡ 0) × (is_read_fc fc ≡ false) × (is_write_fc fc ≡ true)
write_plain fc (inl e) = rw e (refl, refl, refl)
write_plain fc (inr (inl e)) = rw e (refl, refl, refl)
write_plain fc (inr (inr (inl e))) = rw e (refl, refl, refl)
write_plain fc (inr (inr (inr e))) = rw e (refl, refl, refl)

failure_table : all_below 256 (λ fc. ltb fc 128 || not (bit_and fc 0x80 == 0)) ≡ true
unfolding all_below
failure_table = refl

-- For a PDU of one of the response shapes, the reader takes exactly the frame that carries it off the
-- line, and leaves what follows the frame.
pub read_rtu_response-encode_rtu_frame :
    (unit : ℕ) (pdu more : Bytes) {frame : Bytes}
    → IsResponse pdu
    → encode_rtu_frame unit pdu ≡ ok frame
    → read_rtu_response (frame ++ more) ≡ ok (frame, more)
unfolding read_rtu_response index
read_rtu_response-encode_rtu_frame unit pdu more (values fc count body low high n) h =
    let (lo, hi, e) = rtu_bytes unit pdu h in
    let (p, r) = read_plain fc low high in
    let k : length (body ++ (lo ∷ hi ∷ [])) ≡ count + 2 =
      omega (arith, n, length-append body (lo ∷ hi ∷ [])) in
    rw e (
      rw
        (
          read_exactly-append 2 (unit ∷ fc ∷ []) (count ∷ ((body ++ (lo ∷ hi ∷ [])) ++ more)) refl,
          p,
          r,
          read_exactly-append 1 (count ∷ []) ((body ++ (lo ∷ hi ∷ [])) ++ more) refl,
          read_exactly-append (count + 2) (body ++ (lo ∷ hi ∷ [])) more k,
        )
        refl)
read_rtu_response-encode_rtu_frame unit pdu more (echo fc a b c d codes) h =
    let (lo, hi, e) = rtu_bytes unit pdu h in
    let (p, q, r) = write_plain fc codes in
    rw e (
      rw
        (
          read_exactly-append 2 (unit ∷ fc ∷ []) (a ∷ b ∷ c ∷ d ∷ lo ∷ hi ∷ more) refl,
          p,
          q,
          r,
          read_exactly-append 6 (a ∷ b ∷ c ∷ d ∷ lo ∷ hi ∷ []) more refl,
        )
        refl)
read_rtu_response-encode_rtu_frame unit pdu more (failure fc code low high) h =
    let (lo, hi, e) = rtu_bytes unit pdu h in
    let t : (bit_and fc 0x80 == 0) ≡ false =
      ground (arith, all_below_sound 256 _ failure_table fc high) in
    rw e (
      rw
        (
          read_exactly-append 2 (unit ∷ fc ∷ []) (code ∷ lo ∷ hi ∷ more) refl,
          t,
          read_exactly-append 3 (code ∷ lo ∷ hi ∷ []) more refl,
        )
        refl)
