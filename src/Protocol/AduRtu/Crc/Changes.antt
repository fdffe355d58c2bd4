-- ===== src/Protocol/AduRtu/Crc/Changes.antt =====
-- The CRCs of byte strings that differ in one byte, for src/pymod/protocol/adu_rtu.py.
use pymod.Prelude.{
  ◌≢◌, ℕ, zero, suc, ◌/◌, ◌%◌, ◌<◌, ◌≡◌, ◌∙◌, sym, ap, inl, inr, [], ◌∷◌, arith, bit_xor, get_or,
  length, set, All,
}
use pymod.Prelude.Bitwise.{bit_xor-lt, bit_xor_top_bit, bit_xor_cancel, bit_xor_comm}
use pymod.Bytes.{Bytes, IsByte, IsWord}
use pymod.Protocol.AduRtu.{crc_round, crc_rounds, crc_step, crc_loop, crc16}
use pymod.Protocol.AduRtu.Crc.{parity, crc_round_even, crc_round_odd, crc_step-eq-rounds}

-- The top bit of a round's result tells the bit that was shifted out.
odd_top : (x : ℕ) → x < 65536 → x % 2 ≡ 1 → crc_round x / 32768 ≡ 1
odd_top x h o =
    ap (λ (t : ℕ). t / 32768) (crc_round_odd x o)
    ∙ bit_xor_top_bit (x / 2) 0xA001
    ∙ ap (λ (t : ℕ). bit_xor t 1) {x = x / 2 / 32768} {y = 0} (omega arith)

crc_round-lt : (x : ℕ) → x < 65536 → crc_round x < 65536
crc_round-lt x h = elim (parity x) [
  | inl e ↦ omega (arith, crc_round_even x e)
  | inr o ↦
      omega (arith, crc_round_odd x o, bit_xor-lt 16 (x / 2) 0xA001 (omega arith) (omega arith))
]

crc_round-injective : (x y : ℕ) → x < 65536 → y < 65536 → crc_round x ≡ crc_round y → x ≡ y
crc_round-injective x y hx hy h = elim (parity x) [
  | inl e ↦ elim (parity y) [
    | inl f ↦ omega (arith, crc_round_even x e, crc_round_even y f)
    | inr f ↦ absurd (omega (arith, crc_round_even x e, odd_top y hy f))
  ]
  | inr e ↦ elim (parity y) [
    | inl f ↦ absurd (omega (arith, crc_round_even y f, odd_top x hx e))
    | inr f ↦
        let s : x / 2 ≡ y / 2 =
          bit_xor_cancel (x / 2) (y / 2) 0xA001 (sym (crc_round_odd x e) ∙ h ∙ crc_round_odd y f) in
        omega arith
  ]
]

crc_rounds-injective : (n x y : ℕ) → x < 65536 → y < 65536 → crc_rounds n x ≡ crc_rounds n y → x ≡ y
unfolding crc_rounds
crc_rounds-injective zero x y hx hy h = h
crc_rounds-injective (suc n) x y hx hy h =
    crc_round-injective x y hx hy
      (crc_rounds-injective n (crc_round x) (crc_round y) (crc_round-lt x hx) (crc_round-lt y hy) h)

crc_rounds-lt : (n x : ℕ) → x < 65536 → crc_rounds n x < 65536
unfolding crc_rounds
crc_rounds-lt zero x h = h
crc_rounds-lt (suc n) x h = crc_rounds-lt n (crc_round x) (crc_round-lt x h)

mixed-lt : (c b : ℕ) → c < 65536 → b < 256 → bit_xor c b < 65536
mixed-lt c b hc hb = bit_xor-lt 16 c b (omega arith) (omega arith)

crc_step-lt : (c b : ℕ) → c < 65536 → b < 256 → crc_step c b < 65536
crc_step-lt c b hc hb =
    omega (arith, crc_step-eq-rounds c b hb, crc_rounds-lt 8 (bit_xor c b) (mixed-lt c b hc hb))

crc_loop-lt : (raw : Bytes) (c : ℕ) → c < 65536 → All IsByte raw → crc_loop c raw < 65536
unfolding crc_loop
crc_loop-lt [] c hc h = hc
crc_loop-lt (b ∷ raw) c hc h = crc_loop-lt raw (crc_step c b) (crc_step-lt c b hc h.0) h.1

-- The CRC of a string of bytes is a 16-bit integer.
pub crc16-IsWord : (raw : Bytes) → All IsByte raw → IsWord (crc16 raw)
unfolding crc16
crc16-IsWord raw h = crc_loop-lt raw 0xFFFF (omega arith) h

crc_step_mixed :
    (c d a b : ℕ)
    → c < 65536
    → d < 65536
    → a < 256
    → b < 256
    → crc_step c a ≡ crc_step d b
    → bit_xor c a ≡ bit_xor d b
crc_step_mixed c d a b hc hd ha hb h =
    crc_rounds-injective 8 (bit_xor c a) (bit_xor d b) (mixed-lt c a hc ha) (mixed-lt d b hd hb)
      (sym (crc_step-eq-rounds c a ha) ∙ h ∙ crc_step-eq-rounds d b hb)

crc_loop-injective :
    (raw : Bytes) (c d : ℕ)
    → c < 65536
    → d < 65536
    → All IsByte raw
    → crc_loop c raw ≡ crc_loop d raw
    → c ≡ d
unfolding crc_loop
crc_loop-injective [] c d hc hd hb h = h
crc_loop-injective (b ∷ raw) c d hc hd hb h = bit_xor_cancel c d b (
    crc_step_mixed c d b b hc hd hb.0 hb.0 (
      crc_loop-injective raw (crc_step c b) (crc_step d b) (crc_step-lt c b hc hb.0)
        (crc_step-lt d b hd hb.0) hb.1 h))

crc_loop-set :
    (raw : Bytes) (c i b : ℕ)
    → c < 65536
    → All IsByte raw
    → b < 256
    → i < length raw
    → crc_loop c (set raw i b) ≡ crc_loop c raw
    → b ≡ get_or raw i 0
unfolding crc_loop
crc_loop-set [] c i b hc hr hb hi h = absurd (omega arith)
crc_loop-set (a ∷ raw) c zero b hc hr hb hi h = bit_xor_cancel b a c (
    bit_xor_comm b c
    ∙ crc_step_mixed c c b a hc hc hb hr.0 (
        crc_loop-injective raw (crc_step c b) (crc_step c a) (crc_step-lt c b hc hb)
          (crc_step-lt c a hc hr.0) hr.1 h)
    ∙ bit_xor_comm c a)
crc_loop-set (a ∷ raw) c (suc i) b hc hr hb hi h =
    crc_loop-set raw (crc_step c a) i b (crc_step-lt c a hc hr.0) hr.1 hb (omega arith) h

-- Two strings of bytes that differ in one byte have different CRCs.
pub crc16-set :
    (raw : Bytes) (i b : ℕ)
    → All IsByte raw
    → b < 256
    → i < length raw
    → b ≢ get_or raw i 0
    → crc16 (set raw i b) ≢ crc16 raw
unfolding crc16
crc16-set raw i b hr hb hi ne = λ e. ne (crc_loop-set raw 0xFFFF i b (omega arith) hr hb hi e)
