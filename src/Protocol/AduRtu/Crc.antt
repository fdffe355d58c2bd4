-- ===== src/Protocol/AduRtu/Crc.antt =====
-- The CRC of src/pymod/protocol/adu_rtu.py: the table-driven step and the bit-at-a-time definition.
pub mod Changes
use pymod.Prelude.{
  ◌⊎◌, ℕ, zero, suc, ◌+◌, ◌*◌, ◌/◌, ◌%◌, ◌^◌, ◌<◌, ◌≡◌, ◌∙◌, sym, refl, ap, inl, inr, [], ◌∷◌,
  arith, bit_xor, ◌==◌, if◌then◌else◌, get_or, All,
}
use pymod.Prelude.Bitwise.{
  bit_and-one, bit_and_byte, bit_xor_half, bit_xor_parity, bit_xor_comm, bit_xor_assoc,
  bit_xor-zero, bit_xor_disjoint, bit_xor_high_byte, halve_high, high_parity,
}
use pymod.Bytes.{Bytes, IsByte}
use pymod.Protocol.AduRtu.{
  crc_round, crc_rounds, table_from, crc16_table, crc_step, crc_loop, crc16,
}

-- One step of the CRC of the Modbus serial line: shift right, and take away the polynomial A001 when the
-- bit that falls out is 1.
abbrev pub shift : ℕ → ℕ
shift crc = if crc % 2 == 0 then crc / 2 else bit_xor (crc / 2) 0xA001

-- The CRC one bit at a time: mix the byte in, then eight steps.
abbrev pub bitwise_loop : ℕ → Bytes → ℕ
bitwise_loop crc [] = crc
bitwise_loop crc (byte ∷ rest) =
    bitwise_loop (shift (shift (shift (shift (shift (shift (shift (shift (bit_xor crc byte)))))))))
      rest

pub crc_round_even : (x : ℕ) → x % 2 ≡ 0 → crc_round x ≡ x / 2
unfolding crc_round
crc_round_even x h = ground (arith, bit_and-one x)

pub crc_round_odd : (x : ℕ) → x % 2 ≡ 1 → crc_round x ≡ bit_xor (x / 2) 0xA001
unfolding crc_round
crc_round_odd x h = ground (arith, bit_and-one x)

crc_round-shift : (x : ℕ) → crc_round x ≡ shift x
unfolding crc_round
crc_round-shift x = ground (arith, bit_and-one x)

crc_rounds-shift :
    (x : ℕ) → crc_rounds 8 x ≡ shift (shift (shift (shift (shift (shift (shift (shift x)))))))
unfolding crc_rounds
crc_rounds-shift x = shifted 8 x
  where
    shifts : ℕ → ℕ → ℕ
    shifts zero y = y
    shifts (suc n) y = shifts n (shift y)

    shifted : (n y : ℕ) → crc_rounds n y ≡ shifts n y
    shifted zero y = refl
    shifted (suc n) y = ap (crc_rounds n) (crc_round-shift y) ∙ shifted n (shift y)

pub parity : (x : ℕ) → (x % 2 ≡ 0) ⊎ (x % 2 ≡ 1)
parity x = omega arith

xor_swap : (a b c : ℕ) → bit_xor (bit_xor a b) c ≡ bit_xor (bit_xor a c) b
xor_swap a b c = bit_xor_assoc a b c ∙ ap (bit_xor a) (bit_xor_comm b c) ∙ sym (bit_xor_assoc a c b)

half_mixed : (a h n : ℕ) → bit_xor a (h * 2 ^ suc n) / 2 ≡ bit_xor (a / 2) (h * 2 ^ n)
half_mixed a h n = bit_xor_half a (h * 2 ^ suc n) ∙ ap (bit_xor (a / 2)) (halve_high h n)

crc_round_high :
    (a h n : ℕ) → crc_round (bit_xor a (h * 2 ^ suc n)) ≡ bit_xor (crc_round a) (h * 2 ^ n)
crc_round_high a h n =
    let p : bit_xor a (h * 2 ^ suc n) % 2 ≡ a % 2 =
      bit_xor_parity a (h * 2 ^ suc n) ∙ high_parity a h n in
    elim (parity a) [
      | inl e ↦
          crc_round_even (bit_xor a (h * 2 ^ suc n)) (p ∙ e)
          ∙ half_mixed a h n
          ∙ ap (λ (t : ℕ). bit_xor t (h * 2 ^ n)) (sym (crc_round_even a e))
      | inr o ↦
          crc_round_odd (bit_xor a (h * 2 ^ suc n)) (p ∙ o)
          ∙ ap (λ (t : ℕ). bit_xor t 0xA001) (half_mixed a h n)
          ∙ xor_swap (a / 2) (h * 2 ^ n) 0xA001
          ∙ ap (λ (t : ℕ). bit_xor t (h * 2 ^ n)) (sym (crc_round_odd a o))
    ]

-- Digits above the `n` lowest pass through `n` rounds unchanged.
crc_rounds_high : (n a h : ℕ) → crc_rounds n (bit_xor a (h * 2 ^ n)) ≡ bit_xor (crc_rounds n a) h
unfolding crc_rounds
crc_rounds_high zero a h = ap (bit_xor a) (omega arith)
crc_rounds_high (suc n) a h =
    ap (crc_rounds n) (crc_round_high a h n) ∙ crc_rounds_high n (crc_round a) h

crc_rounds_split : (x : ℕ) → crc_rounds 8 x ≡ bit_xor (crc_rounds 8 (x % 256)) (x / 256)
crc_rounds_split x =
    ap (crc_rounds 8) (sym (bit_xor_disjoint 8 (x % 256) (x / 256) (omega arith) ∙ omega arith))
    ∙ crc_rounds_high 8 (x % 256) (x / 256)

table_from-get_or :
    (left byte i : ℕ) → i < left → get_or (table_from left byte) i 0 ≡ crc_rounds 8 (byte + i)
unfolding table_from
table_from-get_or zero byte i h = absurd (omega arith)
table_from-get_or (suc left) byte zero h = ap (crc_rounds 8) (omega arith)
table_from-get_or (suc left) byte (suc i) h =
    table_from-get_or left (byte + 1) i (omega arith) ∙ ap (crc_rounds 8) (omega arith)

table_entry : (i : ℕ) → i < 256 → get_or crc16_table i 0 ≡ crc_rounds 8 i
unfolding crc16_table
table_entry i h = table_from-get_or 256 0 i h ∙ ap (crc_rounds 8) (omega arith)

-- One table lookup does eight rounds.
pub crc_step-eq-rounds :
    (crc byte : ℕ) → byte < 256 → crc_step crc byte ≡ crc_rounds 8 (bit_xor crc byte)
unfolding crc_step
crc_step-eq-rounds crc byte h =
    ap (bit_xor (crc / 256)) (
      ap (λ (i : ℕ). get_or crc16_table i 0) (bit_and_byte (bit_xor crc byte))
      ∙ table_entry (bit_xor crc byte % 256) (omega arith))
    ∙ bit_xor_comm (crc / 256) (crc_rounds 8 (bit_xor crc byte % 256))
    ∙ ap (bit_xor (crc_rounds 8 (bit_xor crc byte % 256))) (sym high)
    ∙ sym (crc_rounds_split (bit_xor crc byte))
  where
    high : bit_xor crc byte / 256 ≡ crc / 256
    high =
        bit_xor_high_byte crc byte
        ∙ ap (bit_xor (crc / 256)) {x = byte / 256} {y = 0} (omega arith)
        ∙ bit_xor-zero (crc / 256)

crc_loop-bitwise_loop :
    (raw : Bytes) (crc : ℕ) → All IsByte raw → crc_loop crc raw ≡ bitwise_loop crc raw
unfolding crc_loop
crc_loop-bitwise_loop [] crc h = refl
crc_loop-bitwise_loop (b ∷ raw) crc h =
    crc_loop-bitwise_loop raw (crc_step crc b) h.1
    ∙ ap (λ (c : ℕ). bitwise_loop c raw)
        (crc_step-eq-rounds crc b h.0 ∙ crc_rounds-shift (bit_xor crc b))

-- On every string of bytes the table-driven CRC is the CRC of the Modbus serial line, from FFFF on with the
-- polynomial A001, computed one bit at a time.
pub crc16-eq-bitwise : (raw : Bytes) → All IsByte raw → crc16 raw ≡ bitwise_loop 0xFFFF raw
unfolding crc16
crc16-eq-bitwise raw h = crc_loop-bitwise_loop raw 0xFFFF h
