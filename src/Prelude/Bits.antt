-- ===== src/Prelude/Bits.antt =====
-- Facts about masks and shifts on one byte, each a table that is checked by evaluation.
use Prim.Native.Nat.{ℕ, zero, suc, ◌/◌, ◌^◌, ◌<◌, bit_and, bit_or}
use mathlib.Core.Path.{◌≡◌, refl}
use mathlib.Core.Bool.{Bool, true, false, ◌&&◌, ◌||◌, not}
use native.Mathlib.Omega.{arith}
use pymod.Prelude.Tests.{◌==◌, ==→eq}

unfoldable pub all_below : ℕ → (ℕ → Bool) → Bool
all_below zero p = true
all_below (suc n) p = p n && all_below n p

pub all_below_sound : (n : ℕ) (p : ℕ → Bool) → all_below n p ≡ true → (x : ℕ) → x < n → p x ≡ true
unfolding all_below
all_below_sound zero p h x lt = absurd (omega arith)
all_below_sound (suc n) p h x lt = ground (arith, all_below_sound n p (ground arith) x)

-- `bool((b >> k) & 1)`
abbrev pub test_bit : ℕ → ℕ → Bool
test_bit b k = not (bit_and (b / 2 ^ k) 1 == 0)

beq : Bool → Bool → Bool
beq true b = b
beq false true = false
beq false false = true

beq→eq : (a b : Bool) → beq a b ≡ true → a ≡ b
unfolding beq
beq→eq a b h = ground arith

set_table :
    all_below 256 (λ b.
      all_below 8
        (λ k. all_below 8 (λ m. beq (test_bit (bit_or b (2 ^ k)) m) ((k == m) || test_bit b m))))
    ≡ true
unfolding all_below beq
set_table = refl

-- Setting bit `k` of a byte changes that bit only.
pub test_bit-bit_or :
    (b k m : ℕ)
    → b < 256
    → k < 8
    → m < 8
    → test_bit (bit_or b (2 ^ k)) m ≡ ((k == m) || test_bit b m)
test_bit-bit_or b k m hb hk hm =
    beq→eq _ _
      (all_below_sound 8 _ (all_below_sound 8 _ (all_below_sound 256 _ set_table b hb) k hk) m hm)

byte_table : all_below 256 (λ b. all_below 8 (λ k. bit_or b (2 ^ k) / 256 == 0)) ≡ true
unfolding all_below
byte_table = refl

pub bit_or-lt : (b k : ℕ) → b < 256 → k < 8 → bit_or b (2 ^ k) < 256
bit_or-lt b k hb hk =
    omega (arith, ==→eq _ _ (all_below_sound 8 _ (all_below_sound 256 _ byte_table b hb) k hk))

zero_table : all_below 8 (λ m. beq (test_bit 0 m) false) ≡ true
unfolding all_below beq
zero_table = refl

pub test_bit-zero : (m : ℕ) → m < 8 → test_bit 0 m ≡ false
test_bit-zero m h = beq→eq _ _ (all_below_sound 8 _ zero_table m h)
