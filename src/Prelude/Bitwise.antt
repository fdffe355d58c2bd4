-- ===== src/Prelude/Bitwise.antt =====
-- Laws of `bit_xor` and of masks at every width, from the recursion on the lowest digit.
use Prim.Native.Nat.{digits, differ, bitwise, bit_and-bitwise, bit_xor-bitwise}
use Prim.Native.Nat.{ℕ, zero, suc, ◌+◌, ◌*◌, ◌/◌, ◌%◌, ◌^◌, ◌≤◌, ◌<◌, min, bit_and, bit_xor}
use mathlib.Core.Path.{◌≡◌, ◌∙◌, refl, sym, ap, ap₂}
use native.Mathlib.Nat.{pow-suc}
use native.Mathlib.Decide.{dec_le}
use native.Mathlib.Omega.{arith}

-- A count of digits to go that is enough may be lowered to the least one.
module _ (z : ℕ → ℕ) (f : ℕ → ℕ → ℕ) where
  digits_spare : (n a b : ℕ) → a ≤ n → digits z f (suc n) a b ≡ digits z f n a b
  digits_spare n zero b h = elim n as (λ m. z b ≡ digits z f m zero b) [
    | zero ↦ refl
    | suc m ↦ refl
  ]
  digits_spare zero (suc a) b h = absurd (omega arith)
  digits_spare (suc n) (suc a) b h =
      ap (λ (t : ℕ). t * 2 + f (suc a % 2) (b % 2))
        (digits_spare n (suc a / 2) (b / 2) (omega arith))

  digits_least : (n a b : ℕ) → a ≤ n → digits z f n a b ≡ bitwise z f a b
  digits_least zero zero b h = refl
  digits_least zero (suc a) b h = absurd (omega arith)
  digits_least (suc n) a b h = elim (dec_le a n) [
    | yes fits ↦ digits_spare n a b fits ∙ digits_least n a b fits
    | no over ↦ ap (λ (m : ℕ). digits z f m a b) {x = suc n} (omega arith)
  ]

  bitwise_lowest :
      (m n : ℕ)
      → bitwise z f (suc m) n ≡ bitwise z f (suc m / 2) (n / 2) * 2 + f (suc m % 2) (n % 2)
  bitwise_lowest m n =
      ap (λ (t : ℕ). t * 2 + f (suc m % 2) (n % 2))
        (digits_least m (suc m / 2) (n / 2) (omega arith))

differ_digits : (x y : ℕ) → x < 2 → y < 2 → differ x y ≡ (x + y) % 2
differ_digits zero y hx hy = omega arith
differ_digits (suc zero) zero hx hy = refl
differ_digits (suc zero) (suc zero) hx hy = refl
differ_digits (suc x) (suc (suc y)) hx hy = absurd (omega arith)
differ_digits (suc (suc x)) y hx hy = absurd (omega arith)

pub zero-bit_xor : (b : ℕ) → bit_xor 0 b ≡ b
zero-bit_xor b = bit_xor-bitwise 0 b

pub bit_xor_lowest : (m n : ℕ) → bit_xor m n ≡ bit_xor (m / 2) (n / 2) * 2 + (m + n) % 2
bit_xor_lowest zero n = omega (arith, zero-bit_xor n, zero-bit_xor (n / 2))
bit_xor_lowest (suc m) n = omega (
  arith,
  bit_xor-bitwise (suc m) n,
  bit_xor-bitwise (suc m / 2) (n / 2),
  bitwise_lowest (λ c. c) differ m n,
  differ_digits (suc m % 2) (n % 2) (omega arith) (omega arith),
)

bit_and_lowest : (m n : ℕ) → bit_and m n ≡ bit_and (m / 2) (n / 2) * 2 + min (m % 2) (n % 2)
bit_and_lowest zero n = omega (arith, bit_and-bitwise 0 n, bit_and-bitwise 0 (n / 2))
bit_and_lowest (suc m) n = omega (
  arith,
  bit_and-bitwise (suc m) n,
  bit_and-bitwise (suc m / 2) (n / 2),
  bitwise_lowest (λ c. 0) min m n,
)

-- Below, `k` bounds the numbers, and the recursion halves them.
bit_and-zero_below : (k a : ℕ) → a ≤ k → bit_and a 0 ≡ 0
bit_and-zero_below k zero h = bit_and-bitwise 0 0
bit_and-zero_below zero (suc a) h = absurd (omega arith)
bit_and-zero_below (suc k) (suc a) h =
    omega (arith, bit_and_lowest (suc a) 0, bit_and-zero_below k (suc a / 2) (omega arith))

pub bit_and-one : (a : ℕ) → bit_and a 1 ≡ a % 2
bit_and-one a = omega (arith, bit_and_lowest a 1, bit_and-zero_below (a / 2) (a / 2) (omega arith))

mask3 : (a : ℕ) → bit_and a 7 ≡ a % 8
mask3 a = omega (arith, bit_and_lowest a 7, bit_and_lowest (a / 2) 3, bit_and-one (a / 2 / 2))

mask6 : (a : ℕ) → bit_and a 63 ≡ a % 64
mask6 a = omega (
  arith,
  bit_and_lowest a 63,
  bit_and_lowest (a / 2) 31,
  bit_and_lowest (a / 2 / 2) 15,
  mask3 (a / 2 / 2 / 2),
)

-- `a & 0xFF`
pub bit_and_byte : (a : ℕ) → bit_and a 0xFF ≡ a % 256
bit_and_byte a = omega (arith, bit_and_lowest a 255, bit_and_lowest (a / 2) 127, mask6 (a / 2 / 2))

mask10 : (a : ℕ) → bit_and a 1023 ≡ a % 1024
mask10 a =
    omega (arith, bit_and_lowest a 1023, bit_and_lowest (a / 2) 511, bit_and_byte (a / 2 / 2))

mask12 : (a : ℕ) → bit_and a 4095 ≡ a % 4096
mask12 a = omega (arith, bit_and_lowest a 4095, bit_and_lowest (a / 2) 2047, mask10 (a / 2 / 2))

mask14 : (a : ℕ) → bit_and a 16383 ≡ a % 16384
mask14 a = omega (arith, bit_and_lowest a 16383, bit_and_lowest (a / 2) 8191, mask12 (a / 2 / 2))

-- `a & 0xFFFF`
pub bit_and_word : (a : ℕ) → bit_and a 0xFFFF ≡ a % 65536
bit_and_word a =
    omega (arith, bit_and_lowest a 65535, bit_and_lowest (a / 2) 32767, mask14 (a / 2 / 2))

pub bit_xor_half : (a b : ℕ) → bit_xor a b / 2 ≡ bit_xor (a / 2) (b / 2)
bit_xor_half a b = omega (arith, bit_xor_lowest a b)

pub bit_xor_parity : (a b : ℕ) → bit_xor a b % 2 ≡ (a + b) % 2
bit_xor_parity a b = omega (arith, bit_xor_lowest a b)

xor_comm_below : (k a b : ℕ) → a ≤ k → b ≤ k → bit_xor a b ≡ bit_xor b a
xor_comm_below zero zero zero ha hb = refl
xor_comm_below zero (suc a) b ha hb = absurd (omega arith)
xor_comm_below zero zero (suc b) ha hb = absurd (omega arith)
xor_comm_below (suc k) a b ha hb = omega (
  arith,
  bit_xor_lowest a b,
  bit_xor_lowest b a,
  xor_comm_below k (a / 2) (b / 2) (omega arith) (omega arith),
)

pub bit_xor_comm : (a b : ℕ) → bit_xor a b ≡ bit_xor b a
bit_xor_comm a b = xor_comm_below (a + b) a b (omega arith) (omega arith)

pub bit_xor-zero : (a : ℕ) → bit_xor a 0 ≡ a
bit_xor-zero a = bit_xor_comm a 0 ∙ zero-bit_xor a

self_below : (k a : ℕ) → a ≤ k → bit_xor a a ≡ 0
self_below k zero h = zero-bit_xor 0
self_below zero (suc a) h = absurd (omega arith)
self_below (suc k) (suc a) h =
    omega (arith, bit_xor_lowest (suc a) (suc a), self_below k (suc a / 2) (omega arith))

pub bit_xor_self : (a : ℕ) → bit_xor a a ≡ 0
bit_xor_self a = self_below a a (omega arith)

assoc_below : (k a b c : ℕ) → a ≤ k → bit_xor (bit_xor a b) c ≡ bit_xor a (bit_xor b c)
assoc_below k zero b c h =
    ap (λ (t : ℕ). bit_xor t c) (zero-bit_xor b) ∙ sym (zero-bit_xor (bit_xor b c))
assoc_below zero (suc a) b c h = absurd (omega arith)
assoc_below (suc k) (suc a) b c h = omega (
  arith,
  bit_xor_lowest (bit_xor (suc a) b) c,
  bit_xor_lowest (suc a) (bit_xor b c),
  bit_xor_parity (suc a) b,
  bit_xor_parity b c,
  ap (λ (t : ℕ). bit_xor t (c / 2)) (bit_xor_half (suc a) b),
  ap (bit_xor (suc a / 2)) (bit_xor_half b c),
  assoc_below k (suc a / 2) (b / 2) (c / 2) (omega arith),
)

pub bit_xor_assoc : (a b c : ℕ) → bit_xor (bit_xor a b) c ≡ bit_xor a (bit_xor b c)
bit_xor_assoc a b c = assoc_below a a b c (omega arith)

-- Two numbers that fit `k` bits have an exclusive or that fits `k` bits.
pub bit_xor-lt : (k a b : ℕ) → a < 2 ^ k → b < 2 ^ k → bit_xor a b < 2 ^ k
bit_xor-lt zero zero b ha hb = omega (arith, zero-bit_xor b)
bit_xor-lt zero (suc a) b ha hb = absurd (omega arith)
bit_xor-lt (suc k) a b ha hb = omega (
  arith,
  pow-suc 2 k,
  bit_xor_lowest a b,
  bit_xor-lt k (a / 2) (b / 2) (omega (arith, pow-suc 2 k)) (omega (arith, pow-suc 2 k)),
)

double_high : (h k : ℕ) → h * 2 ^ suc k ≡ 2 * (h * 2 ^ k)
double_high h k = omega (arith, ap (λ (t : ℕ). h * t) (pow-suc 2 k))

pub halve_high : (h k : ℕ) → h * 2 ^ suc k / 2 ≡ h * 2 ^ k
halve_high h k = omega (arith, double_high h k)

pub high_parity : (a h k : ℕ) → (a + h * 2 ^ suc k) % 2 ≡ a % 2
high_parity a h k = omega (arith, double_high h k)

sixteen : (a : ℕ) → a / 2 / 2 / 2 / 2 ≡ a / 16
sixteen a = omega arith

byte_shift : (a : ℕ) → a / 16 / 16 ≡ a / 256
byte_shift a = omega arith

word_shift : (a : ℕ) → a / 256 / 16 / 2 / 2 / 2 ≡ a / 32768
word_shift a = omega arith

undo : (a c : ℕ) → bit_xor (bit_xor a c) c ≡ a
undo a c = bit_xor_assoc a c c ∙ ap (bit_xor a) (bit_xor_self c) ∙ bit_xor-zero a

-- Disjoint digits: the exclusive or is the sum.
pub bit_xor_disjoint : (k r h : ℕ) → r < 2 ^ k → bit_xor r (h * 2 ^ k) ≡ r + h * 2 ^ k
bit_xor_disjoint zero zero h hr = omega (arith, zero-bit_xor (h * 2 ^ 0))
bit_xor_disjoint zero (suc r) h hr = absurd (omega arith)
bit_xor_disjoint (suc k) r h hr = omega (
  arith,
  pow-suc 2 k,
  double_high h k,
  bit_xor_lowest r (h * 2 ^ suc k),
  ap (bit_xor (r / 2)) (halve_high h k),
  bit_xor_disjoint k (r / 2) h (omega (arith, pow-suc 2 k)),
)

xor_16 : (a b : ℕ) → bit_xor a b / 16 ≡ bit_xor (a / 16) (b / 16)
xor_16 a b =
    let h1 : bit_xor a b / 2 / 2 ≡ bit_xor (a / 2 / 2) (b / 2 / 2) =
      ap (λ (t : ℕ). t / 2) (bit_xor_half a b) ∙ bit_xor_half (a / 2) (b / 2) in
    let h2 : bit_xor a b / 2 / 2 / 2 / 2 ≡ bit_xor (a / 2 / 2 / 2 / 2) (b / 2 / 2 / 2 / 2) =
      ap (λ (t : ℕ). t / 2 / 2) h1
      ∙ ap (λ (t : ℕ). t / 2) (bit_xor_half (a / 2 / 2) (b / 2 / 2))
      ∙ bit_xor_half (a / 2 / 2 / 2) (b / 2 / 2 / 2) in
    omega (arith, h2, ap₂ bit_xor (sixteen a) (sixteen b))

pub bit_xor_high_byte : (a b : ℕ) → bit_xor a b / 256 ≡ bit_xor (a / 256) (b / 256)
bit_xor_high_byte a b =
    let h : bit_xor a b / 16 / 16 ≡ bit_xor (a / 16 / 16) (b / 16 / 16) =
      ap (λ (t : ℕ). t / 16) (xor_16 a b) ∙ xor_16 (a / 16) (b / 16) in
    omega (arith, h, ap₂ bit_xor (byte_shift a) (byte_shift b))

pub bit_xor_top_bit : (a b : ℕ) → bit_xor a b / 32768 ≡ bit_xor (a / 32768) (b / 32768)
bit_xor_top_bit a b =
    let h : bit_xor a b / 256 / 16 / 2 / 2 / 2
        ≡ bit_xor (a / 256 / 16 / 2 / 2 / 2) (b / 256 / 16 / 2 / 2 / 2) =
      ap (λ (t : ℕ). t / 16 / 2 / 2 / 2) (bit_xor_high_byte a b)
      ∙ ap (λ (t : ℕ). t / 2 / 2 / 2) (xor_16 (a / 256) (b / 256))
      ∙ ap (λ (t : ℕ). t / 2 / 2) (bit_xor_half (a / 256 / 16) (b / 256 / 16))
      ∙ ap (λ (t : ℕ). t / 2) (bit_xor_half (a / 256 / 16 / 2) (b / 256 / 16 / 2))
      ∙ bit_xor_half (a / 256 / 16 / 2 / 2) (b / 256 / 16 / 2 / 2) in
    omega (arith, h, ap₂ bit_xor (word_shift a) (word_shift b))

-- What is mixed in is taken out by mixing it in again.
pub bit_xor_cancel : (a b c : ℕ) → bit_xor a c ≡ bit_xor b c → a ≡ b
bit_xor_cancel a b c h = sym (undo a c) ∙ ap (λ (t : ℕ). bit_xor t c) h ∙ undo b c
