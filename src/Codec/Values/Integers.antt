-- ===== src/Codec/Values/Integers.antt =====
-- The integer dtypes: big-endian digits and two's complement.
use native.Mathlib.Nat.{pow-suc}
use pymod.Prelude.{
  ℕ, zero, suc, ◌+◌, ◌-◌, ◌*◌, ◌/◌, ◌%◌, ◌^◌, ◌<◌, ◌≡◌, ◌∙◌, refl, ap, Bool, true, false, [], ◌∷◌,
  ◌++◌, arith, length, length-append, All, All-append,
}
use pymod.Prelude.Int.{ℤ, pos, negsuc}
use pymod.Errors.{ok}
use pymod.Types.{NumericDType, int16, uint16, int32, uint32, int64, uint64, float32, float64}
use pymod.Bytes.{Bytes, IsByte}
use pymod.Codec.Values.{
  regs_per_item, is_signed, from_be, from_bytes, be_digits, to_bytes, encode_int,
}

from_be-append_last :
    (raw : Bytes) (acc b : ℕ) → from_be acc (raw ++ (b ∷ [])) ≡ from_be acc raw * 256 + b
unfolding from_be
from_be-append_last [] acc b = refl
from_be-append_last (a ∷ raw) acc b = from_be-append_last raw (acc * 256 + a) b

pub length-be_digits : (n v : ℕ) → length (be_digits n v) ≡ n
unfolding be_digits
length-be_digits zero v = refl
length-be_digits (suc n) v =
    length-append (be_digits n (v / 256)) (v % 256 ∷ [])
    ∙ omega (arith, length-be_digits n (v / 256))

pub be_digits-IsByte : (n v : ℕ) → All IsByte (be_digits n v)
unfolding be_digits
be_digits-IsByte zero v = tt
be_digits-IsByte (suc n) v =
    All-append IsByte (be_digits n (v / 256)) (v % 256 ∷ []) (be_digits-IsByte n (v / 256))
      (omega arith, tt)

pub from_be-be_digits : (n v : ℕ) → v < 256 ^ n → from_be 0 (be_digits n v) ≡ v
unfolding be_digits from_be
from_be-be_digits zero v h = omega arith
from_be-be_digits (suc n) v h =
    from_be-append_last (be_digits n (v / 256)) 0 (v % 256)
    ∙ omega (arith, from_be-be_digits n (v / 256) (omega (arith, pow-suc 256 n)))

abbrev pub IsInteger : NumericDType → Type 0
IsInteger float32 = ⊥
IsInteger float64 = ⊥
IsInteger _ = Unit

to_bytes_shape : (n : ℕ) (z : ℤ) → (length (to_bytes n z) ≡ n) × All IsByte (to_bytes n z)
unfolding to_bytes
to_bytes_shape n (pos v) = (length-be_digits n v, be_digits-IsByte n v)
to_bytes_shape n (negsuc v) = (length-be_digits n _, be_digits-IsByte n _)

unsigned_back : (n v : ℕ) → v < 256 ^ n → from_bytes false (to_bytes n (pos v)) ≡ pos v
unfolding from_bytes to_bytes
unsigned_back n v h = ap pos (from_be-be_digits n v h)

signed_pos : (n v : ℕ) → 2 * v < 256 ^ n → from_bytes true (to_bytes n (pos v)) ≡ pos v
unfolding from_bytes to_bytes
signed_pos n v h = rw (length-be_digits n v, from_be-be_digits n v (omega arith)) (ground arith)

signed_negsuc :
    (n v : ℕ)
    → 2 * v < 256 ^ n
    → 0 < n
    → 256 ^ n % 2 ≡ 0
    → from_bytes true (to_bytes n (negsuc v)) ≡ negsuc v
unfolding from_bytes to_bytes
signed_negsuc n v h hn even =
    rw (length-be_digits n (256 ^ n - 1 - v), from_be-be_digits n (256 ^ n - 1 - v) (omega arith))
      (ground arith)

abbrev pub Back : ℕ → Bytes → Bool → ℤ → Type 0
Back n raw signed z = (from_bytes signed raw ≡ z) × (length raw ≡ n) × All IsByte raw

module _ (n : ℕ) {raw : Bytes} where
  Back-unsigned : (v : ℕ) → to_bytes n (pos v) ≡ raw → v < 256 ^ n → Back n raw false (pos v)
  Back-unsigned v e h =
      let (l, b) = to_bytes_shape n (pos v) in rw (← e) (unsigned_back n v h, l, b)

  Back-pos : (v : ℕ) → to_bytes n (pos v) ≡ raw → 2 * v < 256 ^ n → Back n raw true (pos v)
  Back-pos v e h = let (l, b) = to_bytes_shape n (pos v) in rw (← e) (signed_pos n v h, l, b)

  Back-negsuc :
      (v : ℕ)
      → to_bytes n (negsuc v) ≡ raw
      → 2 * v < 256 ^ n
      → 256 ^ n % 2 ≡ 0
      → 0 < n
      → Back n raw true (negsuc v)
  Back-negsuc v e h even hn =
      let (l, b) = to_bytes_shape n (negsuc v) in rw (← e) (signed_negsuc n v h hn even, l, b)

-- Of an integer in the dtype's range `encode_int` returns as many bytes as the dtype has, and they
-- read back, signed or not as the dtype is, to the integer.
pub from_bytes-encode_int :
    (z : ℤ) (dtype : NumericDType) {raw : Bytes}
    → encode_int z dtype ≡ ok raw
    → (from_bytes (is_signed dtype) raw ≡ z)
      × (length raw ≡ 2 * regs_per_item dtype)
      × All IsByte raw
unfolding encode_int is_signed
from_bytes-encode_int (pos v) uint16 h = Back-unsigned 2 v (ground arith) (ground arith)
from_bytes-encode_int (negsuc v) uint16 h = absurd (ground arith)
from_bytes-encode_int (pos v) uint32 h = Back-unsigned 4 v (ground arith) (ground arith)
from_bytes-encode_int (negsuc v) uint32 h = absurd (ground arith)
from_bytes-encode_int (pos v) uint64 h = Back-unsigned 8 v (ground arith) (ground arith)
from_bytes-encode_int (negsuc v) uint64 h = absurd (ground arith)
from_bytes-encode_int (pos v) int16 h = Back-pos 2 v (ground arith) (ground arith)
from_bytes-encode_int (negsuc v) int16 h =
    Back-negsuc 2 v (ground arith) (ground arith) (omega arith) (omega arith)
from_bytes-encode_int (pos v) int32 h = Back-pos 4 v (ground arith) (ground arith)
from_bytes-encode_int (negsuc v) int32 h =
    Back-negsuc 4 v (ground arith) (ground arith) (omega arith) (omega arith)
from_bytes-encode_int (pos v) int64 h = Back-pos 8 v (ground arith) (ground arith)
from_bytes-encode_int (negsuc v) int64 h =
    Back-negsuc 8 v (ground arith) (ground arith) (omega arith) (omega arith)
from_bytes-encode_int z float32 h = absurd (ground arith)
from_bytes-encode_int z float64 h = absurd (ground arith)
