-- ===== src/Protocol/Pdu/Bitmap.antt =====
-- Packing a list of bits into bytes and reading it back.
use native.Mathlib.Nat.{add-zero, zero-add}
use native.Mathlib.Decide.{ℕ_discrete}
use pymod.Prelude.{◌≢◌, sym, Option, none}
use pymod.Prelude.{
  ℕ, zero, suc, ◌+◌, ◌*◌, ◌/◌, ◌%◌, ◌^◌, ◌≤◌, ◌<◌, ◌==◌, ◌≡◌, ◌∙◌, refl, ap, Bool, true, false,
  ◌&&◌, ◌||◌, List, [], ◌∷◌, ◌++◌, some, arith, length, get_elem?, get_or, set, replicate, All,
  bit_or, length-set, get_or-set_self, get_or-set_ne, get_elem?-eq-get_or, length-replicate,
  get_or-replicate, All-set, All-get_or, All-replicate,
}
use pymod.Prelude.Bits.{test_bit, test_bit-bit_or, bit_or-lt, test_bit-zero}
use pymod.Errors.{Result, ok, err, index_error, ◌>>=◌}
use pymod.Bytes.{Bytes, IsByte}
use pymod.Protocol.Pdu.{pack_loop, pack_bits, read_bit, read_bits}

-- Bit `j` of a string of bytes, the lowest bit of each byte first.
pub bit_of : Bytes → ℕ → Bool
bit_of buf j = test_bit (get_or buf (j / 8) 0) (j % 8)

-- Bit `j` of a list whose first bit stands at index `i`.
nth_from : List Bool → ℕ → ℕ → Bool
nth_from [] i j = false
nth_from (v ∷ vs) i j = nth_from vs (i + 1) j || (v && (i == j))

abbrev mark : Bytes → ℕ → Bytes
mark buf i = set buf (i / 8) (bit_or (get_or buf (i / 8) 0) (2 ^ (i % 8)))

-- Within one byte the indices differ as the bit numbers do.
same_byte : (i j : ℕ) → i / 8 ≡ j / 8 → (i % 8 == j % 8) ≡ (i == j)
same_byte i j h = ground arith

other_byte : (i j : ℕ) → i / 8 ≢ j / 8 → (i == j) ≡ false
other_byte i j h = ground (arith, ap {A = ℕ} {B = ℕ} (λ n. n / 8) {x = i} {y = j})

bit_of-mark :
    (buf : Bytes) (i j : ℕ)
    → All IsByte buf
    → i / 8 < length buf
    → bit_of (mark buf i) j ≡ ((i == j) || bit_of buf j)
unfolding bit_of
bit_of-mark buf i j hb h = elim (ℕ_discrete (i / 8) (j / 8)) [
  | yes q ↦
      rw
        (
          ← q,
          get_or-set_self buf (i / 8) _ 0 h,
          test_bit-bit_or _ (i % 8) (j % 8) (All-get_or IsByte buf (i / 8) 0 hb (omega arith))
              (omega arith) (omega arith),
          same_byte i j q,
        )
        refl
  | no n ↦ rw (get_or-set_ne buf (i / 8) (j / 8) _ 0 n, other_byte i j n) refl
]

mark-IsByte : (buf : Bytes) (i : ℕ) → All IsByte buf → All IsByte (mark buf i)
mark-IsByte buf i hb =
    All-set IsByte buf (i / 8) _ hb
      (bit_or-lt _ (i % 8) (All-get_or IsByte buf (i / 8) 0 hb (omega arith)) (omega arith))

length-mark : (buf : Bytes) (i : ℕ) → length (mark buf i) ≡ length buf
length-mark buf i = length-set buf (i / 8) _

or_shuffle : (a b c d : Bool) → d ≡ (b || c) → (a || d) ≡ ((a || b) || c)
or_shuffle a b c d h = ground arith

bit_of-pack_loop :
    (vs : List Bool) (i : ℕ) (buf : Bytes) (j : ℕ)
    → All IsByte buf
    → i + length vs ≤ 8 * length buf
    → bit_of (pack_loop vs i buf) j ≡ (nth_from vs i j || bit_of buf j)
unfolding pack_loop nth_from
bit_of-pack_loop [] i buf j hb h = refl
bit_of-pack_loop (true ∷ vs) i buf j hb h =
    bit_of-pack_loop vs (i + 1) (mark buf i) j (mark-IsByte buf i hb)
      (omega (arith, length-mark buf i))
    ∙ or_shuffle (nth_from vs (i + 1) j) (i == j) (bit_of buf j) _
        (bit_of-mark buf i j hb (omega arith))
bit_of-pack_loop (false ∷ vs) i buf j hb h =
    bit_of-pack_loop vs (i + 1) buf j hb (omega arith)
    ∙ or_shuffle (nth_from vs (i + 1) j) false (bit_of buf j) _ refl

pack_loop-IsByte :
    (vs : List Bool) (i : ℕ) (buf : Bytes) → All IsByte buf → All IsByte (pack_loop vs i buf)
unfolding pack_loop
pack_loop-IsByte [] i buf hb = hb
pack_loop-IsByte (true ∷ vs) i buf hb =
    pack_loop-IsByte vs (i + 1) (mark buf i) (mark-IsByte buf i hb)
pack_loop-IsByte (false ∷ vs) i buf hb = pack_loop-IsByte vs (i + 1) buf hb

length-pack_loop : (vs : List Bool) (i : ℕ) (buf : Bytes) → length (pack_loop vs i buf) ≡ length buf
unfolding pack_loop
length-pack_loop [] i buf = refl
length-pack_loop (true ∷ vs) i buf = length-pack_loop vs (i + 1) (mark buf i) ∙ length-mark buf i
length-pack_loop (false ∷ vs) i buf = length-pack_loop vs (i + 1) buf

nth_from-before : (vs : List Bool) (i j : ℕ) → j < i → nth_from vs i j ≡ false
unfolding nth_from
nth_from-before [] i j h = refl
nth_from-before (v ∷ vs) i j h = ground (arith, nth_from-before vs (i + 1) j (omega arith))

shift_index : (i k : ℕ) → i + suc k ≡ i + 1 + k
shift_index i k = omega arith

nth_from-get_or : (vs : List Bool) (i k : ℕ) → nth_from vs i (i + k) ≡ get_or vs k false
unfolding nth_from
nth_from-get_or [] i k = refl
nth_from-get_or (v ∷ vs) i zero = ground (arith, nth_from-before vs (i + 1) (i + 0) (omega arith))
nth_from-get_or (v ∷ vs) i (suc k) =
    ground (arith, nth_from-get_or vs (i + 1) k, ap (nth_from vs (i + 1)) (shift_index i k))

bit_of-replicate : (n j : ℕ) → bit_of (replicate n 0) j ≡ false
unfolding bit_of
bit_of-replicate n j =
    rw (get_or-replicate {A = ℕ} n (j / 8) 0) (test_bit-zero (j % 8) (omega arith))

pub length-pack_bits : (vs : List Bool) → length (pack_bits vs) ≡ (length vs + 7) / 8
unfolding pack_bits
length-pack_bits vs = length-pack_loop vs 0 _ ∙ length-replicate _ 0

pub pack_bits-IsByte : (vs : List Bool) → All IsByte (pack_bits vs)
unfolding pack_bits
pack_bits-IsByte vs = pack_loop-IsByte vs 0 _ (All-replicate IsByte _ 0 (omega arith))

-- Bit `k` of the packed bytes is element `k` of the list.
pub bit_of-pack_bits : (vs : List Bool) (k : ℕ) → bit_of (pack_bits vs) k ≡ get_or vs k false
unfolding pack_bits
bit_of-pack_bits vs k =
    bit_of-pack_loop vs 0 (replicate ((length vs + 7) / 8) 0) k
      (All-replicate IsByte _ 0 (omega arith))
      (omega (arith, length-replicate {A = ℕ} ((length vs + 7) / 8) 0))
    ∙ ground (
      arith,
      nth_from-get_or vs 0 k,
      ap (nth_from vs 0) (zero-add k),
      bit_of-replicate ((length vs + 7) / 8) k,
    )

get_elem?-append_right :
    (pre buf : Bytes) (k : ℕ) → get_elem? (pre ++ buf) (length pre + k) ≡ get_elem? buf k
get_elem?-append_right [] buf k = ap (get_elem? buf) (omega arith)
get_elem?-append_right (x ∷ pre) buf k =
    let e : suc (length pre) + k ≡ suc (length pre + k) = omega arith in
    rw e (get_elem?-append_right pre buf k)

abbrev byte_bit : Option ℕ → ℕ → Result Bool
byte_bit o j = do b ← elim o [ none ↦ err index_error | some b ↦ ok b ]; ok (test_bit b (j % 8))

read_bit-bit_of :
    (pre buf : Bytes) (j : ℕ)
    → j < 8 * length buf
    → read_bit (pre ++ buf) (length pre) j ≡ ok (bit_of buf j)
unfolding read_bit bit_of
read_bit-bit_of pre buf j h =
    ap (λ (o : Option ℕ). byte_bit o j)
      (get_elem?-append_right pre buf (j / 8) ∙ get_elem?-eq-get_or buf (j / 8) 0 (omega arith))

read_bits_from :
    (raw : Bytes) (offset : ℕ) (vs : List Bool) (i : ℕ)
    → ((k : ℕ) → k < length vs → read_bit raw offset (i + k) ≡ ok (get_or vs k false))
    → read_bits raw offset (length vs) i ≡ ok vs
unfolding read_bits
read_bits_from raw offset [] i h = refl
read_bits_from raw offset (v ∷ vs) i h = ground (
  arith,
  h 0,
  ap (read_bit raw offset) (add-zero i),
  read_bits_from raw offset vs (i + 1)
      (λ k hk. ap (read_bit raw offset) (sym (shift_index i k)) ∙ h (suc k) (omega arith)),
)

-- The bits that were packed behind any prefix are read back from its end.
pub read_bits-pack_bits :
    (pre : Bytes) (vs : List Bool)
    → read_bits (pre ++ pack_bits vs) (length pre) (length vs) 0 ≡ ok vs
read_bits-pack_bits pre vs = read_bits_from _ _ vs 0 λ k h.
    read_bit-bit_of pre (pack_bits vs) (0 + k) (omega (arith, length-pack_bits vs))
    ∙ ap ok (ap (bit_of (pack_bits vs)) (zero-add k) ∙ bit_of-pack_bits vs k)
