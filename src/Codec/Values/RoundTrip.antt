-- ===== src/Codec/Values/RoundTrip.antt =====
-- `decode_registers` after `encode_registers`, for lists of integers.
use pymod.Prelude.{
  ℕ, zero, suc, ◌*◌, ◌%◌, ◌≤◌, ◌<◌, ◌≡◌, ◌∙◌, refl, sym, ap, inl, inr, ◌⊎◌, List, [], ◌∷◌, ◌++◌,
  map, arith, length, length-append, take-append_left, drop-append_left,
}
use native.Mathlib.Nat.{mul-mod_left}
use pymod.Prelude.Int.{ℤ}
use pymod.Errors.{Exc, Result, ok, err, ◌>>=◌}
use pymod.Types.{ByteOrder, WordOrder, NumericDType, uint16, float32, float64, Number, int}
use pymod.Bytes.{Bytes}
use pymod.Codec.Float.{FloatOps}
use pymod.Codec.Common.{registers_to_bytes, bytes_to_registers}
use pymod.Codec.Common.Laws.{registers_to_bytes-bytes_to_registers}
use pymod.Codec.Values.{
  regs_per_item, is_signed, from_bytes, windows, encode_int, decode_one, encode_one, decode_windows,
  decode_registers, encode_registers,
}
use pymod.Codec.Values.Integers.{IsInteger, from_bytes-encode_int}

pub regs_per_item_pos : (dtype : NumericDType) → 0 < regs_per_item dtype
unfolding regs_per_item
regs_per_item_pos uint16 = omega arith
regs_per_item_pos _ = omega arith

windows_step :
    (fuel rpi : ℕ) (w rest : List ℕ)
    → length w ≡ rpi
    → 0 < rpi
    → windows (suc fuel) rpi (w ++ rest) ≡ w ∷ windows fuel rpi rest
unfolding windows
windows_step fuel rpi [] rest h p = absurd (omega arith)
windows_step fuel rpi (r ∷ w) rest h p =
    rw (take-append_left (r ∷ w) rest rpi (sym h), drop-append_left (r ∷ w) rest rpi (sym h)) refl

Result-cases {ℓ} : {A : Type ℓ} (r : Result A) → ((a : A) × (r ≡ ok a)) ⊎ ((e : Exc) × (r ≡ err e))
Result-cases (ok a) = inl (a, refl)
Result-cases (err e) = inr (e, refl)

module _ (ops : FloatOps) where
  open ops use {Float}

  decode_one_integer :
      (raw : Bytes) (dtype : NumericDType)
      → IsInteger dtype
      → decode_one ops raw dtype ≡ ok (int (from_bytes (is_signed dtype) raw))
  unfolding decode_one is_signed
  decode_one_integer raw uint16 i = refl
  decode_one_integer raw float32 i = absurd i
  decode_one_integer raw float64 i = absurd i
  decode_one_integer raw _ i = refl

  encode_one_integer :
      (z : ℤ) (dtype : NumericDType)
      → IsInteger dtype
      → encode_one ops (int z) dtype ≡ encode_int z dtype
  unfolding encode_one
  encode_one_integer z uint16 i = refl
  encode_one_integer z float32 i = absurd i
  encode_one_integer z float64 i = absurd i
  encode_one_integer z _ i = refl

  module _ (dtype : NumericDType) (i : IsInteger dtype) (wo : WordOrder) (bo : ByteOrder) where
    -- One value: its registers, and what they decode to.
    one_value :
        (z : ℤ) {regs : List ℕ}
        → (encode_one ops (int z) dtype >>= λ raw. bytes_to_registers raw wo bo) ≡ ok regs
        → (length regs ≡ regs_per_item dtype)
          × ((registers_to_bytes regs wo bo >>= λ raw. decode_one ops raw dtype) ≡ ok (int z))
    one_value z {regs} h = elim (Result-cases (encode_int z dtype)) [
      | inl (raw, e) ↦
          let (back, len, bytes) = from_bytes-encode_int z dtype e in
          let (regs', f, l, w, g) =
            registers_to_bytes-bytes_to_registers raw (regs_per_item dtype) wo bo len bytes in
          let same : regs' ≡ regs = ground (arith, f, e, encode_one_integer z dtype i) in
          rw (← same) (l, rw g (decode_one_integer raw dtype i ∙ ap (λ (t : ℤ). ok (int t)) back))
      | inr (x, e) ↦ absurd (ground (arith, e, encode_one_integer z dtype i))
    ]

    -- The parts of an encoding that succeeds.
    encode_parts :
        (z : ℤ) (zs : List ℤ) {regs : List ℕ}
        → encode_registers ops (map int (z ∷ zs)) dtype wo bo ≡ ok regs
        → (window rest : List ℕ) × (regs ≡ window ++ rest)
          × ((encode_one ops (int z) dtype >>= λ raw. bytes_to_registers raw wo bo) ≡ ok window)
          × (encode_registers ops (map int zs) dtype wo bo ≡ ok rest)
    unfolding encode_registers
    encode_parts z zs h = elim (Result-cases (encode_one ops (int z) dtype)) [
      | inr (x, e) ↦ absurd (ground (arith, e))
      | inl (raw, e) ↦ elim (Result-cases (bytes_to_registers raw wo bo)) [
        | inr (x, f) ↦ absurd (ground (arith, e, f))
        | inl (window, f) ↦ elim (Result-cases (encode_registers ops (map int zs) dtype wo bo)) [
          | inr (x, g) ↦ absurd (ground (arith, e, f, g))
          | inl (rest, g) ↦ (window, rest, ground (arith, e, f, g), rw e f, g)
        ]
      ]
    ]

    empty_encoding :
        {regs : List ℕ} → encode_registers ops (map int []) dtype wo bo ≡ ok regs → [] ≡ regs
    unfolding encode_registers
    empty_encoding h = ground arith

    no_windows :
        (fuel : ℕ) → decode_windows ops (windows fuel (regs_per_item dtype) []) dtype wo bo ≡ ok []
    unfolding decode_windows windows
    no_windows zero = refl
    no_windows (suc fuel) = refl

    decode_windows_step :
        (window : List ℕ) (ws : List (List ℕ)) {v : Number Float} {vs : List (Number Float)}
        → (registers_to_bytes window wo bo >>= λ raw. decode_one ops raw dtype) ≡ ok v
        → decode_windows ops ws dtype wo bo ≡ ok vs
        → decode_windows ops (window ∷ ws) dtype wo bo ≡ ok (v ∷ vs)
    unfolding decode_windows
    decode_windows_step window ws h k = elim (Result-cases (registers_to_bytes window wo bo)) [
      | inl (raw, e) ↦ ground (arith, e)
      | inr (x, e) ↦ absurd (ground (arith, e))
    ]

    values_back :
        (zs : List ℤ) (fuel : ℕ) {regs : List ℕ}
        → encode_registers ops (map int zs) dtype wo bo ≡ ok regs
        → length regs ≤ fuel
        → (decode_windows ops (windows fuel (regs_per_item dtype) regs) dtype wo bo
            ≡ ok (map int zs))
          × (length regs ≡ length zs * regs_per_item dtype)
    values_back [] fuel h hf = rw (← empty_encoding h) (no_windows fuel, omega arith)
    values_back (z ∷ zs) zero h hf =
        let (window, rest, e, one, more) = encode_parts z zs h in
        let (len, back) = one_value z one in
        absurd (
          omega (
            arith,
            len,
            regs_per_item_pos dtype,
            ap (λ (l : List ℕ). length l) e,
            length-append window rest,
          ))
    values_back (z ∷ zs) (suc fuel) h hf =
        let (window, rest, e, one, more) = encode_parts z zs h in
        let (len, back) = one_value z one in
        let shorter : length rest ≤ fuel = omega (
          arith,
          len,
          regs_per_item_pos dtype,
          ap (λ (l : List ℕ). length l) e,
          length-append window rest,
        ) in
        let (ih, total) = values_back zs fuel more shorter in
        rw e (
          rw (windows_step fuel (regs_per_item dtype) window rest len (regs_per_item_pos dtype))
              (decode_windows_step window (windows fuel (regs_per_item dtype) rest) back ih),
          omega (arith, len, total, length-append window rest),
        )

    -- Whatever list of integers `encode_registers` accepts for an integer dtype, in each of the four
    -- layouts, it becomes `regs_per_item` registers for each integer, and `decode_registers` returns
    -- the list.
    pub decode_registers-encode_registers :
        (zs : List ℤ) {regs : List ℕ}
        → encode_registers ops (map int zs) dtype wo bo ≡ ok regs
        → (decode_registers ops regs dtype wo bo ≡ ok (map int zs))
          × (length regs ≡ length zs * regs_per_item dtype)
    unfolding decode_registers
    decode_registers-encode_registers zs {regs} h =
        let (back, total) = values_back zs (length regs) h (omega arith) in
        let whole : length regs % regs_per_item dtype ≡ 0 =
          ap (λ (n : ℕ). n % regs_per_item dtype) total
          ∙ mul-mod_left (length zs) (regs_per_item dtype) in
        (ground (arith, whole, back), total)
