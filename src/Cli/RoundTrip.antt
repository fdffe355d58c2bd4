-- ===== src/Cli/RoundTrip.antt =====
-- Printed numbers and the command line: what `write` reads of them, and what `read` displays.
use pymod.Prelude.{
  ℕ, zero, suc, ◌+◌, ◌-◌, ◌*◌, ◌%◌, ◌^◌, ◌/◌, ◌≤◌, ◌<◌, ◌≡◌, ◌≢◌, refl, arith, true, Option, none,
  some, List, [], ◌∷◌, map, length, length-append, length-replicate, replicate, All, Bool-cases,
  inl, inr, ltb, lt→ltb,
}
use native.Mathlib.Nat.{pow-suc}
use pymod.Prelude.Int.{ℤ, pos, negsuc, pos_part, neg_part}
use pymod.Errors.{Result, ok}
use pymod.Types.{RegisterDType, NumericDType, write_holding, int}
use pymod.Text.{Text, join}
use pymod.Text.Ints.{int_auto, str_int, hex, digits, render, digit_char}
use pymod.Text.Split.{Without, split-join}
use pymod.Text.Laws.{
  strip_id, str_int-NoSpace, str_int-Without_comma, int_auto-str_int, int_auto-hex, str_int-filled,
}
use pymod.Cli.{done, WriteArgs, WriteArea}
use pymod.Cli.Items.{
  collect, is_filled, strip_filled, parse_number, write_item_of, build_write_item,
}
use pymod.Cli.Display.{hex_width, masked, hex_text}

printed-Without_comma : (zs : List ℤ) → All (Without b',') (map str_int zs)
printed-Without_comma [] = tt
printed-Without_comma (z ∷ zs) = (str_int-Without_comma z, printed-Without_comma zs)

str_int-is_filled : (z : ℤ) → is_filled (str_int z) ≡ true
str_int-is_filled z = let (c, rest, e) = str_int-filled z in rw e refl

strip_filled-printed : (zs : List ℤ) → strip_filled (map str_int zs) ≡ map str_int zs
unfolding strip_filled
strip_filled-printed [] = refl
strip_filled-printed (z ∷ zs) =
    rw
      (
        strip_filled,
        strip_id (str_int z) (str_int-NoSpace z),
        str_int-is_filled z,
        strip_filled-printed zs,
      )
      refl

module _ {F : Type 0} (to_float : Text → Result F) where
  parse_number-str_int :
      (dtype : NumericDType) (z : ℤ)
      → dtype ≢ NumericDType.float32
      → parse_number to_float dtype (str_int z) ≡ ok (int z)
  unfolding parse_number
  parse_number-str_int NumericDType.float32 z h = absurd (h refl)
  parse_number-str_int NumericDType.int16 z h = rw (parse_number, int_auto-str_int z) refl
  parse_number-str_int NumericDType.uint16 z h = rw (parse_number, int_auto-str_int z) refl
  parse_number-str_int NumericDType.int32 z h = rw (parse_number, int_auto-str_int z) refl
  parse_number-str_int NumericDType.uint32 z h = rw (parse_number, int_auto-str_int z) refl
  parse_number-str_int NumericDType.int64 z h = rw (parse_number, int_auto-str_int z) refl
  parse_number-str_int NumericDType.uint64 z h = rw (parse_number, int_auto-str_int z) refl
  parse_number-str_int NumericDType.float64 z h = rw (parse_number, int_auto-str_int z) refl

  collect-printed :
      (dtype : NumericDType) (zs : List ℤ)
      → dtype ≢ NumericDType.float32
      → collect (parse_number to_float dtype) (map str_int zs) ≡ ok (map int zs)
  collect-printed dtype [] h = refl
  collect-printed dtype (z ∷ zs) h =
      rw (collect, parse_number-str_int dtype z h, collect-printed dtype zs h) refl

  -- For a write to holding registers whose `--values` are integers, one or more, as Python prints
  -- them, joined by commas, with any dtype but float32: the item has exactly these integers, in order,
  -- and the start and the layout of the arguments.
  pub build_write_item-str_int :
      (args : WriteArgs F) (z : ℤ) (zs : List ℤ)
      → args.area ≡ WriteArea.holding
      → args.dtype ≢ NumericDType.float32
      → args.values ≡ join (b',' ∷ []) (map str_int (z ∷ zs))
      → build_write_item to_float args
        ≡ done
            (write_holding args.start (map int (z ∷ zs)) args.dtype args.word_order args.byte_order)
  unfolding build_write_item write_item_of
  build_write_item-str_int args z zs ha hd hv =
      rw
        (
          hv,
          split-join b',' (str_int z) (map str_int zs) (printed-Without_comma (z ∷ zs)),
          strip_filled-printed (z ∷ zs),
          ha,
          collect-printed args.dtype (z ∷ zs) hd,
        )
        refl

length-render :
    (k fuel n : ℕ) (out : Text)
    → n < 16 ^ suc k
    → length (render 16 fuel n out) ≤ length out + suc k
unfolding render
length-render k zero n out h = omega arith
length-render zero (suc fuel) n out h = rw (render, lt→ltb n 16 (omega arith)) (omega arith)
length-render (suc k) (suc fuel) n out h = elim (Bool-cases (ltb n 16)) [
  | inl y ↦ rw (render, y) (omega arith)
  | inr r ↦
      rw (render, r)
        (omega (
          arith,
          length-render k fuel (n / 16) (digit_char (n % 16) ∷ out)
              (omega (arith, pow-suc 16 (suc k))),
        ))
]

length-hex : (k n : ℕ) → n < 16 ^ suc k → length (hex (suc k) n) ≡ suc k
unfolding hex digits
length-hex k n h = omega (
  arith,
  length-append (replicate (suc k - length (digits 16 n)) b'0') (digits 16 n),
  length-replicate {A = ℕ} (suc k - length (digits 16 n)) b'0',
  length-render k (suc n) n [] h,
)

-- A number is the residue of an integer modulo a power of two.
abbrev pub IsResidue : ℕ → ℤ → ℕ → Type 0
IsResidue bits z m = (m < 2 ^ bits) × ((m + neg_part z) % 2 ^ bits ≡ pos_part z % 2 ^ bits)

masked_16 : (z : ℤ) → IsResidue 16 z (masked 16 z)
unfolding masked
masked_16 (pos n) = (omega arith, omega arith)
masked_16 (negsuc n) = (omega arith, omega arith)

masked_32 : (z : ℤ) → IsResidue 32 z (masked 32 z)
unfolding masked
masked_32 (pos n) = (omega arith, omega arith)
masked_32 (negsuc n) = (omega arith, omega arith)

masked_64 : (z : ℤ) → IsResidue 64 z (masked 64 z)
unfolding masked
masked_64 (pos n) = (omega arith, omega arith)
masked_64 (negsuc n) = (omega arith, omega arith)

masked-IsResidue :
    (dtype : Option RegisterDType) (z : ℤ)
    → IsResidue (hex_width dtype * 4) z (masked (hex_width dtype * 4) z)
unfolding hex_width
masked-IsResidue none z = masked_16 z
masked-IsResidue (some RegisterDType.bit) z = masked_16 z
masked-IsResidue (some RegisterDType.bits) z = masked_16 z
masked-IsResidue (some (RegisterDType.numeric NumericDType.int16)) z = masked_16 z
masked-IsResidue (some (RegisterDType.numeric NumericDType.uint16)) z = masked_16 z
masked-IsResidue (some (RegisterDType.numeric NumericDType.float32)) z = masked_16 z
masked-IsResidue (some (RegisterDType.numeric NumericDType.float64)) z = masked_16 z
masked-IsResidue (some (RegisterDType.numeric NumericDType.int32)) z = masked_32 z
masked-IsResidue (some (RegisterDType.numeric NumericDType.uint32)) z = masked_32 z
masked-IsResidue (some (RegisterDType.numeric NumericDType.int64)) z = masked_64 z
masked-IsResidue (some (RegisterDType.numeric NumericDType.uint64)) z = masked_64 z

length-hex_width :
    (dtype : Option RegisterDType) (n : ℕ)
    → n < 2 ^ (hex_width dtype * 4)
    → length (hex (hex_width dtype) n) ≡ hex_width dtype
unfolding hex_width
length-hex_width none n h = length-hex 3 n h
length-hex_width (some RegisterDType.bit) n h = length-hex 3 n h
length-hex_width (some RegisterDType.bits) n h = length-hex 3 n h
length-hex_width (some (RegisterDType.numeric NumericDType.int16)) n h = length-hex 3 n h
length-hex_width (some (RegisterDType.numeric NumericDType.uint16)) n h = length-hex 3 n h
length-hex_width (some (RegisterDType.numeric NumericDType.float32)) n h = length-hex 3 n h
length-hex_width (some (RegisterDType.numeric NumericDType.float64)) n h = length-hex 3 n h
length-hex_width (some (RegisterDType.numeric NumericDType.int32)) n h = length-hex 7 n h
length-hex_width (some (RegisterDType.numeric NumericDType.uint32)) n h = length-hex 7 n h
length-hex_width (some (RegisterDType.numeric NumericDType.int64)) n h = length-hex 15 n h
length-hex_width (some (RegisterDType.numeric NumericDType.uint64)) n h = length-hex 15 n h

-- The hexadecimal text that `read` displays for an integer, whatever its sign, has four digits for
-- each 16 bits of the dtype's display, and the parser of `write` reads it as the integer's residue
-- modulo two to the power of these bits.
pub int_auto-hex_text :
    (dtype : Option RegisterDType) (z : ℤ)
    → (m : ℕ) × (int_auto (hex_text dtype z) ≡ ok (pos m))
      × IsResidue (hex_width dtype * 4) z m
      × (length (hex_text dtype z) ≡ 2 + hex_width dtype)
unfolding hex_text
int_auto-hex_text dtype z =
    let fits = masked-IsResidue dtype z in
    (
      masked (hex_width dtype * 4) z,
      int_auto-hex (hex_width dtype) (masked (hex_width dtype * 4) z),
      fits,
      omega (arith, length-hex_width dtype (masked (hex_width dtype * 4) z) fits.0),
    )
