-- ===== src/Codec/Values.antt =====
-- src/pymod/codec/values.py: typed values as blocks of registers.
pub mod Integers
pub mod RoundTrip
use pymod.Prelude.{
  ℕ, zero, suc, ◌+◌, ◌-◌, ◌*◌, ◌/◌, ◌%◌, ◌^◌, ◌==◌, ltb, Bool, true, false, not, ◌||◌, ◌&&◌, Option,
  none, some, List, [], ◌∷◌, ◌++◌, length, take, drop, if◌then◌else◌,
}
use pymod.Prelude.Int.{ℤ, pos, negsuc, leb_ℤ}
use pymod.Errors.{Result, ok, err, value_error, python_error, ◌>>=◌, ◌>>◌, guard}
use pymod.Types.{
  ByteOrder, WordOrder, NumericDType, int16, uint16, int32, uint32, float32, int64, uint64, float64,
  Number, int, float,
}
use pymod.Bytes.{Bytes}
use pymod.Codec.Float.{FloatOps}
use pymod.Codec.Common.{registers_to_bytes, bytes_to_registers}

-- `_REGS_PER_ITEM`: every dtype of the type has an entry.
unfoldable pub regs_per_item : NumericDType → ℕ
regs_per_item uint16 = 1
regs_per_item int16 = 1
regs_per_item uint32 = 2
regs_per_item int32 = 2
regs_per_item float32 = 2
regs_per_item uint64 = 4
regs_per_item int64 = 4
regs_per_item float64 = 4

-- `_INT_RANGES`; the two float types have no entry.
unfoldable pub int_range : NumericDType → Option (ℤ × ℤ)
int_range uint16 = some (pos 0, pos 0xFFFF)
int_range int16 = some (negsuc 0x7FFF, pos 0x7FFF)
int_range uint32 = some (pos 0, pos 0xFFFF_FFFF)
int_range int32 = some (negsuc 0x7FFF_FFFF, pos 0x7FFF_FFFF)
int_range uint64 = some (pos 0, pos 0xFFFF_FFFF_FFFF_FFFF)
int_range int64 = some (negsuc 0x7FFF_FFFF_FFFF_FFFF, pos 0x7FFF_FFFF_FFFF_FFFF)
int_range float32 = none
int_range float64 = none

-- `dtype.startswith("int")`
unfoldable pub is_signed : NumericDType → Bool
is_signed int16 = true
is_signed int32 = true
is_signed int64 = true
is_signed _ = false

-- `int.from_bytes(raw, "big")`, with the number that the bytes before have given.
unfoldable pub from_be : ℕ → Bytes → ℕ
from_be acc [] = acc
from_be acc (b ∷ raw) = from_be (acc * 256 + b) raw

-- `int.from_bytes(raw, "big", signed=...)`: two's complement over `len(raw)` bytes.
unfoldable pub from_bytes : Bool → Bytes → ℤ
unfolding from_be
from_bytes false raw = pos (from_be 0 raw)
from_bytes true raw =
    let v = from_be 0 raw in
    if ltb (2 * v) (256 ^ length raw) then pos v else negsuc (256 ^ length raw - 1 - v)

-- The `n` lowest digits to the base 256, the highest first.
unfoldable pub be_digits : ℕ → ℕ → Bytes
be_digits zero v = []
be_digits (suc n) v = be_digits n (v / 256) ++ (v % 256 ∷ [])

-- `z.to_bytes(n, "big", signed=...)` of a value that is in range: its two's complement.
unfoldable pub to_bytes : ℕ → ℤ → Bytes
unfolding be_digits
to_bytes n (pos v) = be_digits n v
to_bytes n (negsuc v) = be_digits n (256 ^ n - 1 - v)

-- The windows of `rpi` registers, `range(0, len(registers), rpi)`; the length is fuel enough.
unfoldable pub windows : ℕ → ℕ → List ℕ → List (List ℕ)
windows zero rpi registers = []
windows (suc fuel) rpi [] = []
windows (suc fuel) rpi (r ∷ rest) = take rpi (r ∷ rest) ∷ windows fuel rpi (drop rpi (r ∷ rest))

-- `int(value)` of the integer types, in range, as bytes.
unfoldable pub encode_int : ℤ → NumericDType → Result Bytes
unfolding int_range regs_per_item
encode_int ivalue dtype = elim (int_range dtype) [
  | none ↦ err python_error
  | some (lo, hi) ↦ do
    guard (leb_ℤ lo ivalue && leb_ℤ ivalue hi) value_error
    ok (to_bytes (2 * regs_per_item dtype) ivalue)
]

module _ (ops : FloatOps) where
  open ops use {
    Float, of_int, to_int, is_integer, is_nan, is_inf, pack_f, pack_d, unpack_f, unpack_d,
  }

  unfoldable pub decode_one : Bytes → NumericDType → Result (Number Float)
  unfolding from_bytes
  decode_one raw uint16 = ok (int (from_bytes false raw))
  decode_one raw int16 = ok (int (from_bytes true raw))
  decode_one raw uint32 = ok (int (from_bytes false raw))
  decode_one raw int32 = ok (int (from_bytes true raw))
  decode_one raw float32 = do x ← unpack_f raw; ok (float x)
  decode_one raw uint64 = ok (int (from_bytes false raw))
  decode_one raw int64 = ok (int (from_bytes true raw))
  decode_one raw float64 = do x ← unpack_d raw; ok (float x)

  -- `float(value)`
  unfoldable pub to_float : Number Float → Result Float
  to_float (int z) = of_int z
  to_float (float x) = ok x

  -- The integer branch of `_encode_one`, up to `ivalue`.
  unfoldable pub to_integer : Number Float → Result ℤ
  to_integer (int z) = ok z
  to_integer (float x) = do
    guard (not (not (is_integer x) || (is_nan x || is_inf x))) value_error
    ok (to_int x)

  unfoldable pub encode_one : Number Float → NumericDType → Result Bytes
  unfolding to_float to_integer encode_int
  encode_one value float32 = do x ← to_float value; pack_f x
  encode_one value float64 = do x ← to_float value; pack_d x
  encode_one value dtype = do ivalue ← to_integer value; encode_int ivalue dtype

  -- The loop of `decode_registers` over the windows.
  unfoldable pub decode_windows :
      List (List ℕ) → NumericDType → WordOrder → ByteOrder → Result (List (Number Float))
  unfolding decode_one
  decode_windows [] dtype word_order byte_order = ok []
  decode_windows (window ∷ rest) dtype word_order byte_order = do
    raw ← registers_to_bytes window word_order byte_order
    value ← decode_one raw dtype
    values ← decode_windows rest dtype word_order byte_order
    ok (value ∷ values)

  unfoldable pub decode_registers :
      List ℕ → NumericDType → WordOrder → ByteOrder → Result (List (Number Float))
  unfolding decode_windows windows regs_per_item
  decode_registers registers dtype word_order byte_order = do
    guard (length registers % regs_per_item dtype == 0) value_error
    decode_windows (windows (length registers) (regs_per_item dtype) registers) dtype word_order
        byte_order

  unfoldable pub encode_registers :
      List (Number Float) → NumericDType → WordOrder → ByteOrder → Result (List ℕ)
  unfolding encode_one
  encode_registers [] dtype word_order byte_order = ok []
  encode_registers (v ∷ vs) dtype word_order byte_order = do
    raw ← encode_one v dtype
    regs ← bytes_to_registers raw word_order byte_order
    rest ← encode_registers vs dtype word_order byte_order
    ok (regs ++ rest)
