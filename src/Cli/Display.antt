-- ===== src/Cli/Display.antt =====
-- What `read` and `write` of src/pymod/cli.py print, and the exit code that goes with it. `print` is a
-- list of what is printed; a JSON line is its payload, an error is the exception's class.
use pymod.Prelude.{
  ℕ, suc, ◌+◌, ◌-◌, ◌*◌, ◌%◌, ◌^◌, Bool, true, false, Option, none, some, List, [], ◌∷◌, ◌++◌,
  if◌then◌else◌,
}
use pymod.Prelude.Int.{ℤ, pos, negsuc}
use pymod.Text.{Text, codes}
use pymod.Text.Ints.{str_int, hex}
use pymod.Errors.{Exc}
use pymod.Types.{
  ReadItem, holding, input, coils, discrete, RegisterDType, numeric, NumericDType, int, float,
  Value, number, boolean, ReadResult, WriteResult,
}

-- What one `print` writes.
pub data Printed (F : Type 0) : Type 0 where
  line : Text → Printed F
  error_line : Option Exc → Printed F
  json_values : List (Value F) → Printed F
  json_done : Printed F
  json_error : Option Exc → Printed F
  json_alive : Option Exc → Printed F
  alive : Option Exc → Printed F

-- A return of a subcommand: the exit code and what was printed before it.
pub record Exit (F : Type 0) : Type 0 where
  pub code : ℕ
  pub printed : List (Printed F)

-- The digits of the display; `value & (16 ** width - 1)` is the residue.
unfoldable pub hex_width : Option RegisterDType → ℕ
hex_width (some (numeric NumericDType.int64)) = 16
hex_width (some (numeric NumericDType.uint64)) = 16
hex_width (some (numeric NumericDType.int32)) = 8
hex_width (some (numeric NumericDType.uint32)) = 8
hex_width _ = 4

-- `value & mask`, for the mask `2 ** bits - 1`, in two's complement.
unfoldable pub masked : ℕ → ℤ → ℕ
masked bits (pos n) = n % 2 ^ bits
masked bits (negsuc n) = 2 ^ bits - suc (n % 2 ^ bits)

-- The dtype's `0x…` text of an integer.
unfoldable pub hex_text : Option RegisterDType → ℤ → Text
unfolding hex_width masked
hex_text dtype value = b'0' ∷ b'x' ∷ hex (hex_width dtype) (masked (hex_width dtype * 4) value)

abbrev pub true_text : Text
true_text = codes "True"

abbrev pub false_text : Text
false_text = codes "False"

-- `str` of a float is a parameter.
module _ {F : Type 0} (str_float : F → Text) where
  unfoldable pub format_value : ℕ → Value F → Option RegisterDType → Text
  unfolding hex_text true_text false_text
  format_value index (boolean b) dtype =
      codes "[" ++ (str_int (pos index) ++ (codes "]: " ++ (if b then true_text else false_text)))
  format_value index (number (int z)) dtype =
      codes "["
      ++ (str_int (pos index)
          ++ (codes "]: " ++ (hex_text dtype z ++ (codes " (" ++ (str_int z ++ codes ")")))))
  format_value index (number (float x)) dtype =
      codes "[" ++ (str_int (pos index) ++ (codes "]: " ++ str_float x))

  -- `getattr(result.item, "dtype", None)`
  unfoldable pub dtype_of : ReadItem → Option RegisterDType
  dtype_of (holding r) = some r.dtype
  dtype_of (input r) = some r.dtype
  dtype_of (coils start count) = none
  dtype_of (discrete start count) = none

  -- `for i, v in enumerate(values)`, from `i` on.
  unfoldable pub print_values : ℕ → List (Value F) → Option RegisterDType → List (Printed F)
  unfolding format_value
  print_values i [] dtype = []
  print_values i (v ∷ vs) dtype = line (format_value i v dtype) ∷ print_values (i + 1) vs dtype

  -- `_serialize`: `bool(v)`, `int(v)` and `float(v)` give a value of the class back.
  unfoldable pub serialize : List (Value F) → List (Value F)
  serialize [] = []
  serialize (boolean b ∷ rest) = boolean b ∷ serialize rest
  serialize (number (int z) ∷ rest) = number (int z) ∷ serialize rest
  serialize (number (float x) ∷ rest) = number (float x) ∷ serialize rest

  unfoldable pub emit_read_result : ReadResult F → Bool → Exit F
  unfolding print_values serialize dtype_of
  emit_read_result result true =
      if result.ok?
      then record { code = 0; printed = json_values (serialize result.values) ∷ [] }
      else record { code = 1; printed = json_error result.error ∷ [] }
  emit_read_result result false =
      if result.ok?
      then record { code = 0; printed = print_values 0 result.values (dtype_of result.item) }
      else record { code = 1; printed = error_line result.error ∷ [] }

module _ {F : Type 0} where
  unfoldable pub emit_write_result : WriteResult F → Bool → Exit F
  emit_write_result result true =
      if result.ok?
      then record { code = 0; printed = json_done ∷ [] }
      else record { code = 1; printed = json_error result.error ∷ [] }
  emit_write_result result false =
      if result.ok?
      then record { code = 0; printed = line (codes "ok") ∷ [] }
      else record { code = 1; printed = error_line result.error ∷ [] }

  unfoldable pub emit_failure : Bool → Exc → ℕ → Exit F
  emit_failure json_mode e exit_code = record {
    code = exit_code;
    printed = (if json_mode then json_error (some e) else error_line (some e)) ∷ [];
  }
