-- ===== src/Cli/Items.antt =====
-- The items that `read` and `write` of src/pymod/cli.py build from their arguments.
use pymod.Prelude.{ℕ, ◌*◌, Bool, true, false, Option, none, some, List, [], ◌∷◌, map, if◌then◌else◌}
use pymod.Prelude.Int.{ℤ, pos, negsuc}
use pymod.Text.{Text, codes, strip, split, lower, is_one_of}
use pymod.Text.Ints.{int_auto}
use pymod.Errors.{Result, ok, err}
use pymod.Types.{
  Area, ReadItem, holding, input, coils, discrete, RegisterDType, RegisterItem, WriteItem,
  write_holding, write_coils, NumericDType, Number, int, float,
}
use pymod.Cli.{Cli, done, system_exit, ◌>>=◌, or_exit, ReadArgs, WriteArgs, WriteArea}

-- `f(s) for s in texts`, up to the first exception.
abbrev pub collect {ℓ} : {A : Type ℓ} → (Text → Result A) → List Text → Result (List A)
collect f [] = ok []
collect f (s ∷ rest) = elim (f s) [
  | err e ↦ err e
  | ok a ↦ elim (collect f rest) [ err e ↦ err e | ok vs ↦ ok (a ∷ vs) ]
]

-- `_resolve_pos` refuses a negative index as it does the first index beyond the block, which stands
-- for it here.
unfoldable pub to_index : ℕ → ℤ → ℕ
to_index count (pos n) = n
to_index count (negsuc n) = count * 16

-- `not args.bit_indices`
unfoldable pub parse_bit_indices : ℕ → Option Text → Cli (List ℕ)
unfolding to_index
parse_bit_indices count none = system_exit
parse_bit_indices count (some []) = system_exit
parse_bit_indices count (some (c ∷ s)) = do
  indices ← or_exit (collect (λ piece. int_auto (strip piece)) (split b',' (c ∷ s)))
  done (map (to_index count) indices)

module _ {F : Type 0} where
  unfoldable pub register_item : ReadArgs F → Option ℕ → Option (List ℕ) → RegisterItem
  register_item args index indices = record {
    start = args.start;
    count = args.count;
    dtype = args.dtype;
    word_order = args.word_order;
    byte_order = args.byte_order;
    bit_index = index;
    bit_indices = indices;
    bit_numbering = args.bit_numbering;
  }

  -- The `if` on the dtype, which sets `bit_index` and `bit_indices`.
  unfoldable pub register_fields : ReadArgs F → RegisterDType → Cli RegisterItem
  unfolding register_item parse_bit_indices
  register_fields args RegisterDType.bit = elim args.bit_index [
    | none ↦ system_exit
    | some i ↦ done (register_item args (some (to_index args.count i)) none)
  ]
  register_fields args RegisterDType.bits = do
    indices ← parse_bit_indices args.count args.bit_indices
    done (register_item args none (some indices))
  register_fields args (RegisterDType.numeric d) = done (register_item args none none)

  unfoldable pub read_item_of : ReadArgs F → Area → Cli ReadItem
  unfolding register_fields
  read_item_of args Area.coil = done (coils args.start args.count)
  read_item_of args Area.discrete_input = done (discrete args.start args.count)
  read_item_of args Area.holding_register = do r ← register_fields args args.dtype; done (holding r)
  read_item_of args Area.input_register = do r ← register_fields args args.dtype; done (input r)

  unfoldable pub build_read_item : ReadArgs F → Cli ReadItem
  unfolding read_item_of
  build_read_item args = read_item_of args args.area

-- `if s.strip()`
abbrev pub is_filled : Text → Bool
is_filled [] = false
is_filled (c ∷ s) = true

-- `[s.strip() for s in pieces if s.strip()]`
unfoldable pub strip_filled : List Text → List Text
strip_filled [] = []
strip_filled (piece ∷ rest) =
    let more = strip_filled rest in if is_filled (strip piece) then strip piece ∷ more else more

unfoldable pub parse_bool : Text → Cli Bool
parse_bool s =
    if is_one_of (lower s) (codes "true" ∷ codes "1" ∷ codes "on" ∷ codes "yes" ∷ [])
    then done true
    else if is_one_of (lower s) (codes "false" ∷ codes "0" ∷ codes "off" ∷ codes "no" ∷ [])
    then done false
    else system_exit

unfoldable pub parse_bools : List Text → Cli (List Bool)
unfolding parse_bool
parse_bools [] = done []
parse_bools (s ∷ rest) = do b ← parse_bool s; bools ← parse_bools rest; done (b ∷ bools)

-- `float(s)` is the parameter: a value, or ValueError.
module _ {F : Type 0} (to_float : Text → Result F) where
  -- The number of one piece for a dtype: only `float32` reads floats.
  unfoldable pub parse_number : NumericDType → Text → Result (Number F)
  parse_number NumericDType.float32 s = elim (to_float s) [ err e ↦ err e | ok x ↦ ok (float x) ]
  parse_number dtype s = elim (int_auto s) [ err e ↦ err e | ok z ↦ ok (int z) ]

  unfoldable pub write_item_of : WriteArgs F → WriteArea → List Text → Cli (WriteItem F)
  unfolding parse_bools parse_number
  write_item_of args area [] = system_exit
  write_item_of args WriteArea.coil (s ∷ rest) = do
    bools ← parse_bools (s ∷ rest)
    done (write_coils args.start bools)
  write_item_of args WriteArea.holding (s ∷ rest) = do
    numbers ← or_exit (collect (parse_number args.dtype) (s ∷ rest))
    done (write_holding args.start numbers args.dtype args.word_order args.byte_order)

  unfoldable pub build_write_item : WriteArgs F → Cli (WriteItem F)
  unfolding write_item_of strip_filled
  build_write_item args = write_item_of args args.area (strip_filled (split b',' args.values))
