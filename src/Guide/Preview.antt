-- ===== src/Guide/Preview.antt =====
-- `_quote` and `_equivalent_command` of src/pymod/_guide.py. `str` of a float and its comparison with
-- 0.5 are parameters. The operation is part of the command.
use pymod.Prelude.{
  ◌==◌, Bool, true, false, ◌||◌, Option, none, some, List, [], ◌∷◌, ◌++◌, if◌then◌else◌,
}
use pymod.Prelude.Int.{ℤ, pos}
use pymod.Text.{Text, codes, contains, join}
use pymod.Text.Ints.{str_int}
use pymod.Types.{Area, RegisterDType, NumericDType, ByteOrder, BitNumbering}
use pymod.Client.Factory.{Parity}
use pymod.Cli.{TransportArgs, CallArgs, ReadArgs, WriteArgs, WriteArea, ScanArgs}
use pymod.Cli.Run.{given}
use pymod.Cli.Simulator.{eq_ℤ}

unfoldable pub quote : Text → Text
quote s = if contains b' ' s || contains 9 s then codes "\"" ++ (s ++ codes "\"") else s

-- `parts += [flag, text]` unless the value is the default.
abbrev option_part : Bool → Text → Text → List Text
option_part true flag text = []
option_part false flag text = flag ∷ text ∷ []

abbrev flag_part : Bool → Text → List Text
flag_part false flag = []
flag_part true flag = flag ∷ []

-- The names that the choices have.
unfoldable pub parity_name : Parity → Text
parity_name Parity.parity_none = codes "N"
parity_name Parity.parity_even = codes "E"
parity_name Parity.parity_odd = codes "O"

unfoldable pub order_name : ByteOrder → Text
order_name ByteOrder.big = codes "big"
order_name ByteOrder.little = codes "little"

unfoldable pub numeric_name : NumericDType → Text
numeric_name NumericDType.int16 = codes "int16"
numeric_name NumericDType.uint16 = codes "uint16"
numeric_name NumericDType.int32 = codes "int32"
numeric_name NumericDType.uint32 = codes "uint32"
numeric_name NumericDType.float32 = codes "float32"
numeric_name NumericDType.int64 = codes "int64"
numeric_name NumericDType.uint64 = codes "uint64"
numeric_name NumericDType.float64 = codes "float64"

unfoldable pub dtype_name : RegisterDType → Text
unfolding numeric_name
dtype_name (RegisterDType.numeric d) = numeric_name d
dtype_name RegisterDType.bit = codes "bit"
dtype_name RegisterDType.bits = codes "bits"

unfoldable pub area_name : Area → Text
area_name Area.holding_register = codes "holding"
area_name Area.input_register = codes "input"
area_name Area.coil = codes "coil"
area_name Area.discrete_input = codes "discrete"

unfoldable pub write_area_name : WriteArea → Text
write_area_name WriteArea.holding = codes "holding"
write_area_name WriteArea.coil = codes "coil"

-- `dtype != "uint16"`
abbrev is_uint16 : NumericDType → Bool
is_uint16 NumericDType.uint16 = true
is_uint16 _ = false

abbrev is_default_dtype : RegisterDType → Bool
is_default_dtype (RegisterDType.numeric d) = is_uint16 d
is_default_dtype _ = false

abbrev is_big : ByteOrder → Bool
is_big ByteOrder.big = true
is_big ByteOrder.little = false

abbrev is_parity_none : Parity → Bool
is_parity_none Parity.parity_none = true
is_parity_none _ = false

abbrev or_empty : Option Text → Text
or_empty none = []
or_empty (some s) = s

module _ {F : Type 0} (str_float : F → Text) (is_half : F → Bool) where
  unfoldable pub transport_parts : TransportArgs F → List Text
  unfolding quote parity_name
  transport_parts args = elim (given args.rtu) [
    | some path ↦
        (codes "--rtu" ∷ quote path ∷ [])
        ++ (option_part (eq_ℤ args.baudrate (pos 9600)) (codes "--baudrate") (str_int args.baudrate)
            ++ option_part (is_parity_none args.parity) (codes "--parity")
                (parity_name args.parity))
    | none ↦
        (codes "--host" ∷ quote (or_empty args.host) ∷ [])
        ++ (option_part (eq_ℤ args.port (pos 502)) (codes "--port") (str_int args.port)
            ++ flag_part args.rtu_over_tcp (codes "--rtu-over-tcp"))
  ]

  unfoldable pub call_parts : CallArgs F → List Text
  call_parts args =
      option_part (eq_ℤ args.unit_id (pos 1)) (codes "--unit-id") (str_int args.unit_id)
      ++ (option_part (is_half args.timeout_s) (codes "--timeout") (str_float args.timeout_s)
          ++ option_part (eq_ℤ args.retries (pos 1)) (codes "--retries") (str_int args.retries))

  abbrev order_parts : ByteOrder → ByteOrder → List Text
  order_parts word_order byte_order =
      option_part (is_big word_order) (codes "--word-order") (order_name word_order)
      ++ option_part (is_big byte_order) (codes "--byte-order") (order_name byte_order)

  abbrev index_part : Option ℤ → List Text
  index_part none = []
  index_part (some i) = codes "--bit-index" ∷ str_int i ∷ []

  abbrev indices_part : Option Text → List Text
  indices_part none = []
  indices_part (some s) = codes "--bit-indices" ∷ quote s ∷ []

  abbrev numbering_part : BitNumbering → List Text
  numbering_part BitNumbering.lsb_first = []
  numbering_part BitNumbering.msb_first = codes "--bit-numbering" ∷ codes "msb_first" ∷ []

  unfoldable pub read_parts : ReadArgs F → List Text
  unfolding dtype_name area_name order_name quote
  read_parts args =
      (codes "--area" ∷ area_name args.area ∷ codes "--start" ∷ str_int (pos args.start) ∷ [])
      ++ ((codes "--count" ∷ str_int (pos args.count) ∷ [])
          ++ (option_part (is_default_dtype args.dtype) (codes "--dtype") (dtype_name args.dtype)
              ++ (order_parts args.word_order args.byte_order
                  ++ (index_part args.bit_index
                      ++ (indices_part args.bit_indices ++ numbering_part args.bit_numbering)))))

  unfoldable pub write_parts : WriteArgs F → List Text
  unfolding numeric_name write_area_name order_name quote
  write_parts args =
      (codes "--area" ∷ write_area_name args.area ∷ codes "--start" ∷ str_int (pos args.start) ∷ [])
      ++ ((codes "--values" ∷ quote args.values ∷ [])
          ++ (option_part (is_uint16 args.dtype) (codes "--dtype") (numeric_name args.dtype)
              ++ order_parts args.word_order args.byte_order))

  -- `" ".join(parts)` for each operation.
  unfoldable pub command_line : Text → TransportArgs F → CallArgs F → List Text → Bool → Text
  unfolding transport_parts call_parts join
  command_line op transport call parts json = join (b' ' ∷ []) (
      codes "pymod"
      ∷ op
      ∷ (transport_parts transport
          ++ (call_parts call ++ (parts ++ flag_part json (codes "--json")))))

  unfoldable pub read_command_line : ReadArgs F → Text
  unfolding command_line read_parts
  read_command_line args =
      command_line (codes "read") args.transport args.call (read_parts args) args.json

  unfoldable pub write_command_line : WriteArgs F → Text
  unfolding command_line write_parts
  write_command_line args =
      command_line (codes "write") args.transport args.call (write_parts args) args.json

  unfoldable pub scan_command_line : ScanArgs F → Text
  unfolding command_line
  scan_command_line args =
      command_line (codes "scan") args.transport args.call
        (option_part (args.start == 0) (codes "--start") (str_int (pos args.start))) args.json
