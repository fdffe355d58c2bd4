-- ===== src/Guide/Wizard.antt =====
-- The questions of src/pymod/_guide.py for a transport, a call and the three operations, and
-- `build_namespace`. The namespace is the argument record of the command that is built.
use pymod.Prelude.{Bool, true, false, Option, none, some, if◌then◌else◌}
use pymod.Prelude.Int.{ℤ, pos, pos_part}
use pymod.Errors.{Result}
use pymod.Text.{Text, codes}
use pymod.Types.{
  Area, RegisterDType, numeric, NumericDType, ByteOrder, WordOrder, BitNumbering, int,
}
use pymod.Client.Factory.{Parity}
use pymod.Cli.{
  TransportArgs, CallArgs, ReadArgs, WriteArgs, WriteArea, ScanArgs, area_choices_read,
  area_choices_write,
}
use pymod.Cli.Run.{Command, read_command, write_command, scan_command}
use pymod.Guide.Choices.{
  Operation, op_read, op_write, op_scan, TransportKind, kind_tcp, kind_rtu, kind_rtu_over_tcp,
  operations, transports, write_dtypes, read_dtypes, parities, orders, numberings,
}
use pymod.Guide.{Ask, answer, ◌>>=◌, ask, ask_int, ask_float, ask_yes_no, ask_choice}

abbrev pub localhost : Text
localhost = codes "127.0.0.1"

-- `ns.dtype in ("int32", …, "float64")`
unfoldable pub is_wide : NumericDType → Bool
is_wide NumericDType.int16 = false
is_wide NumericDType.uint16 = false
is_wide _ = true

-- The two questions for the layout of a wide dtype.
unfoldable pub ask_orders : NumericDType → Ask (WordOrder × ByteOrder)
unfolding ask_choice orders is_wide
ask_orders dtype = elim (is_wide dtype) [
  | true ↦ do
    word_order ← ask_choice orders ByteOrder.big
    byte_order ← ask_choice orders ByteOrder.big
    answer (word_order, byte_order)
  | false ↦ answer (ByteOrder.big, ByteOrder.big)
]

-- What the dtype of a read leads to: the layout, `bit_index`, `bit_indices` and `bit_numbering`.
pub record Layout : Type 0 where
  pub word_order : WordOrder
  pub byte_order : ByteOrder
  pub bit_index : Option ℤ
  pub bit_indices : Option Text
  pub bit_numbering : BitNumbering

unfoldable pub layout_of : WordOrder × ByteOrder → Layout
layout_of orders = record {
  word_order = orders.0;
  byte_order = orders.1;
  bit_index = none;
  bit_indices = none;
  bit_numbering = BitNumbering.lsb_first;
}

unfoldable pub ask_layout : RegisterDType → Ask Layout
unfolding ask_orders ask_int ask ask_choice numberings layout_of
ask_layout (RegisterDType.numeric d) = do chosen ← ask_orders d; answer (layout_of chosen)
ask_layout RegisterDType.bit = do
  index ← ask_int none (some (pos 0))
  numbering ← ask_choice numberings BitNumbering.lsb_first
  answer (record {
    word_order = ByteOrder.big;
    byte_order = ByteOrder.big;
    bit_index = some index;
    bit_indices = none;
    bit_numbering = numbering;
  })
ask_layout RegisterDType.bits = do
  indices ← ask none
  numbering ← ask_choice numberings BitNumbering.lsb_first
  answer (record {
    word_order = ByteOrder.big;
    byte_order = ByteOrder.big;
    bit_index = none;
    bit_indices = some indices;
    bit_numbering = numbering;
  })

-- The count, the dtype and the layout for the area that was chosen.
unfoldable pub ask_shape : Area → Ask (ℤ × RegisterDType × Layout)
unfolding ask_int ask_choice read_dtypes ask_layout layout_of
ask_shape Area.coil = do
  count ← ask_int none (some (pos 1))
  answer (count, numeric NumericDType.uint16, layout_of (ByteOrder.big, ByteOrder.big))
ask_shape Area.discrete_input = do
  count ← ask_int none (some (pos 1))
  answer (count, numeric NumericDType.uint16, layout_of (ByteOrder.big, ByteOrder.big))
ask_shape _ = do
  count ← ask_int none (some (pos 1))
  dtype ← ask_choice read_dtypes (numeric NumericDType.uint16)
  layout ← ask_layout dtype
  answer (count, dtype, layout)

-- The values, the dtype and the layout of a write.
unfoldable pub ask_values : WriteArea → Ask (Text × NumericDType × (WordOrder × ByteOrder))
unfolding ask ask_choice write_dtypes ask_orders
ask_values WriteArea.coil = do
  values ← ask none
  answer (values, NumericDType.uint16, (ByteOrder.big, ByteOrder.big))
ask_values WriteArea.holding = do
  dtype ← ask_choice write_dtypes NumericDType.uint16
  values ← ask none
  chosen ← ask_orders dtype
  answer (values, dtype, chosen)

-- `float(s)`, and the text of the default timeout 0.5, are parameters.
module _ {F : Type 0} (to_float : Text → Result F) (half : Text) where
  unfoldable pub tcp_args : Text → ℤ → Bool → TransportArgs F
  tcp_args host port framed = record {
    host = some host;
    port = port;
    rtu = none;
    baudrate = pos 9600;
    bytesize = pos 8;
    parity = Parity.parity_none;
    stopbits = int (pos 1);
    rtu_over_tcp = framed;
  }

  unfoldable pub serial_args : Text → ℤ → Parity → TransportArgs F
  serial_args path baudrate parity = record {
    host = none;
    port = pos 502;
    rtu = some path;
    baudrate = baudrate;
    bytesize = pos 8;
    parity = parity;
    stopbits = int (pos 1);
    rtu_over_tcp = false;
  }

  unfoldable pub ask_transport_of : TransportKind → Ask (TransportArgs F)
  unfolding ask ask_int ask_choice parities tcp_args serial_args
  ask_transport_of kind_tcp = do
    host ← ask (some localhost)
    port ← ask_int (some (pos 502)) (some (pos 1))
    answer (tcp_args host port false)
  ask_transport_of kind_rtu = do
    path ← ask none
    baudrate ← ask_int (some (pos 9600)) (some (pos 300))
    parity ← ask_choice parities Parity.parity_none
    answer (serial_args path baudrate parity)
  ask_transport_of kind_rtu_over_tcp = do
    host ← ask (some localhost)
    port ← ask_int (some (pos 502)) (some (pos 1))
    answer (tcp_args host port true)

  unfoldable pub ask_transport : Ask (TransportArgs F)
  unfolding ask_choice transports ask_transport_of
  ask_transport = do kind ← ask_choice transports kind_tcp; ask_transport_of kind

  unfoldable pub ask_call_args : Ask (CallArgs F)
  unfolding ask_int ask_float
  ask_call_args = do
    unit_id ← ask_int (some (pos 1)) (some (pos 0))
    timeout_s ← ask_float to_float half
    retries ← ask_int (some (pos 1)) (some (pos 0))
    answer (record { unit_id = unit_id; timeout_s = timeout_s; retries = retries })

  -- The minimum of `--start` and `--count` makes them natural numbers.
  unfoldable pub ask_read : TransportArgs F → CallArgs F → Ask (ReadArgs F)
  unfolding ask_choice area_choices_read ask_int ask_shape ask_yes_no
  ask_read transport call = do
    area ← ask_choice area_choices_read Area.holding_register
    start ← ask_int none (some (pos 0))
    shape ← ask_shape area
    json ← ask_yes_no false
    answer (record {
      transport = transport;
      call = call;
      area = area;
      start = pos_part start;
      count = pos_part shape.0;
      dtype = shape.1;
      word_order = shape.2.word_order;
      byte_order = shape.2.byte_order;
      bit_index = shape.2.bit_index;
      bit_indices = shape.2.bit_indices;
      bit_numbering = shape.2.bit_numbering;
      json = json;
    })

  unfoldable pub ask_write : TransportArgs F → CallArgs F → Ask (WriteArgs F)
  unfolding ask_choice area_choices_write ask_int ask_values ask_yes_no
  ask_write transport call = do
    area ← ask_choice area_choices_write WriteArea.holding
    start ← ask_int none (some (pos 0))
    chosen ← ask_values area
    json ← ask_yes_no false
    answer (record {
      transport = transport;
      call = call;
      area = area;
      start = pos_part start;
      values = chosen.0;
      dtype = chosen.1;
      word_order = chosen.2.0;
      byte_order = chosen.2.1;
      json = json;
    })

  unfoldable pub ask_scan : TransportArgs F → CallArgs F → Ask (ScanArgs F)
  unfolding ask_int ask_yes_no
  ask_scan transport call = do
    start ← ask_int (some (pos 0)) (some (pos 0))
    json ← ask_yes_no false
    answer (record { transport = transport; call = call; start = pos_part start; json = json })

  unfoldable pub ask_operation : Operation → TransportArgs F → CallArgs F → Ask (Command F)
  unfolding ask_read ask_write ask_scan
  ask_operation op_read transport call = do
    args ← ask_read transport call
    answer (read_command args)
  ask_operation op_write transport call = do
    args ← ask_write transport call
    answer (write_command args)
  ask_operation op_scan transport call = do
    args ← ask_scan transport call
    answer (scan_command args)

  -- No command when the user declines it.
  unfoldable pub build_namespace : Ask (Option (Command F))
  unfolding ask_choice operations ask_transport ask_call_args ask_operation ask_yes_no
  build_namespace = do
    op ← ask_choice operations op_read
    transport ← ask_transport
    call ← ask_call_args
    command ← ask_operation op transport call
    execute ← ask_yes_no true
    answer (if execute then some command else none)
