-- ===== src/Cli/Runs.antt =====
-- The command line at concrete arguments, and its theorems there.
use pymod.Prelude.{
  ℕ, ◌+◌, ◌*◌, ◌≡◌, ◌≢◌, refl, arith, true, false, none, some, [], ◌∷◌, map, length,
}
use pymod.Prelude.Int.{pos, negsuc}
use pymod.Text.{Text, codes, join}
use pymod.Text.Ints.{int_auto, str_int, hex}
use pymod.Protocol.Pdu.{detect_exception}
use pymod.Protocol.Pdu.Request.{encode_read_holding_registers}
use pymod.Bytes.{pack_bhh}
use pymod.Errors.{
  class_of_code, ExceptionClass, exception_response, Result, ok, err, protocol_error, value_error,
  ◌>>◌,
}
use pymod.Types.{
  Area, ReadItem, coils, ReadResult, RegisterDType, NumericDType, ByteOrder, BitNumbering,
  write_holding, int, boolean,
}
use pymod.Client.Runs.{milliseconds, default_policy}
use pymod.Client.Factory.{AsyncClient, parity_none, tcp_transport}
use pymod.Cli.{done, TransportArgs, CallArgs, ReadArgs, WriteArgs, WriteArea, ScanArgs}
use pymod.Cli.Items.{build_read_item, build_write_item}
use pymod.Cli.Display.{Exit, emit_read_result, hex_width, hex_text, line}
use pymod.Cli.Run.{ClientCalls, make_client, run_read, run_scan, report_alive}
use pymod.Cli.RoundTrip.{IsResidue, build_write_item-str_int, int_auto-hex_text}
use pymod.Cli.Exits.{run_read-Tells}
use pymod.Cli.Exits.Finish.{Tells}

-- No text is a float, and a float has no text, where floats are whole numbers of milliseconds.
abbrev no_float : Text → Result ℕ
no_float s = err value_error

abbrev no_text : ℕ → Text
no_text n = []

abbrev local : TransportArgs ℕ
local = record {
  host = some (codes "plc");
  port = pos 502;
  rtu = none;
  baudrate = pos 9600;
  bytesize = pos 8;
  parity = parity_none;
  stopbits = int (pos 1);
  rtu_over_tcp = false;
}

abbrev one_retry : CallArgs ℕ
one_retry = record { unit_id = pos 1; timeout_s = 500; retries = pos 1 }

abbrev write_args : WriteArgs ℕ
write_args = record {
  transport = local;
  call = one_retry;
  area = WriteArea.holding;
  start = 5;
  values = codes "-7,65535";
  dtype = NumericDType.int32;
  word_order = ByteOrder.big;
  byte_order = ByteOrder.little;
  json = false;
}

not_float32 : NumericDType.int32 ≢ NumericDType.float32
not_float32 h = ground arith

printed_values : write_args.values ≡ join (b',' ∷ []) (map str_int (negsuc 6 ∷ pos 65535 ∷ []))
unfolding join str_int
printed_values = refl

build_write_item-str_int_example :
    build_write_item no_float write_args
    ≡ done (
        write_holding 5
          (map int (negsuc 6 ∷ pos 65535 ∷ []))
          NumericDType.int32
          ByteOrder.big
          ByteOrder.little)
build_write_item-str_int_example =
    build_write_item-str_int no_float write_args (negsuc 6) (pos 65535 ∷ []) refl not_float32
      printed_values

minus_one_displayed :
    hex_text (some (RegisterDType.numeric NumericDType.int32)) (negsuc 0) ≡ codes "0xFFFFFFFF"
unfolding hex_text hex
minus_one_displayed = refl

-- A minus two in sixteen bits.
int_auto-hex_text_example :
    (m : ℕ) × (int_auto (hex_text (some (RegisterDType.numeric NumericDType.int16)) (negsuc 1))
      ≡ ok (pos m))
    × IsResidue (hex_width (some (RegisterDType.numeric NumericDType.int16)) * 4) (negsuc 1) m
    × (length (hex_text (some (RegisterDType.numeric NumericDType.int16)) (negsuc 1))
        ≡ 2 + hex_width (some (RegisterDType.numeric NumericDType.int16)))
int_auto-hex_text_example =
    int_auto-hex_text (some (RegisterDType.numeric NumericDType.int16)) (negsuc 1)

abbrev read_args : ReadArgs ℕ
read_args = record {
  transport = local;
  call = one_retry;
  area = Area.coil;
  start = 3;
  count = 1;
  dtype = RegisterDType.numeric NumericDType.uint16;
  word_order = ByteOrder.big;
  byte_order = ByteOrder.big;
  bit_index = none;
  bit_indices = none;
  bit_numbering = BitNumbering.lsb_first;
  json = false;
}

abbrev one_coil : ReadResult ℕ
one_coil = record { item = coils 3 1; values = boolean true ∷ []; ok? = true; error = none }

-- A device with one coil, whose registers are refused.
abbrev answers : AsyncClient milliseconds ℕ → ClientCalls ℕ
answers client = record {
  connect = ok tt;
  read = λ items. ok (one_coil ∷ []);
  write = λ items. err protocol_error;
  execute = λ req. ok (0x83 ∷ 2 ∷ []);
}

abbrev shown : Exit ℕ
shown = record { code = 0; printed = line (codes "[0]: True") ∷ [] }

run_shown :
    run_read milliseconds ℕ default_policy 3000 no_float no_text answers read_args ≡ done shown
unfolding run_read emit_read_result str_int
run_shown = refl

run_read-Tells_example :
    (item : ReadItem) × (client : AsyncClient milliseconds ℕ) × (build_read_item read_args
      ≡ done item)
    × (make_client milliseconds ℕ default_policy 3000 local one_retry ≡ done client)
    × Tells
        (λ (r : ReadResult ℕ). r.ok?)
        ((answers client).connect >> (answers client).read (item ∷ []))
        0
run_read-Tells_example =
    run_read-Tells milliseconds ℕ default_policy 3000 no_float no_text answers read_args shown
      run_shown

abbrev scan_args : ScanArgs ℕ
scan_args = record { transport = local; call = one_retry; start = 0; json = false }

abbrev scan_client : AsyncClient milliseconds ℕ
scan_client = record {
  transport = tcp_transport (codes "plc") (pos 502) true 3000;
  default_unit_id = pos 1;
  default_timeout_s = 500;
  default_retry = default_policy;
}

-- A device that refuses the register is alive.
scan_refused :
    run_scan milliseconds ℕ default_policy 3000 no_float no_text answers scan_args
    ≡ done (report_alive false (some (exception_response ExceptionClass.illegal_data_address 2)))
unfolding run_scan encode_read_holding_registers pack_bhh detect_exception class_of_code
scan_refused = refl
