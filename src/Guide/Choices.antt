-- ===== src/Guide/Choices.antt =====
-- The menus of src/pymod/_guide.py: the names that may be typed, with what they stand for.
use pymod.Prelude.{List, [], ◌∷◌}
use pymod.Text.{Text, codes}
use pymod.Types.{RegisterDType, numeric, bit, bits, NumericDType, ByteOrder, BitNumbering}
use pymod.Client.Factory.{Parity}

pub data Operation : Type 0 where
  op_read op_write op_scan : Operation

pub data TransportKind : Type 0 where
  kind_tcp kind_rtu kind_rtu_over_tcp : TransportKind

-- `_OPS`
unfoldable pub operations : List (Text × Operation)
operations = (codes "read", op_read) ∷ (codes "write", op_write) ∷ (codes "scan", op_scan) ∷ []

-- `_TRANSPORTS`
unfoldable pub transports : List (Text × TransportKind)
transports =
    (codes "tcp", kind_tcp)
    ∷ (codes "rtu", kind_rtu)
    ∷ (codes "rtu-over-tcp", kind_rtu_over_tcp)
    ∷ []

-- `_WRITE_DTYPES`
unfoldable pub write_dtypes : List (Text × NumericDType)
write_dtypes =
    (codes "uint16", NumericDType.uint16)
    ∷ (codes "int16", NumericDType.int16)
    ∷ (codes "uint32", NumericDType.uint32)
    ∷ (codes "int32", NumericDType.int32)
    ∷ (codes "float32", NumericDType.float32)
    ∷ (codes "uint64", NumericDType.uint64)
    ∷ (codes "int64", NumericDType.int64)
    ∷ (codes "float64", NumericDType.float64)
    ∷ []

-- `_READ_DTYPES`
unfoldable pub read_dtypes : List (Text × RegisterDType)
read_dtypes =
    (codes "uint16", numeric NumericDType.uint16)
    ∷ (codes "int16", numeric NumericDType.int16)
    ∷ (codes "uint32", numeric NumericDType.uint32)
    ∷ (codes "int32", numeric NumericDType.int32)
    ∷ (codes "float32", numeric NumericDType.float32)
    ∷ (codes "uint64", numeric NumericDType.uint64)
    ∷ (codes "int64", numeric NumericDType.int64)
    ∷ (codes "float64", numeric NumericDType.float64)
    ∷ (codes "bit", bit)
    ∷ (codes "bits", bits)
    ∷ []

unfoldable pub parities : List (Text × Parity)
parities =
    (codes "N", Parity.parity_none)
    ∷ (codes "E", Parity.parity_even)
    ∷ (codes "O", Parity.parity_odd)
    ∷ []

unfoldable pub orders : List (Text × ByteOrder)
orders = (codes "big", ByteOrder.big) ∷ (codes "little", ByteOrder.little) ∷ []

unfoldable pub numberings : List (Text × BitNumbering)
numberings =
    (codes "lsb_first", BitNumbering.lsb_first) ∷ (codes "msb_first", BitNumbering.msb_first) ∷ []
