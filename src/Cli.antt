-- ===== src/Cli.antt =====
-- src/pymod/cli.py: how a subcommand ends, and the arguments that the parser hands it. `argparse`
-- itself is not modelled: an argument record is what it returns, with an enumeration where it
-- restricts the choices. Start addresses and counts are natural numbers, as in `Types`; floats are the type
-- `F`, and parsing one is a parameter. Messages are not modelled.
pub mod Items
pub mod Display
pub mod Run
pub mod RoundTrip
pub mod Exits
pub mod Runs
pub mod Simulator
use pymod.Prelude.{ℕ, Option, none, Bool, false, List, [], ◌∷◌}
use pymod.Prelude.Int.{ℤ, pos}
use pymod.Text.{Text, codes}
use pymod.Errors.{Exc, Result, ok, err}
use pymod.Types.{
  Area, RegisterDType, numeric, NumericDType, WordOrder, ByteOrder, BitNumbering, Number, int,
}
use pymod.Client.Factory.{Parity}

-- A call of the command line's code returns, leaves by `SystemExit`, or raises.
pub data Cli {ℓ} (A : Type ℓ) : Type ℓ where
  done : A → Cli A
  system_exit : Cli A
  raised : Exc → Cli A

infixl 5 ◌>>=◌
abbrev pub ◌>>=◌ {κ ℓ} : {X : Type κ} {Y : Type ℓ} → Cli X → (X → Cli Y) → Cli Y
done x >>= next = next x
system_exit >>= next = system_exit
raised e >>= next = raised e

-- A call without an `except` around it.
abbrev pub passed {ℓ} : {A : Type ℓ} → Result A → Cli A
passed (ok a) = done a
passed (err e) = raised e

-- `except ValueError as e: raise SystemExit(...) from e`, for a call that raises nothing else.
abbrev pub or_exit {ℓ} : {A : Type ℓ} → Result A → Cli A
or_exit (ok a) = done a
or_exit (err e) = system_exit

-- The areas that `write` may choose.
pub data WriteArea : Type 0 where
  holding coil : WriteArea

-- `_AREA_CHOICES_READ`, with the area that each name stands for.
unfoldable pub area_choices_read : List (Text × Area)
area_choices_read =
    (codes "holding", Area.holding_register)
    ∷ (codes "input", Area.input_register)
    ∷ (codes "coil", Area.coil)
    ∷ (codes "discrete", Area.discrete_input)
    ∷ []

-- `_AREA_CHOICES_WRITE`
unfoldable pub area_choices_write : List (Text × WriteArea)
area_choices_write = (codes "holding", WriteArea.holding) ∷ (codes "coil", WriteArea.coil) ∷ []

-- `_DTYPE_CHOICES_WRITE`
unfoldable pub dtype_choices_write : List (Text × NumericDType)
dtype_choices_write =
    (codes "int16", NumericDType.int16)
    ∷ (codes "uint16", NumericDType.uint16)
    ∷ (codes "int32", NumericDType.int32)
    ∷ (codes "uint32", NumericDType.uint32)
    ∷ (codes "float32", NumericDType.float32)
    ∷ (codes "int64", NumericDType.int64)
    ∷ (codes "uint64", NumericDType.uint64)
    ∷ (codes "float64", NumericDType.float64)
    ∷ []

-- `_DTYPE_CHOICES_READ`
unfoldable pub dtype_choices_read : List (Text × RegisterDType)
dtype_choices_read =
    (codes "int16", numeric NumericDType.int16)
    ∷ (codes "uint16", numeric NumericDType.uint16)
    ∷ (codes "int32", numeric NumericDType.int32)
    ∷ (codes "uint32", numeric NumericDType.uint32)
    ∷ (codes "float32", numeric NumericDType.float32)
    ∷ (codes "int64", numeric NumericDType.int64)
    ∷ (codes "uint64", numeric NumericDType.uint64)
    ∷ (codes "float64", numeric NumericDType.float64)
    ∷ (codes "bit", RegisterDType.bit)
    ∷ (codes "bits", RegisterDType.bits)
    ∷ []

-- `_add_transport_args`
pub record TransportArgs (F : Type 0) : Type 0 where
  pub host : Option Text
  pub port : ℤ
  pub rtu : Option Text
  pub baudrate : ℤ
  pub bytesize : ℤ
  pub parity : Parity
  pub stopbits : Number F
  pub rtu_over_tcp : Bool

-- The defaults of `_add_transport_args`.
unfoldable pub default_transport : {F : Type 0} → TransportArgs F
default_transport = record {
  host = none;
  port = pos 502;
  rtu = none;
  baudrate = pos 9600;
  bytesize = pos 8;
  parity = Parity.parity_none;
  stopbits = int (pos 1);
  rtu_over_tcp = false;
}

-- `_add_call_args`
pub record CallArgs (F : Type 0) : Type 0 where
  pub unit_id : ℤ
  pub timeout_s : F
  pub retries : ℤ

-- The arguments of `read`.
pub record ReadArgs (F : Type 0) : Type 0 where
  pub transport : TransportArgs F
  pub call : CallArgs F
  pub area : Area
  pub start : ℕ
  pub count : ℕ
  pub dtype : RegisterDType
  pub word_order : WordOrder
  pub byte_order : ByteOrder
  pub bit_index : Option ℤ
  pub bit_indices : Option Text
  pub bit_numbering : BitNumbering
  pub json : Bool

-- The arguments of `write`.
pub record WriteArgs (F : Type 0) : Type 0 where
  pub transport : TransportArgs F
  pub call : CallArgs F
  pub area : WriteArea
  pub start : ℕ
  pub values : Text
  pub dtype : NumericDType
  pub word_order : WordOrder
  pub byte_order : ByteOrder
  pub json : Bool

-- The arguments of `scan`.
pub record ScanArgs (F : Type 0) : Type 0 where
  pub transport : TransportArgs F
  pub call : CallArgs F
  pub start : ℕ
  pub json : Bool

-- The arguments of `serve`.
pub record ServeArgs : Type 0 where
  pub host : Text
  pub port : ℤ
  pub unit_id : Option ℕ
  pub max_connections : ℤ
  pub readonly : Bool
  pub config : Option Text
  pub holding : Text
  pub input : Text
  pub coil : Text
  pub discrete : Text
