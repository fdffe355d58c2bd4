-- ===== src/Types.antt =====
-- src/pymod/_types.py: the items of a batch and the results. Addresses and counts are natural
-- numbers. Floats are the type `F` of `Codec.Float`.
use pymod.Prelude.{ℕ, Bool, Option, List}
use pymod.Prelude.Int.{ℤ}
use pymod.Errors.{Exc}

pub data Area : Type 0 where
  coil discrete_input holding_register input_register : Area

-- Literal["big", "little"]
pub data ByteOrder : Type 0 where
  big little : ByteOrder

abbrev pub WordOrder : Type 0
WordOrder = ByteOrder

pub data BitNumbering : Type 0 where
  lsb_first msb_first : BitNumbering

pub data NumericDType : Type 0 where
  int16 uint16 int32 uint32 float32 int64 uint64 float64 : NumericDType

pub data RegisterDType : Type 0 where
  numeric : NumericDType → RegisterDType
  bit bits : RegisterDType

-- A Python number: an int or a float.
pub data Number (F : Type 0) : Type 0 where
  int : ℤ → Number F
  float : F → Number F

-- What a read returns: numbers or Booleans.
pub data Value (F : Type 0) : Type 0 where
  number : Number F → Value F
  boolean : Bool → Value F

-- The fields that `Holding` and `Input` share.
pub record RegisterItem : Type 0 where
  pub start : ℕ
  pub count : ℕ
  pub dtype : RegisterDType
  pub word_order : WordOrder
  pub byte_order : ByteOrder
  pub bit_index : Option ℕ
  pub bit_indices : Option (List ℕ)
  pub bit_numbering : BitNumbering

-- `Holding`, `Input`, `Coil` and `Discrete`.
pub data ReadItem : Type 0 where
  holding : RegisterItem → ReadItem
  input : RegisterItem → ReadItem
  coils : ℕ → ℕ → ReadItem
  discrete : ℕ → ℕ → ReadItem

abbrev pub item_start : ReadItem → ℕ
item_start (holding r) = r.start
item_start (input r) = r.start
item_start (coils start count) = start
item_start (discrete start count) = start

abbrev pub item_count : ReadItem → ℕ
item_count (holding r) = r.count
item_count (input r) = r.count
item_count (coils start count) = count
item_count (discrete start count) = count

pub data WriteItem (F : Type 0) : Type 0 where
  write_holding : ℕ → List (Number F) → NumericDType → WordOrder → ByteOrder → WriteItem F
  write_coils : ℕ → List Bool → WriteItem F

pub record ReadResult (F : Type 0) : Type 0 where
  pub item : ReadItem
  pub values : List (Value F)
  pub ok? : Bool
  pub error : Option Exc

pub record WriteResult (F : Type 0) : Type 0 where
  pub item : WriteItem F
  pub ok? : Bool
  pub error : Option Exc
