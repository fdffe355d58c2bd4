-- ===== src/Codec/Float.antt =====
-- What the library uses of Python's floats, which are not built into this development: conversions,
-- tests and the two `struct` formats.
use pymod.Prelude.{Bool}
use pymod.Prelude.Int.{ℤ}
use pymod.Errors.{Result}
use pymod.Bytes.{Bytes}

pub record FloatOps : Type 1 where
  pub Float : Type 0
  pub of_int : ℤ → Result Float
  pub to_int : Float → ℤ
  pub is_integer : Float → Bool
  pub is_nan : Float → Bool
  pub is_inf : Float → Bool
  pub pack_f : Float → Result Bytes
  pub pack_d : Float → Result Bytes
  pub unpack_f : Bytes → Result Float
  pub unpack_d : Bytes → Result Float
