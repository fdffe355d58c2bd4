-- ===== src/Codec/Runs.antt =====
-- The value codec at concrete values, and its theorems there.
use pymod.Prelude.{ℕ, ◌*◌, ◌≡◌, refl, true, false, List, [], ◌∷◌, map, length}
use pymod.Prelude.Int.{ℤ, pos, negsuc}
use pymod.Errors.{ok, err, value_error}
use pymod.Types.{big, little, int32, int}
use pymod.Bytes.{Bytes}
use pymod.Codec.Float.{FloatOps}
use pymod.Codec.Common.{
  check_registers, join_in_order, read_chunks, registers_to_bytes, bytes_to_registers,
}
use pymod.Codec.Values.{to_bytes, encode_int, encode_registers, decode_registers, regs_per_item}
use pymod.Codec.Values.RoundTrip.{decode_registers-encode_registers}

-- Floats that are all whole numbers, for runs that use none.
abbrev pub whole_floats : FloatOps
whole_floats = record {
  Float = ℤ;
  of_int = ok;
  to_int = λ z. z;
  is_integer = λ _. true;
  is_nan = λ _. false;
  is_inf = λ _. false;
  pack_f = λ _. err value_error;
  pack_d = λ _. err value_error;
  unpack_f = λ _. err value_error;
  unpack_d = λ _. err value_error;
}

abbrev minus_two : Bytes
minus_two = 255 ∷ 255 ∷ 255 ∷ 254 ∷ []

encode_minus_two : encode_int (negsuc 1) int32 ≡ ok (255 ∷ 255 ∷ 255 ∷ 254 ∷ [])
unfolding encode_int to_bytes
encode_minus_two = refl

abbrev two_values : List ℕ
two_values = 65534 ∷ 65535 ∷ 1 ∷ 1 ∷ []

abbrev two_integers : List ℤ
two_integers = negsuc 1 ∷ pos 65537 ∷ []

encode_two_values :
    encode_registers whole_floats (map int (negsuc 1 ∷ pos 65537 ∷ [])) int32 little big
    ≡ ok (65534 ∷ 65535 ∷ 1 ∷ 1 ∷ [])
unfolding encode_registers encode_int to_bytes bytes_to_registers read_chunks
encode_two_values = refl

swapped : registers_to_bytes (1 ∷ 515 ∷ []) little little ≡ ok (3 ∷ 2 ∷ 1 ∷ 0 ∷ [])
unfolding registers_to_bytes check_registers join_in_order
swapped = refl

decode_registers-encode_registers_example :
    (decode_registers whole_floats (65534 ∷ 65535 ∷ 1 ∷ 1 ∷ []) int32 little big
      ≡ ok (map int (negsuc 1 ∷ pos 65537 ∷ [])))
    × (length two_values ≡ length two_integers * regs_per_item int32)
decode_registers-encode_registers_example =
    decode_registers-encode_registers whole_floats int32 tt little big (negsuc 1 ∷ pos 65537 ∷ [])
      encode_two_values
