-- ===== src/Codec/Bits.antt =====
-- src/pymod/codec/bits.py: single bits out of a block of registers.
use pymod.Prelude.{ℕ, ◌-◌, ◌*◌, ltb, leb, Bool, List, [], ◌∷◌, length}
use pymod.Prelude.Bits.{test_bit}
use pymod.Errors.{Result, ok, value_error, ◌>>=◌, ◌>>◌, guard}
use pymod.Types.{ByteOrder, WordOrder, BitNumbering, lsb_first, msb_first}
use pymod.Codec.Common.{registers_to_bytes}
use pymod.Codec.Values.{from_be}

unfoldable pub resolve_pos : ℕ → ℕ → BitNumbering → Result ℕ
resolve_pos bit_index total_bits lsb_first = do
  guard (ltb bit_index total_bits) value_error
  ok bit_index
resolve_pos bit_index total_bits msb_first = do
  guard (ltb bit_index total_bits) value_error
  ok (total_bits - 1 - bit_index)

unfoldable pub registers_to_int : List ℕ → WordOrder → ByteOrder → Result ℕ
unfolding from_be
registers_to_int registers word_order byte_order = do
  raw ← registers_to_bytes registers word_order byte_order
  ok (from_be 0 raw)

unfoldable pub extract_bit : List ℕ → ℕ → WordOrder → ByteOrder → BitNumbering → Result Bool
unfolding resolve_pos registers_to_int
extract_bit registers bit_index word_order byte_order bit_numbering = do
  guard (leb 1 (length registers)) value_error
  position ← resolve_pos bit_index (length registers * 16) bit_numbering
  value ← registers_to_int registers word_order byte_order
  ok (test_bit value position)

-- The list comprehension of `extract_bits`.
unfoldable pub bits_at : ℕ → ℕ → BitNumbering → List ℕ → Result (List Bool)
unfolding resolve_pos
bits_at value total_bits bit_numbering [] = ok []
bits_at value total_bits bit_numbering (idx ∷ rest) = do
  position ← resolve_pos idx total_bits bit_numbering
  bits ← bits_at value total_bits bit_numbering rest
  ok (test_bit value position ∷ bits)

unfoldable pub extract_bits :
    List ℕ → List ℕ → WordOrder → ByteOrder → BitNumbering → Result (List Bool)
unfolding registers_to_int bits_at
extract_bits registers bit_indices word_order byte_order bit_numbering = do
  guard (leb 1 (length registers)) value_error
  value ← registers_to_int registers word_order byte_order
  bits_at value (length registers * 16) bit_numbering bit_indices
