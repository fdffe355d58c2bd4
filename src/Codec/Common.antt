-- ===== src/Codec/Common.antt =====
-- src/pymod/codec/_common.py: a block of registers as a string of bytes, in the four layouts.
pub mod Laws
use mathlib.Core.List.{reverse}
use pymod.Prelude.{ℕ, ◌+◌, ◌*◌, ◌/◌, ◌%◌, ◌==◌, leb, List, [], ◌∷◌, length}
use pymod.Errors.{Result, ok, value_error, ◌>>=◌, ◌>>◌, guard}
use pymod.Types.{ByteOrder, big, little, WordOrder}
use pymod.Bytes.{Bytes, join_words}

-- `for r in registers: if not 0 <= r <= 0xFFFF: raise ValueError`
unfoldable pub check_registers : List ℕ → Result (Unit {0})
check_registers [] = ok tt
check_registers (r ∷ rest) = do guard (leb r 0xFFFF) value_error; check_registers rest

-- `b"".join(r.to_bytes(2, "little") for r in seq)`
unfoldable pub join_words_little : List ℕ → Bytes
join_words_little [] = []
join_words_little (r ∷ rest) = (r % 256) ∷ (r / 256) ∷ join_words_little rest

abbrev pub in_word_order {ℓ} : {A : Type ℓ} → WordOrder → List A → List A
in_word_order big seq = seq
in_word_order little seq = reverse seq

unfoldable pub join_in_order : ByteOrder → List ℕ → Bytes
unfolding join_words_little
join_in_order big seq = join_words seq
join_in_order little seq = join_words_little seq

unfoldable pub registers_to_bytes : List ℕ → WordOrder → ByteOrder → Result Bytes
registers_to_bytes registers word_order byte_order = do
  check_registers registers
  ok (join_in_order byte_order (in_word_order word_order registers))

-- The chunks of two bytes, each read in the byte order. A single byte at the end is a chunk too.
unfoldable pub read_chunks : ByteOrder → Bytes → List ℕ
read_chunks byte_order [] = []
read_chunks byte_order (a ∷ []) = a ∷ []
read_chunks big (a ∷ b ∷ raw) = (a * 256 + b) ∷ read_chunks big raw
read_chunks little (a ∷ b ∷ raw) = (b * 256 + a) ∷ read_chunks little raw

unfoldable pub bytes_to_registers : Bytes → WordOrder → ByteOrder → Result (List ℕ)
bytes_to_registers raw word_order byte_order = do
  guard (length raw % 2 == 0) value_error
  ok (in_word_order word_order (read_chunks byte_order raw))
