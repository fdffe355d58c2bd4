-- ===== src/Bytes.antt =====
-- Python's `bytes` as a list of numbers, and what the library uses of `struct` and of
-- `int.to_bytes` and `int.from_bytes`. A failed `struct` call is `struct_error`.
pub mod Laws
pub mod Stream
use pymod.Prelude.{
  ℕ, zero, suc, ◌+◌, ◌*◌, ◌/◌, ◌%◌, ◌<◌, ◌&&◌, List, [], ◌∷◌, ◌++◌, leb, if◌then◌else◌, get_elem?,
  none, some,
}
use pymod.Errors.{
  Result, ok, err, struct_error, index_error, value_error, python_error, ◌>>=◌, ◌>>◌, guard,
}

abbrev pub Bytes : Type 0
Bytes = List ℕ

abbrev pub IsByte : ℕ → Type 0
IsByte b = b < 256

abbrev pub IsWord : ℕ → Type 0
IsWord v = v < 65536

-- `v.to_bytes(2, "big")` of a value that is in range.
abbrev pub be16 : ℕ → Bytes
be16 v = (v / 256) ∷ (v % 256) ∷ []

-- One `H` of a format: out of range is an error.
unfoldable pub pack_h : ℕ → Result Bytes
pack_h v = if leb v 0xFFFF then ok (be16 v) else err struct_error

unfoldable pub pack_b : ℕ → Result Bytes
pack_b v = if leb v 0xFF then ok (v ∷ []) else err struct_error

-- `struct.pack(">BHH", fc, a, b)`
unfoldable pub pack_bhh : ℕ → ℕ → ℕ → Result Bytes
unfolding pack_h pack_b
pack_bhh fc a b = do x ← pack_b fc; y ← pack_h a; z ← pack_h b; ok (x ++ (y ++ z))

-- `struct.pack(">BHHB", fc, a, b, c)`
unfoldable pub pack_bhhb : ℕ → ℕ → ℕ → ℕ → Result Bytes
unfolding pack_h pack_b
pack_bhhb fc a b c = do
  w ← pack_b fc
  x ← pack_h a
  y ← pack_h b
  z ← pack_b c
  ok (w ++ (x ++ (y ++ z)))

-- `struct.pack(f">{count}H", *values)`
unfoldable pub pack_words : List ℕ → Result Bytes
unfolding pack_h
pack_words [] = ok []
pack_words (v ∷ vs) = do x ← pack_h v; rest ← pack_words vs; ok (x ++ rest)

-- `struct.unpack(">HH", raw)`
unfoldable pub unpack_hh : Bytes → Result (ℕ × ℕ)
unpack_hh (a ∷ b ∷ c ∷ d ∷ []) = ok (a * 256 + b, c * 256 + d)
unpack_hh _ = err struct_error

-- `struct.unpack(">BHH", raw)`
unfoldable pub unpack_bhh : Bytes → Result (ℕ × ℕ × ℕ)
unpack_bhh (f ∷ a ∷ b ∷ c ∷ d ∷ []) = ok (f, a * 256 + b, c * 256 + d)
unpack_bhh _ = err struct_error

-- `struct.unpack(f">{count}H", raw)`
unfoldable pub unpack_words : ℕ → Bytes → Result (List ℕ)
unpack_words zero [] = ok []
unpack_words (suc n) (a ∷ b ∷ raw) = do rest ← unpack_words n raw; ok ((a * 256 + b) ∷ rest)
unpack_words _ _ = err struct_error

-- `raw[i]`
unfoldable pub index : Bytes → ℕ → Result ℕ
index raw i = elim (get_elem? raw i) [ none ↦ err index_error | some b ↦ ok b ]

-- `b"".join(int(v).to_bytes(2, "big") for v in values)`: out of range is an `OverflowError`.
unfoldable pub to_bytes_words : List ℕ → Result Bytes
to_bytes_words [] = ok []
to_bytes_words (v ∷ vs) = do
  guard (leb v 0xFFFF) python_error
  rest ← to_bytes_words vs
  ok (be16 v ++ rest)

-- `bytes([a, b])`
unfoldable pub bytes_pair : ℕ → ℕ → Result Bytes
bytes_pair a b = do guard (leb a 0xFF && leb b 0xFF) value_error; ok (a ∷ b ∷ [])

-- `b"".join(v.to_bytes(2, "big") for v in values)` of values that are in range.
unfoldable pub join_words : List ℕ → Bytes
join_words [] = []
join_words (v ∷ vs) = be16 v ++ join_words vs
