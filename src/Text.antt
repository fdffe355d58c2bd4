-- ===== src/Text.antt =====
-- The texts of the command line: src/pymod/cli.py and src/pymod/_guide.py handle ASCII text. A text
-- is the list of its code points, and the operations are the ones of Python's `str`.
pub mod Ints
pub mod Digits
pub mod Split
pub mod Laws
use Prim.Native.Char.{code}
use Prim.Native.String.{String}
use pymod.Prelude.{
  ℕ, ◌+◌, ◌==◌, leb, Bool, true, false, ◌&&◌, ◌||◌, List, [], ◌∷◌, ◌++◌, map, if◌then◌else◌,
}

abbrev pub Text : Type 0
Text = List ℕ

abbrev pub codes : String → Text
codes String.[] = []
codes (String.◌∷◌ c s) = code c ∷ codes s

-- `s == t`
abbrev pub eq_text : Text → Text → Bool
eq_text [] [] = true
eq_text [] (d ∷ t) = false
eq_text (c ∷ s) [] = false
eq_text (c ∷ s) (d ∷ t) = (c == d) && eq_text s t

-- `s in (t, u, …)`
abbrev pub is_one_of : Text → List Text → Bool
is_one_of s [] = false
is_one_of s (t ∷ rest) = eq_text s t || is_one_of s rest

-- `c in s` for one code point.
abbrev pub contains : ℕ → Text → Bool
contains c [] = false
contains c (d ∷ s) = (c == d) || contains c s

-- `c.isspace()` below 128.
abbrev pub is_space : ℕ → Bool
is_space c = (leb 9 c && leb c 13) || (leb 28 c && leb c 32)

abbrev pub is_decimal : ℕ → Bool
is_decimal c = leb b'0' c && leb c b'9'

-- `s.isdigit()`
abbrev pub is_all_decimal : Text → Bool
is_all_decimal [] = true
is_all_decimal (c ∷ s) = is_decimal c && is_all_decimal s

unfoldable pub lstrip : Text → Text
lstrip [] = []
lstrip (c ∷ s) = elim (is_space c) [ true ↦ lstrip s | false ↦ c ∷ s ]

-- A code point before a text without trailing blanks.
unfoldable pub keep_space : ℕ → Text → Text
keep_space c [] = elim (is_space c) [ true ↦ [] | false ↦ c ∷ [] ]
keep_space c (d ∷ s) = c ∷ d ∷ s

unfoldable pub rstrip : Text → Text
unfolding keep_space
rstrip [] = []
rstrip (c ∷ s) = keep_space c (rstrip s)

unfoldable pub strip : Text → Text
unfolding lstrip rstrip
strip s = rstrip (lstrip s)

-- `s.lower()`
unfoldable pub lower : Text → Text
lower = map (λ c. if leb b'A' c && leb c b'Z' then c + 32 else c)

-- Put a code point before the first piece.
unfoldable pub onto_first : ℕ → List Text → List Text
onto_first c [] = (c ∷ []) ∷ []
onto_first c (piece ∷ rest) = (c ∷ piece) ∷ rest

-- `s.split(sep)`
unfoldable pub split : ℕ → Text → List Text
unfolding onto_first
split sep [] = [] ∷ []
split sep (c ∷ s) = let rest = split sep s in if c == sep then [] ∷ rest else onto_first c rest

-- `sep.join(pieces)`
unfoldable pub join : Text → List Text → Text
join sep [] = []
join sep (piece ∷ []) = piece
join sep (piece ∷ rest) = piece ++ (sep ++ join sep rest)

-- `s.split(sep, 1)` of a text that contains the separator.
unfoldable pub split_once : ℕ → Text → Text × Text
split_once sep [] = ([], [])
split_once sep (c ∷ s) =
    let rest = split_once sep s in if c == sep then ([], s) else (c ∷ rest.0, rest.1)
