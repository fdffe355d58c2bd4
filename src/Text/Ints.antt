-- ===== src/Text/Ints.antt =====
-- `int(s, 0)` and the formats `{n}`, `{n:0wX}` that src/pymod/cli.py uses. Python's limit of 4300
-- decimal digits is not modelled.
use pymod.Prelude.{
  ℕ, zero, suc, ◌+◌, ◌-◌, ◌*◌, ◌/◌, ◌%◌, ◌==◌, ltb, leb, Bool, true, false, ◌&&◌, ◌||◌, Option,
  none, some, [], ◌∷◌, ◌++◌, length, replicate, if◌then◌else◌,
}
use pymod.Prelude.Int.{ℤ, pos, negsuc}
use pymod.Errors.{Result, ok, err, value_error}
use pymod.Text.{Text, strip}

-- The value of a digit of any base up to 36.
unfoldable pub digit_value : ℕ → Option ℕ
digit_value c =
    if leb b'0' c && leb c b'9'
    then some (c - 48)
    else if leb b'A' c && leb c b'Z'
    then some (c - 55)
    else if leb b'a' c && leb c b'z'
    then some (c - 87)
    else none

-- A digit as the number `acc` goes on; none when it is no digit of the base.
unfoldable pub digit_in : ℕ → ℕ → Option ℕ
unfolding digit_value
digit_in base c = elim (digit_value c) [
  | none ↦ none
  | some d ↦ if ltb d base then some d else none
]

-- The digits from `acc` on; `need` says that the next character must be a digit.
unfoldable pub scan : ℕ → Bool → ℕ → Text → Option ℕ
unfolding digit_in
scan base need acc [] = if need then none else some acc
scan base need acc (c ∷ s) = elim (c == b'_') [
  | true ↦ elim need [ true ↦ none | false ↦ scan base true acc s ]
  | false ↦ elim (digit_in base c) [ none ↦ none | some d ↦ scan base false (acc * base + d) s ]
]

-- After a prefix, where one underscore may stand.
unfoldable pub scan_prefixed : ℕ → Text → Option ℕ
unfolding scan
scan_prefixed base [] = none
scan_prefixed base (c ∷ s) = elim (c == b'_') [
  | true ↦ scan base true 0 s
  | false ↦ scan base true 0 (c ∷ s)
]

-- A decimal number that begins with a zero is zero.
unfoldable pub only_zero : Option ℕ → Option ℕ
only_zero none = none
only_zero (some n) = if n == 0 then some n else none

-- What follows a leading zero.
unfoldable pub after_zero : Text → Option ℕ
unfolding scan scan_prefixed only_zero
after_zero [] = some 0
after_zero (c ∷ s) =
    if (c == b'x') || (c == b'X')
    then scan_prefixed 16 s
    else if (c == b'o') || (c == b'O')
    then scan_prefixed 8 s
    else if (c == b'b') || (c == b'B')
    then scan_prefixed 2 s
    else only_zero (scan 10 false 0 (c ∷ s))

unfoldable pub magnitude : Text → Option ℕ
unfolding after_zero
magnitude [] = none
magnitude (c ∷ s) = if c == b'0' then after_zero s else scan 10 true 0 (c ∷ s)

unfoldable pub negate : ℕ → ℤ
negate zero = pos 0
negate (suc n) = negsuc n

unfoldable pub signed : (ℕ → ℤ) → Option ℕ → Result ℤ
signed sign none = err value_error
signed sign (some n) = ok (sign n)

unfoldable pub read_int : Text → Result ℤ
unfolding magnitude signed negate
read_int [] = err value_error
read_int (c ∷ s) =
    if c == b'-'
    then signed negate (magnitude s)
    else if c == b'+'
    then signed pos (magnitude s)
    else signed pos (magnitude (c ∷ s))

-- `int(s, 0)`
unfoldable pub int_auto : Text → Result ℤ
unfolding read_int
int_auto s = read_int (strip s)

-- The digits of the hexadecimal format are upper case.
unfoldable pub digit_char : ℕ → ℕ
digit_char d = if ltb d 10 then 48 + d else 55 + d

-- The digits of `n` before `out`; the fuel exceeds `n`.
unfoldable pub render : ℕ → ℕ → ℕ → Text → Text
unfolding digit_char
render base zero n out = out
render base (suc fuel) n out =
    let out' = digit_char (n % base) ∷ out in
    elim (ltb n base) [ true ↦ out' | false ↦ render base fuel (n / base) out' ]

unfoldable pub digits : ℕ → ℕ → Text
unfolding render
digits base n = render base (suc n) n []

-- `str(z)`
unfoldable pub str_int : ℤ → Text
unfolding digits
str_int (pos n) = digits 10 n
str_int (negsuc n) = b'-' ∷ digits 10 (suc n)

-- `f"{n:0{width}X}"`
unfoldable pub hex : ℕ → ℕ → Text
unfolding digits
hex width n = replicate (width - length (digits 16 n)) b'0' ++ digits 16 n
