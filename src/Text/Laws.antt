-- ===== src/Text/Laws.antt =====
-- Printed numbers under `int(s, 0)`.
use pymod.Prelude.{
  ℕ, zero, suc, ◌-◌, ◌≤◌, ◌<◌, ◌≡◌, refl, ap, ◌∙◌, arith, Bool, true, false, none, some, [], ◌∷◌,
  ◌++◌, length, replicate, ◌==◌, Bool-cases, All, All-append, All-replicate, inl, inr,
}
use pymod.Prelude.Int.{ℤ, pos, negsuc}
use pymod.Errors.{ok}
use pymod.Text.{Text, is_space, lstrip, keep_space, rstrip, strip}
use pymod.Text.Ints.{
  digit_value, digit_in, scan, scan_prefixed, after_zero, magnitude, signed, negate, read_int,
  int_auto, digit_char, digits, str_int, hex,
}
use pymod.Text.Digits.{render_head, scan-digits, All-render}
use pymod.Text.Split.{Without}

abbrev pub NoSpace : ℕ → Type 0
NoSpace c = is_space c ≡ false

lstrip_id : (s : Text) → All NoSpace s → lstrip s ≡ s
unfolding lstrip
lstrip_id [] h = refl
lstrip_id (c ∷ s) h = rw (lstrip, h.0) refl

rstrip_id : (s : Text) → All NoSpace s → rstrip s ≡ s
unfolding rstrip keep_space
rstrip_id [] h = refl
rstrip_id (c ∷ []) h = rw (rstrip, keep_space, h.0) refl
rstrip_id (c ∷ d ∷ s) h = rw (rstrip, rstrip_id (d ∷ s) h.1) refl

pub strip_id : (s : Text) → All NoSpace s → strip s ≡ s
unfolding strip
strip_id s h = rw (lstrip_id s h) (rstrip_id s h)

digit_char-NoSpace : (d : ℕ) → d < 16 → NoSpace (digit_char d)
unfolding digit_char
digit_char-NoSpace d h = ground arith

digits-NoSpace : (base n : ℕ) → 2 ≤ base → base ≤ 16 → All NoSpace (digits base n)
unfolding digits
digits-NoSpace base n h2 hb =
    All-render NoSpace base (λ d h. digit_char-NoSpace d (omega arith)) h2 (suc n) n [] tt

magnitude_nonzero :
    (s rest : Text) (d : ℕ)
    → s ≡ digit_char d ∷ rest
    → 0 < d
    → d < 10
    → magnitude s ≡ scan 10 true 0 s
unfolding magnitude digit_char
magnitude_nonzero s rest d e p q = rw (e, magnitude) (ground arith)

magnitude_zero : magnitude (b'0' ∷ []) ≡ some 0
unfolding magnitude after_zero
magnitude_zero = refl

magnitude-digits : (n : ℕ) → magnitude (digits 10 n) ≡ some n
unfolding digits
magnitude-digits zero = magnitude_zero
magnitude-digits (suc n) =
    let (d, rest, p, q, e) =
      render_head 10 (suc (suc n)) (suc n) [] (omega arith) (omega arith) (omega arith) in
    magnitude_nonzero (digits 10 (suc n)) rest d e p q
    ∙ scan-digits 10 (suc n) true (omega arith) (omega arith)

digits_head : (n : ℕ) → (d : ℕ) × (rest : Text) × (d < 10) × (digits 10 n ≡ digit_char d ∷ rest)
unfolding digits digit_char
digits_head zero = (0, [], omega arith, refl)
digits_head (suc n) =
    let (d, rest, p, q, e) =
      render_head 10 (suc (suc n)) (suc n) [] (omega arith) (omega arith) (omega arith) in
    (d, rest, q, e)

digit_char-unsigned :
    (d : ℕ) → d < 10 → ((digit_char d == b'-') ≡ false) × ((digit_char d == b'+') ≡ false)
unfolding digit_char
digit_char-unsigned d h = (ground arith, ground arith)

read_int_unsigned :
    (s rest : Text) (d : ℕ)
    → s ≡ digit_char d ∷ rest
    → d < 10
    → read_int s ≡ signed pos (magnitude s)
unfolding read_int
read_int_unsigned s rest d e q =
    rw (e, read_int, (digit_char-unsigned d q).0, (digit_char-unsigned d q).1) refl

read_int_negative : (n : ℕ) → read_int (b'-' ∷ digits 10 (suc n)) ≡ ok (negsuc n)
unfolding read_int signed negate
read_int_negative n = rw (read_int, magnitude-digits (suc n)) refl

read_int-str_int : (z : ℤ) → read_int (str_int z) ≡ ok z
unfolding str_int signed
read_int-str_int (pos n) =
    let (d, rest, q, e) = digits_head n in
    read_int_unsigned (digits 10 n) rest d e q ∙ ap (signed pos) (magnitude-digits n)
read_int-str_int (negsuc n) = read_int_negative n

pub str_int-NoSpace : (z : ℤ) → All NoSpace (str_int z)
unfolding str_int
str_int-NoSpace (pos n) = digits-NoSpace 10 n (omega arith) (omega arith)
str_int-NoSpace (negsuc n) = (refl, digits-NoSpace 10 (suc n) (omega arith) (omega arith))

-- A printed integer is read back.
pub int_auto-str_int : (z : ℤ) → int_auto (str_int z) ≡ ok z
unfolding int_auto
int_auto-str_int z = rw (strip_id (str_int z) (str_int-NoSpace z)) (read_int-str_int z)

scan-zeros :
    (k : ℕ) (need : Bool) (s : Text) (n : ℕ)
    → ((m : Bool) → scan 16 m 0 s ≡ some n)
    → scan 16 need 0 (replicate k b'0' ++ s) ≡ some n
unfolding scan digit_in digit_value
scan-zeros zero need s n h = h need
scan-zeros (suc k) need s n h = scan-zeros k false s n h

pub scan-hex : (width n : ℕ) → scan 16 true 0 (hex width n) ≡ some n
unfolding hex
scan-hex width n =
    scan-zeros (width - length (digits 16 n)) true (digits 16 n) n
      (λ m. scan-digits 16 n m (omega arith) (omega arith))

scan_underscore : (base c : ℕ) (s : Text) → (c == b'_') ≡ true → scan base true 0 (c ∷ s) ≡ none
unfolding scan
scan_underscore base c s y = rw (scan, y) refl

scan_prefixed-eq :
    (base : ℕ) (s : Text) (n : ℕ) → scan base true 0 s ≡ some n → scan_prefixed base s ≡ some n
unfolding scan_prefixed scan
scan_prefixed-eq base [] n h = ground arith
scan_prefixed-eq base (c ∷ s) n h = elim (Bool-cases (c == b'_')) [
  | inl y ↦ absurd (ground (arith, scan_underscore base c s y))
  | inr k ↦ rw (scan_prefixed, k) h
]

hex-NoSpace : (width n : ℕ) → All NoSpace (hex width n)
unfolding hex
hex-NoSpace width n =
    All-append NoSpace (replicate (width - length (digits 16 n)) b'0') (digits 16 n)
      (All-replicate NoSpace (width - length (digits 16 n)) b'0' refl)
      (digits-NoSpace 16 n (omega arith) (omega arith))

-- A hexadecimal display is read back, whatever the width of its padding.
pub int_auto-hex : (width n : ℕ) → int_auto (b'0' ∷ b'x' ∷ hex width n) ≡ ok (pos n)
unfolding int_auto read_int magnitude after_zero signed
int_auto-hex width n =
    rw
      (
        strip_id (b'0' ∷ b'x' ∷ hex width n) (refl, (refl, hex-NoSpace width n)),
        read_int,
        magnitude,
        after_zero,
        scan_prefixed-eq 16 (hex width n) n (scan-hex width n),
      )
      refl

digit_char-not_comma : (d : ℕ) → d < 10 → (digit_char d == b',') ≡ false
unfolding digit_char
digit_char-not_comma d h = ground arith

digits-Without_comma : (n : ℕ) → Without b',' (digits 10 n)
unfolding digits
digits-Without_comma n =
    All-render (λ c. (c == b',') ≡ false) 10 digit_char-not_comma (omega arith) (suc n) n [] tt

pub str_int-Without_comma : (z : ℤ) → Without b',' (str_int z)
unfolding str_int digits
str_int-Without_comma (pos n) = digits-Without_comma n
str_int-Without_comma (negsuc n) = (refl, digits-Without_comma (suc n))

pub str_int-filled : (z : ℤ) → (c : ℕ) × (rest : Text) × (str_int z ≡ c ∷ rest)
unfolding str_int
str_int-filled (pos n) = let (d, rest, _, e) = digits_head n in (digit_char d, rest, e)
str_int-filled (negsuc n) = (b'-', digits 10 (suc n), refl)
