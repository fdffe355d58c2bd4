-- ===== src/Guide/Laws.antt =====
-- The loops of the prompts as a single pass over the lines, the minimum of an integer, and what is never
-- blank.
use pymod.Prelude.{
  ℕ, zero, suc, ◌≤◌, ◌≡◌, refl, sym, ap, ◌∙◌, arith, Bool, true, false, leb→le, inl, inr,
  if◌then◌else◌, Option, none, some, Option-cases, List, [], ◌∷◌, length,
}
use mathlib.Core.Path.{subst}
use pymod.Prelude.Int.{ℤ, leb_ℤ, ◌≤ℤ◌}
use pymod.Text.{Text, strip}
use pymod.Text.Ints.{int_auto, str_int}
use pymod.Errors.{Result-cases, ok}
use pymod.Cli.Items.{is_filled}
use pymod.Guide.{line_or, ask, ask_until, check_int, ask_int, map_option, Ask}

-- The value of one line: none if the prompt asks again.
abbrev pub accept {ℓ} : {A : Type ℓ} → Option Text → (Text → Option A) → Text → Option A
accept default check raw = elim (line_or default (strip raw)) [ none ↦ none | some s ↦ check s ]

-- The first line with a value, and the lines after it.
abbrev pub first_accepted {ℓ} : {A : Type ℓ} → Option Text → (Text → Option A) → Ask A
first_accepted default check [] = none
first_accepted default check (raw ∷ rest) = elim (accept default check raw) [
  | some value ↦ some (value, rest)
  | none ↦ first_accepted default check rest
]

ask_skip :
    (default : Option Text) (raw : Text) (lines : List Text)
    → line_or default (strip raw) ≡ none
    → ask default (raw ∷ lines) ≡ ask default lines
unfolding ask
ask_skip default raw lines h = rw (ask, h) refl

ask_take :
    (default : Option Text) (raw value : Text) (lines : List Text)
    → line_or default (strip raw) ≡ some value
    → ask default (raw ∷ lines) ≡ some (value, lines)
unfolding ask
ask_take default raw value lines h = rw (ask, h) refl

module _ {ℓ} {A : Type ℓ} (default : Option Text) (check : Text → Option A) where
  ask_until-none : (n : ℕ) → ask_until n default check [] ≡ none
  unfolding ask_until ask
  ask_until-none zero = refl
  ask_until-none (suc n) = refl

  ask_until_skip :
      (n : ℕ) (raw : Text) (lines : List Text)
      → line_or default (strip raw) ≡ none
      → ask_until (suc n) default check (raw ∷ lines) ≡ ask_until (suc n) default check lines
  unfolding ask_until
  ask_until_skip n raw lines h = rw (ask_until, ask_skip default raw lines h) refl

  first_accepted_lem :
      (n : ℕ) (lines : List Text)
      → length lines ≤ n
      → ask_until n default check lines ≡ first_accepted default check lines
  unfolding ask_until
  first_accepted_lem n [] h = ask_until-none n
  first_accepted_lem zero (raw ∷ lines) h = absurd (omega arith)
  first_accepted_lem (suc n) (raw ∷ lines) h = elim (Option-cases (line_or default (strip raw))) [
    | inl x ↦
        ask_until_skip n raw lines x
        ∙ rw (first_accepted, x) (first_accepted_lem (suc n) lines (omega arith))
    | inr (s, x) ↦
        rw (ask_until, ask_take default raw s lines x, first_accepted, x)
          (elim (Option-cases (check s)) [
            | inl y ↦ rw y (first_accepted_lem n lines (omega arith))
            | inr (v, y) ↦ rw y refl
          ])
  ]

-- Whatever the default and the minimum, the two nested loops of `_ask_int` return what a single pass over
-- the lines with the same test returns.
pub ask_int-first_accepted :
    (default minimum : Option ℤ) (lines : List Text)
    → ask_int default minimum lines
      ≡ first_accepted (map_option str_int default) (check_int minimum) lines
unfolding ask_int
ask_int-first_accepted default minimum lines =
    first_accepted_lem (map_option str_int default) (check_int minimum) (length lines) lines
      (omega arith)

-- The accepted number is not below the minimum.
check_int-value :
    (low z : ℤ) (raw : Text)
    → int_auto raw ≡ ok z
    → check_int (some low) raw ≡ (if leb_ℤ low z then some z else none)
unfolding check_int
check_int-value low z raw x = rw (check_int, x) refl

if_some :
    (low z value : ℤ) (b : Bool)
    → (if b then some z else none) ≡ some value
    → (b ≡ true → low ≤ℤ z)
    → low ≤ℤ value
if_some low z value true h k =
    subst (λ (m : ℤ). low ≤ℤ m) (ap (λ o. elim o [ none ↦ z | some m ↦ m ]) h) (k refl)
if_some low z value false h k = ground arith

check_int-le :
    (low : ℤ) (raw : Text) (value : ℤ) → check_int (some low) raw ≡ some value → low ≤ℤ value
unfolding check_int
check_int-le low raw value h = elim (Result-cases (int_auto raw)) [
  | inr (e, x) ↦ ground (arith, x)
  | inl (z, x) ↦
      let t : (if leb_ℤ low z then some z else none) ≡ some value =
        sym (check_int-value low z raw x) ∙ h in
      if_some low z value (leb_ℤ low z) t (leb→le _ _)
]

accept-le :
    (default : Option Text) (low value : ℤ) (raw : Text)
    → accept default (check_int (some low)) raw ≡ some value
    → low ≤ℤ value
accept-le default low value raw h = elim (Option-cases (line_or default (strip raw))) [
  | inl x ↦ ground (arith, x)
  | inr (s, x) ↦ check_int-le low s value (sym (rw (accept, x) refl) ∙ h)
]

-- The value of an answer.
taken :
    {A : Type 0} (a b : A) (lines rest : List Text)
    → ◌≡◌ {A = Option (A × List Text)} (some (a, lines)) (some (b, rest))
    → a ≡ b
taken a b lines rest h = ap (λ o. elim o [ none ↦ a | some p ↦ p.0 ]) h

first_accepted-le :
    (default : Option Text) (low value : ℤ) (lines rest : List Text)
    → first_accepted default (check_int (some low)) lines ≡ some (value, rest)
    → low ≤ℤ value
first_accepted-le default low value [] rest h = ground arith
first_accepted-le default low value (raw ∷ lines) rest h =
    elim (Option-cases (accept default (check_int (some low)) raw)) [
      | inl x ↦
          first_accepted-le default low value lines rest (sym (rw (first_accepted, x) refl) ∙ h)
      | inr (v, x) ↦
          subst (λ (m : ℤ). low ≤ℤ m)
            (taken v value lines rest (sym (rw (first_accepted, x) refl) ∙ h))
            (accept-le default low v raw x)
    ]

-- An integer that a prompt with a minimum returns is not below it.
ask_int-le :
    (default : Option ℤ) (low value : ℤ) (lines rest : List Text)
    → ask_int default (some low) lines ≡ some (value, rest)
    → low ≤ℤ value
ask_int-le default low value lines rest h =
    first_accepted-le (map_option str_int default) low value lines rest
      (sym (ask_int-first_accepted default (some low) lines) ∙ h)

-- A text that is not empty.
abbrev pub IsFilled : Text → Type 0
IsFilled s = is_filled s ≡ true

line_or-IsFilled :
    (default : Option Text) (s value : Text)
    → ((d : Text) → default ≡ some d → IsFilled d)
    → line_or default s ≡ some value
    → IsFilled value
unfolding line_or
line_or-IsFilled default [] value hd h = hd value h
line_or-IsFilled default (c ∷ s) value hd h =
    subst IsFilled (ap (λ o. elim o [ none ↦ c ∷ s | some t ↦ t ]) h) refl

-- What `_ask` returns is not empty, if the default is not.
pub ask-IsFilled :
    (default : Option Text) (value : Text) (lines rest : List Text)
    → ((d : Text) → default ≡ some d → IsFilled d)
    → ask default lines ≡ some (value, rest)
    → IsFilled value
unfolding ask
ask-IsFilled default value [] rest hd h = ground arith
ask-IsFilled default value (raw ∷ lines) rest hd h =
    elim (Option-cases (line_or default (strip raw))) [
      | inl x ↦ ask-IsFilled default value lines rest hd (sym (ask_skip default raw lines x) ∙ h)
      | inr (v, x) ↦
          subst IsFilled (taken v value lines rest (sym (ask_take default raw v lines x) ∙ h))
            (line_or-IsFilled default (strip raw) v hd x)
    ]
