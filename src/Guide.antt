-- ===== src/Guide.antt =====
-- The prompts of src/pymod/_guide.py. The input is the list of the lines that are typed; Ctrl-C, or its
-- end, is `none`. What is shown is left out, but for the equivalent command of `Guide.Preview`.
pub mod Choices
pub mod Wizard
pub mod Preview
pub mod Laws
pub mod Integers
pub mod Complete
pub mod Runs
use pymod.Prelude.{
  ℕ, zero, suc, ◌+◌, ◌-◌, ◌*◌, Bool, true, false, Option, none, some, List, [], ◌∷◌, length,
  if◌then◌else◌, get_elem?,
}
use pymod.Prelude.Int.{ℤ, leb_ℤ}
use pymod.Errors.{Result, ok, err}
use pymod.Text.{Text, codes, eq_text, is_one_of, is_all_decimal, lower, strip}
use pymod.Text.Ints.{int_auto, str_int}

-- What a prompt does with the lines that are left.
abbrev pub Ask {ℓ} : Type ℓ → Type ℓ
Ask A = List Text → Option (A × List Text)

abbrev pub answer {ℓ} : {A : Type ℓ} → A → Ask A
answer a lines = some (a, lines)

infixl 5 ◌>>=◌
unfoldable pub ◌>>=◌ {κ ℓ} : {X : Type κ} {Y : Type ℓ} → Ask X → (X → Ask Y) → Ask Y
(first >>= next) lines = elim (first lines) [ none ↦ none | some (x, rest) ↦ next x rest ]

-- The value of a stripped line for `_ask`: itself, or the default of a blank one.
unfoldable pub line_or : Option Text → Text → Option Text
line_or default [] = default
line_or default (c ∷ s) = some (c ∷ s)

-- `_ask`
unfoldable pub ask : Option Text → Ask Text
unfolding line_or
ask default [] = none
ask default (raw ∷ rest) = elim (line_or default (strip raw)) [
  | some value ↦ some (value, rest)
  | none ↦ ask default rest
]

-- The loop of `_ask_int` and of `_ask_float` around `_ask`: `n` rounds.
unfoldable pub ask_until {ℓ} : {A : Type ℓ} → ℕ → Option Text → (Text → Option A) → Ask A
unfolding ask
ask_until zero default check lines = none
ask_until (suc n) default check lines = elim (ask default lines) [
  | none ↦ none
  | some (raw, rest) ↦ elim (check raw) [
    | some value ↦ some (value, rest)
    | none ↦ ask_until n default check rest
  ]
]

-- `int(raw, 0)`, if it is one and not below the minimum.
unfoldable pub check_int : Option ℤ → Text → Option ℤ
check_int minimum raw = elim (int_auto raw) [
  | err e ↦ none
  | ok value ↦ elim minimum [
    | none ↦ some value
    | some low ↦ if leb_ℤ low value then some value else none
  ]
]

abbrev pub map_option {κ ℓ} : {A : Type κ} {B : Type ℓ} → (A → B) → Option A → Option B
map_option f none = none
map_option f (some a) = some (f a)

-- Every round takes a line, so that there are as many rounds as lines at most.
unfoldable pub ask_int : Option ℤ → Option ℤ → Ask ℤ
unfolding ask_until check_int
ask_int default minimum lines =
    ask_until (length lines) (map_option str_int default) (check_int minimum) lines

-- `float(raw)` is a parameter, as the default's text is.
unfoldable pub ask_float : {F : Type 0} → (Text → Result F) → Text → Ask F
unfolding ask_until
ask_float to_float default lines =
    ask_until (length lines) (some default)
      (λ raw. elim (to_float raw) [ err e ↦ none | ok x ↦ some x ]) lines

-- The answer that a stripped line gives.
unfoldable pub yes_or_no : Bool → Text → Option Bool
yes_or_no default [] = some default
yes_or_no default (c ∷ s) =
    if is_one_of (lower (c ∷ s)) (codes "y" ∷ codes "yes" ∷ [])
    then some true
    else if is_one_of (lower (c ∷ s)) (codes "n" ∷ codes "no" ∷ [])
    then some false
    else none

unfoldable pub ask_yes_no : Bool → Ask Bool
unfolding yes_or_no
ask_yes_no default [] = none
ask_yes_no default (raw ∷ rest) = elim (yes_or_no default (strip raw)) [
  | some value ↦ some (value, rest)
  | none ↦ ask_yes_no default rest
]

-- `int(raw)` of decimal digits.
unfoldable pub decimal : ℕ → Text → ℕ
decimal n [] = n
decimal n (c ∷ s) = decimal (n * 10 + (c - 48)) s

module _ {ℓ} {A : Type ℓ} where
  -- `for value, _ in choices: if raw == value`
  unfoldable pub find_choice : List (Text × A) → Text → Option A
  find_choice [] raw = none
  find_choice ((name, value) ∷ rest) raw =
      let later = find_choice rest raw in if eq_text raw name then some value else later

  abbrev second : Option (Text × A) → Option A
  second none = none
  second (some (name, value)) = some value

  -- `choices[int(raw) - 1]`, when there is one.
  unfoldable pub numbered : List (Text × A) → ℕ → Option A
  numbered choices zero = none
  numbered choices (suc i) = second (get_elem? choices i)

  -- The number of a choice goes before its name.
  unfoldable pub select : List (Text × A) → A → Text → Option A
  unfolding find_choice numbered decimal
  select choices default [] = some default
  select choices default (c ∷ s) =
      if is_all_decimal (c ∷ s)
      then elim (numbered choices (decimal 0 (c ∷ s))) [
        | some value ↦ some value
        | none ↦ find_choice choices (c ∷ s)
      ]
      else find_choice choices (c ∷ s)

  -- `default` is the value of the choice at `default_index`, the first one in every call.
  unfoldable pub ask_choice : List (Text × A) → A → Ask A
  unfolding select
  ask_choice choices default [] = none
  ask_choice choices default (raw ∷ rest) = elim (select choices default (strip raw)) [
    | some value ↦ some (value, rest)
    | none ↦ ask_choice choices default rest
  ]
