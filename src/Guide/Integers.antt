-- ===== src/Guide/Integers.antt =====
-- What `_ask_int` of src/pymod/_guide.py returns, told by the lines that are typed alone.
use pymod.Prelude.{
  ◌≡◌, ◌≢◌, refl, sym, ap, ◌∙◌, arith, Bool-cases, leb→le, le→leb, inl, inr, Option, none, some,
  Option-cases, List, [], ◌∷◌,
}
use mathlib.Core.Path.{subst}
use pymod.Prelude.Int.{ℤ, leb_ℤ, ◌≤ℤ◌}
use pymod.Text.{Text, strip}
use pymod.Text.Ints.{int_auto, str_int}
use pymod.Errors.{Result, Result-cases, ok, err}
use pymod.Guide.{line_or, check_int, ask_int, map_option}
use pymod.Guide.Laws.{accept, first_accepted, ask_int-first_accepted}

-- What a line enters: its text without the white space around it, or the default's digits when nothing
-- else is on it.
pub data Enters (default : Option ℤ) (raw : Text) : Text → Type 0 where
  typed : strip raw ≢ [] → Enters default raw (strip raw)
  blank : (d : ℤ) → strip raw ≡ [] → default ≡ some d → Enters default raw (str_int d)

abbrev pub AtLeast : Option ℤ → ℤ → Type 0
AtLeast none z = Unit
AtLeast (some low) z = low ≤ℤ z

-- The line enters a text that Python's `int(text, 0)` reads as `z`, which is not below the minimum.
abbrev pub Accepts : Option ℤ → Option ℤ → Text → ℤ → Type 0
Accepts default minimum raw z =
    (text : Text) × Enters default raw text × (int_auto text ≡ ok z) × AtLeast minimum z

abbrev pub Refuses : Option ℤ → Option ℤ → Text → Type 0
Refuses default minimum raw = (z : ℤ) → ¬ Accepts default minimum raw z

-- The answer of the first line that is not refused, or none where every line is.
pub data FirstAnswer (default minimum : Option ℤ)
    : List Text → Option (ℤ × List Text) → Type 0 where
  nothing : FirstAnswer default minimum [] none
  taken :
      (raw : Text) (rest : List Text) (z : ℤ)
      → Accepts default minimum raw z
      → FirstAnswer default minimum (raw ∷ rest) (some (z, rest))
  refused :
      (raw : Text) (rest : List Text) (answer : Option (ℤ × List Text))
      → Refuses default minimum raw
      → FirstAnswer default minimum rest answer
      → FirstAnswer default minimum (raw ∷ rest) answer

some_inj {ℓ} : {A : Type ℓ} {x y : A} → ◌≡◌ {A = Option A} (some x) (some y) → x ≡ y
some_inj {x = x} h = ap (λ o. elim o [ none ↦ x | some z ↦ z ]) h

ok_inj {ℓ} : {A : Type ℓ} {x y : A} → ◌≡◌ {A = Result A} (ok x) (ok y) → x ≡ y
ok_inj {x = x} h = ap (λ o. elim o [ ok z ↦ z | err e ↦ x ]) h

-- The value of a text, if it is an integer that is not below the minimum.
module _ (minimum : Option ℤ) (text : Text) where
  check_int_sound :
      (z : ℤ) → check_int minimum text ≡ some z → (int_auto text ≡ ok z) × AtLeast minimum z
  unfolding check_int
  check_int_sound z h = elim (Result-cases (int_auto text)) [
    | inr (e, x) ↦ ground (arith, x)
    | inl (v, x) ↦ by_minimum minimum refl v x
  ]
    where
      by_minimum :
          (m : Option ℤ)
          → minimum ≡ m
          → (v : ℤ) → int_auto text ≡ ok v
          → (int_auto text ≡ ok z) × AtLeast minimum z
      by_minimum none e v x =
          let same : v ≡ z = some_inj (sym (rw (check_int, x, e) refl) ∙ h) in
          (x ∙ ap ok same, rw e tt)
      by_minimum (some low) e v x = elim (Bool-cases (leb_ℤ low v)) [
        | inl y ↦
            let same : v ≡ z = some_inj (sym (rw (check_int, x, e, y) refl) ∙ h) in
            (x ∙ ap ok same, rw e (subst (λ (k : ℤ). low ≤ℤ k) same (leb→le _ _ y)))
        | inr n ↦
            let none_some : none ≡ some z = sym (rw (check_int, x, e, n) refl) ∙ h in
            ground (arith, none_some)
      ]

  check_int_complete :
      (z : ℤ) → int_auto text ≡ ok z → AtLeast minimum z → check_int minimum text ≡ some z
  unfolding check_int
  check_int_complete z x h = by_minimum minimum refl
    where
      by_minimum : (m : Option ℤ) → minimum ≡ m → check_int minimum text ≡ some z
      by_minimum none e = rw (check_int, x, e) refl
      by_minimum (some low) e =
          let bound : low ≤ℤ z = subst (λ (m : Option ℤ). AtLeast m z) e h in
          rw (check_int, x, e, le→leb _ _ bound) refl

-- The text that a line enters, for the prompt.
module _ (default : Option ℤ) (raw : Text) where
  line_or_sound :
      (text : Text)
      → line_or (map_option str_int default) (strip raw) ≡ some text
      → Enters default raw text
  unfolding line_or
  line_or_sound text h = by_line (strip raw) refl
    where
      by_default : (o : Option ℤ) → default ≡ o → strip raw ≡ [] → Enters default raw text
      by_default none e l =
          let none_some : none ≡ some text = sym (rw (line_or, l, e) refl) ∙ h in
          ground (arith, none_some)
      by_default (some d) e l =
          subst (Enters default raw) (some_inj (sym (rw (line_or, l, e) refl) ∙ h)) (blank d l e)

      by_line : (l : Text) → strip raw ≡ l → Enters default raw text
      by_line [] e = by_default default refl e
      by_line (c ∷ cs) e =
          let whole : line_or (map_option str_int default) (strip raw) ≡ some (strip raw) =
            rw (line_or, e) refl in
          subst (Enters default raw) (some_inj (sym whole ∙ h))
            (typed λ n. ground (arith, sym e ∙ n))

  line_or_complete :
      (text : Text)
      → Enters default raw text
      → line_or (map_option str_int default) (strip raw) ≡ some text
  unfolding line_or
  line_or_complete _ (typed ne) = by_line (strip raw) refl
    where
      by_line :
          (l : Text)
          → strip raw ≡ l
          → line_or (map_option str_int default) (strip raw) ≡ some (strip raw)
      by_line [] e = absurd (ne e)
      by_line (c ∷ cs) e = rw (line_or, e) refl
  line_or_complete _ (blank d l e) = rw (line_or, l, e) refl

  module _ (minimum : Option ℤ) where
    abbrev value_of : Option ℤ
    value_of = accept (map_option str_int default) (check_int minimum) raw

    accept_sound : (z : ℤ) → value_of ≡ some z → Accepts default minimum raw z
    accept_sound z h = elim (Option-cases (line_or (map_option str_int default) (strip raw))) [
      | inl x ↦
          let none_some : none ≡ some z = sym (rw (accept, x) refl) ∙ h in ground (arith, none_some)
      | inr (text, x) ↦
          let (i, m) = check_int_sound minimum text z (sym (rw (accept, x) refl) ∙ h) in
          (text, line_or_sound text x, i, m)
    ]

    accept_complete : (z : ℤ) → Accepts default minimum raw z → value_of ≡ some z
    accept_complete z (text, e, i, m) =
        rw (accept, line_or_complete text e) (check_int_complete minimum text z i m)

    accept-Refuses : value_of ≡ none → Refuses default minimum raw
    accept-Refuses h z a =
        let none_some : none ≡ some z = sym h ∙ accept_complete z a in ground (arith, none_some)

first_accepted-FirstAnswer :
    (default minimum : Option ℤ) (lines : List Text)
    → FirstAnswer default minimum lines
        (first_accepted (map_option str_int default) (check_int minimum) lines)
first_accepted-FirstAnswer default minimum [] = nothing
first_accepted-FirstAnswer default minimum (raw ∷ rest) =
    elim (Option-cases (value_of default raw minimum)) [
      | inl x ↦
          rw (first_accepted, x)
            (refused raw rest (first_accepted (map_option str_int default) (check_int minimum) rest)
              (accept-Refuses default raw minimum x)
              (first_accepted-FirstAnswer default minimum rest))
      | inr (z, x) ↦
          rw (first_accepted, x) (taken raw rest z (accept_sound default raw minimum z x))
    ]

-- Whatever the default and the minimum, `_ask_int` returns the number of the first line that enters an
-- integer, in any base that `int(text, 0)` reads, that is not below the minimum, and leaves the lines behind
-- it; it wants for input only if no line does.
pub ask_int-FirstAnswer :
    (default minimum : Option ℤ) (lines : List Text)
    → FirstAnswer default minimum lines (ask_int default minimum lines)
ask_int-FirstAnswer default minimum lines =
    subst (FirstAnswer default minimum lines) (sym (ask_int-first_accepted default minimum lines))
      (first_accepted-FirstAnswer default minimum lines)
