-- ===== src/Text/Digits.antt =====
-- The digits that `Text.Ints` renders, in bases up to 16, and the reading of them.
use pymod.Prelude.{
  ℕ, zero, suc, ◌+◌, ◌*◌, ◌/◌, ◌%◌, ◌≤◌, ◌<◌, ◌≡◌, refl, ap, arith, Bool, false, some, [], ◌∷◌, ltb,
  ltb→lt, ◌==◌, Bool-cases, All, inl, inr,
}
use native.Mathlib.Nat.{mod-lt, mod-eq_of_lt, div-add-mod', div-lt_self, le-div_iff_mul-le}
use pymod.Text.{Text}
use pymod.Text.Ints.{digit_value, digit_in, scan, digit_char, render, digits}

digit_in-digit_char : (base d : ℕ) → d < base → base ≤ 16 → digit_in base (digit_char d) ≡ some d
unfolding digit_in digit_value digit_char
digit_in-digit_char base d h hb = ground arith

digit_char-plain : (d : ℕ) → d < 16 → (digit_char d == b'_') ≡ false
unfolding digit_char
digit_char-plain d h = ground arith

scan-digit_char :
    (base : ℕ) (need : Bool) (acc d : ℕ) (s : Text)
    → d < base
    → base ≤ 16
    → scan base need acc (digit_char d ∷ s) ≡ scan base false (acc * base + d) s
unfolding scan
scan-digit_char base need acc d s h hb =
    rw (scan, digit_char-plain d (omega arith), digit_in-digit_char base d h hb) refl

-- Reading the digits of `n` and then `out` is reading `out` from `n` on.
scan-render :
    (base fuel n : ℕ) (need : Bool) (out : Text)
    → n < fuel
    → 2 ≤ base
    → base ≤ 16
    → scan base need 0 (render base fuel n out) ≡ scan base false n out
unfolding render
scan-render base zero n need out h h2 hb = absurd (omega arith)
scan-render base (suc fuel) n need out h h2 hb = elim (Bool-cases (ltb n base)) [
  | inl y ↦
      rw
        (
          render,
          y,
          mod-eq_of_lt (ltb→lt n base y),
          scan-digit_char base need 0 n out (ltb→lt n base y) hb,
        )
        (ap (λ m. scan base false m out) (omega arith))
  | inr k ↦
      rw
        (
          render,
          k,
          scan-render base fuel (n / base) need (digit_char (n % base) ∷ out)
              (omega (arith, div-lt_self {n = n} {k = base} (ground arith) h2)) h2 hb,
          scan-digit_char base false (n / base) (n % base) out (mod-lt n (omega arith)) hb,
        )
        (ap (λ m. scan base false m out) (div-add-mod' n base))
]

not_lt : (a b : ℕ) → ltb a b ≡ false → b ≤ a
not_lt a b h = ground arith

-- The digits of a positive number begin with a digit that is not zero.
pub render_head :
    (base fuel n : ℕ) (out : Text)
    → 0 < n
    → n < fuel
    → 2 ≤ base
    → (d : ℕ) × (rest : Text) × (0 < d)
      × (d < base)
      × (render base fuel n out ≡ digit_char d ∷ rest)
unfolding render
render_head base zero n out h0 h h2 = absurd (omega arith)
render_head base (suc fuel) n out h0 h h2 = elim (Bool-cases (ltb n base)) [
  | inl y ↦ (n, out, h0, ltb→lt n base y, rw (render, y, mod-eq_of_lt (ltb→lt n base y)) refl)
  | inr k ↦
      let (d, rest, p, q, e) =
        render_head base fuel (n / base) (digit_char (n % base) ∷ out)
          ((le-div_iff_mul-le {k = base} {x = 1} {y = n} (omega arith)).1
            (omega (arith, not_lt n base k)))
          (omega (arith, div-lt_self {n = n} {k = base} h0 h2)) h2 in
      (d, rest, p, q, rw (render, k, e) refl)
]

pub scan-digits :
    (base n : ℕ) (need : Bool) → 2 ≤ base → base ≤ 16 → scan base need 0 (digits base n) ≡ some n
unfolding digits scan
scan-digits base n need h2 hb = scan-render base (suc n) n need [] (omega arith) h2 hb

module _ (P : ℕ → Type 0) (base : ℕ) (digit : (d : ℕ) → d < base → P (digit_char d))
    (h2 : 2 ≤ base) where
  pub All-render : (fuel n : ℕ) (out : Text) → All P out → All P (render base fuel n out)
  unfolding render
  All-render zero n out h = h
  All-render (suc fuel) n out h = elim (Bool-cases (ltb n base)) [
    | inl y ↦ rw (render, y) (digit (n % base) (mod-lt n (omega arith)), h)
    | inr k ↦
        rw (render, k)
          (All-render fuel (n / base) (digit_char (n % base) ∷ out)
            (digit (n % base) (mod-lt n (omega arith)), h))
  ]
