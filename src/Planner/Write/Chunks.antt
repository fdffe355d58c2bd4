-- ===== src/Planner/Write/Chunks.antt =====
-- How the values of one written item are split: nothing is lost, moved or too long.
use pymod.Prelude.{
  ℕ, zero, suc, ◌+◌, ◌≤◌, ◌≡◌, ◌∙◌, refl, ap, List, [], ◌∷◌, ◌++◌, arith, length, take, drop, min,
  length-take, length-drop,
}
use pymod.Planner.Write.{split_values}

abbrev pub joined {ℓ} : {A : Type ℓ} → List (ℕ × List A) → List A
joined [] = []
joined ((addr, values) ∷ rest) = values ++ joined rest

-- Pieces of 1 to `limit` values, each at the address where the one before it ends.
abbrev pub Consecutive {ℓ} : {A : Type ℓ} → ℕ → ℕ → List (ℕ × List A) → Type 0
Consecutive limit addr [] = Unit {0}
Consecutive limit addr ((a, values) ∷ rest) =
    (a ≡ addr)
    × (1 ≤ length values)
    × (length values ≤ limit)
    × Consecutive limit (addr + length values) rest

take-append-drop {ℓ} : {A : Type ℓ} (n : ℕ) (l : List A) → take n l ++ drop n l ≡ l
take-append-drop zero l = refl
take-append-drop (suc n) [] = refl
take-append-drop {A} (suc n) (x ∷ l) = ap (λ (t : List A). x ∷ t) (take-append-drop n l)

-- With fuel for each value and a limit of at least 1, the pieces joined are the values in order,
-- and the pieces have 1 to `limit` values at consecutive addresses from `addr` on.
pub split_values_lem {ℓ} :
    {A : Type ℓ} (n limit addr : ℕ) (values : List A)
    → 1 ≤ limit
    → length values ≤ n
    → (joined (split_values n limit addr values) ≡ values)
      × Consecutive limit addr (split_values n limit addr values)
unfolding split_values
split_values_lem zero limit addr [] hl h = (refl, tt)
split_values_lem zero limit addr (v ∷ vs) hl h = absurd (omega arith)
split_values_lem (suc n) limit addr [] hl h = (refl, tt)
split_values_lem {A} (suc n) limit addr (v ∷ vs) hl h =
    let size : ℕ = min limit (length (v ∷ vs)) in
    let k : length (take size (v ∷ vs)) ≡ size = omega (arith, length-take size (v ∷ vs)) in
    let (j, c) =
      split_values_lem n limit (addr + size) (drop size (v ∷ vs)) hl
        (omega (arith, length-drop size (v ∷ vs))) in
    (
      ap (λ (t : List A). take size (v ∷ vs) ++ t) j ∙ take-append-drop size (v ∷ vs),
      (refl, omega (arith, k), omega (arith, k), rw k c),
    )
