-- ===== src/Planner/Ranges/Split.antt =====
-- Splitting merged ranges into chunks.
use pymod.Prelude.{
  ℕ, zero, suc, ◌+◌, ◌-◌, ◌≤◌, ◌≡◌, ◌∙◌, refl, sym, ap, inl, inr, Bool, false, ◌||◌, List, [], ◌∷◌,
  ◌++◌, arith, ltb, min, Bool-cases, ltb→lt,
}
use pymod.Types.{Area}
use pymod.Planner.Ranges.{ReadChunk, read_limit, split_loop, split_ranges}
use pymod.Planner.Ranges.Merge.{in_range, covered, Apart}

abbrev pub chunk_covers : ℕ → ReadChunk → Bool
chunk_covers x c = in_range x (c.start, c.start + c.count)

abbrev pub any_covers : ℕ → List ReadChunk → Bool
any_covers x [] = false
any_covers x (c ∷ rest) = chunk_covers x c || any_covers x rest

-- Chunks of one area, in ascending order from `lo` on and disjoint, each within the limit.
abbrev pub Chunks : Area → ℕ → List ReadChunk → Type 0
Chunks area lo [] = Unit
Chunks area lo (c ∷ rest) =
    (c.area ≡ area)
    × (lo ≤ c.start)
    × (1 ≤ c.count)
    × (c.count ≤ read_limit area)
    × Chunks area (c.start + c.count) rest

pub Chunks-weaken :
    (area : Area) (lo hi : ℕ) (l : List ReadChunk) → lo ≤ hi → Chunks area hi l → Chunks area lo l
Chunks-weaken area lo hi [] h c = tt
Chunks-weaken area lo hi (x ∷ l) h c = (c.0, omega arith, c.2, c.3, c.4)

pub read_limit_pos : (area : Area) → 1 ≤ read_limit area
unfolding read_limit
read_limit_pos Area.coil = omega arith
read_limit_pos _ = omega arith

split_loop-Chunks :
    (fuel : ℕ) (area : Area) (cur e : ℕ) (tail : List ReadChunk)
    → cur ≤ e
    → Chunks area e tail
    → Chunks area cur (split_loop fuel area (read_limit area) cur e ++ tail)
unfolding split_loop
split_loop-Chunks zero area cur e tail h t = Chunks-weaken area cur e tail h t
split_loop-Chunks (suc fuel) area cur e tail h t = elim (Bool-cases (ltb cur e)) [
  | inr n ↦ rw n (Chunks-weaken area cur e tail h t)
  | inl k ↦
      let c = ltb→lt cur e k in
      let p = read_limit_pos area in
      let m = min (cur + read_limit area) e in
      rw k (
        refl,
        omega arith,
        omega arith,
        omega arith,
        Chunks-weaken area (cur + (m - cur)) m _ (omega arith)
            (split_loop-Chunks fuel area m e tail (omega arith) t),
      )
]

-- The two parts of a range that is cut at `m`.
cut_range :
    (x cur m e : ℕ)
    → cur ≤ m
    → m ≤ e
    → (in_range x (cur, cur + (m - cur)) || in_range x (m, e)) ≡ in_range x (cur, e)
cut_range x cur m e h k = ground arith

empty_range : (x cur e : ℕ) → e ≤ cur → in_range x (cur, e) ≡ false
empty_range x cur e h = ground arith

-- Enough fuel covers the range.
any_covers-split_loop :
    (fuel : ℕ) (area : Area) (x cur e : ℕ)
    → e ≤ cur + fuel
    → any_covers x (split_loop fuel area (read_limit area) cur e) ≡ in_range x (cur, e)
unfolding split_loop
any_covers-split_loop zero area x cur e h = sym (empty_range x cur e (omega arith))
any_covers-split_loop (suc fuel) area x cur e h = elim (Bool-cases (ltb cur e)) [
  | inr n ↦ rw n (sym (empty_range x cur e (ground arith)))
  | inl k ↦
      let c = ltb→lt cur e k in
      let p = read_limit_pos area in
      let m = min (cur + read_limit area) e in
      rw k (
        ap (λ (b : Bool). in_range x (cur, cur + (m - cur)) || b)
          (any_covers-split_loop fuel area x m e (omega arith))
        ∙ cut_range x cur m e (omega arith) (omega arith))
]

any_covers-append :
    (x : ℕ) (l m : List ReadChunk) → any_covers x (l ++ m) ≡ (any_covers x l || any_covers x m)
any_covers-append x [] m = refl
any_covers-append x (c ∷ l) m = ground (arith, any_covers-append x l m)

pub any_covers-split_ranges :
    (area : Area) (x : ℕ) (l : List (ℕ × ℕ)) → any_covers x (split_ranges area l) ≡ covered x l
unfolding split_ranges
any_covers-split_ranges area x [] = refl
any_covers-split_ranges area x ((s, e) ∷ l) =
    any_covers-append x (split_loop (e - s) area (read_limit area) s e) (split_ranges area l)
    ∙ ground (
      arith,
      any_covers-split_loop (e - s) area x s e (omega arith),
      any_covers-split_ranges area x l,
    )

pub split_ranges-Chunks :
    (area : Area) (lo : ℕ) (l : List (ℕ × ℕ)) → Apart lo l → Chunks area lo (split_ranges area l)
unfolding split_ranges
split_ranges-Chunks area lo [] a = tt
split_ranges-Chunks area lo ((s, e) ∷ l) (h, k, a) = Chunks-weaken area lo s _ h (
    split_loop-Chunks (e - s) area s e (split_ranges area l) (omega arith)
      (Chunks-weaken area e (suc e) _ (omega arith) (split_ranges-Chunks area (suc e) l a)))
