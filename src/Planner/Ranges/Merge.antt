-- ===== src/Planner/Ranges/Merge.antt =====
-- `merge_ranges` of src/pymod/planner.py: the addresses that its ranges cover, and the gaps between them.
use pymod.Prelude.{
  ℕ, suc, ◌≤◌, ◌<◌, ◌≡◌, ◌∙◌, refl, ap, inl, inr, Bool, false, ◌&&◌, ◌||◌, List, [], ◌∷◌, arith,
  ltb, leb, max, Bool-cases, All, leb→le,
}
use pymod.Planner.Ranges.{
  range_leb, insert_range, sort_ranges, merge_loop, merge_sorted, merge_ranges,
}

abbrev pub in_range : ℕ → ℕ × ℕ → Bool
in_range x (s, e) = leb s x && ltb x e

-- Address `x` lies in one of the ranges.
abbrev pub covered : ℕ → List (ℕ × ℕ) → Bool
covered x [] = false
covered x (r ∷ rest) = in_range x r || covered x rest

abbrev pub NonEmpty : ℕ × ℕ → Type 0
NonEmpty (s, e) = s < e

-- Starts ascend from `lo` on.
abbrev From : ℕ → List (ℕ × ℕ) → Type 0
From lo [] = Unit
From lo ((s, e) ∷ rest) = (lo ≤ s) × From s rest

-- From `lo` on, ranges that hold an address each, with a gap of at least one address before the next.
abbrev pub Apart : ℕ → List (ℕ × ℕ) → Type 0
Apart lo [] = Unit
Apart lo ((s, e) ∷ rest) = (lo ≤ s) × (s < e) × Apart (suc e) rest

or_swap : (a b c d : Bool) → d ≡ (a || c) → (b || d) ≡ (a || (b || c))
or_swap a b c d h = ground arith

covered-insert_range :
    (x : ℕ) (r : ℕ × ℕ) (l : List (ℕ × ℕ))
    → covered x (insert_range r l) ≡ (in_range x r || covered x l)
unfolding insert_range
covered-insert_range x r [] = refl
covered-insert_range x r (q ∷ l) = elim (Bool-cases (range_leb r q)) [
  | inl e ↦ rw e refl
  | inr n ↦
      rw n (or_swap (in_range x r) (in_range x q) (covered x l) _ (covered-insert_range x r l))
]

covered-sort_ranges : (x : ℕ) (l : List (ℕ × ℕ)) → covered x (sort_ranges l) ≡ covered x l
unfolding sort_ranges
covered-sort_ranges x [] = refl
covered-sort_ranges x (r ∷ l) =
    covered-insert_range x r (sort_ranges l)
    ∙ ap (λ (b : Bool). in_range x r || b) (covered-sort_ranges x l)

From-weaken : (lo hi : ℕ) (l : List (ℕ × ℕ)) → lo ≤ hi → From hi l → From lo l
From-weaken lo hi [] h f = tt
From-weaken lo hi ((s, e) ∷ l) h f = (omega arith, f.1)

From-insert_range :
    (lo s e : ℕ) (l : List (ℕ × ℕ)) → lo ≤ s → From lo l → From lo (insert_range (s, e) l)
unfolding insert_range
From-insert_range lo s e [] h f = (h, tt)
From-insert_range lo s e ((t, g) ∷ l) h f = elim (Bool-cases (range_leb (s, e) (t, g))) [
  | inl k ↦ rw k (h, (ground arith, f.1))
  | inr n ↦ rw n (f.0, From-insert_range t s e l (ground arith) f.1)
]

From-sort_ranges : (l : List (ℕ × ℕ)) → From 0 (sort_ranges l)
unfolding sort_ranges
From-sort_ranges [] = tt
From-sort_ranges ((s, e) ∷ l) =
    From-insert_range 0 s e (sort_ranges l) (omega arith) (From-sort_ranges l)

All-insert_range :
    (P : ℕ × ℕ → Type 0) (r : ℕ × ℕ) (l : List (ℕ × ℕ)) → P r → All P l → All P (insert_range r l)
unfolding insert_range
All-insert_range P r [] p h = (p, tt)
All-insert_range P r (q ∷ l) p h = elim (Bool-cases (range_leb r q)) [
  | inl k ↦ rw k (p, h)
  | inr n ↦ rw n (h.0, All-insert_range P r l p h.1)
]

pub All-sort_ranges : (P : ℕ × ℕ → Type 0) (l : List (ℕ × ℕ)) → All P l → All P (sort_ranges l)
unfolding sort_ranges
All-sort_ranges P [] h = tt
All-sort_ranges P (r ∷ l) h = All-insert_range P r (sort_ranges l) h.0 (All-sort_ranges P l h.1)

-- A range that touches the last one extends it.
join_touching :
    (x a b s e : ℕ) (c : Bool)
    → a ≤ s
    → s ≤ b
    → (in_range x (a, max b e) || c) ≡ (in_range x (a, b) || (in_range x (s, e) || c))
join_touching x a b s e c h k = ground arith

covered-merge_loop :
    (x a b : ℕ) (l : List (ℕ × ℕ))
    → From a l
    → covered x (merge_loop a b l) ≡ (in_range x (a, b) || covered x l)
unfolding merge_loop
covered-merge_loop x a b [] f = refl
covered-merge_loop x a b ((s, e) ∷ l) f = elim (Bool-cases (leb s b)) [
  | inl k ↦ rw k (
      covered-merge_loop x a (max b e) l (From-weaken a s l f.0 f.1)
      ∙ join_touching x a b s e (covered x l) f.0 (leb→le s b k))
  | inr n ↦ rw n (ap (λ (c : Bool). in_range x (a, b) || c) (covered-merge_loop x s e l f.1))
]

merge_loop-Apart :
    (lo a b : ℕ) (l : List (ℕ × ℕ))
    → lo ≤ a
    → a < b
    → From a l
    → All NonEmpty l
    → Apart lo (merge_loop a b l)
unfolding merge_loop
merge_loop-Apart lo a b [] h k f n = (h, k, tt)
merge_loop-Apart lo a b ((s, e) ∷ l) h k f n = elim (Bool-cases (leb s b)) [
  | inl t ↦ rw t (merge_loop-Apart lo a (max b e) l h (omega arith) (From-weaken a s l f.0 f.1) n.1)
  | inr t ↦ rw t (h, k, merge_loop-Apart (suc b) s e l (ground arith) n.0 f.1 n.1)
]

covered-merge_sorted :
    (x : ℕ) (l : List (ℕ × ℕ)) → From 0 l → covered x (merge_sorted l) ≡ covered x l
unfolding merge_sorted
covered-merge_sorted x [] f = refl
covered-merge_sorted x ((s, e) ∷ l) f = covered-merge_loop x s e l f.1

merge_sorted-Apart : (l : List (ℕ × ℕ)) → From 0 l → All NonEmpty l → Apart 0 (merge_sorted l)
unfolding merge_sorted
merge_sorted-Apart [] f n = tt
merge_sorted-Apart ((s, e) ∷ l) f n = merge_loop-Apart 0 s e l f.0 n.0 f.1 n.1

-- The merged ranges hold exactly the addresses of the given ones: nothing is lost and nothing is
-- read that no item asked for.
pub covered-merge_ranges :
    (x : ℕ) (ranges : List (ℕ × ℕ)) → covered x (merge_ranges ranges) ≡ covered x ranges
unfolding merge_ranges
covered-merge_ranges x ranges =
    covered-merge_sorted x (sort_ranges ranges) (From-sort_ranges ranges)
    ∙ covered-sort_ranges x ranges

-- If no range is empty, the merged ranges ascend with a gap of at least one address between
-- neighbours, so no two of them overlap or touch.
pub merge_ranges-Apart :
    (ranges : List (ℕ × ℕ)) → All NonEmpty ranges → Apart 0 (merge_ranges ranges)
unfolding merge_ranges
merge_ranges-Apart ranges h =
    merge_sorted-Apart (sort_ranges ranges) (From-sort_ranges ranges)
      (All-sort_ranges NonEmpty ranges h)
