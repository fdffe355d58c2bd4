-- ===== src/Planner/Read/Assemble.antt =====
-- What an item of src/pymod/planner.py gets of chunk results that come from a device.
use pymod.Prelude.{
  ℕ, zero, suc, ◌+◌, ◌-◌, ◌≤◌, ◌<◌, ◌≡◌, ◌∙◌, refl, ap, ap₂, inl, inr, Bool, true, Option, none,
  some, List, [], ◌∷◌, ◌++◌, map, arith, take, drop, Bool-cases, All, le→leb,
}
use mathlib.Core.Path.{subst}
use pymod.Errors.{Exc, ok}
use pymod.Types.{Area, ReadItem, item_start, item_count}
use pymod.Codec.Float.{FloatOps}
use pymod.Planner.Ranges.{ReadChunk, item_area, same_area}
use pymod.Planner.Ranges.Split.{Chunks, any_covers}
use pymod.Planner.Ranges.Group.{of_area}
use pymod.Planner.Ranges.Overlap.{overlaps, overlap, Contiguous, overlap_lem, overlap-Chunks}
use pymod.Planner.Read.{
  Cell, word, flag, ReadChunkResult, select_covering, insert_by_start, sort_by_start, first_error,
  flatten_values, slice_from, assemble, decode_item_values, decode_read_item,
}

-- What a device holds at each address of its four areas.
pub record Device : Type 0 where
  pub coil_at : ℕ → Bool
  pub discrete_at : ℕ → Bool
  pub holding_at : ℕ → ℕ
  pub input_at : ℕ → ℕ

abbrev pub cell_at : Device → Area → ℕ → Cell
cell_at d Area.coil x = flag (d.coil_at x)
cell_at d Area.discrete_input x = flag (d.discrete_at x)
cell_at d Area.holding_register x = word (d.holding_at x)
cell_at d Area.input_register x = word (d.input_at x)

-- `n` cells from address `x` on.
abbrev pub cells : Device → Area → ℕ → ℕ → List Cell
cells d area x zero = []
cells d area x (suc n) = cell_at d area x ∷ cells d area (x + 1) n

-- The result of a chunk: the device's cells, or the exception with which the chunk failed.
abbrev pub chunk_result : Device → (ReadChunk → Option Exc) → ReadChunk → ReadChunkResult
chunk_result d failure c = record {
  chunk = c;
  values = elim (failure c) [ none ↦ some (cells d c.area c.start c.count) | some e ↦ none ];
  error = failure c;
}

module _ (d : Device) (failure : ReadChunk → Option Exc) where
  abbrev pub results : List ReadChunk → List ReadChunkResult
  results l = map (chunk_result d failure) l

  select_covering-results :
      (area : Area) (s e : ℕ) (l : List ReadChunk)
      → select_covering area s e (results l) ≡ results (overlap s e (of_area area l))
  unfolding select_covering
  select_covering-results area s e [] = refl
  select_covering-results area s e (c ∷ l) = elim (Bool-cases (same_area c.area area)) [
    | inr n ↦ rw n (select_covering-results area s e l)
    | inl k ↦ rw k (elim (Bool-cases (overlaps s e c)) [
      | inr n ↦ rw n (select_covering-results area s e l)
      | inl m ↦ rw m (
          ap (λ (t : List ReadChunkResult). chunk_result d failure c ∷ t)
            (select_covering-results area s e l))
    ])
  ]

  sort_by_start-results :
      (area : Area) (lo : ℕ) (l : List ReadChunk)
      → Chunks area lo l
      → sort_by_start (results l) ≡ results l
  unfolding sort_by_start
  sort_by_start-results area lo [] h = refl
  sort_by_start-results area lo (c ∷ []) h = refl
  sort_by_start-results area lo (c ∷ x ∷ l) h =
      ap (insert_by_start (chunk_result d failure c))
        (sort_by_start-results area (c.start + c.count) (x ∷ l) h.4)
      ∙ rw (le→leb c.start x.start (omega arith)) refl

  -- No chunk of the list failed.
  abbrev pub NoFailure : List ReadChunk → Type 0
  NoFailure l = All (λ c. failure c ≡ none) l

  first_error-results : (l : List ReadChunk) → NoFailure l → first_error (results l) ≡ none
  unfolding first_error
  first_error-results [] h = refl
  first_error-results (c ∷ l) h = rw h.0 (first_error-results l h.1)

  cells-append :
      (area : Area) (x m n : ℕ)
      → cells d area x m ++ cells d area (x + m) n ≡ cells d area x (m + n)
  cells-append area x zero n = ap₂ (cells d area) {x = x + 0} {y = x} (omega arith) (omega arith)
  cells-append area x (suc m) n =
      let shift : x + suc m ≡ x + 1 + m = omega arith in
      let total : suc m + n ≡ suc (m + n) = omega arith in
      rw (shift, total)
        (ap (λ (t : List Cell). cell_at d area x ∷ t) (cells-append area (x + 1) m n))

  flatten_values-results :
      (area : Area) (lo e : ℕ) (l : List ReadChunk)
      → Contiguous area lo l e
      → NoFailure l
      → (n : ℕ) × (flatten_values (results l) ≡ ok (cells d area lo n)) × (e ≤ lo + n)
  unfolding flatten_values
  flatten_values-results area lo e [] h f = (0, refl, omega arith)
  flatten_values-results area lo e (c ∷ l) h f =
      let (n, r, b) = flatten_values-results area (lo + c.count) e l h.2 f.1 in
      (
        c.count + n,
        rw f.0 (
            rw r (
              ap₂ (λ (a : Area) (x : ℕ). ok (cells d a x c.count ++ cells d area (lo + c.count) n))
                h.0 h.1
              ∙ ap ok (cells-append area lo c.count n))),
        omega arith,
      )

  drop-cells :
      (area : Area) (x m n : ℕ) → m ≤ n → drop m (cells d area x n) ≡ cells d area (x + m) (n - m)
  drop-cells area x zero n h = ap₂ (cells d area) {x = x} {y = x + 0} (omega arith) (omega arith)
  drop-cells area x (suc m) zero h = absurd (omega arith)
  drop-cells area x (suc m) (suc n) h =
      drop-cells area (x + 1) m n (omega arith)
      ∙ ap₂ (cells d area) {x = x + 1 + m} {y = x + suc m} (omega arith) (omega arith)

  take-cells : (area : Area) (x m n : ℕ) → m ≤ n → take m (cells d area x n) ≡ cells d area x m
  take-cells area x zero n h = refl
  take-cells area x (suc m) zero h = absurd (omega arith)
  take-cells area x (suc m) (suc n) h =
      ap (λ (t : List Cell). cell_at d area x ∷ t) (take-cells area (x + 1) m n (omega arith))

  slice_from-cells :
      (area : Area) (base s count n : ℕ)
      → base ≤ s
      → s + count ≤ base + n
      → slice_from base s count (cells d area base n) ≡ cells d area s count
  unfolding slice_from
  slice_from-cells area base s count n h k =
      rw (le→leb base s h, drop-cells area base (s - base) n (omega arith))
        (take-cells area (base + (s - base)) count (n - (s - base)) (omega arith)
          ∙ ap (λ (x : ℕ). cells d area x count) (omega arith))

  -- An item whose range is covered by the chunks of its area, where none of the chunks that overlap
  -- the item failed, gets the device's cells at its own addresses, whatever became of other chunks.
  pub decode_read_item-results :
      (ops : FloatOps) (item : ReadItem) (l : List ReadChunk)
      → 1 ≤ item_count item
      → Chunks (item_area item) 0 (of_area (item_area item) l)
      → ((x : ℕ)
          → item_start item ≤ x
          → x < item_start item + item_count item
          → any_covers x (of_area (item_area item) l) ≡ true)
      → NoFailure (
          overlap
            (item_start item)
            (item_start item + item_count item)
            (of_area (item_area item) l))
      → decode_read_item ops item (results l)
        ≡ decode_item_values ops item (cells d (item_area item) (item_start item) (item_count item))
  unfolding decode_read_item assemble
  decode_read_item-results ops item l count sorted cov fine =
      let area = item_area item in
      let s = item_start item in
      let e = item_start item + item_count item in
      let (c, rest, o, first, contiguous) =
        overlap_lem area 0 s e (of_area area l) sorted (omega arith) cov in
      let fine' : NoFailure (c ∷ rest) = subst NoFailure o fine in
      let ordered : Chunks area 0 (c ∷ rest) =
        subst (Chunks area 0) o (overlap-Chunks area 0 s e (of_area area l) sorted) in
      let (n, flat, far) = flatten_values-results area c.start e (c ∷ rest) contiguous fine' in
      rw
        (
          select_covering-results area s e l,
          o,
          sort_by_start-results area 0 (c ∷ rest) ordered,
          first_error-results (c ∷ rest) fine',
          flat,
          slice_from-cells area c.start s (item_count item) n first far,
        )
        refl
