-- ===== src/Planner/Ranges/Bounds.antt =====
-- The chunks of a batch, the address space and the items, for src/pymod/planner.py.
use pymod.Prelude.{
  ℕ, zero, suc, ◌+◌, ◌-◌, ◌≤◌, ◌<◌, ◌≡◌, inl, inr, true, List, [], ◌∷◌, arith, ltb, leb, min, max,
  Bool-cases, All, All-append, ltb→lt,
}
use pymod.Types.{Area, ReadItem, item_start, item_count}
use pymod.Planner.Ranges.{
  ReadChunk, read_limit, item_area, same_area, Groups, add_range, group_items, split_loop,
  split_ranges, sort_ranges, merge_loop, merge_sorted, merge_ranges, chunks_of, plan_read_chunks,
}
use pymod.Planner.Ranges.Merge.{covered, All-sort_ranges}
use pymod.Planner.Ranges.Split.{read_limit_pos}
use pymod.Planner.Ranges.Group.{ranges_of, same_area_self}

abbrev EndsBy : ℕ → ℕ × ℕ → Type 0
EndsBy n (s, e) = e ≤ n

-- A chunk that every encoder accepts: its start is an address below `n`, and its count is in range.
abbrev pub IsWithin : ℕ → ReadChunk → Type 0
IsWithin n c = (c.start < n) × (1 ≤ c.count) × (c.count ≤ read_limit c.area)

module _ (n : ℕ) where
  EndsBy-merge_loop :
      (a b : ℕ) (l : List (ℕ × ℕ)) → b ≤ n → All (EndsBy n) l → All (EndsBy n) (merge_loop a b l)
  unfolding merge_loop
  EndsBy-merge_loop a b [] h f = (h, tt)
  EndsBy-merge_loop a b ((s, e) ∷ l) h f = elim (Bool-cases (leb s b)) [
    | inl k ↦ rw k (EndsBy-merge_loop a (max b e) l (omega (arith, f.0)) f.1)
    | inr k ↦ rw k (h, EndsBy-merge_loop s e l f.0 f.1)
  ]

  EndsBy-merge_sorted : (l : List (ℕ × ℕ)) → All (EndsBy n) l → All (EndsBy n) (merge_sorted l)
  unfolding merge_sorted
  EndsBy-merge_sorted [] f = tt
  EndsBy-merge_sorted ((s, e) ∷ l) f = EndsBy-merge_loop s e l f.0 f.1

  EndsBy-merge_ranges : (l : List (ℕ × ℕ)) → All (EndsBy n) l → All (EndsBy n) (merge_ranges l)
  unfolding merge_ranges
  EndsBy-merge_ranges l f = EndsBy-merge_sorted (sort_ranges l) (All-sort_ranges (EndsBy n) l f)

  split_loop-IsWithin :
      (fuel : ℕ) (area : Area) (cur e : ℕ)
      → e ≤ n
      → All (IsWithin n) (split_loop fuel area (read_limit area) cur e)
  unfolding split_loop
  split_loop-IsWithin zero area cur e h = tt
  split_loop-IsWithin (suc fuel) area cur e h = elim (Bool-cases (ltb cur e)) [
    | inr k ↦ rw k tt
    | inl k ↦
        let c = ltb→lt cur e k in
        let p = read_limit_pos area in
        rw k (
          (omega arith, omega arith, omega arith),
          split_loop-IsWithin fuel area (min (cur + read_limit area) e) e h,
        )
  ]

  split_ranges-IsWithin :
      (area : Area) (l : List (ℕ × ℕ)) → All (EndsBy n) l → All (IsWithin n) (split_ranges area l)
  unfolding split_ranges
  split_ranges-IsWithin area [] h = tt
  split_ranges-IsWithin area ((s, e) ∷ l) h =
      All-append (IsWithin n) (split_loop (e - s) area (read_limit area) s e) _
        (split_loop-IsWithin (e - s) area s e h.0) (split_ranges-IsWithin area l h.1)

  abbrev GroupsEndBy : Groups → Type 0
  GroupsEndBy [] = Unit
  GroupsEndBy ((a, ranges) ∷ g) = All (EndsBy n) ranges × GroupsEndBy g

  chunks_of-IsWithin : (g : Groups) → GroupsEndBy g → All (IsWithin n) (chunks_of g)
  unfolding chunks_of
  chunks_of-IsWithin [] h = tt
  chunks_of-IsWithin ((a, ranges) ∷ g) h =
      All-append (IsWithin n) (split_ranges a (merge_ranges ranges)) _
        (split_ranges-IsWithin a (merge_ranges ranges) (EndsBy-merge_ranges ranges h.0))
        (chunks_of-IsWithin g h.1)

  GroupsEndBy-add_range :
      (a : Area) (s e : ℕ) (g : Groups) → e ≤ n → GroupsEndBy g → GroupsEndBy (add_range a (s, e) g)
  unfolding add_range
  GroupsEndBy-add_range a s e [] h f = ((h, tt), tt)
  GroupsEndBy-add_range a s e ((b, ranges) ∷ g) h f = elim (Bool-cases (same_area b a)) [
    | inl k ↦ rw k (All-append (EndsBy n) ranges ((s, e) ∷ []) f.0 (h, tt), f.1)
    | inr k ↦ rw k (f.0, GroupsEndBy-add_range a s e g h f.1)
  ]

  -- The item ends by address `n`.
  abbrev pub ItemEndsBy : ReadItem → Type 0
  ItemEndsBy item = item_start item + item_count item ≤ n

  GroupsEndBy-group_items :
      (items : List ReadItem) (g : Groups)
      → All ItemEndsBy items
      → GroupsEndBy g
      → GroupsEndBy (group_items items g)
  unfolding group_items
  GroupsEndBy-group_items [] g h f = f
  GroupsEndBy-group_items (item ∷ rest) g h f = GroupsEndBy-group_items rest _ h.1 (
      GroupsEndBy-add_range (item_area item) (item_start item) (item_start item + item_count item) g
        h.0 f)

  -- If no item goes beyond address `n`, every planned chunk starts below `n` and has a count between
  -- 1 and its area's limit.
  pub plan_read_chunks-IsWithin :
      (items : List ReadItem) → All ItemEndsBy items → All (IsWithin n) (plan_read_chunks items)
  unfolding plan_read_chunks
  plan_read_chunks-IsWithin items h =
      chunks_of-IsWithin (group_items items []) (GroupsEndBy-group_items items [] h tt)

-- Every address of the item is an address of a range of its area in the batch.
abbrev pub IsCovered : List ReadItem → ReadItem → Type 0
IsCovered items item =
    (x : ℕ)
    → item_start item ≤ x
    → x < item_start item + item_count item
    → covered x (ranges_of (item_area item) items) ≡ true

IsCovered-cons :
    (extra item : ReadItem) (items : List ReadItem)
    → IsCovered items item
    → IsCovered (extra ∷ items) item
IsCovered-cons extra item items h x p q =
    elim (Bool-cases (same_area (item_area extra) (item_area item))) [
      | inl k ↦ rw k (ground (arith, h x p q))
      | inr k ↦ rw k (h x p q)
    ]

IsCovered-head : (item : ReadItem) (items : List ReadItem) → IsCovered (item ∷ items) item
IsCovered-head item items x p q = rw (same_area_self (item_area item)) (ground arith)

All-lift :
    (P Q : ReadItem → Type 0) (l : List ReadItem) → ((i : ReadItem) → P i → Q i) → All P l → All Q l
All-lift P Q [] f h = tt
All-lift P Q (i ∷ l) f h = (f i h.0, All-lift P Q l f h.1)

pub items-IsCovered : (items : List ReadItem) → All (IsCovered items) items
items-IsCovered [] = tt
items-IsCovered (item ∷ items) = (
  IsCovered-head item items,
  All-lift (IsCovered items) (IsCovered (item ∷ items)) items (λ i h. IsCovered-cons item i items h)
      (items-IsCovered items),
)
