-- ===== src/Planner/Ranges/Group.antt =====
-- Grouping the items by area, and the chunks of one area.
use pymod.Prelude.{
  ℕ, ◌+◌, ◌≤◌, ◌<◌, ◌≡◌, ◌∙◌, refl, sym, ap, inl, inr, true, false, List, [], ◌∷◌, ◌++◌,
  append_assoc, append-nil, arith, Bool-cases, All, All-append, if◌then◌else◌,
}
use mathlib.Core.Path.{subst}
use pymod.Types.{Area, ReadItem, item_start, item_count}
use pymod.Planner.Ranges.{
  ReadChunk, item_area, same_area, Groups, add_range, group_items, split_ranges, merge_ranges,
  chunks_of, plan_read_chunks,
}
use pymod.Planner.Ranges.Merge.{NonEmpty, covered, covered-merge_ranges, merge_ranges-Apart}
use pymod.Planner.Ranges.Split.{Chunks, any_covers, any_covers-split_ranges, split_ranges-Chunks}

-- The ranges of one area.
abbrev pub lookup_area : Area → Groups → List (ℕ × ℕ)
lookup_area area [] = []
lookup_area area ((a, ranges) ∷ rest) = if same_area a area then ranges else lookup_area area rest

abbrev pub ranges_of : Area → List ReadItem → List (ℕ × ℕ)
ranges_of area [] = []
ranges_of area (item ∷ rest) =
    if same_area (item_area item) area
    then (item_start item, item_start item + item_count item) ∷ ranges_of area rest
    else ranges_of area rest

abbrev Absent : Area → Groups → Type 0
Absent area [] = Unit
Absent area ((a, ranges) ∷ rest) = (same_area a area ≡ false) × Absent area rest

abbrev Distinct : Groups → Type 0
Distinct [] = Unit
Distinct ((a, ranges) ∷ rest) = Absent a rest × Distinct rest

pub same_area→eq : (a b : Area) → same_area a b ≡ true → a ≡ b
unfolding same_area
same_area→eq a b h = ground arith

pub same_area_self : (a : Area) → same_area a a ≡ true
unfolding same_area
same_area_self Area.coil = refl
same_area_self Area.discrete_input = refl
same_area_self Area.holding_register = refl
same_area_self Area.input_register = refl

same_area_sym : (a b : Area) → same_area a b ≡ same_area b a
unfolding same_area
same_area_sym a b = ground arith

lookup-add_range :
    (area a : Area) (r : ℕ × ℕ) (g : Groups)
    → lookup_area area (add_range a r g)
      ≡ (if same_area a area then lookup_area area g ++ (r ∷ []) else lookup_area area g)
unfolding add_range
lookup-add_range area a r [] = ground arith
lookup-add_range area a r ((b, ranges) ∷ g) = elim (Bool-cases (same_area b a)) [
  | inl e ↦ rw e (ground (arith, ap (λ (t : Area). same_area t area) (same_area→eq b a e)))
  | inr n ↦ rw n (elim (Bool-cases (same_area b area)) [
    | inr m ↦ rw m (lookup-add_range area a r g)
    | inl m ↦ ground (arith, m, n, ap (same_area a) (same_area→eq b area m), same_area_sym a b)
  ])
]

Absent-add_range :
    (area a : Area) (r : ℕ × ℕ) (g : Groups)
    → same_area a area ≡ false
    → Absent area g
    → Absent area (add_range a r g)
unfolding add_range
Absent-add_range area a r [] h n = (h, tt)
Absent-add_range area a r ((b, ranges) ∷ g) h n = elim (Bool-cases (same_area b a)) [
  | inl e ↦ rw e n
  | inr m ↦ rw m (n.0, Absent-add_range area a r g h n.1)
]

Distinct-add_range : (a : Area) (r : ℕ × ℕ) (g : Groups) → Distinct g → Distinct (add_range a r g)
unfolding add_range
Distinct-add_range a r [] d = (tt, tt)
Distinct-add_range a r ((b, ranges) ∷ g) d = elim (Bool-cases (same_area b a)) [
  | inl e ↦ rw e d
  | inr n ↦
      rw n (Absent-add_range b a r g (same_area_sym a b ∙ n) d.0, Distinct-add_range a r g d.1)
]

Distinct-group_items :
    (items : List ReadItem) (g : Groups) → Distinct g → Distinct (group_items items g)
unfolding group_items
Distinct-group_items [] g d = d
Distinct-group_items (item ∷ rest) g d =
    Distinct-group_items rest _ (Distinct-add_range (item_area item) _ g d)

lookup-group_items :
    (area : Area) (items : List ReadItem) (g : Groups)
    → lookup_area area (group_items items g) ≡ lookup_area area g ++ ranges_of area items
unfolding group_items
lookup-group_items area [] g = sym (append-nil (lookup_area area g))
lookup-group_items area (item ∷ rest) g =
    let r : ℕ × ℕ = (item_start item, item_start item + item_count item) in
    lookup-group_items area rest (add_range (item_area item) r g)
    ∙ ap (λ (l : List (ℕ × ℕ)). l ++ ranges_of area rest)
        (lookup-add_range area (item_area item) r g)
    ∙ elim (Bool-cases (same_area (item_area item) area)) [
      | inl e ↦ rw e (append_assoc (lookup_area area g) (r ∷ []) (ranges_of area rest))
      | inr n ↦ rw n refl
    ]

-- The chunks of one area, in their order.
abbrev pub of_area : Area → List ReadChunk → List ReadChunk
of_area area [] = []
of_area area (c ∷ rest) = if same_area c.area area then c ∷ of_area area rest else of_area area rest

of_area-append :
    (area : Area) (l m : List ReadChunk) → of_area area (l ++ m) ≡ of_area area l ++ of_area area m
of_area-append area [] m = refl
of_area-append area (c ∷ l) m = elim (Bool-cases (same_area c.area area)) [
  | inl e ↦ rw e (ap (λ (t : List ReadChunk). c ∷ t) (of_area-append area l m))
  | inr n ↦ rw n (of_area-append area l m)
]

of_area-Chunks_same :
    (area a : Area) (lo : ℕ) (l : List ReadChunk)
    → same_area a area ≡ true
    → Chunks a lo l
    → of_area area l ≡ l
of_area-Chunks_same area a lo [] h c = refl
of_area-Chunks_same area a lo (x ∷ l) h c =
    let e : same_area x.area area ≡ true = ap (λ (t : Area). same_area t area) c.0 ∙ h in
    rw e
      (ap (λ (t : List ReadChunk). x ∷ t) (of_area-Chunks_same area a (x.start + x.count) l h c.4))

of_area-Chunks_other :
    (area a : Area) (lo : ℕ) (l : List ReadChunk)
    → same_area a area ≡ false
    → Chunks a lo l
    → of_area area l ≡ []
of_area-Chunks_other area a lo [] h c = refl
of_area-Chunks_other area a lo (x ∷ l) h c =
    let e : same_area x.area area ≡ false = ap (λ (t : Area). same_area t area) c.0 ∙ h in
    rw e (of_area-Chunks_other area a (x.start + x.count) l h c.4)

abbrev AllNonEmpty : Groups → Type 0
AllNonEmpty [] = Unit
AllNonEmpty ((a, ranges) ∷ rest) = All NonEmpty ranges × AllNonEmpty rest

merged-Chunks :
    (a : Area) (ranges : List (ℕ × ℕ))
    → All NonEmpty ranges
    → Chunks a 0 (split_ranges a (merge_ranges ranges))
merged-Chunks a ranges h =
    split_ranges-Chunks a 0 (merge_ranges ranges) (merge_ranges-Apart ranges h)

of_area-Absent :
    (area : Area) (g : Groups) → Absent area g → AllNonEmpty g → of_area area (chunks_of g) ≡ []
unfolding chunks_of
of_area-Absent area [] h n = refl
of_area-Absent area ((a, ranges) ∷ g) h n =
    of_area-append area (split_ranges a (merge_ranges ranges)) (chunks_of g)
    ∙ rw (of_area-Chunks_other area a 0 _ h.0 (merged-Chunks a ranges n.0))
        (of_area-Absent area g h.1 n.1)

of_area-chunks_of :
    (area : Area) (g : Groups)
    → Distinct g
    → AllNonEmpty g
    → of_area area (chunks_of g) ≡ split_ranges area (merge_ranges (lookup_area area g))
unfolding chunks_of
of_area-chunks_of area [] d n = unfold merge_ranges split_ranges in refl
of_area-chunks_of area ((a, ranges) ∷ g) d n =
    of_area-append area (split_ranges a (merge_ranges ranges)) (chunks_of g)
    ∙ elim (Bool-cases (same_area a area)) [
      | inl e ↦
          let p = same_area→eq a area e in
          rw
            (
              e,
              of_area-Chunks_same area a 0 _ e (merged-Chunks a ranges n.0),
              of_area-Absent area g (subst (λ t. Absent t g) p d.0) n.1,
            )
            (append-nil _ ∙ ap (λ (t : Area). split_ranges t (merge_ranges ranges)) p)
      | inr m ↦
          rw (m, of_area-Chunks_other area a 0 _ m (merged-Chunks a ranges n.0))
            (of_area-chunks_of area g d.1 n.1)
    ]

AllNonEmpty-add_range :
    (a : Area) (s e : ℕ) (g : Groups) → s < e → AllNonEmpty g → AllNonEmpty (add_range a (s, e) g)
unfolding add_range
AllNonEmpty-add_range a s e [] h n = ((h, tt), tt)
AllNonEmpty-add_range a s e ((b, ranges) ∷ g) h n = elim (Bool-cases (same_area b a)) [
  | inl k ↦ rw k (All-append NonEmpty ranges ((s, e) ∷ []) n.0 (h, tt), n.1)
  | inr k ↦ rw k (n.0, AllNonEmpty-add_range a s e g h n.1)
]

-- What `validate_read_item` asks of the count.
abbrev pub HasCount : ReadItem → Type 0
HasCount item = 1 ≤ item_count item

AllNonEmpty-group_items :
    (items : List ReadItem) (g : Groups)
    → All HasCount items
    → AllNonEmpty g
    → AllNonEmpty (group_items items g)
unfolding group_items
AllNonEmpty-group_items [] g h n = n
AllNonEmpty-group_items (item ∷ rest) g h n = AllNonEmpty-group_items rest _ h.1 (
    AllNonEmpty-add_range (item_area item) (item_start item) (item_start item + item_count item) g
      (omega (arith, h.0)) n)

planned_chunks :
    (area : Area) (items : List ReadItem)
    → All HasCount items
    → of_area area (plan_read_chunks items)
      ≡ split_ranges area (merge_ranges (ranges_of area items))
unfolding plan_read_chunks
planned_chunks area items h =
    of_area-chunks_of area (group_items items []) (Distinct-group_items items [] tt)
      (AllNonEmpty-group_items items [] h tt)
    ∙ ap (λ (l : List (ℕ × ℕ)). split_ranges area (merge_ranges l))
        (lookup-group_items area items [])

ranges_of-NonEmpty :
    (area : Area) (items : List ReadItem) → All HasCount items → All NonEmpty (ranges_of area items)
ranges_of-NonEmpty area [] h = tt
ranges_of-NonEmpty area (item ∷ rest) h = elim (Bool-cases (same_area (item_area item) area)) [
  | inl e ↦ rw e (omega (arith, h.0), ranges_of-NonEmpty area rest h.1)
  | inr n ↦ rw n (ranges_of-NonEmpty area rest h.1)
]

-- If every item has a count, then for each area the planned chunks ascend, are disjoint, count at
-- least one unit and at most the area's limit, and cover an address exactly when an item of the area
-- asks for it.
pub plan_read_chunks_lem :
    (area : Area) (items : List ReadItem)
    → All HasCount items
    → Chunks area 0 (of_area area (plan_read_chunks items))
      × ((x : ℕ)
          → any_covers x (of_area area (plan_read_chunks items)) ≡ covered x (ranges_of area items))
plan_read_chunks_lem area items h = rw (planned_chunks area items h) (
  merged-Chunks area (ranges_of area items) (ranges_of-NonEmpty area items h),
  λ x.
      any_covers-split_ranges area x (merge_ranges (ranges_of area items))
      ∙ covered-merge_ranges x (ranges_of area items),
)
