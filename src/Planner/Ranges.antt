-- ===== src/Planner/Ranges.antt =====
-- The read-side planning of planner.py: ranges, their merging, and their splitting into chunks.
pub mod Merge
pub mod Split
pub mod Group
pub mod Overlap
pub mod Bounds
use pymod.Prelude.{
  ℕ, zero, suc, ◌+◌, ◌-◌, ltb, leb, ◌==◌, Bool, true, false, ◌&&◌, ◌||◌, List, [], ◌∷◌, ◌++◌, min,
  max, if◌then◌else◌,
}
use pymod.Types.{Area, ReadItem, holding, input, coils, discrete, item_start, item_count}
use pymod.Protocol.Pdu.{max_read_coils, max_read_discrete_inputs, max_read_registers}

pub record ReadChunk : Type 0 where
  pub area : Area
  pub start : ℕ
  pub count : ℕ

-- `_READ_LIMITS`
unfoldable pub read_limit : Area → ℕ
read_limit Area.holding_register = max_read_registers
read_limit Area.input_register = max_read_registers
read_limit Area.coil = max_read_coils
read_limit Area.discrete_input = max_read_discrete_inputs

unfoldable pub item_area : ReadItem → Area
item_area (holding r) = Area.holding_register
item_area (input r) = Area.input_register
item_area (coils start count) = Area.coil
item_area (discrete start count) = Area.discrete_input

-- `==` and `is` on areas.
unfoldable pub same_area : Area → Area → Bool
same_area Area.coil Area.coil = true
same_area Area.discrete_input Area.discrete_input = true
same_area Area.holding_register Area.holding_register = true
same_area Area.input_register Area.input_register = true
same_area _ _ = false

-- `sorted(ranges)`: pairs in lexicographic order.
abbrev pub range_leb : ℕ × ℕ → ℕ × ℕ → Bool
range_leb (s, e) (t, f) = ltb s t || (s == t && leb e f)

unfoldable pub insert_range : ℕ × ℕ → List (ℕ × ℕ) → List (ℕ × ℕ)
insert_range r [] = r ∷ []
insert_range r (q ∷ rest) = if range_leb r q then r ∷ q ∷ rest else q ∷ insert_range r rest

unfoldable pub sort_ranges : List (ℕ × ℕ) → List (ℕ × ℕ)
unfolding insert_range
sort_ranges [] = []
sort_ranges (r ∷ rest) = insert_range r (sort_ranges rest)

-- The loop of `_merge_ranges`, with the last pair of `merged` that may still grow.
unfoldable pub merge_loop : ℕ → ℕ → List (ℕ × ℕ) → List (ℕ × ℕ)
merge_loop last_s last_e [] = (last_s, last_e) ∷ []
merge_loop last_s last_e ((s, e) ∷ rest) =
    let grown = merge_loop last_s (max last_e e) rest in
    let fresh = merge_loop s e rest in if leb s last_e then grown else (last_s, last_e) ∷ fresh

unfoldable pub merge_sorted : List (ℕ × ℕ) → List (ℕ × ℕ)
unfolding merge_loop
merge_sorted [] = []
merge_sorted ((s, e) ∷ rest) = merge_loop s e rest

unfoldable pub merge_ranges : List (ℕ × ℕ) → List (ℕ × ℕ)
unfolding merge_sorted sort_ranges
merge_ranges ranges = merge_sorted (sort_ranges ranges)

-- `by_area`: areas in the order in which they were first met.
abbrev pub Groups : Type 0
Groups = List (Area × List (ℕ × ℕ))

-- `by_area.setdefault(area, []).append(range)`
unfoldable pub add_range : Area → ℕ × ℕ → Groups → Groups
unfolding same_area
add_range area r [] = (area, r ∷ []) ∷ []
add_range area r ((a, ranges) ∷ rest) =
    if same_area a area then (a, ranges ++ (r ∷ [])) ∷ rest else (a, ranges) ∷ add_range area r rest

unfoldable pub group_items : List ReadItem → Groups → Groups
unfolding add_range item_area
group_items [] groups = groups
group_items (item ∷ rest) groups =
    group_items rest
      (add_range (item_area item) (item_start item, item_start item + item_count item) groups)

-- `while cur < e`, on fuel; `e - cur` rounds are enough, since a limit is at least 1.
unfoldable pub split_loop : ℕ → Area → ℕ → ℕ → ℕ → List ReadChunk
split_loop zero area max_units cur e = []
split_loop (suc fuel) area max_units cur e =
    let chunk_end = min (cur + max_units) e in
    let rest = split_loop fuel area max_units chunk_end e in
    if ltb cur e then record { area = area; start = cur; count = chunk_end - cur } ∷ rest else []

unfoldable pub split_ranges : Area → List (ℕ × ℕ) → List ReadChunk
unfolding split_loop read_limit
split_ranges area [] = []
split_ranges area ((s, e) ∷ rest) =
    split_loop (e - s) area (read_limit area) s e ++ split_ranges area rest

unfoldable pub chunks_of : Groups → List ReadChunk
unfolding split_ranges merge_ranges
chunks_of [] = []
chunks_of ((area, ranges) ∷ rest) = split_ranges area (merge_ranges ranges) ++ chunks_of rest

unfoldable pub plan_read_chunks : List ReadItem → List ReadChunk
unfolding group_items chunks_of
plan_read_chunks items = chunks_of (group_items items [])
