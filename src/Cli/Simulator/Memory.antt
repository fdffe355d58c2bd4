-- ===== src/Cli/Simulator/Memory.antt =====
-- The memory of `serve` in src/pymod/cli.py, seen as a function from areas and addresses to
-- optional values.
use pymod.Prelude.{
  ℕ, zero, suc, ◌+◌, ◌<◌, ◌≤◌, ◌≡◌, refl, ap, ◌∙◌, sym, arith, true, false, Bool-cases, inl, inr,
  Option, some, List, [], ◌∷◌, length, get_elem?, ◌≢◌, ◌⊎◌,
}
use mathlib.Core.Path.{subst}
use pymod.Prelude.Int.{ℤ, pos, negsuc}
use pymod.Errors.{ok}
use pymod.Types.{Area}
use pymod.Server.{Datum}
use pymod.Cli.Simulator.{
  eq_ℤ, Store, find, put, SimState, store_of, with_store, read_cells, read_state, write_cells,
  write_state,
}

eq_ℤ_sound : (x k : ℤ) → eq_ℤ x k ≡ true → x ≡ k
eq_ℤ_sound (pos m) (pos n) h = ap pos (ground arith)
eq_ℤ_sound (pos m) (negsuc n) h = ground arith
eq_ℤ_sound (negsuc m) (pos n) h = ground arith
eq_ℤ_sound (negsuc m) (negsuc n) h = ap negsuc (ground arith)

eq_ℤ_refl : (k : ℤ) → eq_ℤ k k ≡ true
eq_ℤ_refl (pos m) = ground arith
eq_ℤ_refl (negsuc m) = ground arith

find-put_same : (store : Store) (k : ℤ) (v : Datum) → find (put store k v) k ≡ some v
unfolding find put
find-put_same [] k v = rw (find, eq_ℤ_refl k) refl
find-put_same ((x, w) ∷ rest) k v = elim (Bool-cases (eq_ℤ x k)) [
  | inl y ↦ rw (put, y, find, y) refl
  | inr n ↦ rw (put, n, find, n) (find-put_same rest k v)
]

find-put_other :
    (store : Store) (k j : ℤ) (v : Datum) → eq_ℤ k j ≡ false → find (put store k v) j ≡ find store j
unfolding find put
find-put_other [] k j v h = rw (find, h) refl
find-put_other ((x, w) ∷ rest) k j v h = elim (Bool-cases (eq_ℤ x k)) [
  | inl y ↦ rw (y, find, subst (λ (m : ℤ). eq_ℤ m j ≡ false) (sym (eq_ℤ_sound x k y)) h) refl
  | inr n ↦ rw (n, find, find-put_other rest k j v h) refl
]

-- Writes from an address on leave the cells below it alone.
find-write_cells_below :
    (values : List Datum) (store : Store) (a x : ℕ)
    → x < a
    → find (write_cells store a values) (pos x) ≡ find store (pos x)
unfolding write_cells
find-write_cells_below [] store a x h = refl
find-write_cells_below (v ∷ vs) store a x h =
    find-write_cells_below vs (put store (pos a) v) (a + 1) x (omega arith)
    ∙ find-put_other store (pos a) (pos x) v (ground arith)

find-write_cells_outside :
    (values : List Datum) (store : Store) (a x : ℕ)
    → (x < a) ⊎ (a + length values ≤ x)
    → find (write_cells store a values) (pos x) ≡ find store (pos x)
unfolding write_cells
find-write_cells_outside [] store a x h = refl
find-write_cells_outside (v ∷ vs) store a x h =
    find-write_cells_outside vs (put store (pos a) v) (a + 1) x (ground arith)
    ∙ find-put_other store (pos a) (pos x) v (ground arith)

find-write_cells_inside :
    (values : List Datum) (store : Store) (a i x : ℕ)
    → x ≡ a + i
    → i < length values
    → find (write_cells store a values) (pos x) ≡ get_elem? values i
unfolding write_cells
find-write_cells_inside [] store a i x e h = absurd (omega arith)
find-write_cells_inside (v ∷ vs) store a zero x e h =
    find-write_cells_below vs (put store (pos a) v) (a + 1) x (omega arith)
    ∙ (ap (λ y. find (put store (pos a) v) (pos y)) (omega arith) ∙ find-put_same store (pos a) v)
find-write_cells_inside (v ∷ vs) store a (suc i) x e h =
    find-write_cells_inside vs (put store (pos a) v) (a + 1) i x (omega arith) (omega arith)

-- What a read finds: some value in every cell.
read_cells-find :
    (store : Store) (values : List Datum) (a : ℕ)
    → ((i : ℕ) → i < length values → find store (pos (a + i)) ≡ get_elem? values i)
    → read_cells store a (length values) ≡ ok values
unfolding read_cells
read_cells-find store [] a h = refl
read_cells-find store (v ∷ vs) a h =
    let first : find store (pos a) ≡ some v =
      ap (λ y. find store (pos y)) (omega arith) ∙ h 0 (omega arith) in
    let later : read_cells store (a + 1) (length vs) ≡ ok vs =
      read_cells-find store vs (a + 1)
        (λ i hi. ap (λ y. find store (pos y)) (omega arith) ∙ h (suc i) (omega arith)) in
    rw (read_cells, first, later) refl

store_of-with_store :
    (s : SimState) (area : Area) (d : Store) → store_of (with_store s area d) area ≡ d
unfolding store_of with_store
store_of-with_store s Area.coil d = refl
store_of-with_store s Area.discrete_input d = refl
store_of-with_store s Area.holding_register d = refl
store_of-with_store s Area.input_register d = refl

store_of-with_store_other :
    (s : SimState) (area other : Area) (d : Store)
    → area ≢ other
    → store_of (with_store s area d) other ≡ store_of s other
unfolding store_of with_store
store_of-with_store_other s Area.coil Area.coil d h = absurd (h refl)
store_of-with_store_other s Area.coil Area.discrete_input d h = refl
store_of-with_store_other s Area.coil Area.holding_register d h = refl
store_of-with_store_other s Area.coil Area.input_register d h = refl
store_of-with_store_other s Area.discrete_input Area.coil d h = refl
store_of-with_store_other s Area.discrete_input Area.discrete_input d h = absurd (h refl)
store_of-with_store_other s Area.discrete_input Area.holding_register d h = refl
store_of-with_store_other s Area.discrete_input Area.input_register d h = refl
store_of-with_store_other s Area.holding_register Area.coil d h = refl
store_of-with_store_other s Area.holding_register Area.discrete_input d h = refl
store_of-with_store_other s Area.holding_register Area.holding_register d h = absurd (h refl)
store_of-with_store_other s Area.holding_register Area.input_register d h = refl
store_of-with_store_other s Area.input_register Area.coil d h = refl
store_of-with_store_other s Area.input_register Area.discrete_input d h = refl
store_of-with_store_other s Area.input_register Area.holding_register d h = refl
store_of-with_store_other s Area.input_register Area.input_register d h = absurd (h refl)

-- A cell of the memory that a state stands for.
abbrev pub cell : SimState → Area → ℕ → Option Datum
cell s area x = find (store_of s area) (pos x)

-- After a write the cells of the range hold the values in order, and every other cell of this and of
-- the other areas holds what it held.
pub write_state_lem :
    (s : SimState) (area : Area) (a : ℕ) (values : List Datum)
    → ((i : ℕ)
        → i < length values
        → cell (write_state s area a values) area (a + i) ≡ get_elem? values i)
      × ((x : ℕ)
          → (x < a) ⊎ (a + length values ≤ x)
          → cell (write_state s area a values) area x ≡ cell s area x)
      × ((other : Area) (x : ℕ)
          → area ≢ other
          → cell (write_state s area a values) other x ≡ cell s other x)
unfolding write_state
write_state_lem s area a values = (
  λ i h.
      rw (store_of-with_store s area (write_cells (store_of s area) a values))
        (find-write_cells_inside values (store_of s area) a i (a + i) refl h),
  λ x h.
      rw (store_of-with_store s area (write_cells (store_of s area) a values))
        (find-write_cells_outside values (store_of s area) a x h),
  λ other x h.
      rw (store_of-with_store_other s area other (write_cells (store_of s area) a values) h) refl,
)

-- A read of the written range returns the values.
pub read_state-write_state :
    (s : SimState) (area : Area) (a : ℕ) (values : List Datum)
    → read_state (write_state s area a values) area a (length values) ≡ ok values
unfolding read_state
read_state-write_state s area a values =
    read_cells-find (store_of (write_state s area a values) area) values a
      (write_state_lem s area a values).0
