-- ===== src/Cli/Simulator.antt =====
-- `_SimState` and `serve` of src/pymod/cli.py: the memory behind `pymod serve`, and the server on it.
-- A dict is a list of pairs without repeated keys, in the order of insertion; the keys are Python's
-- integers, since a specification may name any.
pub mod Memory
pub mod Config
pub mod Served
pub mod Runs
use pymod.Prelude.{
  ℕ, zero, suc, ◌+◌, ◌==◌, Bool, false, Option, none, some, List, [], ◌∷◌, if◌then◌else◌,
}
use pymod.Prelude.Int.{ℤ, pos, negsuc}
use pymod.Errors.{ExceptionClass, Result, ok, err, new_response, ◌>>=◌}
use pymod.Types.{Area}
use pymod.Server.{Datum, Server}

abbrev pub eq_ℤ : ℤ → ℤ → Bool
eq_ℤ (pos m) (pos n) = m == n
eq_ℤ (pos m) (negsuc n) = false
eq_ℤ (negsuc m) (pos n) = false
eq_ℤ (negsuc m) (negsuc n) = m == n

abbrev pub Store : Type 0
Store = List (ℤ × Datum)

-- `store[k]`, or none when `k not in store`.
unfoldable pub find : Store → ℤ → Option Datum
find [] k = none
find ((x, v) ∷ rest) k = let later = find rest k in if eq_ℤ x k then some v else later

-- `store[k] = v`
unfoldable pub put : Store → ℤ → Datum → Store
put [] k v = (k, v) ∷ []
put ((x, w) ∷ rest) k v =
    let later = put rest k v in if eq_ℤ x k then (x, v) ∷ rest else (x, w) ∷ later

pub record SimState : Type 0 where
  pub holding : Store
  pub input : Store
  pub coil : Store
  pub discrete : Store

-- `_SimState.__init__`
unfoldable pub new_state : SimState
new_state = record { holding = []; input = []; coil = []; discrete = [] }

-- `_store`
unfoldable pub store_of : SimState → Area → Store
store_of s Area.holding_register = s.holding
store_of s Area.input_register = s.input
store_of s Area.coil = s.coil
store_of s Area.discrete_input = s.discrete

-- The state after the dict of an area is changed in place.
unfoldable pub with_store : SimState → Area → Store → SimState
with_store s Area.holding_register d = record {
  holding = d;
  input = s.input;
  coil = s.coil;
  discrete = s.discrete;
}
with_store s Area.input_register d = record {
  holding = s.holding;
  input = d;
  coil = s.coil;
  discrete = s.discrete;
}
with_store s Area.coil d = record {
  holding = s.holding;
  input = s.input;
  coil = d;
  discrete = s.discrete;
}
with_store s Area.discrete_input d = record {
  holding = s.holding;
  input = s.input;
  coil = s.coil;
  discrete = d;
}

-- The loop of `read`: `count` cells from `address` on.
unfoldable pub read_cells : Store → ℕ → ℕ → Result (List Datum)
unfolding find new_response
read_cells store address zero = ok []
read_cells store address (suc count) = elim (find store (pos address)) [
  | none ↦ err (new_response ExceptionClass.illegal_data_address none)
  | some v ↦ do vs ← read_cells store (address + 1) count; ok (v ∷ vs)
]

unfoldable pub read_state : SimState → Area → ℕ → ℕ → Result (List Datum)
unfolding read_cells store_of
read_state s area address count = read_cells (store_of s area) address count

-- The loop of `write`.
unfoldable pub write_cells : Store → ℕ → List Datum → Store
unfolding put
write_cells store address [] = store
write_cells store address (v ∷ vs) = write_cells (put store (pos address) v) (address + 1) vs

unfoldable pub write_state : SimState → Area → ℕ → List Datum → SimState
unfolding write_cells store_of with_store
write_state s area address values = with_store s area (write_cells (store_of s area) address values)

-- `_run_serve`: the callbacks are the state's `read` and, unless `readonly`, its `write`.
unfoldable pub sim_server : Bool → Option ℕ → Server SimState
unfolding read_state write_state
sim_server readonly unit_id = record {
  on_read = λ s area address count. (s, read_state s area address count);
  on_write =
      if readonly
      then none
      else some (λ s area address values. (write_state s area address values, ok tt));
  unit_id = unit_id;
}
