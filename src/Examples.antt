-- ===== src/Examples.antt =====
-- examples/sim_server.py: the data of the example simulator and its callbacks. The number 3.14159 is a
-- parameter, as floats are; what is printed is left out.
use pymod.Prelude.{ℕ, zero, suc, ◌+◌, ◌*◌, ◌%◌, ◌==◌, none, some, List, [], ◌∷◌}
use pymod.Prelude.Int.{pos}
use pymod.Errors.{Result, ok, err, python_error, ◌>>=◌}
use pymod.Types.{Area, int, float, NumericDType, ByteOrder}
use pymod.Codec.Float.{FloatOps}
use pymod.Codec.Values.{encode_registers}
use pymod.Server.{Datum, integer, boolean, Server}
use pymod.Cli.Simulator.{SimState, read_cells, write_cells, store_of, with_store}

abbrev registers : List ℕ → List Datum
registers [] = []
registers (v ∷ vs) = integer (pos v) ∷ registers vs

-- `for i in range(n)`: the cells of the indices from `i` on.
abbrev cells_of : (ℕ → Datum) → ℕ → ℕ → List Datum
cells_of f i zero = []
cells_of f i (suc n) = f i ∷ cells_of f (i + 1) n

module _ (ops : FloatOps) (pi : ops.Float) where
  -- `_build_state`
  unfoldable pub build_state : Result SimState
  unfolding write_cells
  build_state = do
    pi_regs ← encode_registers ops (float pi ∷ []) NumericDType.float32 ByteOrder.big ByteOrder.big
    u32_regs ←
        encode_registers ops (int (pos 0x12345678) ∷ []) NumericDType.uint32 ByteOrder.big
          ByteOrder.big
    ok (record {
      holding =
          write_cells
            (write_cells
              (write_cells (write_cells [] 0 (cells_of (λ i. integer (pos ((i + 1) * 100))) 0 10))
                10 (registers pi_regs))
              12 (registers u32_regs))
            20 (cells_of (λ i. integer (pos 0)) 20 10);
      input = write_cells [] 0 (registers (25 ∷ 50 ∷ 75 ∷ 100 ∷ 999 ∷ []));
      coil = write_cells [] 0 (cells_of (λ i. boolean (i % 2 == 0)) 0 10);
      discrete = write_cells [] 0 (cells_of (λ i. boolean (i % 3 == 0)) 0 10);
    })

-- `on_write` of `make_callbacks`: an area without a key raises KeyError.
unfoldable pub example_write : SimState → Area → ℕ → List Datum → SimState × Result (Unit {0})
unfolding write_cells store_of with_store
example_write s Area.holding_register address values = (
  with_store s Area.holding_register
      (write_cells (store_of s Area.holding_register) address values),
  ok tt,
)
example_write s Area.coil address values =
    (with_store s Area.coil (write_cells (store_of s Area.coil) address values), ok tt)
example_write s Area.input_register address values = (s, err python_error)
example_write s Area.discrete_input address values = (s, err python_error)

-- `make_callbacks` and the server of `amain`, which accepts any unit id.
unfoldable pub example_server : Server SimState
unfolding example_write read_cells store_of
example_server = record {
  on_read = λ s area address count. (s, read_cells (store_of s area) address count);
  on_write = some example_write;
  unit_id = none;
}
