-- ===== src/Planner/Runs.antt =====
-- A device and a batch, and the planner's theorems there.
use pymod.Prelude.{
  ℕ, ◌%◌, ◌==◌, ◌∙◌, if◌then◌else◌, ◌≡◌, refl, Option, none, some, List, [], ◌∷◌, arith,
}
use pymod.Errors.{Exc, timeout_error}
use pymod.Types.{Area, big, uint16, numeric, lsb_first, RegisterItem, ReadItem, holding, coils}
use pymod.Codec.Runs.{whole_floats}
use pymod.Planner.Ranges.{ReadChunk, item_area, plan_read_chunks, merge_ranges}
use pymod.Planner.Ranges.Merge.{covered}
use pymod.Planner.Ranges.Split.{Chunks, any_covers}
use pymod.Planner.Ranges.Group.{of_area, ranges_of, plan_read_chunks_lem}
use pymod.Planner.Ranges.Bounds.{items-IsCovered}
use pymod.Planner.Read.{decode_item_values, decode_read_item}
use pymod.Planner.Read.Assemble.{Device, cells, results, decode_read_item-results}
use pymod.Planner.Read.EndToEnd.{IsDevice}
use pymod.Planner.Write.{split_values}
use pymod.Planner.Write.Chunks.{joined, Consecutive, split_values_lem}

-- Every register holds its own address, and every other bit is set.
abbrev pub counting : Device
counting = record {
  coil_at = λ x. x % 2 == 0;
  discrete_at = λ x. x % 2 == 1;
  holding_at = λ x. x % 65536;
  input_at = λ x. x % 65536;
}

pub counting-IsDevice : IsDevice counting
counting-IsDevice = record { holding_fits = λ x. ground arith; input_fits = λ x. ground arith }

abbrev pub two_registers : RegisterItem
two_registers = record {
  start = 100;
  count = 2;
  dtype = numeric uint16;
  word_order = big;
  byte_order = big;
  bit_index = none;
  bit_indices = none;
  bit_numbering = lsb_first;
}

-- The two registers at 100, the nine coils at 8, and the coils at 12 and 13, which are among them.
abbrev pub batch : List ReadItem
batch = holding two_registers ∷ coils 8 9 ∷ coils 12 2 ∷ []

planned :
    plan_read_chunks batch
    ≡ record { area = Area.holding_register; start = 100; count = 2 }
      ∷ record { area = Area.coil; start = 8; count = 9 }
      ∷ []
unfolding plan_read_chunks
planned = refl

merged : merge_ranges ((8, 17) ∷ (12, 14) ∷ (30, 31) ∷ (17, 20) ∷ []) ≡ (8, 20) ∷ (30, 31) ∷ []
unfolding merge_ranges
merged = refl

plan_read_chunks_lem_example :
    Chunks Area.coil 0 (of_area Area.coil (plan_read_chunks batch))
    × ((x : ℕ)
        → any_covers x (of_area Area.coil (plan_read_chunks batch))
          ≡ covered x (ranges_of Area.coil batch))
plan_read_chunks_lem_example = plan_read_chunks_lem Area.coil batch (ground arith)

-- The registers' chunk failed, and the coils are still read.
abbrev registers_fail : ReadChunk → Option Exc
registers_fail c = if c.start == 100 then some timeout_error else none

decode_read_item-results_example :
    decode_read_item whole_floats
      (coils 12 2)
      (results counting registers_fail (plan_read_chunks batch))
    ≡ decode_item_values whole_floats (coils 12 2) (cells counting Area.coil 12 2)
unfolding item_area plan_read_chunks
decode_read_item-results_example =
    decode_read_item-results counting registers_fail whole_floats (coils 12 2)
      (plan_read_chunks batch) (omega arith) (plan_read_chunks_lem Area.coil batch (ground arith)).0
      (λ x lo hi.
        (plan_read_chunks_lem Area.coil batch (ground arith)).1 x
        ∙ (items-IsCovered batch).1.1.0 x lo hi)
      (refl, tt)

abbrev three_values : List ℕ
three_values = 7 ∷ 8 ∷ 9 ∷ []

split_values_lem_example :
    (joined (split_values 3 2 10 three_values) ≡ three_values)
    × Consecutive 2 10 (split_values 3 2 10 three_values)
split_values_lem_example = split_values_lem 3 2 10 three_values (omega arith) (omega arith)
