-- ===== src/Planner/Write.antt =====
-- The write side of planner.py: encoding and splitting the items, executing the chunks, and the first
-- error of each item. The executor is the parameter that `Planner.Read` describes.
pub mod Chunks
use pymod.Prelude.{
  ℕ, zero, suc, ◌+◌, leb, min, Bool, true, false, Option, none, some, List, [], ◌∷◌, ◌++◌, take,
  drop, length, if◌then◌else◌,
}
use pymod.Errors.{
  Exc, Result, ok, err, value_error, index_error, is_modbus_error, ◌>>=◌, ◌>>◌, guard,
}
use pymod.Types.{WriteItem, write_holding, write_coils, WriteResult}
use pymod.Bytes.{Bytes}
use pymod.Codec.Float.{FloatOps}
use pymod.Codec.Values.{encode_registers}
use pymod.Protocol.Pdu.{max_write_registers, max_write_coils}
use pymod.Protocol.Pdu.Request.{
  encode_write_single_coil, encode_write_single_register, encode_write_multiple_coils,
  encode_write_multiple_registers,
}
use pymod.Protocol.Pdu.Response.{
  decode_write_single_coil, decode_write_single_register, decode_write_multiple_coils,
  decode_write_multiple_registers,
}
use pymod.Planner.Read.{Executor}

-- `area` with `register_values` and `coil_values`: a chunk has the one list that its area uses.
pub data Payload : Type 0 where
  register_values : List ℕ → Payload
  coil_values : List Bool → Payload

pub record WriteChunk : Type 0 where
  pub item_idx : ℕ
  pub start : ℕ
  pub payload : Payload

pub record WriteChunkResult : Type 0 where
  pub chunk : WriteChunk
  pub error : Option Exc

-- `values[cur:cur + size]` with its address for each turn of the `while` loop. `n` is the fuel.
unfoldable pub split_values {ℓ} : {A : Type ℓ} → ℕ → ℕ → ℕ → List A → List (ℕ × List A)
split_values zero limit addr values = []
split_values (suc n) limit addr [] = []
split_values (suc n) limit addr (v ∷ vs) =
    let size = min limit (length (v ∷ vs)) in
    (addr, take size (v ∷ vs)) ∷ split_values n limit (addr + size) (drop size (v ∷ vs))

unfoldable pub register_chunks : ℕ → List (ℕ × List ℕ) → List WriteChunk
register_chunks idx [] = []
register_chunks idx ((addr, values) ∷ rest) =
    record { item_idx = idx; start = addr; payload = register_values values }
    ∷ register_chunks idx rest

unfoldable pub coil_chunks : ℕ → List (ℕ × List Bool) → List WriteChunk
coil_chunks idx [] = []
coil_chunks idx ((addr, values) ∷ rest) =
    record { item_idx = idx; start = addr; payload = coil_values values } ∷ coil_chunks idx rest

-- The body of the `try` of `_execute_write_chunk`.
unfoldable pub request_write : ℕ → Payload → (Bytes → Result Bytes) → Result (Unit {0})
request_write start (register_values (value ∷ [])) execute = do
  req ← encode_write_single_register start value
  resp ← execute req
  _ ← decode_write_single_register resp
  ok tt
request_write start (register_values values) execute = do
  req ← encode_write_multiple_registers start values
  resp ← execute req
  _ ← decode_write_multiple_registers resp
  ok tt
request_write start (coil_values (value ∷ [])) execute = do
  req ← encode_write_single_coil start value
  resp ← execute req
  _ ← decode_write_single_coil resp
  ok tt
request_write start (coil_values values) execute = do
  req ← encode_write_multiple_coils start values
  resp ← execute req
  _ ← decode_write_multiple_coils resp
  ok tt

-- `except ModbusError`; any other exception passes.
unfoldable pub catch_write : WriteChunk → Result (Unit {0}) → Result WriteChunkResult
catch_write chunk (ok u) = ok (record { chunk = chunk; error = none })
catch_write chunk (err e) =
    if is_modbus_error e then ok (record { chunk = chunk; error = some e }) else err e

unfoldable pub execute_write_chunk : WriteChunk → (Bytes → Result Bytes) → Result WriteChunkResult
unfolding request_write catch_write
execute_write_chunk chunk execute =
    catch_write chunk (request_write chunk.start chunk.payload execute)

-- `asyncio.gather` over the chunks, from request `k` on; of several exceptions that are no `ModbusError`, the
-- first in the order of the chunks, where `gather` raises the one that came first.
unfoldable pub gather_writes : Executor → ℕ → List WriteChunk → Result (List WriteChunkResult)
unfolding execute_write_chunk
gather_writes execute k [] = ok []
gather_writes execute k (chunk ∷ rest) = do
  r ← execute_write_chunk chunk (execute k)
  rs ← gather_writes execute (k + 1) rest
  ok (r ∷ rs)

module _ {F : Type 0} where
  unfoldable pub validate_write_item : WriteItem F → Result (Unit {0})
  validate_write_item (write_holding start values dtype word_order byte_order) =
      guard (leb 1 (length values)) value_error
  validate_write_item (write_coils start values) = guard (leb 1 (length values)) value_error

  -- `WriteResult(item=item, ok=True, error=None) for item in items`
  unfoldable pub all_ok : List (WriteItem F) → List (WriteResult F)
  all_ok [] = []
  all_ok (x ∷ rest) = record { item = x; ok? = true; error = none } ∷ all_ok rest

  -- `if results[idx].ok: results[idx] = WriteResult(item=items[idx], ok=False, error=cr.error)`
  unfoldable pub fail_at : ℕ → Exc → List (WriteResult F) → Result (List (WriteResult F))
  fail_at idx e [] = err index_error
  fail_at zero e (r ∷ rest) =
      if r.ok?
      then ok (record { item = r.item; ok? = false; error = some e } ∷ rest)
      else ok (r ∷ rest)
  fail_at (suc idx) e (r ∷ rest) = do rest' ← fail_at idx e rest; ok (r ∷ rest')

  unfoldable pub apply_errors :
      List WriteChunkResult → List (WriteResult F) → Result (List (WriteResult F))
  unfolding fail_at
  apply_errors [] results = ok results
  apply_errors (cr ∷ rest) results = elim cr.error [
    | none ↦ apply_errors rest results
    | some e ↦ do results' ← fail_at cr.chunk.item_idx e results; apply_errors rest results'
  ]

module _ (ops : FloatOps) where
  open ops use {Float}

  -- The chunks of one item.
  unfoldable pub plan_item : ℕ → WriteItem Float → Result (List WriteChunk)
  unfolding validate_write_item split_values register_chunks coil_chunks
  plan_item idx (write_holding start values dtype word_order byte_order) = do
    validate_write_item (write_holding start values dtype word_order byte_order)
    regs ← encode_registers ops values dtype word_order byte_order
    ok (register_chunks idx (split_values (length regs) max_write_registers start regs))
  plan_item idx (write_coils start values) = do
    validate_write_item {F = Float} (write_coils start values)
    ok (coil_chunks idx (split_values (length values) max_write_coils start values))

  -- `for idx, item in enumerate(items)`, from `idx` on.
  unfoldable pub plan_writes : ℕ → List (WriteItem Float) → Result (List WriteChunk)
  unfolding plan_item
  plan_writes idx [] = ok []
  plan_writes idx (item ∷ rest) = do
    chunks ← plan_item idx item
    more ← plan_writes (idx + 1) rest
    ok (chunks ++ more)

  unfoldable pub plan_and_execute_writes :
      List (WriteItem Float) → Executor → Result (List (WriteResult Float))
  unfolding plan_writes gather_writes all_ok apply_errors
  plan_and_execute_writes [] execute = ok []
  plan_and_execute_writes (item ∷ rest) execute = do
    chunks ← plan_writes 0 (item ∷ rest)
    chunk_results ← gather_writes execute 0 chunks
    apply_errors chunk_results (all_ok (item ∷ rest))
