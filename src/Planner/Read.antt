-- ===== src/Planner/Read.antt =====
-- The read side of planner.py: executing chunks and assembling the results of the items.
-- The executor is a parameter: `execute k request` is what the `k`-th request of the batch gets, a
-- response PDU or an exception. Any interleaving of the requests that `asyncio.gather` starts fits
-- some such function. An exception that is no `ModbusError` ends the batch: of several, the first in the
-- order of the chunks, where `asyncio.gather` raises the one that came first.
pub mod Assemble
pub mod EndToEnd
use pymod.Prelude.{
  ℕ, ◌+◌, ◌-◌, ltb, leb, Bool, true, false, ◌&&◌, Option, none, some, List, [], ◌∷◌, ◌++◌, map,
  take, drop, length, if◌then◌else◌,
}
use pymod.Prelude.Int.{pos}
use pymod.Errors.{
  Exc, Result, ok, err, modbus_error, value_error, assertion_error, is_modbus_error, ◌>>=◌, ◌>>◌,
  guard,
}
use pymod.Types.{
  Area, numeric, bit, bits, RegisterItem, ReadItem, holding, input, coils, discrete, item_start,
  item_count, int, Value, number, boolean, ReadResult,
}
use pymod.Bytes.{Bytes}
use pymod.Codec.Float.{FloatOps}
use pymod.Codec.Values.{decode_registers}
use pymod.Codec.Bits.{extract_bit, extract_bits}
use pymod.Protocol.Pdu.Request.{
  encode_read_coils, encode_read_discrete_inputs, encode_read_holding_registers,
  encode_read_input_registers,
}
use pymod.Protocol.Pdu.Response.{
  decode_read_coils, decode_read_discrete_inputs, decode_read_holding_registers,
  decode_read_input_registers,
}
use pymod.Planner.Ranges.{ReadChunk, item_area, same_area, plan_read_chunks}

-- One element of the lists of ints and of bools that the decoders return.
pub data Cell : Type 0 where
  word : ℕ → Cell
  flag : Bool → Cell

pub record ReadChunkResult : Type 0 where
  pub chunk : ReadChunk
  pub values : Option (List Cell)
  pub error : Option Exc

abbrev pub Executor : Type 0
Executor = ℕ → Bytes → Result Bytes

unfoldable pub validate_register_item : RegisterItem → Result (Unit {0})
validate_register_item r = do
  guard (leb 1 r.count) value_error
  elim r.dtype [
    | numeric d ↦ ok tt
    | bit ↦ elim r.bit_index [ none ↦ err value_error | some i ↦ ok tt ]
    | bits ↦ elim r.bit_indices [ none ↦ err value_error | some l ↦ ok tt ]
  ]

unfoldable pub validate_read_item : ReadItem → Result (Unit {0})
unfolding validate_register_item
validate_read_item (holding r) = validate_register_item r
validate_read_item (input r) = validate_register_item r
validate_read_item (coils start count) = guard (leb 1 count) value_error
validate_read_item (discrete start count) = guard (leb 1 count) value_error

unfoldable pub validate_all : List ReadItem → Result (Unit {0})
unfolding validate_read_item
validate_all [] = ok tt
validate_all (item ∷ rest) = do validate_read_item item; validate_all rest

-- The body of the `try` of `_execute_read_chunk`.
unfoldable pub request_chunk : ReadChunk → (Bytes → Result Bytes) → Area → Result (List Cell)
request_chunk chunk execute Area.holding_register = do
  req ← encode_read_holding_registers chunk.start chunk.count
  resp ← execute req
  values ← decode_read_holding_registers resp chunk.count
  ok (map word values)
request_chunk chunk execute Area.input_register = do
  req ← encode_read_input_registers chunk.start chunk.count
  resp ← execute req
  values ← decode_read_input_registers resp chunk.count
  ok (map word values)
request_chunk chunk execute Area.coil = do
  req ← encode_read_coils chunk.start chunk.count
  resp ← execute req
  values ← decode_read_coils resp chunk.count
  ok (map flag values)
request_chunk chunk execute Area.discrete_input = do
  req ← encode_read_discrete_inputs chunk.start chunk.count
  resp ← execute req
  values ← decode_read_discrete_inputs resp chunk.count
  ok (map flag values)

-- `except ModbusError`; any other exception passes.
unfoldable pub catch_chunk : ReadChunk → Result (List Cell) → Result ReadChunkResult
catch_chunk chunk (ok values) = ok (record { chunk = chunk; values = some values; error = none })
catch_chunk chunk (err e) =
    if is_modbus_error e
    then ok (record { chunk = chunk; values = none; error = some e })
    else err e

unfoldable pub execute_read_chunk : ReadChunk → (Bytes → Result Bytes) → Result ReadChunkResult
unfolding request_chunk catch_chunk
execute_read_chunk chunk execute = catch_chunk chunk (request_chunk chunk execute chunk.area)

-- `asyncio.gather(*(_execute_read_chunk(c, execute) for c in chunks))`, from request `k` on.
unfoldable pub gather_reads : Executor → ℕ → List ReadChunk → Result (List ReadChunkResult)
unfolding execute_read_chunk
gather_reads execute k [] = ok []
gather_reads execute k (chunk ∷ rest) = do
  r ← execute_read_chunk chunk (execute k)
  rs ← gather_reads execute (k + 1) rest
  ok (r ∷ rs)

-- The condition of the comprehension that builds `covering`.
unfoldable pub covers_item : Area → ℕ → ℕ → ReadChunkResult → Bool
covers_item area start end cr =
    same_area cr.chunk.area area
    && (ltb cr.chunk.start end && ltb start (cr.chunk.start + cr.chunk.count))

unfoldable pub select_covering : Area → ℕ → ℕ → List ReadChunkResult → List ReadChunkResult
unfolding covers_item
select_covering area start end [] = []
select_covering area start end (cr ∷ rest) =
    let more = select_covering area start end rest in
    if covers_item area start end cr then cr ∷ more else more

-- `covering.sort(key=lambda cr: cr.chunk.start)`, which is stable.
unfoldable pub insert_by_start : ReadChunkResult → List ReadChunkResult → List ReadChunkResult
insert_by_start x [] = x ∷ []
insert_by_start x (y ∷ rest) =
    if leb x.chunk.start y.chunk.start then x ∷ y ∷ rest else y ∷ insert_by_start x rest

unfoldable pub sort_by_start : List ReadChunkResult → List ReadChunkResult
unfolding insert_by_start
sort_by_start [] = []
sort_by_start (x ∷ rest) = insert_by_start x (sort_by_start rest)

-- `for cr in covering: if cr.error is not None`
unfoldable pub first_error : List ReadChunkResult → Option Exc
first_error [] = none
first_error (cr ∷ rest) = elim cr.error [ none ↦ first_error rest | some e ↦ some e ]

-- The loop that extends `flat`, with its assertion.
unfoldable pub flatten_values : List ReadChunkResult → Result (List Cell)
flatten_values [] = ok []
flatten_values (cr ∷ rest) = do
  values ← elim cr.values [ none ↦ err assertion_error | some vs ↦ ok vs ]
  more ← flatten_values rest
  ok (values ++ more)

-- `flat[rel_start:rel_end]` with `rel_start = start - base` and `rel_end = rel_start + count`. A
-- negative bound counts from the end.
unfoldable pub slice_from : ℕ → ℕ → ℕ → List Cell → List Cell
slice_from base start count flat =
    if leb base start
    then take count (drop (start - base) flat)
    else let lo = length flat - (base - start) in
      let hi =
        if leb (base - start) count
        then count - (base - start)
        else length flat - (base - start - count) in
      take (hi - lo) (drop lo flat)

-- A register as an int: Python's bools are ints.
unfoldable pub register_of : Cell → ℕ
register_of (word n) = n
register_of (flag true) = 1
register_of (flag false) = 0

module _ (ops : FloatOps) where
  open ops use {Float}

  unfoldable pub value_of : Cell → Value Float
  value_of (word n) = number (int (pos n))
  value_of (flag b) = boolean b

  -- The body of the `try` of `_decode_register_item`.
  unfoldable pub decode_typed : RegisterItem → List ℕ → Result (List (Value Float))
  unfolding value_of
  decode_typed r raw = elim r.dtype [
    | bit ↦ elim r.bit_index [
      | none ↦ err assertion_error
      | some i ↦ do
        b ← extract_bit raw i r.word_order r.byte_order r.bit_numbering
        ok (boolean b ∷ [])
    ]
    | bits ↦ elim r.bit_indices [
      | none ↦ err assertion_error
      | some l ↦ do
        bs ← extract_bits raw l r.word_order r.byte_order r.bit_numbering
        ok (map boolean bs)
    ]
    | numeric d ↦ do ns ← decode_registers ops raw d r.word_order r.byte_order; ok (map number ns)
  ]

  failed : ReadItem → Exc → ReadResult Float
  failed item e = record { item = item; values = []; ok? = false; error = some e }

  succeeded : ReadItem → List (Value Float) → ReadResult Float
  succeeded item values = record { item = item; values = values; ok? = true; error = none }

  -- `except ValueError`; any other exception passes.
  unfoldable pub catch_decode : ReadItem → Result (List (Value Float)) → Result (ReadResult Float)
  unfolding failed succeeded
  catch_decode item (ok values) = ok (succeeded item values)
  catch_decode item (err value_error) = ok (failed item modbus_error)
  catch_decode item (err e) = err e

  unfoldable pub decode_item_values : ReadItem → List Cell → Result (ReadResult Float)
  unfolding decode_typed catch_decode value_of succeeded register_of
  decode_item_values (coils start count) cells =
      ok (succeeded (coils start count) (map value_of cells))
  decode_item_values (discrete start count) cells =
      ok (succeeded (discrete start count) (map value_of cells))
  decode_item_values (holding r) cells =
      catch_decode (holding r) (decode_typed r (map register_of cells))
  decode_item_values (input r) cells =
      catch_decode (input r) (decode_typed r (map register_of cells))

  -- The rest of `_decode_read_item`, once `covering` is sorted.
  unfoldable pub assemble : ReadItem → List ReadChunkResult → Result (ReadResult Float)
  unfolding failed first_error flatten_values slice_from decode_item_values
  assemble item [] = ok (failed item modbus_error)
  assemble item (cr ∷ rest) = elim (first_error (cr ∷ rest)) [
    | some e ↦ ok (failed item e)
    | none ↦ do
      flat ← flatten_values (cr ∷ rest)
      decode_item_values item (slice_from cr.chunk.start (item_start item) (item_count item) flat)
  ]

  unfoldable pub decode_read_item : ReadItem → List ReadChunkResult → Result (ReadResult Float)
  unfolding assemble select_covering sort_by_start
  decode_read_item item chunk_results = assemble item (
      sort_by_start (
        select_covering (item_area item) (item_start item) (item_start item + item_count item)
          chunk_results))

  unfoldable pub decode_all :
      List ReadItem → List ReadChunkResult → Result (List (ReadResult Float))
  unfolding decode_read_item
  decode_all [] chunk_results = ok []
  decode_all (item ∷ rest) chunk_results = do
    r ← decode_read_item item chunk_results
    rs ← decode_all rest chunk_results
    ok (r ∷ rs)

  -- For no items there are no chunks, and the early return of the source gives the same empty list.
  unfoldable pub plan_and_execute_reads :
      List ReadItem → Executor → Result (List (ReadResult Float))
  unfolding validate_all gather_reads decode_all plan_read_chunks
  plan_and_execute_reads [] execute = ok []
  plan_and_execute_reads (item ∷ rest) execute = do
    validate_all (item ∷ rest)
    chunk_results ← gather_reads execute 0 (plan_read_chunks (item ∷ rest))
    decode_all (item ∷ rest) chunk_results
