-- ===== src/Planner/Read/EndToEnd.antt =====
-- A whole batch of src/pymod/planner.py against a device that answers.
use pymod.Prelude.{
  ℕ, zero, suc, ◌+◌, ◌/◌, ◌%◌, ◌≤◌, ◌<◌, ◌≡◌, ◌∙◌, refl, ap, inl, inr, Bool, false, none, List, [],
  ◌∷◌, map, arith, leb, length, All, Bool-cases, leb→le,
}
use mathlib.Core.Path.{subst}
use pymod.Errors.{Result, ok, err, ◌>>=◌, ◌>>◌, value_error, Result-cases, then_ok}
use pymod.Types.{
  Area, ReadItem, holding, input, coils, discrete, item_start, item_count, ReadResult,
}
use pymod.Bytes.{Bytes, IsWord}
use pymod.Bytes.Laws.{pack_bhh_lem}
use pymod.Codec.Float.{FloatOps}
use pymod.Protocol.Pdu.Request.{
  encode_read_coils, encode_read_discrete_inputs, encode_read_holding_registers,
  encode_read_input_registers,
}
use pymod.Protocol.Pdu.RoundTrip.{encode_request}
use pymod.Protocol.Pdu.SlaveResponse.{
  encode_response_read_coils, encode_response_read_discrete_inputs,
  encode_response_read_holding_registers, encode_response_read_input_registers,
}
use pymod.Protocol.Pdu.Response.{
  decode_read_coils, decode_read_discrete_inputs, decode_read_holding_registers,
  decode_read_input_registers,
}
use pymod.Protocol.Pdu.Replies.{bit_responses, register_responses}
use pymod.Planner.Ranges.{ReadChunk, item_area, read_limit, plan_read_chunks}
use pymod.Planner.Ranges.Group.{HasCount, plan_read_chunks_lem}
use pymod.Planner.Ranges.Bounds.{
  IsWithin, ItemEndsBy, IsCovered, items-IsCovered, plan_read_chunks-IsWithin,
}
use pymod.Planner.Read.{
  Cell, word, flag, Executor, validate_read_item, validate_all, request_chunk, catch_chunk,
  execute_read_chunk, gather_reads, decode_item_values, decode_all, plan_and_execute_reads,
}
use pymod.Planner.Read.Assemble.{Device, cells, results, NoFailure, decode_read_item-results}

abbrev pub values_from {ℓ} : {A : Type ℓ} → (ℕ → A) → ℕ → ℕ → List A
values_from f x zero = []
values_from f x (suc n) = f x ∷ values_from f (x + 1) n

pub length-values_from {ℓ} : {A : Type ℓ} (f : ℕ → A) (x n : ℕ) → length (values_from f x n) ≡ n
length-values_from f x zero = refl
length-values_from f x (suc n) = ap suc (length-values_from f (x + 1) n)

pub All-values_from :
    (f : ℕ → ℕ) (x n : ℕ) → ((y : ℕ) → IsWord (f y)) → All IsWord (values_from f x n)
All-values_from f x zero h = tt
All-values_from f x (suc n) h = (h x, All-values_from f (x + 1) n h)

-- The registers of the device fit a word.
pub record IsDevice (d : Device) : Type 0 where
  pub holding_fits : (x : ℕ) → IsWord (d.holding_at x)
  pub input_fits : (x : ℕ) → IsWord (d.input_at x)

-- The response PDU with the device's values.
abbrev pub device_response : Device → Area → ℕ → ℕ → Result Bytes
device_response d Area.coil x n = encode_response_read_coils (values_from d.coil_at x n)
device_response d Area.discrete_input x n =
    encode_response_read_discrete_inputs (values_from d.discrete_at x n)
device_response d Area.holding_register x n =
    encode_response_read_holding_registers (values_from d.holding_at x n)
device_response d Area.input_register x n =
    encode_response_read_input_registers (values_from d.input_at x n)

-- The executor returns the device's response to each read request, whichever request of the batch
-- it is.
abbrev pub Answers : Device → Executor → Type 0
Answers d execute =
    (k : ℕ) (area : Area) (start count : ℕ) (req : Bytes)
    → encode_request area start count ≡ ok req
    → execute k req ≡ device_response d area start count

cells-flags :
    (d : Device) (x n : ℕ)
    → (map flag (values_from d.coil_at x n) ≡ cells d Area.coil x n)
      × (map flag (values_from d.discrete_at x n) ≡ cells d Area.discrete_input x n)
cells-flags d x zero = (refl, refl)
cells-flags d x (suc n) =
    let (p, q) = cells-flags d (x + 1) n in
    (
      ap (λ (t : List Cell). flag (d.coil_at x) ∷ t) p,
      ap (λ (t : List Cell). flag (d.discrete_at x) ∷ t) q,
    )

cells-words :
    (d : Device) (x n : ℕ)
    → (map word (values_from d.holding_at x n) ≡ cells d Area.holding_register x n)
      × (map word (values_from d.input_at x n) ≡ cells d Area.input_register x n)
cells-words d x zero = (refl, refl)
cells-words d x (suc n) =
    let (p, q) = cells-words d (x + 1) n in
    (
      ap (λ (t : List Cell). word (d.holding_at x) ∷ t) p,
      ap (λ (t : List Cell). word (d.input_at x) ∷ t) q,
    )

encodes :
    (area : Area) (start count : ℕ)
    → start < 65536
    → 1 ≤ count
    → count ≤ read_limit area
    → (req : Bytes) × (encode_request area start count ≡ ok req)
unfolding read_limit encode_read_coils encode_read_discrete_inputs encode_read_holding_registers
    encode_read_input_registers
encodes Area.coil start count h lo hi = (
  1 ∷ (start / 256) ∷ (start % 256) ∷ (count / 256) ∷ (count % 256) ∷ [],
  ground (arith, pack_bhh_lem 1 start count (omega arith) h (omega arith)),
)
encodes Area.discrete_input start count h lo hi = (
  2 ∷ (start / 256) ∷ (start % 256) ∷ (count / 256) ∷ (count % 256) ∷ [],
  ground (arith, pack_bhh_lem 2 start count (omega arith) h (omega arith)),
)
encodes Area.holding_register start count h lo hi = (
  3 ∷ (start / 256) ∷ (start % 256) ∷ (count / 256) ∷ (count % 256) ∷ [],
  ground (arith, pack_bhh_lem 3 start count (omega arith) h (omega arith)),
)
encodes Area.input_register start count h lo hi = (
  4 ∷ (start / 256) ∷ (start % 256) ∷ (count / 256) ∷ (count % 256) ∷ [],
  ground (arith, pack_bhh_lem 4 start count (omega arith) h (omega arith)),
)

module _ (d : Device) (fits : IsDevice d) (execute : Executor) (answers : Answers d execute) where
  request_chunk-device :
      (k : ℕ) (chunk : ReadChunk) (area : Area)
      → chunk.start < 65536
      → 1 ≤ chunk.count
      → chunk.count ≤ read_limit area
      → request_chunk chunk (execute k) area ≡ ok (cells d area chunk.start chunk.count)
  unfolding request_chunk read_limit
  request_chunk-device k chunk Area.coil h lo hi =
      let (req, e) = encodes Area.coil chunk.start chunk.count h lo hi in
      let vs : List Bool = values_from d.coil_at chunk.start chunk.count in
      let n : length vs ≡ chunk.count = length-values_from d.coil_at chunk.start chunk.count in
      let (pdu, enc, dec) = (bit_responses vs (omega arith)).0 in
      rw
        (
          e,
          answers k Area.coil chunk.start chunk.count req e,
          enc,
          subst (λ (m : ℕ). decode_read_coils pdu m ≡ ok vs) n dec,
        )
        (ap ok (cells-flags d chunk.start chunk.count).0)
  request_chunk-device k chunk Area.discrete_input h lo hi =
      let (req, e) = encodes Area.discrete_input chunk.start chunk.count h lo hi in
      let vs : List Bool = values_from d.discrete_at chunk.start chunk.count in
      let n : length vs ≡ chunk.count = length-values_from d.discrete_at chunk.start chunk.count in
      let (pdu, enc, dec) = (bit_responses vs (omega arith)).1 in
      rw
        (
          e,
          answers k Area.discrete_input chunk.start chunk.count req e,
          enc,
          subst (λ (m : ℕ). decode_read_discrete_inputs pdu m ≡ ok vs) n dec,
        )
        (ap ok (cells-flags d chunk.start chunk.count).1)
  request_chunk-device k chunk Area.holding_register h lo hi =
      let (req, e) = encodes Area.holding_register chunk.start chunk.count h lo hi in
      let vs : List ℕ = values_from d.holding_at chunk.start chunk.count in
      let n : length vs ≡ chunk.count = length-values_from d.holding_at chunk.start chunk.count in
      let words = All-values_from d.holding_at chunk.start chunk.count fits.holding_fits in
      let (pdu, enc, dec) = (register_responses vs words (omega arith)).0 in
      rw
        (
          e,
          answers k Area.holding_register chunk.start chunk.count req e,
          enc,
          subst (λ (m : ℕ). decode_read_holding_registers pdu m ≡ ok vs) n dec,
        )
        (ap ok (cells-words d chunk.start chunk.count).0)
  request_chunk-device k chunk Area.input_register h lo hi =
      let (req, e) = encodes Area.input_register chunk.start chunk.count h lo hi in
      let vs : List ℕ = values_from d.input_at chunk.start chunk.count in
      let n : length vs ≡ chunk.count = length-values_from d.input_at chunk.start chunk.count in
      let words = All-values_from d.input_at chunk.start chunk.count fits.input_fits in
      let (pdu, enc, dec) = (register_responses vs words (omega arith)).1 in
      rw
        (
          e,
          answers k Area.input_register chunk.start chunk.count req e,
          enc,
          subst (λ (m : ℕ). decode_read_input_registers pdu m ≡ ok vs) n dec,
        )
        (ap ok (cells-words d chunk.start chunk.count).1)

  gather_reads-device :
      (k : ℕ) (l : List ReadChunk)
      → All (IsWithin 65536) l
      → gather_reads execute k l ≡ ok (results d (λ _. none) l)
  unfolding gather_reads execute_read_chunk catch_chunk
  gather_reads-device k [] h = refl
  gather_reads-device k (chunk ∷ l) h =
      rw
        (
          request_chunk-device k chunk chunk.area h.0.0 h.0.1 h.0.2,
          gather_reads-device (k + 1) l h.1,
        )
        refl

NoFailure-none : (d : Device) (l : List ReadChunk) → NoFailure d (λ _. none) l
NoFailure-none d [] = tt
NoFailure-none d (c ∷ l) = (refl, NoFailure-none d l)

-- What a batch gives when each item is decoded from the device's cells at its own addresses.
unfoldable pub direct_reads :
    (ops : FloatOps) → Device → List ReadItem → Result (List (ReadResult ops.Float))
direct_reads ops d [] = ok []
direct_reads ops d (item ∷ rest) = do
  r ← decode_item_values ops item (cells d (item_area item) (item_start item) (item_count item))
  rs ← direct_reads ops d rest
  ok (r ∷ rs)

validate_read_item-err :
    (item : ReadItem) → leb 1 (item_count item) ≡ false → validate_read_item item ≡ err value_error
unfolding validate_read_item
validate_read_item-err (holding r) n = rw n refl
validate_read_item-err (input r) n = rw n refl
validate_read_item-err (coils start count) n = rw n refl
validate_read_item-err (discrete start count) n = rw n refl

-- A batch that is validated asks at least one unit with each item.
validate_all-HasCount : (items : List ReadItem) → validate_all items ≡ ok tt → All HasCount items
unfolding validate_all
validate_all-HasCount [] h = tt
validate_all-HasCount (item ∷ rest) h =
    let (first, more) = then_ok (validate_read_item item) (validate_all rest) tt h in
    (
      elim (Bool-cases (leb 1 (item_count item))) [
        | inr n ↦ ground (arith, validate_read_item-err item n, first)
        | inl y ↦ leb→le 1 (item_count item) y
      ],
      validate_all-HasCount rest more,
    )

decode_all-device :
    (ops : FloatOps) (d : Device) (batch items : List ReadItem)
    → All HasCount batch
    → All HasCount items
    → All (IsCovered batch) items
    → decode_all ops items (results d (λ _. none) (plan_read_chunks batch))
      ≡ direct_reads ops d items
unfolding decode_all direct_reads
decode_all-device ops d batch [] b h c = refl
decode_all-device ops d batch (item ∷ rest) b h c =
    let (chunks, same) = plan_read_chunks_lem (item_area item) batch b in
    rw
      (
        decode_read_item-results d (λ _. none) ops item (plan_read_chunks batch) h.0 chunks
            (λ x lo hi. same x ∙ c.0 x lo hi) (NoFailure-none d _),
        decode_all-device ops d batch rest b h.1 c.1,
      )
      refl

-- For a device whose registers fit a word, items that end by address 65536 and an executor that
-- returns, for every read request, the response with the device's values, the batch gives what decoding each item from the device's own
-- cells gives, or the exception of the validation when an item is invalid.
pub plan_and_execute_reads-direct_reads :
    (ops : FloatOps) (d : Device) (execute : Executor) (items : List ReadItem)
    → IsDevice d
    → Answers d execute
    → All (ItemEndsBy 65536) items
    → plan_and_execute_reads ops items execute ≡ (validate_all items >> direct_reads ops d items)
unfolding plan_and_execute_reads direct_reads
plan_and_execute_reads-direct_reads ops d execute [] fits answers h = refl
plan_and_execute_reads-direct_reads ops d execute (item ∷ rest) fits answers h =
    elim (Result-cases (validate_all (item ∷ rest))) [
      | inr (e, n) ↦ rw n refl
      | inl (u, y) ↦
          let counts = validate_all-HasCount (item ∷ rest) y in
          rw
            (
              y,
              gather_reads-device d fits execute answers 0 (plan_read_chunks (item ∷ rest))
                  (plan_read_chunks-IsWithin 65536 (item ∷ rest) h),
            )
            (decode_all-device ops d (item ∷ rest) (item ∷ rest) counts counts
              (items-IsCovered (item ∷ rest)))
    ]
