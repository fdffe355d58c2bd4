-- ===== src/Server/System.antt =====
-- Client and server together: a batch of src/pymod/planner.py whose requests go to a server of
-- src/pymod/server.py, the read callback of which returns a device's values.
use pymod.Prelude.{
  ℕ, suc, ◌/◌, ◌%◌, ◌≤◌, ◌≡◌, refl, ap, Bool, false, List, [], ◌∷◌, map, arith, length, All,
}
use mathlib.Core.Path.{subst}
use pymod.Prelude.Int.{pos}
use pymod.Errors.{Result, ok, ◌>>◌}
use pymod.Types.{Area, ReadItem}
use pymod.Bytes.{Bytes, IsWord}
use pymod.Bytes.Laws.{pack_bhh_lem}
use pymod.Codec.Float.{FloatOps}
use pymod.Protocol.Pdu.Request.{
  encode_read_coils, encode_read_discrete_inputs, encode_read_holding_registers,
  encode_read_input_registers,
}
use pymod.Protocol.Pdu.RoundTrip.{encode_request, decode_request, decode_request-encode_request}
use pymod.Protocol.Pdu.Replies.{bit_responses, register_responses}
use pymod.Planner.Ranges.{read_limit}
use pymod.Planner.Ranges.Bounds.{ItemEndsBy}
use pymod.Planner.Read.{validate_all, plan_and_execute_reads}
use pymod.Planner.Read.Assemble.{Device}
use pymod.Planner.Read.EndToEnd.{
  IsDevice, device_response, values_from, length-values_from, All-values_from, direct_reads,
  plan_and_execute_reads-direct_reads,
}
use pymod.Server.{
  Datum, integer, boolean, to_bool, to_int, to_bool_list, collect_words, to_int_list, Server,
  handle, handle_read, catch_handler, is_foreign, dispatch,
}

-- The values that a read callback takes from the device.
abbrev pub device_data : Device → Area → ℕ → ℕ → List Datum
device_data d Area.coil x n = map boolean (values_from d.coil_at x n)
device_data d Area.discrete_input x n = map boolean (values_from d.discrete_at x n)
device_data d Area.holding_register x n = map (λ v. integer (pos v)) (values_from d.holding_at x n)
device_data d Area.input_register x n = map (λ v. integer (pos v)) (values_from d.input_at x n)

map-to_bool : (values : List Bool) → map to_bool (map boolean values) ≡ values
unfolding to_bool
map-to_bool [] = refl
map-to_bool (b ∷ values) = ap (λ (t : List Bool). b ∷ t) (map-to_bool values)

length-map {ℓ κ} : {A : Type ℓ} {B : Type κ} (f : A → B) (l : List A) → length (map f l) ≡ length l
length-map f [] = refl
length-map f (x ∷ l) = ap suc (length-map f l)

pub to_bool_list-booleans :
    (values : List Bool) (n : ℕ)
    → length values ≡ n
    → to_bool_list (map boolean values) n ≡ ok values
unfolding to_bool_list
to_bool_list-booleans values n h = ground (arith, length-map boolean values, map-to_bool values)

collect_words-words :
    (values : List ℕ)
    → All IsWord values
    → collect_words (map (λ v. integer (pos v)) values) ≡ ok values
unfolding collect_words to_int
collect_words-words [] h = refl
collect_words-words (v ∷ vs) h = rw (collect_words-words vs h.1) (ground (arith, h.0))

pub to_int_list-words :
    (values : List ℕ) (n : ℕ)
    → All IsWord values
    → length values ≡ n
    → to_int_list (map (λ v. integer (pos v)) values) n ≡ ok values
unfolding to_int_list
to_int_list-words values n f h =
    ground (arith, length-map (λ (v : ℕ). integer (pos v)) values, collect_words-words values f)

abbrev pub function_code : Area → ℕ
function_code Area.coil = 1
function_code Area.discrete_input = 2
function_code Area.holding_register = 3
function_code Area.input_register = 4

-- The first byte of a read request, and the counts that its encoder accepts.
pub request_head :
    (area : Area) (start count : ℕ) {req : Bytes}
    → encode_request area start count ≡ ok req
    → (rest : Bytes) × (req ≡ function_code area ∷ rest) × (count ≤ read_limit area)
unfolding encode_read_coils encode_read_discrete_inputs encode_read_holding_registers
    encode_read_input_registers read_limit
request_head Area.coil start count h = (
  (start / 256) ∷ (start % 256) ∷ (count / 256) ∷ (count % 256) ∷ [],
  ground (arith, pack_bhh_lem 1 start count),
  ground (arith, pack_bhh_lem 1 start count),
)
request_head Area.discrete_input start count h = (
  (start / 256) ∷ (start % 256) ∷ (count / 256) ∷ (count % 256) ∷ [],
  ground (arith, pack_bhh_lem 2 start count),
  ground (arith, pack_bhh_lem 2 start count),
)
request_head Area.holding_register start count h = (
  (start / 256) ∷ (start % 256) ∷ (count / 256) ∷ (count % 256) ∷ [],
  ground (arith, pack_bhh_lem 3 start count),
  ground (arith, pack_bhh_lem 3 start count),
)
request_head Area.input_register start count h = (
  (start / 256) ∷ (start % 256) ∷ (count / 256) ∷ (count % 256) ∷ [],
  ground (arith, pack_bhh_lem 4 start count),
  ground (arith, pack_bhh_lem 4 start count),
)

-- The device's response exists within the limit of the area.
device_response_total :
    (d : Device) (area : Area) (start count : ℕ)
    → IsDevice d
    → count ≤ read_limit area
    → (pdu : Bytes) × (device_response d area start count ≡ ok pdu)
unfolding read_limit
device_response_total d Area.coil x n f h =
    let (pdu, e, _) =
      (bit_responses (values_from d.coil_at x n)
        (omega (arith, length-values_from d.coil_at x n))).0 in
    (pdu, e)
device_response_total d Area.discrete_input x n f h =
    let (pdu, e, _) =
      (bit_responses (values_from d.discrete_at x n)
        (omega (arith, length-values_from d.discrete_at x n))).1 in
    (pdu, e)
device_response_total d Area.holding_register x n f h =
    let (pdu, e, _) =
      (register_responses (values_from d.holding_at x n)
        (All-values_from d.holding_at x n f.holding_fits)
        (omega (arith, length-values_from d.holding_at x n))).0 in
    (pdu, e)
device_response_total d Area.input_register x n f h =
    let (pdu, e, _) =
      (register_responses (values_from d.input_at x n) (All-values_from d.input_at x n f.input_fits)
        (omega (arith, length-values_from d.input_at x n))).1 in
    (pdu, e)

module _ {S : Type 0} (server : Server S) (d : Device) (fits : IsDevice d) (s : S) (uid : ℕ)
    (own : is_foreign server uid ≡ false)
    (reads : (area : Area) (x n : ℕ)
      → server.on_read s area x n ≡ (s, ok (device_data d area x n))) where
  handle-device_response :
      (area : Area) (start count : ℕ) (req : Bytes)
      → decode_request area req ≡ ok (start, count)
      → handle server (function_code area) req s ≡ (s, device_response d area start count)
  unfolding handle handle_read
  handle-device_response Area.coil start count req h =
      rw
        (
          h,
          reads Area.coil start count,
          to_bool_list-booleans (values_from d.coil_at start count) count
              (length-values_from d.coil_at start count),
        )
        refl
  handle-device_response Area.discrete_input start count req h =
      rw
        (
          h,
          reads Area.discrete_input start count,
          to_bool_list-booleans (values_from d.discrete_at start count) count
              (length-values_from d.discrete_at start count),
        )
        refl
  handle-device_response Area.holding_register start count req h =
      rw
        (
          h,
          reads Area.holding_register start count,
          to_int_list-words (values_from d.holding_at start count) count
              (All-values_from d.holding_at start count fits.holding_fits)
              (length-values_from d.holding_at start count),
        )
        refl
  handle-device_response Area.input_register start count req h =
      rw
        (
          h,
          reads Area.input_register start count,
          to_int_list-words (values_from d.input_at start count) count
              (All-values_from d.input_at start count fits.input_fits)
              (length-values_from d.input_at start count),
        )
        refl

  -- A server that serves the unit, and whose read callback returns the values of a device whose
  -- registers fit a word and leaves the state alone, answers every read request that the client's
  -- encoder forms with the device's response.
  pub dispatch-device_response :
      (area : Area) (start count : ℕ) (req : Bytes)
      → encode_request area start count ≡ ok req
      → dispatch server uid req s ≡ (s, device_response d area start count)
  unfolding dispatch catch_handler
  dispatch-device_response area start count req h =
      let (rest, e, hi) = request_head area start count h in
      let (pdu, r) = device_response_total d area start count fits hi in
      let dec =
        subst (λ (b : Bytes). decode_request area b ≡ ok (start, count)) e
          (decode_request-encode_request area start count h) in
      rw (e, own, handle-device_response area start count (function_code area ∷ rest) dec, r) refl

  -- Of a server that serves the unit, and whose read callback returns the values of a device whose
  -- registers fit a word and leaves the state alone: a batch of items that end by address 65536, with
  -- this server as the executor, gives what decoding each item from the device's cells gives, or the
  -- exception of the validation.
  pub read_through_server :
      (ops : FloatOps) (items : List ReadItem)
      → All (ItemEndsBy 65536) items
      → plan_and_execute_reads ops items (λ k req. (dispatch server uid req s).1)
        ≡ (validate_all items >> direct_reads ops d items)
  read_through_server ops items h =
      plan_and_execute_reads-direct_reads ops d (λ k req. (dispatch server uid req s).1) items fits
        (λ k area start count req e.
          ap (λ (t : S × Result Bytes). t.1) (dispatch-device_response area start count req e))
        h
