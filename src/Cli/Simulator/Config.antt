-- ===== src/Cli/Simulator/Config.antt =====
-- The contents of the simulator of src/pymod/cli.py before it serves: the specifications of the
-- command line, and the JSON file of `--config`, which is the value that `json.load` returns.
use pymod.Prelude.{Bool, true, false, none, some, List, [], ◌∷◌, if◌then◌else◌}
use pymod.Prelude.Int.{ℤ}
use pymod.Text.{Text, codes, eq_text, strip, split, contains, split_once}
use pymod.Text.Ints.{int_auto}
use pymod.Types.{Area}
use pymod.Server.{Datum, integer, boolean}
use pymod.Cli.{Cli, done, system_exit, ◌>>=◌, passed, ServeArgs}
use pymod.Cli.Items.{is_filled, parse_bool}
use pymod.Cli.Simulator.{Store, put, SimState, new_state, store_of, with_store}

-- The value of a piece of an integer map and of a Boolean map.
unfoldable pub int_value : Text → Cli Datum
int_value s = do z ← passed (int_auto s); done (integer z)

unfoldable pub bool_value : Text → Cli Datum
unfolding parse_bool
bool_value s = do b ← parse_bool s; done (boolean b)

-- `out[int(addr_s.strip(), 0)] = …` of one piece; the value is evaluated before the key.
unfoldable pub parse_entry : (Text → Cli Datum) → Text → Cli (ℤ × Datum)
parse_entry parse piece =
    if contains b'=' piece
    then (do
      v ← parse (strip (split_once b'=' piece).1)
      k ← passed (int_auto (strip (split_once b'=' piece).0))
      done (k, v))
    else system_exit

-- The loop over the pieces, blank ones left out.
unfoldable pub parse_pieces : (Text → Cli Datum) → List Text → Store → Cli Store
unfolding parse_entry put
parse_pieces parse [] out = done out
parse_pieces parse (piece ∷ rest) out = elim (is_filled (strip piece)) [
  | false ↦ parse_pieces parse rest out
  | true ↦ do
    entry ← parse_entry parse (strip piece)
    parse_pieces parse rest (put out entry.0 entry.1)
]

unfoldable pub parse_map : (Text → Cli Datum) → Text → Cli Store
unfolding parse_pieces
parse_map parse spec =
    if is_filled (strip spec) then parse_pieces parse (split b',' spec) [] else done []

unfoldable pub parse_int_map : Text → Cli Store
unfolding parse_map int_value
parse_int_map = parse_map int_value

unfoldable pub parse_bool_map : Text → Cli Store
unfolding parse_map bool_value
parse_bool_map = parse_map bool_value

-- What a JSON document holds, as far as the code tells it apart: `other` is any other value.
pub data JsonValue : Type 0 where
  json_bool : Bool → JsonValue
  json_int : ℤ → JsonValue
  other : JsonValue

-- The value of a key of the document: an object of such values, or no object.
pub data JsonSection : Type 0 where
  section : List (Text × JsonValue) → JsonSection
  no_object : JsonSection

-- The document: an object, or no object.
pub data JsonFile : Type 0 where
  document : List (Text × JsonSection) → JsonFile
  no_document : JsonFile

-- `data.get(area_key, {})`
unfoldable pub get_section : List (Text × JsonSection) → Text → JsonSection
get_section [] key = section []
get_section ((k, v) ∷ rest) key =
    let later = get_section rest key in if eq_text k key then v else later

-- `isinstance(v, int)`, which holds of a Boolean too.
unfoldable pub int_entry : JsonValue → Cli Datum
int_entry (json_bool b) = done (boolean b)
int_entry (json_int z) = done (integer z)
int_entry other = system_exit

-- `isinstance(v, bool)`
unfoldable pub bool_entry : JsonValue → Cli Datum
bool_entry (json_bool b) = done (boolean b)
bool_entry (json_int z) = system_exit
bool_entry other = system_exit

-- `for k, v in section.items()`
unfoldable pub load_entries : (JsonValue → Cli Datum) → List (Text × JsonValue) → Store → Cli Store
unfolding put
load_entries entry [] store = done store
load_entries entry ((k, v) ∷ rest) store = do
  value ← entry v
  key ← passed (int_auto k)
  load_entries entry rest (put store key value)

-- One round of the two loops over the areas.
unfoldable pub load_area : (JsonValue → Cli Datum) → Area → JsonSection → SimState → Cli SimState
unfolding load_entries store_of with_store
load_area entry area no_object state = system_exit
load_area entry area (section entries) state = do
  store ← load_entries entry entries (store_of state area)
  done (with_store state area store)

unfoldable pub load_config_into_state : SimState → JsonFile → Cli SimState
unfolding get_section load_area int_entry bool_entry
load_config_into_state state no_document = system_exit
load_config_into_state state (document content) = do
  s₁ ← load_area int_entry Area.holding_register (get_section content (codes "holding")) state
  s₂ ← load_area int_entry Area.input_register (get_section content (codes "input")) s₁
  s₃ ← load_area bool_entry Area.coil (get_section content (codes "coil")) s₂
  load_area bool_entry Area.discrete_input (get_section content (codes "discrete")) s₃

-- `d.update(e)`
unfoldable pub update : Store → Store → Store
unfolding put
update d [] = d
update d ((k, v) ∷ rest) = update (put d k v) rest

-- `state.….update(…)` of one area.
unfoldable pub update_area : Area → SimState → Store → SimState
unfolding update store_of with_store
update_area area state entries = with_store state area (update (store_of state area) entries)

-- `load` is what `json.load` returns of the file at the path, if it returns.
unfoldable pub build_sim_state : (Text → Cli JsonFile) → ServeArgs → Cli SimState
unfolding new_state load_config_into_state update_area parse_int_map parse_bool_map
build_sim_state load args = do
  s₀ ← elim args.config [
    | none ↦ done new_state
    | some [] ↦ done new_state
    | some (c ∷ path) ↦ do content ← load (c ∷ path); load_config_into_state new_state content
  ]
  h ← parse_int_map args.holding
  i ← parse_int_map args.input
  c ← parse_bool_map args.coil
  d ← parse_bool_map args.discrete
  done (
      update_area Area.discrete_input
        (update_area Area.coil
          (update_area Area.input_register (update_area Area.holding_register s₀ h) i) c)
        d)
