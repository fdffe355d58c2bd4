-- ===== src/Cli/Simulator/Runs.antt =====
-- The simulator with one register, its server, and the theorems there.
use pymod.Prelude.{
  ℕ, ◌+◌, ◌<◌, ◌≤◌, ◌≡◌, ◌≢◌, refl, arith, ◌⊎◌, false, none, some, [], ◌∷◌, List, get_elem?,
}
use pymod.Prelude.Int.{pos}
use pymod.Protocol.Pdu.Replies.{documented, class_in}
use pymod.Errors.{ExceptionClass, exception_response, Result, ok, err}
use pymod.Types.{Area}
use pymod.Bytes.{Bytes, pack_bhh, pack_bhhb, pack_words}
use pymod.Protocol.Pdu.Request.{encode_read_holding_registers, encode_write_multiple_registers}
use pymod.Planner.Write.{Payload, register_values, request_write}
use pymod.Server.{Datum, integer, Server, is_foreign, dispatch}
use pymod.Server.Writes.{payload_data}
use pymod.Server.Writes.Outcome.{dispatch-write, dispatch_refused}
use pymod.Cli.Simulator.{SimState, write_state, sim_server}
use pymod.Cli.Simulator.Memory.{cell, write_state_lem}
use pymod.Cli.Simulator.Served.{decode_values, read_after_write}

abbrev one_register : SimState
one_register = record {
  holding = (pos 5, integer (pos 7)) ∷ [];
  input = [];
  coil = [];
  discrete = [];
}

abbrev two_words : Payload
two_words = register_values (513 ∷ 65535 ∷ [])

abbrev write_request : Bytes
write_request = 16 ∷ 0 ∷ 5 ∷ 0 ∷ 2 ∷ 4 ∷ 2 ∷ 1 ∷ 255 ∷ 255 ∷ []

abbrev read_request : Bytes
read_request = 3 ∷ 0 ∷ 5 ∷ 0 ∷ 2 ∷ []

write_encoded : encode_write_multiple_registers 5 (513 ∷ 65535 ∷ []) ≡ ok write_request
unfolding encode_write_multiple_registers pack_bhhb pack_words
write_encoded = refl

read_encoded : encode_read_holding_registers 5 2 ≡ ok read_request
unfolding encode_read_holding_registers pack_bhh
read_encoded = refl

serves_unit_one : is_foreign (sim_server false (some 1)) 1 ≡ false
unfolding sim_server
serves_unit_one = refl

read_after_write_example :
    (request_write 5 two_words (λ b. (dispatch (sim_server false (some 1)) 1 b one_register).1)
      ≡ ok tt)
    × (resp : Bytes) × (dispatch
          (sim_server false (some 1))
          1
          read_request
          (dispatch (sim_server false (some 1)) 1 write_request one_register).0
        ≡ ((dispatch (sim_server false (some 1)) 1 write_request one_register).0, ok resp))
    × (decode_values two_words resp ≡ ok two_words)
read_after_write_example =
    read_after_write (some 1) 1 serves_unit_one one_register 5 two_words write_request read_request
      write_encoded read_encoded

write_state_lem_example :
    ((i : ℕ)
      → i < 2
      → cell
          (write_state one_register Area.holding_register 5 (payload_data two_words))
          Area.holding_register
          (5 + i)
        ≡ get_elem? (payload_data two_words) i)
    × ((x : ℕ)
        → (x < 5) ⊎ (5 + 2 ≤ x)
        → cell
            (write_state one_register Area.holding_register 5 (payload_data two_words))
            Area.holding_register
            x
          ≡ cell one_register Area.holding_register x)
    × ((other : Area) (x : ℕ)
        → Area.holding_register ≢ other
        → cell (write_state one_register Area.holding_register 5 (payload_data two_words)) other x
          ≡ cell one_register other x)
write_state_lem_example =
    write_state_lem one_register Area.holding_register 5 (payload_data two_words)

abbrev stored : SimState → Area → ℕ → List Datum → SimState × Result (Unit {0})
stored s area address values = (write_state s area address values, ok tt)

abbrev refused : SimState → Area → ℕ → List Datum → SimState × Result (Unit {0})
refused s area address values = (s, err (exception_response ExceptionClass.illegal_data_address 2))

abbrev writable_server :
    (SimState → Area → ℕ → List Datum → SimState × Result (Unit {0})) → Server SimState
writable_server w = record { on_read = λ s area a n. (s, ok []); on_write = some w; unit_id = none }

dispatch-write_example :
    ((dispatch (writable_server stored) 1 write_request one_register).0
      ≡ write_state one_register Area.holding_register 5 (payload_data two_words))
    × (request_write 5 two_words (λ b. (dispatch (writable_server stored) 1 b one_register).1)
        ≡ ok tt)
dispatch-write_example =
    dispatch-write (writable_server stored) stored refl 1 refl 5 two_words write_request
      one_register (write_state one_register Area.holding_register 5 (payload_data two_words))
      write_encoded refl

dispatch_refused_example :
    ((dispatch (writable_server refused) 1 write_request one_register).0 ≡ one_register)
    × (request_write 5 two_words (λ b. (dispatch (writable_server refused) 1 b one_register).1)
        ≡ err (exception_response (class_in documented 2) 2))
dispatch_refused_example =
    dispatch_refused (writable_server refused) refused refl 1 refl 5 two_words write_request
      one_register one_register ExceptionClass.illegal_data_address 2 write_encoded (omega arith)
      refl
