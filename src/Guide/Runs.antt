-- ===== src/Guide/Runs.antt =====
-- The wizard at typed lines, and its theorems there.
use pymod.Prelude.{ℕ, ◌≡◌, refl, none, some, List, [], ◌∷◌, false}
use pymod.Prelude.Int.{pos}
use pymod.Text.{Text, codes, strip, lower}
use pymod.Text.Ints.{int_auto, str_int}
use pymod.Errors.{Result, ok}
use pymod.Cli.Run.{Command, scan_command}
use pymod.Client.Factory.{parity_none}
use pymod.Types.{int}
use pymod.Guide.{◌>>=◌, ask_int}
use pymod.Guide.Wizard.{build_namespace}
use pymod.Guide.Integers.{FirstAnswer, ask_int-FirstAnswer}
use pymod.Guide.Complete.{CompleteCommand, build_namespace-Complete}

-- A text that is no integer, one below the minimum, and one in hexadecimal.
abbrev typed : List Text
typed = codes "port" ∷ codes " 0 " ∷ codes "0x1F6" ∷ codes "rest" ∷ []

ask_int_run : ask_int (some (pos 502)) (some (pos 1)) typed ≡ some (pos 502, codes "rest" ∷ [])
unfolding ask_int str_int int_auto strip
ask_int_run = refl

ask_int-FirstAnswer_example :
    FirstAnswer
      (some (pos 502))
      (some (pos 1))
      typed
      (ask_int (some (pos 502)) (some (pos 1)) typed)
ask_int-FirstAnswer_example = ask_int-FirstAnswer (some (pos 502)) (some (pos 1)) typed

-- Floats are whole numbers of milliseconds, of which only the default is typed.
abbrev half_second : Text → Result ℕ
half_second s = ok 500

-- A scan over TCP with the default of every question.
abbrev scan_lines : List Text
scan_lines = codes "scan" ∷ [] ∷ [] ∷ codes "5020" ∷ [] ∷ [] ∷ [] ∷ [] ∷ [] ∷ codes "y" ∷ []

abbrev scan_built : Command ℕ
scan_built = scan_command (record {
  transport = record {
    host = some (codes "127.0.0.1");
    port = pos 5020;
    rtu = none;
    baudrate = pos 9600;
    bytesize = pos 8;
    parity = parity_none;
    stopbits = int (pos 1);
    rtu_over_tcp = false;
  };
  call = record { unit_id = pos 1; timeout_s = 500; retries = pos 1 };
  start = 0;
  json = false;
})

build_run : build_namespace half_second (codes "0.5") scan_lines ≡ some (some scan_built, [])
unfolding build_namespace ◌>>=◌ ask_int str_int int_auto strip lower
build_run = refl

build_namespace-Complete_example : CompleteCommand scan_built
build_namespace-Complete_example =
    build_namespace-Complete half_second (codes "0.5") scan_lines [] scan_built build_run
