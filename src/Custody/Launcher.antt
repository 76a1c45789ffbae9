-- ===== src/Custody/Launcher.antt =====
-- adapters/fido_custody.py: the program of `_UNBLOCK_CANCELLATION_AND_EXEC`, which unblocks signals
-- in the child and executes the worker. `loads` is json.loads, none for an error.
use sacrysty.Prelude.{
  Bool, true, ◌&&◌, not, Option, none, some, List, [], ◌∷◌, Str, codes, is_empty, all, mem,
  if◌then◌else◌,
}
use sacrysty.Json.{Value, text, array, object, Items, nil, cons, Fields, end, field}
use sacrysty.Custody.Environment.{Env}

-- The program executes the command with an environment and unblocked signals, or exits with 125.
pub data Launch : Type 0 where
  executes : List Str → Env → List Str → Launch
  setup_failed : Launch

abbrev put_variable : Str → Str → Option Env → Option Env
put_variable name value none = none
put_variable name value (some e) = some ((name, value) ∷ e)

unfoldable pub environment_in : Fields → Option Env
environment_in end = some []
environment_in (field name (text value) rest) = put_variable name value (environment_in rest)
environment_in (field name _ rest) = none

abbrev put_name : Str → Option (List Str) → Option (List Str)
put_name name none = none
put_name name (some names) = some (name ∷ names)

unfoldable pub names_in : Items → Option (List Str)
names_in nil = some []
names_in (cons (text name) rest) = put_name name (names_in rest)
names_in (cons _ rest) = none

abbrev allowed_signals : List Str
allowed_signals = codes "SIGINT" ∷ codes "SIGTERM" ∷ []

abbrev no_repeat : List Str → Bool
no_repeat [] = true
no_repeat (x ∷ xs) = not (mem x xs) && no_repeat xs

unfoldable pub are_signals : List Str → Bool
are_signals names =
    not (is_empty names) && no_repeat names && all (λ name. mem name allowed_signals) names

abbrev selected_environment : Option Value → Option Env
selected_environment (some (object d)) = environment_in d
selected_environment _ = none

abbrev selected_names : Option Value → Option (List Str)
selected_names (some (array names)) = names_in names
selected_names _ = none

abbrev launch_with : Option Env → Option (List Str) → List Str → Launch
launch_with (some e) (some names) command =
    if are_signals names && not (is_empty command) then executes command e names else setup_failed
launch_with _ _ command = setup_failed

-- The arguments after the program's text.
unfoldable pub launch : (Str → Option Value) → List Str → Launch
launch loads (environment ∷ signals ∷ command) =
    launch_with (selected_environment (loads environment)) (selected_names (loads signals)) command
launch loads _ = setup_failed
