-- ===== src/Dockerkill.antt =====
-- dockerkill.go: the command that its arguments stand for. exec.Command starts `docker` without a
-- shell, so that its arguments reach it as they are.
mod Tests
use code_execution_engine.Common.{
  List, [], ◌∷◌, Option, none, some, Text, codes, same, lookup, if◌then◌else◌,
}

-- A command that is run, or a message and exit status 1.
pub data Outcome : Type 0 where
  runs : List Text → Outcome
  fails : Text → Outcome

-- The cases of the first `switch` but "list".
unfoldable pub commands : List (Text × List Text)
commands =
    (
      codes "everything",
      codes "system" ∷ codes "prune" ∷ codes "-a" ∷ codes "--volumes" ∷ codes "-f" ∷ [],
    )
    ∷ (codes "images", codes "rmi" ∷ codes "$(docker images -q)" ∷ codes "--force" ∷ [])
    ∷ (codes "containers", codes "kill" ∷ codes "$(docker ps -q)" ∷ [])
    ∷ (codes "networks", codes "network" ∷ codes "prune" ∷ codes "-f" ∷ [])
    ∷ (codes "volumes", codes "volume" ∷ codes "prune" ∷ codes "-f" ∷ [])
    ∷ (codes "prune", codes "system" ∷ codes "prune" ∷ codes "-a" ∷ [])
    ∷ []

-- The cases of the second.
unfoldable pub list_commands : List (Text × List Text)
list_commands =
    (codes "images", codes "images" ∷ [])
    ∷ (codes "containers", codes "ps" ∷ codes "-a" ∷ [])
    ∷ (codes "networks", codes "network" ∷ codes "ls" ∷ [])
    ∷ (codes "volumes", codes "volume" ∷ codes "ls" ∷ [])
    ∷ []

abbrev pub run_command : Text → Option (List Text) → Outcome
run_command otherwise none = fails otherwise
run_command otherwise (some arguments) = runs (codes "docker" ∷ arguments)

unfoldable pub list : List Text → Outcome
list [] = fails (codes "Usage: dockerkill list <images|containers|networks|volumes>")
list (what ∷ _) = run_command (codes "Unknown list command.") (lookup what list_commands)

-- `main`, with the arguments after the name of the program.
unfoldable pub main : List Text → Outcome
main [] = fails (codes "Usage: dockerkill <command>")
main (command ∷ rest) =
    if same command (codes "list")
    then list rest
    else run_command (codes "Unknown command.") (lookup command commands)
