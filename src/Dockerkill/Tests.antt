-- ===== src/Dockerkill/Tests.antt =====
-- Command lines and what they run.
use code_execution_engine.Common.{◌≡◌, refl, [], ◌∷◌, codes, same, lookup}
use code_execution_engine.Dockerkill.{runs, fails, commands, list_commands, list, main}

-- The text in parentheses is an argument like any other.
kills_by_name :
    main (codes "containers" ∷ [])
    ≡ runs (codes "docker" ∷ codes "kill" ∷ codes "$(docker ps -q)" ∷ [])
unfolding main commands lookup same
kills_by_name = refl

lists_networks :
    main (codes "list" ∷ codes "networks" ∷ [])
    ≡ runs (codes "docker" ∷ codes "network" ∷ codes "ls" ∷ [])
unfolding main list list_commands lookup same
lists_networks = refl

list_what : main (codes "list" ∷ codes "pods" ∷ []) ≡ fails (codes "Unknown list command.")
unfolding main list list_commands lookup same
list_what = refl
