-- ===== src/Cmd/Tests.antt =====
-- The engine in a concrete environment, and each theorem there.
use code_execution_engine.Common.{
  ℤ, pos, negsuc, ◌*◌, ◌≡◌, ◌≤◌, ◌↔◌, refl, true, [], ◌∷◌, ◌++◌, Option, none, some, Text, codes,
  same, lookup, if◌then◌else◌,
}
use code_execution_engine.Config.{
  load_config, get_env, get_env_int, get_env_bool, calc_auto_max_workers,
}
use code_execution_engine.Worker.Docker
use code_execution_engine.Worker.Firecracker.Pool
use code_execution_engine.Cmd.{worker_config, choose_pool}
use code_execution_engine.Cmd.Backends.{
  workers_of, capacity_of, is_firecracker, choose_pool_backend,
}

-- The .env of a host with microVMs.
abbrev env : Text → Option Text
env key =
    lookup key ((codes "WORKER_TYPE", codes "firecracker") ∷ (codes "MAX_WORKERS", codes "5") ∷ [])

abbrev digit : Text → Option ℤ
digit s =
    if same s (codes "5")
    then some (pos 5)
    else if same s (codes "-1")
    then some (negsuc 0)
    else none

abbrev slash : Text → Text → Text
slash a b = a ++ (codes "/" ++ b)

abbrev four : ℤ → ℤ → ℤ
four a b = pos 4

five_workers : workers_of (choose_pool slash four (load_config env digit)) ≡ 5
unfolding choose_pool worker_config load_config get_env get_env_int get_env_bool lookup same
    Pool.new_pool
five_workers = refl

-- CalcAutoMaxWorkers where a worker asks for no CPU.
no_cpu_one_worker :
    calc_auto_max_workers (λ a b. negsuc 0) (pos 2000) (pos 2048) (pos 0) (pos 400) ≡ pos 1
unfolding calc_auto_max_workers
no_cpu_one_worker = refl

-- MAX_WORKERS is below zero.
abbrev below_zero : Text → Option Text
below_zero key = lookup key ((codes "MAX_WORKERS", codes "-1") ∷ [])

three_workers : workers_of (choose_pool slash four (load_config below_zero digit)) ≡ 3
unfolding choose_pool worker_config load_config get_env get_env_int get_env_bool lookup same
    Docker.new_pool
three_workers = refl

choose_pool_backend_example :
    (1 ≤ workers_of (choose_pool slash four (load_config below_zero digit)))
    × (capacity_of (choose_pool slash four (load_config below_zero digit))
        ≡ workers_of (choose_pool slash four (load_config below_zero digit))
          * (if is_firecracker (choose_pool slash four (load_config below_zero digit))
              then 10
              else 4))
    × ((is_firecracker (choose_pool slash four (load_config below_zero digit)) ≡ true)
        ↔ (below_zero (codes "WORKER_TYPE") ≡ some (codes "firecracker")))
choose_pool_backend_example = choose_pool_backend below_zero digit slash four
