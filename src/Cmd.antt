-- ===== src/Cmd.antt =====
-- cmd/main.go: which pool the engine runs, and with how many workers. `join` is filepath.Join,
-- `scaled` the arithmetic of CalcAutoMaxWorkers on floats.
pub mod Backends
pub mod Main
mod Tests
use code_execution_engine.Common.{ℤ, pos, Bool, Text, codes, same, if◌then◌else◌}
use code_execution_engine.Config as Env
use code_execution_engine.Config.{calc_auto_max_workers}
use code_execution_engine.Worker
use code_execution_engine.Worker.Docker.{DockerPool}
use code_execution_engine.Worker.Docker
use code_execution_engine.Worker.Firecracker.Pool.{FirecrackerPool}
use code_execution_engine.Worker.Firecracker.Pool

-- The configuration that is handed to the pool.
unfoldable pub worker_config : (ℤ → ℤ → ℤ) → Env.Config → Worker.Config
worker_config scaled cfg = record {
  image = cfg.worker_image;
  max_workers =
      if cfg.auto_spawn
      then calc_auto_max_workers scaled (pos 2000) (pos 2048) cfg.worker_cpu cfg.worker_mem
      else cfg.max_workers;
  memory_limit = cfg.worker_mem_limit;
  cpu_limit = cfg.worker_cpu_limit;
}

pub data Backend : Type 0 where
  docker : DockerPool → Backend
  firecracker : FirecrackerPool → Backend

-- The `switch` over the type of the workers.
unfoldable pub choose_pool : (Text → Text → Text) → (ℤ → ℤ → ℤ) → Env.Config → Backend
choose_pool join scaled cfg =
    if same cfg.worker_type (codes "firecracker")
    then firecracker (Pool.new_pool join (worker_config scaled cfg))
    else docker (Docker.new_pool (worker_config scaled cfg))
