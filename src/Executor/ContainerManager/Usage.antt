-- ===== src/Executor/ContainerManager/Usage.antt =====
-- CheckResourceOutsurge of executor/container_manager.go. The numbers of type float64, their
-- arithmetic and their order are parameters.
use code_execution_engine.Common.{ℕ, ◌||◌, Bool, false, Fallible, ok, err, if◌then◌else◌}

-- What is read of the statistics.
pub record ContainerStats : Type 0 where
  pub total_usage : ℕ
  pub system_cpu_usage : ℕ
  pub memory_usage : ℕ
  pub memory_limit : ℕ

module _ {Float : Type 0} (float64 : ℕ → Float) (divide multiply : Float → Float → Float)
    (greater : Float → Float → Bool) where
  unfoldable pub cpu_percent : ContainerStats → Float
  cpu_percent stats =
      if greater (float64 stats.system_cpu_usage) (float64 0)
      then multiply (divide (float64 stats.total_usage) (float64 stats.system_cpu_usage))
          (float64 100)
      else float64 0

  unfoldable pub memory_percent : ContainerStats → Float
  memory_percent stats =
      multiply (divide (float64 stats.memory_usage) (float64 stats.memory_limit)) (float64 100)

  -- The statistics are those that Docker sends, all zero where they cannot be read.
  unfoldable pub check_resource_outsurge : Fallible ContainerStats → Bool
  check_resource_outsurge (err e) = false
  check_resource_outsurge (ok stats) =
      greater (cpu_percent stats) (float64 99) || greater (memory_percent stats) (float64 99)
