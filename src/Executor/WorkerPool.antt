-- ===== src/Executor/WorkerPool.antt =====
-- executor/config.go and the run of a job in executor/worker_pool.go. `run_command` is what
-- `cmd.Run` does with its arguments, its input and its time limit: the output of both streams, and
-- its error, also where the watch over the container's resources cancels it.
pub mod Outcome
pub mod Pool
mod Tests
use code_execution_engine.Common.{
  second, ℕ, ◌+◌, ◌*◌, ◌/◌, Bool, true, false, List, [], ◌∷◌, ◌++◌, Option, none, some, Text,
  Fallible, ok, err, codes, decimal, lookup,
}
use code_execution_engine.Executor.ContainerManager.{
  ContainerManager, ContainerState, idle, busy, Job, Result, get_available_container,
  set_container_state,
}

pub record LanguageConfig : Type 0 where
  pub timeout : ℕ
  pub commands : List Text

abbrev shell : Text → List Text
shell script = codes "sh" ∷ codes "-c" ∷ script ∷ []

unfoldable pub language_configs : List (Text × LanguageConfig)
language_configs =
    (
      codes "go",
      record {
        timeout = 20 * second;
        commands = shell (
            codes
              "export GOCACHE=/tmp/go-cache GOMODCACHE=/tmp/go-mod 2>/dev/null; cat > /app/temp/code.go && go build -o /app/temp/exe /app/temp/code.go && /app/temp/exe");
      },
    )
    ∷ (
      codes "js",
      record {
        timeout = 10 * second;
        commands = shell (codes "cat > /app/temp/code.js && node /app/temp/code.js");
      },
    )
    ∷ (
      codes "python",
      record {
        timeout = 10 * second;
        commands = shell (codes "cat > /app/temp/code.py && python3 /app/temp/code.py");
      },
    )
    ∷ (
      codes "cpp",
      record {
        timeout = 20 * second;
        commands = shell (
            codes
              "export CCACHE_DIR=/tmp/ccache 2>/dev/null; cat > /app/temp/code.cpp && ccache g++ -o /app/temp/exe /app/temp/code.cpp && /app/temp/exe");
      },
    )
    ∷ []

unfoldable pub get_language_config : Text → Option LanguageConfig
get_language_config language = lookup language language_configs

-- `output.String()` and the results of `executeCode` after `cmd.Run`.
abbrev pub outcome : Text × Option Text → Text × (Bool × Option Text)
outcome (output, none) = (output, (true, none))
outcome (output, some e) = (output, (false, some (codes "execution error: " ++ e)))

unfoldable pub execute_code :
    (List Text → Text → ℕ → Text × Option Text) → Text → Text → Text → Text × (Bool × Option Text)
execute_code run_command id language code = elim (get_language_config language) [
  | none ↦ ([], (false, some (codes "unsupported language: " ++ language)))
  | some config ↦ outcome (run_command (codes "exec" ∷ id ∷ config.commands) code config.timeout)
]

-- What `executeJob` sends after a run that took `elapsed` nanoseconds.
abbrev pub job_result : ℕ → Text × (Bool × Option Text) → Result
job_result elapsed (output, (success, e)) = record {
  output = output;
  success = success;
  error = e;
  execution_time = decimal (elapsed / 1000000) ++ codes "ms";
}

-- `executeJob` once it has its container; `during` is what others do to the pool while the job runs.
unfoldable pub run_in :
    (List Text → Text → ℕ → Text × Option Text)
    → (ContainerManager → ContainerManager)
    → ℕ
    → ContainerManager
    → Job
    → Text
    → ContainerManager × Result
run_in run_command during elapsed cm job id = (
  set_container_state (during (set_container_state cm id busy)) id idle,
  job_result elapsed (execute_code run_command id job.language job.code),
)

-- `executeJob` after GetAvailableContainer.
unfoldable pub run_or_fail :
    (List Text → Text → ℕ → Text × Option Text)
    → (ContainerManager → ContainerManager)
    → ℕ
    → Job
    → ContainerManager × Fallible Text
    → ContainerManager × Result
run_or_fail run_command during elapsed job (cm, err e) =
    (cm, record { output = []; success = false; error = some e; execution_time = [] })
run_or_fail run_command during elapsed job (cm, ok id) = run_in run_command during elapsed cm job id

-- `executeJob`, with the Result that it sends on the channel of the job.
unfoldable pub execute_job :
    (List Text → Text → ℕ → Text × Option Text)
    → (ℕ → ContainerManager → ContainerManager)
    → (ℕ → List Text)
    → (ContainerManager → ContainerManager)
    → ℕ
    → ContainerManager
    → Job
    → ContainerManager × Result
execute_job run_command meanwhile orders during elapsed cm job =
    run_or_fail run_command during elapsed job (get_available_container meanwhile orders cm)
