-- ===== src/Executor/WorkerPool/Tests.antt =====
-- A job over a pool of two containers, and each theorem at it.
use code_execution_engine.Common.{
  ◌≡◌, ◌↔◌, refl, ℕ, true, List, [], ◌∷◌, Option, none, Text, codes, lookup, same,
}
use code_execution_engine.Executor.ContainerManager.{
  ContainerManager, Job, idle, busy, get_available_container, retry, assign,
}
use code_execution_engine.Executor.WorkerPool.{
  execute_job, run_or_fail, run_in, execute_code, get_language_config, language_configs,
}
use code_execution_engine.Executor.WorkerPool.Outcome.{IsDone, execute_job-IsDone_iff}

abbrev lone : Text
lone = codes "c1"

abbrev with_lone : ContainerManager
with_lone = record {
  containers = (lone, record { id = lone; state = idle }) ∷ [];
  max_workers = 1;
  memorylimit = 400;
  cpunanolimit = 500;
  worker_image = codes "worker";
}

abbrev taken : ContainerManager
taken = record with_lone { containers = (lone, record { id = lone; state = busy }) ∷ [] }

abbrev prints : List Text → Text → ℕ → Text × Option Text
prints arguments code limit = (code, none)

abbrev alone : ℕ → ContainerManager → ContainerManager
alone i cm = cm

abbrev undisturbed : ContainerManager → ContainerManager
undisturbed cm = cm

abbrev lone_order : ℕ → List Text
lone_order i = lone ∷ []

abbrev a_job : Job
a_job = record { language = codes "python"; code = codes "print(1)"; result = 7 }

runs :
    (execute_job prints alone lone_order undisturbed 3000000 with_lone a_job).1.output
    ≡ codes "print(1)"
unfolding execute_job run_or_fail run_in execute_code get_language_config language_configs
    get_available_container retry assign lookup same
runs = refl

execute_job-IsDone_iff_example :
    ((execute_job prints alone lone_order undisturbed 3000000 with_lone a_job).1.success ≡ true
      ↔ IsDone prints (get_available_container alone lone_order with_lone) a_job)
    × ((execute_job prints alone lone_order undisturbed 3000000 with_lone a_job).1.error ≡ none
        ↔ IsDone prints (get_available_container alone lone_order with_lone) a_job)
execute_job-IsDone_iff_example =
    execute_job-IsDone_iff prints undisturbed 3000000 alone lone_order with_lone a_job
