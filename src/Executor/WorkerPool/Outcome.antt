-- ===== src/Executor/WorkerPool/Outcome.antt =====
-- executeJob of executor/worker_pool.go: what a job's result says, and what becomes of the container
-- that the job ran in.
use code_execution_engine.Common.{
  ap, ◌≡◌, ◌↔◌, ℕ, ◌∷◌, true, List, Option, none, some, Text, Fallible, ok, err, codes,
  Option-cases, same, if◌then◌else◌, arith, inl, inr,
}
use code_execution_engine.Executor.ContainerManager.{
  ContainerManager, Job, idle, busy, get_available_container, set_container_state,
}
use code_execution_engine.Executor.ContainerManager.Assignment.{state_of, set_container_state_lem}
use code_execution_engine.Executor.WorkerPool.{
  LanguageConfig, get_language_config, outcome, execute_code, run_in, run_or_fail, execute_job,
}

outcome-agrees :
    (r : Text × Option Text)
    → ((outcome r).1.0 ≡ true ↔ r.1 ≡ none) × ((outcome r).1.1 ≡ none ↔ r.1 ≡ none)
outcome-agrees (output, none) = ground arith
outcome-agrees (output, some e) = ground arith

module _ (run_command : List Text → Text → ℕ → Text × Option Text) where
  -- The language is known, and the command ends without an error.
  abbrev pub IsRun : Text → Text → Text → Type 0
  IsRun id language code =
      (config : LanguageConfig) × (get_language_config language ≡ some config)
      × ((run_command (codes "exec" ∷ id ∷ config.commands) code config.timeout).1 ≡ none)

  execute_code-IsRun_iff :
      (id language code : Text)
      → ((execute_code run_command id language code).1.0 ≡ true ↔ IsRun id language code)
        × ((execute_code run_command id language code).1.1 ≡ none ↔ IsRun id language code)
  unfolding execute_code
  execute_code-IsRun_iff id language code = elim (Option-cases (get_language_config language)) [
    | inl e ↦ ground arith
    | inr (config, e) ↦ ground (
      arith,
      outcome-agrees (run_command (codes "exec" ∷ id ∷ config.commands) code config.timeout),
    )
  ]

  -- A container was found, and in it the job's language and its command went well.
  abbrev pub IsDone : ContainerManager × Fallible Text → Job → Type 0
  IsDone got job = (id : Text) × (got.1 ≡ ok id) × IsRun id job.language job.code

  module _ (during : ContainerManager → ContainerManager) (elapsed : ℕ) where
    execute_job_got :
        (meanwhile : ℕ → ContainerManager → ContainerManager) (orders : ℕ → List Text)
        (cm cm' : ContainerManager) (job : Job) (id : Text)
        → get_available_container meanwhile orders cm ≡ (cm', ok id)
        → execute_job run_command meanwhile orders during elapsed cm job
          ≡ run_in run_command during elapsed cm' job id
    unfolding execute_job run_or_fail
    execute_job_got meanwhile orders cm cm' job id h =
        ap (run_or_fail run_command during elapsed job) h

    -- A job that got a container leaves it idle, where the pool still has it, and leaves every
    -- other container as the others left it by the end of the run.
    pub execute_job_releases :
        (meanwhile : ℕ → ContainerManager → ContainerManager) (orders : ℕ → List Text)
        (cm cm' : ContainerManager) (job : Job) (id j : Text)
        → get_available_container meanwhile orders cm ≡ (cm', ok id)
        → state_of (execute_job run_command meanwhile orders during elapsed cm job).0 j
          ≡ elim (state_of (during (set_container_state cm' id busy)) id) [
            | none ↦ state_of (during (set_container_state cm' id busy)) j
            | some t ↦
                if same id j
                then some idle
                else state_of (during (set_container_state cm' id busy)) j
          ]
    unfolding run_in
    execute_job_releases meanwhile orders cm cm' job id j h =
        rw (execute_job_got meanwhile orders cm cm' job id h)
          (set_container_state_lem (during (set_container_state cm' id busy)) id idle j)

    run_or_fail-IsDone_iff :
        (got : ContainerManager × Fallible Text) (job : Job)
        → ((run_or_fail run_command during elapsed job got).1.success ≡ true ↔ IsDone got job)
          × ((run_or_fail run_command during elapsed job got).1.error ≡ none ↔ IsDone got job)
    unfolding run_or_fail run_in
    run_or_fail-IsDone_iff (cm, err e) job = ground arith
    run_or_fail-IsDone_iff (cm, ok id) job =
        ground (arith, execute_code-IsRun_iff id job.language job.code)

    -- The result of a job is a success exactly where a container was found, its language is known
    -- and the command ended without an error, and exactly then it has no error.
    pub execute_job-IsDone_iff :
        (meanwhile : ℕ → ContainerManager → ContainerManager) (orders : ℕ → List Text)
        (cm : ContainerManager) (job : Job)
        → ((execute_job run_command meanwhile orders during elapsed cm job).1.success ≡ true
            ↔ IsDone (get_available_container meanwhile orders cm) job)
          × ((execute_job run_command meanwhile orders during elapsed cm job).1.error ≡ none
              ↔ IsDone (get_available_container meanwhile orders cm) job)
    unfolding execute_job
    execute_job-IsDone_iff meanwhile orders cm job =
        run_or_fail-IsDone_iff (get_available_container meanwhile orders cm) job
