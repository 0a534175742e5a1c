-- ===== src/Executor/WorkerPool/Pool/Tests.antt =====
-- A pool of two workers and two containers, and each theorem at one of its runs.
use code_execution_engine.Common.{
  ℕ, suc, ◌+◌, ◌*◌, ◌≤◌, ◌⊎◌, length, arith, decimal, ◌≡◌, ◌≢◌, refl, true, false, List, [], ◌∷◌,
  Option, none, some, Text, codes, ok, All, AllDifferent, count_if, lookup, insert, same,
}
use code_execution_engine.Executor.ContainerManager.{
  ContainerManager, ContainerState, idle, busy, Listed, Start, create_fails, Job, Result, assign,
  set_container_state, check_health, adjust_health, adjust_pool, running_workers, to_remove,
  remove_containers,
}
use code_execution_engine.Executor.ContainerManager.Assignment.{state_of}
use code_execution_engine.Executor.WorkerPool.{execute_code, get_language_config, language_configs}
use code_execution_engine.Executor.WorkerPool.Pool.{
  waiting, running, returned, WorkerPool, start_workers, Event, submits, receives, searches,
  begins_code, finishes, returns, checks_health, closes_channels, submit, receive, search_container,
  take_container, begin_code, finish, return_on_shutdown, close_channels, step, run,
}
use code_execution_engine.Executor.WorkerPool.Pool.Holders.{held}
use code_execution_engine.Executor.WorkerPool.Pool.Quiet.{IsNew}
use code_execution_engine.Executor.WorkerPool.Pool.Exclusive.{AreFresh, run-IsExclusive}
use code_execution_engine.Executor.WorkerPool.Pool.Waits.{is_counted, run-wg}
use code_execution_engine.Executor.WorkerPool.Pool.Refinement.{
  job_of, channel, IsOutcome, run-refines_executor,
}
use code_execution_engine.Executor.WorkerPool.Pool.Weight.{sum_steps}
use code_execution_engine.Executor.WorkerPool.Pool.Progress.{CanWork, run-settles}
use code_execution_engine.Worker.Backend.{View, new_view, Reach}
use code_execution_engine.Worker.Backend.Fifo.{IsFair}
use code_execution_engine.Worker.Backend.Crew.{at_work}

abbrev c1 : Text
c1 = codes "c1"

abbrev c2 : Text
c2 = codes "c2"

abbrev with_states : ContainerState → ContainerState → ContainerManager
with_states s t = record {
  containers = (c1, record { id = c1; state = s }) ∷ (c2, record { id = c2; state = t }) ∷ [];
  max_workers = 2;
  memorylimit = 400;
  cpunanolimit = 500;
  worker_image = codes "worker";
}

abbrev both : ContainerManager
both = with_states idle idle

abbrev prints : List Text → Text → ℕ → Text × Option Text
prints arguments code limit = (code, none)

abbrev job : ℕ → Job
job n = record { language = codes "python"; code = codes "print(1)"; result = n }

abbrev listed : List Listed
listed =
    record { id = c1; image = codes "worker"; state = codes "running" }
    ∷ record { id = c2; image = codes "worker"; state = codes "running" }
    ∷ []

abbrev in_vain : ℕ → Start
in_vain n = create_fails (codes "no space")

abbrev order : List Text
order = c1 ∷ c2 ∷ []

abbrev rest : List Event
rest = finishes 0 3000000 ∷ closes_channels ∷ returns 0 ∷ []

-- Both workers get a container, and both containers pass a check.
abbrev and_then : List Event → List Event
and_then es =
    submits (job 7)
    ∷ submits (job 8)
    ∷ receives 0
    ∷ receives 1
    ∷ searches 0 order
    ∷ searches 1 order
    ∷ begins_code 0
    ∷ begins_code 1
    ∷ checks_health (ok listed) order in_vain
    ∷ es

abbrev started : WorkerPool
started = start_workers both 3

abbrev printed : Result
printed = record {
  output = codes "print(1)";
  success = true;
  error = none;
  execution_time = codes "3ms";
}

abbrev at_work_both : WorkerPool
at_work_both = record {
  jobs = [];
  max_job_count = 3;
  container_mgr = with_states busy busy;
  workers = running (job 7) c1 ∷ running (job 8) c2 ∷ [];
  wg = 3;
  shut = false;
  results = [];
}

abbrev ended : WorkerPool
ended = record at_work_both {
  container_mgr = with_states idle busy;
  workers = returned ∷ running (job 8) c2 ∷ [];
  wg = 2;
  shut = true;
  results = (7, printed) ∷ [];
}

runs : run prints started (and_then []) ≡ some at_work_both
unfolding start_workers run step submit receive search_container take_container begin_code assign
    set_container_state check_health adjust_health adjust_pool running_workers to_remove
    remove_containers lookup insert same
runs = refl

runs_on : run prints started (and_then rest) ≡ some ended
unfolding start_workers run step submit receive search_container take_container begin_code assign
    set_container_state check_health adjust_health adjust_pool running_workers to_remove
    remove_containers lookup insert same finish close_channels return_on_shutdown execute_code
    get_language_config language_configs decimal
runs_on = refl

All-IsNew : (ids : List Text) → All (IsNew in_vain) ids
All-IsNew [] = tt
All-IsNew (id ∷ ids) = (λ n j e. absurd (cc e), All-IsNew ids)

fresh : AreFresh prints started (and_then [])
fresh = (
  tt,
  λ _ _. (
    tt,
    λ _ _. (
      tt,
      λ _ _.
          (tt, λ _ _. (tt, λ _ _. (tt, λ _ _. (tt, λ _ _. (tt, λ _ _. (All-IsNew _, λ _ _. tt)))))),
    ),
  ),
)

run-IsExclusive_example :
    AllDifferent (held at_work_both.workers)
    × All (λ id. state_of at_work_both.container_mgr id ≢ some idle) (held at_work_both.workers)
run-IsExclusive_example = run-IsExclusive prints both 3 (and_then []) at_work_both runs fresh

run-wg_example : (ended.wg ≡ suc (count_if is_counted ended.workers)) × (ended.wg ≢ 0)
run-wg_example = run-wg prints both 3 (and_then rest) ended runs_on

run-refines_executor_example :
    (v : View Job Result) × Reach channel 3 (IsOutcome prints) new_view v
    × IsFair channel 3 (IsOutcome prints) v
    × (v.queue ≡ ended.jobs)
    × (v.running ≡ at_work job_of ended.workers)
    × (v.results ≡ ended.results)
run-refines_executor_example = run-refines_executor prints both 3 ended (and_then rest) runs_on

-- The first job has been answered.
abbrev one_done : WorkerPool
one_done = record at_work_both {
  container_mgr = with_states idle busy;
  workers = waiting ∷ running (job 8) c2 ∷ [];
  results = (7, printed) ∷ [];
}

finishes_one : run prints at_work_both (finishes 0 3000000 ∷ []) ≡ some one_done
unfolding run step finish set_container_state lookup insert same execute_code get_language_config
    language_configs decimal
finishes_one = refl

run-settles_example :
    (1 ≤ length at_work_both.jobs * 14 + sum_steps at_work_both.workers)
    × (CanWork prints one_done ⊎ ((one_done.jobs ≡ []) × (at_work job_of one_done.workers ≡ [])))
run-settles_example =
    run-settles prints both 3 (and_then []) (finishes 0 3000000 ∷ []) at_work_both one_done
      (omega arith) runs refl finishes_one (tt, tt)
