-- ===== src/Executor/WorkerPool/Pool.antt =====
-- The WorkerPool of executor/worker_pool.go and the Job of a caller: the queue, the goroutines and
-- the wait group, over the container manager. A pool is a state, and whatever a goroutine does next
-- is an event: where the code holds the mutex of the manager, its step is one event. `run_command`
-- is what `docker exec` does. A caller of ExecuteJob whose job is queued waits for `results` to hold
-- an entry of its channel.
pub mod Holders
pub mod Quiet
pub mod Moves
pub mod Exclusive
pub mod Waits
pub mod Weight
pub mod Progress
pub mod Refinement
mod Tests
use code_execution_engine.Common.{
  ℕ, zero, suc, ◌+◌, ◌-◌, Bool, true, false, List, [], ◌∷◌, ◌++◌, Option, none, some, Text, codes,
  decimal, Fallible, ok, err, ltb, if◌then◌else◌, length, get_elem?, set, replicate,
}
use code_execution_engine.Executor.ContainerManager.{
  ContainerManager, idle, busy, Job, Result, Listed, Start, initialize_pool, check_health, assign,
  max_retries, set_container_state, remove_container,
}
use code_execution_engine.Executor.ContainerManager as Manager
use code_execution_engine.Executor.WorkerPool.{execute_code, job_result}

-- A worker waits at its select, looks for a container with some rounds left, has been given one,
-- runs its job there, or has returned.
pub data WorkerState : Type 0 where
  waiting : WorkerState
  searching : Job → ℕ → WorkerState
  found : Job → Text → WorkerState
  running : Job → Text → WorkerState
  returned : WorkerState

pub record WorkerPool : Type 0 where
  pub jobs : List Job
  pub max_job_count : ℕ
  pub container_mgr : ContainerManager
  pub workers : List WorkerState
  pub wg : ℕ
  pub shut : Bool
  pub results : List (ℕ × Result)

-- How the calls of NewContainerManager end: the client, the directory for logs and its file.
pub data SetUp : Type 0 where
  client_fails directory_fails file_fails : Text → SetUp
  sets_up : SetUp

unfoldable pub new_container_manager : Text → ℕ → ℕ → ℕ → SetUp → Fallible ContainerManager
new_container_manager image max_workers memory cpu (client_fails e) =
    err (codes "failed to create Docker client: " ++ e)
new_container_manager image max_workers memory cpu (directory_fails e) =
    err (codes "failed to create logs directory: " ++ e)
new_container_manager image max_workers memory cpu (file_fails e) =
    err (codes "failed to open log file: " ++ e)
new_container_manager image max_workers memory cpu sets_up = ok (record {
  containers = [];
  max_workers = max_workers;
  memorylimit = memory;
  cpunanolimit = cpu;
  worker_image = image;
})

-- The monitor and the workers, each of which the wait group counts.
unfoldable pub start_workers : ContainerManager → ℕ → WorkerPool
start_workers cm max_job_count = record {
  jobs = [];
  max_job_count = max_job_count;
  container_mgr = cm;
  workers = replicate cm.max_workers waiting;
  wg = suc cm.max_workers;
  shut = false;
  results = [];
}

abbrev pub start_or_fail : ℕ → ContainerManager × Option Text → Fallible WorkerPool
start_or_fail max_job_count (cm, some e) = err e
start_or_fail max_job_count (cm, none) = ok (start_workers cm max_job_count)

-- `NewWorkerPool`, with the manager that NewContainerManager returns.
unfoldable pub new_worker_pool :
    Fallible ContainerManager
    → ℕ
    → Fallible (List Listed)
    → List Text
    → (ℕ → Start)
    → Fallible WorkerPool
new_worker_pool (err e) max_job_count listing order outcomes = err e
new_worker_pool (ok cm) max_job_count listing order outcomes =
    start_or_fail max_job_count (initialize_pool cm listing order outcomes)

abbrev pub failure : Text → Result
failure e = record { output = []; success = false; error = some e; execution_time = [] }

-- `ExecuteJob` up to its wait, with the Result of a job that is rejected. A send on the closed
-- channel panics: `none`.
unfoldable pub submit : WorkerPool → Job → Option (WorkerPool × Option Result)
submit p job =
    if p.shut
    then none
    else if ltb (length p.jobs) p.max_job_count
    then some (record p { jobs = p.jobs ++ job ∷ [] }, none)
    else some
        (p, some (failure (codes "job queue full, max capacity: " ++ decimal p.max_job_count)))

abbrev pub answer : WorkerPool → ℕ → ContainerManager → Job → Result → WorkerPool
answer p i cm job r = record p {
  container_mgr = cm;
  workers = set p.workers i waiting;
  results = p.results ++ (job.result, r) ∷ [];
}

-- A worker takes the first job of the queue, which it may do of the closed channel, too.
unfoldable pub receive : WorkerPool → ℕ → WorkerState → List Job → Option WorkerPool
receive p i waiting (job ∷ rest) =
    some (record p { jobs = rest; workers = set p.workers i (searching job max_retries) })
receive p i w js = none

-- What a round of GetAvailableContainer found.
unfoldable pub take_container :
    WorkerPool → ℕ → Job → ℕ → Option (Text × ContainerManager) → WorkerPool
take_container p i job n none = record p { workers = set p.workers i (searching job n) }
take_container p i job n (some (id, cm)) = record p {
  container_mgr = cm;
  workers = set p.workers i (found job id);
}

-- The next round, in the order of its range over the map, or the end of the rounds.
unfoldable pub search_container : WorkerPool → ℕ → List Text → WorkerState → Option WorkerPool
search_container p i order (searching job zero) =
    some
      (answer p i p.container_mgr job (failure (codes "no available containers after 10 retries")))
search_container p i order (searching job (suc n)) =
    some (take_container p i job n (assign p.container_mgr order))
search_container p i order w = none

-- `SetContainerState(containerID, StateBusy)`, before the code runs.
unfoldable pub begin_code : WorkerPool → ℕ → WorkerState → Option WorkerPool
begin_code p i (found job id) = some (record p {
  container_mgr = set_container_state p.container_mgr id busy;
  workers = set p.workers i (running job id);
})
begin_code p i w = none

-- The end of `executeJob`, `elapsed` nanoseconds after `start`.
unfoldable pub finish :
    (List Text → Text → ℕ → Text × Option Text)
    → WorkerPool
    → ℕ
    → ℕ
    → WorkerState
    → Option WorkerPool
finish run_command p i elapsed (running job id) = some (
    answer p i (set_container_state p.container_mgr id idle) job
      (job_result elapsed (execute_code run_command id job.language job.code)))
finish run_command p i elapsed w = none

-- A worker returns, from the empty closed queue or at the signal.
unfoldable pub return_on_shutdown : WorkerPool → ℕ → WorkerState → Option WorkerPool
return_on_shutdown p i waiting =
    if p.shut then some (record p { workers = set p.workers i returned; wg = p.wg - 1 }) else none
return_on_shutdown p i w = none

-- `Shutdown` closes both channels, which panics the second time, then empties the manager. What is
-- left of it is the wait for the wait group.
unfoldable pub close_channels : WorkerPool → Option WorkerPool
close_channels p = if p.shut then none else some (record p { shut = true })

unfoldable pub empty_manager : WorkerPool → Option WorkerPool
empty_manager p =
    if p.shut then some (record p { container_mgr = Manager.shutdown p.container_mgr }) else none

pub data Event : Type 0 where
  submits : Job → Event
  receives begins_code returns : ℕ → Event
  searches : ℕ → List Text → Event
  finishes : ℕ → ℕ → Event
  checks_health : Fallible (List Listed) → List Text → (ℕ → Start) → Event
  removes : Text → Event
  closes_channels empties_manager : Event

abbrev at_worker {ℓ} : {B : Type ℓ} → (WorkerState → Option B) → Option WorkerState → Option B
at_worker f none = none
at_worker f (some w) = f w

abbrev left_by : Option (WorkerPool × Option Result) → Option WorkerPool
left_by none = none
left_by (some (p, r)) = some p

-- `removes` is the goroutine of the watch over a container that uses too much.
unfoldable pub step :
    (List Text → Text → ℕ → Text × Option Text) → WorkerPool → Event → Option WorkerPool
step run_command p (submits job) = left_by (submit p job)
step run_command p (receives i) = at_worker (λ w. receive p i w p.jobs) (get_elem? p.workers i)
step run_command p (begins_code i) = at_worker (begin_code p i) (get_elem? p.workers i)
step run_command p (returns i) = at_worker (return_on_shutdown p i) (get_elem? p.workers i)
step run_command p (searches i order) =
    at_worker (search_container p i order) (get_elem? p.workers i)
step run_command p (finishes i elapsed) =
    at_worker (finish run_command p i elapsed) (get_elem? p.workers i)
step run_command p (checks_health listing order outcomes) =
    some (record p { container_mgr = check_health p.container_mgr listing order outcomes })
step run_command p (removes id) =
    some (record p { container_mgr = remove_container p.container_mgr id })
step run_command p closes_channels = close_channels p
step run_command p empties_manager = empty_manager p

unfoldable pub run :
    (List Text → Text → ℕ → Text × Option Text) → WorkerPool → List Event → Option WorkerPool
run run_command p [] = some p
run run_command p (e ∷ es) = elim (step run_command p e) [
  | none ↦ none
  | some q ↦ run run_command q es
]
