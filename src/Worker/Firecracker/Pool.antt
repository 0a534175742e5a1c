-- ===== src/Worker/Firecracker/Pool.antt =====
-- The FirecrackerPool of worker/firecracker/firecracker.go. The pool is a state, and whatever a
-- goroutine does next is an event; the machine that a job meets comes with the event that ends it.
-- `warm` is how many slots of the semaphore are taken.
pub mod Moves
pub mod Warm
pub mod Refinement
pub mod Interface
pub mod Lively
mod Tests
use code_execution_engine.Common.{
  ℤ, pos, pos_part, leb_ℤ, ℕ, zero, suc, ◌+◌, ◌-◌, ◌*◌, Bool, true, false, ◌&&◌, List, [], ◌∷◌,
  ◌++◌, Option, none, some, Text, Fallible, codes, ltb, is_empty, if◌then◌else◌, length, get_elem?,
  set, replicate,
}
use code_execution_engine.Worker.{Job, Result, Config, PoolStats, zero_result}
use code_execution_engine.Worker.Firecracker.Vsock.{ExecuteReq, ExecuteResp}
use code_execution_engine.Worker.Firecracker.Snapshot.{Effect, Host, create_snapshot}
use code_execution_engine.Worker.Firecracker.Instance.{Machine, execute_code}

-- Where a worker goroutine stands: at its `select`, with a job before the semaphore, in
-- `executeCode` with a slot of the semaphore, or returned.
pub data WorkerState : Type 0 where
  waiting : WorkerState
  holding : Job → WorkerState
  running : Job → WorkerState
  returned : WorkerState

pub record FirecrackerPool : Type 0 where
  pub cfg : Config
  pub snapshot_dir : Text
  pub kernel_path : Text
  pub rootfs_path : Text
  pub active_workers : ℤ
  pub total_executed : ℕ
  pub warm : ℕ
  pub warm_closed : Bool
  pub capacity : ℕ
  pub jobs : List Job
  pub workers : List WorkerState
  pub results : List (ℕ × Result)
  pub shut : Bool

module _ (join : Text → Text → Text) where
  unfoldable pub new_pool : Config → FirecrackerPool
  new_pool cfg =
      let workers = if leb_ℤ cfg.max_workers (pos 0) then pos 3 else cfg.max_workers in
      record {
        cfg = record cfg { max_workers = workers };
        snapshot_dir =
            if is_empty cfg.image
            then codes "/var/lib/firecracker/snapshots/codeexec"
            else join (codes "/var/lib/firecracker/snapshots") cfg.image;
        kernel_path = codes "/var/lib/firecracker/vmlinux";
        rootfs_path = codes "/var/lib/firecracker/worker-rootfs.ext4";
        active_workers = pos 0;
        total_executed = 0;
        warm = 0;
        warm_closed = false;
        capacity = pos_part workers * 10;
        jobs = [];
        workers = [];
        results = [];
        shut = false;
      }

unfoldable pub start_workers : FirecrackerPool → FirecrackerPool
start_workers p = record p {
  workers = p.workers ++ replicate (pos_part p.cfg.max_workers) waiting;
  active_workers = p.cfg.max_workers;
}

module _ (join : Text → Text → Text) (quote : Text → Text) where
  -- `Initialize`, where `has_file` is os.Stat without an error.
  unfoldable pub initialize :
      (Text → Bool) → Host → FirecrackerPool → List Effect × (FirecrackerPool × Option Text)
  initialize has_file host p =
      let mem_path = join p.snapshot_dir (codes "mem.snapshot") in
      let vmstate_path = join p.snapshot_dir (codes "vmstate.snapshot") in
      let (done, result) =
        create_snapshot quote p.kernel_path p.rootfs_path host mem_path vmstate_path in
      if has_file mem_path && has_file vmstate_path
      then ([], (start_workers p, none))
      else elim result [
        | some e ↦ (done, (p, some (codes "create snapshot: " ++ e)))
        | none ↦ (done, (start_workers p, none))
      ]

-- The `select` of `ExecuteJob`: the job is queued and counted, or the call returns at once.
unfoldable pub submit : FirecrackerPool → Job → FirecrackerPool × Option (Result × Option Text)
submit p job =
    if ltb (length p.jobs) p.capacity
    then (record p { jobs = p.jobs ++ job ∷ []; total_executed = p.total_executed + 1 }, none)
    else (p, some (zero_result, some (codes "firecracker queue full")))

-- The end of `ExecuteJob`, once the result of a queued job has come.
unfoldable pub reply : Result → Result × Option Text
reply r = (r, r.error)

unfoldable pub pool_stats : FirecrackerPool → PoolStats
pool_stats p = record {
  active_workers = p.cfg.max_workers;
  queued_jobs = length p.jobs;
  total_executed = p.total_executed;
}

abbrev pub all_returned : List WorkerState → Bool
all_returned [] = true
all_returned (returned ∷ ws) = all_returned ws
all_returned (_ ∷ ws) = false

-- `Shutdown` up to its wait; the channel panics when it is closed a second time (`none`).
unfoldable pub begin_shutdown : FirecrackerPool → Option FirecrackerPool
begin_shutdown p = if p.shut then none else some (record p { shut = true })

-- The end of `Shutdown`, after the wait for the workers.
unfoldable pub end_shutdown : FirecrackerPool → Option FirecrackerPool
end_shutdown p =
    if p.shut && all_returned p.workers
    then if p.warm_closed then none else some (record p { warm_closed = true })
    else none

pub data Event : Type 0 where
  submits : Job → Event
  receives : ℕ → Event
  acquires : ℕ → Event
  finishes : ℕ → Machine → Event
  begins_shutdown : Event
  ends_shutdown : Event
  returns : ℕ → Event

unfoldable pub receive : FirecrackerPool → ℕ → WorkerState → List Job → Option FirecrackerPool
receive p i waiting (job ∷ rest) =
    some (record p { jobs = rest; workers = set p.workers i (holding job) })
receive p i _ _ = none

-- `p.warmSem <- struct{}{}`: not while all slots are taken.
unfoldable pub acquire : FirecrackerPool → ℕ → WorkerState → Option FirecrackerPool
acquire p i (holding job) =
    if ltb p.warm (pos_part p.cfg.max_workers)
    then some (record p { warm = p.warm + 1; workers = set p.workers i (running job) })
    else none
acquire p i _ = none

unfoldable pub return_on_shutdown : FirecrackerPool → ℕ → WorkerState → Option FirecrackerPool
return_on_shutdown p i waiting =
    if p.shut then some (record p { workers = set p.workers i returned }) else none
return_on_shutdown p i _ = none

module _ (join : Text → Text → Text) (quote : Text → Text) (marshal : ExecuteReq → Fallible Text)
    (unmarshal : Text → Fallible ExecuteResp) where
  abbrev pub outcome : Text → Machine → Job → Result
  outcome snapshot_dir m job =
      (execute_code join quote marshal unmarshal snapshot_dir m job.language job.code).1

  -- The end of `executeCode`, the slot given back, and the result sent.
  unfoldable pub finish : FirecrackerPool → ℕ → Machine → WorkerState → Option FirecrackerPool
  finish p i m (running job) = some (record p {
    warm = p.warm - 1;
    workers = set p.workers i waiting;
    results = p.results ++ (job.result, outcome p.snapshot_dir m job) ∷ [];
  })
  finish p i m _ = none

  unfoldable pub step : FirecrackerPool → Event → Option FirecrackerPool
  step p (submits job) = some (submit p job).0
  step p (receives i) = elim (get_elem? p.workers i) [ none ↦ none | some w ↦ receive p i w p.jobs ]
  step p (acquires i) = elim (get_elem? p.workers i) [ none ↦ none | some w ↦ acquire p i w ]
  step p (finishes i m) = elim (get_elem? p.workers i) [ none ↦ none | some w ↦ finish p i m w ]
  step p begins_shutdown = begin_shutdown p
  step p ends_shutdown = end_shutdown p
  step p (returns i) = elim (get_elem? p.workers i) [
    | none ↦ none
    | some w ↦ return_on_shutdown p i w
  ]

  unfoldable pub run : FirecrackerPool → List Event → Option FirecrackerPool
  run p [] = some p
  run p (ev ∷ evs) = elim (step p ev) [ none ↦ none | some q ↦ run q evs ]
