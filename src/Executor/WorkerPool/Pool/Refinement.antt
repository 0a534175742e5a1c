-- ===== src/Executor/WorkerPool/Pool/Refinement.antt =====
-- The queue and the workers of executor/worker_pool.go as a backend: every run of the pool is a run
-- of the abstract pool of Worker.Backend.
use mathlib.Core.Path.{subst}
use code_execution_engine.Common.{
  ℕ, suc, ◌≡◌, refl, sym, List, [], ◌∷◌, Option, none, some, Option-cases, ◌⊎◌, inl, inr,
  eq_of_some-eq, Text, arith,
}
use code_execution_engine.Executor.ContainerManager.{ContainerManager, Job, Result, max_retries}
use code_execution_engine.Executor.WorkerPool.{execute_code, job_result}
use code_execution_engine.Executor.WorkerPool.Pool.{
  WorkerState, waiting, searching, found, running, returned, WorkerPool, start_workers, Event, step,
  run,
}
use code_execution_engine.Executor.WorkerPool.Pool.Moves.{
  Move, unserved, rejects, queues, takes_job, finds_none, finds, gives_up, begins, ends, leaves,
  checks, loses, closes, empties, step-Move,
}
use code_execution_engine.Worker.Backend.{View, new_view, Reach, trans}
use code_execution_engine.Worker.Backend.Fifo.{IsFair, Reach-IsFair_new}
use code_execution_engine.Worker.Backend.Crew.{
  at_work, at_work-replicate, Shows, Follows, accepted-Follows, started-Follows, answered-Follows,
  kept-Follows, same-Follows,
}

abbrev pub job_of : WorkerState → Option Job
job_of waiting = none
job_of (searching job n) = some job
job_of (found job id) = some job
job_of (running job id) = some job
job_of returned = none

abbrev pub channel : Job → ℕ
channel job = job.result

-- The result of a job is that of its language and its code in some container, or says that there
-- was none.
abbrev pub IsOutcome : (List Text → Text → ℕ → Text × Option Text) → Job → Result → Type 0
IsOutcome run_command job r =
    ((id : Text) × (elapsed : ℕ) × (r
        ≡ job_result elapsed (execute_code run_command id job.language job.code)))
    ⊎ (r ≡ unserved)

module _ (run_command : List Text → Text → ℕ → Text × Option Text) (room : ℕ) where
  abbrev IsResult : Job → Result → Type 0
  IsResult = IsOutcome run_command

  abbrev Simulates : View Job Result → WorkerPool → Type 0
  Simulates v p =
      (p.max_job_count ≡ room) × Follows job_of channel room IsResult v p.jobs p.workers p.results

  abbrev Shown : WorkerPool → View Job Result → Type 0
  Shown p v =
      (p.max_job_count ≡ room) × Shows job_of channel room IsResult p.jobs p.workers p.results v

  module _ (p : WorkerPool) (v : View Job Result) where
    same : Shown p v → Simulates v p
    same (r, s) = (r, same-Follows job_of channel room IsResult p.jobs p.workers p.results v s)

    Move-Simulates :
        (q : WorkerPool) (e : Event) → Move run_command p e q → Shown p v → Simulates v q
    Move-Simulates q e (rejects job k t) s = subst (Simulates v) t (same s)
    Move-Simulates q e (queues job k l t) (r, s) = subst (Simulates v) t (
      r,
      accepted-Follows job_of channel room IsResult p.jobs p.workers p.results v job s
          (omega (arith, l, r)),
    )
    Move-Simulates q e (takes_job i job rest at j t) (r, s) = subst (Simulates v) t (
      r,
      started-Follows job_of channel room IsResult rest p.workers p.results v job i waiting
          (searching job max_retries)
          (subst (λ l. Shows job_of channel room IsResult l p.workers p.results v) j s) at refl
          refl,
    )
    Move-Simulates q e (finds_none i job n at t) (r, s) = subst (Simulates v) t (
      r,
      kept-Follows job_of channel room IsResult p.jobs p.workers p.results v i
          (searching job (suc n)) (searching job n) s at refl,
    )
    Move-Simulates q e (finds i job n order id cm at g t) (r, s) = subst (Simulates v) t (
      r,
      kept-Follows job_of channel room IsResult p.jobs p.workers p.results v i
          (searching job (suc n)) (found job id) s at refl,
    )
    Move-Simulates q e (gives_up i job at t) (r, s) = subst (Simulates v) t (
      r,
      answered-Follows job_of channel room IsResult p.jobs p.workers p.results v job unserved i
          (searching job 0) waiting s at refl refl (inr refl),
    )
    Move-Simulates q e (begins i job id at t) (r, s) = subst (Simulates v) t (
      r,
      kept-Follows job_of channel room IsResult p.jobs p.workers p.results v i (found job id)
          (running job id) s at refl,
    )
    Move-Simulates q e (ends i elapsed job id at t) (r, s) = subst (Simulates v) t (
      r,
      answered-Follows job_of channel room IsResult p.jobs p.workers p.results v job
          (job_result elapsed (execute_code run_command id job.language job.code)) i
          (running job id) waiting s at refl refl (inl (id, elapsed, refl)),
    )
    Move-Simulates q e (leaves i k at x t) (r, s) = subst (Simulates v) t (
      r,
      kept-Follows job_of channel room IsResult p.jobs p.workers p.results v i waiting returned s at
          refl,
    )
    Move-Simulates q e (checks listing order outcomes k t) s = subst (Simulates v) t (same s)
    Move-Simulates q e (loses id k t) s = subst (Simulates v) t (same s)
    Move-Simulates q e (closes k t) s = subst (Simulates v) t (same s)
    Move-Simulates q e (empties k t) s = subst (Simulates v) t (same s)

  run-Simulates :
      (p q : WorkerPool) (v : View Job Result) (es : List Event)
      → run run_command p es ≡ some q
      → Shown p v
      → Simulates v q
  unfolding run
  run-Simulates p q v [] h s = subst (Simulates v) (eq_of_some-eq h) (same p v s)
  run-Simulates p q v (e ∷ es) h s = elim (Option-cases (step run_command p e)) [
    | inl x ↦ absurd (ground arith)
    | inr (f, x) ↦
        let (r, (u, k, t)) = Move-Simulates p v f e (step-Move run_command p e f x) s in
        let (r', (w, l, t')) = run-Simulates f q u es (ground arith) (r, t) in
        (r', (w, trans channel room IsResult k l, t'))
  ]

start-Shown :
    (run_command : List Text → Text → ℕ → Text × Option Text) (cm : ContainerManager)
    (max_job_count : ℕ)
    → Shown run_command max_job_count (start_workers cm max_job_count) new_view
unfolding start_workers
start-Shown run_command cm max_job_count = (
  refl,
  record {
    in_queue = refl;
    busy = sym (at_work-replicate job_of cm.max_workers waiting refl);
    sent = refl;
  },
)

-- Every run of a new worker pool, over whatever container manager, is a run of the abstract pool,
-- with room for `max_job_count` jobs. So the accepted jobs are the started ones and then the queue,
-- in the order of their acceptance, each started job is at a worker or was answered, once, and each
-- answer is the result of the job on whose channel it was sent: its run in some container, or that
-- there was none.
pub run-refines_executor :
    (run_command : List Text → Text → ℕ → Text × Option Text) (cm : ContainerManager)
    (max_job_count : ℕ) (q : WorkerPool) (es : List Event)
    → run run_command (start_workers cm max_job_count) es ≡ some q
    → (v : View Job Result) × Reach channel max_job_count (IsOutcome run_command) new_view v
      × IsFair channel max_job_count (IsOutcome run_command) v
      × (v.queue ≡ q.jobs)
      × (v.running ≡ at_work job_of q.workers)
      × (v.results ≡ q.results)
run-refines_executor run_command cm max_job_count q es h =
    let (_, (v, r, s)) =
      run-Simulates run_command max_job_count (start_workers cm max_job_count) q new_view es h
        (start-Shown run_command cm max_job_count) in
    (
      v,
      r,
      Reach-IsFair_new channel max_job_count (IsOutcome run_command) v r,
      s.in_queue,
      s.busy,
      s.sent,
    )
