-- ===== src/Executor/WorkerPool/Pool/Exclusive.antt =====
-- executor/worker_pool.go over executor/container_manager.go: no two jobs are in one container.
use mathlib.Core.Path.{subst}
use code_execution_engine.Common.{
  ℕ, suc, ◌≡◌, ◌≢◌, refl, sym, List, [], ◌∷◌, Option, some, Option-cases, eq_of_some-eq, Text, All,
  AllDifferent, arith, inl, inr,
}
use code_execution_engine.Executor.ContainerManager.{
  ContainerManager, Listed, Start, Job, idle, busy, max_retries, set_container_state,
  remove_container,
}
use code_execution_engine.Executor.ContainerManager as Manager
use code_execution_engine.Executor.ContainerManager.Assignment.{state_of, assign-some}
use code_execution_engine.Executor.WorkerPool.Pool.{
  waiting, searching, found, running, returned, WorkerPool, start_workers, Event, checks_health,
  step, run,
}
use code_execution_engine.Executor.WorkerPool.Pool.Holders.{
  held, IsExclusive, IsQuiet, All-map2, stay-IsExclusive, keep-IsExclusive, take-IsExclusive,
  release-IsExclusive,
}
use code_execution_engine.Executor.WorkerPool.Pool.Quiet.{
  IsNew, remove_container-IsQuiet, shutdown-IsQuiet, set_busy-IsQuiet, set_other-IsQuiet,
  check_health-IsQuiet,
}
use code_execution_engine.Executor.WorkerPool.Pool.Moves.{
  Move, rejects, queues, takes_job, finds_none, finds, gives_up, begins, ends, leaves, checks,
  loses, closes, empties, step-Move,
}
use code_execution_engine.Worker.Backend.Crew.{at_work-replicate}

abbrev IsSafe : WorkerPool → Type 0
IsSafe p = IsExclusive p.container_mgr (held p.workers)

-- Docker gives a container that checkHealth starts none of the IDs that are held then.
abbrev pub IsFresh : WorkerPool → Event → Type 0
IsFresh p (checks_health listing order outcomes) = All (IsNew outcomes) (held p.workers)
IsFresh p _ = Unit

unchanged : (cm : ContainerManager) (j : Text) → IsQuiet cm cm j
unchanged cm j h = h

module _ (run_command : List Text → Text → ℕ → Text × Option Text) where
  Move-IsSafe :
      (p q : WorkerPool) (e : Event) → Move run_command p e q → IsFresh p e → IsSafe p → IsSafe q
  Move-IsSafe p q e (rejects job k t) f s = subst IsSafe t s
  Move-IsSafe p q e (queues job k l t) f s = subst IsSafe t s
  Move-IsSafe p q e (takes_job i job rest at j t) f s = subst IsSafe t (
      keep-IsExclusive p.container_mgr p.container_mgr p.workers i waiting
        (searching job max_retries) at refl (unchanged p.container_mgr) s)
  Move-IsSafe p q e (finds_none i job n at t) f s = subst IsSafe t (
      keep-IsExclusive p.container_mgr p.container_mgr p.workers i (searching job (suc n))
        (searching job n) at refl (unchanged p.container_mgr) s)
  Move-IsSafe p q e (finds i job n order id cm at g t) f s =
      let (free, changed) = assign-some p.container_mgr cm order id g in
      subst IsSafe t (
        take-IsExclusive p.container_mgr cm p.workers i (searching job (suc n)) (found job id) at id
          refl refl free changed s)
  Move-IsSafe p q e (gives_up i job at t) f s = subst IsSafe t (
      keep-IsExclusive p.container_mgr p.container_mgr p.workers i (searching job 0) waiting at refl
        (unchanged p.container_mgr) s)
  Move-IsSafe p q e (begins i job id at t) f s = subst IsSafe t (
      keep-IsExclusive p.container_mgr (set_container_state p.container_mgr id busy) p.workers i
        (found job id) (running job id) at refl (set_busy-IsQuiet p.container_mgr id) s)
  Move-IsSafe p q e (ends i elapsed job id at t) f s = subst IsSafe t (
      release-IsExclusive p.container_mgr (set_container_state p.container_mgr id idle) p.workers i
        (running job id) waiting at id refl refl (set_other-IsQuiet p.container_mgr id idle) s)
  Move-IsSafe p q e (leaves i k at x t) f s = subst IsSafe t (
      keep-IsExclusive p.container_mgr p.container_mgr p.workers i waiting returned at refl
        (unchanged p.container_mgr) s)
  Move-IsSafe p q e (checks listing order outcomes k t) f s = subst IsSafe t (
    s.0,
    All-map2 _ _ _ (check_health-IsQuiet p.container_mgr listing order outcomes) (held p.workers)
        (subst (IsFresh p) k f) s.1,
  )
  Move-IsSafe p q e (loses id k t) f s = subst IsSafe t (
      stay-IsExclusive p.container_mgr (remove_container p.container_mgr id) p.workers
        (remove_container-IsQuiet p.container_mgr id) s)
  Move-IsSafe p q e (closes k t) f s = subst IsSafe t s
  Move-IsSafe p q e (empties k t) f s = subst IsSafe t (
      stay-IsExclusive p.container_mgr (Manager.shutdown p.container_mgr) p.workers
        (shutdown-IsQuiet p.container_mgr) s)

  -- Every event of a run is fresh in the pool that it finds.
  abbrev pub AreFresh : WorkerPool → List Event → Type 0
  AreFresh p [] = Unit
  AreFresh p (e ∷ es) =
      IsFresh p e × ((q : WorkerPool) → step run_command p e ≡ some q → AreFresh q es)

  run-IsSafe :
      (p q : WorkerPool) (es : List Event)
      → run run_command p es ≡ some q
      → AreFresh p es
      → IsSafe p
      → IsSafe q
  unfolding run
  run-IsSafe p q [] h f s = subst IsSafe (eq_of_some-eq h) s
  run-IsSafe p q (e ∷ es) h f s = elim (Option-cases (step run_command p e)) [
    | inl x ↦ absurd (ground arith)
    | inr (r, x) ↦
        run-IsSafe r q es (ground arith) (f.1 r x)
          (Move-IsSafe p r e (step-Move run_command p e r x) f.0 s)
  ]

start-IsSafe : (cm : ContainerManager) (max_job_count : ℕ) → IsSafe (start_workers cm max_job_count)
unfolding start_workers
start-IsSafe cm max_job_count =
    subst (IsExclusive cm) (sym (at_work-replicate _ cm.max_workers waiting refl)) (tt, tt)

-- In every run of a new worker pool, with whatever health checks, removals and shutdown come between
-- its jobs, no container is held by two workers at once, from its assignment to the end of the run,
-- and a container that a worker holds is not idle, so that no other worker gets it. The run is one
-- in which Docker never gives a new container the ID of one that is held.
pub run-IsExclusive :
    (run_command : List Text → Text → ℕ → Text × Option Text) (cm : ContainerManager)
    (max_job_count : ℕ) (es : List Event) (q : WorkerPool)
    → run run_command (start_workers cm max_job_count) es ≡ some q
    → AreFresh run_command (start_workers cm max_job_count) es
    → AllDifferent (held q.workers)
      × All (λ id. state_of q.container_mgr id ≢ some idle) (held q.workers)
run-IsExclusive run_command cm max_job_count es q h f =
    run-IsSafe run_command (start_workers cm max_job_count) q es h f (start-IsSafe cm max_job_count)
