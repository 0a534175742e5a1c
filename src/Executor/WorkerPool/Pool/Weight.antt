-- ===== src/Executor/WorkerPool/Pool/Weight.antt =====
-- Each step of a worker of executor/worker_pool.go with a job brings the pool nearer to the point
-- where all its jobs are answered.
use mathlib.Core.Path.{subst}
use code_execution_engine.Common.{
  ℕ, suc, ◌+◌, ◌*◌, ◌≤◌, ◌≡◌, ◌∙◌, ap, inl, inr, List, [], ◌∷◌, Option, some, Option-cases,
  eq_of_some-eq, Text, length, All, arith,
}
use code_execution_engine.Worker.Backend.Progress as Progress
use code_execution_engine.Worker.Backend.Progress.{sum_steps-set}
use code_execution_engine.Executor.ContainerManager.{max_retries}
use code_execution_engine.Executor.WorkerPool.Pool.{
  WorkerState, waiting, searching, found, running, returned, WorkerPool, Event, receives,
  begins_code, searches, finishes, step, run,
}
use code_execution_engine.Executor.WorkerPool.Pool.Moves.{
  Move, rejects, queues, takes_job, finds_none, finds, gives_up, begins, ends, leaves, checks,
  loses, closes, empties, step-Move,
}

-- How many steps a worker has before it at most.
abbrev pub steps_of : WorkerState → ℕ
steps_of waiting = 0
steps_of (searching job n) = n + 3
steps_of (found job id) = 2
steps_of (running job id) = 1
steps_of returned = 0

abbrev pub sum_steps : List WorkerState → ℕ
sum_steps = Progress.sum_steps steps_of

abbrev pub weight : WorkerPool → ℕ
weight p = length p.jobs * 14 + sum_steps p.workers

-- The steps of a worker with a job.
abbrev pub IsWork : Event → Type 0
IsWork (receives i) = Unit
IsWork (searches i order) = Unit
IsWork (begins_code i) = Unit
IsWork (finishes i elapsed) = Unit
IsWork _ = ⊥

lighter :
    {p' : WorkerPool} (p q : WorkerPool)
    → p' ≡ q
    → suc (weight p') ≤ weight p
    → suc (weight q) ≤ weight p
lighter p q t h = subst (λ r. suc (weight r) ≤ weight p) t h

module _ (run_command : List Text → Text → ℕ → Text × Option Text) where
  pub Move-weight :
      (p q : WorkerPool) (e : Event) → Move run_command p e q → IsWork e → suc (weight q) ≤ weight p
  Move-weight p q e (rejects job k t) u = absurd (subst IsWork k u)
  Move-weight p q e (queues job k l t) u = absurd (subst IsWork k u)
  Move-weight p q e (takes_job i job rest at j t) u = lighter p q t (
      omega (
        arith,
        ap length j,
        sum_steps-set steps_of p.workers i waiting (searching job max_retries) at,
      ))
  Move-weight p q e (finds_none i job n at t) u = lighter p q t (
      omega
        (arith, sum_steps-set steps_of p.workers i (searching job (suc n)) (searching job n) at))
  Move-weight p q e (finds i job n order id cm at g t) u =
      lighter p q t (
        omega (arith, sum_steps-set steps_of p.workers i (searching job (suc n)) (found job id) at))
  Move-weight p q e (gives_up i job at t) u =
      lighter p q t (omega (arith, sum_steps-set steps_of p.workers i (searching job 0) waiting at))
  Move-weight p q e (begins i job id at t) u =
      lighter p q t
        (omega (arith, sum_steps-set steps_of p.workers i (found job id) (running job id) at))
  Move-weight p q e (ends i elapsed job id at t) u =
      lighter p q t (omega (arith, sum_steps-set steps_of p.workers i (running job id) waiting at))
  Move-weight p q e (leaves i k at x t) u = absurd (subst IsWork k u)
  Move-weight p q e (checks listing order outcomes k t) u = absurd (subst IsWork k u)
  Move-weight p q e (loses id k t) u = absurd (subst IsWork k u)
  Move-weight p q e (closes k t) u = absurd (subst IsWork k u)
  Move-weight p q e (empties k t) u = absurd (subst IsWork k u)

  -- A step of a worker does not shut the pool down.
  Move-shut : (p q : WorkerPool) (e : Event) → Move run_command p e q → IsWork e → p.shut ≡ q.shut
  Move-shut p q e (rejects job k t) u = absurd (subst IsWork k u)
  Move-shut p q e (queues job k l t) u = absurd (subst IsWork k u)
  Move-shut p q e (takes_job i job rest at j t) u = ap (λ r. r.shut) t
  Move-shut p q e (finds_none i job n at t) u = ap (λ r. r.shut) t
  Move-shut p q e (finds i job n order id cm at g t) u = ap (λ r. r.shut) t
  Move-shut p q e (gives_up i job at t) u = ap (λ r. r.shut) t
  Move-shut p q e (begins i job id at t) u = ap (λ r. r.shut) t
  Move-shut p q e (ends i elapsed job id at t) u = ap (λ r. r.shut) t
  Move-shut p q e (leaves i k at x t) u = absurd (subst IsWork k u)
  Move-shut p q e (checks listing order outcomes k t) u = absurd (subst IsWork k u)
  Move-shut p q e (loses id k t) u = absurd (subst IsWork k u)
  Move-shut p q e (closes k t) u = absurd (subst IsWork k u)
  Move-shut p q e (empties k t) u = absurd (subst IsWork k u)

  pub run-shut :
      (p q : WorkerPool) (es : List Event)
      → run run_command p es ≡ some q
      → All IsWork es
      → p.shut ≡ q.shut
  unfolding run
  run-shut p q [] h u = ap (λ r. r.shut) (eq_of_some-eq h)
  run-shut p q (e ∷ es) h u = elim (Option-cases (step run_command p e)) [
    | inl x ↦ absurd (ground arith)
    | inr (r, x) ↦
        Move-shut p r e (step-Move run_command p e r x) u.0 ∙ run-shut r q es (ground arith) u.1
  ]

  pub run-weight :
      (p q : WorkerPool) (es : List Event)
      → run run_command p es ≡ some q
      → All IsWork es
      → length es + weight q ≤ weight p
  unfolding run
  run-weight p q [] h u = omega (arith, ap weight (eq_of_some-eq h))
  run-weight p q (e ∷ es) h u = elim (Option-cases (step run_command p e)) [
    | inl x ↦ absurd (ground arith)
    | inr (r, x) ↦ omega (
      arith,
      run-weight r q es (ground arith) u.1,
      Move-weight p r e (step-Move run_command p e r x) u.0,
    )
  ]
