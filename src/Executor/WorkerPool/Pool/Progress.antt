-- ===== src/Executor/WorkerPool/Pool/Progress.antt =====
-- The workers of executor/worker_pool.go come to an end: each of their steps brings the pool nearer
-- to the point where all its jobs are answered, and before that point they can take a step.
use mathlib.Core.Path.{subst}
use code_execution_engine.Common.{
  ℕ, zero, suc, ◌+◌, ◌*◌, ◌≤◌, ◌≡◌, ◌∙◌, refl, ap, ◌⊎◌, inl, inr, true, false, List, [], ◌∷◌, ◌++◌,
  Option, none, some, Option-cases, eq_of_some-eq, sym, Text, length, get_elem?, count_if, All,
  arith,
}
use code_execution_engine.Executor.ContainerManager.{ContainerManager, Job}
use code_execution_engine.Executor.WorkerPool.Pool.{
  WorkerState, waiting, searching, found, running, returned, WorkerPool, start_workers, Event,
  receives, begins_code, searches, finishes, receive, search_container, begin_code, finish,
  at_worker, step, run,
}
use code_execution_engine.Executor.WorkerPool.Pool.Moves.{
  Move, rejects, queues, takes_job, finds_none, finds, gives_up, begins, ends, leaves, checks,
  loses, closes, empties, run-Move,
}
use code_execution_engine.Executor.WorkerPool.Pool.Waits.{is_counted, run-wg}
use code_execution_engine.Executor.WorkerPool.Pool.Refinement.{job_of}
use code_execution_engine.Worker.Backend.Crew.{at_work}
use code_execution_engine.Worker.Backend.Progress.{crew-cases}
use code_execution_engine.Executor.WorkerPool.Pool.Weight.{sum_steps, IsWork, run-weight, run-shut}

module _ (run_command : List Text → Text → ℕ → Text × Option Text) where
  -- While the pool is open, all its workers are there.
  abbrev IsManned : ℕ → WorkerPool → Type 0
  IsManned n p = p.shut ≡ false → p.wg ≡ suc n

  Move-IsManned :
      (n : ℕ) (p : WorkerPool) (e : Event) (q : WorkerPool)
      → Move run_command p e q
      → IsManned n p
      → IsManned n q
  Move-IsManned n p e q (rejects job k t) c = subst (IsManned n) t c
  Move-IsManned n p e q (queues job k l t) c = subst (IsManned n) t c
  Move-IsManned n p e q (takes_job i job rest at j t) c = subst (IsManned n) t c
  Move-IsManned n p e q (finds_none i job m at t) c = subst (IsManned n) t c
  Move-IsManned n p e q (finds i job m order id cm at g t) c = subst (IsManned n) t c
  Move-IsManned n p e q (gives_up i job at t) c = subst (IsManned n) t c
  Move-IsManned n p e q (begins i job id at t) c = subst (IsManned n) t c
  Move-IsManned n p e q (ends i elapsed job id at t) c = subst (IsManned n) t c
  Move-IsManned n p e q (leaves i k at x t) c =
      subst (IsManned n) t (λ open_still. absurd (cc (x, open_still)))
  Move-IsManned n p e q (checks listing order outcomes k t) c = subst (IsManned n) t c
  Move-IsManned n p e q (loses id k t) c = subst (IsManned n) t c
  Move-IsManned n p e q (closes k t) c = subst (IsManned n) t (λ open_still. absurd (cc open_still))
  Move-IsManned n p e q (empties k t) c = subst (IsManned n) t c

free : (w : WorkerState) → is_counted w ≡ true → job_of w ≡ none → w ≡ waiting
free waiting c e = refl
free (searching j n) c e = absurd (cc e)
free (found j id) c e = absurd (cc e)
free (running j id) c e = absurd (cc e)
free returned c e = absurd (cc c)

module _ (run_command : List Text → Text → ℕ → Text × Option Text) (p : WorkerPool) where
  -- A worker can take a step with a job.
  abbrev pub CanWork : Type 0
  CanWork = (e : Event) × IsWork e × (q : WorkerPool) × (step run_command p e ≡ some q)

  busy-CanWork :
      (i : ℕ) (w : WorkerState) (job : Job)
      → get_elem? p.workers i ≡ some w
      → job_of w ≡ some job
      → CanWork
  unfolding step search_container begin_code finish
  busy-CanWork i (searching j zero) job at e =
      (searches i [], tt, _, ap (at_worker (search_container p i [])) at)
  busy-CanWork i (searching j (suc n)) job at e =
      (searches i [], tt, _, ap (at_worker (search_container p i [])) at)
  busy-CanWork i (found j id) job at e = (begins_code i, tt, _, ap (at_worker (begin_code p i)) at)
  busy-CanWork i (running j id) job at e =
      (finishes i 0, tt, _, ap (at_worker (finish run_command p i 0)) at)
  busy-CanWork i waiting job at e = absurd (cc e)
  busy-CanWork i returned job at e = absurd (cc e)

  free-CanWork :
      (i : ℕ) (js : List Job)
      → get_elem? p.workers i ≡ some waiting
      → p.jobs ≡ js
      → CanWork ⊎ (p.jobs ≡ [])
  unfolding step receive
  free-CanWork i [] at j = inr j
  free-CanWork i (job ∷ rest) at j = inl (
    receives i,
    tt,
    _,
    ap (at_worker (λ w. receive p i w p.jobs)) at ∙ ap (receive p i waiting) j,
  )

  progress :
      1 ≤ count_if is_counted p.workers
      → CanWork ⊎ ((p.jobs ≡ []) × (at_work job_of p.workers ≡ []))
  progress h = elim (crew-cases job_of is_counted waiting free p.workers h) [
    | inl (i, w, job, at, e) ↦ inl (busy-CanWork i w job at e)
    | inr (none_busy, i, at) ↦ elim (free-CanWork i p.jobs at refl) [
      | inl can ↦ inl can
      | inr none_left ↦ inr (none_left, none_busy)
    ]
  ]

run-append :
    (run_command : List Text → Text → ℕ → Text × Option Text) (p q r : WorkerPool)
    (es es' : List Event)
    → run run_command p es ≡ some q
    → run run_command q es' ≡ some r
    → run run_command p (es ++ es') ≡ some r
unfolding run
run-append run_command p q r [] es' h h' =
    subst (λ v. run run_command v es' ≡ some r) (sym (eq_of_some-eq h)) h'
run-append run_command p q r (e ∷ es) es' h h' = elim (Option-cases (step run_command p e)) [
  | inl x ↦ absurd (ground arith)
  | inr (v, x) ↦
      ap (λ o. elim o [ none ↦ none | some w ↦ run run_command w (es ++ es') ]) x
      ∙ run-append run_command v q r es es' (ground arith) h'
]

-- A run of a pool with at least one worker leads to `p`, where the pool is open; from there workers
-- take the steps `work` with their jobs, in whatever order, up to `q`. They take at most fourteen
-- steps for each job in the queue of `p` and those that are left of the jobs that they have there;
-- and at `q` a worker can take another such step, or every job has been answered.
pub run-settles :
    (run_command : List Text → Text → ℕ → Text × Option Text) (cm : ContainerManager)
    (max_job_count : ℕ) (es work : List Event) (p q : WorkerPool)
    → 1 ≤ cm.max_workers
    → run run_command (start_workers cm max_job_count) es ≡ some p
    → p.shut ≡ false
    → run run_command p work ≡ some q
    → All IsWork work
    → (length work ≤ length p.jobs * 14 + sum_steps p.workers)
      × (CanWork run_command q ⊎ ((q.jobs ≡ []) × (at_work job_of q.workers ≡ [])))
unfolding start_workers
run-settles run_command cm max_job_count es work p q some_worker h is_open r u =
    let all = run-append run_command (start_workers cm max_job_count) p q es work h r in
    let manned =
      run-Move run_command (IsManned run_command cm.max_workers)
        (Move-IsManned run_command cm.max_workers) (start_workers cm max_job_count) q (es ++ work)
        all (λ _. refl) (sym (run-shut run_command p q work r u) ∙ is_open) in
    let (counted, _) = run-wg run_command cm max_job_count (es ++ work) q all in
    (
      omega (arith, run-weight run_command p q work r u),
      progress run_command q (omega (arith, manned, counted)),
    )
