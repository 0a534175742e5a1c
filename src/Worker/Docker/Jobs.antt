-- ===== src/Worker/Docker/Jobs.antt =====
-- Where the jobs of a Docker pool are: each accepted job is queued, running or answered, once.
use code_execution_engine.Common.{
  ℕ, ◌+◌, ◌≡◌, inl, inr, Bool, false, List, [], ◌∷◌, none, some, arith, ltb, if◌then◌else◌,
  Option-cases, Text, length, count_if, count_if-append, count_if-set,
}
use code_execution_engine.Worker.{Job, Result}
use code_execution_engine.Worker.Docker.{
  CommandOutcome, WorkerState, waiting, running, returned, DockerPool, Event, submits, step, run,
  execute_code,
}
use code_execution_engine.Worker.Docker.Moves.{
  Move, rejects, accepts, takes_job, answers, shuts, leaves, step-Move,
}

-- A job that a worker runs, if its channel passes the test.
abbrev pub runs : (ℕ → Bool) → WorkerState → Bool
runs p (running job) = p job.result
runs p _ = false

module _ (p : ℕ → Bool) where
  abbrev pub queued : List Job → ℕ
  queued = count_if (λ j. p j.result)

  abbrev pub answered : List (ℕ × Result) → ℕ
  answered = count_if (λ r. p r.0)

  -- All the jobs that the pool has taken, by where they are.
  abbrev pub tally : DockerPool → ℕ
  tally d = queued d.jobs + count_if (runs p) d.workers + answered d.results

  -- What an event adds.
  abbrev pub added : DockerPool → Event → ℕ
  added d (submits job) =
      if ltb (length d.jobs) d.capacity then if p job.result then 1 else 0 else 0
  added d _ = 0

module _ (run_command : List Text → Text → ℕ → CommandOutcome) (p : ℕ → Bool) where
  -- An event moves jobs between the queue, the workers and the answers, and adds what it accepts.
  pub move-tally :
      (d e : DockerPool) (ev : Event)
      → Move run_command d ev e
      → tally p e ≡ tally p d + added p d ev
  move-tally d e ev (rejects job k x q) = ground arith
  move-tally d e ev (accepts job k x q) =
      ground (arith, count_if-append (λ (j : Job). p j.result) d.jobs (job ∷ []))
  move-tally d e ev (takes_job i job rest k at j q) =
      ground (arith, count_if-set (runs p) d.workers i (running job) waiting)
  move-tally d e ev (answers i job k at q) = ground (
    arith,
    count_if-set (runs p) d.workers i waiting (running job),
    count_if-append (λ (r : ℕ × Result). p r.0) d.results
        ((job.result, execute_code run_command d.cfg job.language job.code) ∷ []),
  )
  move-tally d e ev (shuts k q) = ground arith
  move-tally d e ev (leaves i k at x q) =
      ground (arith, count_if-set (runs p) d.workers i returned waiting)

  -- How many jobs that pass the test are accepted in a run.
  pub accepted : DockerPool → List Event → ℕ
  accepted d [] = 0
  accepted d (ev ∷ evs) =
      added p d ev + (elim (step run_command d ev) [ none ↦ 0 | some e ↦ accepted e evs ])

  -- After any run, the jobs that are queued, running or answered are those that were there before
  -- and those that the run accepted: for every choice of result channels, as many as were sent on
  -- them. So no job is lost, and none is answered twice.
  pub tally-run :
      (d e : DockerPool) (evs : List Event)
      → run run_command d evs ≡ some e
      → tally p e ≡ tally p d + accepted d evs
  unfolding run accepted
  tally-run d e [] h = ground arith
  tally-run d e (ev ∷ evs) h = elim (Option-cases (step run_command d ev)) [
    | inl x ↦ ground arith
    | inr (f, x) ↦
        ground (arith, move-tally d f ev (step-Move run_command d ev f x), tally-run f e evs)
  ]
