-- ===== src/Worker/Docker/Refinement.antt =====
-- A Docker pool behind the interface WorkerPool: every run of the pool is a run of a backend.
use mathlib.Core.Path.{subst}
use code_execution_engine.Common.{
  pos_part, ℕ, ◌≡◌, refl, sym, ap, inl, inr, List, [], ◌∷◌, Option, none, some, arith, ltb→lt,
  eq_of_some-eq, Option-cases, Text, length,
}
use code_execution_engine.Worker.{Job, Result, Config}
use code_execution_engine.Worker.Backend.{View, new_view, Reach, trans}
use code_execution_engine.Worker.Backend.Fifo.{IsFair, Reach-IsFair_new}
use code_execution_engine.Worker.Backend.Crew.{
  at_work, at_work-replicate, Shows, Follows, accepted-Follows, started-Follows, answered-Follows,
  kept-Follows, same-Follows,
}
use code_execution_engine.Worker.Docker.{
  CommandOutcome, WorkerState, waiting, running, returned, DockerPool, new_pool, initialize, Event,
  step, run, execute_code,
}
use code_execution_engine.Worker.Docker.Moves.{
  Move, rejects, accepts, takes_job, answers, shuts, leaves, step-Move,
}

-- The job that a worker runs.
abbrev pub job_of : WorkerState → Option Job
job_of waiting = none
job_of (running job) = some job
job_of returned = none

abbrev pub channel : Job → ℕ
channel job = job.result

-- The result of a job is that of its language and its code.
abbrev pub IsOutcome : (List Text → Text → ℕ → CommandOutcome) → Config → Job → Result → Type 0
IsOutcome run_command cfg job r = r ≡ execute_code run_command cfg job.language job.code

module _ (run_command : List Text → Text → ℕ → CommandOutcome) (room : ℕ) (cfg : Config) where
  abbrev IsResult : Job → Result → Type 0
  IsResult = IsOutcome run_command cfg

  -- The capacity and the configuration stay, and the backend can follow from a view to the pool.
  abbrev Simulates : View Job Result → DockerPool → Type 0
  Simulates v e =
      (e.capacity ≡ room)
      × (e.cfg ≡ cfg)
      × Follows job_of channel room IsResult v e.jobs e.workers e.results

  abbrev Shown : DockerPool → View Job Result → Type 0
  Shown d v =
      (d.capacity ≡ room)
      × (d.cfg ≡ cfg)
      × Shows job_of channel room IsResult d.jobs d.workers d.results v

  move-Simulates :
      (d e : DockerPool) (v : View Job Result) (ev : Event)
      → Move run_command d ev e
      → Shown d v
      → Simulates v e
  move-Simulates d e v ev (rejects job k x q) (c, p, s) =
      subst (Simulates v) q
        (c, p, same-Follows job_of channel room IsResult d.jobs d.workers d.results v s)
  move-Simulates d e v ev (accepts job k x q) (c, p, s) = subst (Simulates v) q (
    c,
    p,
    accepted-Follows job_of channel room IsResult d.jobs d.workers d.results v job s
        (omega (arith, ltb→lt (length d.jobs) d.capacity x, c)),
  )
  move-Simulates d e v ev (takes_job i job rest k at j q) (c, p, s) = subst (Simulates v) q (
    c,
    p,
    started-Follows job_of channel room IsResult rest d.workers d.results v job i waiting
        (running job) (subst (λ l. Shows job_of channel room IsResult l d.workers d.results v) j s)
        at refl refl,
  )
  move-Simulates d e v ev (answers i job k at q) (c, p, s) = subst (Simulates v) q (
    c,
    p,
    answered-Follows job_of channel room IsResult d.jobs d.workers d.results v job
        (execute_code run_command d.cfg job.language job.code) i (running job) waiting s at refl
        refl (ap (λ t. execute_code run_command t job.language job.code) p),
  )
  -- Shutdown itself is not seen.
  move-Simulates d e v ev (shuts k q) (c, p, s) =
      subst (Simulates v) q
        (c, p, same-Follows job_of channel room IsResult d.jobs d.workers d.results v s)
  move-Simulates d e v ev (leaves i k at x q) (c, p, s) = subst (Simulates v) q (
    c,
    p,
    kept-Follows job_of channel room IsResult d.jobs d.workers d.results v i waiting returned s at
        refl,
  )

  run-Simulates :
      (d e : DockerPool) (v : View Job Result) (evs : List Event)
      → run run_command d evs ≡ some e
      → Shown d v
      → Simulates v e
  unfolding run
  run-Simulates d e v [] h (c, p, s) =
      subst (Simulates v) (eq_of_some-eq h)
        (c, p, same-Follows job_of channel room IsResult d.jobs d.workers d.results v s)
  run-Simulates d e v (ev ∷ evs) h s = elim (Option-cases (step run_command d ev)) [
    | inl x ↦ absurd (ground arith)
    | inr (f, x) ↦
        let (c, p, (u, r, t)) = move-Simulates d f v ev (step-Move run_command d ev f x) s in
        let (c', p', (w, q, t')) = run-Simulates f e u evs (ground arith) (c, p, t) in
        (c', p', (w, trans channel room IsResult r q, t'))
  ]

start-Shown :
    (run_command : List Text → Text → ℕ → CommandOutcome) (cfg : Config)
    → Shown run_command
        (new_pool cfg).capacity
        (new_pool cfg).cfg
        (initialize (new_pool cfg))
        new_view
unfolding initialize new_pool
start-Shown run_command cfg = (
  refl,
  refl,
  record {
    in_queue = refl;
    busy = sym (at_work-replicate job_of (pos_part (new_pool cfg).cfg.max_workers) waiting refl);
    sent = refl;
  },
)

-- Every run of a pool after NewPool and Initialize is a run of the interface WorkerPool, with its
-- capacity and with the results that `executeCode` gives: the interface reaches a view with the same
-- queue, the same running jobs and the same answers. In that view the accepted jobs are the started
-- ones and then the queue, in the order of their acceptance, each started job runs or was answered,
-- once, and each answer is the result of the job on whose channel it was sent.
pub run-refines_docker :
    (run_command : List Text → Text → ℕ → CommandOutcome) (cfg : Config) (e : DockerPool)
    (evs : List Event)
    → run run_command (initialize (new_pool cfg)) evs ≡ some e
    → (v : View Job Result) × Reach channel
        (new_pool cfg).capacity
        (IsOutcome run_command (new_pool cfg).cfg)
        new_view
        v
      × IsFair channel (new_pool cfg).capacity (IsOutcome run_command (new_pool cfg).cfg) v
      × (v.queue ≡ e.jobs)
      × (v.running ≡ at_work job_of e.workers)
      × (v.results ≡ e.results)
run-refines_docker run_command cfg e evs h =
    let p = new_pool cfg in
    let (_, _, (v, r, s)) =
      run-Simulates run_command p.capacity p.cfg (initialize p) e new_view evs h
        (start-Shown run_command cfg) in
    (
      v,
      r,
      Reach-IsFair_new channel p.capacity (IsOutcome run_command p.cfg) v r,
      s.in_queue,
      s.busy,
      s.sent,
    )
