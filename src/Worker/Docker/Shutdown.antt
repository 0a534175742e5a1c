-- ===== src/Worker/Docker/Shutdown.antt =====
-- Progress of a Docker pool, and what its Shutdown leaves behind.
use mathlib.Core.List.{append-nil, append_assoc}
use code_execution_engine.Common.{
  ℕ, ◌≡◌, ◌∙◌, ap, inl, inr, List, [], ◌∷◌, ◌++◌, some, arith, Option-cases, Text, All,
  All-get_elem?, map,
}
use code_execution_engine.Worker.{Job, Result, Config}
use code_execution_engine.Worker.Docker.{
  CommandOutcome, WorkerState, waiting, running, returned, DockerPool, Event, receives, finishes,
  receive, finish, step, run, execute_code,
}
use code_execution_engine.Worker.Docker.Moves.{
  Move, rejects, accepts, takes_job, answers, shuts, leaves, step-Move,
}

-- The first worker takes and finishes one job after another.
abbrev pub rounds : List Job → List Event
rounds [] = []
rounds (job ∷ rest) = receives 0 ∷ finishes 0 ∷ rounds rest

abbrev pub IsReturned : WorkerState → Type 0
IsReturned w = w ≡ returned

module _ (run_command : List Text → Text → ℕ → CommandOutcome) where
  abbrev pub answer : Config → Job → ℕ × Result
  answer cfg job = (job.result, execute_code run_command cfg job.language job.code)

  -- While a worker waits, the jobs that are queued can all be answered, in the order in which they
  -- were submitted, whatever the other workers do not do: nothing else has to happen first.
  pub drain :
      (d : DockerPool) (js : List Job) (ws : List WorkerState)
      → run run_command (record d { jobs = js; workers = waiting ∷ ws }) (rounds js)
        ≡ some (record d {
          jobs = [];
          workers = waiting ∷ ws;
          results = d.results ++ map (answer d.cfg) js;
        })
  unfolding run step receive finish
  drain d [] ws = rw (append-nil d.results)
  drain d (job ∷ rest) ws =
      drain (record d { results = d.results ++ answer d.cfg job ∷ [] }) rest ws
      ∙ rw (append_assoc d.results (answer d.cfg job ∷ []) (map (answer d.cfg) rest))

  move_stranded :
      (d e : DockerPool) (ev : Event)
      → All IsReturned d.workers
      → Move run_command d ev e
      → (new : List Job) × (e.workers ≡ d.workers)
        × (e.results ≡ d.results)
        × (e.jobs ≡ d.jobs ++ new)
  move_stranded d e ev a (rejects job k x q) =
      ([], ground arith, ground arith, ground (arith, append-nil d.jobs))
  move_stranded d e ev a (accepts job k x q) = (job ∷ [], ground arith, ground arith, ground arith)
  move_stranded d e ev a (takes_job i job rest k at j q) =
      absurd (ground (arith, All-get_elem? IsReturned d.workers i waiting a at))
  move_stranded d e ev a (answers i job k at q) =
      absurd (ground (arith, All-get_elem? IsReturned d.workers i (running job) a at))
  move_stranded d e ev a (shuts k q) =
      ([], ground arith, ground arith, ground (arith, append-nil d.jobs))
  move_stranded d e ev a (leaves i k at x q) =
      absurd (ground (arith, All-get_elem? IsReturned d.workers i waiting a at))

  -- When all workers have returned, as Shutdown waits for, no run of events sends a result any more,
  -- and the jobs that are queued stay in the queue, before those that are submitted later.
  pub run_stranded :
      (d e : DockerPool) (evs : List Event)
      → All IsReturned d.workers
      → run run_command d evs ≡ some e
      → (new : List Job) × (e.results ≡ d.results) × (e.jobs ≡ d.jobs ++ new)
  unfolding run
  run_stranded d e [] a h = ([], ground arith, ground (arith, append-nil d.jobs))
  run_stranded d e (ev ∷ evs) a h = elim (Option-cases (step run_command d ev)) [
    | inl x ↦ absurd (ground arith)
    | inr (f, x) ↦
        let (new, ws, rs, js) = move_stranded d f ev a (step-Move run_command d ev f x) in
        let (new', rs', js') = run_stranded f e evs (rw ws a) (ground arith) in
        (new ++ new', rs' ∙ rs, js' ∙ ap (λ l. l ++ new') js ∙ append_assoc d.jobs new new')
  ]
