-- ===== src/Worker/Docker/Bounds.antt =====
-- The bounds of a Docker pool: its queue, its goroutines and its counter.
use mathlib.Core.Path.{subst}
use code_execution_engine.Common.{
  pos, pos_part, leb_ℤ, ℕ, ◌+◌, ◌*◌, ◌≤◌, ◌≡◌, refl, ap, suc, true, List, [], ◌∷◌, some, arith,
  if◌then◌else◌, Text, length, length-append, length-set, count_if, count_if-le-length,
  count_if_all, length-replicate, count_if-replicate,
}
use code_execution_engine.Worker.{Config}
use code_execution_engine.Worker.Docker.{
  CommandOutcome, WorkerState, waiting, running, returned, is_running, DockerPool, new_pool,
  initialize, Event, run,
}
use code_execution_engine.Worker.Docker.Jobs.{runs, tally, move-tally}
use code_execution_engine.Worker.Docker.Moves.{
  Move, rejects, accepts, takes_job, answers, shuts, leaves, run-Move,
}

count_if-runs : (ws : List WorkerState) → count_if (runs (λ _. true)) ws ≡ count_if is_running ws
count_if-runs [] = refl
count_if-runs (waiting ∷ ws) = count_if-runs ws
count_if-runs (running j ∷ ws) = ap suc (count_if-runs ws)
count_if-runs (returned ∷ ws) = count_if-runs ws

-- The queue and the goroutines keep their bounds, and the counter counts.
pub record IsSound (d : DockerPool) : Type 0 where
  pub roomy : d.capacity ≡ pos_part d.cfg.max_workers * 4
  pub fits : length d.jobs ≤ d.capacity
  pub manned : length d.workers ≡ pos_part d.cfg.max_workers
  pub counted : d.total_executed ≡ tally (λ _. true) d

module _ (run_command : List Text → Text → ℕ → CommandOutcome) where
  move-IsSound :
      (d : DockerPool) (ev : Event) (e : DockerPool)
      → Move run_command d ev e
      → IsSound d
      → IsSound e
  move-IsSound d ev e (rejects job k x q) v = subst IsSound q v
  move-IsSound d ev e (accepts job k x q) v = ground (
    arith,
    move-tally run_command (λ _. true) d e ev (accepts job k x q),
    length-append d.jobs (job ∷ []),
  )
  move-IsSound d ev e (takes_job i job rest k at j q) v = ground (
    arith,
    move-tally run_command (λ _. true) d e ev (takes_job i job rest k at j q),
    length-set d.workers i (running job),
    ap length j,
  )
  move-IsSound d ev e (answers i job k at q) v = ground (
    arith,
    move-tally run_command (λ _. true) d e ev (answers i job k at q),
    length-set d.workers i waiting,
  )
  move-IsSound d ev e (shuts k q) v = ground arith
  move-IsSound d ev e (leaves i k at x q) v = ground (
    arith,
    move-tally run_command (λ _. true) d e ev (leaves i k at x q),
    length-set d.workers i returned,
  )

  start-IsSound : (cfg : Config) → IsSound (initialize (new_pool cfg))
  unfolding initialize new_pool
  start-IsSound cfg = record {
    roomy = refl;
    fits = omega arith;
    manned = length-replicate _ waiting;
    counted = omega (
      arith,
      count_if-replicate (runs (λ _. true))
          (pos_part (if leb_ℤ cfg.max_workers (pos 0) then pos 3 else cfg.max_workers)) waiting
          refl,
    );
  }

  -- Whatever happens to a pool after `NewPool` and `Initialize`, at most four jobs for each worker
  -- are queued, no more jobs run than there are workers, and `TotalExecuted` counts the jobs that
  -- are queued, running or answered.
  pub pool_bounds :
      (cfg : Config) (e : DockerPool) (evs : List Event)
      → run run_command (initialize (new_pool cfg)) evs ≡ some e
      → (length e.jobs ≤ pos_part e.cfg.max_workers * 4)
        × (count_if is_running e.workers ≤ pos_part e.cfg.max_workers)
        × (e.total_executed ≡ length e.jobs + count_if is_running e.workers + length e.results)
  pool_bounds cfg e evs h =
      let v =
        run-Move run_command IsSound move-IsSound (initialize (new_pool cfg)) e evs h
          (start-IsSound cfg) in
      (
        omega (arith, v.fits, v.roomy),
        omega (arith, count_if-le-length is_running e.workers, v.manned),
        omega (
          arith,
          v.counted,
          count_if_all e.jobs,
          count_if_all e.results,
          count_if-runs e.workers,
        ),
      )
