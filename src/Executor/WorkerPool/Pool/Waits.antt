-- ===== src/Executor/WorkerPool/Pool/Waits.antt =====
-- The wait group of executor/worker_pool.go. MonitorContainers ranges over the ticks of its ticker,
-- whose channel Stop does not close, and has no other exit, so that no event is its return.
use mathlib.Core.Path.{subst}
use code_execution_engine.Common.{
  ℕ, zero, suc, ◌-◌, ◌≡◌, ◌≢◌, refl, Bool, true, false, List, Option, some, Text, get_elem?, set,
  count_if, count_if-set, replicate, arith,
}
use code_execution_engine.Executor.ContainerManager.{ContainerManager, max_retries}
use code_execution_engine.Executor.WorkerPool.Pool.{
  WorkerState, waiting, searching, found, running, returned, WorkerPool, start_workers, Event, run,
}
use code_execution_engine.Executor.WorkerPool.Pool.Moves.{
  Move, rejects, queues, takes_job, finds_none, finds, gives_up, begins, ends, leaves, checks,
  loses, closes, empties, run-Move,
}

abbrev pub is_counted : WorkerState → Bool
is_counted returned = false
is_counted _ = true

-- The monitor and the workers that have not returned.
abbrev IsCounted : WorkerPool → Type 0
IsCounted p = p.wg ≡ suc (count_if is_counted p.workers)

-- A worker that goes on counts as before.
module _ (p : WorkerPool) (i : ℕ) (w w' : WorkerState) (at : get_elem? p.workers i ≡ some w) where
  counted_on :
      is_counted w ≡ true
      → is_counted w' ≡ true
      → IsCounted p
      → p.wg ≡ suc (count_if is_counted (set p.workers i w'))
  counted_on e e' c = ground (arith, count_if-set is_counted p.workers i w' w at)

  counted_off :
      is_counted w ≡ true
      → is_counted w' ≡ false
      → IsCounted p
      → p.wg - 1 ≡ suc (count_if is_counted (set p.workers i w'))
  counted_off e e' c = ground (arith, count_if-set is_counted p.workers i w' w at)

module _ (run_command : List Text → Text → ℕ → Text × Option Text) where
  Move-IsCounted :
      (p q : WorkerPool) (e : Event) → Move run_command p e q → IsCounted p → IsCounted q
  Move-IsCounted p q e (rejects job k t) c = subst IsCounted t c
  Move-IsCounted p q e (queues job k l t) c = subst IsCounted t c
  Move-IsCounted p q e (takes_job i job rest at j t) c =
      subst IsCounted t (counted_on p i waiting (searching job max_retries) at refl refl c)
  Move-IsCounted p q e (finds_none i job n at t) c =
      subst IsCounted t (counted_on p i (searching job (suc n)) (searching job n) at refl refl c)
  Move-IsCounted p q e (finds i job n order id cm at g t) c =
      subst IsCounted t (counted_on p i (searching job (suc n)) (found job id) at refl refl c)
  Move-IsCounted p q e (gives_up i job at t) c =
      subst IsCounted t (counted_on p i (searching job 0) waiting at refl refl c)
  Move-IsCounted p q e (begins i job id at t) c =
      subst IsCounted t (counted_on p i (found job id) (running job id) at refl refl c)
  Move-IsCounted p q e (ends i elapsed job id at t) c =
      subst IsCounted t (counted_on p i (running job id) waiting at refl refl c)
  Move-IsCounted p q e (leaves i k at x t) c =
      subst IsCounted t (counted_off p i waiting returned at refl refl c)
  Move-IsCounted p q e (checks listing order outcomes k t) c = subst IsCounted t c
  Move-IsCounted p q e (loses id k t) c = subst IsCounted t c
  Move-IsCounted p q e (closes k t) c = subst IsCounted t c
  Move-IsCounted p q e (empties k t) c = subst IsCounted t c

count_live : (n : ℕ) → count_if is_counted (replicate n waiting) ≡ n
count_live zero = refl
count_live (suc n) = ground (arith, count_live n)

-- In every run of a new worker pool the wait group counts the workers that have not returned and the
-- monitor. So it is never zero, and Shutdown never returns from its wait.
pub run-wg :
    (run_command : List Text → Text → ℕ → Text × Option Text) (cm : ContainerManager)
    (max_job_count : ℕ) (es : List Event) (q : WorkerPool)
    → run run_command (start_workers cm max_job_count) es ≡ some q
    → (q.wg ≡ suc (count_if is_counted q.workers)) × (q.wg ≢ 0)
unfolding start_workers
run-wg run_command cm max_job_count es q h =
    let c =
      run-Move run_command IsCounted (λ p e q. Move-IsCounted run_command p q e)
        (start_workers cm max_job_count) q es h (omega (arith, count_live cm.max_workers)) in
    (c, λ z. omega (arith, c, z))
