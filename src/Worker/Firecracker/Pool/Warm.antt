-- ===== src/Worker/Firecracker/Pool/Warm.antt =====
-- The semaphore `warmSem` of a Firecracker pool: a slot for each job that runs.
use mathlib.Core.Path.{subst}
use code_execution_engine.Common.{
  pos, pos_part, leb_ℤ, ℕ, zero, suc, ◌+◌, ◌≤◌, ◌<◌, ◌≡◌, ◌≢◌, refl, ap, inl, inr, Bool, true,
  false, List, [], ◌∷◌, some, arith, if◌then◌else◌, Bool-cases, Text, Fallible, length,
  length-append, get_elem?, set, length-set, count_if, count_if-set, count_if-le-length,
  length-replicate, count_if-replicate,
}
use code_execution_engine.Worker.{Job, Config}
use code_execution_engine.Worker.Firecracker.Vsock.{ExecuteReq, ExecuteResp}
use code_execution_engine.Worker.Firecracker.Pool.{
  FirecrackerPool, WorkerState, waiting, holding, running, returned, new_pool, start_workers,
  all_returned, Event, acquires, acquire, step, run,
}
use code_execution_engine.Worker.Firecracker.Pool.Moves.{
  Move, rejects, accepts, takes_job, takes_slot, answers, shuts, closes_slots, leaves, run-Move,
}

abbrev pub is_running : WorkerState → Bool
is_running (running _) = true
is_running _ = false

-- One slot is taken for each job that runs; once the semaphore is closed, all workers are gone.
pub record IsSound (d : FirecrackerPool) : Type 0 where
  pub manned : length d.workers ≡ pos_part d.cfg.max_workers
  pub fits : length d.jobs ≤ d.capacity
  pub warmed : d.warm ≡ count_if is_running d.workers
  pub closed : d.warm_closed ≡ true → all_returned d.workers ≡ true

count_if-lt-length {ℓ} :
    {A : Type ℓ} (p : A → Bool) (xs : List A) (i : ℕ) (w : A)
    → get_elem? xs i ≡ some w
    → p w ≡ false
    → count_if p xs < length xs
count_if-lt-length p [] i w e h = absurd (cc e)
count_if-lt-length p (x ∷ xs) zero w e h = ground (arith, count_if-le-length p xs)
count_if-lt-length p (x ∷ xs) (suc i) w e h = ground (arith, count_if-lt-length p xs i w e h)

all_returned-get_elem? :
    (ws : List WorkerState) (i : ℕ) (w : WorkerState)
    → all_returned ws ≡ true
    → get_elem? ws i ≡ some w
    → w ≡ returned
all_returned-get_elem? [] i w a e = absurd (cc e)
all_returned-get_elem? (returned ∷ ws) zero w a e = ground arith
all_returned-get_elem? (returned ∷ ws) (suc i) w a e = all_returned-get_elem? ws i w a e
all_returned-get_elem? (waiting ∷ ws) i w a e = absurd (cc a)
all_returned-get_elem? (holding j ∷ ws) i w a e = absurd (cc a)
all_returned-get_elem? (running j ∷ ws) i w a e = absurd (cc a)

-- Where a worker has not returned, the semaphore is open.
open_semaphore :
    (d : FirecrackerPool) (i : ℕ) (w : WorkerState)
    → IsSound d
    → get_elem? d.workers i ≡ some w
    → w ≢ returned
    → d.warm_closed ≡ false
open_semaphore d i w v e h = elim (Bool-cases d.warm_closed) [
  | inr o ↦ o
  | inl c ↦ absurd (h (all_returned-get_elem? d.workers i w (v.closed c) e))
]

module _ (join : Text → Text → Text) (quote : Text → Text) (marshal : ExecuteReq → Fallible Text)
    (unmarshal : Text → Fallible ExecuteResp) where
  pub move-IsSound :
      (d : FirecrackerPool) (ev : Event) (e : FirecrackerPool)
      → Move join quote marshal unmarshal d ev e
      → IsSound d
      → IsSound e
  move-IsSound d ev e (rejects job k x q) v = subst IsSound q v
  move-IsSound d ev e (accepts job k x q) v = ground (arith, length-append d.jobs (job ∷ []))
  move-IsSound d ev e (takes_job i job rest k at j q) v = ground (
    arith,
    length-set d.workers i (holding job),
    ap length j,
    count_if-set is_running d.workers i (holding job) waiting,
    open_semaphore d i waiting v at,
  )
  move-IsSound d ev e (takes_slot i job k at x q) v = ground (
    arith,
    length-set d.workers i (running job),
    count_if-set is_running d.workers i (running job) (holding job),
    open_semaphore d i (holding job) v at,
  )
  move-IsSound d ev e (answers i m job k at q) v = ground (
    arith,
    length-set d.workers i waiting,
    count_if-set is_running d.workers i waiting (running job),
    open_semaphore d i (running job) v at,
  )
  move-IsSound d ev e (shuts k q) v = ground arith
  move-IsSound d ev e (closes_slots k x q) v = ground arith
  move-IsSound d ev e (leaves i k at x q) v = ground (
    arith,
    length-set d.workers i returned,
    count_if-set is_running d.workers i returned waiting,
    open_semaphore d i waiting v at,
  )

  pub start-IsSound : (cfg : Config) → IsSound (start_workers (new_pool join cfg))
  unfolding start_workers new_pool
  start-IsSound cfg = record {
    manned = length-replicate _ waiting;
    fits = omega arith;
    warmed = omega (
      arith,
      count_if-replicate is_running
          (pos_part (if leb_ℤ cfg.max_workers (pos 0) then pos 3 else cfg.max_workers)) waiting
          refl,
    );
    closed = λ h. absurd (cc h);
  }

  pub acquire_ready :
      (d : FirecrackerPool) (i : ℕ) (job : Job)
      → get_elem? d.workers i ≡ some (holding job)
      → IsSound d
      → (e : FirecrackerPool) × (acquire d i (holding job) ≡ some e)
  unfolding acquire
  acquire_ready d i job at v = (
    record d { warm = d.warm + 1; workers = set d.workers i (running job) },
    ground (arith, count_if-lt-length is_running d.workers i (holding job) at refl),
  )

  -- Whatever has happened since the workers were started: a worker that has taken a job from the
  -- queue finds the semaphore open and with a slot free, so that it can go on at once; and no more
  -- slots are taken than there are workers, one for each job that runs.
  pub acquire_never_blocks :
      (cfg : Config) (d : FirecrackerPool) (evs : List Event)
      → run join quote marshal unmarshal (start_workers (new_pool join cfg)) evs ≡ some d
      → (d.warm ≡ count_if is_running d.workers)
        × (d.warm ≤ pos_part d.cfg.max_workers)
        × ((i : ℕ) (job : Job)
            → get_elem? d.workers i ≡ some (holding job)
            → (d.warm_closed ≡ false)
              × ((e : FirecrackerPool) × (step join quote marshal unmarshal d (acquires i)
                    ≡ some e)))
  unfolding step
  acquire_never_blocks cfg d evs h =
      let v =
        run-Move join quote marshal unmarshal IsSound move-IsSound
          (start_workers (new_pool join cfg)) d evs h (start-IsSound cfg) in
      (
        v.warmed,
        omega (arith, v.warmed, v.manned, count_if-le-length is_running d.workers),
        λ i job at. (
          open_semaphore d i (holding job) v at (λ e. cc e),
          let (e, x) = acquire_ready d i job at v in (e, ground arith),
        ),
      )
