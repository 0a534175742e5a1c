-- ===== src/Worker/Firecracker/Pool/Refinement.antt =====
-- A Firecracker pool behind the interface WorkerPool: every run of the pool is a run of a backend.
use mathlib.Core.Path.{subst}
use code_execution_engine.Common.{
  pos_part, ℕ, ◌≡◌, refl, sym, ap, inl, inr, List, [], ◌∷◌, Option, none, some, arith, ltb→lt,
  eq_of_some-eq, Option-cases, Text, Fallible, length,
}
use code_execution_engine.Worker.{Job, Result, Config}
use code_execution_engine.Worker.Backend.{View, new_view, Reach, trans}
use code_execution_engine.Worker.Backend.Fifo.{IsFair, Reach-IsFair_new}
use code_execution_engine.Worker.Backend.Crew.{
  at_work, at_work-replicate, Shows, Follows, accepted-Follows, started-Follows, answered-Follows,
  kept-Follows, same-Follows,
}
use code_execution_engine.Worker.Firecracker.Vsock.{ExecuteReq, ExecuteResp}
use code_execution_engine.Worker.Firecracker.Instance.{Machine}
use code_execution_engine.Worker.Firecracker.Pool.{
  FirecrackerPool, WorkerState, waiting, holding, running, returned, new_pool, start_workers, Event,
  step, run, outcome,
}
use code_execution_engine.Worker.Firecracker.Pool.Moves.{
  Move, rejects, accepts, takes_job, takes_slot, answers, shuts, closes_slots, leaves, step-Move,
}

-- The job that a worker has taken and not yet answered.
abbrev pub job_of : WorkerState → Option Job
job_of waiting = none
job_of (holding job) = some job
job_of (running job) = some job
job_of returned = none

abbrev pub channel : Job → ℕ
channel job = job.result

-- A result that a job may get: that of its language and its code on some machine.
abbrev pub IsOutcome :
    (Text → Text → Text)
    → (Text → Text)
    → (ExecuteReq → Fallible Text)
    → (Text → Fallible ExecuteResp)
    → Text
    → Job
    → Result
    → Type 0
IsOutcome join quote marshal unmarshal dir job r =
    (m : Machine) × (r ≡ outcome join quote marshal unmarshal dir m job)

module _ (join : Text → Text → Text) (quote : Text → Text) (marshal : ExecuteReq → Fallible Text)
    (unmarshal : Text → Fallible ExecuteResp) (room : ℕ) (dir : Text) where
  abbrev IsResult : Job → Result → Type 0
  IsResult = IsOutcome join quote marshal unmarshal dir

  -- The capacity and the snapshot stay, and the backend can follow from a view to the pool.
  abbrev Simulates : View Job Result → FirecrackerPool → Type 0
  Simulates v e =
      (e.capacity ≡ room)
      × (e.snapshot_dir ≡ dir)
      × Follows job_of channel room IsResult v e.jobs e.workers e.results

  abbrev Shown : FirecrackerPool → View Job Result → Type 0
  Shown d v =
      (d.capacity ≡ room)
      × (d.snapshot_dir ≡ dir)
      × Shows job_of channel room IsResult d.jobs d.workers d.results v

  move-Simulates :
      (d e : FirecrackerPool) (v : View Job Result) (ev : Event)
      → Move join quote marshal unmarshal d ev e
      → Shown d v
      → Simulates v e
  move-Simulates d e v ev (rejects job k x q) (c, p, s) =
      subst (Simulates v) q
        (c, p, same-Follows job_of channel room IsResult d.jobs d.workers d.results v s)
  move-Simulates d e v ev (accepts job k x q) (c, p, s) = subst (Simulates v) q (
    c,
    p,
    accepted-Follows job_of channel room IsResult d.jobs d.workers d.results v job s
        (omega (arith, ltb→lt (length d.jobs) d.capacity x, c)),
  )
  move-Simulates d e v ev (takes_job i job rest k at j q) (c, p, s) = subst (Simulates v) q (
    c,
    p,
    started-Follows job_of channel room IsResult rest d.workers d.results v job i waiting
        (holding job) (subst (λ l. Shows job_of channel room IsResult l d.workers d.results v) j s)
        at refl refl,
  )
  -- The backend does not see the semaphore.
  move-Simulates d e v ev (takes_slot i job k at x q) (c, p, s) = subst (Simulates v) q (
    c,
    p,
    kept-Follows job_of channel room IsResult d.jobs d.workers d.results v i (holding job)
        (running job) s at refl,
  )
  move-Simulates d e v ev (answers i m job k at q) (c, p, s) = subst (Simulates v) q (
    c,
    p,
    answered-Follows job_of channel room IsResult d.jobs d.workers d.results v job
        (outcome join quote marshal unmarshal d.snapshot_dir m job) i (running job) waiting s at
        refl refl (m, ap (λ t. outcome join quote marshal unmarshal t m job) p),
  )
  -- Shutdown itself is not seen.
  move-Simulates d e v ev (shuts k q) (c, p, s) =
      subst (Simulates v) q
        (c, p, same-Follows job_of channel room IsResult d.jobs d.workers d.results v s)
  move-Simulates d e v ev (closes_slots k x q) (c, p, s) =
      subst (Simulates v) q
        (c, p, same-Follows job_of channel room IsResult d.jobs d.workers d.results v s)
  move-Simulates d e v ev (leaves i k at x q) (c, p, s) = subst (Simulates v) q (
    c,
    p,
    kept-Follows job_of channel room IsResult d.jobs d.workers d.results v i waiting returned s at
        refl,
  )

  run-Simulates :
      (d e : FirecrackerPool) (v : View Job Result) (evs : List Event)
      → run join quote marshal unmarshal d evs ≡ some e
      → Shown d v
      → Simulates v e
  unfolding run
  run-Simulates d e v [] h (c, p, s) =
      subst (Simulates v) (eq_of_some-eq h)
        (c, p, same-Follows job_of channel room IsResult d.jobs d.workers d.results v s)
  run-Simulates d e v (ev ∷ evs) h s =
      elim (Option-cases (step join quote marshal unmarshal d ev)) [
        | inl x ↦ absurd (ground arith)
        | inr (f, x) ↦
            let (c, p, (u, r, t)) =
              move-Simulates d f v ev (step-Move join quote marshal unmarshal d ev f x) s in
            let (c', p', (w, q, t')) = run-Simulates f e u evs (ground arith) (c, p, t) in
            (c', p', (w, trans channel room IsResult r q, t'))
      ]

start-Shown :
    (join : Text → Text → Text) (quote : Text → Text) (marshal : ExecuteReq → Fallible Text)
    (unmarshal : Text → Fallible ExecuteResp) (cfg : Config)
    → Shown join quote marshal unmarshal
        (new_pool join cfg).capacity
        (new_pool join cfg).snapshot_dir
        (start_workers (new_pool join cfg))
        new_view
unfolding start_workers new_pool
start-Shown join quote marshal unmarshal cfg = (
  refl,
  refl,
  record {
    in_queue = refl;
    busy =
        sym (at_work-replicate job_of (pos_part (new_pool join cfg).cfg.max_workers) waiting refl);
    sent = refl;
  },
)

-- Every run of a pool whose workers have been started is a run of the interface WorkerPool, with its
-- capacity and with the results that `executeCode` gives on some machine: the interface reaches a
-- view with the same queue, the same jobs at work and the same answers. In that view the accepted
-- jobs are the started ones and then the queue, in the order of their acceptance, each started job
-- is at work or was answered, once, and each answer is a result of the job on whose channel it was
-- sent.
pub run-refines_firecracker :
    (join : Text → Text → Text) (quote : Text → Text) (marshal : ExecuteReq → Fallible Text)
    (unmarshal : Text → Fallible ExecuteResp) (cfg : Config) (e : FirecrackerPool)
    (evs : List Event)
    → run join quote marshal unmarshal (start_workers (new_pool join cfg)) evs ≡ some e
    → (v : View Job Result) × Reach channel
        (new_pool join cfg).capacity
        (IsOutcome join quote marshal unmarshal (new_pool join cfg).snapshot_dir)
        new_view
        v
      × IsFair channel
          (new_pool join cfg).capacity
          (IsOutcome join quote marshal unmarshal (new_pool join cfg).snapshot_dir)
          v
      × (v.queue ≡ e.jobs)
      × (v.running ≡ at_work job_of e.workers)
      × (v.results ≡ e.results)
run-refines_firecracker join quote marshal unmarshal cfg e evs h =
    let p = new_pool join cfg in
    let (_, _, (v, r, s)) =
      run-Simulates join quote marshal unmarshal p.capacity p.snapshot_dir (start_workers p) e
        new_view evs h (start-Shown join quote marshal unmarshal cfg) in
    (
      v,
      r,
      Reach-IsFair_new channel p.capacity (IsOutcome join quote marshal unmarshal p.snapshot_dir) v
          r,
      s.in_queue,
      s.busy,
      s.sent,
    )
