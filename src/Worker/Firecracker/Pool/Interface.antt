-- ===== src/Worker/Firecracker/Pool/Interface.antt =====
-- A Firecracker pool behind the interface WorkerPool of worker/worker.go.
use mathlib.Core.List.{Permᴰ}
use mathlib.Core.List.Permᴰ as Perm
use mathlib.Core.Path.{subst}
use code_execution_engine.Common.{
  ℕ, ◌≡◌, ◌≤◌, refl, sym, ap, ◌⊎◌, inl, inr, Fallible, List, [], ◌∷◌, ◌++◌, Option, none, some,
  Bool-cases, Text, length, length-append, set, ltb, arith,
}
use code_execution_engine.Worker.{Job, Result}
use code_execution_engine.Worker.Backend.Crew.{at_work}
use code_execution_engine.Worker.Backend.Interface.{Pool}
use code_execution_engine.Worker.Backend.Pending.{
  pending_of, queued-Permᴰ, kept-Permᴰ, taken-Permᴰ, answered-Permᴰ,
}
use code_execution_engine.Worker.Firecracker.Vsock.{ExecuteReq, ExecuteResp}
use code_execution_engine.Worker.Firecracker.Pool.{
  waiting, holding, running, returned, FirecrackerPool, submit, reply, Event, submits, receives,
  acquires, finishes, begins_shutdown, ends_shutdown, returns, outcome, step,
}
use code_execution_engine.Worker.Firecracker.Pool.Moves.{
  Move, rejects, accepts, takes_job, takes_slot, answers, shuts, closes_slots, leaves, step-Move,
}
use code_execution_engine.Worker.Firecracker.Pool.Refinement.{job_of, IsOutcome}

abbrev pub pending : FirecrackerPool → List Job
pending d = pending_of job_of d.jobs d.workers

abbrev pub fixed : FirecrackerPool → ℕ × Text
fixed d = (d.capacity, d.snapshot_dir)

pub accepts_lem :
    (d e : FirecrackerPool) (job : Job)
    → submit d job ≡ (e, none)
    → Permᴰ (pending e) (job ∷ pending d) × (e.results ≡ d.results) × (fixed e ≡ fixed d)
unfolding submit
accepts_lem d e job h = elim (Bool-cases (ltb (length d.jobs) d.capacity)) [
  | inl x ↦
      subst
        (λ f. Permᴰ (pending f) (job ∷ pending d) × (f.results ≡ d.results) × (fixed f ≡ fixed d))
        (ap (λ (o : FirecrackerPool × Option (Result × Option Text)). o.0) (rw x at h))
        (queued-Permᴰ job_of d.jobs d.workers job, refl, refl)
  | inr x ↦ absurd (ground arith)
]

pub rejects_lem :
    (d e : FirecrackerPool) (job : Job) (r : Result × Option Text)
    → submit d job ≡ (e, some r)
    → (e ≡ d) × (d.capacity ≤ length (pending d))
unfolding submit
rejects_lem d e job r h = elim (Bool-cases (ltb (length d.jobs) d.capacity)) [
  | inl x ↦ absurd (ground arith)
  | inr x ↦ (
    sym (ap (λ (o : FirecrackerPool × Option (Result × Option Text)). o.0) (rw x at h)),
    ground (arith, length-append d.jobs (at_work job_of d.workers)),
  )
]

module _ (join : Text → Text → Text) (quote : Text → Text) (marshal : ExecuteReq → Fallible Text)
    (unmarshal : Text → Fallible ExecuteResp) where
  abbrev pub IsResult : ℕ × Text → Job → Result → Type 0
  IsResult c = IsOutcome join quote marshal unmarshal c.1

  -- What the goroutines do, and Shutdown.
  unfoldable pub act : FirecrackerPool → Event → Option FirecrackerPool
  act d (submits job) = none
  act d e = step join quote marshal unmarshal d e

  -- The pool keeps what is fixed, and its jobs stay or one of them is answered.
  abbrev IsMove : FirecrackerPool → FirecrackerPool → Type 0
  IsMove d e =
      (fixed e ≡ fixed d)
      × ((Permᴰ (pending e) (pending d) × (e.results ≡ d.results))
          ⊎ ((job : Job) × (r : Result) × Permᴰ (pending d) (job ∷ pending e)
              × (e.results ≡ d.results ++ (job.result, r) ∷ [])
              × IsResult (fixed d) job r))

  pub act-step :
      (d e : FirecrackerPool) (ev : Event)
      → act d ev ≡ some e
      → step join quote marshal unmarshal d ev ≡ some e
  unfolding act
  act-step d e (submits job) h = absurd (cc h)
  act-step d e (receives i) h = h
  act-step d e (acquires i) h = h
  act-step d e (finishes i m) h = h
  act-step d e begins_shutdown h = h
  act-step d e ends_shutdown h = h
  act-step d e (returns i) h = h

  move-IsMove :
      (d e : FirecrackerPool) (ev : Event)
      → act d ev ≡ some e
      → Move join quote marshal unmarshal d ev e
      → IsMove d e
  unfolding act
  move-IsMove d e ev h (rejects job k x q) = absurd (cc (rw k at h))
  move-IsMove d e ev h (accepts job k x q) = absurd (cc (rw k at h))
  move-IsMove d e ev h (takes_job i job rest k at j q) = subst (IsMove d) q (
    refl,
    inl (
      subst
          (λ js.
            Permᴰ (pending_of job_of rest (set d.workers i (holding job)))
              (pending_of job_of js d.workers))
          (sym j) (taken-Permᴰ job_of rest d.workers i waiting (holding job) at job refl refl),
      refl,
    ),
  )
  move-IsMove d e ev h (takes_slot i job k at x q) =
      subst (IsMove d) q
        (refl, inl (kept-Permᴰ job_of d.jobs d.workers i (holding job) (running job) at refl, refl))
  move-IsMove d e ev h (answers i m job k at q) = subst (IsMove d) q (
    refl,
    inr (
      job,
      outcome join quote marshal unmarshal d.snapshot_dir m job,
      answered-Permᴰ job_of d.jobs d.workers i (running job) waiting at job refl refl,
      refl,
      (m, refl),
    ),
  )
  move-IsMove d e ev h (shuts k q) = subst (IsMove d) q (refl, inl (Perm.refl (pending d), refl))
  move-IsMove d e ev h (closes_slots k x q) =
      subst (IsMove d) q (refl, inl (Perm.refl (pending d), refl))
  move-IsMove d e ev h (leaves i k at x q) =
      subst (IsMove d) q
        (refl, inl (kept-Permᴰ job_of d.jobs d.workers i waiting returned at refl, refl))

  pub moves_lem : (d e : FirecrackerPool) (ev : Event) → act d ev ≡ some e → IsMove d e
  moves_lem d e ev h =
      move-IsMove d e ev h (step-Move join quote marshal unmarshal d ev e (act-step d e ev h))

  abbrev pub firecracker_pool : Pool FirecrackerPool Event (ℕ × Text)
  firecracker_pool = record {
    submit = submit;
    act = act;
    reply = reply;
    pending = pending;
    results = λ d. d.results;
    config = fixed;
    room = λ c. c.0;
    IsOutcome = IsResult;
    accepts = accepts_lem;
    rejects = rejects_lem;
    moves = moves_lem;
  }
