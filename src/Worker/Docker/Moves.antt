-- ===== src/Worker/Docker/Moves.antt =====
-- The ways in which a step of a pool of worker/docker/docker.go may go, each with what it finds and
-- what it leaves.
use mathlib.Core.Path.{subst}
use code_execution_engine.Common.{
  ℕ, ◌+◌, ◌≡◌, refl, inl, inr, true, false, Bool-cases, ltb, List, [], ◌∷◌, ◌++◌, some,
  Option-cases, eq_of_some-eq, Text, length, get_elem?, set, arith,
}
use code_execution_engine.Worker.{Job}
use code_execution_engine.Worker.Docker.{
  CommandOutcome, WorkerState, waiting, running, returned, DockerPool, submit, shutdown, Event,
  submits, receives, finishes, closes, returns, receive, finish, return_on_shutdown, step, run,
  execute_code,
}

module _ (run_command : List Text → Text → ℕ → CommandOutcome) where
  pub data Move (d : DockerPool) (ev : Event) (e : DockerPool) : Type 0 where
    rejects :
        (job : Job)
        → ev ≡ submits job
        → ltb (length d.jobs) d.capacity ≡ false
        → d ≡ e
        → Move d ev e
    accepts :
        (job : Job)
        → ev ≡ submits job
        → ltb (length d.jobs) d.capacity ≡ true
        → record d { jobs = d.jobs ++ job ∷ []; total_executed = d.total_executed + 1 } ≡ e
        → Move d ev e
    takes_job :
        (i : ℕ) (job : Job) (rest : List Job)
        → ev ≡ receives i
        → get_elem? d.workers i ≡ some waiting
        → d.jobs ≡ job ∷ rest
        → record d { jobs = rest; workers = set d.workers i (running job) } ≡ e
        → Move d ev e
    answers :
        (i : ℕ) (job : Job)
        → ev ≡ finishes i
        → get_elem? d.workers i ≡ some (running job)
        → record d {
          workers = set d.workers i waiting;
          results =
              d.results ++ (job.result, execute_code run_command d.cfg job.language job.code) ∷ [];
        }
          ≡ e
        → Move d ev e
    shuts : ev ≡ closes → record d { shut = true } ≡ e → Move d ev e
    leaves :
        (i : ℕ)
        → ev ≡ returns i
        → get_elem? d.workers i ≡ some waiting
        → d.shut ≡ true
        → record d { workers = set d.workers i returned } ≡ e
        → Move d ev e

  module _ (d e : DockerPool) (ev : Event) where
    submit-Move : (job : Job) → ev ≡ submits job → (submit d job).0 ≡ e → Move d ev e
    unfolding submit
    submit-Move job k h = elim (Bool-cases (ltb (length d.jobs) d.capacity)) [
      | inl x ↦ accepts job k x (ground arith)
      | inr x ↦ rejects job k x (ground arith)
    ]

    receive-Move :
        (i : ℕ) (w : WorkerState) (js : List Job)
        → ev ≡ receives i
        → get_elem? d.workers i ≡ some w
        → d.jobs ≡ js
        → receive run_command d i w js ≡ some e
        → Move d ev e
    unfolding receive
    receive-Move i waiting (job ∷ rest) k at j h = takes_job i job rest k at j (eq_of_some-eq h)
    receive-Move i waiting [] k at j h = absurd (cc h)
    receive-Move i (running j) js k at q h = absurd (cc h)
    receive-Move i returned js k at q h = absurd (cc h)

    finish-Move :
        (i : ℕ) (w : WorkerState)
        → ev ≡ finishes i
        → get_elem? d.workers i ≡ some w
        → finish run_command d i w ≡ some e
        → Move d ev e
    unfolding finish
    finish-Move i (running job) k at h = answers i job k at (eq_of_some-eq h)
    finish-Move i waiting k at h = absurd (cc h)
    finish-Move i returned k at h = absurd (cc h)

    return-Move :
        (i : ℕ) (w : WorkerState)
        → ev ≡ returns i
        → get_elem? d.workers i ≡ some w
        → return_on_shutdown run_command d i w ≡ some e
        → Move d ev e
    unfolding return_on_shutdown
    return-Move i waiting k at h = elim (Bool-cases d.shut) [
      | inr x ↦ absurd (ground arith)
      | inl x ↦ leaves i k at x (eq_of_some-eq (ground arith))
    ]
    return-Move i (running j) k at h = absurd (cc h)
    return-Move i returned k at h = absurd (cc h)

    shutdown-Move : ev ≡ closes → shutdown d ≡ some e → Move d ev e
    unfolding shutdown
    shutdown-Move k h = elim (Bool-cases d.shut) [
      | inl x ↦ absurd (ground arith)
      | inr x ↦ shuts k (eq_of_some-eq (ground arith))
    ]

  pub step-Move :
      (d : DockerPool) (ev : Event) (e : DockerPool) → step run_command d ev ≡ some e → Move d ev e
  unfolding step
  step-Move d (submits job) e h = submit-Move d e _ job refl (eq_of_some-eq h)
  step-Move d (receives i) e h = elim (Option-cases (get_elem? d.workers i)) [
    | inl x ↦ absurd (ground arith)
    | inr (w, x) ↦ receive-Move d e _ i w d.jobs refl x refl (ground arith)
  ]
  step-Move d (finishes i) e h = elim (Option-cases (get_elem? d.workers i)) [
    | inl x ↦ absurd (ground arith)
    | inr (w, x) ↦ finish-Move d e _ i w refl x (ground arith)
  ]
  step-Move d closes e h = shutdown-Move d e _ refl h
  step-Move d (returns i) e h = elim (Option-cases (get_elem? d.workers i)) [
    | inl x ↦ absurd (ground arith)
    | inr (w, x) ↦ return-Move d e _ i w refl x (ground arith)
  ]

  -- What every move keeps, a run keeps.
  pub run-Move :
      (P : DockerPool → Type 0)
      → ((d : DockerPool) (ev : Event) (e : DockerPool) → Move d ev e → P d → P e)
      → (d e : DockerPool) (evs : List Event) → run run_command d evs ≡ some e
      → P d
      → P e
  unfolding run
  run-Move P keeps d e [] h c = subst P (eq_of_some-eq h) c
  run-Move P keeps d e (ev ∷ evs) h c = elim (Option-cases (step run_command d ev)) [
    | inl x ↦ absurd (ground arith)
    | inr (f, x) ↦ run-Move P keeps f e evs (ground arith) (keeps d ev f (step-Move d ev f x) c)
  ]
