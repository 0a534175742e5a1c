-- ===== src/Worker/Docker/Lively.antt =====
-- A Docker pool comes to an end while it is open: its workers take and answer what is queued.
use mathlib.Core.Path.{subst}
use code_execution_engine.Common.{
  pos, pos_part, leb_ℤ, ℕ, suc, ◌+◌, ◌*◌, ◌≤◌, ◌≡◌, ◌∙◌, refl, ap, ◌⊎◌, inl, inr, Bool, true, false,
  Bool-cases, not, List, [], ◌∷◌, none, some, Text, length, get_elem?, count_if, count_if-set,
  replicate, zero, ltb, arith, if◌then◌else◌,
}
use code_execution_engine.Worker.{Job, Config}
use code_execution_engine.Worker.Backend.Crew.{at_work}
use code_execution_engine.Worker.Backend.Lively.{CanWork, Lively}
use code_execution_engine.Worker.Backend.Progress.{sum_steps, sum_steps-set, crew-cases}
use code_execution_engine.Worker.Docker.{
  CommandOutcome, WorkerState, waiting, running, returned, DockerPool, new_pool, initialize, submit,
  Event, receives, finishes, receive, finish, step,
}
use code_execution_engine.Worker.Docker.Interface.{act, act-step, pending, docker_pool}
use code_execution_engine.Worker.Docker.Moves.{
  Move, rejects, accepts, takes_job, answers, shuts, leaves, step-Move,
}
use code_execution_engine.Worker.Docker.Refinement.{job_of}

abbrev pub is_there : WorkerState → Bool
is_there returned = false
is_there _ = true

-- While the pool is open, it has a worker.
abbrev pub IsSound : DockerPool → Type 0
IsSound d = d.shut ≡ false → 1 ≤ count_if is_there d.workers

-- How many steps a worker has before it.
abbrev pub steps_of : WorkerState → ℕ
steps_of (running job) = 1
steps_of _ = 0

abbrev pub weight : DockerPool → ℕ
weight d = length d.jobs * 2 + sum_steps steps_of d.workers

-- The steps of a worker with a job.
abbrev pub IsWork : Event → Type 0
IsWork (receives i) = Unit
IsWork (finishes i) = Unit
IsWork _ = ⊥

free : (w : WorkerState) → is_there w ≡ true → job_of w ≡ none → w ≡ waiting
free waiting c e = refl
free (running job) c e = absurd (cc e)
free returned c e = absurd (cc c)

someone_is_there : (n : ℕ) → 1 ≤ n → 1 ≤ count_if is_there (replicate n waiting)
someone_is_there zero h = absurd (omega (arith, h))
someone_is_there (suc n) h = omega arith

pub start-IsSound : (cfg : Config) → IsSound (initialize (new_pool cfg))
unfolding initialize new_pool
start-IsSound cfg open_still =
    someone_is_there (pos_part (if leb_ℤ cfg.max_workers (pos 0) then pos 3 else cfg.max_workers))
      (ground arith)

pub submit-IsSound : (d : DockerPool) (job : Job) → IsSound d → IsSound (submit d job).0
unfolding submit
submit-IsSound d job c = elim (Bool-cases (ltb (length d.jobs) d.capacity)) [
  | inl x ↦ rw x c
  | inr x ↦ rw x c
]

module _ (run_command : List Text → Text → ℕ → CommandOutcome) where
  pub move-IsSound :
      (d e : DockerPool) (ev : Event) → Move run_command d ev e → IsSound d → IsSound e
  move-IsSound d e ev (rejects job k x q) c = subst IsSound q c
  move-IsSound d e ev (accepts job k x q) c = subst IsSound q c
  move-IsSound d e ev (takes_job i job rest k at j q) c =
      subst IsSound q
        (λ o. omega (arith, c o, count_if-set is_there d.workers i (running job) waiting at))
  move-IsSound d e ev (answers i job k at q) c =
      subst IsSound q
        (λ o. omega (arith, c o, count_if-set is_there d.workers i waiting (running job) at))
  move-IsSound d e ev (shuts k q) c = subst IsSound q (λ o. absurd (cc o))
  move-IsSound d e ev (leaves i k at x q) c = subst IsSound q (λ o. absurd (cc (x, o)))

  lighter :
      {f : DockerPool} (d e : DockerPool)
      → f ≡ e
      → suc (weight f) ≤ weight d
      → suc (weight e) ≤ weight d
  lighter d e q h = subst (λ g. suc (weight g) ≤ weight d) q h

  pub move-weight :
      (d e : DockerPool) (ev : Event)
      → Move run_command d ev e
      → IsWork ev
      → suc (weight e) ≤ weight d
  move-weight d e ev (rejects job k x q) u = absurd (subst IsWork k u)
  move-weight d e ev (accepts job k x q) u = absurd (subst IsWork k u)
  move-weight d e ev (takes_job i job rest k at j q) u =
      lighter d e q
        (omega (arith, ap length j, sum_steps-set steps_of d.workers i waiting (running job) at))
  move-weight d e ev (answers i job k at q) u =
      lighter d e q (omega (arith, sum_steps-set steps_of d.workers i (running job) waiting at))
  move-weight d e ev (shuts k q) u = absurd (subst IsWork k u)
  move-weight d e ev (leaves i k at x q) u = absurd (subst IsWork k u)

  pub move-open :
      (d e : DockerPool) (ev : Event)
      → Move run_command d ev e
      → IsWork ev
      → not d.shut ≡ true
      → not e.shut ≡ true
  move-open d e ev (rejects job k x q) u o = absurd (subst IsWork k u)
  move-open d e ev (accepts job k x q) u o = absurd (subst IsWork k u)
  move-open d e ev (takes_job i job rest k at j q) u o = subst (λ f. not f.shut ≡ true) q o
  move-open d e ev (answers i job k at q) u o = subst (λ f. not f.shut ≡ true) q o
  move-open d e ev (shuts k q) u o = absurd (subst IsWork k u)
  move-open d e ev (leaves i k at x q) u o = absurd (subst IsWork k u)

  -- A step of the goroutines, as a move.
  pub act-Move :
      (d e : DockerPool) (ev : Event) → act run_command d ev ≡ some e → Move run_command d ev e
  act-Move d e ev h = step-Move run_command d ev e (act-step run_command d e ev h)

  module _ (d : DockerPool) where
    busy-CanWork :
        (i : ℕ) (w : WorkerState) (job : Job)
        → get_elem? d.workers i ≡ some w
        → job_of w ≡ some job
        → CanWork (docker_pool run_command) IsWork d
    unfolding act step finish
    busy-CanWork i (running j) job at e =
        (finishes i, tt, _, ap (λ o. elim o [ none ↦ none | some w ↦ finish run_command d i w ]) at)
    busy-CanWork i waiting job at e = absurd (cc e)
    busy-CanWork i returned job at e = absurd (cc e)

    free-CanWork :
        (i : ℕ) (js : List Job)
        → get_elem? d.workers i ≡ some waiting
        → d.jobs ≡ js
        → at_work job_of d.workers ≡ []
        → CanWork (docker_pool run_command) IsWork d ⊎ (pending d ≡ [])
    unfolding act step receive
    free-CanWork i [] at j none_busy = inr (rw (j, none_busy))
    free-CanWork i (job ∷ rest) at j none_busy = inl (
      receives i,
      tt,
      _,
      ap (λ o. elim o [ none ↦ none | some w ↦ receive run_command d i w d.jobs ]) at
          ∙ ap (receive run_command d i waiting) j,
    )

    pub pool_ready :
        IsSound d
        → not d.shut ≡ true
        → CanWork (docker_pool run_command) IsWork d ⊎ (pending d ≡ [])
    pool_ready c o = elim (crew-cases job_of is_there waiting free d.workers (c (ground arith))) [
      | inl (i, w, job, at, e) ↦ inl (busy-CanWork i w job at e)
      | inr (none_busy, i, at) ↦ free-CanWork i d.jobs at refl none_busy
    ]

  abbrev pub docker_lively : Lively (docker_pool run_command)
  docker_lively = record {
    IsSound = IsSound;
    is_open = λ d. not d.shut;
    IsWork = IsWork;
    weight = weight;
    submit_sound = submit-IsSound;
    act_sound = λ d e ev h. move-IsSound d e ev (act-Move d e ev h);
    stays_open = λ d e ev u h. move-open d e ev (act-Move d e ev h) u;
    lighter = λ d e ev u h. move-weight d e ev (act-Move d e ev h) u;
    ready = pool_ready;
  }
