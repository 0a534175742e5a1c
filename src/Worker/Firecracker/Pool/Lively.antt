-- ===== src/Worker/Firecracker/Pool/Lively.antt =====
-- A Firecracker pool comes to an end while it is open: its workers take, start and answer what is
-- queued, and a job that a worker has taken finds a slot of the semaphore.
use mathlib.Core.Path.{subst}
use code_execution_engine.Common.{
  pos, pos_part, leb_ℤ, ℕ, zero, suc, ◌+◌, ◌*◌, ◌≤◌, ◌≡◌, ◌∙◌, refl, ap, ◌⊎◌, inl, inr, Bool, true,
  false, not, List, [], ◌∷◌, none, some, Text, Fallible, length, get_elem?, replicate, count_if,
  count_if-set, arith, if◌then◌else◌,
}
use code_execution_engine.Worker.{Job, Config}
use code_execution_engine.Worker.Backend.Crew.{at_work}
use code_execution_engine.Worker.Backend.Lively.{CanWork, Lively}
use code_execution_engine.Worker.Backend.Progress.{sum_steps, sum_steps-set, crew-cases}
use code_execution_engine.Worker.Firecracker.Instance.{Machine}
use code_execution_engine.Worker.Firecracker.Vsock.{ExecuteReq, ExecuteResp}
use code_execution_engine.Worker.Firecracker.Pool.{
  FirecrackerPool, WorkerState, waiting, holding, running, returned, new_pool, start_workers,
  submit, Event, submits, receives, acquires, finishes, receive, acquire, finish, step,
}
use code_execution_engine.Worker.Firecracker.Pool.Interface.{
  act, act-step, pending, firecracker_pool,
}
use code_execution_engine.Worker.Firecracker.Pool.Moves.{
  Move, rejects, accepts, takes_job, takes_slot, answers, shuts, closes_slots, leaves, step-Move,
}
use code_execution_engine.Worker.Firecracker.Pool.Refinement.{job_of}
use code_execution_engine.Worker.Firecracker.Pool.Warm as Warm
use code_execution_engine.Worker.Firecracker.Pool.Warm.{acquire_ready}

abbrev pub is_there : WorkerState → Bool
is_there returned = false
is_there _ = true

-- While the pool is open, it has a worker.
abbrev pub IsManned : FirecrackerPool → Type 0
IsManned d = d.shut ≡ false → 1 ≤ count_if is_there d.workers

abbrev pub IsSound : FirecrackerPool → Type 0
IsSound d = Warm.IsSound d × IsManned d

-- How many steps a worker has before it.
abbrev pub steps_of : WorkerState → ℕ
steps_of (holding job) = 2
steps_of (running job) = 1
steps_of _ = 0

abbrev pub weight : FirecrackerPool → ℕ
weight d = length d.jobs * 3 + sum_steps steps_of d.workers

-- The steps of a worker with a job.
abbrev pub IsWork : Event → Type 0
IsWork (receives i) = Unit
IsWork (acquires i) = Unit
IsWork (finishes i m) = Unit
IsWork _ = ⊥

free : (w : WorkerState) → is_there w ≡ true → job_of w ≡ none → w ≡ waiting
free waiting c e = refl
free (holding job) c e = absurd (cc e)
free (running job) c e = absurd (cc e)
free returned c e = absurd (cc c)

someone_is_there : (n : ℕ) → 1 ≤ n → 1 ≤ count_if is_there (replicate n waiting)
someone_is_there zero h = absurd (omega (arith, h))
someone_is_there (suc n) h = omega arith

start-IsManned :
    (join : Text → Text → Text) (cfg : Config) → IsManned (start_workers (new_pool join cfg))
unfolding start_workers new_pool
start-IsManned join cfg open_still =
    someone_is_there (pos_part (if leb_ℤ cfg.max_workers (pos 0) then pos 3 else cfg.max_workers))
      (ground arith)

module _ (join : Text → Text → Text) (quote : Text → Text) (marshal : ExecuteReq → Fallible Text)
    (unmarshal : Text → Fallible ExecuteResp) where
  pub start-IsSound : (cfg : Config) → IsSound (start_workers (new_pool join cfg))
  start-IsSound cfg = (Warm.start-IsSound join quote marshal unmarshal cfg, start-IsManned join cfg)

  move-IsManned :
      (d e : FirecrackerPool) (ev : Event)
      → Move join quote marshal unmarshal d ev e
      → IsManned d
      → IsManned e
  move-IsManned d e ev (rejects job k x q) c = subst IsManned q c
  move-IsManned d e ev (accepts job k x q) c = subst IsManned q c
  move-IsManned d e ev (takes_job i job rest k at j q) c =
      subst IsManned q
        (λ o. omega (arith, c o, count_if-set is_there d.workers i (holding job) waiting at))
  move-IsManned d e ev (takes_slot i job k at x q) c =
      subst IsManned q
        (λ o. omega (arith, c o, count_if-set is_there d.workers i (running job) (holding job) at))
  move-IsManned d e ev (answers i m job k at q) c =
      subst IsManned q
        (λ o. omega (arith, c o, count_if-set is_there d.workers i waiting (running job) at))
  move-IsManned d e ev (shuts k q) c = subst IsManned q (λ o. absurd (cc o))
  move-IsManned d e ev (closes_slots k x q) c = subst IsManned q c
  move-IsManned d e ev (leaves i k at x q) c = subst IsManned q (λ o. absurd (cc (x, o)))

  lighter :
      {f : FirecrackerPool} (d e : FirecrackerPool)
      → f ≡ e
      → suc (weight f) ≤ weight d
      → suc (weight e) ≤ weight d
  lighter d e q h = subst (λ g. suc (weight g) ≤ weight d) q h

  pub move-weight :
      (d e : FirecrackerPool) (ev : Event)
      → Move join quote marshal unmarshal d ev e
      → IsWork ev
      → suc (weight e) ≤ weight d
  move-weight d e ev (rejects job k x q) u = absurd (subst IsWork k u)
  move-weight d e ev (accepts job k x q) u = absurd (subst IsWork k u)
  move-weight d e ev (takes_job i job rest k at j q) u =
      lighter d e q
        (omega (arith, ap length j, sum_steps-set steps_of d.workers i waiting (holding job) at))
  move-weight d e ev (takes_slot i job k at x q) u =
      lighter d e q
        (omega (arith, sum_steps-set steps_of d.workers i (holding job) (running job) at))
  move-weight d e ev (answers i m job k at q) u =
      lighter d e q (omega (arith, sum_steps-set steps_of d.workers i (running job) waiting at))
  move-weight d e ev (shuts k q) u = absurd (subst IsWork k u)
  move-weight d e ev (closes_slots k x q) u = absurd (subst IsWork k u)
  move-weight d e ev (leaves i k at x q) u = absurd (subst IsWork k u)

  pub move-open :
      (d e : FirecrackerPool) (ev : Event)
      → Move join quote marshal unmarshal d ev e
      → IsWork ev
      → not d.shut ≡ true
      → not e.shut ≡ true
  move-open d e ev (rejects job k x q) u o = absurd (subst IsWork k u)
  move-open d e ev (accepts job k x q) u o = absurd (subst IsWork k u)
  move-open d e ev (takes_job i job rest k at j q) u o = subst (λ f. not f.shut ≡ true) q o
  move-open d e ev (takes_slot i job k at x q) u o = subst (λ f. not f.shut ≡ true) q o
  move-open d e ev (answers i m job k at q) u o = subst (λ f. not f.shut ≡ true) q o
  move-open d e ev (shuts k q) u o = absurd (subst IsWork k u)
  move-open d e ev (closes_slots k x q) u o = absurd (subst IsWork k u)
  move-open d e ev (leaves i k at x q) u o = absurd (subst IsWork k u)

  -- What the workers can do, whatever machine `m` a job may meet.
  module _ (m : Machine) (d : FirecrackerPool) where
    abbrev CanGoOn : Type 0
    CanGoOn = CanWork (firecracker_pool join quote marshal unmarshal) IsWork d

    busy-CanWork :
        (i : ℕ) (w : WorkerState) (job : Job)
        → Warm.IsSound d
        → get_elem? d.workers i ≡ some w
        → job_of w ≡ some job
        → CanGoOn
    unfolding act step finish
    busy-CanWork i (running j) job v at e = (
      finishes i m,
      tt,
      _,
      ap (λ o. elim o [ none ↦ none | some w ↦ finish join quote marshal unmarshal d i m w ]) at,
    )
    busy-CanWork i (holding j) job v at e =
        let (t, x) = acquire_ready join quote marshal unmarshal d i j at v in
        (acquires i, tt, t, ap (λ o. elim o [ none ↦ none | some w ↦ acquire d i w ]) at ∙ x)
    busy-CanWork i waiting job v at e = absurd (cc e)
    busy-CanWork i returned job v at e = absurd (cc e)

    free-CanWork :
        (i : ℕ) (js : List Job)
        → get_elem? d.workers i ≡ some waiting
        → d.jobs ≡ js
        → at_work job_of d.workers ≡ []
        → CanGoOn ⊎ (pending d ≡ [])
    unfolding act step receive
    free-CanWork i [] at j none_busy = inr (rw (j, none_busy))
    free-CanWork i (job ∷ rest) at j none_busy = inl (
      receives i,
      tt,
      _,
      ap (λ o. elim o [ none ↦ none | some w ↦ receive d i w d.jobs ]) at
          ∙ ap (receive d i waiting) j,
    )

    pub pool_ready : IsSound d → not d.shut ≡ true → CanGoOn ⊎ (pending d ≡ [])
    pool_ready (v, c) o =
        elim (crew-cases job_of is_there waiting free d.workers (c (ground arith))) [
          | inl (i, w, job, at, e) ↦ inl (busy-CanWork i w job v at e)
          | inr (none_busy, i, at) ↦ free-CanWork i d.jobs at refl none_busy
        ]

  pub submit-IsSound : (d : FirecrackerPool) (job : Job) → IsSound d → IsSound (submit d job).0
  unfolding step
  submit-IsSound d job (v, c) =
      let move = step-Move join quote marshal unmarshal d (submits job) (submit d job).0 refl in
      (
        Warm.move-IsSound join quote marshal unmarshal d (submits job) (submit d job).0 move v,
        move-IsManned d (submit d job).0 (submits job) move c,
      )

  -- A step of the goroutines, as a move.
  pub act-Move :
      (d e : FirecrackerPool) (ev : Event)
      → act join quote marshal unmarshal d ev ≡ some e
      → Move join quote marshal unmarshal d ev e
  act-Move d e ev h =
      step-Move join quote marshal unmarshal d ev e (act-step join quote marshal unmarshal d e ev h)

  pub act-IsSound :
      (d e : FirecrackerPool) (ev : Event)
      → act join quote marshal unmarshal d ev ≡ some e
      → IsSound d
      → IsSound e
  act-IsSound d e ev h (v, c) = (
    Warm.move-IsSound join quote marshal unmarshal d ev e (act-Move d e ev h) v,
    move-IsManned d e ev (act-Move d e ev h) c,
  )

  abbrev pub firecracker_lively : Machine → Lively (firecracker_pool join quote marshal unmarshal)
  firecracker_lively m = record {
    IsSound = IsSound;
    is_open = λ d. not d.shut;
    IsWork = IsWork;
    weight = weight;
    submit_sound = submit-IsSound;
    act_sound = act-IsSound;
    stays_open = λ d e ev u h. move-open d e ev (act-Move d e ev h) u;
    lighter = λ d e ev u h. move-weight d e ev (act-Move d e ev h) u;
    ready = pool_ready m;
  }
