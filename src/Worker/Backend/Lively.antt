-- ===== src/Worker/Backend/Lively.antt =====
-- What a client of the interface WorkerPool relies on for its answers to come: the workers of an open
-- pool take a step as long as a job is left, and only so many of them.
use code_execution_engine.Common.{ℕ, suc, ◌≡◌, ◌≤◌, ◌⊎◌, Bool, true, [], some}
use code_execution_engine.Worker.{Job}
use code_execution_engine.Worker.Backend.Interface.{Pool}

-- A worker can take a step with a job.
abbrev pub CanWork : {S E C : Type 0} → Pool S E C → (E → Type 0) → S → Type 0
CanWork p IsWork s = (e : _) × IsWork e × (t : _) × (p.act s e ≡ some t)

-- `IsSound` holds of a new pool and stays, `is_open` says that Shutdown has not begun, and `IsWork`
-- are the steps of a worker with a job.
pub record Lively {S E C : Type 0} (p : Pool S E C) : Type 1 where
  pub IsSound : S → Type 0
  pub is_open : S → Bool
  pub IsWork : E → Type 0
  pub weight : S → ℕ
  pub submit_sound : (s : S) (job : Job) → IsSound s → IsSound (p.submit s job).0
  pub act_sound : (s t : S) (e : E) → p.act s e ≡ some t → IsSound s → IsSound t
  pub stays_open :
      (s t : S) (e : E) → IsWork e → p.act s e ≡ some t → is_open s ≡ true → is_open t ≡ true
  pub lighter : (s t : S) (e : E) → IsWork e → p.act s e ≡ some t → suc (weight t) ≤ weight s
  pub ready : (s : S) → IsSound s → is_open s ≡ true → CanWork p IsWork s ⊎ (p.pending s ≡ [])
