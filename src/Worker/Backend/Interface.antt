-- ===== src/Worker/Backend/Interface.antt =====
-- The interface WorkerPool of worker/worker.go for the client that calls ExecuteJob: the call in its
-- two halves, what the goroutines of the pool do in between, and what the client relies on.
use mathlib.Core.List.{Permᴰ}
use code_execution_engine.Common.{
  ℕ, ◌≡◌, ◌≤◌, ◌⊎◌, List, [], ◌∷◌, ◌++◌, Option, none, some, Text, length,
}
use code_execution_engine.Worker.{Job, Result}

-- `S` are the states of the pool, `E` what its goroutines may do next, and `C` what stays as it is.
-- `pending` are the jobs that are queued or at a worker.
pub record Pool (S E C : Type 0) : Type 1 where
  pub submit : S → Job → S × Option (Result × Option Text)
  pub act : S → E → Option S
  pub reply : Result → Result × Option Text
  pub pending : S → List Job
  pub results : S → List (ℕ × Result)
  pub config : S → C
  pub room : C → ℕ
  pub IsOutcome : C → Job → Result → Type 0
  pub accepts :
      (s t : S) (job : Job)
      → submit s job ≡ (t, none)
      → Permᴰ (pending t) (job ∷ pending s) × (results t ≡ results s) × (config t ≡ config s)
  pub rejects :
      (s t : S) (job : Job) (r : Result × Option Text)
      → submit s job ≡ (t, some r)
      → (t ≡ s) × (room (config s) ≤ length (pending s))
  pub moves :
      (s t : S) (e : E)
      → act s e ≡ some t
      → (config t ≡ config s)
        × ((Permᴰ (pending t) (pending s) × (results t ≡ results s))
            ⊎ ((job : Job) × (r : Result) × Permᴰ (pending s) (job ∷ pending t)
                × (results t ≡ results s ++ (job.result, r) ∷ [])
                × IsOutcome (config s) job r))
