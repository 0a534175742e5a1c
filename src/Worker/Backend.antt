-- ===== src/Worker/Backend.antt =====
-- A pool of workers as its callers see it, as behind the interface WorkerPool of worker/worker.go:
-- jobs are queued, started in turn and answered on their channels. `J` are the jobs, `R` the results;
-- which result a job may get is a parameter. `started` and `accepted` record what has happened.
pub mod Fifo
pub mod Crew
pub mod Pending
pub mod Progress
pub mod Interface
pub mod Lively
use code_execution_engine.Common.{ℕ, ◌≡◌, ◌<◌, List, [], ◌∷◌, ◌++◌, length}

pub record View (J R : Type 0) : Type 0 where
  pub queue : List J
  pub running : List J
  pub results : List (ℕ × R)
  pub accepted : List J
  pub started : List J

module _ {J R : Type 0} where
  abbrev pub new_view : View J R
  new_view = record { queue = []; running = []; results = []; accepted = []; started = [] }

  module _ (channel : J → ℕ) (room : ℕ) (IsOutcome : J → R → Type 0) where
    -- What may happen to the pool: `e` is what becomes of `v`.
    pub data Step (v e : View J R) : Type 0 where
      accepts :
          (job : J)
          → length v.queue < room
          → e ≡ record v { queue = v.queue ++ job ∷ []; accepted = v.accepted ++ job ∷ [] }
          → Step v e
      starts :
          (job : J) (rest before after : List J)
          → v.queue ≡ job ∷ rest
          → v.running ≡ before ++ after
          → e ≡ record v {
            queue = rest;
            running = before ++ job ∷ after;
            started = v.started ++ job ∷ [];
          }
          → Step v e
      answers :
          (job : J) (r : R) (before after : List J)
          → v.running ≡ before ++ job ∷ after
          → IsOutcome job r
          → e ≡ record v { running = before ++ after; results = v.results ++ (channel job, r) ∷ [] }
          → Step v e

    pub data Reach (v : View J R) : View J R → Type 0 where
      here : Reach v v
      next : {e f : View J R} → Reach v e → Step e f → Reach v f

    pub trans : {v e f : View J R} → Reach v e → Reach e f → Reach v f
    trans r here = r
    trans r (next q s) = next (trans r q) s
