-- ===== src/Worker.antt =====
-- worker/worker.go: what the backends share. An `error` is its text, nil is `none`; a duration is
-- its nanoseconds.
pub mod Backend
pub mod Docker
pub mod Firecracker
use code_execution_engine.Common.{ℕ, ℤ, Bool, false, Option, none, [], Text}

-- `Job`; the channel `Result` is known by the number of the call that made it.
pub record Job : Type 0 where
  pub language : Text
  pub code : Text
  pub result : ℕ

pub record Result : Type 0 where
  pub output : Text
  pub success : Bool
  pub error : Option Text
  pub execution_time : ℕ

pub record Config : Type 0 where
  pub image : Text
  pub max_workers : ℤ
  pub memory_limit : ℤ
  pub cpu_limit : ℤ

pub record PoolStats : Type 0 where
  pub active_workers : ℤ
  pub queued_jobs : ℕ
  pub total_executed : ℕ

-- `Result{}`.
abbrev pub zero_result : Result
zero_result = record { output = []; success = false; error = none; execution_time = 0 }
