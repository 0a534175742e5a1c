-- ===== src/Worker/Docker.antt =====
-- worker/docker/config.go and worker/docker/docker.go. The `docker` command is a parameter:
-- `run_command` is what `cmd.Run` does with its arguments, its input and its time limit.
-- A pool is a state, and whatever a goroutine does next is an event.
pub mod Moves
pub mod Jobs
pub mod Bounds
pub mod Shutdown
pub mod Results
pub mod Refinement
pub mod Interface
pub mod Lively
mod Tests
use code_execution_engine.Common.{
  pos, pos_part, leb_ℤ, second, ℕ, zero, suc, ◌+◌, ◌*◌, Bool, true, false, List, [], ◌∷◌, ◌++◌,
  Option, none, some, Text, codes, ltb, if◌then◌else◌, lookup, length, get_elem?, set, replicate,
  count_if,
}
use code_execution_engine.Worker.{Job, Result, Config, PoolStats, zero_result}

pub record LangConfig : Type 0 where
  pub timeout : ℕ
  pub command : Text

unfoldable pub language_configs : List (Text × LangConfig)
language_configs =
    (
      codes "go",
      record {
        timeout = 20 * second;
        command =
            codes
              "export GOCACHE=/tmp/go-cache GOMODCACHE=/tmp/go-mod 2>/dev/null; cat > /app/temp/code.go && go build -o /app/temp/exe /app/temp/code.go && /app/temp/exe";
      },
    )
    ∷ (
      codes "js",
      record {
        timeout = 10 * second;
        command = codes "cat > /app/temp/code.js && node /app/temp/code.js";
      },
    )
    ∷ (
      codes "python",
      record {
        timeout = 10 * second;
        command = codes "cat > /app/temp/code.py && python3 /app/temp/code.py";
      },
    )
    ∷ (
      codes "cpp",
      record {
        timeout = 20 * second;
        command =
            codes
              "export CCACHE_DIR=/tmp/ccache 2>/dev/null; cat > /app/temp/code.cpp && ccache g++ -o /app/temp/exe /app/temp/code.cpp && /app/temp/exe";
      },
    )
    ∷ []

unfoldable pub get_language_config : Text → Option LangConfig
get_language_config language = lookup language language_configs

-- What a command leaves: its two outputs, the error of `Run`, and the time that it took.
pub record CommandOutcome : Type 0 where
  pub stdout : Text
  pub stderr : Text
  pub failure : Option Text
  pub elapsed : ℕ

-- `%v` of an error.
abbrev pub show_error : Option Text → Text
show_error none = codes "<nil>"
show_error (some e) = e

-- The arguments of the `docker` command.
unfoldable pub docker_arguments : Text → Text → List Text
docker_arguments image command =
    codes "run"
    ∷ codes "--rm"
    ∷ codes "-i"
    ∷ codes "--network=none"
    ∷ codes "--memory=400m"
    ∷ codes "--cpus=0.5"
    ∷ codes "--cap-drop=ALL"
    ∷ codes "--security-opt=no-new-privileges"
    ∷ image
    ∷ codes "sh"
    ∷ codes "-c"
    ∷ command
    ∷ []

module _ (run_command : List Text → Text → ℕ → CommandOutcome) where
  unfoldable pub execute_code : Config → Text → Text → Result
  execute_code cfg language code = elim (get_language_config language) [
    | none ↦ record zero_result { error = some (codes "unsupported language: " ++ language) }
    | some lang ↦
        let out = run_command (docker_arguments cfg.image lang.command) code lang.timeout in
        record {
          output = out.stdout;
          success = elim out.failure [ none ↦ true | some _ ↦ false ];
          error = some (out.stderr ++ (codes ": " ++ show_error out.failure));
          execution_time = out.elapsed;
        }
  ]

-- Where a worker goroutine stands: at its `select`, in `executeCode`, or returned.
pub data WorkerState : Type 0 where
  waiting : WorkerState
  running : Job → WorkerState
  returned : WorkerState

abbrev pub is_running : WorkerState → Bool
is_running (running _) = true
is_running _ = false

-- `results` are those sent on the channels of the jobs, `shut` says that `shutdown` is closed.
pub record DockerPool : Type 0 where
  pub cfg : Config
  pub capacity : ℕ
  pub jobs : List Job
  pub workers : List WorkerState
  pub total_executed : ℕ
  pub results : List (ℕ × Result)
  pub shut : Bool

unfoldable pub new_pool : Config → DockerPool
new_pool cfg =
    let workers = if leb_ℤ cfg.max_workers (pos 0) then pos 3 else cfg.max_workers in
    record {
      cfg = record cfg { max_workers = workers };
      capacity = pos_part workers * 4;
      jobs = [];
      workers = [];
      total_executed = 0;
      results = [];
      shut = false;
    }

unfoldable pub initialize : DockerPool → DockerPool
initialize p = record p { workers = p.workers ++ replicate (pos_part p.cfg.max_workers) waiting }

-- The `select` of `ExecuteJob`: the job is queued and counted, or the call returns at once.
unfoldable pub submit : DockerPool → Job → DockerPool × Option (Result × Option Text)
submit p job =
    if ltb (length p.jobs) p.capacity
    then (record p { jobs = p.jobs ++ job ∷ []; total_executed = p.total_executed + 1 }, none)
    else (p, some (zero_result, some (codes "job queue full")))

-- The end of `ExecuteJob`, once the result of a queued job has come.
unfoldable pub reply : Result → Result × Option Text
reply r = (r, r.error)

unfoldable pub pool_stats : DockerPool → PoolStats
pool_stats p = record {
  active_workers = p.cfg.max_workers;
  queued_jobs = length p.jobs;
  total_executed = p.total_executed;
}

-- `Shutdown` closes the channel, which panics the second time (`none`), and waits for the workers.
unfoldable pub shutdown : DockerPool → Option DockerPool
shutdown p = if p.shut then none else some (record p { shut = true })

pub data Event : Type 0 where
  submits : Job → Event
  receives : ℕ → Event
  finishes : ℕ → Event
  closes : Event
  returns : ℕ → Event

module _ (run_command : List Text → Text → ℕ → CommandOutcome) where
  -- The cases of a worker's `select`, and the end of the job that it runs.
  unfoldable pub receive : DockerPool → ℕ → WorkerState → List Job → Option DockerPool
  receive p i waiting (job ∷ rest) =
      some (record p { jobs = rest; workers = set p.workers i (running job) })
  receive p i _ _ = none

  unfoldable pub finish : DockerPool → ℕ → WorkerState → Option DockerPool
  finish p i (running job) = some (record p {
    workers = set p.workers i waiting;
    results = p.results ++ (job.result, execute_code run_command p.cfg job.language job.code) ∷ [];
  })
  finish p i _ = none

  unfoldable pub return_on_shutdown : DockerPool → ℕ → WorkerState → Option DockerPool
  return_on_shutdown p i waiting =
      if p.shut then some (record p { workers = set p.workers i returned }) else none
  return_on_shutdown p i _ = none

  -- What an event makes of the pool; `none` where it cannot happen.
  unfoldable pub step : DockerPool → Event → Option DockerPool
  step p (submits job) = some (submit p job).0
  step p (receives i) = elim (get_elem? p.workers i) [ none ↦ none | some w ↦ receive p i w p.jobs ]
  step p (finishes i) = elim (get_elem? p.workers i) [ none ↦ none | some w ↦ finish p i w ]
  step p closes = shutdown p
  step p (returns i) = elim (get_elem? p.workers i) [
    | none ↦ none
    | some w ↦ return_on_shutdown p i w
  ]

  unfoldable pub run : DockerPool → List Event → Option DockerPool
  run p [] = some p
  run p (ev ∷ evs) = elim (step p ev) [ none ↦ none | some q ↦ run q evs ]
