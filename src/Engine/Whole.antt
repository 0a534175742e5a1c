-- ===== src/Engine/Whole.antt =====
-- The engine as cmd/main.go puts it together: from a NATS message to the reply, over a Docker pool
-- and over a Firecracker pool.
use code_execution_engine.Common.{
  pos_part, ℕ, ◌≡◌, refl, Bool, false, List, All, [], Option, none, some, String, Text, Fallible,
  arith,
}
use code_execution_engine.Worker.{Config, zero_result}
use code_execution_engine.Worker.Backend.Crew.{at_work-replicate}
use code_execution_engine.Worker.Docker as Docker
use code_execution_engine.Worker.Docker.{CommandOutcome, DockerPool}
use code_execution_engine.Worker.Docker.Interface as DockerBehind
use code_execution_engine.Worker.Docker.Interface.{docker_pool}
use code_execution_engine.Worker.Docker.Lively as DockerLively
use code_execution_engine.Worker.Docker.Lively.{docker_lively}
use code_execution_engine.Worker.Docker.Refinement as DockerJobs
use code_execution_engine.Worker.Firecracker.Vsock.{ExecuteReq, ExecuteResp}
use code_execution_engine.Worker.Firecracker.Pool as Fire
use code_execution_engine.Worker.Firecracker.Pool.{FirecrackerPool}
use code_execution_engine.Worker.Firecracker.Pool.Interface as FireBehind
use code_execution_engine.Worker.Firecracker.Pool.Interface.{firecracker_pool}
use code_execution_engine.Worker.Firecracker.Instance.{Machine}
use code_execution_engine.Worker.Firecracker.Pool.Lively as FireLively
use code_execution_engine.Worker.Firecracker.Pool.Lively.{firecracker_lively}
use code_execution_engine.Worker.Firecracker.Pool.Refinement as FireJobs
use code_execution_engine.Service.{CompilerResponse, execute}
use code_execution_engine.Natshandler.{CompilerRequest, handle, start_handlers}
use code_execution_engine.Engine.{Engine, Event, Call, start, run}
use code_execution_engine.Engine.Serving.{IsServing, run-IsServing}
use code_execution_engine.Engine.Settles.{IsSettling, IsService, run-IsSettling}

module _ (unmarshal : Text → Fallible CompilerRequest) (marshal : CompilerResponse → Text)
    (unicode_lower : Text → Text) (decode_string : Text → Fallible Text)
    (match_string : String → Text → Option Bool) where
  -- The handler of both subscriptions, over what ExecuteJob answers.
  abbrev pub handler : Text → Call
  handler elapsed ask =
      handle unmarshal marshal (execute unicode_lower decode_string match_string ask elapsed)

  -- The two subscriptions of StartHandlers.
  abbrev pub subscriptions : List (Text × (Text → List Text × List (Text × Text)))
  subscriptions =
      start_handlers unmarshal marshal
        (execute unicode_lower decode_string match_string (λ _ _. (zero_result, none)) [])

  -- In every run of the engine over a new Docker pool, of whatever size and outcomes of the `docker`
  -- command: at most two jobs are at the pool at once; no call that begins finds the queue full; once
  -- the pool has no job left, every call that waits has its result; and each message whose call has
  -- ended handed over no job, and was replied to accordingly, or got the reply that the handler makes
  -- of what `executeCode` gives for the language and the code of its own job.
  pub docker_engine_serves :
      (run_command : List Text → Text → ℕ → CommandOutcome) (cfg : Config)
      (es : List (Event Docker.Event)) (t : Engine DockerPool)
      → run
          (docker_pool run_command)
          handler
          (start (Docker.initialize (Docker.new_pool cfg)) subscriptions)
          es
        ≡ some t
      → IsServing (docker_pool run_command) handler (DockerBehind.fixed (Docker.new_pool cfg)) 2 t
  unfolding Docker.initialize Docker.new_pool start_handlers
  docker_engine_serves run_command cfg es t h =
      run-IsServing (docker_pool run_command) handler (DockerBehind.fixed (Docker.new_pool cfg))
        (Docker.initialize (Docker.new_pool cfg)) subscriptions es t (ground arith)
        (at_work-replicate DockerJobs.job_of (pos_part (Docker.new_pool cfg).cfg.max_workers)
          Docker.waiting refl)
        refl h

  -- In every run of the engine over a new Firecracker pool whose workers have been started, on
  -- whatever machines the jobs meet: at most two jobs are at the pool at once; no call that begins
  -- finds the queue full; once the pool has no job left, every call that waits has its result; and
  -- each message whose call has ended handed over no job, and was replied to accordingly, or got the
  -- reply that the handler makes of what `executeCode` gives for its own job on some machine.
  pub firecracker_engine_serves :
      (join : Text → Text → Text) (quote : Text → Text) (to_json : ExecuteReq → Fallible Text)
      (of_json : Text → Fallible ExecuteResp) (cfg : Config) (es : List (Event Fire.Event))
      (t : Engine FirecrackerPool)
      → run
          (firecracker_pool join quote to_json of_json)
          handler
          (start (Fire.start_workers (Fire.new_pool join cfg)) subscriptions)
          es
        ≡ some t
      → IsServing
          (firecracker_pool join quote to_json of_json)
          handler
          (FireBehind.fixed (Fire.new_pool join cfg))
          2
          t
  unfolding Fire.start_workers Fire.new_pool start_handlers
  firecracker_engine_serves join quote to_json of_json cfg es t h =
      run-IsServing (firecracker_pool join quote to_json of_json) handler
        (FireBehind.fixed (Fire.new_pool join cfg)) (Fire.start_workers (Fire.new_pool join cfg))
        subscriptions es t (ground arith)
        (at_work-replicate FireJobs.job_of (pos_part (Fire.new_pool join cfg).cfg.max_workers)
          Fire.waiting refl)
        refl h

  -- A run of the engine over a new Docker pool leads to `t`, where the pool has not been shut down;
  -- from there workers with a job take steps and calls read their results, in whatever order, up to
  -- `u`. They take at most two steps for each job in the queue of `t`, one for each job at a worker
  -- and one for each call that waits; and at `u` one of them can take another step, or no call waits
  -- and as many calls have ended as messages were delivered.
  pub docker_engine_settles :
      (run_command : List Text → Text → ℕ → CommandOutcome) (cfg : Config)
      (es more : List (Event Docker.Event)) (t u : Engine DockerPool)
      → run
          (docker_pool run_command)
          handler
          (start (Docker.initialize (Docker.new_pool cfg)) subscriptions)
          es
        ≡ some t
      → t.pool.shut ≡ false
      → run (docker_pool run_command) handler t more ≡ some u
      → All (IsService (docker_pool run_command) (docker_lively run_command) handler) more
      → IsSettling (docker_pool run_command) (docker_lively run_command) handler es t more u
  unfolding Docker.initialize Docker.new_pool start_handlers
  docker_engine_settles run_command cfg es more t u h o r v =
      run-IsSettling (docker_pool run_command) (docker_lively run_command) handler
        (Docker.initialize (Docker.new_pool cfg)) subscriptions es more t u
        (at_work-replicate DockerJobs.job_of (pos_part (Docker.new_pool cfg).cfg.max_workers)
          Docker.waiting refl)
        (DockerLively.start-IsSound cfg) h (ground arith) r v

  -- A run of the engine over a new Firecracker pool, whose workers have been started, leads to `t`,
  -- where the pool has not been shut down; from there workers with a job take steps and calls read
  -- their results, in whatever order, up to `u`. They take at most three steps for each job in the
  -- queue of `t`, two for each that a worker holds before the semaphore, one for each that runs and
  -- one for each call that waits; and at `u` one of them can take another step, whatever machine `m`
  -- a job may meet, or no call waits and as many calls have ended as messages were delivered.
  pub firecracker_engine_settles :
      (join : Text → Text → Text) (quote : Text → Text) (to_json : ExecuteReq → Fallible Text)
      (of_json : Text → Fallible ExecuteResp) (m : Machine) (cfg : Config)
      (es more : List (Event Fire.Event)) (t u : Engine FirecrackerPool)
      → run
          (firecracker_pool join quote to_json of_json)
          handler
          (start (Fire.start_workers (Fire.new_pool join cfg)) subscriptions)
          es
        ≡ some t
      → t.pool.shut ≡ false
      → run (firecracker_pool join quote to_json of_json) handler t more ≡ some u
      → All
          (IsService
            (firecracker_pool join quote to_json of_json)
            (firecracker_lively join quote to_json of_json m)
            handler)
          more
      → IsSettling
          (firecracker_pool join quote to_json of_json)
          (firecracker_lively join quote to_json of_json m)
          handler
          es
          t
          more
          u
  unfolding Fire.start_workers Fire.new_pool start_handlers
  firecracker_engine_settles join quote to_json of_json m cfg es more t u h o r v =
      run-IsSettling (firecracker_pool join quote to_json of_json)
        (firecracker_lively join quote to_json of_json m) handler
        (Fire.start_workers (Fire.new_pool join cfg)) subscriptions es more t u
        (at_work-replicate FireJobs.job_of (pos_part (Fire.new_pool join cfg).cfg.max_workers)
          Fire.waiting refl)
        (FireLively.start-IsSound join quote to_json of_json cfg) h (ground arith) r v
