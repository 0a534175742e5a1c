-- ===== src/Engine/Tests.antt =====
-- Two messages over a pool of one worker, and each theorem at their run.
use code_execution_engine.Common.{
  pos, ℕ, ◌≡◌, refl, Bool, true, false, List, [], ◌∷◌, Option, none, some, String, Text, Fallible,
  ok, codes, lookup, same, contains, has_prefix, decimal,
}
use code_execution_engine.Worker.{Job, Result, Config}
use code_execution_engine.Worker.Docker as Docker
use code_execution_engine.Worker.Docker.{CommandOutcome, DockerPool}
use code_execution_engine.Worker.Docker.Interface as DockerBehind
use code_execution_engine.Worker.Docker.Interface.{docker_pool, act}
use code_execution_engine.Worker.Firecracker.Pool as Fire
use code_execution_engine.Worker.Firecracker.Pool.{FirecrackerPool}
use code_execution_engine.Worker.Firecracker.Pool.Interface as FireBehind
use code_execution_engine.Worker.Firecracker.Pool.Interface.{firecracker_pool}
use code_execution_engine.Worker.Firecracker.Sample.{slash, as_it_is, to_json, of_json, machine}
use code_execution_engine.Internal.Sanitize.{
  sanitize_code, has_matching_pattern, first_match, prohibited, prohibited_in, sanitize_language,
  too_long, error_text,
}
use code_execution_engine.Internal.Sanitize.Patterns.{
  dangerous_patterns, common_patterns, python_patterns,
}
use code_execution_engine.Service.{
  CompilerResponse, execute, execute_decoded, normalize_language, match_language, to_lower,
  lower_ascii, respond,
}
use code_execution_engine.Natshandler.{CompilerRequest, handle, start_handlers}
use code_execution_engine.Engine.{
  Engine, Event, idle, awaits, delivers, reads, acts, start, deliver, begin_call, call_pool, read,
  end_call, work, step, run,
}
use code_execution_engine.Engine.Serving.{IsServing}
use code_execution_engine.Engine.Settles.{IsSettling}
use code_execution_engine.Worker.Docker.Lively.{docker_lively}
use code_execution_engine.Worker.Firecracker.Pool.Lively.{firecracker_lively}
use code_execution_engine.Engine.Whole.{
  handler, subscriptions, docker_engine_serves, firecracker_engine_serves, docker_engine_settles,
  firecracker_engine_settles,
}

abbrev python : Text → Fallible CompilerRequest
python message = ok (record { code = message; language = codes "python" })

abbrev status : CompilerResponse → Text
status res = res.status_message

abbrev unchanged : Text → Text
unchanged s = s

abbrev plain : Text → Fallible Text
plain s = ok s

abbrev nowhere : String → Text → Option Bool
nowhere p s = some false

abbrev config : Config
config = record { image = []; max_workers = pos 1; memory_limit = pos 400; cpu_limit = pos 500 }

abbrev events : List (Event Docker.Event)
events =
    delivers 0 (codes "1ms") (codes "print(1)")
    ∷ delivers 1 (codes "2ms") (codes "print(2)")
    ∷ acts (Docker.receives 0)
    ∷ acts (Docker.finishes 0)
    ∷ reads 0 (codes "1ms")
    ∷ []

abbrev job : ℕ → Text → Job
job n code = record { language = codes "python"; code = code; result = n }

abbrev echo : List Text → Text → ℕ → CommandOutcome
echo arguments code limit = record { stdout = code; stderr = []; failure = none; elapsed = 5 }

abbrev printed : Result
printed = record {
  output = codes "print(1)";
  success = true;
  error = some (codes ": <nil>");
  execution_time = 5;
}

-- The first message is replied to, and the second waits in the queue.
abbrev ended : Engine DockerPool
ended = record {
  pool = record {
    cfg = config;
    capacity = 4;
    jobs = job 1 (codes "print(2)") ∷ [];
    workers = Docker.waiting ∷ [];
    total_executed = 2;
    results = (0, printed) ∷ [];
    shut = false;
  };
  subscriptions = idle ∷ awaits (codes "print(2)") (job 1 (codes "print(2)")) ∷ [];
  mail = [];
  calls = 2;
  published = (codes "print(1)", codes "Failed to execute code" ∷ []) ∷ [];
}

runs :
    run
      (docker_pool echo)
      (handler python status unchanged plain nowhere)
      (start
        (Docker.initialize (Docker.new_pool config))
        (subscriptions python status unchanged plain nowhere))
      events
    ≡ some ended
unfolding run step deliver start start_handlers begin_call call_pool read end_call work handle
    execute execute_decoded sanitize_code dangerous_patterns common_patterns python_patterns
    has_matching_pattern first_match prohibited_in prohibited sanitize_language too_long lookup same
    normalize_language match_language to_lower lower_ascii contains has_prefix respond error_text
    decimal Docker.initialize Docker.new_pool Docker.submit Docker.reply act Docker.step
    Docker.receive Docker.finish Docker.execute_code Docker.get_language_config
    Docker.language_configs Docker.docker_arguments
runs = refl

docker_engine_serves_example :
    IsServing
      (docker_pool echo)
      (handler python status unchanged plain nowhere)
      (DockerBehind.fixed (Docker.new_pool config))
      2
      ended
docker_engine_serves_example =
    docker_engine_serves python status unchanged plain nowhere echo config events ended runs

-- The result of a job in a microVM is there, and its call has not read it yet.
abbrev vm_events : List (Event Fire.Event)
vm_events =
    delivers 0 (codes "1ms") (codes "print(1)")
    ∷ acts (Fire.receives 0)
    ∷ acts (Fire.acquires 0)
    ∷ acts (Fire.finishes 0 machine)
    ∷ []

abbrev in_vm : Result
in_vm =
    Fire.outcome slash as_it_is to_json of_json (Fire.new_pool slash config).snapshot_dir machine
      (job 0 (codes "print(1)"))

abbrev vm_ended : Engine FirecrackerPool
vm_ended = record {
  pool = record (Fire.start_workers (Fire.new_pool slash config)) {
    total_executed = 1;
    results = (0, in_vm) ∷ [];
  };
  subscriptions = awaits (codes "print(1)") (job 0 (codes "print(1)")) ∷ idle ∷ [];
  mail = (0, in_vm) ∷ [];
  calls = 1;
  published = [];
}

vm_runs :
    run
      (firecracker_pool slash as_it_is to_json of_json)
      (handler python status unchanged plain nowhere)
      (start
        (Fire.start_workers (Fire.new_pool slash config))
        (subscriptions python status unchanged plain nowhere))
      vm_events
    ≡ some vm_ended
unfolding run step deliver start start_handlers begin_call call_pool work handle execute
    execute_decoded sanitize_code dangerous_patterns common_patterns python_patterns
    has_matching_pattern first_match prohibited_in prohibited sanitize_language too_long lookup same
    normalize_language match_language to_lower lower_ascii contains has_prefix respond
    Fire.start_workers Fire.new_pool Fire.submit FireBehind.act Fire.step Fire.receive Fire.acquire
    Fire.finish
vm_runs = refl

firecracker_engine_serves_example :
    IsServing
      (firecracker_pool slash as_it_is to_json of_json)
      (handler python status unchanged plain nowhere)
      (FireBehind.fixed (Fire.new_pool slash config))
      2
      vm_ended
firecracker_engine_serves_example =
    firecracker_engine_serves python status unchanged plain nowhere slash as_it_is to_json of_json
      config vm_events vm_ended vm_runs

abbrev more : List (Event Docker.Event)
more = acts (Docker.receives 0) ∷ acts (Docker.finishes 0) ∷ reads 1 (codes "2ms") ∷ []

abbrev printed_too : Result
printed_too = record printed { output = codes "print(2)" }

-- Both calls have ended.
abbrev settled : Engine DockerPool
settled = record ended {
  pool = record ended.pool {
    jobs = [];
    workers = Docker.waiting ∷ [];
    results = (0, printed) ∷ (1, printed_too) ∷ [];
  };
  subscriptions = idle ∷ idle ∷ [];
  published =
      (codes "print(1)", codes "Failed to execute code" ∷ [])
      ∷ (codes "print(2)", codes "Failed to execute code" ∷ [])
      ∷ [];
}

runs_on :
    run (docker_pool echo) (handler python status unchanged plain nowhere) ended more ≡ some settled
unfolding run step deliver start start_handlers begin_call call_pool read end_call work handle
    execute execute_decoded sanitize_code dangerous_patterns common_patterns python_patterns
    has_matching_pattern first_match prohibited_in prohibited sanitize_language too_long lookup same
    normalize_language match_language to_lower lower_ascii contains has_prefix respond error_text
    decimal Docker.initialize Docker.new_pool Docker.submit Docker.reply act Docker.step
    Docker.receive Docker.finish Docker.execute_code Docker.get_language_config
    Docker.language_configs Docker.docker_arguments
runs_on = refl

docker_engine_settles_example :
    IsSettling
      (docker_pool echo)
      (docker_lively echo)
      (handler python status unchanged plain nowhere)
      events
      ended
      more
      settled
docker_engine_settles_example =
    docker_engine_settles python status unchanged plain nowhere echo config events more ended
      settled runs refl runs_on (tt, (tt, (tt, tt)))

abbrev vm_more : List (Event Fire.Event)
vm_more = reads 0 (codes "1ms") ∷ []

-- The call has ended, with the reply that the handler makes of its result.
abbrev vm_settled : Engine FirecrackerPool
vm_settled = record vm_ended {
  subscriptions = idle ∷ idle ∷ [];
  mail = [];
  published =
      (
        codes "print(1)",
        (handler python status unchanged plain nowhere (codes "1ms") (λ _ _. Fire.reply in_vm)
            (codes "print(1)")).0,
      )
      ∷ [];
}

vm_runs_on :
    run
      (firecracker_pool slash as_it_is to_json of_json)
      (handler python status unchanged plain nowhere)
      vm_ended
      vm_more
    ≡ some vm_settled
unfolding run step read end_call
vm_runs_on = refl

firecracker_engine_settles_example :
    IsSettling
      (firecracker_pool slash as_it_is to_json of_json)
      (firecracker_lively slash as_it_is to_json of_json machine)
      (handler python status unchanged plain nowhere)
      vm_events
      vm_ended
      vm_more
      vm_settled
unfolding Fire.start_workers Fire.new_pool
firecracker_engine_settles_example =
    firecracker_engine_settles python status unchanged plain nowhere slash as_it_is to_json of_json
      machine config vm_events vm_more vm_ended vm_settled vm_runs refl vm_runs_on (tt, tt)
