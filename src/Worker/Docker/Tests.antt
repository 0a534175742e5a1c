-- ===== src/Worker/Docker/Tests.antt =====
-- A small Docker pool at work, and each theorem at one of its runs.
use code_execution_engine.Common.{
  pos, ℕ, ◌+◌, ◌≡◌, refl, true, List, [], ◌∷◌, ◌++◌, none, some, Text, codes,
}
use code_execution_engine.Worker.{Job, Result, Config, zero_result}
use code_execution_engine.Worker.Backend.{View, new_view, Reach}
use code_execution_engine.Worker.Backend.Fifo.{IsFair}
use code_execution_engine.Worker.Docker.Refinement.{job_of, channel, IsOutcome, run-refines_docker}
use code_execution_engine.Worker.Backend.Crew.{at_work}
use code_execution_engine.Worker.Docker.{
  CommandOutcome, returned, DockerPool, new_pool, initialize, submit, shutdown, Event, submits,
  receives, finishes, closes, returns, receive, finish, return_on_shutdown, step, run, execute_code,
}
use code_execution_engine.Worker.Docker.Jobs.{tally, accepted, tally-run}
use code_execution_engine.Worker.Docker.Shutdown.{run_stranded}

abbrev echo : List Text → Text → ℕ → CommandOutcome
echo arguments input timeout = record { stdout = input; stderr = []; failure = none; elapsed = 5 }

abbrev config : Config
config = record {
  image = codes "worker";
  max_workers = pos 1;
  memory_limit = pos 400;
  cpu_limit = pos 500;
}

abbrev job : ℕ → Job
job n = record { language = codes "python"; code = codes "print(1)"; result = n }

abbrev start : DockerPool
start = initialize (new_pool config)

-- Two jobs are sent, one is answered, and the pool is shut down before it takes the other.
abbrev events : List Event
events = submits (job 7) ∷ submits (job 8) ∷ receives 0 ∷ finishes 0 ∷ closes ∷ returns 0 ∷ []

abbrev answered_seven : List (ℕ × Result)
answered_seven = (7, execute_code echo config (codes "python") (codes "print(1)")) ∷ []

abbrev left : DockerPool
left = record {
  cfg = config;
  capacity = 4;
  jobs = job 8 ∷ [];
  workers = returned ∷ [];
  total_executed = 2;
  results = answered_seven;
  shut = true;
}

events_left : run echo start events ≡ some left
unfolding run step submit receive finish return_on_shutdown shutdown initialize new_pool
events_left = refl

-- The fifth job finds the queue of one worker full.
fifth_refused :
    (submit (record left { jobs = job 1 ∷ job 2 ∷ job 3 ∷ job 4 ∷ [] }) (job 5)).1
    ≡ some (zero_result, some (codes "job queue full"))
unfolding submit
fifth_refused = refl

tally-run_example :
    tally (λ _. true) left ≡ tally (λ _. true) start + accepted echo (λ _. true) start events
tally-run_example = tally-run echo (λ _. true) start left events events_left

abbrev later : DockerPool
later = record left { jobs = job 8 ∷ job 9 ∷ []; total_executed = 3 }

run_stranded_example :
    (new : List Job) × (later.results ≡ left.results) × (later.jobs ≡ left.jobs ++ new)
unfolding run step submit
run_stranded_example = run_stranded echo left later (submits (job 9) ∷ []) (refl, tt) refl

run-refines_docker_example :
    (v : View Job Result) × Reach channel
      (new_pool config).capacity
      (IsOutcome echo (new_pool config).cfg)
      new_view
      v
    × IsFair channel (new_pool config).capacity (IsOutcome echo (new_pool config).cfg) v
    × (v.queue ≡ left.jobs)
    × (v.running ≡ at_work job_of left.workers)
    × (v.results ≡ left.results)
run-refines_docker_example = run-refines_docker echo config left events events_left
