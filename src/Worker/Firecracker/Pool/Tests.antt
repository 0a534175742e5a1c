-- ===== src/Worker/Firecracker/Pool/Tests.antt =====
-- A small Firecracker pool at work, and each theorem at one of its runs.
use code_execution_engine.Common.{
  pos_part, ℕ, ◌≤◌, ◌≡◌, refl, true, false, List, [], ◌∷◌, some, get_elem?, count_if,
}
use code_execution_engine.Worker.{Job, Result}
use code_execution_engine.Worker.Backend.{View, new_view, Reach}
use code_execution_engine.Worker.Backend.Fifo.{IsFair}
use code_execution_engine.Worker.Firecracker.Pool.{
  FirecrackerPool, holding, new_pool, start_workers, submit, begin_shutdown, Event, submits,
  receives, acquires, finishes, begins_shutdown, receive, acquire, finish, step, run, outcome,
}
use code_execution_engine.Worker.Firecracker.Pool.Warm.{is_running, acquire_never_blocks}
use code_execution_engine.Worker.Firecracker.Pool.Refinement.{
  job_of, channel, IsOutcome, run-refines_firecracker,
}
use code_execution_engine.Worker.Backend.Crew.{at_work}
use code_execution_engine.Worker.Firecracker.Sample.{
  slash, as_it_is, to_json, of_json, machine, config, print_job,
}

abbrev start : FirecrackerPool
start = start_workers (new_pool slash config)

-- Two jobs are sent, the first is answered, and the second waits for a slot.
abbrev events : List Event
events =
    submits (print_job 7)
    ∷ submits (print_job 8)
    ∷ receives 0
    ∷ acquires 0
    ∷ finishes 0 machine
    ∷ receives 0
    ∷ begins_shutdown
    ∷ []

abbrev held : FirecrackerPool
held = record start {
  total_executed = 2;
  workers = holding (print_job 8) ∷ [];
  results =
      (7, outcome slash as_it_is to_json of_json start.snapshot_dir machine (print_job 7)) ∷ [];
  shut = true;
}

events-held : run slash as_it_is to_json of_json start events ≡ some held
unfolding run step submit receive acquire finish begin_shutdown start_workers new_pool
events-held = refl

acquire_never_blocks_example :
    (held.warm ≡ count_if is_running held.workers)
    × (held.warm ≤ pos_part held.cfg.max_workers)
    × ((i : ℕ) (job : Job)
        → get_elem? held.workers i ≡ some (holding job)
        → (held.warm_closed ≡ false)
          × ((e : FirecrackerPool) × (step slash as_it_is to_json of_json held (acquires i)
                ≡ some e)))
acquire_never_blocks_example =
    acquire_never_blocks slash as_it_is to_json of_json config held events events-held

run-refines_firecracker_example :
    (v : View Job Result) × Reach channel
      (new_pool slash config).capacity
      (IsOutcome slash as_it_is to_json of_json (new_pool slash config).snapshot_dir)
      new_view
      v
    × IsFair channel
        (new_pool slash config).capacity
        (IsOutcome slash as_it_is to_json of_json (new_pool slash config).snapshot_dir)
        v
    × (v.queue ≡ held.jobs)
    × (v.running ≡ at_work job_of held.workers)
    × (v.results ≡ held.results)
run-refines_firecracker_example =
    run-refines_firecracker slash as_it_is to_json of_json config held events events-held
