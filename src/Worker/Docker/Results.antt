-- ===== src/Worker/Docker/Results.antt =====
-- What a Docker pool answers: the job that was submitted, run as submitted.
use mathlib.Core.Path.{subst}
use code_execution_engine.Common.{
  ℕ, ◌≡◌, ◌≢◌, refl, ap, inl, inr, true, List, [], ◌∷◌, ◌++◌, none, some, arith, eq_of_some-eq,
  Option-cases, Text, All, replicate, zero, suc, codes, All-append, All-set, All-get_elem?,
}
use code_execution_engine.Worker.{Job, Result, Config}
use code_execution_engine.Worker.Docker.{
  CommandOutcome, WorkerState, waiting, running, returned, DockerPool, new_pool, initialize, Event,
  submits, step, run, execute_code, get_language_config, docker_arguments,
}
use code_execution_engine.Worker.Docker.Moves.{
  Move, rejects, accepts, takes_job, answers, shuts, leaves, step-Move,
}

-- `P` holds of the job, if the event submits one.
abbrev pub Submits : (Job → Type 0) → Event → Type 0
Submits P (submits job) = P job
Submits _ _ = Unit

module _ (run_command : List Text → Text → ℕ → CommandOutcome) (P : Job → Type 0)
    (cfg : Config) where
  abbrev pub Works : WorkerState → Type 0
  Works (running job) = P job
  Works _ = Unit

  -- The result of a job of which `P` holds, sent on its own channel.
  abbrev pub IsAnswer : ℕ × Result → Type 0
  IsAnswer r =
      (job : Job) × P job × (r ≡ (job.result, execute_code run_command cfg job.language job.code))

  record Holds (d : DockerPool) : Type 0 where
    pub same_cfg : d.cfg ≡ cfg
    pub queue : All P d.jobs
    pub work : All Works d.workers
    pub answers : All IsAnswer d.results

  move-Holds :
      (d e : DockerPool) (ev : Event) → Submits P ev → Move run_command d ev e → Holds d → Holds e
  move-Holds d e ev p (rejects job k x q) v = subst Holds q v
  move-Holds d e ev p (accepts job k x q) v = subst Holds q (record {
    same_cfg = v.same_cfg;
    queue = All-append P d.jobs _ v.queue (subst (Submits P) k p, tt);
    work = v.work;
    answers = v.answers;
  })
  move-Holds d e ev p (takes_job i job rest k at j q) v =
      let js = subst (All P) j v.queue in
      subst Holds q (record {
        same_cfg = v.same_cfg;
        queue = js.1;
        work = All-set Works d.workers i (running job) v.work js.0;
        answers = v.answers;
      })
  move-Holds d e ev p (answers i job k at q) v = subst Holds q (record {
    same_cfg = v.same_cfg;
    queue = v.queue;
    work = All-set Works d.workers i waiting v.work tt;
    answers = All-append IsAnswer d.results _ v.answers (
      (
        job,
        All-get_elem? Works d.workers i (running job) v.work at,
        ap (λ c. (job.result, execute_code run_command c job.language job.code)) v.same_cfg,
      ),
      tt,
    );
  })
  move-Holds d e ev p (shuts k q) v =
      subst Holds q
        (record { same_cfg = v.same_cfg; queue = v.queue; work = v.work; answers = v.answers })
  move-Holds d e ev p (leaves i k at x q) v = subst Holds q (record {
    same_cfg = v.same_cfg;
    queue = v.queue;
    work = All-set Works d.workers i returned v.work tt;
    answers = v.answers;
  })

  run-Holds :
      (d e : DockerPool) (evs : List Event)
      → All (Submits P) evs
      → run run_command d evs ≡ some e
      → Holds d
      → Holds e
  unfolding run
  run-Holds d e [] p h v = subst Holds (eq_of_some-eq h) v
  run-Holds d e (ev ∷ evs) p h v = elim (Option-cases (step run_command d ev)) [
    | inl x ↦ absurd (ground arith)
    | inr (f, x) ↦
        run-Holds f e evs p.1 (ground arith)
          (move-Holds d f ev p.0 (step-Move run_command d ev f x) v)
  ]

  waiting-Works : (n : ℕ) → All Works (replicate n waiting)
  waiting-Works zero = tt
  waiting-Works (suc n) = (tt, waiting-Works n)

-- If `P` holds of every job that is submitted to a new pool, then every result that the pool sends
-- is the outcome of running the language and the code of such a job, sent on that job's channel.
pub run_answers :
    (run_command : List Text → Text → ℕ → CommandOutcome) (P : Job → Type 0) (cfg : Config)
    (e : DockerPool) (evs : List Event)
    → All (Submits P) evs
    → run run_command (initialize (new_pool cfg)) evs ≡ some e
    → All (IsAnswer run_command P (new_pool cfg).cfg) e.results
unfolding initialize new_pool
run_answers run_command P cfg e evs p h =
    (run-Holds run_command P (new_pool cfg).cfg (initialize (new_pool cfg)) e evs p h (record {
      same_cfg = refl;
      queue = tt;
      work = waiting-Works run_command P (new_pool cfg).cfg _;
      answers = tt;
    })).answers

-- Every result of a Docker worker carries an error, that of a command that succeeded too: its
-- `Success` is then true, and its `Error` is the command's error output with ": <nil>" behind it.
pub execute_code-error :
    (run_command : List Text → Text → ℕ → CommandOutcome) (cfg : Config) (language code : Text)
    → ((execute_code run_command cfg language code).error ≢ none)
      × ((execute_code run_command cfg language code).success ≡ true
          → (out : CommandOutcome) × (out.failure ≡ none)
            × (execute_code run_command cfg language code ≡ record {
              output = out.stdout;
              success = true;
              error = some (out.stderr ++ codes ": <nil>");
              execution_time = out.elapsed;
            }))
unfolding execute_code
execute_code-error run_command cfg language code =
    elim (Option-cases (get_language_config language)) [
      | inl x ↦ ground arith
      | inr (lang, x) ↦ (
        ground arith,
        λ good. (
          run_command (docker_arguments cfg.image lang.command) code lang.timeout,
          ground arith,
          ground arith,
        ),
      )
    ]
