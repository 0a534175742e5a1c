-- ===== src/Service/Tests.antt =====
-- Requests with concrete codes, and each theorem at one.
use code_execution_engine.Common.{
  pos, ℕ, ◌≡◌, refl, ◌↔◌, Bool, true, false, List, [], ◌∷◌, Option, none, some, String, Text,
  Fallible, ok, codes, contains, has_prefix,
}
use code_execution_engine.Internal.Sanitize.Acceptance.{IsAcceptable, IsKnown}
use code_execution_engine.Worker.{Result, Config, zero_result}
use code_execution_engine.Worker.Docker.{CommandOutcome, execute_code, reply}
use code_execution_engine.Worker.Firecracker.Pool as Fire
use code_execution_engine.Worker.Firecracker.Instance
use code_execution_engine.Worker.Firecracker.Sample.{slash, as_it_is, to_json, of_json, machine}
use code_execution_engine.Service.FirecrackerBackend.{Served, firecracker_success_iff}
use code_execution_engine.Service.FirecrackerBackend.{ran as ran_on}
use code_execution_engine.Service.{
  normalize_language, match_language, to_lower, lower_ascii, execute,
}
use code_execution_engine.Service.Language.{has_marker, IsNamed, normalize_language-IsNamed}
use code_execution_engine.Service.Requests.{execute_submits_iff, execute_success_iff}
use code_execution_engine.Service.DockerBackend.{ran, docker_never_succeeds}

abbrev keep_text : Text → Text
keep_text s = s

abbrev as_sent : Text → Fallible Text
as_sent s = ok s

abbrev substring : String → Text → Option Bool
substring p s = some (contains s (codes p))

abbrev prints_one : Text → Text → Result × Option Text
prints_one l c = (record zero_result { output = codes "1"; success = true }, none)

abbrev greeting : Text
greeting = codes "print(1)"

python_names : normalize_language keep_text (codes "Python3") ≡ codes "python"
unfolding normalize_language match_language to_lower lower_ascii contains has_prefix
python_names = refl

-- JavaScript by its name in full is taken for C++.
javascript_is_cpp : normalize_language keep_text (codes "JavaScript") ≡ codes "cpp"
unfolding normalize_language match_language to_lower lower_ascii contains has_prefix
javascript_is_cpp = refl

normalize_language-IsNamed_example :
    IsNamed
      (to_lower keep_text (codes "JavaScript"))
      (normalize_language keep_text (codes "JavaScript"))
    × (IsKnown (normalize_language keep_text (codes "JavaScript"))
        ↔ (has_marker (to_lower keep_text (codes "JavaScript")) ≡ true))
normalize_language-IsNamed_example = normalize_language-IsNamed keep_text (codes "JavaScript")

execute_submits_iff_example :
    ((l c : Text)
      → ((execute keep_text as_sent substring prints_one (codes "1ms") greeting (codes "py")).1
          ≡ (l, c) ∷ [])
        ↔ ((as_sent greeting ≡ ok c)
            × (l ≡ normalize_language keep_text (codes "py"))
            × IsAcceptable substring c (normalize_language keep_text (codes "py")) 10000))
    × ((execute keep_text as_sent substring prints_one (codes "1ms") greeting (codes "py")).1 ≡ []
        → ((execute keep_text as_sent substring prints_one
              (codes "1ms")
              greeting
              (codes "py")).0.success
            ≡ false)
          × ((execute keep_text as_sent substring prints_one
                (codes "1ms")
                greeting
                (codes "py")).0.output
              ≡ []))
execute_submits_iff_example =
    execute_submits_iff keep_text as_sent substring prints_one (codes "1ms") greeting (codes "py")

execute_success_iff_example :
    ((execute keep_text as_sent substring prints_one (codes "1ms") greeting (codes "py")).0.success
      ≡ true)
    ↔ ((c : Text) × (result : Result) × ((execute keep_text as_sent substring prints_one
            (codes "1ms")
            greeting
            (codes "py")).1
          ≡ (normalize_language keep_text (codes "py"), c) ∷ [])
        × (prints_one (normalize_language keep_text (codes "py")) c ≡ (result, none))
        × (result.error ≡ none)
        × ((execute keep_text as_sent substring prints_one
              (codes "1ms")
              greeting
              (codes "py")).0.output
            ≡ result.output))
execute_success_iff_example =
    execute_success_iff keep_text as_sent substring prints_one (codes "1ms") greeting (codes "py")

-- A `docker` command that succeeds, with "1" for output.
abbrev succeeds : List Text → Text → ℕ → CommandOutcome
succeeds arguments input timeout = record {
  stdout = codes "1";
  stderr = [];
  failure = none;
  elapsed = 5;
}

abbrev docker_config : Config
docker_config = record {
  image = codes "worker";
  max_workers = pos 3;
  memory_limit = pos 400;
  cpu_limit = pos 500;
}

abbrev docker_job : Text → Text → Result × Option Text
docker_job l c = reply (execute_code succeeds docker_config l c)

docker_never_succeeds_example :
    (execute keep_text as_sent substring docker_job (codes "1ms") greeting (codes "py")).0.success
    ≡ false
docker_never_succeeds_example =
    docker_never_succeeds succeeds docker_config docker_job (λ l c. ran refl) keep_text as_sent
      substring (codes "1ms") greeting (codes "py")

abbrev fire_job : Text → Text → Result × Option Text
fire_job l c =
    Fire.reply (Instance.execute_code slash as_it_is to_json of_json (codes "/snap") machine l c).1

firecracker_success_iff_example :
    ((execute keep_text as_sent substring fire_job (codes "1ms") greeting (codes "py")).0.success
      ≡ true)
    ↔ ((c : Text) × ((execute keep_text as_sent substring fire_job
            (codes "1ms")
            greeting
            (codes "py")).1
          ≡ (normalize_language keep_text (codes "py"), c) ∷ [])
        × Served slash as_it_is to_json of_json
            (codes "/snap")
            (normalize_language keep_text (codes "py"))
            c
            (fire_job (normalize_language keep_text (codes "py")) c))
firecracker_success_iff_example =
    firecracker_success_iff slash as_it_is to_json of_json (codes "/snap") fire_job
      (λ l c. ran_on machine refl) keep_text as_sent substring (codes "1ms") greeting (codes "py")
