-- ===== src/Service/DockerBackend.antt =====
-- The service over the Docker backend, as cmd/main.go puts them together by default.
use code_execution_engine.Common.{
  ℕ, ◌≡◌, ◌≢◌, inl, inr, Bool, false, List, Option, none, some, String, Text, Fallible, arith,
  Bool-cases, codes, ap, sym, ◌∙◌,
}
use code_execution_engine.Worker.{Result, Config, zero_result}
use code_execution_engine.Worker.Docker.{CommandOutcome, execute_code, reply}
use code_execution_engine.Worker.Docker.Results.{execute_code-error}
use code_execution_engine.Service.{execute, normalize_language}
use code_execution_engine.Service.Requests.{execute_success_iff}

-- What `ExecuteJob` of a Docker pool returns: at once that the queue is full, or the result of a
-- worker that ran the job.
pub data IsReply (run_command : List Text → Text → ℕ → CommandOutcome) (cfg : Config)
    (language code : Text) (r : Result × Option Text) : Type 0 where
  full : r ≡ (zero_result, some (codes "job queue full")) → IsReply run_command cfg language code r
  ran :
      r ≡ reply (execute_code run_command cfg language code)
      → IsReply run_command cfg language code r

module _ (run_command : List Text → Text → ℕ → CommandOutcome) (cfg : Config)
    (execute_job : Text → Text → Result × Option Text)
    (replies : (l c : Text) → IsReply run_command cfg l c (execute_job l c)) where
  reply_error :
      (l c : Text) → IsReply run_command cfg l c (execute_job l c) → (execute_job l c).1 ≢ none
  unfolding reply
  reply_error l c (full e) = λ n. ground arith
  reply_error l c (ran e) = λ n.
      (execute_code-error run_command cfg l c).0
        (sym (ap (λ (r : Result × Option Text). r.1) e) ∙ n)

  -- Over a Docker pool no request succeeds, whatever the code, its language and the outcome of the
  -- `docker` command, success included: every response says that it failed.
  pub docker_never_succeeds :
      (unicode_lower : Text → Text) (decode_string : Text → Fallible Text)
      (match_string : String → Text → Option Bool) (elapsed code language : Text)
      → (execute unicode_lower decode_string match_string execute_job elapsed code
          language).0.success
        ≡ false
  docker_never_succeeds u d m elapsed code language =
      elim (Bool-cases (execute u d m execute_job elapsed code language).0.success) [
        | inr refused ↦ refused
        | inl good ↦
            let (c, result, _, answer, _, _) =
              (execute_success_iff u d m execute_job elapsed code language).0 good in
            absurd (
              reply_error (normalize_language u language) c
                (replies (normalize_language u language) c)
                (ap (λ (r : Result × Option Text). r.1) answer))
      ]
