-- ===== src/Service/FirecrackerBackend.antt =====
-- The service over the Firecracker backend, as cmd/main.go puts them together where WORKER_TYPE says
-- so.
use code_execution_engine.Common.{
  ◌≡◌, ◌↔◌, Bool, true, [], ◌∷◌, Option, none, some, String, Text, Fallible, codes, ap, sym, ◌∙◌,
}
use code_execution_engine.Worker.{Result, zero_result}
use code_execution_engine.Worker.Firecracker.Vsock.{ExecuteReq, ExecuteResp}
use code_execution_engine.Worker.Firecracker.Instance.{Machine, execute_code}
use code_execution_engine.Worker.Firecracker.Instance.Outcome.{IsServed, execute_code-IsServed_iff}
use code_execution_engine.Worker.Firecracker.Pool.{reply}
use code_execution_engine.Service.{execute, normalize_language}
use code_execution_engine.Service.Requests.{execute_success_iff, success_of_answer}

module _ (join : Text → Text → Text) (quote : Text → Text) (marshal : ExecuteReq → Fallible Text)
    (unmarshal : Text → Fallible ExecuteResp) (dir : Text) where
  -- What `ExecuteJob` of a Firecracker pool returns: at once that the queue is full, or the result of
  -- the job on the machine that it met.
  pub data IsReply (language code : Text) (r : Result × Option Text) : Type 0 where
    full : r ≡ (zero_result, some (codes "firecracker queue full")) → IsReply language code r
    ran :
        (m : Machine)
        → r ≡ reply (execute_code join quote marshal unmarshal dir m language code).1
        → IsReply language code r

  -- The job ran on a machine that served it.
  abbrev pub Served : Text → Text → Result × Option Text → Type 0
  Served language code r =
      (m : Machine) × (r ≡ reply (execute_code join quote marshal unmarshal dir m language code).1)
      × IsServed join quote marshal unmarshal dir m language code

  Served-without_error :
      (language code : Text) (r : Result × Option Text)
      → IsReply language code r
      → r.1 ≡ none
      → Served language code r
  unfolding reply
  Served-without_error language code r (full e) h = absurd (cc (e, h))
  Served-without_error language code r (ran m e) h = (
    m,
    e,
    (execute_code-IsServed_iff join quote marshal unmarshal dir m language code).1.0
        (sym (ap (λ (q : Result × Option Text). q.1) e) ∙ h),
  )

  Served-result :
      (language code : Text) (r : Result × Option Text)
      → Served language code r
      → (r ≡ (r.0, none)) × (r.0.error ≡ none)
  unfolding reply
  Served-result language code r (m, e, s) =
      let x = (execute_code-IsServed_iff join quote marshal unmarshal dir m language code).1.1 s in
      (
        e
            ∙ ap
                (λ (o : Option Text).
                  ((execute_code join quote marshal unmarshal dir m language code).1, o))
                x
            ∙ ap (λ (q : Result × Option Text). (q.0, none)) (sym e),
        ap (λ (q : Result × Option Text). q.0.error) e ∙ x,
      )

  module _ (execute_job : Text → Text → Result × Option Text)
      (replies : (l c : Text) → IsReply l c (execute_job l c)) where
    -- Over a Firecracker pool a request succeeds exactly where it hands a job to the pool and the
    -- machine that runs it serves it: Firecracker starts, the snapshot is loaded, a socket is found
    -- and the guest behind it runs the code to exit code 0 with no error.
    pub firecracker_success_iff :
        (unicode_lower : Text → Text) (decode_string : Text → Fallible Text)
        (match_string : String → Text → Option Bool) (elapsed code language : Text)
        → ((execute unicode_lower decode_string match_string execute_job elapsed code
              language).0.success
            ≡ true)
          ↔ ((c : Text) × ((execute unicode_lower decode_string match_string execute_job elapsed
                  code language).1
                ≡ (normalize_language unicode_lower language, c) ∷ [])
              × Served
                  (normalize_language unicode_lower language)
                  c
                  (execute_job (normalize_language unicode_lower language) c))
    firecracker_success_iff u d m elapsed code language =
        let iff = execute_success_iff u d m execute_job elapsed code language in
        (
          λ good.
              let (c, result, sent, answer, _, _) = iff.0 good in
              (
                c,
                sent,
                Served-without_error (normalize_language u language) c _
                    (replies (normalize_language u language) c)
                    (ap (λ (r : Result × Option Text). r.1) answer),
              ),
          λ h.
              let r = Served-result (normalize_language u language) h.0 _ h.2 in
              success_of_answer u d m execute_job elapsed code language h.0
                (execute_job (normalize_language u language) h.0).0 h.1 r.0 r.1,
        )
