-- ===== src/Service/Requests.antt =====
-- What becomes of a request: when it reaches the pool, and when it succeeds.
use mathlib.Core.Path.{subst}
use code_execution_engine.Common.{
  ◌≡◌, refl, ◌≢◌, ◌↔◌, inl, inr, Bool, true, false, List, [], ◌∷◌, Option, none, some, String, Text,
  Fallible, ok, err, arith, Option-cases, Fallible-cases, ap, sym, ◌∙◌,
}
use code_execution_engine.Internal.Sanitize.{sanitize_code}
use code_execution_engine.Internal.Sanitize.Acceptance.{IsAcceptable, sanitize_code-eq-none_iff}
use code_execution_engine.Worker.{Result}
use code_execution_engine.Service.{
  CompilerResponse, normalize_language, respond, execute_decoded, execute,
}

same_ok : (a b : Text) → ok a ≡ ok b → a ≡ b
same_ok a b h = cc

only {ℓ κ} :
    {A : Type ℓ} {B : Type κ} (a a' : A) (b b' : B)
    → ◌≡◌ {A = List (A × B)} ((a, b) ∷ []) ((a', b') ∷ [])
    → (a ≡ a') × (b ≡ b')
only a a' b b' h = (cc, cc)

module _ (unicode_lower : Text → Text) (decode_string : Text → Fallible Text)
    (match_string : String → Text → Option Bool) (execute_job : Text → Text → Result × Option Text)
    (elapsed : Text) (code language : Text) where
  abbrev normalized : Text
  normalized = normalize_language unicode_lower language

  abbrev outcome : CompilerResponse × List (Text × Text)
  outcome = execute unicode_lower decode_string match_string execute_job elapsed code language

  abbrev answered : Result × Option Text → CompilerResponse
  answered = respond unicode_lower decode_string match_string execute_job elapsed

  respond_success :
      (r : Result × Option Text)
      → (answered r).success ≡ true
      → (r ≡ (r.0, none)) × (r.0.error ≡ none) × ((answered r).output ≡ r.0.output)
  unfolding respond
  respond_success (result, some e) h = cc
  respond_success (result, none) h = (refl, ground arith, ground arith)

  respond_good : (result : Result) → result.error ≡ none → (answered (result, none)).success ≡ true
  unfolding respond
  respond_good result h = ground arith

  outcome_sent :
      (d : Text)
      → decode_string code ≡ ok d
      → sanitize_code match_string d normalized 10000 ≡ none
      → outcome ≡ (
        respond unicode_lower decode_string match_string execute_job elapsed
            (execute_job normalized d),
        (normalized, d) ∷ [],
      )
  unfolding execute execute_decoded
  outcome_sent d x good = rw (x, execute) (rw (good, execute_decoded))

  response_sent :
      (d : Text)
      → decode_string code ≡ ok d
      → sanitize_code match_string d normalized 10000 ≡ none
      → outcome.0 ≡ answered (execute_job normalized d)
  response_sent d x good =
      ap (λ (o : CompilerResponse × List (Text × Text)). o.0) (outcome_sent d x good)

  sent :
      (d : Text)
      → decode_string code ≡ ok d
      → sanitize_code match_string d normalized 10000 ≡ none
      → outcome.1 ≡ (normalized, d) ∷ []
  sent d x good = ap (λ (o : CompilerResponse × List (Text × Text)). o.1) (outcome_sent d x good)

  -- Neither sent nor with any output.
  abbrev IsRefused : Type 0
  IsRefused = (outcome.1 ≡ []) × (outcome.0.success ≡ false) × (outcome.0.output ≡ [])

  outcome_refused :
      (d : Text)
      → decode_string code ≡ ok d
      → (sanitize_code match_string d normalized 10000 ≢ none)
      → IsRefused
  unfolding execute execute_decoded
  outcome_refused d x bad = ground arith

  outcome_undecoded : (e : Text) → decode_string code ≡ err e → IsRefused
  unfolding execute
  outcome_undecoded e x = ground arith

  -- A request hands a job to the pool exactly when its code decodes and the sanitizer accepts what
  -- it decodes to, in at most 10000 bytes, for the normalised language; the job is that code in
  -- that language. A request that hands over none is answered as failed, with no output.
  pub execute_submits_iff :
      ((l c : Text)
        → (outcome.1 ≡ (l, c) ∷ []) ↔ (
            (decode_string code ≡ ok c)
            × (l ≡ normalized)
            × IsAcceptable match_string c normalized 10000))
      × (outcome.1 ≡ [] → (outcome.0.success ≡ false) × (outcome.0.output ≡ []))
  execute_submits_iff = elim (Fallible-cases (decode_string code)) [
    | inr (e, x) ↦
        let no = outcome_undecoded e x in
        (λ l c. (λ h. absurd (cc (no.0, h)), λ h. absurd (cc (x, h.0))), λ _. (no.1, no.2))
    | inl (d, x) ↦
        let iff = sanitize_code-eq-none_iff match_string d normalized 10000 in
        elim (Option-cases (sanitize_code match_string d normalized 10000)) [
          | inl good ↦ (
            λ l c. (
              λ h.
                  let (same_l, same_c) = only normalized l d c (sym (sent d x good) ∙ h) in
                  (
                    x ∙ ap ok same_c,
                    sym same_l,
                    subst (λ t. IsAcceptable match_string t normalized 10000) same_c (iff.0 good),
                  ),
              λ h. sent d x good ∙ cc (x, h.0, h.1),
            ),
            λ h. absurd (cc (sent d x good, h)),
          )
          | inr (e, bad) ↦
              let no = outcome_refused d x (λ n. cc (n, bad)) in
              (
                λ l c. (
                  λ h. absurd (cc (no.0, h)),
                  λ h. absurd (cc (bad, iff.1 (rw (same_ok d c (sym x ∙ h.0)) h.2))),
                ),
                λ _. (no.1, no.2),
              )
        ]
  ]

  -- A job that was handed over and came back without an error makes the request succeed.
  pub success_of_answer :
      (c : Text) (result : Result)
      → outcome.1 ≡ (normalized, c) ∷ []
      → execute_job normalized c ≡ (result, none)
      → result.error ≡ none
      → outcome.0.success ≡ true
  success_of_answer c result handed answer fine = elim (Fallible-cases (decode_string code)) [
    | inr (e, x) ↦ let no = outcome_undecoded e x in absurd (cc (no.0, handed))
    | inl (d, x) ↦ elim (Option-cases (sanitize_code match_string d normalized 10000)) [
      | inr (e, bad) ↦ let no = outcome_refused d x (λ n. cc (n, bad)) in absurd (cc (no.0, handed))
      | inl good ↦
          let (_, same_c) = only normalized normalized d c (sym (sent d x good) ∙ handed) in
          ap (λ (o : CompilerResponse). o.success)
            (response_sent d x good ∙ ap answered (ap (execute_job normalized) same_c ∙ answer))
          ∙ respond_good result fine
    ]
  ]

  -- A request succeeds exactly when it hands a job to the pool and the pool returns no error, in
  -- its result or beside it; the response then has the output of the result.
  pub execute_success_iff : (outcome.0.success ≡ true) ↔ (
      (c : Text) × (result : Result) × (outcome.1 ≡ (normalized, c) ∷ [])
      × (execute_job normalized c ≡ (result, none))
      × (result.error ≡ none)
      × (outcome.0.output ≡ result.output))
  execute_success_iff = elim (Fallible-cases (decode_string code)) [
    | inr (e, x) ↦
        let no = outcome_undecoded e x in (λ h. absurd (cc (no.1, h)), λ h. absurd (cc (no.0, h.2)))
    | inl (d, x) ↦ elim (Option-cases (sanitize_code match_string d normalized 10000)) [
      | inl good ↦ (
        λ h.
            let there = response_sent d x good in
            let (none_beside, none_in, same) =
              respond_success (execute_job normalized d)
                (sym (ap (λ (o : CompilerResponse). o.success) there) ∙ h) in
            (
              d,
              (execute_job normalized d).0,
              sent d x good,
              none_beside,
              none_in,
              ap (λ (o : CompilerResponse). o.output) there ∙ same,
            ),
        λ h. success_of_answer h.0 h.1 h.2 h.3 h.4,
      )
      | inr (e, bad) ↦
          let no = outcome_refused d x (λ n. cc (n, bad)) in
          (λ h. absurd (cc (no.1, h)), λ h. absurd (cc (no.0, h.2)))
    ]
  ]
