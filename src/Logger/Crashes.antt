-- ===== src/Logger/Crashes.antt =====
-- When `Log` of logger/zap_betterstack.go does not come to its end: its client is nil, or zap does not
-- return.
use code_execution_engine.Common.{
  ℕ, ◌≡◌, ◌↔◌, refl, ◌⊎◌, Bool, true, false, not, ◌||◌, Bool-cases, Option-cases, Fallible-cases,
  List, [], ◌∷◌, ◌++◌, Option, none, some, Text, codes, Fallible, ok, err, same, arith, inl, inr,
}
use code_execution_engine.Logger.{
  Level, LogEntry, BetterStackLogStreamer, Request, Effect, panics, ends,
  new_better_stack_log_streamer, of_answer, send_log, request_of, zap_log, deliver, log_entry, log,
  report_if,
}

abbrev pub is_panic : Effect → Bool
is_panic panics = true
is_panic _ = false

abbrev pub is_end : Effect → Bool
is_end ends = true
is_end _ = false

abbrev pub has : (Effect → Bool) → List Effect → Bool
has p [] = false
has p (e ∷ es) = p e || has p es

has-append : (p : Effect → Bool) (xs ys : List Effect) → has p (xs ++ ys) ≡ (has p xs || has p ys)
has-append p [] ys = refl
has-append p (x ∷ xs) ys = ground (arith, has-append p xs ys)

-- What `Log` and its goroutine do.
abbrev pub both : List Effect × List Effect → List Effect
both (now, later) = now ++ later

-- No report is a panic or an end.
report_calm :
    (m : Text) (o : Option Text)
    → (has is_panic (report_if m o) ≡ false) × (has is_end (report_if m o) ≡ false)
report_calm m none = (refl, refl)
report_calm m (some e) = (refl, refl)

of_answer_calm :
    (a : Fallible ℕ) → (has is_panic (of_answer a) ≡ false) × (has is_end (of_answer a) ≡ false)
of_answer_calm (err e) = (refl, refl)
of_answer_calm (ok code) = ground arith

module _ (zap_ends : Level → Bool) where
  zap_log_lem :
      (level : Level) (message : Text)
      → (has is_panic (zap_log zap_ends level message) ≡ false)
        × (has is_end (zap_log zap_ends level message) ≡ zap_ends level)
  unfolding zap_log
  zap_log_lem level message = ground arith

  module _ (client_do : Request → Fallible ℕ) where
    send_log_lem :
        (s : BetterStackLogStreamer) (req : Request)
        → (has is_panic (send_log client_do s req) ≡ not s.has_client)
          × (has is_end (send_log client_do s req) ≡ false)
    unfolding send_log
    send_log_lem s req = elim (Bool-cases s.has_client) [
      | inl e ↦ rw e (of_answer_calm (client_do req))
      | inr e ↦ rw e (refl, refl)
    ]

    module _ (write : Text → Option Text) (new_request : Text → Option Text) where
      deliver_iff :
          (s : BetterStackLogStreamer) (level : Level) (message body : Text)
          → (has is_panic (both (deliver zap_ends write new_request client_do s level message body))
                ≡ true
              ↔ (same s.environment (codes "development") ≡ false)
                × (new_request s.upload_url ≡ none)
                × (s.has_client ≡ false))
            × (has is_end (both (deliver zap_ends write new_request client_do s level message body))
                  ≡ true
                ↔ ((same s.environment (codes "development") ≡ true)
                    ⊎ (new_request s.upload_url ≡ none))
                  × (zap_ends level ≡ true))
      unfolding deliver
      deliver_iff s level message body =
          let line = body ++ codes "\n" in
          let reported = report_if (codes "Failed to write log to file") (write line) in
          let zapped = zap_log zap_ends level message in
          let sent = send_log client_do s (request_of s body) in
          elim (Bool-cases (same s.environment (codes "development"))) [
            | inl e ↦ ground (
              arith,
              has-append is_panic (reported ++ zapped) [],
              has-append is_end (reported ++ zapped) [],
              has-append is_panic reported zapped,
              has-append is_end reported zapped,
              report_calm (codes "Failed to write log to file") (write line),
              zap_log_lem level message,
            )
            | inr e ↦ elim (Option-cases (new_request s.upload_url)) [
              | inl n ↦ ground (
                arith,
                has-append is_panic zapped sent,
                has-append is_end zapped sent,
                zap_log_lem level message,
                send_log_lem s (request_of s body),
              )
              | inr (m, n) ↦ ground arith
            ]
          ]

      module _ {A : Type 0} (to_json : LogEntry A → Fallible Text) where
        -- `Log` on a new streamer starts a goroutine that panics at a nil client, when it is left to
        -- run, exactly where the entry has a trace ID and becomes JSON, the request can be made, and
        -- the environment is neither "development" nor "production". And zap does not return to
        -- `Log` exactly where the level is one at which zap ends, the entry has a trace ID and
        -- becomes JSON, and the environment is "development" or the request can be made.
        pub log_stops_iff :
            (source_token environment upload_url : Text) (file_error : Option Text) (now : Text)
            (level : Level) (trace_id message : Text) (attributes : Option (List (Text × A)))
            (layer : Text)
            → let s =
                (new_better_stack_log_streamer source_token environment upload_url file_error).1 in
              let done = both (
                log zap_ends write new_request client_do to_json s now level trace_id message
                  attributes layer) in
              let body_of = to_json (log_entry now level trace_id message attributes layer) in
              ((has is_panic done ≡ true)
                ↔ (same trace_id [] ≡ false)
                  × ((body : Text) × (body_of ≡ ok body))
                  × (new_request upload_url ≡ none)
                  × (same environment (codes "development") ≡ false)
                  × (same environment (codes "production") ≡ false))
              × ((has is_end done ≡ true)
                  ↔ (same trace_id [] ≡ false)
                    × ((body : Text) × (body_of ≡ ok body))
                    × ((same environment (codes "development") ≡ true)
                        ⊎ (new_request upload_url ≡ none))
                    × (zap_ends level ≡ true))
        unfolding log new_better_stack_log_streamer
        log_stops_iff source_token environment upload_url file_error now level trace_id message
              attributes layer =
            let s =
              (new_better_stack_log_streamer source_token environment upload_url file_error).1 in
            elim (Bool-cases (same trace_id [])) [
              | inl e ↦ ground arith
              | inr e ↦
                  elim (Fallible-cases
                    (to_json (log_entry now level trace_id message attributes layer))) [
                      | inl (body, j) ↦ ground (arith, deliver_iff s level message body)
                      | inr (m, j) ↦ ground arith
                    ]
            ]
