-- ===== src/Logger/Tests.antt =====
-- A streamer for staging, and the theorem at it.
use code_execution_engine.Common.{
  ℕ, ◌≡◌, ◌↔◌, ◌⊎◌, refl, Bool, true, false, List, [], ◌∷◌, Option, none, Text, codes, Fallible, ok,
  same,
}
use code_execution_engine.Logger.{
  Level, LogEntry, Request, Effect, logs, panics, ends, error, panic, fatal,
  new_better_stack_log_streamer, zap_log, deliver, send_log, log_entry, log,
}
use code_execution_engine.Logger.Crashes.{is_panic, is_end, has, both, log_stops_iff}

abbrev accepted : Request → Fallible ℕ
accepted req = ok 202

abbrev never : Text → Option Text
never text = none

abbrev message_only : LogEntry ℕ → Fallible Text
message_only entry = ok entry.message

-- zap outside of its development mode.
abbrev in_production : Level → Bool
in_production panic = true
in_production fatal = true
in_production _ = false

abbrev staging : Level → List Effect × List Effect
staging level =
    log in_production never never accepted message_only
      (new_better_stack_log_streamer (codes "token") (codes "staging") (codes "url") none).1
      (codes "now") level (codes "trace") (codes "lost") none (codes "service")

crashes : staging error ≡ (logs error (codes "lost") ∷ [], panics ∷ [])
unfolding log new_better_stack_log_streamer deliver zap_log send_log same
crashes = refl

both_stop : staging panic ≡ (logs panic (codes "lost") ∷ ends ∷ [], panics ∷ [])
unfolding log new_better_stack_log_streamer deliver zap_log send_log same
both_stop = refl

abbrev entry : LogEntry ℕ
entry = log_entry (codes "now") panic (codes "trace") (codes "lost") none (codes "service")

log_stops_iff_example :
    ((has is_panic (both (staging panic)) ≡ true)
      ↔ (same (codes "trace") [] ≡ false)
        × ((body : Text) × (message_only entry ≡ ok body))
        × (never (codes "url") ≡ none)
        × (same (codes "staging") (codes "development") ≡ false)
        × (same (codes "staging") (codes "production") ≡ false))
    × ((has is_end (both (staging panic)) ≡ true)
        ↔ (same (codes "trace") [] ≡ false)
          × ((body : Text) × (message_only entry ≡ ok body))
          × ((same (codes "staging") (codes "development") ≡ true) ⊎ (never (codes "url") ≡ none))
          × (in_production panic ≡ true))
log_stops_iff_example =
    log_stops_iff in_production accepted never never message_only (codes "token") (codes "staging")
      (codes "url") none (codes "now") panic (codes "trace") (codes "lost") none (codes "service")
