-- ===== src/Logger.antt =====
-- logger/zap_betterstack.go. zap's logger is a list of what it is told and a parameter, `zap_ends`: at
-- which levels its `Log` does not return, as zap documents of PanicLevel (a panic) and FatalLevel (an
-- exit), and of DPanicLevel in zap's own development mode. Its `Error` returns. JSON, the file, the
-- making of a request and the HTTP client are parameters. `A` are the values of the attributes.
pub mod Crashes
mod Tests
use code_execution_engine.Common.{
  ℕ, Bool, true, false, not, List, [], ◌∷◌, ◌++◌, Option, none, some, Text, codes, Fallible, ok,
  err, same, ◌==◌, if◌then◌else◌,
}

-- The levels of zapcore, NoticeLevel, and any other number.
pub data Level : Type 0 where
  error warn info notice debug dpanic panic fatal other : Level

pub record LogEntry (A : Type 0) : Type 0 where
  pub timestamp : Text
  pub level : Text
  pub message : Text
  pub trace_id : Text
  pub layer : Text
  pub attributes : List (Text × A)

pub data Writer : Type 0 where
  app_log stderr : Writer

pub record BetterStackLogStreamer : Type 0 where
  pub source_token : Text
  pub environment : Text
  pub upload_url : Text
  pub has_client : Bool
  pub file_writer : Option Writer

pub record Request : Type 0 where
  pub url : Text
  pub content_type : Text
  pub authorization : Text
  pub body : Text

-- What becomes visible: an error at zap's logger, the entry there, a write, a request, the panic of a
-- nil client, or that zap does not return.
pub data Effect : Type 0 where
  reports : Text → Effect
  logs : Level → Text → Effect
  writes : Option Writer → Text → Effect
  sends : Request → Effect
  panics : Effect
  ends : Effect

abbrev opened : Option Text → List Effect × Option Writer
opened (some e) = (reports (codes "Failed to open log file") ∷ [], some stderr)
opened none = ([], some app_log)

-- `NewBetterStackLogStreamer`, where opening the file ends with `file_error`.
unfoldable pub new_better_stack_log_streamer :
    Text → Text → Text → Option Text → List Effect × BetterStackLogStreamer
new_better_stack_log_streamer source_token environment upload_url file_error =
    let (effects, writer) =
      if same environment (codes "development") then opened file_error else ([], none) in
    (
      effects,
      record {
        source_token = source_token;
        environment = environment;
        upload_url = upload_url;
        has_client = same environment (codes "production");
        file_writer = writer;
      },
    )

unfoldable pub level_str : Level → Text
level_str error = codes "ERROR"
level_str warn = codes "WARN"
level_str info = codes "INFO"
level_str notice = codes "NOTICE"
level_str debug = codes "DEBUG"
level_str _ = codes "UNKNOWN"

abbrev or_empty {ℓ} : {A : Type ℓ} → Option (List A) → List A
or_empty none = []
or_empty (some xs) = xs

abbrev report_if {ℓ} : {B : Type ℓ} → Text → Option B → List Effect
report_if message none = []
report_if message (some e) = reports message ∷ []

-- The goroutine that sends: the answer is a status code.
abbrev of_answer : Fallible ℕ → List Effect
of_answer (err e) = reports (codes "Failed to send log to Better Stack") ∷ []
of_answer (ok code) =
    if code == 202 then [] else reports (codes "Unexpected response from Better Stack") ∷ []

unfoldable pub send_log : (Request → Fallible ℕ) → BetterStackLogStreamer → Request → List Effect
send_log client_do s req =
    if s.has_client then sends req ∷ of_answer (client_do req) else panics ∷ []

unfoldable pub request_of : BetterStackLogStreamer → Text → Request
request_of s body = record {
  url = s.upload_url;
  content_type = codes "application/json";
  authorization = codes "Bearer " ++ s.source_token;
  body = body;
}

abbrev pub log_entry :
    {A : Type 0} → Text → Level → Text → Text → Option (List (Text × A)) → Text → LogEntry A
log_entry now level trace_id message attributes layer = record {
  timestamp = now;
  level = level_str level;
  message = message;
  trace_id = trace_id;
  layer = layer;
  attributes = or_empty attributes;
}

-- `s.logger.Log`.
unfoldable pub zap_log : (Level → Bool) → Level → Text → List Effect
zap_log zap_ends level message = logs level message ∷ (if zap_ends level then ends ∷ [] else [])

module _ (zap_ends : Level → Bool) (write : Text → Option Text) (new_request : Text → Option Text)
    (client_do : Request → Fallible ℕ) where
  -- What `Log` does itself, and what the goroutine that it starts does when it is left to run.
  unfoldable pub deliver : BetterStackLogStreamer → Level → Text → Text → List Effect × List Effect
  deliver s level message body =
      if same s.environment (codes "development")
      then (
        writes s.file_writer (body ++ codes "\n")
            ∷ (report_if (codes "Failed to write log to file") (write (body ++ codes "\n"))
                ++ zap_log zap_ends level message),
        [],
      )
      else elim (new_request s.upload_url) [
        | some e ↦ (reports (codes "Failed to create HTTP request") ∷ [], [])
        | none ↦ (zap_log zap_ends level message, send_log client_do s (request_of s body))
      ]

  module _ {A : Type 0} (to_json : LogEntry A → Fallible Text) where
    unfoldable pub log :
        BetterStackLogStreamer
        → Text
        → Level
        → Text
        → Text
        → Option (List (Text × A))
        → Text
        → List Effect × List Effect
    log s now level trace_id message attributes layer =
        if same trace_id []
        then ([], [])
        else elim (to_json (log_entry now level trace_id message attributes layer)) [
          | err e ↦ (reports (codes "Failed to marshal log") ∷ [], [])
          | ok body ↦ deliver s level message body
        ]
