-- ===== src/Service.antt =====
-- service/service.go. Parameters: `unicode_lower`, strings.ToLower on a text with bytes that are
-- not ASCII; `decode_string`, base64.StdEncoding.DecodeString; `match_string`, regexp.MatchString;
-- `execute_job`, the call of the worker pool; `elapsed`, the time since the start as it is printed.
pub mod Language
pub mod Requests
pub mod DockerBackend
pub mod FirecrackerBackend
mod Tests
use code_execution_engine.Common.{
  ℕ, ◌+◌, Bool, true, false, ◌&&◌, ◌||◌, List, [], ◌∷◌, Option, none, some, String, Text, Fallible,
  ok, err, codes, contains, map, ltb, leb, if◌then◌else◌,
}
use code_execution_engine.Internal.Sanitize.{Error, sanitize_code, error_text}
use code_execution_engine.Worker.{Result}

pub record CompilerResponse : Type 0 where
  pub output : Text
  pub error : Text
  pub status_message : Text
  pub success : Bool
  pub execution_time : Text

abbrev pub is_ascii : Text → Bool
is_ascii [] = true
is_ascii (c ∷ s) = ltb c 128 && is_ascii s

-- `strings.ToLower` on one ASCII byte.
unfoldable pub lower_ascii : ℕ → ℕ
lower_ascii c = if leb b'A' c && leb c b'Z' then c + 32 else c

unfoldable pub to_lower : (Text → Text) → Text → Text
to_lower unicode_lower s = if is_ascii s then map lower_ascii s else unicode_lower s

-- The `switch` of `normalizeLanguage`, on the lowered name.
unfoldable pub match_language : Text → Text
match_language lang =
    if contains lang (codes "py")
    then codes "python"
    else if contains lang (codes "js")
    then codes "js"
    else if contains lang (codes "go")
    then codes "go"
    else if contains lang (codes "c")
    then codes "cpp"
    else lang

unfoldable pub normalize_language : (Text → Text) → Text → Text
normalize_language unicode_lower lang = match_language (to_lower unicode_lower lang)

abbrev pub failed : Text → Text → CompilerResponse
failed error status = record {
  output = [];
  error = error;
  status_message = status;
  success = false;
  execution_time = [];
}

module _ (unicode_lower : Text → Text) (decode_string : Text → Fallible Text)
    (match_string : String → Text → Option Bool) (execute_job : Text → Text → Result × Option Text)
    (elapsed : Text) where
  -- The response to what the pool returns.
  unfoldable pub respond : Result × Option Text → CompilerResponse
  respond (result, some e) = failed e (codes "Failed to execute code")
  respond (result, none) = elim result.error [
    | some e ↦ record (failed e (codes "Failed to execute code")) { output = result.output }
    | none ↦ record {
      output = result.output;
      error = [];
      status_message = codes "Success";
      success = true;
      execution_time = elapsed;
    }
  ]

  -- The part of `Execute` behind the decoding.
  unfoldable pub execute_decoded : Text → Text → CompilerResponse × List (Text × Text)
  execute_decoded language decoded = elim (sanitize_code match_string decoded language 10000) [
    | some e ↦ (failed (error_text e) (error_text e), [])
    | none ↦ (respond (execute_job language decoded), (language, decoded) ∷ [])
  ]

  -- `Execute`: the response, and the jobs that were handed to the pool.
  unfoldable pub execute : Text → Text → CompilerResponse × List (Text × Text)
  execute code language = elim (decode_string code) [
    | err e ↦ (failed e (codes "Failed to decode base64"), [])
    | ok decoded ↦ execute_decoded (normalize_language unicode_lower language) decoded
  ]
