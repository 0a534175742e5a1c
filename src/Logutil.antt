-- ===== src/Logutil.antt =====
-- logutil/logutil.go: the entry that `Log` prints, as JSON, which is a parameter. `caller` is what
-- runtime.Caller gives. `A` are the values of the attributes.
pub mod Base
mod Tests
use code_execution_engine.Common.{
  ℕ, zero, suc, ◌-◌, List, [], ◌∷◌, ◌++◌, Option, none, some, Text, codes, decimal, same, length,
  drop, get_elem?, ◌==◌, Bool, true, false, if◌then◌else◌,
}

pub record Entry (A : Type 0) : Type 0 where
  pub timestamp : Text
  pub level : Text
  pub service : Text
  pub trace_id : Text
  pub message : Text
  pub attributes : Option (List (Text × A))
  pub layer : Text
  pub error : Text
  pub caller : Text

abbrev pub is_slash : Option ℕ → Bool
is_slash none = false
is_slash (some c) = c == 47

-- The loop from index `i` down to 1.
unfoldable pub short_from : Text → ℕ → Text
short_from file zero = file
short_from file (suc i) =
    if is_slash (get_elem? file (suc i)) then drop (suc (suc i)) file else short_from file i

unfoldable pub short : Text → Text
short file = short_from file (length file - 1)

abbrev text_of : Option Text → Text
text_of none = []
text_of (some e) = e

unfoldable pub caller_of : Option (Text × ℕ) → Text
caller_of none = []
caller_of (some (file, line)) = short file ++ codes ":" ++ decimal line

-- `Log`, with the line that it prints.
unfoldable pub log :
    {A : Type 0}
    → (Entry A → Text)
    → Text
    → Text
    → Option (Text × ℕ)
    → Text
    → Text
    → Text
    → Option (List (Text × A))
    → Text
    → Option Text
    → Option Text
log to_json service now caller level trace_id message attributes layer e =
    if same trace_id []
    then none
    else some (
        to_json (record {
          timestamp = now;
          level = level;
          service = service;
          trace_id = trace_id;
          message = message;
          attributes = attributes;
          layer = layer;
          error = text_of e;
          caller = caller_of caller;
        }))
