-- ===== src/Internal/Sanitize/Tests.antt =====
-- The sanitizer on short programs, with a plain substring search in the place of regexp.
use code_execution_engine.Common.{
  arith, ◌≡◌, refl, ◌↔◌, Bool, false, [], Option, none, some, String, Text, codes, contains,
  has_prefix, same, lookup, decimal,
}
use code_execution_engine.Internal.Sanitize.Patterns.{
  common_patterns, python_patterns, dangerous_patterns,
}
use code_execution_engine.Internal.Sanitize.{
  has_matching_pattern, sanitize_code, too_long, error_text, prohibited,
}
use code_execution_engine.Internal.Sanitize.Acceptance.{IsAcceptable, sanitize_code-eq-none_iff}
use code_execution_engine.Internal.Sanitize.Order.{sanitize_code_errors}

abbrev substring : String → Text → Option Bool
substring p s = some (contains s (codes p))

abbrev silent : String → Text → Option Bool
silent p s = none

abbrev never : String → Text → Option Bool
never p s = some false

abbrev greeting : Text
greeting = codes "print(1)"

accepts_greeting : sanitize_code substring greeting (codes "python") 10000 ≡ none
unfolding sanitize_code dangerous_patterns common_patterns python_patterns lookup
    has_matching_pattern contains has_prefix same
accepts_greeting = refl

names_fork_bombs :
    sanitize_code substring (codes "pthread_create") (codes "cpp") 10000
    ≡ some (
        prohibited (record {
          name = codes "forkBombs";
          description = codes "Fork bomb attacks";
          patterns = [];
        }))
unfolding sanitize_code dangerous_patterns common_patterns has_matching_pattern contains has_prefix
    prohibited
names_fork_bombs = refl

too_long_text :
    error_text (too_long 10000)
    ≡ codes "Code length exceeds maximum limit: Max length allowed is 10000"
unfolding error_text too_long decimal
too_long_text = refl

sanitize_code-eq-none_iff_example :
    (sanitize_code substring greeting (codes "python") 10000 ≡ none)
    ↔ IsAcceptable substring greeting (codes "python") 10000
sanitize_code-eq-none_iff_example =
    sanitize_code-eq-none_iff substring greeting (codes "python") 10000

sanitize_code_errors_example : sanitize_code substring greeting (codes "go") 2 ≡ some (too_long 2)
sanitize_code_errors_example =
    (sanitize_code_errors substring greeting (codes "go") 2).0 (omega arith)
