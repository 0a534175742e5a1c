-- ===== src/Internal/Sanitize.antt =====
-- internal/sanitize.go. Package regexp is a parameter: `match_string pattern code` is
-- `regexp.MatchString`, with `none` for a pattern that does not compile. A Go string is its bytes.
pub mod Patterns
pub mod Acceptance
pub mod Order
mod Tests
use code_execution_engine.Common.{
  ℕ, Bool, true, false, List, [], ◌∷◌, ◌++◌, Option, none, some, String, Text, codes, decimal, ltb,
  length, lookup, if◌then◌else◌,
}
use Patterns.{PatternCategory, LanguagePatterns, dangerous_patterns}

pub record SanitizationError : Type 0 where
  pub message : Text
  pub details : Text

-- What the Go `error` of this package can be.
pub data Error : Type 0 where
  sanitization : SanitizationError → Error
  unsupported_language : Text → Error

-- The method `Error`.
unfoldable pub error_text : Error → Text
error_text (sanitization e) = e.message ++ codes ": " ++ e.details
error_text (unsupported_language language) = codes "unsupported language: " ++ language

abbrev pub is_match : Option Bool → Bool
is_match none = false
is_match (some matched) = matched

unfoldable pub too_long : ℕ → Error
too_long max = sanitization (record {
  message = codes "Code length exceeds maximum limit";
  details = codes "Max length allowed is " ++ decimal max;
})

unfoldable pub prohibited : PatternCategory → Error
prohibited c = sanitization (record {
  message = codes "Prohibited operation detected: " ++ c.name;
  details = c.description;
})

unfoldable pub prohibited_in : Text → PatternCategory → Error
prohibited_in language c = sanitization (record {
  message = codes "Prohibited " ++ (language ++ (codes " operation detected: " ++ c.name));
  details = c.description;
})

module _ (match_string : String → Text → Option Bool) where
  unfoldable pub has_matching_pattern : List String → Text → Bool
  has_matching_pattern [] code = false
  has_matching_pattern (p ∷ ps) code =
      if is_match (match_string p code) then true else has_matching_pattern ps code

  -- The two loops over categories: the first that has a matching pattern.
  unfoldable pub first_match : List PatternCategory → Text → Option PatternCategory
  first_match [] code = none
  first_match (c ∷ cs) code =
      if has_matching_pattern c.patterns code then some c else first_match cs code

  -- The check against the patterns of the language.
  unfoldable pub sanitize_language : Text → Text → Option Error
  unfolding first_match
  sanitize_language code language = elim (lookup language dangerous_patterns.language) [
    | none ↦ some (unsupported_language language)
    | some categories ↦ elim (first_match categories code) [
      | some c ↦ some (prohibited_in language c)
      | none ↦ none
    ]
  ]

  -- `SanitizeCode`; `none` is the nil error.
  unfoldable pub sanitize_code : Text → Text → ℕ → Option Error
  unfolding first_match sanitize_language
  sanitize_code code language max =
      if ltb max (length code)
      then some (too_long max)
      else elim (first_match dangerous_patterns.common code) [
        | some c ↦ some (prohibited c)
        | none ↦ sanitize_language code language
      ]
