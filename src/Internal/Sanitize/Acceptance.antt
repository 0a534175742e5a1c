-- ===== src/Internal/Sanitize/Acceptance.antt =====
-- Which code SanitizeCode lets through.
use code_execution_engine.Common.{
  ℕ, ◌≤◌, ◌≡◌, ◌≢◌, ◌↔◌, ◌⊎◌, inl, inr, Bool, true, false, List, [], ◌∷◌, Option, none, some,
  String, Text, codes, arith, length, lookup, same_iff, All, Option-cases,
}
use code_execution_engine.Internal.Sanitize.Patterns.{PatternCategory, dangerous_patterns}
use code_execution_engine.Internal.Sanitize.{has_matching_pattern, first_match, sanitize_code}

-- The languages that have patterns of their own.
abbrev pub IsKnown : Text → Type 0
IsKnown language =
    (language ≡ codes "python")
    ⊎ (language ≡ codes "go")
    ⊎ (language ≡ codes "js")
    ⊎ (language ≡ codes "cpp")

pub lookup-IsKnown :
    (language : Text) → (lookup language dangerous_patterns.language ≢ none) ↔ IsKnown language
unfolding lookup dangerous_patterns
lookup-IsKnown language = ground (
  arith,
  same_iff (codes "python") language,
  same_iff (codes "go") language,
  same_iff (codes "js") language,
  same_iff (codes "cpp") language,
)

module _ (match_string : String → Text → Option Bool) (code : Text) where
  -- No pattern of the category compiles and matches.
  abbrev pub IsHarmless : PatternCategory → Type 0
  IsHarmless c = All (λ p. match_string p code ≢ some true) c.patterns

  no_match_iff :
      (ps : List String)
      → (has_matching_pattern match_string ps code ≡ false)
        ↔ All (λ p. match_string p code ≢ some true) ps
  unfolding has_matching_pattern
  no_match_iff [] = ground arith
  no_match_iff (p ∷ ps) = ground (arith, no_match_iff ps)

  pub first_match-eq-none_iff :
      (cs : List PatternCategory) → (first_match match_string cs code ≡ none) ↔ All IsHarmless cs
  unfolding first_match
  first_match-eq-none_iff [] = ground arith
  first_match-eq-none_iff (c ∷ cs) =
      ground (arith, no_match_iff c.patterns, first_match-eq-none_iff cs)

  abbrev pub IsAcceptable : Text → ℕ → Type 0
  IsAcceptable language max =
      (length code ≤ max)
      × All IsHarmless dangerous_patterns.common
      × (cs : List PatternCategory) × (lookup language dangerous_patterns.language ≡ some cs)
      × All IsHarmless cs

  accepted :
      (language : Text) (max : ℕ)
      → sanitize_code match_string code language max ≡ none
      → IsAcceptable language max
  unfolding sanitize_code
  accepted language max h = elim (Option-cases (lookup language dangerous_patterns.language)) [
    | inl e ↦ absurd (ground arith)
    | inr (cs, e) ↦ (
      ground arith,
      ground (arith, first_match-eq-none_iff dangerous_patterns.common),
      cs,
      e,
      ground (arith, first_match-eq-none_iff cs),
    )
  ]

  acceptable :
      (language : Text) (max : ℕ)
      → IsAcceptable language max
      → sanitize_code match_string code language max ≡ none
  unfolding sanitize_code
  acceptable language max (short, common, cs, e, own) =
      ground (arith, first_match-eq-none_iff dangerous_patterns.common, first_match-eq-none_iff cs)

  -- SanitizeCode returns no error exactly when the code is no longer than the limit, no pattern
  -- common to all languages matches it, the language has patterns of its own, and none of those
  -- matches it either.
  pub sanitize_code-eq-none_iff :
      (language : Text) (max : ℕ)
      → (sanitize_code match_string code language max ≡ none) ↔ IsAcceptable language max
  sanitize_code-eq-none_iff language max = (accepted language max, acceptable language max)

  -- Code that SanitizeCode lets through is in Python, Go, JavaScript or C++.
  pub sanitize_code-IsKnown :
      (language : Text) (max : ℕ)
      → sanitize_code match_string code language max ≡ none
      → IsKnown language
  sanitize_code-IsKnown language max h =
      let (_, _, cs, e, _) = accepted language max h in (lookup-IsKnown language).0 (ground arith)
