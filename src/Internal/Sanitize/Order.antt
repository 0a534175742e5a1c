-- ===== src/Internal/Sanitize/Order.antt =====
-- Which error SanitizeCode returns, and what it makes of patterns that do not compile.
use code_execution_engine.Common.{
  ℕ, ◌≤◌, ◌<◌, ◌≡◌, refl, inl, inr, Bool, true, List, [], ◌∷◌, ◌++◌, Option, none, some, String,
  Text, arith, Option-cases, length, lookup, All,
}
use code_execution_engine.Internal.Sanitize.Patterns.{PatternCategory, dangerous_patterns}
use code_execution_engine.Internal.Sanitize.{
  is_match, has_matching_pattern, first_match, sanitize_code, too_long, prohibited, prohibited_in,
  unsupported_language,
}
use code_execution_engine.Internal.Sanitize.Acceptance.{IsHarmless, first_match-eq-none_iff}

module _ (match_string : String → Text → Option Bool) (code : Text) where
  -- The category with a matching pattern that stands before all others that have one.
  pub record IsFirst (c : PatternCategory) (cs : List PatternCategory) : Type 0 where
    pub before : List PatternCategory
    pub after : List PatternCategory
    pub split : cs ≡ before ++ c ∷ after
    pub harmless : All (IsHarmless match_string code) before
    pub matching : has_matching_pattern match_string c.patterns code ≡ true

  first_match-append :
      (before after : List PatternCategory) (c : PatternCategory)
      → All (IsHarmless match_string code) before
      → has_matching_pattern match_string c.patterns code ≡ true
      → first_match match_string (before ++ c ∷ after) code ≡ some c
  unfolding first_match
  first_match-append [] after c a h = ground arith
  first_match-append (b ∷ bs) after c a h = ground (
    arith,
    first_match-append bs after c a.1 h,
    first_match-eq-none_iff match_string code (b ∷ []),
  )

  first_match-IsFirst :
      (c : PatternCategory) (cs : List PatternCategory)
      → IsFirst c cs
      → first_match match_string cs code ≡ some c
  first_match-IsFirst c cs f =
      rw f.split (first_match-append f.before f.after c f.harmless f.matching)

  -- Code over the limit is refused for its length, whatever it holds. Otherwise a common category
  -- with a matching pattern is named, the first such; otherwise an unknown language is reported;
  -- otherwise the first category of the language that has a matching pattern is named.
  pub sanitize_code_errors :
      (language : Text) (max : ℕ)
      → (max < length code → sanitize_code match_string code language max ≡ some (too_long max))
        × (length code ≤ max
            → ((c : PatternCategory)
                → IsFirst c dangerous_patterns.common
                → sanitize_code match_string code language max ≡ some (prohibited c))
              × (All (IsHarmless match_string code) dangerous_patterns.common
                  → (lookup language dangerous_patterns.language ≡ none
                      → sanitize_code match_string code language max
                        ≡ some (unsupported_language language))
                    × ((cs : List PatternCategory) (c : PatternCategory)
                        → lookup language dangerous_patterns.language ≡ some cs
                        → IsFirst c cs
                        → sanitize_code match_string code language max
                          ≡ some (prohibited_in language c))))
  unfolding sanitize_code
  sanitize_code_errors language max = (
    λ long. ground arith,
    λ short. (
      λ c f. ground (arith, first_match-IsFirst c dangerous_patterns.common f),
      λ common. (
        λ unknown.
            ground (arith, first_match-eq-none_iff match_string code dangerous_patterns.common),
        λ cs c e f. ground (
          arith,
          first_match-eq-none_iff match_string code dangerous_patterns.common,
          first_match-IsFirst c cs f,
        ),
      ),
    ),
  )

module _ (m m' : String → Text → Option Bool)
    (alike : (p : String) (s : Text) → is_match (m p s) ≡ is_match (m' p s)) where
  has_matching_pattern-alike :
      (ps : List String) (code : Text)
      → has_matching_pattern m ps code ≡ has_matching_pattern m' ps code
  unfolding has_matching_pattern
  has_matching_pattern-alike [] code = refl
  has_matching_pattern-alike (p ∷ ps) code =
      rw (alike p code) (rw (has_matching_pattern-alike ps code))

  first_match-alike :
      (cs : List PatternCategory) (code : Text) → first_match m cs code ≡ first_match m' cs code
  unfolding first_match
  first_match-alike [] code = refl
  first_match-alike (c ∷ cs) code =
      rw (has_matching_pattern-alike c.patterns code, first_match-alike cs code)

  -- A pattern that does not compile counts as one that does not match: two regexp engines that
  -- report a match for the same patterns and texts give the same verdicts, whichever patterns
  -- either of them refuses.
  pub sanitize_code-alike :
      (code language : Text) (max : ℕ)
      → sanitize_code m code language max ≡ sanitize_code m' code language max
  unfolding sanitize_code
  sanitize_code-alike code language max =
      let common = first_match-alike dangerous_patterns.common code in
      elim (Option-cases (lookup language dangerous_patterns.language)) [
        | inl e ↦ ground (arith, common)
        | inr (cs, e) ↦ ground (arith, common, first_match-alike cs code)
      ]
