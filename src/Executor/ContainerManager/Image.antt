-- ===== src/Executor/ContainerManager/Image.antt =====
-- pullImageWithRetry of executor/container_manager.go. `pull i` is how the attempt `i` ends: with an
-- error, or not.
use mathlib.Core.Path.{subst}
use code_execution_engine.Common.{
  ℕ, zero, suc, ◌+◌, ◌<◌, ◌≡◌, Option, none, some, Option-cases, Text, arith, inl, inr,
}

-- The attempts that are left, from `i` on, after `last` error.
unfoldable pub pull_image : ℕ → ℕ → (ℕ → Option Text) → Option Text → Option Text
pull_image zero i pull last = last
pull_image (suc n) i pull last =
    let go_on = pull_image n (suc i) pull (pull i) in elim (pull i) [ none ↦ none | some e ↦ go_on ]

unfoldable pub pull_image_with_retry : (ℕ → Option Text) → Option Text
pull_image_with_retry pull = pull_image 5 0 pull none

pull_succeeds :
    (n i : ℕ) (pull : ℕ → Option Text) (last : Option Text) (k : ℕ)
    → k < n
    → pull (k + i) ≡ none
    → pull_image n i pull last ≡ none
unfolding pull_image
pull_succeeds zero i pull last k l h = absurd (omega arith)
pull_succeeds (suc n) i pull last zero l h = ground arith
pull_succeeds (suc n) i pull last (suc k) l h = elim (Option-cases (pull i)) [
  | inl e ↦ ground arith
  | inr (m, e) ↦
      rw (e, pull_image)
        (pull_succeeds n (suc i) pull (pull i) k (omega arith)
          (subst (λ j. pull j ≡ none) (omega arith) h))
]

-- One successful attempt of the five is enough.
pub pull_image_with_retry_succeeds :
    (pull : ℕ → Option Text) (k : ℕ) → k < 5 → pull k ≡ none → pull_image_with_retry pull ≡ none
unfolding pull_image_with_retry
pull_image_with_retry_succeeds pull k l h =
    pull_succeeds 5 0 pull none k l (subst (λ j. pull j ≡ none) (omega arith) h)
