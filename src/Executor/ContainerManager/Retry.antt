-- ===== src/Executor/ContainerManager/Retry.antt =====
-- The rounds of GetAvailableContainer of executor/container_manager.go: what a container that it
-- returns is, and what its failure means.
use mathlib.Core.Path.{subst}
use code_execution_engine.Common.{
  All-IsRange, IsRange, has, length, ◌∙◌, ◌≡◌, ◌≢◌, refl, zero, suc, ℕ, ◌+◌, ◌<◌, List, none, some,
  Text, same, same_iff, sym, true, false, Option-cases, ok, err, All, arith, inl, inr,
}
use code_execution_engine.Executor.ContainerManager.{
  ContainerManager, idle, busy, assign, retry, get_available_container, max_retries,
}
use code_execution_engine.Executor.ContainerManager.Assignment.{state_of, assign-some, assign-none}

-- What a round before the `k`-th sees, where none of the rounds before it assigned anything.
abbrev pub seen_by :
    (ℕ → ContainerManager → ContainerManager) → ℕ → ContainerManager → ℕ → ContainerManager
seen_by meanwhile i cm zero = meanwhile i cm
seen_by meanwhile i cm (suc k) = seen_by meanwhile (suc i) (meanwhile i cm) k

retry_stop :
    (n i : ℕ) (meanwhile : ℕ → ContainerManager → ContainerManager) (orders : ℕ → List Text)
    (cm cm' : ContainerManager) (id : Text)
    → assign (meanwhile i cm) (orders i) ≡ some (id, cm')
    → retry (suc n) i meanwhile orders cm ≡ (cm', ok id)
unfolding retry
retry_stop n i meanwhile orders cm cm' id e = rw (e, retry) refl

retry_next :
    (n i : ℕ) (meanwhile : ℕ → ContainerManager → ContainerManager) (orders : ℕ → List Text)
    (cm : ContainerManager)
    → assign (meanwhile i cm) (orders i) ≡ none
    → retry (suc n) i meanwhile orders cm ≡ retry n (suc i) meanwhile orders (meanwhile i cm)
unfolding retry
retry_next n i meanwhile orders cm e = rw (e, retry) refl

retry_first :
    (n i : ℕ) (meanwhile : ℕ → ContainerManager → ContainerManager) (orders : ℕ → List Text)
    (cm cm' : ContainerManager) (e : Text)
    → retry (suc n) i meanwhile orders cm ≡ (cm', err e)
    → assign (meanwhile i cm) (orders i) ≡ none
retry_first n i meanwhile orders cm cm' e h =
    elim (Option-cases (assign (meanwhile i cm) (orders i))) [
      | inl w ↦ w
      | inr ((id, c), w) ↦ absurd (cc (retry_stop n i meanwhile orders cm c id w, h))
    ]

retry_err :
    (n i : ℕ) (meanwhile : ℕ → ContainerManager → ContainerManager) (orders : ℕ → List Text)
    (cm cm' : ContainerManager) (e : Text)
    → retry n i meanwhile orders cm ≡ (cm', err e)
    → (k : ℕ) → k < n
    → All (λ id. state_of (seen_by meanwhile i cm k) id ≢ some idle) (orders (k + i))
retry_err zero i meanwhile orders cm cm' e h k l = absurd (omega arith)
retry_err (suc n) i meanwhile orders cm cm' e h zero l =
    subst (λ j. All (λ id. state_of (meanwhile i cm) id ≢ some idle) (orders j)) (omega arith)
      (assign-none (meanwhile i cm) (orders i) (retry_first n i meanwhile orders cm cm' e h))
retry_err (suc n) i meanwhile orders cm cm' e h (suc k) l =
    subst (λ j. All (λ id. state_of (seen_by meanwhile i cm (suc k)) id ≢ some idle) (orders j))
      (omega arith)
      (retry_err n (suc i) meanwhile orders (meanwhile i cm) cm' e
        (sym (retry_next n i meanwhile orders cm (retry_first n i meanwhile orders cm cm' e h)) ∙ h)
        k (omega arith))

retry_ok :
    (n i : ℕ) (meanwhile : ℕ → ContainerManager → ContainerManager) (orders : ℕ → List Text)
    (cm cm' : ContainerManager) (id : Text)
    → retry n i meanwhile orders cm ≡ (cm', ok id)
    → state_of cm' id ≡ some busy
unfolding retry
retry_ok zero i meanwhile orders cm cm' id h = absurd (cc h)
retry_ok (suc n) i meanwhile orders cm cm' id h =
    elim (Option-cases (assign (meanwhile i cm) (orders i))) [
      | inl w ↦
          retry_ok n (suc i) meanwhile orders (meanwhile i cm) cm' id
            (sym (retry_next n i meanwhile orders cm w) ∙ h)
      | inr ((j, c), w) ↦ ground (
        arith,
        retry_stop n i meanwhile orders cm c j w,
        (assign-some (meanwhile i cm) c (orders i) j w).1 j,
        same_iff j j,
      )
    ]

has-idle :
    (cm : ContainerManager) (id : Text) → state_of cm id ≡ some idle → has cm.containers id ≡ true
has-idle cm id h = ground arith

-- GetAvailableContainer fails only if none of its ten rounds had an idle container in the pool, each
-- in the pool as the others had left it by then. The order of each round is a range over that pool.
pub get_available_container_err :
    (meanwhile : ℕ → ContainerManager → ContainerManager) (orders : ℕ → List Text)
    (cm cm' : ContainerManager) (e : Text)
    → get_available_container meanwhile orders cm ≡ (cm', err e)
    → (k : ℕ) → k < 10
    → IsRange (seen_by meanwhile 0 cm k).containers (orders k)
    → length (orders k) ≡ length (seen_by meanwhile 0 cm k).containers
    → (id : Text) → state_of (seen_by meanwhile 0 cm k) id ≢ some idle
unfolding get_available_container
get_available_container_err meanwhile orders cm cm' e h k l r all id i =
    All-IsRange (λ j. state_of (seen_by meanwhile 0 cm k) j ≢ some idle)
      (seen_by meanwhile 0 cm k).containers (orders k) id r all
      (has-idle (seen_by meanwhile 0 cm k) id i)
      (subst (λ n. All (λ j. state_of (seen_by meanwhile 0 cm k) j ≢ some idle) (orders n))
        (omega arith) (retry_err max_retries 0 meanwhile orders cm cm' e h k l))
      i

-- A container that GetAvailableContainer returns is busy in the pool that it leaves, so that no
-- round that follows assigns it.
pub get_available_container_ok :
    (meanwhile : ℕ → ContainerManager → ContainerManager) (orders : ℕ → List Text)
    (cm cm' cm'' : ContainerManager) (id j : Text) (order : List Text)
    → get_available_container meanwhile orders cm ≡ (cm', ok id)
    → assign cm' order ≡ some (j, cm'')
    → (state_of cm' id ≡ some busy) × (same id j ≡ false)
unfolding get_available_container
get_available_container_ok meanwhile orders cm cm' cm'' id j order h k =
    (is_busy, ground (arith, is_busy, (assign-some cm' cm'' order j k).0, same_iff id j))
  where
    is_busy : state_of cm' id ≡ some busy
    is_busy = retry_ok max_retries 0 meanwhile orders cm cm' id h
