-- ===== src/Executor/WorkerPool/Pool/Holders.antt =====
-- The containers that the workers of executor/worker_pool.go hold, each from its assignment to the
-- end of the run.
use mathlib.Core.Path.{subst}
use code_execution_engine.Common.{
  ℕ, ◌≡◌, ◌≢◌, sym, ap, ◌∙◌, false, List, [], ◌∷◌, ◌++◌, Option, none, some, Text, same, same_iff,
  All, All-map, AllDifferent, get_elem?, set, arith, if◌then◌else◌,
}
use code_execution_engine.Executor.ContainerManager.{ContainerManager, idle, busy}
use code_execution_engine.Executor.ContainerManager.Assignment.{state_of}
use code_execution_engine.Executor.WorkerPool.Pool.{
  WorkerState, waiting, searching, found, running, returned,
}
use code_execution_engine.Worker.Backend.Crew.{at_work, at_work-split, with_job}

abbrev pub holder : WorkerState → Option Text
holder waiting = none
holder (searching job n) = none
holder (found job id) = some id
holder (running job id) = some id
holder returned = none

abbrev pub held : List WorkerState → List Text
held = at_work holder

module _ {ℓ κ} {A : Type ℓ} (P : A → Type κ) where
  All-insert : (x : A) (xs ys : List A) → P x → All P (xs ++ ys) → All P (xs ++ x ∷ ys)
  All-insert x [] ys p h = (p, h)
  All-insert x (z ∷ xs) ys p h = (h.0, All-insert x xs ys p h.1)

  All-delete : (x : A) (xs ys : List A) → All P (xs ++ x ∷ ys) → P x × All P (xs ++ ys)
  All-delete x [] ys h = h
  All-delete x (z ∷ xs) ys h = ((All-delete x xs ys h.1).0, (h.0, (All-delete x xs ys h.1).1))

pub All-map2 {ℓ κ} :
    {A : Type ℓ} (P Q R : A → Type κ)
    → ((x : A) → P x → Q x → R x)
    → (xs : List A) → All P xs
    → All Q xs
    → All R xs
All-map2 P Q R f [] h k = tt
All-map2 P Q R f (x ∷ xs) h k = (f x h.0 k.0, All-map2 P Q R f xs h.1 k.1)

same_sym : (a b : Text) → same a b ≡ false → same b a ≡ false
same_sym a b h = ground (arith, same_iff a b, same_iff b a)

AllDifferent-insert :
    (x : Text) (xs ys : List Text)
    → All (λ j. same x j ≡ false) (xs ++ ys)
    → AllDifferent (xs ++ ys)
    → AllDifferent (xs ++ x ∷ ys)
AllDifferent-insert x [] ys n d = (n, d)
AllDifferent-insert x (z ∷ xs) ys n d = (
  All-insert (λ j. same z j ≡ false) x xs ys (same_sym x z n.0) d.0,
  AllDifferent-insert x xs ys n.1 d.1,
)

AllDifferent-delete :
    (x : Text) (xs ys : List Text)
    → AllDifferent (xs ++ x ∷ ys)
    → All (λ j. same x j ≡ false) (xs ++ ys) × AllDifferent (xs ++ ys)
AllDifferent-delete x [] ys d = d
AllDifferent-delete x (z ∷ xs) ys d =
    let (p, q) = All-delete (λ j. same z j ≡ false) x xs ys d.0 in
    let (n, e) = AllDifferent-delete x xs ys d.1 in ((same_sym z x p, n), (q, e))

-- No container is held twice, and none that is held is idle.
abbrev pub IsExclusive : ContainerManager → List Text → Type 0
IsExclusive cm ids = AllDifferent ids × All (λ j. state_of cm j ≢ some idle) ids

-- A container does not become idle.
abbrev pub IsQuiet : ContainerManager → ContainerManager → Text → Type 0
IsQuiet cm cm' j = state_of cm j ≢ some idle → state_of cm' j ≢ some idle

module _ (cm cm' : ContainerManager) (ws : List WorkerState) where
  pub stay-IsExclusive :
      ((j : Text) → IsQuiet cm cm' j) → IsExclusive cm (held ws) → IsExclusive cm' (held ws)
  stay-IsExclusive q (d, s) = (d, All-map _ _ q (held ws) s)

  module _ (i : ℕ) (w w' : WorkerState) (at : get_elem? ws i ≡ some w) where
    pub keep-IsExclusive :
        holder w' ≡ holder w
        → ((j : Text) → IsQuiet cm cm' j)
        → IsExclusive cm (held ws)
        → IsExclusive cm' (held (set ws i w'))
    keep-IsExclusive e q h =
        let (before, after, p, r) = at_work-split holder ws i w at in
        subst (IsExclusive cm') (r ∙ sym (p w' ∙ ap (λ o. before ++ with_job o after) e))
          (stay-IsExclusive q h)

    pub take-IsExclusive :
        (id : Text)
        → holder w ≡ none
        → holder w' ≡ some id
        → state_of cm id ≡ some idle
        → ((j : Text) → state_of cm' j ≡ (if same id j then some busy else state_of cm j))
        → IsExclusive cm (held ws)
        → IsExclusive cm' (held (set ws i w'))
    take-IsExclusive id e e' free changed h =
        let (before, after, p, r) = at_work-split holder ws i w at in
        let (d, s) = subst (IsExclusive cm) (r ∙ ap (λ o. before ++ with_job o after) e) h in
        subst (IsExclusive cm') (sym (p w' ∙ ap (λ o. before ++ with_job o after) e')) (
          AllDifferent-insert id before after
              (All-map _ _ (λ j n. ground (arith, same_iff id j)) (before ++ after) s) d,
          All-insert (λ j. state_of cm' j ≢ some idle) id before after
              (ground (arith, changed id, same_iff id id))
              (All-map _ _ (λ j n. ground (arith, changed j)) (before ++ after) s),
        )

    pub release-IsExclusive :
        (id : Text)
        → holder w ≡ some id
        → holder w' ≡ none
        → ((j : Text) → same id j ≡ false → IsQuiet cm cm' j)
        → IsExclusive cm (held ws)
        → IsExclusive cm' (held (set ws i w'))
    release-IsExclusive id e e' q h =
        let (before, after, p, r) = at_work-split holder ws i w at in
        let (d, s) = subst (IsExclusive cm) (r ∙ ap (λ o. before ++ with_job o after) e) h in
        let (n, d') = AllDifferent-delete id before after d in
        subst (IsExclusive cm') (sym (p w' ∙ ap (λ o. before ++ with_job o after) e')) (
          d',
          All-map2 _ _ _ q (before ++ after) n
              (All-delete (λ j. state_of cm j ≢ some idle) id before after s).1,
        )
