-- ===== src/Worker/Backend/Pending.antt =====
-- The jobs that are queued or at a worker, in a pool whose workers each have a job or none.
use mathlib.Core.List.{append_assoc}
use mathlib.Core.List.Permᴰ.{Permᴰ}
use mathlib.Core.List.Permᴰ as Perm
use mathlib.Core.Path.{subst}
use code_execution_engine.Common.{
  ℕ, ◌≡◌, refl, sym, ap, ◌∙◌, Bool, List, [], ◌∷◌, ◌++◌, Option, none, some, get_elem?, set, All,
  count_if, arith,
}
use code_execution_engine.Worker.Backend.Crew.{at_work, at_work-split, with_job}

module _ {ℓ} {A : Type ℓ} where
  pub All-Permᴰ {κ} : (P : A → Type κ) {xs ys : List A} → Permᴰ xs ys → All P xs → All P ys
  All-Permᴰ P Permᴰ.nil h = h
  All-Permᴰ P (Permᴰ.cons e p) h = (subst P e h.0, All-Permᴰ P p h.1)
  All-Permᴰ P (Permᴰ.swap e f) h = (subst P f h.1.0, (subst P e h.0, h.1.1))
  All-Permᴰ P (Permᴰ.trans p q) h = All-Permᴰ P q (All-Permᴰ P p h)

  pub count_if-Permᴰ : (p : A → Bool) {xs ys : List A} → Permᴰ xs ys → count_if p xs ≡ count_if p ys
  count_if-Permᴰ p Permᴰ.nil = refl
  count_if-Permᴰ p (Permᴰ.cons e q) = ground (arith, count_if-Permᴰ p q, ap p e)
  count_if-Permᴰ p (Permᴰ.swap e f) = ground (arith, ap p e, ap p f)
  count_if-Permᴰ p (Permᴰ.trans q r) = count_if-Permᴰ p q ∙ count_if-Permᴰ p r

module _ {J : Type 0} where
  inner-Permᴰ :
      (js before after : List J) (job : J)
      → Permᴰ (js ++ (before ++ job ∷ after)) (job ∷ (js ++ (before ++ after)))
  inner-Permᴰ js before after job =
      subst (λ l. Permᴰ l (job ∷ (js ++ (before ++ after)))) (append_assoc js before (job ∷ after))
        (subst (λ l. Permᴰ ((js ++ before) ++ job ∷ after) (job ∷ l)) (append_assoc js before after)
          (Perm.middle job (js ++ before) after))

module _ {W J : Type 0} (job_of : W → Option J) where
  abbrev pub pending_of : List J → List W → List J
  pending_of js ws = js ++ at_work job_of ws

  pub queued-Permᴰ :
      (js : List J) (ws : List W) (job : J)
      → Permᴰ (pending_of (js ++ job ∷ []) ws) (job ∷ pending_of js ws)
  queued-Permᴰ js ws job =
      subst (λ l. Permᴰ l (job ∷ pending_of js ws))
        (sym (append_assoc js (job ∷ []) (at_work job_of ws)))
        (Perm.middle job js (at_work job_of ws))

  module _ (js : List J) (ws : List W) (i : ℕ) (w w' : W) (at : get_elem? ws i ≡ some w) where
    pub kept-Permᴰ : job_of w' ≡ job_of w → Permᴰ (pending_of js (set ws i w')) (pending_of js ws)
    kept-Permᴰ e =
        let (before, after, p, q) = at_work-split job_of ws i w at in
        subst (λ l. Permᴰ (js ++ l) (pending_of js ws))
          (sym (p w' ∙ ap (λ o. before ++ with_job o after) e ∙ sym q))
          (Perm.refl (pending_of js ws))

    -- The worker takes the first job of the queue.
    pub taken-Permᴰ :
        (job : J)
        → job_of w ≡ none
        → job_of w' ≡ some job
        → Permᴰ (pending_of js (set ws i w')) (pending_of (job ∷ js) ws)
    taken-Permᴰ job e e' =
        let (before, after, p, q) = at_work-split job_of ws i w at in
        subst (λ l. Permᴰ (js ++ l) (job ∷ (js ++ at_work job_of ws)))
          (sym (p w' ∙ ap (λ o. before ++ with_job o after) e'))
          (subst (λ l. Permᴰ (js ++ (before ++ job ∷ after)) (job ∷ (js ++ l)))
            (sym (q ∙ ap (λ o. before ++ with_job o after) e)) (inner-Permᴰ js before after job))

    -- The worker is done with its job.
    pub answered-Permᴰ :
        (job : J)
        → job_of w ≡ some job
        → job_of w' ≡ none
        → Permᴰ (pending_of js ws) (job ∷ pending_of js (set ws i w'))
    answered-Permᴰ job e e' =
        let (before, after, p, q) = at_work-split job_of ws i w at in
        subst (λ l. Permᴰ (js ++ at_work job_of ws) (job ∷ (js ++ l)))
          (sym (p w' ∙ ap (λ o. before ++ with_job o after) e'))
          (subst (λ l. Permᴰ (js ++ l) (job ∷ (js ++ (before ++ after))))
            (sym (q ∙ ap (λ o. before ++ with_job o after) e)) (inner-Permᴰ js before after job))
