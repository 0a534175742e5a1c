-- ===== src/Worker/Backend/Progress.antt =====
-- Why a pool of workers comes to an end: some worker has a job or waits for one, and what the workers
-- have before them can be counted. `job_of` is the job that a worker has.
use code_execution_engine.Common.{
  ℕ, zero, suc, ◌+◌, ◌≤◌, ◌≡◌, ◌∙◌, refl, sym, ap, ◌⊎◌, inl, inr, Bool, true, Bool-cases, List, [],
  ◌∷◌, Option, none, some, Option-cases, eq_of_some-eq, get_elem?, set, count_if, arith,
}
use code_execution_engine.Worker.Backend.Crew.{at_work, with_job}

module _ {W : Type 0} (steps_of : W → ℕ) where
  abbrev pub sum_steps : List W → ℕ
  sum_steps [] = 0
  sum_steps (w ∷ ws) = steps_of w + sum_steps ws

  pub sum_steps-set :
      (ws : List W) (i : ℕ) (w w' : W)
      → get_elem? ws i ≡ some w
      → sum_steps (set ws i w') + steps_of w ≡ sum_steps ws + steps_of w'
  sum_steps-set [] i w w' e = absurd (cc e)
  sum_steps-set (v ∷ ws) zero w w' e = omega (arith, ap steps_of (eq_of_some-eq e))
  sum_steps-set (v ∷ ws) (suc i) w w' e = omega (arith, sum_steps-set ws i w w' e)

module _ {W J : Type 0} (job_of : W → Option J) where
  -- A worker has a job.
  abbrev pub IsBusy : List W → Type 0
  IsBusy ws = (i : ℕ) × (w : W) × (job : J) × (get_elem? ws i ≡ some w) × (job_of w ≡ some job)

  IsBusy-cases : (ws : List W) → IsBusy ws ⊎ (at_work job_of ws ≡ [])
  IsBusy-cases [] = inr refl
  IsBusy-cases (w ∷ ws) = elim (Option-cases (job_of w)) [
    | inr (job, e) ↦ inl (0, w, job, refl, e)
    | inl e ↦ elim (IsBusy-cases ws) [
      | inl (i, v, job, at, f) ↦ inl (suc i, v, job, at, f)
      | inr none_busy ↦ inr (ap (λ o. with_job o (at_work job_of ws)) e ∙ none_busy)
    ]
  ]

  module _ (is_there : W → Bool) (waiting : W)
      (free : (w : W) → is_there w ≡ true → job_of w ≡ none → w ≡ waiting) where
    -- Where nobody has a job, and somebody has not returned, somebody waits.
    someone_waits :
        (ws : List W)
        → at_work job_of ws ≡ []
        → 1 ≤ count_if is_there ws
        → (i : ℕ) × (get_elem? ws i ≡ some waiting)
    someone_waits [] e h = absurd (omega arith)
    someone_waits (w ∷ ws) e h = elim (Option-cases (job_of w)) [
      | inr (job, f) ↦ absurd (cc (f, e))
      | inl f ↦
          let rest = sym (ap (λ o. with_job o (at_work job_of ws)) f) ∙ e in
          elim (Bool-cases (is_there w)) [
            | inl c ↦ (0, ap some (free w c f))
            | inr c ↦ let (i, at) = someone_waits ws rest (ground arith) in (suc i, at)
          ]
    ]

    -- Some worker has a job; or nobody has one, and some worker waits.
    pub crew-cases :
        (ws : List W)
        → 1 ≤ count_if is_there ws
        → IsBusy ws ⊎ ((at_work job_of ws ≡ []) × (i : ℕ) × (get_elem? ws i ≡ some waiting))
    crew-cases ws h = elim (IsBusy-cases ws) [
      | inl busy ↦ inl busy
      | inr none_busy ↦ let (i, at) = someone_waits ws none_busy h in inr (none_busy, i, at)
    ]
