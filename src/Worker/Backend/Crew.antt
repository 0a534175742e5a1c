-- ===== src/Worker/Backend/Crew.antt =====
-- Pools whose workers each have a job or none: the moves of such a pool, seen as steps of a backend.
-- `job_of` is the job that a worker has taken and not yet answered.
use code_execution_engine.Common.{
  ℕ, zero, suc, ◌≡◌, ◌<◌, refl, sym, ap, ◌∙◌, List, [], ◌∷◌, ◌++◌, Option, none, some, length,
  get_elem?, set, replicate, eq_of_some-eq, arith,
}
use code_execution_engine.Worker.Backend.{View, accepts, starts, answers, Reach, here, next}

abbrev pub with_job {ℓ} : {J : Type ℓ} → Option J → List J → List J
with_job none js = js
with_job (some j) js = j ∷ js

abbrev pub at_work {ℓ κ} : {W : Type ℓ} {J : Type κ} → (W → Option J) → List W → List J
at_work job_of [] = []
at_work job_of (w ∷ ws) = with_job (job_of w) (at_work job_of ws)

with_job-append {ℓ} :
    {J : Type ℓ} (o : Option J) (xs ys : List J) → with_job o xs ++ ys ≡ with_job o (xs ++ ys)
with_job-append none xs ys = refl
with_job-append (some j) xs ys = refl

module _ {W J : Type 0} (job_of : W → Option J) where
  pub at_work-split :
      (ws : List W) (i : ℕ) (w : W)
      → get_elem? ws i ≡ some w
      → (before : List J) × (after : List J) × ((w' : W)
          → at_work job_of (set ws i w') ≡ before ++ with_job (job_of w') after)
        × (at_work job_of ws ≡ before ++ with_job (job_of w) after)
  at_work-split [] i w e = absurd (cc e)
  at_work-split (v ∷ ws) zero w e = (
    [],
    at_work job_of ws,
    λ w'. refl,
    ap (λ u. with_job (job_of u) (at_work job_of ws)) (eq_of_some-eq e),
  )
  at_work-split (v ∷ ws) (suc i) w e =
      let (before, after, p, q) = at_work-split ws i w e in
      (
        with_job (job_of v) before,
        after,
        λ w'. ap (with_job (job_of v)) (p w') ∙ sym (with_job-append (job_of v) before _),
        ap (with_job (job_of v)) q ∙ sym (with_job-append (job_of v) before _),
      )

  pub at_work-replicate : (n : ℕ) (w : W) → job_of w ≡ none → at_work job_of (replicate n w) ≡ []
  at_work-replicate zero w e = refl
  at_work-replicate (suc n) w e =
      ap (λ o. with_job o (at_work job_of (replicate n w))) e ∙ at_work-replicate n w e

  module _ {R : Type 0} (channel : J → ℕ) (room : ℕ) (IsOutcome : J → R → Type 0) where
    -- What a view shows of a pool, by its queue, its workers and its answers.
    pub record Shows (js : List J) (ws : List W) (rs : List (ℕ × R)) (v : View J R) : Type 0 where
      pub in_queue : v.queue ≡ js
      pub busy : v.running ≡ at_work job_of ws
      pub sent : v.results ≡ rs

    -- From a view the backend reaches one that shows the pool.
    abbrev pub Follows : View J R → List J → List W → List (ℕ × R) → Type 0
    Follows v js ws rs = (u : View J R) × Reach channel room IsOutcome v u × Shows js ws rs u

    -- A job is put into the queue, which has room.
    pub accepted-Follows :
        (js : List J) (ws : List W) (rs : List (ℕ × R)) (v : View J R) (job : J)
        → Shows js ws rs v
        → length js < room
        → Follows v (js ++ job ∷ []) ws rs
    accepted-Follows js ws rs v job s h = (
      record v { queue = v.queue ++ job ∷ []; accepted = v.accepted ++ job ∷ [] },
      next here (accepts job (omega (arith, ap length s.in_queue)) refl),
      record { in_queue = ap (λ l. l ++ job ∷ []) s.in_queue; busy = s.busy; sent = s.sent },
    )

    -- A worker without a job takes the first of the queue.
    pub started-Follows :
        (js : List J) (ws : List W) (rs : List (ℕ × R)) (v : View J R) (job : J) (i : ℕ) (w w' : W)
        → Shows (job ∷ js) ws rs v
        → get_elem? ws i ≡ some w
        → job_of w ≡ none
        → job_of w' ≡ some job
        → Follows v js (set ws i w') rs
    started-Follows js ws rs v job i w w' s at e e' =
        let (before, after, p, q) = at_work-split ws i w at in
        (
          record v { queue = js; running = before ++ job ∷ after; started = v.started ++ job ∷ [] },
          next here (
              starts job js before after s.in_queue
                (s.busy ∙ q ∙ ap (λ o. before ++ with_job o after) e) refl),
          record {
            in_queue = refl;
            busy = sym (p w' ∙ ap (λ o. before ++ with_job o after) e');
            sent = s.sent;
          },
        )

    -- A worker answers its job.
    pub answered-Follows :
        (js : List J) (ws : List W) (rs : List (ℕ × R)) (v : View J R) (job : J) (r : R) (i : ℕ)
        (w w' : W)
        → Shows js ws rs v
        → get_elem? ws i ≡ some w
        → job_of w ≡ some job
        → job_of w' ≡ none
        → IsOutcome job r
        → Follows v js (set ws i w') (rs ++ (channel job, r) ∷ [])
    answered-Follows js ws rs v job r i w w' s at e e' o =
        let (before, after, p, q) = at_work-split ws i w at in
        (
          record v { running = before ++ after; results = v.results ++ (channel job, r) ∷ [] },
          next here (
              answers job r before after (s.busy ∙ q ∙ ap (λ o. before ++ with_job o after) e) o
                refl),
          record {
            in_queue = s.in_queue;
            busy = sym (p w' ∙ ap (λ o. before ++ with_job o after) e');
            sent = ap (λ l. l ++ (channel job, r) ∷ []) s.sent;
          },
        )

    -- A worker goes on and keeps its job, or stays without one: the view need not change.
    pub kept-Follows :
        (js : List J) (ws : List W) (rs : List (ℕ × R)) (v : View J R) (i : ℕ) (w w' : W)
        → Shows js ws rs v
        → get_elem? ws i ≡ some w
        → job_of w' ≡ job_of w
        → Follows v js (set ws i w') rs
    kept-Follows js ws rs v i w w' s at e =
        let (before, after, p, q) = at_work-split ws i w at in
        (
          v,
          here,
          record {
            in_queue = s.in_queue;
            busy = s.busy ∙ q ∙ sym (p w' ∙ ap (λ o. before ++ with_job o after) e);
            sent = s.sent;
          },
        )

    pub same-Follows :
        (js : List J) (ws : List W) (rs : List (ℕ × R)) (v : View J R)
        → Shows js ws rs v
        → Follows v js ws rs
    same-Follows js ws rs v s = (v, here, s)
