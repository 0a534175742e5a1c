-- ===== src/Worker/Backend/Fifo.antt =====
-- What every backend promises that follows the interface: jobs start in the order in which they
-- were accepted, and each started job runs or is answered.
use mathlib.Core.List.{append_assoc}
use mathlib.Core.Path.{subst}
use code_execution_engine.Common.{
  ℕ, ◌≡◌, ◌+◌, ◌≤◌, refl, sym, ap, ◌∙◌, Bool, List, [], ◌∷◌, ◌++◌, length, length-append, All,
  All-append, count_if, count_if-append, arith,
}
use code_execution_engine.Worker.Backend.{
  View, new_view, Step, accepts, starts, answers, Reach, here, next,
}

module _ {J R : Type 0} (channel : J → ℕ) (room : ℕ) (IsOutcome : J → R → Type 0) where
  -- A result is the outcome of a job, sent on the channel of that job.
  abbrev pub IsReply : ℕ × R → Type 0
  IsReply r = (job : J) × (r.0 ≡ channel job) × IsOutcome job r.1

  pub record IsFair (v : View J R) : Type 0 where
    pub in_order : v.accepted ≡ v.started ++ v.queue
    pub fits : length v.queue ≤ room
    pub counted :
        (p : ℕ → Bool)
        → count_if (λ (j : J). p (channel j)) v.started
          ≡ count_if (λ (j : J). p (channel j)) v.running
            + count_if (λ (r : ℕ × R). p r.0) v.results
    pub replies : All IsReply v.results

  new_view-IsFair : IsFair new_view
  new_view-IsFair = record {
    in_order = refl;
    fits = omega arith;
    counted = λ p. omega arith;
    replies = tt;
  }

  count_split :
      (p : ℕ → Bool) (before after : List J) (job : J)
      → count_if (λ (j : J). p (channel j)) (before ++ job ∷ after)
        ≡ count_if (λ (j : J). p (channel j)) (before ++ after)
          + count_if (λ (j : J). p (channel j)) (job ∷ [])
  count_split p before after job = omega (
    arith,
    count_if-append (λ (j : J). p (channel j)) before (job ∷ after),
    count_if-append (λ (j : J). p (channel j)) before after,
    count_if-append (λ (j : J). p (channel j)) (job ∷ []) after,
  )

  Step-IsFair : (v e : View J R) → Step channel room IsOutcome v e → IsFair v → IsFair e
  Step-IsFair v e (accepts job h q) f = subst IsFair (sym q) (record {
    in_order = ap (λ l. l ++ job ∷ []) f.in_order ∙ append_assoc v.started v.queue (job ∷ []);
    fits = omega (arith, length-append v.queue (job ∷ []));
    counted = f.counted;
    replies = f.replies;
  })
  Step-IsFair v e (starts job rest before after x y q) f = subst IsFair (sym q) (record {
    in_order =
        f.in_order ∙ ap (λ l. v.started ++ l) x ∙ sym (append_assoc v.started (job ∷ []) rest);
    fits = omega (arith, f.fits, ap length x);
    counted = λ p. omega (
      arith,
      f.counted p,
      count_split p before after job,
      count_if-append (λ (j : J). p (channel j)) v.started (job ∷ []),
      ap (count_if (λ (j : J). p (channel j))) y,
    );
    replies = f.replies;
  })
  Step-IsFair v e (answers job r before after y o q) f = subst IsFair (sym q) (record {
    in_order = f.in_order;
    fits = f.fits;
    counted = λ p. omega (
      arith,
      f.counted p,
      count_split p before after job,
      count_if-append (λ (s : ℕ × R). p s.0) v.results ((channel job, r) ∷ []),
      ap (count_if (λ (j : J). p (channel j))) y,
    );
    replies = All-append IsReply v.results _ f.replies ((job, refl, o), tt);
  })

  -- Whatever happens to a pool: the jobs that it accepted are those that it started, in the order of
  -- their acceptance, and then those still in the queue; the queue has room for them; the started
  -- jobs are those that run and those that were answered, once each; and every answer is an outcome
  -- of the job on whose channel it is sent.
  pub Reach-IsFair : {v e : View J R} → Reach channel room IsOutcome v e → IsFair v → IsFair e
  Reach-IsFair here f = f
  Reach-IsFair (next {e} {f = g} r s) f = Step-IsFair e g s (Reach-IsFair r f)

  pub Reach-IsFair_new : (e : View J R) → Reach channel room IsOutcome new_view e → IsFair e
  Reach-IsFair_new e r = Reach-IsFair r new_view-IsFair
