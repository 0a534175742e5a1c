-- ===== src/Engine/Fits.antt =====
-- What holds of the calls of the handlers at every moment: whose job is where.
use mathlib.Core.Path.{subst}
use code_execution_engine.Common.{
  ℕ, ◌≤◌, ◌<◌, ◌≡◌, ◌⊎◌, inl, inr, Bool-cases, List, [], ◌∷◌, some, Option-cases, eq_of_some-eq,
  Text, length, set, All, All-map, All-set, ◌==◌, arith,
}
use code_execution_engine.Worker.{Job, Result}
use code_execution_engine.Worker.Backend.Interface.{Pool}
use code_execution_engine.Engine.{Subscription, idle, awaits, Engine, Call, nobody, collect}

pub All-collect :
    (P : ℕ × Result → Type 0) (c : ℕ) (mail rest : List (ℕ × Result)) (r : Result)
    → collect c mail ≡ some (r, rest)
    → All P mail
    → P (c, r) × All P rest
All-collect P c [] rest r h a = absurd (cc h)
All-collect P c ((d, s) ∷ mail) rest r h a = elim (Bool-cases (d == c)) [
  | inl e ↦
      let same : ◌≡◌ {A = Result × List (ℕ × Result)} (s, mail) (r, rest) =
        eq_of_some-eq (ground arith) in
      let here : d ≡ c = ground arith in
      subst (λ x. P (c, x.0) × All P x.1) same (subst (λ x. P (x, s)) here a.0, a.1)
  | inr e ↦ elim (Option-cases (collect c mail)) [
    | inl x ↦ absurd (ground arith)
    | inr ((t, ms), x) ↦
        let same : ◌≡◌ {A = Result × List (ℕ × Result)} (t, (d, s) ∷ ms) (r, rest) =
          eq_of_some-eq (ground arith) in
        let (b, k) = All-collect P c mail ms t x a.1 in
        subst (λ x. P (c, x.0) × All P x.1) same (b, (a.0, k))
  ]
]

module _ {S E C : Type 0} (p : Pool S E C) (handler : Text → Call) (c : C) where
  -- A call that ended: it handed over no job, or its job has the outcome that it was answered.
  abbrev pub IsRight : Text × List Text → Type 0
  IsRight (message, replies) =
      ((elapsed : Text) × ((handler elapsed nobody message).1 ≡ [])
        × (replies ≡ (handler elapsed nobody message).0))
      ⊎ ((elapsed elapsed' : Text) × (job : Job) × (rest : List (Text × Text)) × (r : Result)
          × ((handler elapsed nobody message).1 ≡ (job.language, job.code) ∷ rest)
          × p.IsOutcome c job r
          × (replies ≡ (handler elapsed' (λ _ _. p.reply r) message).0))

  abbrev pub IsAsked : ℕ → Subscription → Type 0
  IsAsked calls idle = Unit
  IsAsked calls (awaits message job) =
      (job.result < calls)
      × ((elapsed : Text) × (rest : List (Text × Text)) × ((handler elapsed nobody message).1
            ≡ (job.language, job.code) ∷ rest))

  -- The only job that waits on the channel of this one.
  abbrev pub IsAlone : Job → Subscription → Type 0
  IsAlone job idle = Unit
  IsAlone job (awaits message j) = j.result ≡ job.result → j ≡ job

  abbrev pub IsAnswer : ℕ × Result → Subscription → Type 0
  IsAnswer m idle = Unit
  IsAnswer m (awaits message job) = job.result ≡ m.0 → p.IsOutcome c job m.1

  abbrev pub IsPending : ℕ → List Subscription → Job → Type 0
  IsPending calls subs job = (job.result < calls) × All (IsAlone job) subs

  abbrev pub IsMailed : ℕ → List Subscription → ℕ × Result → Type 0
  IsMailed calls subs m = (m.0 < calls) × All (IsAnswer m) subs

  pub record IsFit (n : ℕ) (s : Engine S) : Type 0 where
    pub same_config : p.config s.pool ≡ c
    pub as_many : length s.subscriptions ≡ n
    pub pending : All (IsPending s.calls s.subscriptions) (p.pending s.pool)
    pub mail : All (IsMailed s.calls s.subscriptions) s.mail
    pub asked_for : All (IsAsked s.calls) s.subscriptions
    pub right : All IsRight s.published

  module _ (calls calls' : ℕ) (le : calls ≤ calls') (subs : List Subscription) (i : ℕ)
      (w : Subscription) where
    pub pending_on :
        (js : List Job)
        → ((j : Job) → j.result < calls → IsAlone j w)
        → All (IsPending calls subs) js
        → All (IsPending calls' (set subs i w)) js
    pending_on js alone =
        All-map _ _ (λ j (b, a). (omega arith, All-set (IsAlone j) subs i w a (alone j b))) js

    pub mail_on :
        (ms : List (ℕ × Result))
        → ((m : ℕ × Result) → m.0 < calls → IsAnswer m w)
        → All (IsMailed calls subs) ms
        → All (IsMailed calls' (set subs i w)) ms
    mail_on ms fine =
        All-map _ _ (λ m (b, a). (omega arith, All-set (IsAnswer m) subs i w a (fine m b))) ms

    pub IsAsked-on :
        IsAsked calls' w → All (IsAsked calls) subs → All (IsAsked calls') (set subs i w)
    IsAsked-on good a = All-set (IsAsked calls') subs i w (All-map _ _ later subs a) good
      where
        later : (s : Subscription) → IsAsked calls s → IsAsked calls' s
        later idle h = tt
        later (awaits message job) (b, h) = (omega arith, h)

  pub asked-IsAlone :
      (job : Job) (calls : ℕ)
      → job.result ≡ calls
      → (s : Subscription) → IsAsked calls s
      → IsAlone job s
  asked-IsAlone job calls e idle h = tt
  asked-IsAlone job calls e (awaits message j) (b, h) = λ same. absurd (omega arith)
