-- ===== src/Engine/Serving.antt =====
-- What every run of the engine gives its callers: the load, the calls that begin, wait and have ended.

use mathlib.Core.Path.{subst}
use code_execution_engine.Common.{
  ℕ, suc, ◌≤◌, ◌≡◌, ◌≢◌, sym, ap, refl, List, [], ◌∷◌, Option, some, Text, map, length, get_elem?,
  All, arith,
}
use code_execution_engine.Worker.{Job, Result}
use code_execution_engine.Worker.Backend.Interface.{Pool}
use code_execution_engine.Engine.{
  Subscription, idle, awaits, Engine, Event, Call, collect, run, start,
}
use code_execution_engine.Engine.Load.{run-IsEven, start-IsEven, length-pending-le, collect-some}
use code_execution_engine.Engine.Fits as Fits
use code_execution_engine.Engine.Fits.{All-collect, pending_on, mail_on, IsAsked-on, asked-IsAlone}
use code_execution_engine.Engine.Answers.{not_full, run-IsFit}

module _ {S E C : Type 0} (p : Pool S E C) (handler : Text → Call) (c : C) where
  abbrev IsRight : Text × List Text → Type 0
  IsRight = Fits.IsRight p handler c

  abbrev IsAsked : ℕ → Subscription → Type 0
  IsAsked = Fits.IsAsked p handler c

  abbrev IsPending : ℕ → List Subscription → Job → Type 0
  IsPending = Fits.IsPending p handler c

  abbrev IsFit : ℕ → Engine S → Type 0
  IsFit = Fits.IsFit p handler c

  start-IsFit :
      {A : Type 0} (pool : S) (xs : List A)
      → p.pending pool ≡ []
      → p.config pool ≡ c
      → IsFit (length xs) (start pool xs)
  unfolding start
  start-IsFit pool xs e config = record {
    same_config = config;
    as_many = length_idle xs;
    pending = subst (All (IsPending 0 (map (λ _. idle) xs))) (sym e) tt;
    mail = tt;
    asked_for = idle_IsAsked xs;
    right = tt;
  }
    where
      length_idle : {A : Type 0} (xs : List A) → length (map (λ _. idle) xs) ≡ length xs
      length_idle [] = refl
      length_idle (x ∷ xs) = ap suc (length_idle xs)

      idle_IsAsked : {A : Type 0} (xs : List A) → All (IsAsked 0) (map (λ _. idle) xs)
      idle_IsAsked [] = tt
      idle_IsAsked (x ∷ xs) = (tt, idle_IsAsked xs)

  -- What holds after every run: the load, the calls that begin, wait and have ended.
  abbrev pub IsServing : ℕ → Engine S → Type 0
  IsServing n t =
      (length (p.pending t.pool) ≤ n)
      × ((i : ℕ) (job : Job) (r : Result × Option Text)
          → get_elem? t.subscriptions i ≡ some idle
          → (p.submit t.pool job).1 ≢ some r)
      × (p.pending t.pool ≡ []
          → (i : ℕ) (message : Text) (job : Job)
          → get_elem? t.subscriptions i ≡ some (awaits message job)
          → (m : Result × List (ℕ × Result)) × (collect job.result t.mail ≡ some m))
      × All IsRight t.published

  pub run-IsServing :
      {A : Type 0} (pool : S) (xs : List A) (es : List (Event E)) (t : Engine S)
      → length xs ≤ p.room c
      → p.pending pool ≡ []
      → p.config pool ≡ c
      → run p handler (start pool xs) es ≡ some t
      → IsServing (length xs) t
  run-IsServing pool xs es t roomy e config h =
      let even = run-IsEven p handler (start pool xs) t es h (start-IsEven p handler pool xs e) in
      let f =
        run-IsFit p handler c (length xs) roomy (start pool xs) t es h
          (start-IsEven p handler pool xs e) (start-IsFit pool xs e config) in
      (
        omega (arith, length-pending-le p handler t even, f.as_many),
        λ i job r at full.
            let u = (p.submit t.pool job).0 in
            absurd (
              omega (
                arith,
                not_full p handler c (length xs) roomy t i at even f,
                (p.rejects t.pool u job r (ap (λ o. (u, o)) full)).1,
              )),
        λ none i message job at. collect-some p handler t i message job even none at,
        f.right,
      )
