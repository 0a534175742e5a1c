-- ===== src/Engine/Kept.antt =====
-- What each step leaves of the pool and of the calls that wait.
use mathlib.Core.Path.{subst}
use code_execution_engine.Common.{
  ℕ, suc, ◌≡◌, refl, ap, inl, inr, true, List, [], ◌∷◌, Option, none, some, Option-cases,
  eq_of_some-eq, Text, set, get_elem?, count_if-set, arith,
}
use code_execution_engine.Worker.{Job, Result}
use code_execution_engine.Worker.Backend.Interface.{Pool}
use code_execution_engine.Worker.Backend.Lively.{Lively}
use code_execution_engine.Engine.{
  Subscription, idle, awaits, Engine, Event, delivers, reads, acts, Call, job_for, call_pool,
  begin_call, deliver, end_call, read, work, step, run,
}
use code_execution_engine.Engine.Delivered.{waiting_calls}
use code_execution_engine.Engine.Load.{waits_on}

module _ {S E C : Type 0} (p : Pool S E C) (l : Lively p) (handler : Text → Call) where
  call_pool-IsSound :
      (s : Engine S) (i : ℕ) (elapsed message : Text) (job : Job)
      (o : S × Option (Result × Option Text))
      → l.IsSound o.0
      → l.IsSound (call_pool p handler s i elapsed message job o).pool
  unfolding call_pool
  call_pool-IsSound s i elapsed message job (t, some r) k = k
  call_pool-IsSound s i elapsed message job (t, none) k = k

  begin_call-IsSound :
      (s : Engine S) (i : ℕ) (elapsed message : Text) (jobs : List (Text × Text))
      → l.IsSound s.pool
      → l.IsSound (begin_call p handler s i elapsed message jobs).pool
  unfolding begin_call
  begin_call-IsSound s i elapsed message [] k = k
  begin_call-IsSound s i elapsed message ((language, code) ∷ rest) k =
      call_pool-IsSound s i elapsed message _ _
        (l.submit_sound s.pool (job_for p handler s language code) k)

  abbrev IsKept : Engine S → Type 0
  IsKept s = l.IsSound s.pool

  deliver-IsKept :
      (s t : Engine S) (i : ℕ) (elapsed message : Text) (o : Option Subscription)
      → deliver p handler s i elapsed message o ≡ some t
      → IsKept s
      → IsKept t
  unfolding deliver
  deliver-IsKept s t i elapsed message (some idle) h k =
      subst IsKept (eq_of_some-eq h) (begin_call-IsSound s i elapsed message _ k)
  deliver-IsKept s t i elapsed message (some (awaits m j)) h k = absurd (cc h)
  deliver-IsKept s t i elapsed message none h k = absurd (cc h)

  -- A call that ends leaves the pool as it is, and one call fewer waits.
  end_call-kept :
      (s t : Engine S) (i : ℕ) (elapsed message : Text) (o : Option (Result × List (ℕ × Result)))
      → end_call p handler s i elapsed message o ≡ some t
      → (s.pool ≡ t.pool) × (set s.subscriptions i idle ≡ t.subscriptions)
  unfolding end_call
  end_call-kept s t i elapsed message none h = absurd (cc h)
  end_call-kept s t i elapsed message (some (r, ms)) h =
      (ap (λ u. u.pool) (eq_of_some-eq h), ap (λ u. u.subscriptions) (eq_of_some-eq h))

  pub read-kept :
      (s t : Engine S) (i : ℕ) (elapsed : Text) (o : Option Subscription)
      → get_elem? s.subscriptions i ≡ o
      → read p handler s i elapsed o ≡ some t
      → (s.pool ≡ t.pool) × (suc (waiting_calls t.subscriptions) ≡ waiting_calls s.subscriptions)
  unfolding read
  read-kept s t i elapsed (some (awaits message job)) at h =
      let (same, ended) = end_call-kept s t i elapsed message _ h in
      (
        same,
        omega (
          arith,
          ap waiting_calls ended,
          count_if-set (waits_on (λ _. true)) s.subscriptions i idle (awaits message job) at,
        ),
      )
  read-kept s t i elapsed (some idle) at h = absurd (cc h)
  read-kept s t i elapsed none at h = absurd (cc h)

  -- A step of the pool leaves the subscriptions as they are.
  pub work-kept :
      (s t : Engine S) (o : Option S)
      → work p handler s o ≡ some t
      → (o ≡ some t.pool) × (s.subscriptions ≡ t.subscriptions)
  unfolding work
  work-kept s t none h = absurd (cc h)
  work-kept s t (some u) h =
      (ap (λ v. some v.pool) (eq_of_some-eq h), ap (λ v. v.subscriptions) (eq_of_some-eq h))

  step-IsKept : (s t : Engine S) (e : Event E) → step p handler s e ≡ some t → IsKept s → IsKept t
  unfolding step
  step-IsKept s t (delivers i elapsed message) h k = deliver-IsKept s t i elapsed message _ h k
  step-IsKept s t (reads i elapsed) h k = subst l.IsSound (read-kept s t i elapsed _ refl h).0 k
  step-IsKept s t (acts e) h k = l.act_sound s.pool t.pool e (work-kept s t _ h).0 k

  pub run-IsKept :
      (s t : Engine S) (es : List (Event E)) → run p handler s es ≡ some t → IsKept s → IsKept t
  unfolding run
  run-IsKept s t [] h k = subst IsKept (eq_of_some-eq h) k
  run-IsKept s t (e ∷ es) h k = elim (Option-cases (step p handler s e)) [
    | inl x ↦ absurd (ground arith)
    | inr (u, x) ↦ run-IsKept u t es (ground arith) (step-IsKept s u e x k)
  ]
