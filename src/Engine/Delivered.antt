-- ===== src/Engine/Delivered.antt =====
-- Each message that is delivered to a handler is a call that waits or has ended, once.
use code_execution_engine.Common.{
  ℕ, suc, ◌+◌, ◌≡◌, refl, ap, inl, inr, Bool, true, false, List, [], ◌∷◌, Option, none, some,
  Option-cases, eq_of_some-eq, Text, length, length-append, get_elem?, count_if, count_if-set,
  arith,
}
use code_execution_engine.Worker.{Job, Result}
use code_execution_engine.Worker.Backend.Interface.{Pool}
use code_execution_engine.Engine.{
  Subscription, idle, awaits, Engine, Event, delivers, reads, acts, Call, call_pool, begin_call,
  deliver, end_call, read, work, step, run,
}
use code_execution_engine.Engine.Load.{waits_on}

abbrev pub waiting_calls : List Subscription → ℕ
waiting_calls = count_if (waits_on (λ _. true))

-- The calls that have begun.
abbrev pub calls_of : {S : Type 0} → Engine S → ℕ
calls_of s = length s.published + waiting_calls s.subscriptions

abbrev pub is_delivery : {E : Type 0} → Event E → Bool
is_delivery (delivers i elapsed message) = true
is_delivery _ = false

module _ {S E C : Type 0} (p : Pool S E C) (handler : Text → Call) where
  module _ (s : Engine S) (i : ℕ) (elapsed message : Text) where
    call_pool-calls :
        (job : Job) (o : S × Option (Result × Option Text))
        → get_elem? s.subscriptions i ≡ some idle
        → calls_of (call_pool p handler s i elapsed message job o) ≡ suc (calls_of s)
    unfolding call_pool
    call_pool-calls job (t, some r) at = omega (arith, length-append s.published (_ ∷ []))
    call_pool-calls job (t, none) at =
        omega (
          arith,
          count_if-set (waits_on (λ _. true)) s.subscriptions i (awaits message job) idle at,
        )

    begin_call-calls :
        (jobs : List (Text × Text))
        → get_elem? s.subscriptions i ≡ some idle
        → calls_of (begin_call p handler s i elapsed message jobs) ≡ suc (calls_of s)
    unfolding begin_call
    begin_call-calls [] at = omega (arith, length-append s.published (_ ∷ []))
    begin_call-calls ((language, code) ∷ rest) at = call_pool-calls _ _ at

    deliver-calls :
        (t : Engine S) (o : Option Subscription)
        → get_elem? s.subscriptions i ≡ o
        → deliver p handler s i elapsed message o ≡ some t
        → calls_of t ≡ suc (calls_of s)
    unfolding deliver
    deliver-calls t (some idle) at h =
        omega (arith, ap calls_of (eq_of_some-eq h), begin_call-calls _ at)
    deliver-calls t (some (awaits m j)) at h = absurd (cc h)
    deliver-calls t none at h = absurd (cc h)

    end_call-calls :
        (t : Engine S) (job : Job) (o : Option (Result × List (ℕ × Result)))
        → get_elem? s.subscriptions i ≡ some (awaits message job)
        → end_call p handler s i elapsed message o ≡ some t
        → calls_of t ≡ calls_of s
    unfolding end_call
    end_call-calls t job none at h = absurd (cc h)
    end_call-calls t job (some (r, ms)) at h = omega (
      arith,
      ap calls_of (eq_of_some-eq h),
      length-append s.published (_ ∷ []),
      count_if-set (waits_on (λ _. true)) s.subscriptions i idle (awaits message job) at,
    )

  read-calls :
      (s t : Engine S) (i : ℕ) (elapsed : Text) (o : Option Subscription)
      → get_elem? s.subscriptions i ≡ o
      → read p handler s i elapsed o ≡ some t
      → calls_of t ≡ calls_of s
  unfolding read
  read-calls s t i elapsed (some (awaits message job)) at h =
      end_call-calls s i elapsed message t job _ at h
  read-calls s t i elapsed (some idle) at h = absurd (cc h)
  read-calls s t i elapsed none at h = absurd (cc h)

  work-calls :
      (s t : Engine S) (o : Option S) → work p handler s o ≡ some t → calls_of t ≡ calls_of s
  unfolding work
  work-calls s t none h = absurd (cc h)
  work-calls s t (some u) h = omega (arith, ap calls_of (eq_of_some-eq h))

  step-calls :
      (s t : Engine S) (e : Event E)
      → step p handler s e ≡ some t
      → calls_of t ≡ calls_of s + count_if is_delivery (e ∷ [])
  unfolding step
  step-calls s t (delivers i elapsed message) h =
      omega (arith, deliver-calls s i elapsed message t _ refl h)
  step-calls s t (reads i elapsed) h = omega (arith, read-calls s t i elapsed _ refl h)
  step-calls s t (acts e) h = omega (arith, work-calls s t _ h)

  pub run-calls :
      (s t : Engine S) (es : List (Event E))
      → run p handler s es ≡ some t
      → calls_of t ≡ calls_of s + count_if is_delivery es
  unfolding run
  run-calls s t [] h = omega (arith, ap calls_of (eq_of_some-eq h))
  run-calls s t (e ∷ es) h = elim (Option-cases (step p handler s e)) [
    | inl x ↦ absurd (ground arith)
    | inr (u, x) ↦ ground (arith, step-calls s u e x, run-calls u t es (ground arith))
  ]
