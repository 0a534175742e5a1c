-- ===== src/Engine/Settles.antt =====
-- The calls of the handlers come to an end: while the pool is open, its workers and the calls that
-- wait can go on until no call waits, and only so far.
use mathlib.Core.Path.{subst}
use code_execution_engine.Common.{
  ℕ, suc, ◌+◌, ◌≤◌, ◌≡◌, ◌∙◌, refl, ap, ◌⊎◌, inl, inr, true, List, [], ◌∷◌, some, Option-cases,
  eq_of_some-eq, Text, length, get_elem?, count_if, All, arith,
}
use code_execution_engine.Worker.{Job, Result}
use code_execution_engine.Worker.Backend.Interface.{Pool}
use code_execution_engine.Worker.Backend.Lively.{Lively}
use code_execution_engine.Engine.{
  Subscription, idle, awaits, Engine, Event, delivers, reads, acts, Call, collect, end_call, read,
  work, step, run, start,
}
use code_execution_engine.Engine.Delivered.{waiting_calls, is_delivery, run-calls}
use code_execution_engine.Engine.Kept.{read-kept, work-kept, run-IsKept}
use code_execution_engine.Engine.Load.{IsEven, run-IsEven, start-IsEven, collect-some, idle_all}

abbrev pub IsIdle : Subscription → Type 0
IsIdle s = s ≡ idle

IsIdle-cases :
    (subs : List Subscription)
    → ((i : ℕ) × (message : Text) × (job : Job) × (get_elem? subs i ≡ some (awaits message job)))
      ⊎ All IsIdle subs
IsIdle-cases [] = inr tt
IsIdle-cases (awaits message job ∷ subs) = inl (0, message, job, refl)
IsIdle-cases (idle ∷ subs) = elim (IsIdle-cases subs) [
  | inl (i, message, job, at) ↦ inl (suc i, message, job, at)
  | inr all_idle ↦ inr (refl, all_idle)
]

none_waits : (subs : List Subscription) → All IsIdle subs → waiting_calls subs ≡ 0
none_waits [] a = refl
none_waits (s ∷ subs) a = ground (arith, none_waits subs a.1)

module _ {S E C : Type 0} (p : Pool S E C) (l : Lively p) (handler : Text → Call) where
  -- The steps that bring a call nearer to its reply.
  abbrev pub IsService : Event E → Type 0
  IsService (acts e) = l.IsWork e
  IsService (reads i elapsed) = Unit
  IsService (delivers i elapsed message) = ⊥

  -- How many such steps there may be.
  abbrev pub left_to_do : Engine S → ℕ
  left_to_do s = l.weight s.pool + waiting_calls s.subscriptions

  abbrev pub CanServe : Engine S → Type 0
  CanServe s = (e : Event E) × IsService e × (t : Engine S) × (step p handler s e ≡ some t)

  step-lighter :
      (s t : Engine S) (e : Event E)
      → step p handler s e ≡ some t
      → IsService e
      → suc (left_to_do t) ≤ left_to_do s
  unfolding step
  step-lighter s t (delivers i elapsed message) h u = absurd u
  step-lighter s t (reads i elapsed) h u =
      let (same, fewer) = read-kept p l handler s t i elapsed _ refl h in
      omega (arith, ap l.weight same, fewer)
  step-lighter s t (acts e) h u =
      let (acted, same) = work-kept p l handler s t _ h in
      omega (arith, l.lighter s.pool t.pool e u acted, ap waiting_calls same)

  run-lighter :
      (s t : Engine S) (es : List (Event E))
      → run p handler s es ≡ some t
      → All IsService es
      → length es + left_to_do t ≤ left_to_do s
  unfolding run
  run-lighter s t [] h u = omega (arith, ap left_to_do (eq_of_some-eq h))
  run-lighter s t (e ∷ es) h u = elim (Option-cases (step p handler s e)) [
    | inl x ↦ absurd (ground arith)
    | inr (r, x) ↦ omega (arith, run-lighter r t es (ground arith) u.1, step-lighter s r e x u.0)
  ]

  -- A call whose pool has no job left reads its result.
  read-CanServe :
      (s : Engine S) (i : ℕ) (message : Text) (job : Job)
      → get_elem? s.subscriptions i ≡ some (awaits message job)
      → (m : Result × List (ℕ × Result)) × (collect job.result s.mail ≡ some m)
      → CanServe s
  unfolding step read end_call
  read-CanServe s i message job at ((r, ms), found) = (
    reads i [],
    tt,
    _,
    ap (read p handler s i []) at ∙ ap (end_call p handler s i [] message) found,
  )

  progress :
      (s : Engine S)
      → IsEven p handler s
      → l.IsSound s.pool
      → l.is_open s.pool ≡ true
      → CanServe s ⊎ All IsIdle s.subscriptions
  unfolding step work
  progress s even k o = elim (IsIdle-cases s.subscriptions) [
    | inr all_idle ↦ inr all_idle
    | inl (i, message, job, at) ↦ elim (l.ready s.pool k o) [
      | inl (e, w, t, x) ↦ inl (acts e, w, _, ap (work p handler s) x)
      | inr done ↦
          inl
            (read-CanServe s i message job at (collect-some p handler s i message job even done at))
    ]
  ]

  -- The steps of the service leave the pool open and deliver nothing.
  run-open :
      (s t : Engine S) (es : List (Event E))
      → run p handler s es ≡ some t
      → All IsService es
      → l.is_open s.pool ≡ true
      → (l.is_open t.pool ≡ true) × (count_if is_delivery es ≡ 0)
  unfolding run step
  run-open s t [] h u o = (subst (λ v. l.is_open v.pool ≡ true) (eq_of_some-eq h) o, refl)
  run-open s t (delivers i elapsed message ∷ es) h u o = absurd u.0
  run-open s t (reads i elapsed ∷ es) h u o =
      elim (Option-cases (read p handler s i elapsed (get_elem? s.subscriptions i))) [
        | inl x ↦ absurd (ground arith)
        | inr (v, x) ↦
            run-open v t es (ground arith) u.1
              (subst (λ d. l.is_open d ≡ true) (read-kept p l handler s v i elapsed _ refl x).0 o)
      ]
  run-open s t (acts e ∷ es) h u o = elim (Option-cases (work p handler s (p.act s.pool e))) [
    | inl x ↦ absurd (ground arith)
    | inr (v, x) ↦
        run-open v t es (ground arith) u.1
          (l.stays_open s.pool v.pool e u.0 (work-kept p l handler s v _ x).0 o)
  ]

  -- The events `es` have led to `t`, and from there steps of the service `more` to `u`: there have
  -- been only so many, and there is another one, or no call waits and as many calls have ended as
  -- messages were delivered.
  abbrev pub IsSettling : List (Event E) → Engine S → List (Event E) → Engine S → Type 0
  IsSettling es t more u =
      (length more ≤ left_to_do t)
      × (CanServe u ⊎ (All IsIdle u.subscriptions × (length u.published ≡ count_if is_delivery es)))

  pub run-IsSettling :
      {A : Type 0} (pool : S) (xs : List A) (es more : List (Event E)) (t u : Engine S)
      → p.pending pool ≡ []
      → l.IsSound pool
      → run p handler (start pool xs) es ≡ some t
      → l.is_open t.pool ≡ true
      → run p handler t more ≡ some u
      → All IsService more
      → IsSettling es t more u
  unfolding start
  run-IsSettling pool xs es more t u e k h o r v =
      let even = run-IsEven p handler (start pool xs) t es h (start-IsEven p handler pool xs e) in
      let (open_still, no_more) = run-open t u more r v o in
      (
        omega (arith, run-lighter t u more r v),
        elim (progress u (run-IsEven p handler t u more r even)
            (run-IsKept p l handler t u more r (run-IsKept p l handler (start pool xs) t es h k))
            open_still) [
              | inl can ↦ inl can
              | inr all_idle ↦ inr (
                all_idle,
                omega (
                  arith,
                  run-calls p handler (start pool xs) t es h,
                  run-calls p handler t u more r,
                  no_more,
                  none_waits u.subscriptions all_idle,
                  idle_all p handler (λ _. true) xs,
                ),
              )
            ],
      )
