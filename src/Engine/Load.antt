-- ===== src/Engine/Load.antt =====
-- How many calls are at the pool at once.
use mathlib.Core.Path.{subst}
use code_execution_engine.Common.{
  ℕ, ◌+◌, ◌≤◌, ◌≡◌, ◌∙◌, ap, refl, inl, inr, Bool, true, false, Bool-cases, List, [], ◌∷◌, ◌++◌,
  Option, none, some, Option-cases, eq_of_some-eq, Text, map, length, drop, drop-append_length,
  get_elem?, count_if, count_if-set, count_if-append, count_if-le-length, count_if_all,
  count_if-pos, ◌==◌, if◌then◌else◌, arith,
}
use code_execution_engine.Worker.{Job, Result}
use code_execution_engine.Worker.Backend.Interface.{Pool}
use code_execution_engine.Worker.Backend.Pending.{count_if-Permᴰ}
use code_execution_engine.Engine.{
  Subscription, idle, awaits, Engine, Event, delivers, reads, acts, Call, collect, job_for,
  call_pool, begin_call, deliver, end_call, read, work, step, run, start,
}

module _ (q : ℕ → Bool) where
  -- A call that waits on a channel of the choice.
  abbrev pub waits_on : Subscription → Bool
  waits_on idle = false
  waits_on (awaits message job) = q job.result

  abbrev pub asked : List Job → ℕ
  asked = count_if (λ j. q j.result)

  abbrev pub mailed : List (ℕ × Result) → ℕ
  mailed = count_if (λ m. q m.0)

  collect-mailed :
      (c : ℕ) (mail rest : List (ℕ × Result)) (r : Result)
      → collect c mail ≡ some (r, rest)
      → mailed mail ≡ mailed rest + (if q c then 1 else 0)
  collect-mailed c [] rest r h = absurd (cc h)
  collect-mailed c ((d, s) ∷ mail) rest r h = elim (Bool-cases (d == c)) [
    | inl e ↦ ground arith
    | inr e ↦ elim (Option-cases (collect c mail)) [
      | inl x ↦ absurd (ground arith)
      | inr ((t, ms), x) ↦ ground (arith, collect-mailed c mail ms t x)
    ]
  ]

  -- The calls that wait are those with a job at the pool and those with a result to read.
  abbrev pub IsBalanced : {S E C : Type 0} → Pool S E C → Engine S → Type 0
  IsBalanced p s = asked (p.pending s.pool) + mailed s.mail ≡ count_if waits_on s.subscriptions

drop-length : {A : Type 0} (xs : List A) → drop (length xs) xs ≡ []
drop-length [] = refl
drop-length (x ∷ xs) = drop-length xs

-- The mail that a step of the pool brings.
pub no_mail : (old new : List (ℕ × Result)) → new ≡ old → drop (length old) new ≡ []
no_mail old new e = ap (drop (length old)) e ∙ drop-length old

pub one_mail :
    (old new : List (ℕ × Result)) (m : ℕ × Result)
    → new ≡ old ++ m ∷ []
    → drop (length old) new ≡ m ∷ []
one_mail old new m e = ap (drop (length old)) e ∙ drop-append_length old (m ∷ [])

module _ {S E C : Type 0} (p : Pool S E C) (handler : Text → Call) where
  abbrev pub IsEven : Engine S → Type 0
  IsEven s = (q : ℕ → Bool) → IsBalanced q p s

  module _ (s : Engine S) (i : ℕ) (elapsed message : Text) where
    call_pool-IsEven :
        (job : Job) (o : S × Option (Result × Option Text))
        → get_elem? s.subscriptions i ≡ some idle
        → p.submit s.pool job ≡ o
        → IsEven s
        → IsEven (call_pool p handler s i elapsed message job o)
    unfolding call_pool
    call_pool-IsEven job (t, some r) at h f q =
        omega (arith, f q, ap (λ u. asked q (p.pending u)) (p.rejects s.pool t job r h).0)
    call_pool-IsEven job (t, none) at h f q = ground (
      arith,
      f q,
      count_if-Permᴰ (λ (j : Job). q j.result) (p.accepts s.pool t job h).0,
      count_if-set (waits_on q) s.subscriptions i (awaits message job) idle at,
    )

    begin_call-IsEven :
        (jobs : List (Text × Text))
        → get_elem? s.subscriptions i ≡ some idle
        → IsEven s
        → IsEven (begin_call p handler s i elapsed message jobs)
    unfolding begin_call
    begin_call-IsEven [] at f = f
    begin_call-IsEven ((language, code) ∷ rest) at f =
        call_pool-IsEven (job_for p handler s language code) _ at refl f

  deliver-IsEven :
      (s t : Engine S) (i : ℕ) (elapsed message : Text) (o : Option Subscription)
      → get_elem? s.subscriptions i ≡ o
      → deliver p handler s i elapsed message o ≡ some t
      → IsEven s
      → IsEven t
  unfolding deliver
  deliver-IsEven s t i elapsed message (some idle) at h f =
      subst IsEven (eq_of_some-eq h) (begin_call-IsEven s i elapsed message _ at f)
  deliver-IsEven s t i elapsed message (some (awaits m j)) at h f = absurd (cc h)
  deliver-IsEven s t i elapsed message none at h f = absurd (cc h)

  end_call-IsEven :
      (s t : Engine S) (i : ℕ) (elapsed message : Text) (job : Job)
      (o : Option (Result × List (ℕ × Result)))
      → get_elem? s.subscriptions i ≡ some (awaits message job)
      → collect job.result s.mail ≡ o
      → end_call p handler s i elapsed message o ≡ some t
      → IsEven s
      → IsEven t
  unfolding end_call
  end_call-IsEven s t i elapsed message job none at c h f = absurd (cc h)
  end_call-IsEven s t i elapsed message job (some (r, ms)) at c h f =
      subst IsEven (eq_of_some-eq h) (λ q. omega (
        arith,
        f q,
        collect-mailed q job.result s.mail ms r c,
        count_if-set (waits_on q) s.subscriptions i idle (awaits message job) at,
      ))

  read-IsEven :
      (s t : Engine S) (i : ℕ) (elapsed : Text) (o : Option Subscription)
      → get_elem? s.subscriptions i ≡ o
      → read p handler s i elapsed o ≡ some t
      → IsEven s
      → IsEven t
  unfolding read
  read-IsEven s t i elapsed (some (awaits message job)) at h f =
      end_call-IsEven s t i elapsed message job _ at refl h f
  read-IsEven s t i elapsed (some idle) at h f = absurd (cc h)
  read-IsEven s t i elapsed none at h f = absurd (cc h)

  work-IsEven :
      (s t : Engine S) (e : E) (o : Option S)
      → p.act s.pool e ≡ o
      → work p handler s o ≡ some t
      → IsEven s
      → IsEven t
  unfolding work
  work-IsEven s t e none a h f = absurd (cc h)
  work-IsEven s t e (some u) a h f = elim (p.moves s.pool u e a).1 [
    | inl (same, still) ↦ subst IsEven (eq_of_some-eq h) (λ q. omega (
      arith,
      f q,
      count_if-Permᴰ (λ (j : Job). q j.result) same,
      count_if-append (λ (m : ℕ × Result). q m.0) s.mail _,
      ap (mailed q) (no_mail (p.results s.pool) (p.results u) still),
    ))
    | inr (job, r, less, new, good) ↦ subst IsEven (eq_of_some-eq h) (λ q. ground (
      arith,
      f q,
      count_if-Permᴰ (λ (j : Job). q j.result) less,
      count_if-append (λ (m : ℕ × Result). q m.0) s.mail
          (drop (length (p.results s.pool)) (p.results u)),
      ap (mailed q) (one_mail (p.results s.pool) (p.results u) (job.result, r) new),
    ))
  ]

  pub step-IsEven :
      (s t : Engine S) (e : Event E) → step p handler s e ≡ some t → IsEven s → IsEven t
  unfolding step
  step-IsEven s t (delivers i elapsed message) h f = deliver-IsEven s t i elapsed message _ refl h f
  step-IsEven s t (reads i elapsed) h f = read-IsEven s t i elapsed _ refl h f
  step-IsEven s t (acts e) h f = work-IsEven s t e _ refl h f

  pub run-IsEven :
      (s t : Engine S) (es : List (Event E)) → run p handler s es ≡ some t → IsEven s → IsEven t
  unfolding run
  run-IsEven s t [] h f = subst IsEven (eq_of_some-eq h) f
  run-IsEven s t (e ∷ es) h f = elim (Option-cases (step p handler s e)) [
    | inl x ↦ absurd (ground arith)
    | inr (u, x) ↦ run-IsEven u t es (ground arith) (step-IsEven s u e x f)
  ]

  pub idle_all :
      {A : Type 0} (q : ℕ → Bool) (xs : List A) → count_if (waits_on q) (map (λ _. idle) xs) ≡ 0
  idle_all q [] = refl
  idle_all q (x ∷ xs) = idle_all q xs

  pub start-IsEven :
      {A : Type 0} (pool : S) (xs : List A) → p.pending pool ≡ [] → IsEven (start pool xs)
  unfolding start
  start-IsEven pool xs e q = omega (arith, ap (asked q) e, idle_all q xs)

  -- No more calls are at the pool than there are subscriptions.
  pub length-pending-le :
      (s : Engine S) → IsEven s → length (p.pending s.pool) ≤ length s.subscriptions
  length-pending-le s f = omega (
    arith,
    f (λ _. true),
    count_if_all (p.pending s.pool),
    count_if-le-length (waits_on (λ _. true)) s.subscriptions,
  )

  has_mail :
      (channel : ℕ) (mail : List (ℕ × Result))
      → collect channel mail ≡ none
      → mailed (λ d. d == channel) mail ≡ 0
  has_mail channel [] h = refl
  has_mail channel ((d, r) ∷ mail) h = elim (Bool-cases (d == channel)) [
    | inl e ↦ absurd (ground arith)
    | inr e ↦ elim (Option-cases (collect channel mail)) [
      | inl x ↦ ground (arith, has_mail channel mail x)
      | inr ((t, ms), x) ↦ absurd (ground arith)
    ]
  ]

  -- Once the pool has no job left, every call that waits has its result.
  pub collect-some :
      (s : Engine S) (i : ℕ) (message : Text) (job : Job)
      → IsEven s
      → p.pending s.pool ≡ []
      → get_elem? s.subscriptions i ≡ some (awaits message job)
      → (m : Result × List (ℕ × Result)) × (collect job.result s.mail ≡ some m)
  collect-some s i message job f e at = elim (Option-cases (collect job.result s.mail)) [
    | inr found ↦ found
    | inl x ↦ absurd (
        omega (
          arith,
          f (λ d. d == job.result),
          ap (asked (λ d. d == job.result)) e,
          has_mail job.result s.mail x,
          count_if-pos (waits_on (λ d. d == job.result)) s.subscriptions i (awaits message job) at
              (ground arith),
        ))
  ]
