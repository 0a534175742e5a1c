-- ===== src/Engine/Answers.antt =====
-- What the calls of the handlers are answered: each the outcome of its own job, and none that the
-- queue is full.
use mathlib.Core.List.Permᴰ as Perm
use mathlib.Core.Path.{subst}
use code_execution_engine.Common.{
  ℕ, ◌+◌, ◌≤◌, ◌<◌, ◌≡◌, ◌∙◌, sym, ap, refl, inl, inr, true, List, [], ◌∷◌, ◌++◌, Option, none,
  some, Option-cases, eq_of_some-eq, Text, length, drop, get_elem?, count_if_all, count_if-lt,
  length-set, All, All-map, All-set, All-append, All-get_elem?, arith,
}
use code_execution_engine.Worker.{Job, Result}
use code_execution_engine.Worker.Backend.Interface.{Pool}
use code_execution_engine.Worker.Backend.Pending.{All-Permᴰ}
use code_execution_engine.Engine.{
  Subscription, idle, awaits, Engine, Event, delivers, reads, acts, Call, nobody, collect, job_for,
  call_pool, begin_call, deliver, end_call, read, work, step, run,
}
use code_execution_engine.Engine.Load.{IsEven, waits_on, asked, no_mail, one_mail, step-IsEven}
use code_execution_engine.Engine.Fits as Fits
use code_execution_engine.Engine.Fits.{All-collect, pending_on, mail_on, IsAsked-on, asked-IsAlone}

module _ {S E C : Type 0} (p : Pool S E C) (handler : Text → Call) (c : C) where
  abbrev IsRight : Text × List Text → Type 0
  IsRight = Fits.IsRight p handler c

  abbrev IsAsked : ℕ → Subscription → Type 0
  IsAsked = Fits.IsAsked p handler c

  abbrev IsAlone : Job → Subscription → Type 0
  IsAlone = Fits.IsAlone p handler c

  abbrev IsAnswer : ℕ × Result → Subscription → Type 0
  IsAnswer = Fits.IsAnswer p handler c

  abbrev IsPending : ℕ → List Subscription → Job → Type 0
  IsPending = Fits.IsPending p handler c

  abbrev IsMailed : ℕ → List Subscription → ℕ × Result → Type 0
  IsMailed = Fits.IsMailed p handler c

  abbrev IsFit : ℕ → Engine S → Type 0
  IsFit = Fits.IsFit p handler c

  module _ (n : ℕ) (roomy : n ≤ p.room c) where
    -- The pool has room for the job of every call that begins.
    pub not_full :
        (s : Engine S) (i : ℕ)
        → get_elem? s.subscriptions i ≡ some idle
        → IsEven p handler s
        → IsFit n s
        → length (p.pending s.pool) < p.room (p.config s.pool)
    not_full s i at even f = omega (
      arith,
      even (λ _. true),
      count_if_all (p.pending s.pool),
      count_if-lt (waits_on (λ _. true)) s.subscriptions i idle at refl,
      f.as_many,
      ap p.room f.same_config,
    )

    module _ (s : Engine S) (i : ℕ) (elapsed message : Text) where
      call_pool-IsFit :
          (job : Job) (o : S × Option (Result × Option Text)) (rest : List (Text × Text))
          → get_elem? s.subscriptions i ≡ some idle
          → job.result ≡ s.calls
          → (handler elapsed nobody message).1 ≡ (job.language, job.code) ∷ rest
          → p.submit s.pool job ≡ o
          → IsEven p handler s
          → IsFit n s
          → IsFit n (call_pool p handler s i elapsed message job o)
      unfolding call_pool
      call_pool-IsFit job (t, some r) rest at e asked h even f =
          absurd (omega (arith, not_full s i at even f, (p.rejects s.pool t job r h).1))
      call_pool-IsFit job (t, none) rest at e asked h even f =
          let (more, same, config) = p.accepts s.pool t job h in
          let le : s.calls ≤ s.calls + 1 = omega arith in
          record {
            same_config = config ∙ f.same_config;
            as_many = length-set s.subscriptions i (awaits message job) ∙ f.as_many;
            pending = All-Permᴰ _ (Perm.symm more) (
              (
                omega arith,
                All-set (IsAlone job) s.subscriptions i (awaits message job)
                    (All-map _ _ (asked-IsAlone p handler c job s.calls e) s.subscriptions
                      f.asked_for)
                    (λ _. refl),
              ),
              pending_on p handler c s.calls (s.calls + 1) le s.subscriptions i (awaits message job)
                  (p.pending s.pool) (λ j b same. absurd (omega arith)) f.pending,
            );
            mail =
                mail_on p handler c s.calls (s.calls + 1) le s.subscriptions i (awaits message job)
                  s.mail (λ m b same. absurd (omega arith)) f.mail;
            asked_for =
                IsAsked-on p handler c s.calls (s.calls + 1) le s.subscriptions i
                  (awaits message job) (omega arith, (elapsed, rest, asked)) f.asked_for;
            right = f.right;
          }

      begin_call-IsFit :
          (jobs : List (Text × Text))
          → get_elem? s.subscriptions i ≡ some idle
          → (handler elapsed nobody message).1 ≡ jobs
          → IsEven p handler s
          → IsFit n s
          → IsFit n (begin_call p handler s i elapsed message jobs)
      unfolding begin_call
      begin_call-IsFit [] at asked even f = record {
        same_config = f.same_config;
        as_many = f.as_many;
        pending = f.pending;
        mail = f.mail;
        asked_for = f.asked_for;
        right = All-append IsRight s.published _ f.right (inl (elapsed, asked, refl), tt);
      }
      begin_call-IsFit ((language, code) ∷ rest) at asked even f =
          call_pool-IsFit (job_for p handler s language code) _ rest at refl asked refl even f

    deliver-IsFit :
        (s t : Engine S) (i : ℕ) (elapsed message : Text) (o : Option Subscription)
        → get_elem? s.subscriptions i ≡ o
        → deliver p handler s i elapsed message o ≡ some t
        → IsEven p handler s
        → IsFit n s
        → IsFit n t
    unfolding deliver
    deliver-IsFit s t i elapsed message (some idle) at h even f =
        subst (IsFit n) (eq_of_some-eq h) (begin_call-IsFit s i elapsed message _ at refl even f)
    deliver-IsFit s t i elapsed message (some (awaits m j)) at h even f = absurd (cc h)
    deliver-IsFit s t i elapsed message none at h even f = absurd (cc h)

    end_call-IsFit :
        (s t : Engine S) (i : ℕ) (elapsed message : Text) (job : Job)
        (o : Option (Result × List (ℕ × Result)))
        → get_elem? s.subscriptions i ≡ some (awaits message job)
        → collect job.result s.mail ≡ o
        → end_call p handler s i elapsed message o ≡ some t
        → IsFit n s
        → IsFit n t
    unfolding end_call
    end_call-IsFit s t i elapsed message job none at k h f = absurd (cc h)
    end_call-IsFit s t i elapsed message job (some (r, ms)) at k h f =
        let le : s.calls ≤ s.calls = omega arith in
        let ((b, fits), left) =
          All-collect (IsMailed s.calls s.subscriptions) job.result s.mail ms r k f.mail in
        let good =
          All-get_elem? (IsAnswer (job.result, r)) s.subscriptions i (awaits message job) fits at
            refl in
        let (_, (began, rest, asked)) =
          All-get_elem? (IsAsked s.calls) s.subscriptions i (awaits message job) f.asked_for at in
        subst (IsFit n) (eq_of_some-eq h) (record {
          same_config = f.same_config;
          as_many = length-set s.subscriptions i idle ∙ f.as_many;
          pending =
              pending_on p handler c s.calls s.calls le s.subscriptions i idle (p.pending s.pool)
                (λ j b'. tt) f.pending;
          mail = mail_on p handler c s.calls s.calls le s.subscriptions i idle ms (λ m b'. tt) left;
          asked_for =
              IsAsked-on p handler c s.calls s.calls le s.subscriptions i idle tt f.asked_for;
          right =
              All-append IsRight s.published _ f.right
                (inr (began, elapsed, job, rest, r, asked, good, refl), tt);
        })

    read-IsFit :
        (s t : Engine S) (i : ℕ) (elapsed : Text) (o : Option Subscription)
        → get_elem? s.subscriptions i ≡ o
        → read p handler s i elapsed o ≡ some t
        → IsFit n s
        → IsFit n t
    unfolding read
    read-IsFit s t i elapsed (some (awaits message job)) at h f =
        end_call-IsFit s t i elapsed message job _ at refl h f
    read-IsFit s t i elapsed (some idle) at h f = absurd (cc h)
    read-IsFit s t i elapsed none at h f = absurd (cc h)

    -- A result is the answer of the call that waits on its channel.
    answer-IsMailed :
        (calls : ℕ) (subs : List Subscription) (job : Job) (r : Result)
        → p.IsOutcome c job r
        → IsPending calls subs job
        → IsMailed calls subs (job.result, r)
    answer-IsMailed calls subs job r good (b, a) = (b, All-map _ _ answers subs a)
      where
        answers : (s : Subscription) → IsAlone job s → IsAnswer (job.result, r) s
        answers idle h = tt
        answers (awaits message j) h =
            λ same. subst (λ (k : Job). p.IsOutcome c k r) (sym (h same)) good

    with_mail :
        (s : Engine S) (u : S) (ms : List (ℕ × Result))
        → drop (length (p.results s.pool)) (p.results u) ≡ ms
        → All (IsMailed s.calls s.subscriptions) s.mail
        → All (IsMailed s.calls s.subscriptions) ms
        → All
            (IsMailed s.calls s.subscriptions)
            (s.mail ++ drop (length (p.results s.pool)) (p.results u))
    with_mail s u ms e old new =
        All-append _ s.mail _ old (subst (All (IsMailed s.calls s.subscriptions)) (sym e) new)

    work-IsFit :
        (s t : Engine S) (e : E) (o : Option S)
        → p.act s.pool e ≡ o
        → work p handler s o ≡ some t
        → IsFit n s
        → IsFit n t
    unfolding work
    work-IsFit s t e none a h f = absurd (cc h)
    work-IsFit s t e (some u) a h f =
        let (config, moved) = p.moves s.pool u e a in
        elim moved [
          | inl (same, still) ↦ subst (IsFit n) (eq_of_some-eq h) (record {
            same_config = config ∙ f.same_config;
            as_many = f.as_many;
            pending = All-Permᴰ _ (Perm.symm same) f.pending;
            mail = with_mail s u [] (no_mail (p.results s.pool) (p.results u) still) f.mail tt;
            asked_for = f.asked_for;
            right = f.right;
          })
          | inr (job, r, less, new, good) ↦
              let (fits, left) = All-Permᴰ (IsPending s.calls s.subscriptions) less f.pending in
              let outcome = subst (λ x. p.IsOutcome x job r) f.same_config good in
              subst (IsFit n) (eq_of_some-eq h) (record {
                same_config = config ∙ f.same_config;
                as_many = f.as_many;
                pending = left;
                mail =
                    with_mail s u ((job.result, r) ∷ [])
                      (one_mail (p.results s.pool) (p.results u) (job.result, r) new) f.mail
                      (answer-IsMailed s.calls s.subscriptions job r outcome fits, tt);
                asked_for = f.asked_for;
                right = f.right;
              })
        ]

    step-IsFit :
        (s t : Engine S) (e : Event E)
        → step p handler s e ≡ some t
        → IsEven p handler s
        → IsFit n s
        → IsFit n t
    unfolding step
    step-IsFit s t (delivers i elapsed message) h even f =
        deliver-IsFit s t i elapsed message _ refl h even f
    step-IsFit s t (reads i elapsed) h even f = read-IsFit s t i elapsed _ refl h f
    step-IsFit s t (acts e) h even f = work-IsFit s t e _ refl h f

    pub run-IsFit :
        (s t : Engine S) (es : List (Event E))
        → run p handler s es ≡ some t
        → IsEven p handler s
        → IsFit n s
        → IsFit n t
    unfolding run
    run-IsFit s t [] h even f = subst (IsFit n) (eq_of_some-eq h) f
    run-IsFit s t (e ∷ es) h even f = elim (Option-cases (step p handler s e)) [
      | inl x ↦ absurd (ground arith)
      | inr (u, x) ↦
          run-IsFit u t es (ground arith) (step-IsEven p handler s u e x even)
            (step-IsFit s u e x even f)
    ]
