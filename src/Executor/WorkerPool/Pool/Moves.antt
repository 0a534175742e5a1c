-- ===== src/Executor/WorkerPool/Pool/Moves.antt =====
-- The ways in which a step of a pool of executor/worker_pool.go may go, each with what it finds and
-- what it leaves.
use mathlib.Core.Path.{subst}
use code_execution_engine.Common.{
  ℕ, zero, suc, ◌-◌, ◌≡◌, ◌<◌, refl, codes, true, Bool-cases, ltb, ltb→lt, List, [], ◌∷◌, ◌++◌,
  Option, none, some, Option-cases, eq_of_some-eq, Text, Fallible, length, get_elem?, set, arith,
  inl, inr,
}
use code_execution_engine.Executor.ContainerManager.{
  ContainerManager, Listed, Start, Job, idle, busy, Result, assign, check_health, max_retries,
  set_container_state, remove_container,
}
use code_execution_engine.Executor.ContainerManager as Manager
use code_execution_engine.Executor.WorkerPool.{execute_code, job_result}
use code_execution_engine.Executor.WorkerPool.Pool.{
  WorkerState, waiting, searching, found, running, returned, WorkerPool, submit, answer, failure,
  receive, take_container, search_container, begin_code, finish, return_on_shutdown, close_channels,
  empty_manager, Event, submits, receives, begins_code, returns, searches, finishes, checks_health,
  removes, closes_channels, empties_manager, at_worker, left_by, step, run,
}

at_worker-some {ℓ} :
    {B : Type ℓ} (f : WorkerState → Option B) (o : Option WorkerState) (b : B)
    → at_worker f o ≡ some b
    → (w : WorkerState) × (o ≡ some w) × (f w ≡ some b)
at_worker-some f none b h = absurd (cc h)
at_worker-some f (some w) b h = (w, refl, h)

-- How a job ends without a container.
abbrev pub unserved : Result
unserved = failure (codes "no available containers after 10 retries")

module _ (run_command : List Text → Text → ℕ → Text × Option Text) where
  pub data Move (p : WorkerPool) (e : Event) (q : WorkerPool) : Type 0 where
    rejects : (job : Job) → e ≡ submits job → p ≡ q → Move p e q
    queues :
        (job : Job)
        → e ≡ submits job
        → length p.jobs < p.max_job_count
        → record p { jobs = p.jobs ++ job ∷ [] } ≡ q
        → Move p e q
    takes_job :
        (i : ℕ) (job : Job) (rest : List Job)
        → get_elem? p.workers i ≡ some waiting
        → p.jobs ≡ job ∷ rest
        → record p { jobs = rest; workers = set p.workers i (searching job max_retries) } ≡ q
        → Move p e q
    finds_none :
        (i : ℕ) (job : Job) (n : ℕ)
        → get_elem? p.workers i ≡ some (searching job (suc n))
        → record p { workers = set p.workers i (searching job n) } ≡ q
        → Move p e q
    finds :
        (i : ℕ) (job : Job) (n : ℕ) (order : List Text) (id : Text) (cm : ContainerManager)
        → get_elem? p.workers i ≡ some (searching job (suc n))
        → assign p.container_mgr order ≡ some (id, cm)
        → record p { container_mgr = cm; workers = set p.workers i (found job id) } ≡ q
        → Move p e q
    gives_up :
        (i : ℕ) (job : Job)
        → get_elem? p.workers i ≡ some (searching job zero)
        → answer p i p.container_mgr job unserved ≡ q
        → Move p e q
    begins :
        (i : ℕ) (job : Job) (id : Text)
        → get_elem? p.workers i ≡ some (found job id)
        → record p {
          container_mgr = set_container_state p.container_mgr id busy;
          workers = set p.workers i (running job id);
        }
          ≡ q
        → Move p e q
    ends :
        (i elapsed : ℕ) (job : Job) (id : Text)
        → get_elem? p.workers i ≡ some (running job id)
        → answer p i
            (set_container_state p.container_mgr id idle)
            job
            (job_result elapsed (execute_code run_command id job.language job.code))
          ≡ q
        → Move p e q
    leaves :
        (i : ℕ)
        → e ≡ returns i
        → get_elem? p.workers i ≡ some waiting
        → p.shut ≡ true
        → record p { workers = set p.workers i returned; wg = p.wg - 1 } ≡ q
        → Move p e q
    checks :
        (listing : Fallible (List Listed)) (order : List Text) (outcomes : ℕ → Start)
        → e ≡ checks_health listing order outcomes
        → record p { container_mgr = check_health p.container_mgr listing order outcomes } ≡ q
        → Move p e q
    loses :
        (id : Text)
        → e ≡ removes id
        → record p { container_mgr = remove_container p.container_mgr id } ≡ q
        → Move p e q
    closes : e ≡ closes_channels → record p { shut = true } ≡ q → Move p e q
    empties :
        e ≡ empties_manager
        → record p { container_mgr = Manager.shutdown p.container_mgr } ≡ q
        → Move p e q

  module _ (p : WorkerPool) (e : Event) (q : WorkerPool) where
    submit-Move : (job : Job) → e ≡ submits job → left_by (submit p job) ≡ some q → Move p e q
    unfolding submit
    submit-Move job k h = elim (Bool-cases p.shut) [
      | inl s ↦ absurd (cc (rw s at h))
      | inr s ↦ elim (Bool-cases (ltb (length p.jobs) p.max_job_count)) [
        | inl f ↦
            queues job k (ltb→lt (length p.jobs) p.max_job_count f) (eq_of_some-eq (ground arith))
        | inr f ↦ rejects job k (eq_of_some-eq (ground arith))
      ]
    ]

    receive-Move :
        (i : ℕ) (w : WorkerState) (js : List Job)
        → get_elem? p.workers i ≡ some w
        → p.jobs ≡ js
        → receive p i w js ≡ some q
        → Move p e q
    unfolding receive
    receive-Move i waiting (job ∷ rest) at j h = takes_job i job rest at j (eq_of_some-eq h)
    receive-Move i waiting [] at j h = absurd (cc h)
    receive-Move i (searching job n) js at j h = absurd (cc h)
    receive-Move i (found job id) js at j h = absurd (cc h)
    receive-Move i (running job id) js at j h = absurd (cc h)
    receive-Move i returned js at j h = absurd (cc h)

    take_container-Move :
        (i : ℕ) (job : Job) (n : ℕ) (order : List Text) (got : Option (Text × ContainerManager))
        → get_elem? p.workers i ≡ some (searching job (suc n))
        → assign p.container_mgr order ≡ got
        → take_container p i job n got ≡ q
        → Move p e q
    unfolding take_container
    take_container-Move i job n order none at g h = finds_none i job n at h
    take_container-Move i job n order (some (id, cm)) at g h = finds i job n order id cm at g h

    search_container-Move :
        (i : ℕ) (order : List Text) (w : WorkerState)
        → get_elem? p.workers i ≡ some w
        → search_container p i order w ≡ some q
        → Move p e q
    unfolding search_container
    search_container-Move i order (searching job zero) at h = gives_up i job at (eq_of_some-eq h)
    search_container-Move i order (searching job (suc n)) at h =
        take_container-Move i job n order (assign p.container_mgr order) at refl (eq_of_some-eq h)
    search_container-Move i order waiting at h = absurd (cc h)
    search_container-Move i order (found job id) at h = absurd (cc h)
    search_container-Move i order (running job id) at h = absurd (cc h)
    search_container-Move i order returned at h = absurd (cc h)

    begin_code-Move :
        (i : ℕ) (w : WorkerState)
        → get_elem? p.workers i ≡ some w
        → begin_code p i w ≡ some q
        → Move p e q
    unfolding begin_code
    begin_code-Move i (found job id) at h = begins i job id at (eq_of_some-eq h)
    begin_code-Move i waiting at h = absurd (cc h)
    begin_code-Move i (searching job n) at h = absurd (cc h)
    begin_code-Move i (running job id) at h = absurd (cc h)
    begin_code-Move i returned at h = absurd (cc h)

    finish-Move :
        (i elapsed : ℕ) (w : WorkerState)
        → get_elem? p.workers i ≡ some w
        → finish run_command p i elapsed w ≡ some q
        → Move p e q
    unfolding finish
    finish-Move i elapsed (running job id) at h = ends i elapsed job id at (eq_of_some-eq h)
    finish-Move i elapsed waiting at h = absurd (cc h)
    finish-Move i elapsed (searching job n) at h = absurd (cc h)
    finish-Move i elapsed (found job id) at h = absurd (cc h)
    finish-Move i elapsed returned at h = absurd (cc h)

    return-Move :
        (i : ℕ) (w : WorkerState)
        → get_elem? p.workers i ≡ some w
        → e ≡ returns i
        → return_on_shutdown p i w ≡ some q
        → Move p e q
    unfolding return_on_shutdown
    return-Move i waiting at k h = elim (Bool-cases p.shut) [
      | inr s ↦ absurd (cc (rw s at h))
      | inl s ↦ leaves i k at s (eq_of_some-eq (ground arith))
    ]
    return-Move i (searching job n) at k h = absurd (cc h)
    return-Move i (found job id) at k h = absurd (cc h)
    return-Move i (running job id) at k h = absurd (cc h)
    return-Move i returned at k h = absurd (cc h)

    close_channels-Move : e ≡ closes_channels → close_channels p ≡ some q → Move p e q
    unfolding close_channels
    close_channels-Move k h = elim (Bool-cases p.shut) [
      | inl s ↦ absurd (cc (rw s at h))
      | inr s ↦ closes k (eq_of_some-eq (ground arith))
    ]

    empty_manager-Move : e ≡ empties_manager → empty_manager p ≡ some q → Move p e q
    unfolding empty_manager
    empty_manager-Move k h = elim (Bool-cases p.shut) [
      | inr s ↦ absurd (cc (rw s at h))
      | inl s ↦ empties k (eq_of_some-eq (ground arith))
    ]

  pub step-Move :
      (p : WorkerPool) (e : Event) (q : WorkerPool) → step run_command p e ≡ some q → Move p e q
  unfolding step
  step-Move p (submits job) q h = submit-Move p _ q job refl h
  step-Move p (receives i) q h =
      let (w, at, k) = at_worker-some _ _ q h in receive-Move p _ q i w p.jobs at refl k
  step-Move p (begins_code i) q h =
      let (w, at, k) = at_worker-some _ _ q h in begin_code-Move p _ q i w at k
  step-Move p (returns i) q h =
      let (w, at, k) = at_worker-some _ _ q h in return-Move p _ q i w at refl k
  step-Move p (searches i order) q h =
      let (w, at, k) = at_worker-some _ _ q h in search_container-Move p _ q i order w at k
  step-Move p (finishes i elapsed) q h =
      let (w, at, k) = at_worker-some _ _ q h in finish-Move p _ q i elapsed w at k
  step-Move p (checks_health listing order outcomes) q h =
      checks listing order outcomes refl (eq_of_some-eq h)
  step-Move p (removes id) q h = loses id refl (eq_of_some-eq h)
  step-Move p closes_channels q h = close_channels-Move p _ q refl h
  step-Move p empties_manager q h = empty_manager-Move p _ q refl h

  -- What every move keeps, a run keeps.
  pub run-Move :
      (P : WorkerPool → Type 0)
      → ((p : WorkerPool) (e : Event) (q : WorkerPool) → Move p e q → P p → P q)
      → (p q : WorkerPool) (es : List Event) → run run_command p es ≡ some q
      → P p
      → P q
  unfolding run
  run-Move P keeps p q [] h c = subst P (eq_of_some-eq h) c
  run-Move P keeps p q (e ∷ es) h c = elim (Option-cases (step run_command p e)) [
    | inl x ↦ absurd (ground arith)
    | inr (r, x) ↦ run-Move P keeps r q es (ground arith) (keeps p e r (step-Move p e r x) c)
  ]
