-- ===== src/Worker/Firecracker/Pool/Moves.antt =====
-- The ways in which a step of a pool of worker/firecracker/firecracker.go may go, each with what it
-- finds and what it leaves.
use mathlib.Core.Path.{subst}
use code_execution_engine.Common.{
  pos_part, ℕ, ◌+◌, ◌-◌, ◌≡◌, refl, inl, inr, true, false, Bool-cases, ltb, List, [], ◌∷◌, ◌++◌,
  some, Option-cases, eq_of_some-eq, Text, Fallible, length, get_elem?, set, arith,
}
use code_execution_engine.Worker.{Job}
use code_execution_engine.Worker.Firecracker.Vsock.{ExecuteReq, ExecuteResp}
use code_execution_engine.Worker.Firecracker.Instance.{Machine}
use code_execution_engine.Worker.Firecracker.Pool.{
  FirecrackerPool, WorkerState, waiting, holding, running, returned, submit, all_returned,
  begin_shutdown, end_shutdown, Event, submits, receives, acquires, finishes, begins_shutdown,
  ends_shutdown, returns, receive, acquire, return_on_shutdown, outcome, finish, step, run,
}

module _ (join : Text → Text → Text) (quote : Text → Text) (marshal : ExecuteReq → Fallible Text)
    (unmarshal : Text → Fallible ExecuteResp) where
  pub data Move (d : FirecrackerPool) (ev : Event) (e : FirecrackerPool) : Type 0 where
    rejects :
        (job : Job)
        → ev ≡ submits job
        → ltb (length d.jobs) d.capacity ≡ false
        → d ≡ e
        → Move d ev e
    accepts :
        (job : Job)
        → ev ≡ submits job
        → ltb (length d.jobs) d.capacity ≡ true
        → record d { jobs = d.jobs ++ job ∷ []; total_executed = d.total_executed + 1 } ≡ e
        → Move d ev e
    takes_job :
        (i : ℕ) (job : Job) (rest : List Job)
        → ev ≡ receives i
        → get_elem? d.workers i ≡ some waiting
        → d.jobs ≡ job ∷ rest
        → record d { jobs = rest; workers = set d.workers i (holding job) } ≡ e
        → Move d ev e
    takes_slot :
        (i : ℕ) (job : Job)
        → ev ≡ acquires i
        → get_elem? d.workers i ≡ some (holding job)
        → ltb d.warm (pos_part d.cfg.max_workers) ≡ true
        → record d { warm = d.warm + 1; workers = set d.workers i (running job) } ≡ e
        → Move d ev e
    answers :
        (i : ℕ) (m : Machine) (job : Job)
        → ev ≡ finishes i m
        → get_elem? d.workers i ≡ some (running job)
        → record d {
          warm = d.warm - 1;
          workers = set d.workers i waiting;
          results =
              d.results
              ++ (job.result, outcome join quote marshal unmarshal d.snapshot_dir m job) ∷ [];
        }
          ≡ e
        → Move d ev e
    shuts : ev ≡ begins_shutdown → record d { shut = true } ≡ e → Move d ev e
    closes_slots :
        ev ≡ ends_shutdown
        → all_returned d.workers ≡ true
        → record d { warm_closed = true } ≡ e
        → Move d ev e
    leaves :
        (i : ℕ)
        → ev ≡ returns i
        → get_elem? d.workers i ≡ some waiting
        → d.shut ≡ true
        → record d { workers = set d.workers i returned } ≡ e
        → Move d ev e

  module _ (d e : FirecrackerPool) (ev : Event) where
    submit-Move : (job : Job) → ev ≡ submits job → (submit d job).0 ≡ e → Move d ev e
    unfolding submit
    submit-Move job k h = elim (Bool-cases (ltb (length d.jobs) d.capacity)) [
      | inl x ↦ accepts job k x (ground arith)
      | inr x ↦ rejects job k x (ground arith)
    ]

    receive-Move :
        (i : ℕ) (w : WorkerState) (js : List Job)
        → ev ≡ receives i
        → get_elem? d.workers i ≡ some w
        → d.jobs ≡ js
        → receive d i w js ≡ some e
        → Move d ev e
    unfolding receive
    receive-Move i waiting (job ∷ rest) k at j h = takes_job i job rest k at j (eq_of_some-eq h)
    receive-Move i waiting [] k at j h = absurd (cc h)
    receive-Move i (holding j) js k at q h = absurd (cc h)
    receive-Move i (running j) js k at q h = absurd (cc h)
    receive-Move i returned js k at q h = absurd (cc h)

    acquire-Move :
        (i : ℕ) (w : WorkerState)
        → ev ≡ acquires i
        → get_elem? d.workers i ≡ some w
        → acquire d i w ≡ some e
        → Move d ev e
    unfolding acquire
    acquire-Move i (holding job) k at h =
        elim (Bool-cases (ltb d.warm (pos_part d.cfg.max_workers))) [
          | inl x ↦ takes_slot i job k at x (eq_of_some-eq (rw x at h))
          | inr x ↦ absurd (ground arith)
        ]
    acquire-Move i waiting k at h = absurd (cc h)
    acquire-Move i (running j) k at h = absurd (cc h)
    acquire-Move i returned k at h = absurd (cc h)

    finish-Move :
        (i : ℕ) (m : Machine) (w : WorkerState)
        → ev ≡ finishes i m
        → get_elem? d.workers i ≡ some w
        → finish join quote marshal unmarshal d i m w ≡ some e
        → Move d ev e
    unfolding finish
    finish-Move i m (running job) k at h = answers i m job k at (eq_of_some-eq h)
    finish-Move i m waiting k at h = absurd (cc h)
    finish-Move i m (holding j) k at h = absurd (cc h)
    finish-Move i m returned k at h = absurd (cc h)

    return-Move :
        (i : ℕ) (w : WorkerState)
        → ev ≡ returns i
        → get_elem? d.workers i ≡ some w
        → return_on_shutdown d i w ≡ some e
        → Move d ev e
    unfolding return_on_shutdown
    return-Move i waiting k at h = elim (Bool-cases d.shut) [
      | inl x ↦ leaves i k at x (eq_of_some-eq (ground arith))
      | inr x ↦ absurd (ground arith)
    ]
    return-Move i (holding j) k at h = absurd (cc h)
    return-Move i (running j) k at h = absurd (cc h)
    return-Move i returned k at h = absurd (cc h)

    begin-Move : ev ≡ begins_shutdown → begin_shutdown d ≡ some e → Move d ev e
    unfolding begin_shutdown
    begin-Move k h = elim (Bool-cases d.shut) [
      | inl x ↦ absurd (ground arith)
      | inr x ↦ shuts k (eq_of_some-eq (rw x at h))
    ]

    end-Move : ev ≡ ends_shutdown → end_shutdown d ≡ some e → Move d ev e
    unfolding end_shutdown
    end-Move k h = closes_slots k (ground arith) (ground arith)

  pub step-Move :
      (d : FirecrackerPool) (ev : Event) (e : FirecrackerPool)
      → step join quote marshal unmarshal d ev ≡ some e
      → Move d ev e
  unfolding step
  step-Move d (submits job) e h = submit-Move d e _ job refl (eq_of_some-eq h)
  step-Move d (receives i) e h = elim (Option-cases (get_elem? d.workers i)) [
    | inl x ↦ absurd (ground arith)
    | inr (w, x) ↦ receive-Move d e _ i w d.jobs refl x refl (ground arith)
  ]
  step-Move d (acquires i) e h = elim (Option-cases (get_elem? d.workers i)) [
    | inl x ↦ absurd (ground arith)
    | inr (w, x) ↦ acquire-Move d e _ i w refl x (ground arith)
  ]
  step-Move d (finishes i m) e h = elim (Option-cases (get_elem? d.workers i)) [
    | inl x ↦ absurd (ground arith)
    | inr (w, x) ↦ finish-Move d e _ i m w refl x (ground arith)
  ]
  step-Move d begins_shutdown e h = begin-Move d e _ refl h
  step-Move d ends_shutdown e h = end-Move d e _ refl h
  step-Move d (returns i) e h = elim (Option-cases (get_elem? d.workers i)) [
    | inl x ↦ absurd (ground arith)
    | inr (w, x) ↦ return-Move d e _ i w refl x (ground arith)
  ]

  -- What every move keeps, a run keeps.
  pub run-Move :
      (P : FirecrackerPool → Type 0)
      → ((d : FirecrackerPool) (ev : Event) (e : FirecrackerPool) → Move d ev e → P d → P e)
      → (d e : FirecrackerPool) (evs : List Event) → run join quote marshal unmarshal d evs ≡ some e
      → P d
      → P e
  unfolding run
  run-Move P keeps d e [] h c = subst P (eq_of_some-eq h) c
  run-Move P keeps d e (ev ∷ evs) h c =
      elim (Option-cases (step join quote marshal unmarshal d ev)) [
        | inl x ↦ absurd (ground arith)
        | inr (f, x) ↦ run-Move P keeps f e evs (ground arith) (keeps d ev f (step-Move d ev f x) c)
      ]
