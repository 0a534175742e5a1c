-- ===== src/Executor/WorkerPool/Pool/Quiet.antt =====
-- What executor/container_manager.go does to the containers that a job holds: none of its operations
-- makes one of them idle, but for SetContainerState.
use code_execution_engine.Common.{
  ℕ, zero, suc, ◌-◌, ◌≡◌, refl, false, Bool-cases, ltb, List, [], ◌∷◌, Text, Fallible, ok, err,
  same, take, lookup, lookup-insert, lookup-delete, arith, inl, inr,
}
use code_execution_engine.Executor.ContainerManager.{
  ContainerManager, ContainerState, idle, busy, Listed, Start, create_fails, start_fails, starts,
  start_container, start_containers, remove_container, remove_containers, remove_excess_containers,
  adjust_pool, adjust_health, running_workers, to_remove, check_health, set_container_state,
  shutdown,
}
use code_execution_engine.Executor.ContainerManager.Assignment.{set_container_state_lem}
use code_execution_engine.Executor.WorkerPool.Pool.Holders.{IsQuiet}

-- Docker gives no new container the ID `j`.
abbrev pub IsNew : (ℕ → Start) → Text → Type 0
IsNew outcomes j = (n : ℕ) (id : Text) → outcomes n ≡ starts id → same id j ≡ false

pub remove_container-IsQuiet :
    (cm : ContainerManager) (id j : Text) → IsQuiet cm (remove_container cm id) j
unfolding remove_container
remove_container-IsQuiet cm id j h = ground (arith, lookup-delete id j cm.containers)

pub shutdown-IsQuiet : (cm : ContainerManager) (j : Text) → IsQuiet cm (shutdown cm) j
unfolding shutdown lookup
shutdown-IsQuiet cm j h = λ e. cc e

pub set_busy-IsQuiet :
    (cm : ContainerManager) (id j : Text) → IsQuiet cm (set_container_state cm id busy) j
set_busy-IsQuiet cm id j h = ground (arith, set_container_state_lem cm id busy j)

pub set_other-IsQuiet :
    (cm : ContainerManager) (id : Text) (s : ContainerState) (j : Text)
    → same id j ≡ false
    → IsQuiet cm (set_container_state cm id s) j
set_other-IsQuiet cm id s j n h = ground (arith, set_container_state_lem cm id s j)

remove_containers-IsQuiet :
    (cm : ContainerManager) (ids : List Text) (j : Text) → IsQuiet cm (remove_containers cm ids) j
unfolding remove_containers
remove_containers-IsQuiet cm [] j h = h
remove_containers-IsQuiet cm (id ∷ ids) j h =
    remove_containers-IsQuiet (remove_container cm id) ids j (remove_container-IsQuiet cm id j h)

start_container-IsQuiet :
    (cm : ContainerManager) (o : Start) (j : Text)
    → ((id : Text) → o ≡ starts id → same id j ≡ false)
    → IsQuiet cm (start_container cm o).0 j
unfolding start_container
start_container-IsQuiet cm (create_fails e) j n h = ground arith
start_container-IsQuiet cm (start_fails id e) j n h = ground arith
start_container-IsQuiet cm (starts id) j n h =
    ground (arith, n id refl, lookup-insert id j (record { id = id; state = idle }) cm.containers)

start_containers-IsQuiet :
    (n : ℕ) (outcomes : ℕ → Start) (cm : ContainerManager) (j : Text)
    → IsNew outcomes j
    → IsQuiet cm (start_containers n outcomes cm) j
unfolding start_containers
start_containers-IsQuiet zero outcomes cm j new h = h
start_containers-IsQuiet (suc n) outcomes cm j new h =
    start_containers-IsQuiet n (λ i. outcomes (suc i)) (start_container cm (outcomes 0)).0 j
      (λ i. new (suc i)) (start_container-IsQuiet cm (outcomes 0) j (new 0) h)

adjust_pool-IsQuiet :
    (cm : ContainerManager) (current running : ℕ) (order : List Text) (outcomes : ℕ → Start)
    (j : Text)
    → IsNew outcomes j
    → IsQuiet cm (adjust_pool cm current running order outcomes) j
unfolding adjust_pool remove_excess_containers
adjust_pool-IsQuiet cm current running order outcomes j new h =
    elim (Bool-cases (ltb current cm.max_workers)) [
      | inl e ↦
          rw (e, adjust_pool)
            (start_containers-IsQuiet (cm.max_workers - current) outcomes cm j new h)
      | inr e ↦ elim (Bool-cases (ltb cm.max_workers running)) [
        | inl f ↦
            rw (e, f, adjust_pool)
              (remove_containers-IsQuiet cm (take (running - cm.max_workers) order) j h)
        | inr f ↦ rw (e, f, adjust_pool) h
      ]
    ]

pub check_health-IsQuiet :
    (cm : ContainerManager) (listing : Fallible (List Listed)) (order : List Text)
    (outcomes : ℕ → Start) (j : Text)
    → IsNew outcomes j
    → IsQuiet cm (check_health cm listing order outcomes) j
unfolding check_health adjust_health
check_health-IsQuiet cm (err e) order outcomes j new h = h
check_health-IsQuiet cm (ok listing) order outcomes j new h =
    let running = running_workers cm listing in
    let dead = to_remove cm running in
    adjust_pool-IsQuiet (remove_containers cm dead) _ _ order outcomes j new
      (remove_containers-IsQuiet cm dead j h)
