-- ===== src/Executor/ContainerManager/Health.antt =====
-- checkHealth of executor/container_manager.go: how many containers the pool has afterwards, and
-- what the check looks at.
use code_execution_engine.Common.{
  ◌≡◌, refl, ap, ℕ, ◌+◌, ◌-◌, ◌≤◌, ◌<◌, List, [], ◌∷◌, Text, lookup, insert, ◌&&◌, length, Distinct,
  IsRange, has, keys, keep, keys-IsRange, keep-IsRange, length-keys, length-keep-not,
  length-IsRange, All-map, All-passes-keep, keep-AllDifferent, same, if◌then◌else◌, true, not, ok,
  Bool, arith,
}
use code_execution_engine.Executor.ContainerManager.{
  ContainerManager, Start, starts, Listed, remove_containers, running_workers, is_running, is_live,
  adjust_pool, to_remove, adjust_health, check_health, container_count,
}
use code_execution_engine.Executor.ContainerManager.Removal.{
  length-remove_containers, length-remove_excess_containers, remove_containers-max_workers,
  remove_containers-Distinct,
}
use code_execution_engine.Executor.ContainerManager.Count.{
  start_containers-bounds, start_containers-fresh, IsFresh,
}

-- The pool without the containers that are marked for removal.
abbrev pub cleared : ContainerManager → List (Text × Bool) → ContainerManager
cleared cm running = remove_containers cm (to_remove cm running)

to_remove-IsRange :
    (cm : ContainerManager) (running : List (Text × Bool))
    → Distinct cm.containers
    → IsRange cm.containers (to_remove cm running)
unfolding to_remove
to_remove-IsRange cm running d =
    keep-IsRange (λ id. not (is_running running id)) cm.containers _ (keys-IsRange cm.containers d)

length-cleared :
    (cm : ContainerManager) (running : List (Text × Bool))
    → Distinct cm.containers
    → length (cleared cm running).containers + length (to_remove cm running) ≡ length cm.containers
length-cleared cm running d =
    length-remove_containers cm (to_remove cm running) d (to_remove-IsRange cm running d)

has-is_running :
    (running : List (Text × Bool)) (id : Text)
    → is_running running id ≡ true
    → has running id ≡ true
has-is_running running id h = ground arith

-- A container that stays is one of the running ones.
length-cleared-le :
    (cm : ContainerManager) (running : List (Text × Bool))
    → Distinct cm.containers
    → length (cleared cm running).containers ≤ length running
unfolding to_remove
length-cleared-le cm running d = omega (
  arith,
  length-cleared cm running d,
  length-keep-not (is_running running) (keys cm.containers),
  length-keys cm.containers,
  length-IsRange running (keep (is_running running) (keys cm.containers)) (
    All-map _ _ (has-is_running running) _
        (All-passes-keep (is_running running) (keys cm.containers)),
    keep-AllDifferent (is_running running) _ (keys-IsRange cm.containers d).1,
  ),
)

adjust_pool-bounds :
    (cm : ContainerManager) (current_count running : ℕ) (order : List Text) (outcomes : ℕ → Start)
    → Distinct cm.containers
    → IsRange cm.containers order
    → length order ≡ length cm.containers
    → current_count ≡ length cm.containers
    → current_count ≤ running
    → length (adjust_pool cm current_count running order outcomes).containers ≤ cm.max_workers
unfolding adjust_pool
adjust_pool-bounds cm current_count running order outcomes d r all c h = ground (
  arith,
  start_containers-bounds (cm.max_workers - current_count) outcomes cm,
  length-remove_excess_containers cm order (running - cm.max_workers) d r all,
)

adjust_health-bounds :
    (cm : ContainerManager) (running : List (Text × Bool)) (order : List Text)
    (outcomes : ℕ → Start)
    → Distinct cm.containers
    → IsRange (cleared cm running).containers order
    → length order ≡ length (cleared cm running).containers
    → length (adjust_health cm running order outcomes).containers ≤ cm.max_workers
unfolding adjust_health
adjust_health-bounds cm running order outcomes d r all = omega (
  arith,
  adjust_pool-bounds (cleared cm running) (length cm.containers - length (to_remove cm running))
      (length running) order outcomes (remove_containers-Distinct cm (to_remove cm running) d) r all
      (omega (arith, length-cleared cm running d))
      (omega (arith, length-cleared cm running d, length-cleared-le cm running d)),
  remove_containers-max_workers cm (to_remove cm running),
)

-- After a health check whose listing succeeds the pool has at most maxWorkers containers, whatever
-- the listing says and however the starts end, also where there were more before. `order` is a
-- range over the containers that are not marked for removal.
pub check_health-bounds :
    (cm : ContainerManager) (listing : List Listed) (order : List Text) (outcomes : ℕ → Start)
    → Distinct cm.containers
    → IsRange (cleared cm (running_workers cm listing)).containers order
    → length order ≡ length (cleared cm (running_workers cm listing)).containers
    → container_count (check_health cm (ok listing) order outcomes) ≤ cm.max_workers
unfolding check_health container_count
check_health-bounds cm listing order outcomes d r all =
    adjust_health-bounds cm (running_workers cm listing) order outcomes d r all

adjust_pool-fills :
    (cm : ContainerManager) (current_count running : ℕ) (order : List Text) (ids : ℕ → Text)
    → current_count ≡ length cm.containers
    → current_count < cm.max_workers
    → IsFresh cm.containers ids
    → length (adjust_pool cm current_count running order (λ i. starts (ids i))).containers
      ≡ cm.max_workers
unfolding adjust_pool
adjust_pool-fills cm current_count running order ids c h f =
    ground (arith, start_containers-fresh (cm.max_workers - current_count) ids cm f)

-- Where fewer than maxWorkers containers are left and the replacements start with IDs that are
-- new, the health check brings the pool to maxWorkers containers.
pub check_health-fills :
    (cm : ContainerManager) (listing : List Listed) (order : List Text) (ids : ℕ → Text)
    → Distinct cm.containers
    → length (cleared cm (running_workers cm listing)).containers < cm.max_workers
    → IsFresh (cleared cm (running_workers cm listing)).containers ids
    → container_count (check_health cm (ok listing) order (λ i. starts (ids i))) ≡ cm.max_workers
unfolding check_health container_count adjust_health
check_health-fills cm listing order ids d h f =
    let running = running_workers cm listing in
    omega (
      arith,
      adjust_pool-fills (cleared cm running) (length cm.containers - length (to_remove cm running))
          (length running) order ids (omega (arith, length-cleared cm running d))
          (omega (
            arith,
            length-cleared cm running d,
            remove_containers-max_workers cm (to_remove cm running),
          ))
          f,
      remove_containers-max_workers cm (to_remove cm running),
    )

-- A listing with other states in it.
abbrev pub with_state : Text → List Listed → List Listed
with_state s [] = []
with_state s (c ∷ cs) = record c { state = s } ∷ with_state s cs

running_workers-with_state :
    (cm : ContainerManager) (s : Text) (listing : List Listed)
    → running_workers cm (with_state s listing) ≡ running_workers cm listing
unfolding running_workers
running_workers-with_state cm s [] = refl
running_workers-with_state cm s (c ∷ cs) =
    ap
      (λ rest.
        if same c.image cm.worker_image && is_live (lookup c.id cm.containers)
        then insert c.id true rest
        else rest)
      (running_workers-with_state cm s cs)

-- The health check does not look at the state that Docker reports: whatever it is ("exited", say),
-- for all of the containers, the check does the same.
pub check_health-with_state :
    (cm : ContainerManager) (s : Text) (listing : List Listed) (order : List Text)
    (outcomes : ℕ → Start)
    → check_health cm (ok (with_state s listing)) order outcomes
      ≡ check_health cm (ok listing) order outcomes
unfolding check_health
check_health-with_state cm s listing order outcomes =
    ap (λ r. adjust_health cm r order outcomes) (running_workers-with_state cm s listing)
