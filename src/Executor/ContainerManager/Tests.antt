-- ===== src/Executor/ContainerManager/Tests.antt =====
-- A pool with concrete containers, and each theorem at one.
use code_execution_engine.Common.{
  ℕ, ◌≡◌, ◌≢◌, ◌≤◌, refl, List, [], ◌∷◌, some, Text, ok, codes, lookup, insert, delete, same,
  same_iff, Distinct, arith,
}
use code_execution_engine.Executor.ContainerManager.{
  ContainerManager, ContainerInfo, ContainerState, idle, busy, error, Listed, create_fails, starts,
  start_container, start_containers, register, adopt, adjust_count, initialize_pool,
  container_count, remove_container, remove_containers, running_workers, to_remove, adjust_pool,
  adjust_health, check_health, assign, retry, get_available_container,
}
use code_execution_engine.Executor.ContainerManager.Count.{IsFresh, initialize_pool-bounds}
use code_execution_engine.Executor.ContainerManager.Health.{
  with_state, check_health-bounds, check_health-fills, check_health-with_state,
}
use code_execution_engine.Executor.ContainerManager.Assignment.{state_of}
use code_execution_engine.Executor.ContainerManager.Retry.{seen_by, get_available_container_err}

abbrev first : Text
first = codes "c1"

abbrev second : Text
second = codes "c2"

abbrev entry : Text → ContainerState → Text × ContainerInfo
entry id state = (id, record { id = id; state = state })

abbrev pool : List (Text × ContainerInfo) → ContainerManager
pool containers = record {
  containers = containers;
  max_workers = 2;
  memorylimit = 400;
  cpunanolimit = 500;
  worker_image = codes "worker";
}

abbrev listed : Text → Listed
listed id = record { id = id; image = codes "worker"; state = codes "running" }

abbrev both : ContainerManager
both = pool (entry first idle ∷ entry second idle ∷ [])

abbrev broken : ContainerManager
broken = pool (entry first idle ∷ entry second error ∷ [])

abbrev both_listed : List Listed
both_listed = listed first ∷ listed second ∷ []

abbrev names : List Text
names = first ∷ second ∷ []

-- IDs of one character, all different.
abbrev short_id : ℕ → Text
short_id i = i ∷ []

abbrev leave : ℕ → ContainerManager → ContainerManager
leave i cm = cm

-- The broken container is removed, and a new one takes its place.
replaces : container_count (check_health broken (ok both_listed) [] (λ i. starts (short_id i))) ≡ 2
unfolding check_health adjust_health adjust_pool running_workers to_remove remove_containers
    remove_container start_containers start_container container_count lookup insert delete same
replaces = refl

-- A container that Docker reports as exited stays in the pool.
exited_stays :
    check_health both (ok (with_state (codes "exited") both_listed)) [] (λ i. create_fails [])
    ≡ both
unfolding check_health adjust_health adjust_pool running_workers to_remove remove_containers lookup
    insert same
exited_stays = refl

initialize_pool-bounds_example : (1 ≤ container_count both) × (container_count both ≤ 2)
unfolding initialize_pool register adopt adjust_count lookup insert same Distinct
initialize_pool-bounds_example =
    initialize_pool-bounds (pool []) both both_listed names (λ i. create_fails []) tt
      ((refl, (refl, tt)), ((refl, tt), (tt, tt))) refl refl

check_health-bounds_example :
    container_count (check_health broken (ok both_listed) (first ∷ []) (λ i. create_fails [])) ≤ 2
unfolding check_health adjust_health running_workers to_remove remove_containers remove_container
    lookup insert delete same Distinct
check_health-bounds_example =
    check_health-bounds broken both_listed (first ∷ []) (λ i. create_fails []) (refl, (refl, tt))
      ((refl, tt), (tt, tt)) refl

short_ids-IsFresh : IsFresh (entry first idle ∷ []) short_id
unfolding lookup
short_ids-IsFresh = (
  (λ i. ground (arith, same_iff first (i ∷ []))),
  (λ i j h. ground (arith, same_iff (i ∷ []) (j ∷ []))),
)

check_health-fills_example :
    container_count (check_health broken (ok both_listed) [] (λ i. starts (short_id i))) ≡ 2
unfolding check_health adjust_health running_workers to_remove remove_containers remove_container
    lookup insert delete same Distinct
check_health-fills_example =
    check_health-fills broken both_listed [] short_id (refl, (refl, tt)) (omega arith)
      short_ids-IsFresh

check_health-with_state_example :
    check_health both (ok (with_state (codes "exited") both_listed)) [] (λ i. create_fails [])
    ≡ check_health both (ok both_listed) [] (λ i. create_fails [])
check_health-with_state_example =
    check_health-with_state both (codes "exited") both_listed [] (λ i. create_fails [])

abbrev one_left : ContainerManager
one_left = pool (entry first busy ∷ entry second idle ∷ [])

abbrev none_left : ContainerManager
none_left = pool (entry first busy ∷ entry second busy ∷ [])

get_available_container_err_example : state_of (seen_by leave 0 none_left 9) first ≢ some idle
unfolding get_available_container retry assign lookup same
get_available_container_err_example =
    get_available_container_err leave (λ i. names) none_left none_left
      (codes "no available containers after 10 retries") refl 9 (omega arith)
      ((refl, (refl, tt)), ((refl, tt), (tt, tt))) refl first
