-- ===== src/Executor/ContainerManager.antt =====
-- executor/container_manager.go. The Docker client is a parameter: what ContainerList returns and
-- how each start of a container ends are arguments, and errors of ContainerRemove are only logged
-- by the code. `order` is the order in which `range` goes over the map, which Go leaves open.
-- Logging is left out, and with it the slices of an ID, which Docker makes longer than twelve bytes.
-- A method is one step, but for GetAvailableContainer, between whose rounds others may act.
pub mod Removal
pub mod Assignment
pub mod Retry
pub mod Health
pub mod Count
pub mod Image
pub mod Usage
mod Tests
use code_execution_engine.Common.{
  ℕ, zero, suc, ◌+◌, ◌-◌, ◌*◌, Bool, true, false, not, ◌&&◌, List, [], ◌∷◌, ◌++◌, Option, none,
  some, Text, Fallible, ok, err, codes, same, ltb, leb, ◌==◌, if◌then◌else◌, length, take, keep,
  lookup, insert, delete, keys,
}

pub data ContainerState : Type 0 where
  idle busy error : ContainerState

abbrev pub is_idle : ContainerState → Bool
is_idle idle = true
is_idle _ = false

abbrev pub is_error : ContainerState → Bool
is_error error = true
is_error _ = false

pub record ContainerInfo : Type 0 where
  pub id : Text
  pub state : ContainerState

-- The channel of a job, on which the pool sends one result, is a number.
pub record Job : Type 0 where
  pub language : Text
  pub code : Text
  pub result : ℕ

pub record Result : Type 0 where
  pub output : Text
  pub success : Bool
  pub error : Option Text
  pub execution_time : Text

pub record ContainerManager : Type 0 where
  pub containers : List (Text × ContainerInfo)
  pub max_workers : ℕ
  pub memorylimit : ℕ
  pub cpunanolimit : ℕ
  pub worker_image : Text

-- A container as ContainerList reports it.
pub record Listed : Type 0 where
  pub id : Text
  pub image : Text
  pub state : Text

-- How ContainerCreate and ContainerStart end: with the new container's ID where both succeed.
pub data Start : Type 0 where
  create_fails : Text → Start
  start_fails : Text → Text → Start
  starts : Text → Start

abbrev pub put_container : Text → ContainerState → ContainerManager → ContainerManager
put_container id state cm = record cm {
  containers = insert id (record { id = id; state = state }) cm.containers;
}

-- `StartContainer`: the error is `none` where the pool is full already, too.
unfoldable pub start_container : ContainerManager → Start → ContainerManager × Option Text
start_container cm outcome =
    if leb cm.max_workers (length cm.containers) then (cm, none) else elim outcome [
      | create_fails e ↦ (cm, some (codes "failed to create container: " ++ e))
      | start_fails id e ↦ (cm, some (codes "failed to start container: " ++ e))
      | starts id ↦ (put_container id idle cm, none)
    ]

-- The loops that call StartContainer `n` times; an error is logged and the loop goes on.
unfoldable pub start_containers : ℕ → (ℕ → Start) → ContainerManager → ContainerManager
start_containers zero outcomes cm = cm
start_containers (suc n) outcomes cm =
    start_containers n (λ i. outcomes (suc i)) (start_container cm (outcomes 0)).0

unfoldable pub remove_container : ContainerManager → Text → ContainerManager
remove_container cm id = record cm { containers = delete id cm.containers }

unfoldable pub remove_containers : ContainerManager → List Text → ContainerManager
remove_containers cm [] = cm
remove_containers cm (id ∷ ids) = remove_containers (remove_container cm id) ids

-- `removeExcessContainers`: the first `count` that the range meets.
unfoldable pub remove_excess_containers : ContainerManager → List Text → ℕ → ContainerManager
remove_excess_containers cm order count = remove_containers cm (take count order)

-- `runningWorkers` of checkHealth, as a map to `true`.
abbrev pub is_live : Option ContainerInfo → Bool
is_live none = false
is_live (some info) = not (is_error info.state)

unfoldable pub running_workers : ContainerManager → List Listed → List (Text × Bool)
running_workers cm [] = []
running_workers cm (c ∷ cs) =
    let rest = running_workers cm cs in
    if same c.image cm.worker_image && is_live (lookup c.id cm.containers)
    then insert c.id true rest
    else rest

abbrev pub is_running : List (Text × Bool) → Text → Bool
is_running running id = elim (lookup id running) [ none ↦ false | some b ↦ b ]

-- The keys that are marked for removal.
unfoldable pub to_remove : ContainerManager → List (Text × Bool) → List Text
to_remove cm running = keep (λ id. not (is_running running id)) (keys cm.containers)

-- The end of checkHealth, with `len(runningWorkers)`; `order` is the range of
-- removeExcessContainers, `outcomes` are the starts of the replacements.
unfoldable pub adjust_pool : ContainerManager → ℕ → ℕ → List Text → (ℕ → Start) → ContainerManager
adjust_pool cm current_count running order outcomes =
    if ltb current_count cm.max_workers
    then start_containers (cm.max_workers - current_count) outcomes cm
    else if ltb cm.max_workers running
    then remove_excess_containers cm order (running - cm.max_workers)
    else cm

-- `checkHealth` after a successful ContainerList.
unfoldable pub adjust_health :
    ContainerManager → List (Text × Bool) → List Text → (ℕ → Start) → ContainerManager
adjust_health cm running order outcomes =
    let dead = to_remove cm running in
    adjust_pool (remove_containers cm dead) (length cm.containers - length dead) (length running)
      order outcomes

unfoldable pub check_health :
    ContainerManager → Fallible (List Listed) → List Text → (ℕ → Start) → ContainerManager
check_health cm (err e) order outcomes = cm
check_health cm (ok listing) order outcomes =
    adjust_health cm (running_workers cm listing) order outcomes

-- `info.State = state` for the container that the map has at `id`.
abbrev pub mark : ContainerInfo → Text → ContainerState → ContainerManager → ContainerManager
mark info id state cm = record cm {
  containers = insert id (record info { state = state }) cm.containers;
}

-- One round of GetAvailableContainer over the map, in the order of the range.
unfoldable pub assign : ContainerManager → List Text → Option (Text × ContainerManager)
assign cm [] = none
assign cm (id ∷ ids) =
    let later = assign cm ids in
    elim (lookup id cm.containers) [
      | none ↦ later
      | some info ↦ if is_idle info.state then some (id, mark info id busy cm) else later
    ]

-- The rounds of GetAvailableContainer. `meanwhile i` is what others do to the manager before round
-- `i`, during the sleep, and `orders i` the range of that round.
unfoldable pub retry :
    ℕ
    → ℕ
    → (ℕ → ContainerManager → ContainerManager)
    → (ℕ → List Text)
    → ContainerManager
    → ContainerManager × Fallible Text
retry zero i meanwhile orders cm = (cm, err (codes "no available containers after 10 retries"))
retry (suc n) i meanwhile orders cm =
    let seen = meanwhile i cm in
    let next = retry n (suc i) meanwhile orders seen in
    elim (assign seen (orders i)) [ none ↦ next | some (id, taken) ↦ (taken, ok id) ]

abbrev pub max_retries : ℕ
max_retries = 10

unfoldable pub get_available_container :
    (ℕ → ContainerManager → ContainerManager)
    → (ℕ → List Text)
    → ContainerManager
    → ContainerManager × Fallible Text
get_available_container meanwhile orders cm = retry max_retries 0 meanwhile orders cm

unfoldable pub set_container_state : ContainerManager → Text → ContainerState → ContainerManager
set_container_state cm id state = elim (lookup id cm.containers) [
  | none ↦ cm
  | some info ↦ mark info id state cm
]

unfoldable pub shutdown : ContainerManager → ContainerManager
shutdown cm = record cm { containers = [] }

unfoldable pub container_count : ContainerManager → ℕ
container_count cm = length cm.containers

-- The loop of InitializePool over the containers that are there, and its body.
unfoldable pub adopt : ContainerManager → Listed → ContainerManager
adopt cm c =
    if same c.image cm.worker_image
    then put_container c.id (if same c.state (codes "running") then idle else error) cm
    else cm

unfoldable pub register : ContainerManager → List Listed → ContainerManager
register cm [] = cm
register cm (c ∷ cs) = register (adopt cm c) cs

-- The rest of `InitializePool`.
unfoldable pub adjust_count : ContainerManager → List Text → (ℕ → Start) → ContainerManager
adjust_count cm order outcomes =
    let current_count = length cm.containers in
    if ltb cm.max_workers current_count
    then remove_excess_containers cm order (current_count - cm.max_workers)
    else if ltb current_count cm.max_workers
    then start_containers (cm.max_workers - current_count) outcomes cm
    else cm

unfoldable pub initialize_pool :
    ContainerManager
    → Fallible (List Listed)
    → List Text
    → (ℕ → Start)
    → ContainerManager × Option Text
initialize_pool cm (err e) order outcomes = (cm, some (codes "failed to list containers: " ++ e))
initialize_pool cm (ok listing) order outcomes =
    let cm' = adjust_count (register cm listing) order outcomes in
    if length cm'.containers == 0
    then (cm', some (codes "failed to initialize container pool: no containers available"))
    else (cm', none)
