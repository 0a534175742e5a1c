-- ===== src/Executor/ContainerManager/Count.antt =====
-- StartContainer and InitializePool of executor/container_manager.go: how many containers the pool
-- has afterwards.
use code_execution_engine.Common.{
  ap, inl, inr, ◌≡◌, refl, ◌∙◌, zero, suc, ℕ, ◌+◌, ◌-◌, ◌≤◌, ◌<◌, List, [], ◌∷◌, none, Text, length,
  Distinct, insert-Distinct, IsRange, has, length-insert-le, length-insert_new, lookup-insert, same,
  false, Bool-cases, ok, arith,
}
use code_execution_engine.Executor.ContainerManager.{
  ContainerManager, ContainerInfo, Start, create_fails, start_fails, starts, put_container, idle,
  start_container, start_containers, adopt, register, adjust_count, initialize_pool, Listed,
  container_count,
}
use code_execution_engine.Executor.ContainerManager.Removal.{length-remove_excess_containers}

start_container-max_workers :
    (cm : ContainerManager) (o : Start) → (start_container cm o).0.max_workers ≡ cm.max_workers
unfolding start_container
start_container-max_workers cm (create_fails e) = ground arith
start_container-max_workers cm (start_fails id e) = ground arith
start_container-max_workers cm (starts id) = ground arith

length-start_container-le :
    (cm : ContainerManager) (o : Start)
    → length cm.containers ≤ cm.max_workers
    → length (start_container cm o).0.containers ≤ cm.max_workers
unfolding start_container
length-start_container-le cm (create_fails e) h = ground arith
length-start_container-le cm (start_fails id e) h = ground arith
length-start_container-le cm (starts id) h =
    ground (arith, length-insert-le id (record { id = id; state = idle }) cm.containers)

pub start_containers-max_workers :
    (n : ℕ) (outcomes : ℕ → Start) (cm : ContainerManager)
    → (start_containers n outcomes cm).max_workers ≡ cm.max_workers
unfolding start_containers
start_containers-max_workers zero outcomes cm = refl
start_containers-max_workers (suc n) outcomes cm =
    start_containers-max_workers n _ (start_container cm (outcomes 0)).0
    ∙ start_container-max_workers cm (outcomes 0)

-- However the starts end, a pool of at most maxWorkers containers stays one.
pub start_containers-bounds :
    (n : ℕ) (outcomes : ℕ → Start) (cm : ContainerManager)
    → length cm.containers ≤ cm.max_workers
    → length (start_containers n outcomes cm).containers ≤ cm.max_workers
unfolding start_containers
start_containers-bounds zero outcomes cm h = h
start_containers-bounds (suc n) outcomes cm h = omega (
  arith,
  start_containers-bounds n (λ i. outcomes (suc i)) (start_container cm (outcomes 0)).0
      (omega (
        arith,
        length-start_container-le cm (outcomes 0) h,
        start_container-max_workers cm (outcomes 0),
      )),
  start_container-max_workers cm (outcomes 0),
)

-- The starts succeed, each with an ID that is new.
abbrev pub IsFresh : List (Text × ContainerInfo) → (ℕ → Text) → Type 0
IsFresh m ids =
    ((i : ℕ) → has m (ids i) ≡ false) × ((i j : ℕ) → i < j → same (ids i) (ids j) ≡ false)

start_container_fresh :
    (cm : ContainerManager) (id : Text)
    → length cm.containers < cm.max_workers
    → (start_container cm (starts id)).0 ≡ put_container id idle cm
unfolding start_container
start_container_fresh cm id h = ground arith

IsFresh-step :
    (cm : ContainerManager) (ids : ℕ → Text)
    → IsFresh cm.containers ids
    → IsFresh (put_container (ids 0) idle cm).containers (λ i. ids (suc i))
IsFresh-step cm ids f = (
  (λ i. ground (
    arith,
    lookup-insert (ids 0) (ids (suc i)) (record { id = ids 0; state = idle }) cm.containers,
    f.0 (suc i),
    f.1 0 (suc i) (omega arith),
  )),
  (λ i j h. f.1 (suc i) (suc j) (omega arith)),
)

-- Starts that succeed with new IDs make the pool longer by their number, as far as it has room.
pub start_containers-fresh :
    (n : ℕ) (ids : ℕ → Text) (cm : ContainerManager)
    → IsFresh cm.containers ids
    → length cm.containers + n ≤ cm.max_workers
    → length (start_containers n (λ i. starts (ids i)) cm).containers ≡ length cm.containers + n
unfolding start_containers
start_containers-fresh zero ids cm f h = omega arith
start_containers-fresh (suc n) ids cm f h =
    ap (λ c. length (start_containers n (λ i. starts (ids (suc i))) c).containers)
      (start_container_fresh cm (ids 0) (omega arith))
    ∙ omega (
      arith,
      start_containers-fresh n (λ i. ids (suc i)) (put_container (ids 0) idle cm)
          (IsFresh-step cm ids f) (omega (arith, longer)),
      longer,
    )
  where
    longer : length (put_container (ids 0) idle cm).containers ≡ suc (length cm.containers)
    longer = length-insert_new (ids 0) (record { id = ids 0; state = idle }) cm.containers (f.0 0)

adopt-Distinct :
    (cm : ContainerManager) (c : Listed) → Distinct cm.containers → Distinct (adopt cm c).containers
unfolding adopt
adopt-Distinct cm c d = elim (Bool-cases (same c.image cm.worker_image)) [
  | inl e ↦ rw e (insert-Distinct c.id _ cm.containers d)
  | inr e ↦ rw e d
]

adopt-max_workers : (cm : ContainerManager) (c : Listed) → (adopt cm c).max_workers ≡ cm.max_workers
unfolding adopt
adopt-max_workers cm c = ground arith

register-Distinct :
    (cm : ContainerManager) (listing : List Listed)
    → Distinct cm.containers
    → Distinct (register cm listing).containers
unfolding register
register-Distinct cm [] d = d
register-Distinct cm (c ∷ cs) d = register-Distinct (adopt cm c) cs (adopt-Distinct cm c d)

register-max_workers :
    (cm : ContainerManager) (listing : List Listed)
    → (register cm listing).max_workers ≡ cm.max_workers
unfolding register
register-max_workers cm [] = refl
register-max_workers cm (c ∷ cs) = register-max_workers (adopt cm c) cs ∙ adopt-max_workers cm c

adjust_count-bounds :
    (cm : ContainerManager) (order : List Text) (outcomes : ℕ → Start)
    → Distinct cm.containers
    → IsRange cm.containers order
    → length order ≡ length cm.containers
    → length (adjust_count cm order outcomes).containers ≤ cm.max_workers
unfolding adjust_count
adjust_count-bounds cm order outcomes d r all = ground (
  arith,
  length-remove_excess_containers cm order (length cm.containers - cm.max_workers) d r all,
  start_containers-bounds (cm.max_workers - length cm.containers) outcomes cm,
)

-- If InitializePool returns no error, the pool has at least one container and at most maxWorkers,
-- whatever the listing and the starts: `order` is a range over the containers that the listing
-- registers.
pub initialize_pool-bounds :
    (cm cm' : ContainerManager) (listing : List Listed) (order : List Text) (outcomes : ℕ → Start)
    → Distinct cm.containers
    → IsRange (register cm listing).containers order
    → length order ≡ length (register cm listing).containers
    → initialize_pool cm (ok listing) order outcomes ≡ (cm', none)
    → (1 ≤ container_count cm') × (container_count cm' ≤ cm.max_workers)
unfolding initialize_pool container_count
initialize_pool-bounds cm cm' listing order outcomes d r all e = ground (
  arith,
  adjust_count-bounds (register cm listing) order outcomes (register-Distinct cm listing d) r all,
  register-max_workers cm listing,
)
