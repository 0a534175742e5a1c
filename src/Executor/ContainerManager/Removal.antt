-- ===== src/Executor/ContainerManager/Removal.antt =====
-- RemoveContainer and removeExcessContainers of executor/container_manager.go: what a run of
-- removals leaves.
use code_execution_engine.Common.{
  ap, zero, ◌⊎◌, inl, inr, ◌≡◌, refl, ℕ, suc, ◌+◌, ◌-◌, ◌≤◌, List, [], ◌∷◌, Text, length, take,
  Distinct, delete-Distinct, IsRange, delete-IsRange, take-IsRange, length-delete-Distinct,
  length-take_of_le, arith,
}
use code_execution_engine.Executor.ContainerManager.{
  ContainerManager, remove_container, remove_containers, remove_excess_containers,
}

pub remove_containers-Distinct :
    (cm : ContainerManager) (ids : List Text)
    → Distinct cm.containers
    → Distinct (remove_containers cm ids).containers
unfolding remove_containers remove_container
remove_containers-Distinct cm [] d = d
remove_containers-Distinct cm (id ∷ ids) d =
    remove_containers-Distinct (remove_container cm id) ids (delete-Distinct id cm.containers d)

pub remove_containers-max_workers :
    (cm : ContainerManager) (ids : List Text)
    → (remove_containers cm ids).max_workers ≡ cm.max_workers
unfolding remove_containers remove_container
remove_containers-max_workers cm [] = refl
remove_containers-max_workers cm (id ∷ ids) =
    remove_containers-max_workers (remove_container cm id) ids

-- Removing keys that the map has, none twice, makes the map shorter by that many.
pub length-remove_containers :
    (cm : ContainerManager) (ids : List Text)
    → Distinct cm.containers
    → IsRange cm.containers ids
    → length (remove_containers cm ids).containers + length ids ≡ length cm.containers
unfolding remove_containers remove_container
length-remove_containers cm [] d r = omega arith
length-remove_containers cm (id ∷ ids) d r = omega (
  arith,
  length-delete-Distinct id cm.containers d r.0.0,
  length-remove_containers (remove_container cm id) ids (delete-Distinct id cm.containers d)
      (delete-IsRange id cm.containers ids r),
)

le_cases : (m n : ℕ) → (m ≤ n) ⊎ (n ≤ m)
le_cases zero n = inl (omega arith)
le_cases (suc m) zero = inr (omega arith)
le_cases (suc m) (suc n) = elim (le_cases m n) [
  | inl h ↦ inl (omega arith)
  | inr h ↦ inr (omega arith)
]

length-take_of_ge : (n : ℕ) (xs : List Text) → length xs ≤ n → length (take n xs) ≡ length xs
length-take_of_ge zero [] h = refl
length-take_of_ge zero (x ∷ xs) h = absurd (omega arith)
length-take_of_ge (suc n) [] h = refl
length-take_of_ge (suc n) (x ∷ xs) h = ap suc (length-take_of_ge n xs (omega arith))

-- removeExcessContainers(count) removes exactly `count` containers, or all where there are fewer.
pub length-remove_excess_containers :
    (cm : ContainerManager) (order : List Text) (count : ℕ)
    → Distinct cm.containers
    → IsRange cm.containers order
    → length order ≡ length cm.containers
    → length (remove_excess_containers cm order count).containers ≡ length cm.containers - count
unfolding remove_excess_containers
length-remove_excess_containers cm order count d r all = elim (le_cases count (length order)) [
  | inl h ↦ omega (arith, removed, length-take_of_le count order h)
  | inr h ↦ omega (arith, removed, length-take_of_ge count order h)
]
  where
    removed :
        length (remove_containers cm (take count order)).containers + length (take count order)
        ≡ length cm.containers
    removed =
        length-remove_containers cm (take count order) d (take-IsRange count cm.containers order r)
