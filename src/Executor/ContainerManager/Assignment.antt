-- ===== src/Executor/ContainerManager/Assignment.antt =====
-- GetAvailableContainer and SetContainerState of executor/container_manager.go: who gets which
-- container.
use mathlib.Core.Path.{subst}
use code_execution_engine.Common.{
  ◌↔◌, ◌∙◌, eq_of_some-eq, ◌≡◌, ◌≢◌, refl, List, [], ◌∷◌, Option, none, some, Text, lookup,
  lookup-insert, same, if◌then◌else◌, sym, ◌⊎◌, true, false, Option-cases, All, arith, inl, inr,
}
use code_execution_engine.Executor.ContainerManager.{
  ContainerManager, ContainerState, ContainerInfo, idle, busy, error, is_idle, mark, assign,
  set_container_state,
}

abbrev state_of_info : Option ContainerInfo → Option ContainerState
state_of_info none = none
state_of_info (some info) = some info.state

-- The state that the pool has for an ID.
abbrev pub state_of : ContainerManager → Text → Option ContainerState
state_of cm id = state_of_info (lookup id cm.containers)

is_idle_iff : (s : ContainerState) → is_idle s ≡ true ↔ s ≡ idle
is_idle_iff idle = ground arith
is_idle_iff busy = ground arith
is_idle_iff error = ground arith

state_of-mark :
    (cm : ContainerManager) (info : ContainerInfo) (id : Text) (s : ContainerState) (j : Text)
    → state_of (mark info id s cm) j ≡ (if same id j then some s else state_of cm j)
state_of-mark cm info id s j =
    ground (arith, lookup-insert id j (record info { state = s }) cm.containers)

set_absent :
    (cm : ContainerManager) (id : Text) (s : ContainerState)
    → lookup id cm.containers ≡ none
    → set_container_state cm id s ≡ cm
unfolding set_container_state
set_absent cm id s e = rw (e, set_container_state) refl

set_present :
    (cm : ContainerManager) (id : Text) (s : ContainerState) (info : ContainerInfo)
    → lookup id cm.containers ≡ some info
    → set_container_state cm id s ≡ mark info id s cm
unfolding set_container_state
set_present cm id s info e = rw (e, set_container_state) refl

-- SetContainerState gives the state to the container of the ID, where the pool has it, and leaves
-- every other container as it is.
pub set_container_state_lem :
    (cm : ContainerManager) (id : Text) (s : ContainerState) (j : Text)
    → state_of (set_container_state cm id s) j ≡ elim (state_of cm id) [
      | none ↦ state_of cm j
      | some t ↦ if same id j then some s else state_of cm j
    ]
set_container_state_lem cm id s j = elim (Option-cases (lookup id cm.containers)) [
  | inl e ↦ rw (set_absent cm id s e, e) refl
  | inr (info, e) ↦ rw (set_present cm id s info e, e) (state_of-mark cm info id s j)
]

assign_next :
    (cm : ContainerManager) (k : Text) (order : List Text)
    → state_of cm k ≢ some idle
    → assign cm (k ∷ order) ≡ assign cm order
unfolding assign
assign_next cm k order h = elim (Option-cases (lookup k cm.containers)) [
  | inl e ↦ ground arith
  | inr (info, e) ↦ ground (arith, is_idle_iff info.state)
]

assign_idle :
    (cm : ContainerManager) (k : Text) (order : List Text)
    → state_of cm k ≡ some idle
    → (info : ContainerInfo) × (assign cm (k ∷ order) ≡ some (k, mark info k busy cm))
unfolding assign
assign_idle cm k order h = elim (Option-cases (lookup k cm.containers)) [
  | inl e ↦ absurd (ground arith)
  | inr (info, e) ↦ (info, ground (arith, is_idle_iff info.state))
]

assign_nobody :
    (cm : ContainerManager) (id : Text) (cm' : ContainerManager) → assign cm [] ≢ some (id, cm')
unfolding assign
assign_nobody cm id cm' h = cc h

idle_cases : (o : Option ContainerState) → (o ≡ some idle) ⊎ (o ≢ some idle)
idle_cases none = inr (λ e. cc e)
idle_cases (some idle) = inl refl
idle_cases (some busy) = inr (λ e. cc e)
idle_cases (some error) = inr (λ e. cc e)

-- A round of GetAvailableContainer that assigns a container assigns one that was idle, makes it
-- busy and leaves every other container as it is.
pub assign-some :
    (cm cm' : ContainerManager) (order : List Text) (id : Text)
    → assign cm order ≡ some (id, cm')
    → (state_of cm id ≡ some idle)
      × ((j : Text) → state_of cm' j ≡ (if same id j then some busy else state_of cm j))
assign-some cm cm' [] id h = absurd (assign_nobody cm id cm' h)
assign-some cm cm' (k ∷ order) id h = elim (idle_cases (state_of cm k)) [
  | inl e ↦ assigned e (assign_idle cm k order e)
  | inr e ↦ assign-some cm cm' order id (sym (assign_next cm k order e) ∙ h)
]
  where
    assigned :
        state_of cm k ≡ some idle
        → ((info : ContainerInfo) × (assign cm (k ∷ order) ≡ some (k, mark info k busy cm)))
        → (state_of cm id ≡ some idle)
          × ((j : Text) → state_of cm' j ≡ (if same id j then some busy else state_of cm j))
    assigned e (info, w) =
        subst
          (λ r.
            (state_of cm r.0 ≡ some idle)
            × ((j : Text) → state_of r.1 j ≡ (if same r.0 j then some busy else state_of cm j)))
          (eq_of_some-eq (sym w ∙ h)) (e, state_of-mark cm info k busy)

-- A round that assigns none met no idle container.
pub assign-none :
    (cm : ContainerManager) (order : List Text)
    → assign cm order ≡ none
    → All (λ id. state_of cm id ≢ some idle) order
assign-none cm [] h = tt
assign-none cm (k ∷ order) h = elim (idle_cases (state_of cm k)) [
  | inl e ↦ absurd (cc ((assign_idle cm k order e).1, h))
  | inr e ↦ (e, assign-none cm order (sym (assign_next cm k order e) ∙ h))
]

-- Two rounds that follow each other never assign the same container.
pub assign_twice :
    (cm cm' cm'' : ContainerManager) (order order' : List Text) (a b : Text)
    → assign cm order ≡ some (a, cm')
    → assign cm' order' ≡ some (b, cm'')
    → same a b ≡ false
assign_twice cm cm' cm'' order order' a b h k =
    ground (arith, (assign-some cm cm' order a h).1 b, (assign-some cm' cm'' order' b k).0)
