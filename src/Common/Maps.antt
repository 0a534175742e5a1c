-- ===== src/Common/Maps.antt =====
-- A Go map with string keys, as an association list: reading, writing and deleting a key.
use mathlib.Core.Path.{◌≡◌, refl}
use mathlib.Core.Option.{Option, none, some}
use mathlib.Core.List.{List, [], ◌∷◌}
use native.Mathlib.Omega.{arith}
use code_execution_engine.Common.Tests.{if◌then◌else◌}
use code_execution_engine.Common.Texts.{Text, same, same_iff}

module _ {ℓ} {V : Type ℓ} where
  unfoldable pub lookup : Text → List (Text × V) → Option V
  lookup k [] = none
  lookup k ((j, v) ∷ m) = if same j k then some v else lookup k m

  unfoldable pub insert : Text → V → List (Text × V) → List (Text × V)
  insert k v [] = (k, v) ∷ []
  insert k v ((j, w) ∷ m) = if same j k then (k, v) ∷ m else (j, w) ∷ insert k v m

  unfoldable pub delete : Text → List (Text × V) → List (Text × V)
  delete k [] = []
  delete k ((j, v) ∷ m) = if same j k then delete k m else (j, v) ∷ delete k m

  pub lookup-insert :
      (k j : Text) (v : V) (m : List (Text × V))
      → lookup j (insert k v m) ≡ (if same k j then some v else lookup j m)
  unfolding lookup insert
  lookup-insert k j v [] = refl
  lookup-insert k j v ((i, w) ∷ m) =
      ground (arith, same_iff k j, same_iff i k, same_iff i j, lookup-insert k j v m)

  pub lookup-delete :
      (k j : Text) (m : List (Text × V))
      → lookup j (delete k m) ≡ (if same k j then none else lookup j m)
  unfolding lookup delete
  lookup-delete k j [] = ground arith
  lookup-delete k j ((i, w) ∷ m) =
      ground (arith, same_iff k j, same_iff i k, same_iff i j, lookup-delete k j m)

  -- What a missing key reads as.
  abbrev pub or_default : V → Option V → V
  or_default d none = d
  or_default d (some v) = v

  -- `for k, v := range m { … }` where the body deletes the key or writes it anew.
  unfoldable pub sweep : (V → Option V) → List (Text × V) → List (Text × V)
  sweep f [] = []
  sweep f ((k, v) ∷ m) = elim (f v) [ none ↦ sweep f m | some w ↦ (k, w) ∷ sweep f m ]

  -- A Go map has a key once.
  unfoldable pub Distinct : List (Text × V) → Type ℓ
  Distinct [] = Unit
  Distinct ((k, v) ∷ m) = (lookup k m ≡ none) × Distinct m

  pub insert-Distinct :
      (k : Text) (v : V) (m : List (Text × V)) → Distinct m → Distinct (insert k v m)
  unfolding Distinct insert
  insert-Distinct k v [] h = (lookup-nil, tt)
    where
      lookup-nil : lookup k [] ≡ none
      lookup-nil = unfold lookup in refl
  insert-Distinct k v ((i, w) ∷ m) h =
      ground (arith, same_iff i k, insert-Distinct k v m, lookup-insert k i v m, same_iff k i)

  pub delete-Distinct : (k : Text) (m : List (Text × V)) → Distinct m → Distinct (delete k m)
  unfolding Distinct delete
  delete-Distinct k [] h = tt
  delete-Distinct k ((i, w) ∷ m) h =
      ground (arith, same_iff i k, delete-Distinct k m, lookup-delete k i m, same_iff k i)

  abbrev pub bind : Option V → (V → Option V) → Option V
  bind none f = none
  bind (some v) f = f v

  pub lookup-sweep :
      (f : V → Option V) (j : Text) (m : List (Text × V))
      → Distinct m
      → lookup j (sweep f m) ≡ bind (lookup j m) f
  unfolding lookup sweep Distinct
  lookup-sweep f j [] h = refl
  lookup-sweep f j ((i, w) ∷ m) h = ground (arith, same_iff i j, lookup-sweep f j m)

  pub sweep-Distinct : (f : V → Option V) (m : List (Text × V)) → Distinct m → Distinct (sweep f m)
  unfolding sweep Distinct
  sweep-Distinct f [] h = tt
  sweep-Distinct f ((i, w) ∷ m) h = ground (arith, sweep-Distinct f m, lookup-sweep f i m)
