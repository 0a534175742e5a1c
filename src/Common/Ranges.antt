-- ===== src/Common/Ranges.antt =====
-- The order in which `range` goes over a map: keys that the map has, none of them twice.
use mathlib.Core.Path.{◌≡◌, refl, sym, ap, subst}
use mathlib.Core.Logic.{◌⊎◌, inl, inr}
use mathlib.Core.Option.{Option, none, some}
use mathlib.Core.Bool.{Bool, true, false, not}
use mathlib.Core.List.{List, [], ◌∷◌, map}
use Prim.Native.Nat.{ℕ, zero, suc, ◌+◌, ◌≤◌}
use native.Mathlib.Omega.{arith}
use code_execution_engine.Common.Tests.{Bool-cases}
use code_execution_engine.Common.Lists.{length, keep, take, All}
use code_execution_engine.Common.Texts.{Text, same, same_iff}
use code_execution_engine.Common.Maps.{lookup, insert, delete, Distinct, lookup-delete}

abbrev pub AllDifferent : List Text → Type 0
AllDifferent [] = Unit
AllDifferent (k ∷ ks) = All (λ j. same k j ≡ false) ks × AllDifferent ks

pub All-keep {ℓ κ} :
    {A : Type ℓ} (P : A → Type κ) (p : A → Bool) (xs : List A) → All P xs → All P (keep p xs)
All-keep P p [] h = tt
All-keep P p (x ∷ xs) h = elim (Bool-cases (p x)) [
  | inl e ↦ rw e ((h.0, All-keep P p xs h.1))
  | inr e ↦ rw e (All-keep P p xs h.1)
]

-- What is kept passes the test.
pub All-passes-keep {ℓ} :
    {A : Type ℓ} (p : A → Bool) (xs : List A) → All (λ x. p x ≡ true) (keep p xs)
All-passes-keep p [] = tt
All-passes-keep p (x ∷ xs) = elim (Bool-cases (p x)) [
  | inl e ↦ rw e ((e, All-passes-keep p xs))
  | inr e ↦ rw e (All-passes-keep p xs)
]

pub All-map {ℓ κ} :
    {A : Type ℓ} (P Q : A → Type κ) → ((x : A) → P x → Q x) → (xs : List A) → All P xs → All Q xs
All-map P Q f [] h = tt
All-map P Q f (x ∷ xs) h = (f x h.0, All-map P Q f xs h.1)

pub keep-AllDifferent :
    (p : Text → Bool) (ks : List Text) → AllDifferent ks → AllDifferent (keep p ks)
keep-AllDifferent p [] h = tt
keep-AllDifferent p (k ∷ ks) h = elim (Bool-cases (p k)) [
  | inl e ↦ rw e ((All-keep _ p ks h.0, keep-AllDifferent p ks h.1))
  | inr e ↦ rw e (keep-AllDifferent p ks h.1)
]

pub length-keep-not {ℓ} :
    {A : Type ℓ} (p : A → Bool) (xs : List A)
    → length (keep p xs) + length (keep (λ x. not (p x)) xs) ≡ length xs
length-keep-not p [] = refl
length-keep-not p (x ∷ xs) = ground (arith, length-keep-not p xs)

pub All-take {ℓ κ} :
    {A : Type ℓ} (P : A → Type κ) (n : ℕ) (xs : List A) → All P xs → All P (take n xs)
All-take P zero xs h = tt
All-take P (suc n) [] h = tt
All-take P (suc n) (x ∷ xs) h = (h.0, All-take P n xs h.1)

pub take-AllDifferent : (n : ℕ) (ks : List Text) → AllDifferent ks → AllDifferent (take n ks)
take-AllDifferent zero ks h = tt
take-AllDifferent (suc n) [] h = tt
take-AllDifferent (suc n) (k ∷ ks) h = (All-take _ n ks h.0, take-AllDifferent n ks h.1)

-- A text stands in a list, or differs from all that do.
member_cases {κ} :
    (P : Text → Type κ) (j : Text) (ks : List Text)
    → All (λ k. same j k ≡ false) ks ⊎ (All P ks → P j)
member_cases P j [] = inl tt
member_cases P j (k ∷ ks) = elim (Bool-cases (same j k)) [
  | inl e ↦ inr (λ h. subst P (sym ((same_iff j k).0 e)) h.0)
  | inr e ↦ elim (member_cases P j ks) [ inl a ↦ inl (e, a) | inr f ↦ inr (λ h. f h.1) ]
]

module _ {ℓ} {V : Type ℓ} where
  abbrev pub keys : List (Text × V) → List Text
  keys = map (λ e. e.0)

  abbrev pub is_some : Option V → Bool
  is_some none = false
  is_some (some v) = true

  abbrev pub has : List (Text × V) → Text → Bool
  has m k = is_some (lookup k m)

  abbrev pub IsRange : List (Text × V) → List Text → Type 0
  IsRange m ids = All (λ k. has m k ≡ true) ids × AllDifferent ids

  pub length-insert-le :
      (k : Text) (v : V) (m : List (Text × V)) → length (insert k v m) ≤ suc (length m)
  unfolding insert
  length-insert-le k v [] = omega arith
  length-insert-le k v ((j, w) ∷ m) = ground (arith, length-insert-le k v m)

  -- A key that is new makes the map longer by one.
  pub length-insert_new :
      (k : Text) (v : V) (m : List (Text × V))
      → has m k ≡ false
      → length (insert k v m) ≡ suc (length m)
  unfolding insert lookup
  length-insert_new k v [] h = refl
  length-insert_new k v ((j, w) ∷ m) h = ground (arith, length-insert_new k v m)

  pub length-delete-le : (k : Text) (m : List (Text × V)) → length (delete k m) ≤ length m
  unfolding delete
  length-delete-le k [] = omega arith
  length-delete-le k ((j, w) ∷ m) = ground (arith, length-delete-le k m)

  pub length-delete_present :
      (k : Text) (m : List (Text × V)) → has m k ≡ true → suc (length (delete k m)) ≤ length m
  unfolding delete lookup
  length-delete_present k [] h = absurd (cc h)
  length-delete_present k ((j, w) ∷ m) h =
      ground (arith, length-delete_present k m, length-delete-le k m)

  pub length-delete_absent :
      (k : Text) (m : List (Text × V)) → lookup k m ≡ none → length (delete k m) ≡ length m
  unfolding delete lookup
  length-delete_absent k [] h = refl
  length-delete_absent k ((j, w) ∷ m) h = ground (arith, length-delete_absent k m)

  pub length-delete-Distinct :
      (k : Text) (m : List (Text × V))
      → Distinct m
      → has m k ≡ true
      → suc (length (delete k m)) ≡ length m
  unfolding delete lookup Distinct
  length-delete-Distinct k [] d h = absurd (cc h)
  length-delete-Distinct k ((j, w) ∷ m) d h =
      ground (arith, length-delete-Distinct k m, length-delete_absent k m, same_iff j k)

  has-delete :
      (k j : Text) (m : List (Text × V))
      → same k j ≡ false
      → has m j ≡ true
      → has (delete k m) j ≡ true
  has-delete k j m n h = ground (arith, lookup-delete k j m)

  All-has-delete :
      (k : Text) (m : List (Text × V)) (ids : List Text)
      → All (λ j. same k j ≡ false) ids
      → All (λ j. has m j ≡ true) ids
      → All (λ j. has (delete k m) j ≡ true) ids
  All-has-delete k m [] d h = tt
  All-has-delete k m (j ∷ ids) d h = (has-delete k j m d.0 h.0, All-has-delete k m ids d.1 h.1)

  -- What is left of a range when its first key is deleted.
  pub delete-IsRange :
      (k : Text) (m : List (Text × V)) (ids : List Text)
      → IsRange m (k ∷ ids)
      → IsRange (delete k m) ids
  delete-IsRange k m ids r = (All-has-delete k m ids r.1.0 r.0.1, r.1.1)

  pub length-IsRange :
      (m : List (Text × V)) (ids : List Text) → IsRange m ids → length ids ≤ length m
  length-IsRange m [] r = omega arith
  length-IsRange m (k ∷ ids) r = omega (
    arith,
    length-IsRange (delete k m) ids (delete-IsRange k m ids r),
    length-delete_present k m r.0.0,
  )

  -- The keys of a map.

  keys_absent :
      (k : Text) (m : List (Text × V)) → lookup k m ≡ none → All (λ j. same k j ≡ false) (keys m)
  unfolding lookup
  keys_absent k [] h = tt
  keys_absent k ((j, w) ∷ m) h =
      (ground (arith, same_iff k j, same_iff j k), keys_absent k m (ground arith))

  AllDifferent-keys : (m : List (Text × V)) → Distinct m → AllDifferent (keys m)
  unfolding Distinct
  AllDifferent-keys [] d = tt
  AllDifferent-keys ((k, v) ∷ m) d = (keys_absent k m d.0, AllDifferent-keys m d.1)

  All-has_cons :
      (k : Text) (v : V) (m : List (Text × V)) (j : Text)
      → has m j ≡ true
      → has ((k, v) ∷ m) j ≡ true
  unfolding lookup
  All-has_cons k v m j h = ground arith

  All-has-keys : (m : List (Text × V)) → All (λ j. has m j ≡ true) (keys m)
  unfolding lookup
  All-has-keys [] = tt
  All-has-keys ((k, v) ∷ m) =
      (ground (arith, same_iff k k), All-map _ _ (All-has_cons k v m) (keys m) (All-has-keys m))

  pub keys-IsRange : (m : List (Text × V)) → Distinct m → IsRange m (keys m)
  keys-IsRange m d = (All-has-keys m, AllDifferent-keys m d)

  pub length-keys : (m : List (Text × V)) → length (keys m) ≡ length m
  length-keys [] = refl
  length-keys (e ∷ m) = ap suc (length-keys m)

  pub keep-IsRange :
      (p : Text → Bool) (m : List (Text × V)) (ids : List Text)
      → IsRange m ids
      → IsRange m (keep p ids)
  keep-IsRange p m ids r = (All-keep _ p ids r.0, keep-AllDifferent p ids r.1)

  pub take-IsRange :
      (n : ℕ) (m : List (Text × V)) (ids : List Text) → IsRange m ids → IsRange m (take n ids)
  take-IsRange n m ids r = (All-take _ n ids r.0, take-AllDifferent n ids r.1)

  -- What holds of a whole range holds of every key.
  pub All-IsRange {κ} :
      (P : Text → Type κ) (m : List (Text × V)) (order : List Text) (j : Text)
      → IsRange m order
      → length order ≡ length m
      → has m j ≡ true
      → All P order
      → P j
  All-IsRange P m order j r all h a = elim (member_cases P j order) [
    | inl d ↦ absurd (omega (arith, length-IsRange m (j ∷ order) ((h, r.0), (d, r.1))))
    | inr f ↦ f a
  ]
