-- ===== src/Common/Texts.antt =====
-- Go strings and byte slices as lists of bytes, with the functions of package strings in use.
use Prim.Native.Char.{code}
use Prim.Native.Nat.{ℕ, zero, suc, ◌+◌, ◌%◌, ◌/◌}
use Prim.Native.String.{String}
use mathlib.Core.Path.{◌≡◌, ◌∙◌, ap, refl}
use mathlib.Core.Logic.{◌↔◌, ◌⊎◌, inl, inr}
use mathlib.Core.Bool.{Bool, true, false, ◌&&◌, ◌||◌}
use mathlib.Core.List.{List, [], ◌∷◌, ◌++◌}
use native.Mathlib.Omega.{arith}
use code_execution_engine.Common.Tests.{Bool-cases, ltb, ◌==◌, if◌then◌else◌}

abbrev pub Text : Type 0
Text = List ℕ

-- A literal, which is ASCII.
abbrev pub codes : String → Text
codes String.[] = []
codes (String.◌∷◌ c s) = code c ∷ codes s

-- `==` on strings.
unfoldable pub same : Text → Text → Bool
same [] [] = true
same (x ∷ xs) (y ∷ ys) = (x == y) && same xs ys
same _ _ = false

pub same→eq : (s t : Text) → same s t ≡ true → s ≡ t
unfolding same
same→eq [] [] h = refl
same→eq (x ∷ xs) (y ∷ ys) h = ground (arith, same→eq xs ys)
same→eq [] (y ∷ ys) h = ground arith
same→eq (x ∷ xs) [] h = ground arith

pub same_refl : (s : Text) → same s s ≡ true
unfolding same
same_refl [] = refl
same_refl (x ∷ xs) = ground (arith, same_refl xs)

eq→same : (s t : Text) → s ≡ t → same s t ≡ true
eq→same s t e = ground (arith, same_refl s)

pub same_iff : (s t : Text) → (same s t ≡ true) ↔ (s ≡ t)
same_iff s t = (same→eq s t, eq→same s t)

-- `strings.HasPrefix`.
unfoldable pub has_prefix : Text → Text → Bool
has_prefix s [] = true
has_prefix [] (p ∷ ps) = false
has_prefix (x ∷ xs) (p ∷ ps) = (x == p) && has_prefix xs ps

-- `strings.Contains`.
unfoldable pub contains : Text → Text → Bool
contains [] sub = has_prefix [] sub
contains (x ∷ xs) sub = has_prefix (x ∷ xs) sub || contains xs sub

pub has_prefix_iff : (s p : Text) → (has_prefix s p ≡ true) ↔ ((after : Text) × (s ≡ p ++ after))
unfolding has_prefix
has_prefix_iff s [] = (λ h. (s, refl), λ h. refl)
has_prefix_iff [] (p ∷ ps) = (λ h. absurd (cc h), λ h. absurd (cc h.1))
has_prefix_iff (x ∷ xs) (p ∷ ps) = ground (arith, has_prefix_iff xs ps)

-- A text stands somewhere in another.
abbrev pub Holds : Text → Text → Type 0
Holds s sub = (before : Text) × (after : Text) × (s ≡ before ++ (sub ++ after))

contains-Holds : (s sub : Text) → contains s sub ≡ true → Holds s sub
unfolding contains
contains-Holds [] sub h = let (after, e) = (has_prefix_iff [] sub).0 h in ([], after, e)
contains-Holds (x ∷ xs) sub h = elim (Bool-cases (has_prefix (x ∷ xs) sub)) [
  | inl y ↦ let (after, e) = (has_prefix_iff (x ∷ xs) sub).0 y in ([], after, e)
  | inr n ↦
      let (before, after, e) = contains-Holds xs sub (ground arith) in
      (x ∷ before, after, ap (◌∷◌ x) e)
]

contains_first : (s sub : Text) → has_prefix s sub ≡ true → contains s sub ≡ true
unfolding contains
contains_first [] sub h = h
contains_first (x ∷ xs) sub h = ground arith

contains_at : (before sub after : Text) → contains (before ++ (sub ++ after)) sub ≡ true
unfolding contains
contains_at [] sub after =
    contains_first (sub ++ after) sub ((has_prefix_iff (sub ++ after) sub).1 (after, refl))
contains_at (b ∷ before) sub after = ground (arith, contains_at before sub after)

pub contains_iff : (s sub : Text) → (contains s sub ≡ true) ↔ Holds s sub
contains_iff s sub = (
  contains-Holds s sub,
  λ (before, after, e). ap (λ t. contains t sub) e ∙ contains_at before sub after,
)

abbrev pub is_empty : Text → Bool
is_empty [] = true
is_empty (_ ∷ _) = false

-- `%d` of package fmt, on a number that is not negative.
unfoldable pub decimal_from : ℕ → ℕ → Text → Text
decimal_from zero n acc = acc
decimal_from (suc fuel) n acc =
    let digits = (b'0' + n % 10) ∷ acc in
    let rest = decimal_from fuel (n / 10) digits in if ltb n 10 then digits else rest

unfoldable pub decimal : ℕ → Text
unfolding decimal_from
decimal n = decimal_from (suc n) n []

-- A call that returns a value or an error, with the text of the error.
pub data Fallible {ℓ} (A : Type ℓ) : Type ℓ where
  ok : A → Fallible A
  err : Text → Fallible A

pub Fallible-cases {ℓ} :
    {A : Type ℓ} (r : Fallible A) → ((a : A) × (r ≡ ok a)) ⊎ ((e : Text) × (r ≡ err e))
Fallible-cases (ok a) = inl (a, refl)
Fallible-cases (err e) = inr (e, refl)
