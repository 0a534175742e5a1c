-- ===== src/Common/Lists.antt =====
-- Slices: their length by native numbers, the loop that keeps some elements, and predicates.
use Prim.Native.Nat.{ℕ, zero, suc, ◌+◌, ◌≤◌, ◌<◌}
use mathlib.Core.Path.{◌≡◌, refl, ap, subst}
use mathlib.Core.Option.{Option, none, some}
use mathlib.Core.Bool.{Bool, true, false}
use mathlib.Core.List.{List, [], ◌∷◌, ◌++◌}
use native.Mathlib.Omega.{arith}
use code_execution_engine.Common.Tests.{eq_of_some-eq, if◌then◌else◌}

module _ {ℓ} {A : Type ℓ} where
  abbrev pub length : List A → ℕ
  length [] = 0
  length (x ∷ xs) = suc (length xs)

  pub length-append : (xs ys : List A) → length (xs ++ ys) ≡ length xs + length ys
  length-append [] ys = omega arith
  length-append (x ∷ xs) ys = omega (arith, length-append xs ys)

  -- `for _, x := range xs { if p(x) { kept = append(kept, x) } }`
  abbrev pub keep : (A → Bool) → List A → List A
  keep p [] = []
  keep p (x ∷ xs) = if p x then x ∷ keep p xs else keep p xs

  pub length-keep-le : (p : A → Bool) (xs : List A) → length (keep p xs) ≤ length xs
  length-keep-le p [] = omega arith
  length-keep-le p (x ∷ xs) = ground (arith, length-keep-le p xs)

  pub keep-append : (p : A → Bool) (xs ys : List A) → keep p (xs ++ ys) ≡ keep p xs ++ keep p ys
  keep-append p [] ys = refl
  keep-append p (x ∷ xs) ys = ground (arith, keep-append p xs ys)

  abbrev pub All {κ} : (A → Type κ) → List A → Type κ
  All P [] = Unit
  All P (x ∷ xs) = P x × All P xs

  abbrev pub get_elem? : List A → ℕ → Option A
  get_elem? [] i = none
  get_elem? (x ∷ xs) zero = some x
  get_elem? (x ∷ xs) (suc i) = get_elem? xs i

  -- A write out of bounds changes nothing.
  abbrev pub set : List A → ℕ → A → List A
  set [] i v = []
  set (x ∷ xs) zero v = v ∷ xs
  set (x ∷ xs) (suc i) v = x ∷ set xs i v

  pub length-set : (xs : List A) (i : ℕ) (v : A) → length (set xs i v) ≡ length xs
  length-set [] i v = refl
  length-set (x ∷ xs) zero v = refl
  length-set (x ∷ xs) (suc i) v = ap suc (length-set xs i v)

  abbrev pub replicate : ℕ → A → List A
  replicate zero a = []
  replicate (suc n) a = a ∷ replicate n a

  pub length-replicate : (n : ℕ) (a : A) → length (replicate n a) ≡ n
  length-replicate zero a = refl
  length-replicate (suc n) a = ap suc (length-replicate n a)

  -- How many elements pass a test.
  abbrev pub count_if : (A → Bool) → List A → ℕ
  count_if p [] = 0
  count_if p (x ∷ xs) = if p x then suc (count_if p xs) else count_if p xs

  -- The count after a write that turns the test of an element, or leaves it.
  pub count_if-set :
      (p : A → Bool) (xs : List A) (i : ℕ) (v w : A)
      → get_elem? xs i ≡ some w
      → count_if p (set xs i v) + (if p w then 1 else 0) ≡ count_if p xs + (if p v then 1 else 0)
  count_if-set p [] i v w e = cc
  count_if-set p (x ∷ xs) zero v w e = ground arith
  count_if-set p (x ∷ xs) (suc i) v w e = ground (arith, count_if-set p xs i v w)

  pub count_if-le-length : (p : A → Bool) (xs : List A) → count_if p xs ≤ length xs
  count_if-le-length p [] = omega arith
  count_if-le-length p (x ∷ xs) = ground (arith, count_if-le-length p xs)

  pub count_if-replicate :
      (p : A → Bool) (n : ℕ) (a : A) → p a ≡ false → count_if p (replicate n a) ≡ 0
  count_if-replicate p zero a h = refl
  count_if-replicate p (suc n) a h = ground (arith, count_if-replicate p n a h)

  pub count_if_all : (xs : List A) → count_if (λ _. true) xs ≡ length xs
  count_if_all [] = refl
  count_if_all (x ∷ xs) = ap suc (count_if_all xs)

  -- One element that passes the test.
  pub count_if-pos :
      (p : A → Bool) (xs : List A) (i : ℕ) (a : A)
      → get_elem? xs i ≡ some a
      → p a ≡ true
      → 0 < count_if p xs
  count_if-pos p [] i a e h = absurd (cc e)
  count_if-pos p (x ∷ xs) zero a e h = ground (arith, ap p (eq_of_some-eq e))
  count_if-pos p (x ∷ xs) (suc i) a e h = ground (arith, count_if-pos p xs i a)

  -- One element that fails the test.
  pub count_if-lt :
      (p : A → Bool) (xs : List A) (i : ℕ) (a : A)
      → get_elem? xs i ≡ some a
      → p a ≡ false
      → count_if p xs < length xs
  count_if-lt p [] i a e h = absurd (cc e)
  count_if-lt p (x ∷ xs) zero a e h =
      ground (arith, count_if-le-length p xs, ap p (eq_of_some-eq e))
  count_if-lt p (x ∷ xs) (suc i) a e h = ground (arith, count_if-lt p xs i a)

  pub count_if-append :
      (p : A → Bool) (xs ys : List A) → count_if p (xs ++ ys) ≡ count_if p xs + count_if p ys
  count_if-append p [] ys = omega arith
  count_if-append p (x ∷ xs) ys = ground (arith, count_if-append p xs ys)

  module _ {κ} (P : A → Type κ) where
    pub All-append : (xs ys : List A) → All P xs → All P ys → All P (xs ++ ys)
    All-append [] ys h k = k
    All-append (x ∷ xs) ys h k = (h.0, All-append xs ys h.1 k)

    pub All-append_left : (xs ys : List A) → All P (xs ++ ys) → All P xs
    All-append_left [] ys h = tt
    All-append_left (x ∷ xs) ys h = (h.0, All-append_left xs ys h.1)

    pub All-set : (xs : List A) (i : ℕ) (v : A) → All P xs → P v → All P (set xs i v)
    All-set [] i v h p = tt
    All-set (x ∷ xs) zero v h p = (p, h.1)
    All-set (x ∷ xs) (suc i) v h p = (h.0, All-set xs i v h.1 p)

    pub All-get_elem? : (xs : List A) (i : ℕ) (v : A) → All P xs → get_elem? xs i ≡ some v → P v
    All-get_elem? [] i v h e = absurd (cc e)
    All-get_elem? (x ∷ xs) zero v h e = subst P (eq_of_some-eq e) h.0
    All-get_elem? (x ∷ xs) (suc i) v h e = All-get_elem? xs i v h.1 e

  abbrev pub take : ℕ → List A → List A
  take zero xs = []
  take (suc n) [] = []
  take (suc n) (x ∷ xs) = x ∷ take n xs

  abbrev pub drop : ℕ → List A → List A
  drop zero xs = xs
  drop (suc n) [] = []
  drop (suc n) (x ∷ xs) = drop n xs

  pub take-append_length : (xs ys : List A) → take (length xs) (xs ++ ys) ≡ xs
  take-append_length [] ys = refl
  take-append_length (x ∷ xs) ys = ap (◌∷◌ x) (take-append_length xs ys)

  pub drop-append_length : (xs ys : List A) → drop (length xs) (xs ++ ys) ≡ ys
  drop-append_length [] ys = refl
  drop-append_length (x ∷ xs) ys = drop-append_length xs ys

  pub take-append-drop : (n : ℕ) (xs : List A) → take n xs ++ drop n xs ≡ xs
  take-append-drop zero xs = refl
  take-append-drop (suc n) [] = refl
  take-append-drop (suc n) (x ∷ xs) = ap (◌∷◌ x) (take-append-drop n xs)

  pub length-take_of_le : (n : ℕ) (xs : List A) → n ≤ length xs → length (take n xs) ≡ n
  length-take_of_le zero xs h = refl
  length-take_of_le (suc n) [] h = absurd (omega arith)
  length-take_of_le (suc n) (x ∷ xs) h = ap suc (length-take_of_le n xs (omega arith))
