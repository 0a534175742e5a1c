-- ===== src/Logutil/Base.antt =====
-- The base name of the caller's file in `Log` of logutil/logutil.go.
use code_execution_engine.Common.{
  ap, ℕ, zero, suc, ◌-◌, ◌≡◌, ◌≢◌, refl, ◌⊎◌, inl, inr, true, false, Bool-cases, [], ◌∷◌, ◌++◌,
  Text, length, take, drop, get_elem?, All, ◌==◌, arith,
}
use code_execution_engine.Logutil.{is_slash, short_from, short}

-- No byte of a text is a slash.
abbrev pub IsPlain : Text → Type 0
IsPlain = All (λ c. (c == 47) ≡ false)

-- What follows the last slash, unless that is the first byte.
abbrev pub IsBase : Text → Text → Type 0
IsBase file base =
    ((dir : Text) × (file ≡ dir ++ 47 ∷ base) × (dir ≢ []) × IsPlain base)
    ⊎ ((file ≡ base) × IsPlain (drop 1 file))

at_slash :
    (file : Text) (i : ℕ)
    → is_slash (get_elem? file i) ≡ true
    → file ≡ take i file ++ 47 ∷ drop (suc i) file
at_slash [] i h = absurd (cc h)
at_slash (c ∷ file) zero h = ap (λ d. d ∷ file) (ground arith)
at_slash (c ∷ file) (suc i) h = ap (λ l. c ∷ l) (at_slash file i h)

take-suc : (file : Text) (i : ℕ) → is_slash (get_elem? file (suc i)) ≡ true → take (suc i) file ≢ []
take-suc [] i h e = cc h
take-suc (c ∷ file) i h e = cc e

IsPlain-drop :
    (file : Text) (i : ℕ)
    → is_slash (get_elem? file i) ≡ false
    → IsPlain (drop (suc i) file)
    → IsPlain (drop i file)
IsPlain-drop [] zero h p = tt
IsPlain-drop [] (suc i) h p = tt
IsPlain-drop (c ∷ file) zero h p = (h, p)
IsPlain-drop (c ∷ file) (suc i) h p = IsPlain-drop file i h p

short_from-IsBase :
    (file : Text) (i : ℕ) → IsPlain (drop (suc i) file) → IsBase file (short_from file i)
unfolding short_from
short_from-IsBase file zero p = inr (refl, p)
short_from-IsBase file (suc i) p = elim (Bool-cases (is_slash (get_elem? file (suc i)))) [
  | inl e ↦
      rw (e, short_from) (inl (take (suc i) file, at_slash file (suc i) e, take-suc file i e, p))
  | inr e ↦ rw (e, short_from) (short_from-IsBase file i (IsPlain-drop file (suc i) e p))
]

drop_all : (file : Text) (n : ℕ) → length file ≡ n → IsPlain (drop n file)
drop_all [] zero e = tt
drop_all [] (suc n) e = tt
drop_all (c ∷ file) zero e = absurd (omega arith)
drop_all (c ∷ file) (suc n) e = drop_all file n (omega arith)

drop_past : (file : Text) → IsPlain (drop (suc (length file - 1)) file)
drop_past [] = tt
drop_past (c ∷ file) = drop_all (c ∷ file) (suc (length (c ∷ file) - 1)) (omega arith)

-- The name of the caller that a log entry has is the part of the file's path after its last slash,
-- or the whole path where it has no slash past its first byte.
pub short-IsBase : (file : Text) → IsBase file (short file)
unfolding short
short-IsBase file = short_from-IsBase file (length file - 1) (drop_past file)
