-- ===== src/Service/Language.antt =====
-- The names of languages, as normalizeLanguage reads them.
use mathlib.Core.Path.{subst}
use code_execution_engine.Common.{
  Holds, contains_iff, ℕ, ◌≡◌, refl, ◌↔◌, ◌⊎◌, inl, inr, Bool, true, false, ◌||◌, [], ◌∷◌, arith,
  Text, codes, contains, has_prefix, map, ltb, Bool-cases,
}
use code_execution_engine.Internal.Sanitize.Acceptance.{IsKnown}
use code_execution_engine.Service.{
  is_ascii, lower_ascii, to_lower, match_language, normalize_language,
}

-- One of the four tests of the `switch` passes.
unfoldable pub has_marker : Text → Bool
has_marker lang =
    contains lang (codes "py")
    || (contains lang (codes "js") || (contains lang (codes "go") || contains lang (codes "c")))

match_fixed : (lang : Text) → IsKnown lang → match_language lang ≡ lang
unfolding match_language contains has_prefix
match_fixed lang (inl e) = rw e
match_fixed lang (inr (inl e)) = rw e
match_fixed lang (inr (inr (inl e))) = rw e
match_fixed lang (inr (inr (inr e))) = rw e

known_marker : (lang : Text) → IsKnown lang → has_marker lang ≡ true
unfolding has_marker contains has_prefix
known_marker lang (inl e) = rw e
known_marker lang (inr (inl e)) = rw e
known_marker lang (inr (inr (inl e))) = rw e
known_marker lang (inr (inr (inr e))) = rw e

match_cases :
    (lang : Text)
    → ((has_marker lang ≡ false) × (match_language lang ≡ lang))
      ⊎ ((has_marker lang ≡ true) × IsKnown (match_language lang))
unfolding match_language has_marker
match_cases lang = elim (Bool-cases (contains lang (codes "py"))) [
  | inl a ↦ rw a (inr (refl, inl refl))
  | inr a ↦ elim (Bool-cases (contains lang (codes "js"))) [
    | inl b ↦ rw (a, b) (inr (refl, inr (inr (inl refl))))
    | inr b ↦ elim (Bool-cases (contains lang (codes "go"))) [
      | inl c ↦ rw (a, b, c) (inr (refl, inr (inl refl)))
      | inr c ↦ elim (Bool-cases (contains lang (codes "c"))) [
        | inl d ↦ rw (a, b, c, d) (inr (refl, inr (inr (inr refl))))
        | inr d ↦ rw (a, b, c, d) (inl (refl, refl))
      ]
    ]
  ]
]

abbrev pub Lacks : Text → Text → Type 0
Lacks s sub = Holds s sub → ⊥

contains-Lacks : (s sub : Text) → contains s sub ≡ false → Lacks s sub
contains-Lacks s sub e h = cc (e, (contains_iff s sub).1 h)

-- Which name a lowered name gives: that of the first of "py", "js", "go" and "c" that it holds.
abbrev pub IsNamed : Text → Text → Type 0
IsNamed lang name =
    (Holds lang (codes "py") × (name ≡ codes "python"))
    ⊎ ((Lacks lang (codes "py") × Holds lang (codes "js") × (name ≡ codes "js"))
        ⊎ ((Lacks lang (codes "py")
              × Lacks lang (codes "js")
              × Holds lang (codes "go")
              × (name ≡ codes "go"))
            ⊎ ((Lacks lang (codes "py")
                  × Lacks lang (codes "js")
                  × Lacks lang (codes "go")
                  × Holds lang (codes "c")
                  × (name ≡ codes "cpp"))
                ⊎ (Lacks lang (codes "py")
                    × Lacks lang (codes "js")
                    × Lacks lang (codes "go")
                    × Lacks lang (codes "c")
                    × (name ≡ lang)))))

match-IsNamed : (lang : Text) → IsNamed lang (match_language lang)
unfolding match_language
match-IsNamed lang =
    let there = λ (sub : Text). (contains_iff lang sub).0 in
    let away = contains-Lacks lang in
    elim (Bool-cases (contains lang (codes "py"))) [
      | inl a ↦ inl (there _ a, rw a refl)
      | inr a ↦ elim (Bool-cases (contains lang (codes "js"))) [
        | inl b ↦ inr (inl (away _ a, there _ b, rw (a, b) refl))
        | inr b ↦ elim (Bool-cases (contains lang (codes "go"))) [
          | inl c ↦ inr (inr (inl (away _ a, away _ b, there _ c, rw (a, b, c) refl)))
          | inr c ↦ elim (Bool-cases (contains lang (codes "c"))) [
            | inl d ↦
                inr
                  (inr (inr (inl (away _ a, away _ b, away _ c, there _ d, rw (a, b, c, d) refl))))
            | inr d ↦
                inr (inr (inr (inr (away _ a, away _ b, away _ c, away _ d, rw (a, b, c, d) refl))))
          ]
        ]
      ]
    ]

-- Of a name, lowered, normalizeLanguage returns "python" where it holds "py" somewhere; otherwise
-- "js" where it holds "js"; otherwise "go" where it holds "go"; otherwise "cpp" where it holds "c";
-- and otherwise the lowered name itself. And the name is one of these four, which the sanitizer and
-- the workers know, exactly where one of "py", "js", "go" and "c" is held.
pub normalize_language-IsNamed :
    (unicode_lower : Text → Text) (lang : Text)
    → IsNamed (to_lower unicode_lower lang) (normalize_language unicode_lower lang)
      × (IsKnown (normalize_language unicode_lower lang)
          ↔ (has_marker (to_lower unicode_lower lang) ≡ true))
unfolding normalize_language
normalize_language-IsNamed u lang = (
  match-IsNamed (to_lower u lang),
  elim (match_cases (to_lower u lang)) [
    | inl (n, e) ↦ (λ k. known_marker (to_lower u lang) (subst IsKnown e k), λ y. cc)
    | inr (y, k) ↦ (λ _. y, λ _. k)
  ],
)

lower_ascii_idem : (c : ℕ) → lower_ascii (lower_ascii c) ≡ lower_ascii c
unfolding lower_ascii
lower_ascii_idem c = ground arith

lower_ascii-lt : (c : ℕ) → ltb c 128 ≡ true → ltb (lower_ascii c) 128 ≡ true
unfolding lower_ascii
lower_ascii-lt c h = ground arith

map-lower_ascii_idem : (s : Text) → map lower_ascii (map lower_ascii s) ≡ map lower_ascii s
map-lower_ascii_idem [] = refl
map-lower_ascii_idem (c ∷ s) = cc (lower_ascii_idem c, map-lower_ascii_idem s)

is_ascii-lower : (s : Text) → is_ascii s ≡ true → is_ascii (map lower_ascii s) ≡ true
is_ascii-lower [] h = refl
is_ascii-lower (c ∷ s) h = ground (arith, lower_ascii-lt c, is_ascii-lower s)

to_lower_idem :
    (u : Text → Text) (s : Text) → is_ascii s ≡ true → to_lower u (to_lower u s) ≡ to_lower u s
unfolding to_lower
to_lower_idem u s h = rw (h, is_ascii-lower s h) (map-lower_ascii_idem s)

lower_fixed : (u : Text → Text) (lang : Text) → IsKnown lang → to_lower u lang ≡ lang
unfolding to_lower lower_ascii
lower_fixed u lang (inl e) = rw e
lower_fixed u lang (inr (inl e)) = rw e
lower_fixed u lang (inr (inr (inl e))) = rw e
lower_fixed u lang (inr (inr (inr e))) = rw e

-- Normalising an ASCII name a second time changes nothing.
pub normalize_language_idem :
    (unicode_lower : Text → Text) (lang : Text)
    → is_ascii lang ≡ true
    → normalize_language unicode_lower (normalize_language unicode_lower lang)
      ≡ normalize_language unicode_lower lang
unfolding normalize_language
normalize_language_idem u lang h = elim (match_cases (to_lower u lang)) [
  | inl (n, e) ↦ rw (e, to_lower_idem u lang h) e
  | inr (y, k) ↦
      rw (lower_fixed u (match_language (to_lower u lang)) k)
        (match_fixed (match_language (to_lower u lang)) k)
]
