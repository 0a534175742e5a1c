-- ===== src/Executor/RateLimiter/Window.antt =====
-- One slot against the log of the grants that it made: the sliding window, forgotten times and
-- bans included.
use code_execution_engine.Common.{
  ℕ, ◌+◌, ◌≤◌, ◌≡◌, refl, sym, ◌∙◌, ap, inl, inr, Bool, false, List, [], ◌∷◌, ◌++◌, none, some,
  arith, ltb, leb, Bool-cases, Option-cases, if◌then◌else◌, All, keep-append, length, length-append,
}
use code_execution_engine.Executor.RateLimiter.{in_window}
use code_execution_engine.Executor.RateLimiter.Slot.{
  Slot, Limits, slot_admit, slot_allow, slot_blocked, slot_cooldown, slot_cleanup,
}

in_window_mono :
    (w t t' : ℕ) (xs : List ℕ) → t ≤ t' → length (in_window w t' xs) ≤ length (in_window w t xs)
in_window_mono w t t' [] h = omega arith
in_window_mono w t t' (x ∷ xs) h = ground (arith, in_window_mono w t t' xs)

pub in_window-in_window :
    (w t t' : ℕ) (xs : List ℕ) → t ≤ t' → in_window w t' (in_window w t xs) ≡ in_window w t' xs
in_window-in_window w t t' [] h = refl
in_window-in_window w t t' (x ∷ xs) h = ground (arith, in_window-in_window w t t' xs)

in_window_past :
    (w now t : ℕ) (xs : List ℕ) → All (λ x. x ≤ now) xs → now + w ≤ t → in_window w t xs ≡ []
in_window_past w now t [] a h = refl
in_window_past w now t (x ∷ xs) a h = ground (arith, in_window_past w now t xs a.1)

past_later : (t t' : ℕ) (xs : List ℕ) → t ≤ t' → All (λ x. x ≤ t) xs → All (λ x. x ≤ t') xs
past_later t t' [] h a = tt
past_later t t' (x ∷ xs) h a = (omega arith, past_later t t' xs h a.1)

past_now : (t : ℕ) (xs : List ℕ) → All (λ x. x ≤ t) xs → All (λ x. x ≤ t) (xs ++ t ∷ [])
past_now t [] a = (omega arith, tt)
past_now t (x ∷ xs) a = (a.0, past_now t xs a.1)

-- What a slot knows of the grants made to its address, at a time up to which all were made.
pub record Tracks (l : Limits) (s : Slot) (log : List ℕ) (now : ℕ) : Type 0 where
  pub open_now :
      (t : ℕ) → s.until ≡ none → now ≤ t → in_window l.window t log ≡ in_window l.window t s.times
  pub cleared : (u : ℕ) → s.until ≡ some u → s.times ≡ []
  pub over : (u t : ℕ) → s.until ≡ some u → u ≤ t → in_window l.window t log ≡ []
  pub bounded : (t : ℕ) → now ≤ t → length (in_window l.window t log) ≤ l.most
  pub past : All (λ g. g ≤ now) log

pub Tracks-later :
    (l : Limits) (s : Slot) (log : List ℕ) (t t' : ℕ)
    → t ≤ t'
    → Tracks l s log t
    → Tracks l s log t'
Tracks-later l s log t t' h v = record {
  open_now = λ r e k. v.open_now r e (omega arith);
  cleared = v.cleared;
  over = v.over;
  bounded = λ r k. v.bounded r (omega arith);
  past = past_later t t' log h v.past;
}

-- The log after an answer.
abbrev pub logged : Bool → ℕ → List ℕ → List ℕ
logged b now log = if b then log ++ now ∷ [] else log

unban : Slot → Slot
unban s = record s { until = none }

unban-Tracks :
    (l : Limits) (s : Slot) (log : List ℕ) (u now : ℕ)
    → s.until ≡ some u
    → u ≤ now
    → Tracks l s log now
    → Tracks l (unban s) log now
unfolding unban
unban-Tracks l s log u now e h v = record {
  open_now = λ t _ k. v.over u t e (omega arith) ∙ sym (ap (in_window l.window t) (v.cleared u e));
  cleared = λ u' e'. cc;
  over = λ u' t e' k. cc;
  bounded = v.bounded;
  past = v.past;
}

module _ (l : Limits) (s : Slot) (log : List ℕ) (now : ℕ) (open_ : s.until ≡ none)
    (longer : l.window ≤ l.ban) (v : Tracks l s log now) where
  valid : List ℕ
  valid = in_window l.window now s.times

  banned-Tracks : Tracks l (record { until = some (now + l.ban); times = [] }) log now
  banned-Tracks = record {
    open_now = λ t e k. cc;
    cleared = λ u e. refl;
    over = λ u t e k. in_window_past l.window now t log v.past (ground arith);
    bounded = v.bounded;
    past = v.past;
  }

  granted-Tracks :
      leb l.most (length valid) ≡ false
      → Tracks l (record s { times = valid ++ now ∷ [] }) (log ++ now ∷ []) now
  unfolding valid
  granted-Tracks few = record {
    open_now = λ t e k.
        rw
          (
            keep-append (λ x. ltb t (x + l.window)) log (now ∷ []),
            keep-append (λ x. ltb t (x + l.window)) valid (now ∷ []),
          )
          (ap (λ xs. xs ++ in_window l.window t (now ∷ []))
            (v.open_now t open_ k ∙ sym (in_window-in_window l.window now t s.times k)));
    cleared = λ u e. cc;
    over = λ u t e k. cc;
    bounded = λ t k. rw (keep-append (λ x. ltb t (x + l.window)) log (now ∷ [])) (
        ground (
          arith,
          length-append (in_window l.window t log) (in_window l.window t (now ∷ [])),
          in_window_mono l.window now t log k,
          ap length (v.open_now now open_ (omega arith)),
        ));
    past = past_now now log v.past;
  }

  admit-Tracks : Tracks l (slot_admit l s now).0 (logged (slot_admit l s now).1 now log) now
  unfolding slot_admit valid
  admit-Tracks = elim (Bool-cases (leb l.most (length valid))) [
    | inl full ↦ rw full banned-Tracks
    | inr few ↦ rw few (granted-Tracks few)
  ]

cleaned_free :
    (l : Limits) (s : Slot) (log : List ℕ) (now : ℕ)
    → s.until ≡ none
    → Tracks l s log now
    → Tracks l (record { until = none; times = in_window l.window now s.times }) log now
cleaned_free l s log now free v = record {
  open_now = λ t e k. v.open_now t free k ∙ sym (in_window-in_window l.window now t s.times k);
  cleared = λ u e. cc;
  over = λ u t e k. cc;
  bounded = v.bounded;
  past = v.past;
}

cleaned_banned :
    (l : Limits) (s : Slot) (log : List ℕ) (u now : ℕ)
    → s.until ≡ some u
    → Tracks l s log now
    → Tracks l (record { until = some u; times = in_window l.window now s.times }) log now
cleaned_banned l s log u now e v = record {
  open_now = λ t e' k. cc;
  cleared = λ u' e'. ap (in_window l.window now) (v.cleared u e);
  over = λ u' t e' k. v.over u' t (e ∙ e') k;
  bounded = v.bounded;
  past = v.past;
}

module _ (l : Limits) (s : Slot) (log : List ℕ) where
  pub allow-Tracks :
      (checked now : ℕ)
      → checked ≤ now
      → l.window ≤ l.ban
      → Tracks l s log now
      → Tracks l (slot_allow l s checked now).0 (logged (slot_allow l s checked now).1 now log) now
  unfolding slot_allow unban
  allow-Tracks checked now later longer v = elim (Option-cases s.until) [
    | inl free ↦ rw (free, slot_allow) (admit-Tracks l s log now free longer v)
    | inr (u, e) ↦ elim (Bool-cases (ltb checked u)) [
      | inl early ↦ rw (e, slot_allow) (rw early v)
      | inr late ↦
          rw (e, slot_allow)
            (rw late (
              admit-Tracks l (unban s) log now refl longer
                (unban-Tracks l s log u now e (ground arith) v)))
    ]
  ]

  pub blocked-Tracks : (now : ℕ) → Tracks l s log now → Tracks l (slot_blocked s now).0 log now
  unfolding slot_blocked unban
  blocked-Tracks now v = elim (Option-cases s.until) [
    | inl free ↦ rw (free, slot_blocked) v
    | inr (u, e) ↦ elim (Bool-cases (ltb now u)) [
      | inl early ↦ rw (e, slot_blocked) (rw early v)
      | inr late ↦ rw (e, slot_blocked) (rw late (unban-Tracks l s log u now e (ground arith) v))
    ]
  ]

  pub cooldown-Tracks : (now : ℕ) → Tracks l s log now → Tracks l (slot_cooldown s now).0 log now
  unfolding slot_cooldown unban
  cooldown-Tracks now v = elim (Option-cases s.until) [
    | inl free ↦ rw (free, slot_cooldown) v
    | inr (u, e) ↦ elim (Bool-cases (ltb u now)) [
      | inl late ↦ rw (e, slot_cooldown) (rw late (unban-Tracks l s log u now e (ground arith) v))
      | inr early ↦ rw (e, slot_cooldown) (rw early v)
    ]
  ]

  pub cleanup-Tracks : (now : ℕ) → Tracks l s log now → Tracks l (slot_cleanup l s now) log now
  unfolding slot_cleanup unban
  cleanup-Tracks now v = elim (Option-cases s.until) [
    | inl free ↦ rw free (cleaned_free l s log now free v)
    | inr (u, e) ↦ elim (Bool-cases (ltb u now)) [
      | inl late ↦ rw e (
          rw late
            (cleaned_free l (unban s) log now refl (unban-Tracks l s log u now e (ground arith) v)))
      | inr early ↦ rw e (rw early (cleaned_banned l s log u now e v))
    ]
  ]
