-- ===== src/Executor/RateLimiter/Cleanup.antt =====
-- The cleanup that runs every five minutes, and the answers of the calls that follow it.
use code_execution_engine.Common.{
  ℕ, ◌≤◌, ◌≡◌, refl, sym, ap, ◌∙◌, inl, inr, Bool, true, false, List, [], ◌∷◌, Bool-cases,
  Option-cases, if◌then◌else◌, arith, Text, is_empty, same, same→eq,
}
use code_execution_engine.Executor.RateLimiter.{
  RateLimiter, allow, is_blocked, cooldown_remaining, cleanup, Call, allows, asks_blocked,
  asks_cooldown, cleans, step,
}
use code_execution_engine.Executor.RateLimiter.Slot.{
  Slot, Limits, limits, slot, slot_admit, slot_allow, slot_blocked, slot_cooldown, slot_cleanup,
}
use code_execution_engine.Executor.RateLimiter.Slots.{
  allow-slot, allow-answer, is_blocked-slot, cooldown_remaining-slot, cleanup-slot, step-limits,
  step-IsMap, IsMap,
}
use code_execution_engine.Executor.RateLimiter.History.{starts, ends, InOrder}
use code_execution_engine.Executor.RateLimiter.Window.{in_window-in_window}

-- What a call returns.
pub data Answer : Type 0 where
  admitted : Bool → Answer
  blocked : Bool → Answer
  remaining : ℕ → Answer
  cleaned : Answer

abbrev pub answer : RateLimiter → Call → Answer
answer rl (allows ip checked now) = admitted (allow rl ip checked now).1
answer rl (asks_blocked ip now) = blocked (is_blocked rl ip now).1
answer rl (asks_cooldown ip now) = remaining (cooldown_remaining rl ip now).1
answer rl (cleans now) = cleaned

abbrev pub answers : RateLimiter → List Call → List Answer
answers rl [] = []
answers rl (c ∷ cs) = answer rl c ∷ answers (step rl c) cs

module _ (l : Limits) (s : Slot) (t : ℕ) where
  absorbs : (now : ℕ) → t ≤ now → slot_cleanup l s now ≡ slot_cleanup l (slot_cleanup l s t) now
  unfolding slot_cleanup
  absorbs now h = elim (Option-cases s.until) [
    | inl e ↦ ground (arith, in_window-in_window l.window t now s.times h)
    | inr (u, e) ↦ ground (arith, in_window-in_window l.window t now s.times h)
  ]

  allow_absorbs :
      (checked now : ℕ)
      → t ≤ checked
      → checked ≤ now
      → ((slot_allow l s checked now).1 ≡ (slot_allow l (slot_cleanup l s t) checked now).1)
        × (slot_cleanup l (slot_allow l s checked now).0 now
            ≡ slot_cleanup l (slot_allow l (slot_cleanup l s t) checked now).0 now)
  unfolding slot_allow slot_admit slot_cleanup
  allow_absorbs checked now h k = elim (Option-cases s.until) [
    | inl e ↦ ground (arith, in_window-in_window l.window t now s.times (omega arith))
    | inr (u, e) ↦ ground (arith, in_window-in_window l.window t now s.times (omega arith))
  ]

  blocked_absorbs :
      (now : ℕ)
      → t ≤ now
      → ((slot_blocked s now).1 ≡ (slot_blocked (slot_cleanup l s t) now).1)
        × (slot_cleanup l (slot_blocked s now).0 now
            ≡ slot_cleanup l (slot_blocked (slot_cleanup l s t) now).0 now)
  unfolding slot_blocked slot_cleanup
  blocked_absorbs now h = elim (Option-cases s.until) [
    | inl e ↦ ground (arith, in_window-in_window l.window t now s.times h)
    | inr (u, e) ↦ ground (arith, in_window-in_window l.window t now s.times h)
  ]

  cooldown_absorbs :
      (now : ℕ)
      → t ≤ now
      → ((slot_cooldown s now).1 ≡ (slot_cooldown (slot_cleanup l s t) now).1)
        × (slot_cleanup l (slot_cooldown s now).0 now
            ≡ slot_cleanup l (slot_cooldown (slot_cleanup l s t) now).0 now)
  unfolding slot_cooldown slot_cleanup
  cooldown_absorbs now h = elim (Option-cases s.until) [
    | inl e ↦ ground (arith, in_window-in_window l.window t now s.times h)
    | inr (u, e) ↦ ground (arith, in_window-in_window l.window t now s.times h)
  ]

-- A call, as one address sees it at its slot, and its answer.
abbrev slot_step : Limits → Call → Text → Slot → Slot
slot_step l (allows ip checked now) j s =
    if is_empty ip then s else if same ip j then (slot_allow l s checked now).0 else s
slot_step l (asks_blocked ip now) j s =
    if is_empty ip then s else if same ip j then (slot_blocked s now).0 else s
slot_step l (asks_cooldown ip now) j s =
    if is_empty ip then s else if same ip j then (slot_cooldown s now).0 else s
slot_step l (cleans now) j s = slot_cleanup l s now

abbrev slot_answer : Limits → Call → Slot → Answer
slot_answer l (allows ip checked now) s =
    admitted (if is_empty ip then true else (slot_allow l s checked now).1)
slot_answer l (asks_blocked ip now) s =
    blocked (if is_empty ip then false else (slot_blocked s now).1)
slot_answer l (asks_cooldown ip now) s =
    remaining (if is_empty ip then 0 else (slot_cooldown s now).1)
slot_answer l (cleans now) s = cleaned

abbrev address : Call → Text
address (allows ip checked now) = ip
address (asks_blocked ip now) = ip
address (asks_cooldown ip now) = ip
address (cleans now) = []

blocked-answer :
    (rl : RateLimiter) (ip : Text) (now : ℕ)
    → (is_blocked rl ip now).1 ≡ (if is_empty ip then false else (slot_blocked (slot rl ip) now).1)
unfolding is_blocked slot_blocked
blocked-answer rl [] now = refl
blocked-answer rl (c ∷ cs) now = ground arith

cooldown-answer :
    (rl : RateLimiter) (ip : Text) (now : ℕ)
    → (cooldown_remaining rl ip now).1
      ≡ (if is_empty ip then 0 else (slot_cooldown (slot rl ip) now).1)
unfolding cooldown_remaining slot_cooldown
cooldown-answer rl [] now = refl
cooldown-answer rl (c ∷ cs) now = ground arith

answer-slot :
    (rl : RateLimiter) (c : Call) → answer rl c ≡ slot_answer (limits rl) c (slot rl (address c))
answer-slot rl (allows ip checked now) = ap admitted (allow-answer rl ip checked now)
answer-slot rl (asks_blocked ip now) = ap blocked (blocked-answer rl ip now)
answer-slot rl (asks_cooldown ip now) = ap remaining (cooldown-answer rl ip now)
answer-slot rl (cleans now) = refl

-- The slot that a call changes is that of its own address.
own :
    (f : Slot → Slot) (rl : RateLimiter) (ip j : Text)
    → (if is_empty ip then slot rl j else if same ip j then f (slot rl ip) else slot rl j)
      ≡ (if is_empty ip then slot rl j else if same ip j then f (slot rl j) else slot rl j)
own f rl ip j = elim (Bool-cases (same ip j)) [
  | inl e ↦ rw (same→eq ip j e) refl
  | inr e ↦ rw e refl
]

step-slot :
    (rl : RateLimiter) (c : Call) (j : Text)
    → IsMap rl
    → slot (step rl c) j ≡ slot_step (limits rl) c j (slot rl j)
unfolding step
step-slot rl (allows ip checked now) j m =
    allow-slot rl ip j checked now ∙ own (λ s. (slot_allow (limits rl) s checked now).0) rl ip j
step-slot rl (asks_blocked ip now) j m =
    is_blocked-slot rl ip j now ∙ own (λ s. (slot_blocked s now).0) rl ip j
step-slot rl (asks_cooldown ip now) j m =
    cooldown_remaining-slot rl ip j now ∙ own (λ s. (slot_cooldown s now).0) rl ip j
step-slot rl (cleans now) j m = cleanup-slot rl j now m

module _ (l : Limits) (t : ℕ) where
  answer_absorbs :
      (c : Call) (s : Slot)
      → t ≤ starts c
      → starts c ≤ ends c
      → slot_answer l c s ≡ slot_answer l c (slot_cleanup l s t)
  answer_absorbs (allows ip checked now) s h k =
      ap (λ b. admitted (if is_empty ip then true else b)) (allow_absorbs l s t checked now h k).0
  answer_absorbs (asks_blocked ip now) s h k =
      ap (λ b. blocked (if is_empty ip then false else b)) (blocked_absorbs l s t now h).0
  answer_absorbs (asks_cooldown ip now) s h k =
      ap (λ n. remaining (if is_empty ip then 0 else n)) (cooldown_absorbs l s t now h).0
  answer_absorbs (cleans now) s h k = refl

  -- Whichever of two slots is taken, a cleanup does not tell.
  chosen :
      (a b : Bool) (now : ℕ) (s s' r r' : Slot)
      → slot_cleanup l s now ≡ slot_cleanup l s' now
      → slot_cleanup l r now ≡ slot_cleanup l r' now
      → slot_cleanup l (if a then s else if b then r else s) now
        ≡ slot_cleanup l (if a then s' else if b then r' else s') now
  chosen true b now s s' r r' h k = h
  chosen false true now s s' r r' h k = k
  chosen false false now s s' r r' h k = h

  step_absorbs :
      (c : Call) (j : Text) (s : Slot)
      → t ≤ starts c
      → starts c ≤ ends c
      → slot_cleanup l (slot_step l c j s) (ends c)
        ≡ slot_cleanup l (slot_step l c j (slot_cleanup l s t)) (ends c)
  step_absorbs (allows ip checked now) j s h k =
      chosen (is_empty ip) (same ip j) now _ _ _ _ (absorbs l s t now (omega arith))
        (allow_absorbs l s t checked now h k).1
  step_absorbs (asks_blocked ip now) j s h k =
      chosen (is_empty ip) (same ip j) now _ _ _ _ (absorbs l s t now h)
        (blocked_absorbs l s t now h).1
  step_absorbs (asks_cooldown ip now) j s h k =
      chosen (is_empty ip) (same ip j) now _ _ _ _ (absorbs l s t now h)
        (cooldown_absorbs l s t now h).1
  step_absorbs (cleans now) j s h k = ap (λ r. slot_cleanup l r now) (absorbs l s t now h)

-- Two limiters that a cleanup makes alike, at every address.
record IsAlike (l : Limits) (rl rl' : RateLimiter) (t : ℕ) : Type 0 where
  pub kept : (limits rl ≡ l) × (limits rl' ≡ l)
  pub maps : IsMap rl × IsMap rl'
  pub alike : (j : Text) → slot_cleanup l (slot rl j) t ≡ slot_cleanup l (slot rl' j) t

module _ (l : Limits) (rl rl' : RateLimiter) (t : ℕ) (c : Call) where
  absorbed :
      (q : RateLimiter) (j : Text)
      → limits q ≡ l
      → IsMap q
      → t ≤ starts c
      → starts c ≤ ends c
      → slot_cleanup l (slot (step q c) j) (ends c)
        ≡ slot_cleanup l (slot_step l c j (slot_cleanup l (slot q j) t)) (ends c)
  absorbed q j e m h k =
      ap (λ s. slot_cleanup l s (ends c)) (step-slot q c j m)
      ∙ ap (λ n. slot_cleanup l (slot_step n c j (slot q j)) (ends c)) e
      ∙ step_absorbs l t c j (slot q j) h k

  step-IsAlike :
      t ≤ starts c
      → starts c ≤ ends c
      → IsAlike l rl rl' t
      → IsAlike l (step rl c) (step rl' c) (ends c)
  step-IsAlike h k a = record {
    kept = (step-limits rl c ∙ a.kept.0, step-limits rl' c ∙ a.kept.1);
    maps = (step-IsMap rl c a.maps.0, step-IsMap rl' c a.maps.1);
    alike = λ j.
        absorbed rl j a.kept.0 a.maps.0 h k
        ∙ ap (λ s. slot_cleanup l (slot_step l c j s) (ends c)) (a.alike j)
        ∙ sym (absorbed rl' j a.kept.1 a.maps.1 h k);
  }

  answer_cleaned :
      (q : RateLimiter)
      → limits q ≡ l
      → t ≤ starts c
      → starts c ≤ ends c
      → answer q c ≡ slot_answer l c (slot_cleanup l (slot q (address c)) t)
  answer_cleaned q e h k =
      answer-slot q c
      ∙ ap (λ n. slot_answer n c (slot q (address c))) e
      ∙ answer_absorbs l t c (slot q (address c)) h k

  answer_alike : t ≤ starts c → starts c ≤ ends c → IsAlike l rl rl' t → answer rl c ≡ answer rl' c
  answer_alike h k a =
      answer_cleaned rl a.kept.0 h k
      ∙ ap (slot_answer l c) (a.alike (address c))
      ∙ sym (answer_cleaned rl' a.kept.1 h k)

answers_alike :
    (l : Limits) (rl rl' : RateLimiter) (t : ℕ) (cs : List Call)
    → InOrder t cs
    → IsAlike l rl rl' t
    → answers rl cs ≡ answers rl' cs
answers_alike l rl rl' t [] o a = refl
answers_alike l rl rl' t (c ∷ cs) (h, k, o) a = cc (
  answer_alike l rl rl' t c h k a,
  answers_alike l (step rl c) (step rl' c) (ends c) cs o (step-IsAlike l rl rl' t c h k a),
)

cleanup-limits : (rl : RateLimiter) (t : ℕ) → limits (cleanup rl t) ≡ limits rl
unfolding cleanup
cleanup-limits rl t = refl

cleanup-IsMap : (rl : RateLimiter) (t : ℕ) → IsMap rl → IsMap (cleanup rl t)
unfolding step
cleanup-IsMap rl t m = step-IsMap rl (cleans t) m

-- A cleanup of a limiter whose maps hold each address once changes no later answer: whatever calls
-- follow it, in the order of their clocks, and of whatever addresses, each returns what it would have
-- returned without the cleanup.
pub cleanup_unseen :
    (rl : RateLimiter) (t : ℕ) (cs : List Call)
    → IsMap rl
    → InOrder t cs
    → answers (cleanup rl t) cs ≡ answers rl cs
cleanup_unseen rl t cs m o = answers_alike (limits rl) (cleanup rl t) rl t cs o (record {
  kept = (cleanup-limits rl t, refl);
  maps = (cleanup-IsMap rl t m, m);
  alike = λ j.
      ap (λ s. slot_cleanup (limits rl) s t) (cleanup-slot rl j t m)
      ∙ sym (absorbs (limits rl) (slot rl j) t t (omega arith));
})
