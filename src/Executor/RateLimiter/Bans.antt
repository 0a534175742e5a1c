-- ===== src/Executor/RateLimiter/Bans.antt =====
-- Bans: how long they last, and what the two queries say of them.
use code_execution_engine.Common.{
  ℕ, ◌+◌, ◌<◌, ◌≤◌, ◌≡◌, ◌∙◌, ap, inl, inr, true, false, List, [], ◌∷◌, none, some, arith, ltb,
  Bool-cases, if◌then◌else◌, Text, lookup-insert, is_empty, lookup, same, same→eq, same_refl,
}
use code_execution_engine.Executor.RateLimiter.{
  RateLimiter, admit, allow, is_blocked, cooldown_remaining, Call, allows, asks_blocked,
  asks_cooldown, cleans, step, run,
}
use code_execution_engine.Executor.RateLimiter.Slot.{
  Slot, Limits, limits, slot, slot_admit, slot_allow, slot_blocked, slot_cooldown, slot_cleanup,
}
use code_execution_engine.Executor.RateLimiter.Slots.{
  allow-slot, allow-answer, is_blocked-slot, cooldown_remaining-slot, cleanup-slot, step-IsMap,
  IsMap,
}
use code_execution_engine.Executor.RateLimiter.History.{starts, ends, InOrder, finish, either}

-- The ban as the slot keeps it: `until` is in the future of the call.
slot_ban :
    (l : Limits) (s : Slot) (u checked now : ℕ)
    → s.until ≡ some u
    → checked ≤ now
    → now < u
    → ((slot_allow l s checked now).0.until ≡ some u)
      × ((slot_blocked s now).0.until ≡ some u)
      × ((slot_cooldown s now).0.until ≡ some u)
      × ((slot_cleanup l s now).until ≡ some u)
unfolding slot_allow slot_admit slot_blocked slot_cooldown slot_cleanup
slot_ban l s u checked now e k h = ground arith

module _ (rl : RateLimiter) (ip : Text) (u : ℕ) (m : IsMap rl)
    (banned : (slot rl ip).until ≡ some u) where
  if_moved :
      (j : Text) (s : Slot)
      → (same j ip ≡ true → s.until ≡ some u)
      → (if is_empty j then slot rl ip else if same j ip then s else slot rl ip).until ≡ some u
  if_moved j s h = elim (Bool-cases (same j ip)) [
    | inl e ↦ rw e (elim (Bool-cases (is_empty j)) [ inl x ↦ rw x banned | inr x ↦ rw x (h e) ])
    | inr e ↦ rw (e, either (is_empty j) (slot rl ip)) banned
  ]

  step_banned : (c : Call) → starts c ≤ ends c → ends c < u → (slot (step rl c) ip).until ≡ some u
  unfolding step
  step_banned (allows j checked now) k h =
      ap (λ (s : Slot). s.until) (allow-slot rl j ip checked now)
      ∙ if_moved j _
          (λ e. rw (same→eq j ip e) (slot_ban (limits rl) (slot rl ip) u checked now banned k h).0)
  step_banned (asks_blocked j now) k h =
      ap (λ (s : Slot). s.until) (is_blocked-slot rl j ip now)
      ∙ if_moved j _ (λ e.
        rw (same→eq j ip e) (slot_ban (limits rl) (slot rl ip) u now now banned (omega arith) h).1)
  step_banned (asks_cooldown j now) k h =
      ap (λ (s : Slot). s.until) (cooldown_remaining-slot rl j ip now)
      ∙ if_moved j _ (λ e.
        rw (same→eq j ip e) (slot_ban (limits rl) (slot rl ip) u now now banned (omega arith) h).2)
  step_banned (cleans now) k h =
      ap (λ (s : Slot). s.until) (cleanup-slot rl ip now m)
      ∙ (slot_ban (limits rl) (slot rl ip) u now now banned (omega arith) h).3

finish-le : (t : ℕ) (cs : List Call) → InOrder t cs → t ≤ finish t cs
finish-le t [] o = omega arith
finish-le t (c ∷ cs) (h, k, o) = omega (arith, finish-le (ends c) cs o)

run_banned :
    (rl : RateLimiter) (ip : Text) (u t : ℕ) (cs : List Call)
    → IsMap rl
    → (slot rl ip).until ≡ some u
    → InOrder t cs
    → finish t cs < u
    → (slot (run rl cs) ip).until ≡ some u
unfolding run
run_banned rl ip u t [] m b o h = b
run_banned rl ip u t (c ∷ cs) m b (i, k, o) h =
    run_banned (step rl c) ip u (ends c) cs (step-IsMap rl c m)
      (step_banned rl ip u m b c k (omega (arith, finish-le (ends c) cs o))) o h

slot_refuses :
    (l : Limits) (s : Slot) (u checked now : ℕ)
    → s.until ≡ some u
    → checked < u
    → (slot_allow l s checked now).1 ≡ false
unfolding slot_allow
slot_refuses l s u checked now e h = ground arith

refused_ban :
    (rl : RateLimiter) (ip : Text) (checked now : ℕ)
    → is_empty ip ≡ false
    → lookup ip rl.banned ≡ none
    → (allow rl ip checked now).1 ≡ false
    → (slot (allow rl ip checked now).0 ip).until ≡ some (now + rl.ban_dur)
unfolding allow admit
refused_ban rl (c ∷ cs) checked now named free refused =
    ground (arith, lookup-insert (c ∷ cs) (c ∷ cs) (now + rl.ban_dur) rl.banned, same_refl (c ∷ cs))
refused_ban rl [] checked now named free refused = cc

-- A named address whose request is refused while it has no ban on record is refused at every
-- request that follows before its ban has lasted `ban_dur`, whatever calls come in between in the
-- order of the clock.
pub refused_for_ban_dur :
    (rl : RateLimiter) (ip : Text) (cs : List Call) (checked now checked' now' : ℕ)
    → IsMap rl
    → is_empty ip ≡ false
    → lookup ip rl.banned ≡ none
    → (allow rl ip checked now).1 ≡ false
    → InOrder now cs
    → finish now cs ≤ checked'
    → checked' < now + rl.ban_dur
    → (allow (run (allow rl ip checked now).0 cs) ip checked' now').1 ≡ false
refused_for_ban_dur rl ip cs checked now checked' now' m named free refused o k h =
    rw (allow-answer (run (allow rl ip checked now).0 cs) ip checked' now', named)
      (slot_refuses _ (slot (run (allow rl ip checked now).0 cs) ip) (now + rl.ban_dur) checked'
        now'
        (run_banned (allow rl ip checked now).0 ip (now + rl.ban_dur) now cs
          (unfold step in step-IsMap rl (allows ip checked now) m)
          (refused_ban rl ip checked now named free refused) o (omega arith))
        h)

-- The queries agree: an address is blocked exactly while a cooldown remains, it is not blocked once
-- that has been waited for, and while it is blocked `Allow` refuses it and changes nothing.
pub is_blocked-cooldown :
    (rl : RateLimiter) (ip : Text) (now : ℕ)
    → let wait = (cooldown_remaining rl ip now).1 in
      ((is_blocked rl ip now).1 ≡ ltb 0 wait)
      × ((is_blocked rl ip (now + wait)).1 ≡ false)
      × ((is_blocked rl ip now).1 ≡ true → (allow rl ip now now) ≡ (rl, false))
unfolding is_blocked cooldown_remaining allow
is_blocked-cooldown rl [] now = ground arith
is_blocked-cooldown rl (c ∷ cs) now = ground arith
