-- ===== src/Executor/RateLimiter/Slots.antt =====
-- Each method of the limiter, seen at the slots of the addresses.
use code_execution_engine.Common.{
  ℕ, ◌≡◌, refl, true, List, [], ◌∷◌, Option, none, some, if◌then◌else◌, Text, is_empty, same,
  same_iff, lookup, lookup-insert, lookup-delete, lookup-sweep, Distinct, insert-Distinct,
  delete-Distinct, sweep-Distinct, arith, or_default, bind,
}
use code_execution_engine.Executor.RateLimiter.{
  RateLimiter, admit, allow, is_blocked, cooldown_remaining, cleanup, Call, allows, asks_blocked,
  asks_cooldown, cleans, step, in_window, live_entries, live_ban,
}
use code_execution_engine.Executor.RateLimiter.Slot.{
  limits, slot, slot_admit, slot_allow, slot_blocked, slot_cooldown, slot_cleanup,
}

admit-slot :
    (rl : RateLimiter) (ip j : Text) (now : ℕ)
    → slot (admit rl ip now).0 j
      ≡ (if same ip j then (slot_admit (limits rl) (slot rl ip) now).0 else slot rl j)
unfolding admit slot_admit
admit-slot rl ip j now = grind (arith, lookup-insert, lookup-delete, same_iff)

admit-answer :
    (rl : RateLimiter) (ip : Text) (now : ℕ)
    → (admit rl ip now).1 ≡ (slot_admit (limits rl) (slot rl ip) now).1
unfolding admit slot_admit
admit-answer rl ip now = ground arith

-- `Allow` changes the caller's slot as `slot_allow` says and no other; an empty address is let
-- through with no change.
pub allow-slot :
    (rl : RateLimiter) (ip j : Text) (checked now : ℕ)
    → slot (allow rl ip checked now).0 j ≡ (
        if is_empty ip
        then slot rl j
        else if same ip j
        then (slot_allow (limits rl) (slot rl ip) checked now).0
        else slot rl j)
unfolding allow slot_allow admit slot_admit
allow-slot rl [] j checked now = refl
allow-slot rl (c ∷ cs) j checked now = grind (arith, lookup-insert, lookup-delete, same_iff)

pub allow-answer :
    (rl : RateLimiter) (ip : Text) (checked now : ℕ)
    → (allow rl ip checked now).1
      ≡ (if is_empty ip then true else (slot_allow (limits rl) (slot rl ip) checked now).1)
unfolding allow slot_allow admit slot_admit
allow-answer rl [] checked now = refl
allow-answer rl (c ∷ cs) checked now = ground arith

pub is_blocked-slot :
    (rl : RateLimiter) (ip j : Text) (now : ℕ)
    → slot (is_blocked rl ip now).0 j ≡ (
        if is_empty ip
        then slot rl j
        else if same ip j
        then (slot_blocked (slot rl ip) now).0
        else slot rl j)
unfolding is_blocked slot_blocked
is_blocked-slot rl [] j now = refl
is_blocked-slot rl (c ∷ cs) j now = grind (arith, lookup-insert, lookup-delete, same_iff)

pub cooldown_remaining-slot :
    (rl : RateLimiter) (ip j : Text) (now : ℕ)
    → slot (cooldown_remaining rl ip now).0 j ≡ (
        if is_empty ip
        then slot rl j
        else if same ip j
        then (slot_cooldown (slot rl ip) now).0
        else slot rl j)
unfolding cooldown_remaining slot_cooldown
cooldown_remaining-slot rl [] j now = refl
cooldown_remaining-slot rl (c ∷ cs) j now = grind (arith, lookup-insert, lookup-delete, same_iff)

live_entries-default :
    (w now : ℕ) (o : Option (List ℕ))
    → or_default [] (bind o (live_entries w now)) ≡ in_window w now (or_default [] o)
live_entries-default w now none = refl
live_entries-default w now (some ts) = ground arith

-- A map whose addresses are distinct, as Go's maps keep them.
abbrev pub IsMap : RateLimiter → Type 0
IsMap rl = Distinct rl.requests × Distinct rl.banned

pub cleanup-slot :
    (rl : RateLimiter) (j : Text) (now : ℕ)
    → IsMap rl
    → slot (cleanup rl now) j ≡ slot_cleanup (limits rl) (slot rl j) now
unfolding cleanup slot_cleanup
cleanup-slot rl j now (r, b) = cc (
  lookup-sweep (live_entries rl.window_dur now) j rl.requests r,
  lookup-sweep (live_ban now) j rl.banned b,
  live_entries-default rl.window_dur now (lookup j rl.requests),
)

pub step-limits : (rl : RateLimiter) (c : Call) → limits (step rl c) ≡ limits rl
unfolding step allow admit is_blocked cooldown_remaining cleanup
step-limits rl (allows ip checked now) = ground arith
step-limits rl (asks_blocked ip now) = ground arith
step-limits rl (asks_cooldown ip now) = ground arith
step-limits rl (cleans now) = refl

pub step-IsMap : (rl : RateLimiter) (c : Call) → IsMap rl → IsMap (step rl c)
unfolding step allow admit is_blocked cooldown_remaining cleanup
step-IsMap rl (allows ip checked now) h = grind (arith, insert-Distinct, delete-Distinct)
step-IsMap rl (asks_blocked ip now) h = grind (arith, delete-Distinct)
step-IsMap rl (asks_cooldown ip now) h = grind (arith, delete-Distinct)
step-IsMap rl (cleans now) h = (sweep-Distinct _ rl.requests h.0, sweep-Distinct _ rl.banned h.1)
