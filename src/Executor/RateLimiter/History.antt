-- ===== src/Executor/RateLimiter/History.antt =====
-- Histories of the limiter: sequences of calls whose clock never runs backwards, the grants that
-- they made to an address, and the bound on those within any window.
use mathlib.Core.Path.{subst}
use mathlib.Core.List.{append-nil, append_assoc}
use code_execution_engine.Common.{
  ℕ, ◌≤◌, ◌≡◌, refl, sym, ◌∙◌, inl, inr, Bool, true, false, List, [], ◌∷◌, ◌++◌, arith, Bool-cases,
  if◌then◌else◌, Text, is_empty, same, same→eq, same_refl,
}
use code_execution_engine.Executor.RateLimiter.{
  RateLimiter, allow, is_blocked, cooldown_remaining, Call, allows, asks_blocked, asks_cooldown,
  cleans, step, run,
}
use code_execution_engine.Executor.RateLimiter.Slot.{Slot, Limits, limits, slot}
use code_execution_engine.Executor.RateLimiter.Slots.{
  allow-slot, allow-answer, is_blocked-slot, cooldown_remaining-slot, cleanup-slot, step-limits,
  step-IsMap, IsMap,
}
use code_execution_engine.Executor.RateLimiter.Window.{
  Tracks, Tracks-later, logged, allow-Tracks, blocked-Tracks, cooldown-Tracks, cleanup-Tracks,
}

-- The time at which a call lets the address through.
unfoldable pub grants : RateLimiter → Text → Call → List ℕ
grants rl ip (allows j checked now) =
    if same j ip then if (allow rl j checked now).1 then now ∷ [] else [] else []
grants rl ip (asks_blocked _ _) = []
grants rl ip (asks_cooldown _ _) = []
grants rl ip (cleans _) = []

unfoldable pub history : RateLimiter → Text → List Call → List ℕ
history rl ip [] = []
history rl ip (c ∷ cs) = grants rl ip c ++ history (step rl c) ip cs

-- When a call reads the clock first and last.
abbrev pub starts : Call → ℕ
starts (allows _ checked _) = checked
starts (asks_blocked _ now) = now
starts (asks_cooldown _ now) = now
starts (cleans now) = now

abbrev pub ends : Call → ℕ
ends (allows _ _ now) = now
ends (asks_blocked _ now) = now
ends (asks_cooldown _ now) = now
ends (cleans now) = now

abbrev pub InOrder : ℕ → List Call → Type 0
InOrder t [] = Unit
InOrder t (c ∷ cs) = (t ≤ starts c) × (starts c ≤ ends c) × InOrder (ends c) cs

abbrev pub finish : ℕ → List Call → ℕ
finish t [] = t
finish t (c ∷ cs) = finish (ends c) cs

pub either {ℓ} : {A : Type ℓ} (b : Bool) (x : A) → (if b then x else x) ≡ x
either true x = refl
either false x = refl

module _ (rl : RateLimiter) (ip : Text) (named : is_empty ip ≡ false) where
  abbrev Moves : Slot → List ℕ → ℕ → Type 0
  Moves s log t = Tracks (limits rl) s log t

  module _ (log : List ℕ) (now : ℕ) where
    allow_self :
        (checked : ℕ)
        → checked ≤ now
        → rl.window_dur ≤ rl.ban_dur
        → Moves (slot rl ip) log now
        → Moves
            (slot (allow rl ip checked now).0 ip)
            (logged (allow rl ip checked now).1 now log)
            now
    allow_self checked h longer v =
        rw (allow-slot rl ip ip checked now, allow-answer rl ip checked now, named, same_refl ip)
          (allow-Tracks (limits rl) (slot rl ip) log checked now h longer v)

    blocked_self : Moves (slot rl ip) log now → Moves (slot (is_blocked rl ip now).0 ip) log now
    blocked_self v =
        rw (is_blocked-slot rl ip ip now, named, same_refl ip)
          (blocked-Tracks (limits rl) (slot rl ip) log now v)

    cooldown_self :
        Moves (slot rl ip) log now → Moves (slot (cooldown_remaining rl ip now).0 ip) log now
    cooldown_self v =
        rw (cooldown_remaining-slot rl ip ip now, named, same_refl ip)
          (cooldown-Tracks (limits rl) (slot rl ip) log now v)

    allow-log :
        (j : Text) (checked : ℕ)
        → checked ≤ now
        → rl.window_dur ≤ rl.ban_dur
        → Moves (slot rl ip) log now
        → Moves
            (slot (allow rl j checked now).0 ip)
            (log ++ grants rl ip (allows j checked now))
            now
    unfolding grants
    allow-log j checked h longer v = elim (Bool-cases (same j ip)) [
      | inl e ↦ rw (same→eq j ip e, same_refl ip) (regroup (allow_self checked h longer v))
      | inr e ↦
          rw (e, append-nil log, allow-slot rl j ip checked now)
            (rw e (rw (either (is_empty j) (slot rl ip)) v))
    ]
      where
        regroup :
            Moves
              (slot (allow rl ip checked now).0 ip)
              (logged (allow rl ip checked now).1 now log)
              now
            → Moves
                (slot (allow rl ip checked now).0 ip)
                (log ++ (if (allow rl ip checked now).1 then now ∷ [] else []))
                now
        regroup w = elim (Bool-cases (allow rl ip checked now).1) [
          | inl y ↦ rw y (rw y at w)
          | inr n ↦ rw (n, append-nil log) (rw n at w)
        ]

    blocked_log :
        (j : Text) → Moves (slot rl ip) log now → Moves (slot (is_blocked rl j now).0 ip) log now
    blocked_log j v = elim (Bool-cases (same j ip)) [
      | inl e ↦ rw (same→eq j ip e) (blocked_self v)
      | inr e ↦ rw (is_blocked-slot rl j ip now) (rw e (rw (either (is_empty j) (slot rl ip)) v))
    ]

    cooldown_log :
        (j : Text)
        → Moves (slot rl ip) log now
        → Moves (slot (cooldown_remaining rl j now).0 ip) log now
    cooldown_log j v = elim (Bool-cases (same j ip)) [
      | inl e ↦ rw (same→eq j ip e) (cooldown_self v)
      | inr e ↦
          rw (cooldown_remaining-slot rl j ip now) (rw e (rw (either (is_empty j) (slot rl ip)) v))
    ]

  step-Tracks :
      (c : Call) (log : List ℕ) (t : ℕ)
      → IsMap rl
      → rl.window_dur ≤ rl.ban_dur
      → t ≤ starts c
      → starts c ≤ ends c
      → Moves (slot rl ip) log t
      → Moves (slot (step rl c) ip) (log ++ grants rl ip c) (ends c)
  unfolding step grants
  step-Tracks c log t m longer h k v =
      go c (Tracks-later (limits rl) (slot rl ip) log t (ends c) (omega arith) v) k
    where
      go :
          (c : Call)
          → Moves (slot rl ip) log (ends c)
          → starts c ≤ ends c
          → Moves (slot (step rl c) ip) (log ++ grants rl ip c) (ends c)
      go (allows j checked now) w k = allow-log log now j checked k longer w
      go (asks_blocked j now) w k = rw (append-nil log) (blocked_log log now j w)
      go (asks_cooldown j now) w k = rw (append-nil log) (cooldown_log log now j w)
      go (cleans now) w k =
          rw (append-nil log, cleanup-slot rl ip now m)
            (cleanup-Tracks (limits rl) (slot rl ip) log now w)

-- What a history leaves: the limits as they were, maps, and slots that track the log.
pub record Follows (l : Limits) (rl : RateLimiter) (ip : Text) (log : List ℕ) (t : ℕ) : Type 0 where
  pub kept : limits rl ≡ l
  pub maps : IsMap rl
  pub tracks : Tracks l (slot rl ip) log t

pub run-Follows :
    (l : Limits) (rl : RateLimiter) (ip : Text) (cs : List Call) (log : List ℕ) (t : ℕ)
    → is_empty ip ≡ false
    → l.window ≤ l.ban
    → InOrder t cs
    → Follows l rl ip log t
    → Follows l (run rl cs) ip (log ++ history rl ip cs) (finish t cs)
unfolding run history
run-Follows l rl ip [] log t named longer o f = rw (append-nil log) f
run-Follows l rl ip (c ∷ cs) log t named longer (h, k, o) f =
    rw (← append_assoc log (grants rl ip c) (history (step rl c) ip cs)) (
      run-Follows l (step rl c) ip cs (log ++ grants rl ip c) (ends c) named longer o (record {
        kept = step-limits rl c ∙ f.kept;
        maps = step-IsMap rl c f.maps;
        tracks =
            subst (λ m. Tracks m (slot (step rl c) ip) (log ++ grants rl ip c) (ends c)) f.kept
              (step-Tracks rl ip named c log t f.maps
                (subst (λ (m : Limits). m.window ≤ m.ban) (sym f.kept) longer) h k
                (subst (λ m. Tracks m (slot rl ip) log t) (sym f.kept) f.tracks));
      }))
