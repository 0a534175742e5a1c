-- ===== src/Executor/RateLimiter.antt =====
-- executor/ratelimiter.go. A time.Time is a number of nanoseconds, and each time.Now() that a
-- method reads is an argument. `t.After(now.Add(-w))` is written `now < t + w`: no subtraction.
-- The limits are taken as non-negative. A method runs whole,
-- under `mu`, so a history of the limiter is a sequence of calls.
pub mod Slot
pub mod Slots
pub mod Window
pub mod History
pub mod Bounds
pub mod Bans
pub mod Cleanup
mod Tests
use code_execution_engine.Common.{
  second, ℕ, ◌+◌, ◌-◌, ◌*◌, Bool, true, false, List, [], ◌∷◌, ◌++◌, Option, none, some, ltb, leb,
  if◌then◌else◌, Text, is_empty, keep, length, lookup, insert, delete, sweep, or_default,
}

pub record RateLimiter : Type 0 where
  pub requests : List (Text × List ℕ)
  pub banned : List (Text × ℕ)
  pub max_requests : ℕ
  pub window_dur : ℕ
  pub ban_dur : ℕ
  pub stopped : Bool

unfoldable pub new_rate_limiter : ℕ → ℕ → ℕ → RateLimiter
new_rate_limiter max_requests window_sec ban_sec = record {
  requests = [];
  banned = [];
  max_requests = max_requests;
  window_dur = window_sec * second;
  ban_dur = ban_sec * second;
  stopped = false;
}

-- `none` is the panic of closing `stopCh` twice.
unfoldable pub stop : RateLimiter → Option RateLimiter
stop rl = if rl.stopped then none else some (record rl { stopped = true })

-- The loop over the entries: those after the start of the window.
abbrev pub in_window : ℕ → ℕ → List ℕ → List ℕ
in_window window now = keep (λ t. ltb now (t + window))

-- `Allow`, from the reading of `now` on.
unfoldable pub admit : RateLimiter → Text → ℕ → RateLimiter × Bool
admit rl ip now =
    let valid = in_window rl.window_dur now (or_default [] (lookup ip rl.requests)) in
    if leb rl.max_requests (length valid)
    then (
      record rl {
        requests = delete ip rl.requests;
        banned = insert ip (now + rl.ban_dur) rl.banned;
      },
      false,
    )
    else (record rl { requests = insert ip (valid ++ now ∷ []) rl.requests }, true)

-- `Allow`; `checked` is the clock as it is read for the ban, `now` as it is read after it.
unfoldable pub allow : RateLimiter → Text → ℕ → ℕ → RateLimiter × Bool
unfolding admit
allow rl ip checked now = if is_empty ip then (rl, true) else elim (lookup ip rl.banned) [
  | none ↦ admit rl ip now
  | some until ↦
      if ltb checked until
      then (rl, false)
      else admit (record rl { banned = delete ip rl.banned }) ip now
]

unfoldable pub is_blocked : RateLimiter → Text → ℕ → RateLimiter × Bool
is_blocked rl ip now = if is_empty ip then (rl, false) else elim (lookup ip rl.banned) [
  | none ↦ (rl, false)
  | some until ↦
      if ltb now until then (rl, true) else (record rl { banned = delete ip rl.banned }, false)
]

unfoldable pub cooldown_remaining : RateLimiter → Text → ℕ → RateLimiter × ℕ
cooldown_remaining rl ip now = if is_empty ip then (rl, 0) else elim (lookup ip rl.banned) [
  | none ↦ (rl, 0)
  | some until ↦
      if ltb until now then (record rl { banned = delete ip rl.banned }, 0) else (rl, until - now)
]

-- The two loops of `cleanupLoop`, as one tick runs them.
abbrev pub live_ban : ℕ → ℕ → Option ℕ
live_ban now until = if ltb until now then none else some until

abbrev pub live_entries : ℕ → ℕ → List ℕ → Option (List ℕ)
live_entries window now entries = elim (in_window window now entries) [
  | [] ↦ none
  | t ∷ ts ↦ some (t ∷ ts)
]

unfoldable pub cleanup : RateLimiter → ℕ → RateLimiter
cleanup rl now = record rl {
  requests = sweep (live_entries rl.window_dur now) rl.requests;
  banned = sweep (live_ban now) rl.banned;
}

-- A call on the limiter, with the times that it reads.
pub data Call : Type 0 where
  allows : Text → ℕ → ℕ → Call
  asks_blocked : Text → ℕ → Call
  asks_cooldown : Text → ℕ → Call
  cleans : ℕ → Call

unfoldable pub step : RateLimiter → Call → RateLimiter
step rl (allows ip checked now) = (allow rl ip checked now).0
step rl (asks_blocked ip now) = (is_blocked rl ip now).0
step rl (asks_cooldown ip now) = (cooldown_remaining rl ip now).0
step rl (cleans now) = cleanup rl now

unfoldable pub run : RateLimiter → List Call → RateLimiter
run rl [] = rl
run rl (c ∷ cs) = run (step rl c) cs
