-- ===== src/Executor/RateLimiter/Tests.antt =====
-- Runs of the limiter on concrete calls, and each theorem at such a run.
use code_execution_engine.Common.{
  second, ◌≤◌, ◌≡◌, refl, true, false, List, [], ◌∷◌, arith, Text, codes, length, same, lookup,
  insert, sweep, Distinct, ◌*◌,
}
use code_execution_engine.Executor.RateLimiter.{
  RateLimiter, in_window, allow, is_blocked, cooldown_remaining, cleanup, Call, allows,
  asks_blocked, asks_cooldown, cleans, step, run, new_rate_limiter,
}
use code_execution_engine.Executor.RateLimiter.History.{history, grants}
use code_execution_engine.Executor.RateLimiter.Bounds.{window_bound}
use code_execution_engine.Executor.RateLimiter.Bans.{refused_for_ban_dur}
use code_execution_engine.Executor.RateLimiter.Cleanup.{answers, cleanup_unseen}

abbrev alice : Text
alice = codes "10.0.0.1"

abbrev bob : Text
bob = codes "10.0.0.2"

-- Two requests in 60 seconds, then a ban of 60 seconds.
abbrev limiter : RateLimiter
limiter = new_rate_limiter 2 60 60

abbrev calls : List Call
calls =
    allows alice 10 10
    ∷ allows bob 20 20
    ∷ allows alice 30 31
    ∷ allows alice 40 40
    ∷ asks_cooldown alice 45
    ∷ cleans 50
    ∷ []

history-calls : history limiter alice calls ≡ 10 ∷ 31 ∷ []
unfolding history grants new_rate_limiter allow step is_blocked cooldown_remaining cleanup same
    lookup insert
history-calls = refl

calls_banned : (is_blocked (run limiter calls) alice 60).1 ≡ true
unfolding run new_rate_limiter allow step is_blocked cooldown_remaining cleanup lookup sweep insert
    same
calls_banned = refl

window_bound_example : length (in_window (60 * second) 50 (history limiter alice calls)) ≤ 2
window_bound_example =
    window_bound 2 60 60 alice calls 50 refl (omega arith) (omega arith) (omega arith)

-- Alice has made her two requests, and has no ban yet.
abbrev full : RateLimiter
full = record limiter { requests = (alice, 10 ∷ 31 ∷ []) ∷ [] }

refused_for_ban_dur_example :
    (allow (run (allow full alice 40 40).0 (cleans 50 ∷ [])) alice 60 61).1 ≡ false
unfolding new_rate_limiter allow lookup Distinct same
refused_for_ban_dur_example =
    refused_for_ban_dur full alice (cleans 50 ∷ []) 40 40 60 61 ((refl, tt), tt) refl refl refl
      (omega arith) (omega arith) (omega arith)

-- The address asks on and is banned, another one asks, and a further cleanup runs.
abbrev afterwards : List Call
afterwards =
    allows alice 50 51
    ∷ allows alice 52 52
    ∷ allows bob 53 53
    ∷ asks_cooldown alice 60
    ∷ cleans 61
    ∷ asks_blocked alice 70
    ∷ []

cleanup_unseen_example : answers (cleanup full 40) afterwards ≡ answers full afterwards
unfolding new_rate_limiter lookup Distinct
cleanup_unseen_example =
    cleanup_unseen full 40 afterwards ((refl, tt), tt)
      (
        omega arith,
        omega arith,
        (
          omega arith,
          omega arith,
          (
            omega arith,
            omega arith,
            (omega arith, omega arith, (omega arith, omega arith, (omega arith, omega arith, tt))),
          ),
        ),
      )
