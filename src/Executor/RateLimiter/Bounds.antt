-- ===== src/Executor/RateLimiter/Bounds.antt =====
-- The rate limit: how many requests of an address pass within a window, and which.
use code_execution_engine.Common.{
  second, ℕ, ◌≤◌, ◌≡◌, refl, false, List, [], arith, length, Text, is_empty, lookup, Distinct, ◌*◌,
}
use code_execution_engine.Executor.RateLimiter.{RateLimiter, in_window, Call, run, new_rate_limiter}
use code_execution_engine.Executor.RateLimiter.Slot.{Slot, limits}
use code_execution_engine.Executor.RateLimiter.History.{
  history, InOrder, finish, Follows, run-Follows,
}

module _ (most window_sec ban_sec : ℕ) (ip : Text) where
  abbrev fresh : RateLimiter
  fresh = new_rate_limiter most window_sec ban_sec

  new-Follows : Follows (limits fresh) fresh ip [] 0
  unfolding new_rate_limiter lookup Distinct
  new-Follows = record {
    kept = refl;
    maps = (tt, tt);
    tracks = record {
      open_now = λ t e k. refl;
      cleared = λ u e. refl;
      over = λ u t e k. refl;
      bounded = λ t k. omega arith;
      past = tt;
    };
  }

  history-Follows :
      (cs : List Call)
      → is_empty ip ≡ false
      → window_sec ≤ ban_sec
      → InOrder 0 cs
      → Follows (limits fresh) (run fresh cs) ip (history fresh ip cs) (finish 0 cs)
  unfolding new_rate_limiter
  history-Follows cs named longer o =
      run-Follows (limits fresh) fresh ip cs [] 0 named (grind arith) o new-Follows

  -- Where the ban lasts no shorter than the window, no history of calls with a clock that does not
  -- run backwards lets a named address through more than `most` times within any window that ends
  -- at or after its last call.
  pub window_bound :
      (cs : List Call) (t : ℕ)
      → is_empty ip ≡ false
      → window_sec ≤ ban_sec
      → InOrder 0 cs
      → finish 0 cs ≤ t
      → length (in_window (window_sec * second) t (history fresh ip cs)) ≤ most
  unfolding new_rate_limiter
  window_bound cs t named longer o k = (history-Follows cs named longer o).tracks.bounded t k
