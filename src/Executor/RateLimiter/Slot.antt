-- ===== src/Executor/RateLimiter/Slot.antt =====
-- What the limiter promises one address: its slot, the ban and the request times kept for it, and
-- the calls as they change the slot. No map and no other address is in sight.
use code_execution_engine.Common.{
  ℕ, ◌+◌, ◌-◌, Bool, true, false, List, [], ◌∷◌, ◌++◌, Option, none, some, ltb, leb, if◌then◌else◌,
  length, or_default, lookup, Text, bind,
}
use code_execution_engine.Executor.RateLimiter.{RateLimiter, in_window, live_ban}

pub record Slot : Type 0 where
  pub until : Option ℕ
  pub times : List ℕ

pub record Limits : Type 0 where
  pub most : ℕ
  pub window : ℕ
  pub ban : ℕ

abbrev pub limits : RateLimiter → Limits
limits rl = record { most = rl.max_requests; window = rl.window_dur; ban = rl.ban_dur }

abbrev pub slot : RateLimiter → Text → Slot
slot rl ip = record { until = lookup ip rl.banned; times = or_default [] (lookup ip rl.requests) }

unfoldable pub slot_admit : Limits → Slot → ℕ → Slot × Bool
slot_admit l s now =
    let valid = in_window l.window now s.times in
    if leb l.most (length valid)
    then (record { until = some (now + l.ban); times = [] }, false)
    else (record s { times = valid ++ now ∷ [] }, true)

unfoldable pub slot_allow : Limits → Slot → ℕ → ℕ → Slot × Bool
unfolding slot_admit
slot_allow l s checked now = elim s.until [
  | none ↦ slot_admit l s now
  | some u ↦ if ltb checked u then (s, false) else slot_admit l (record s { until = none }) now
]

-- A ban that has ended is dropped when it is looked at.
unfoldable pub slot_blocked : Slot → ℕ → Slot × Bool
slot_blocked s now = elim s.until [
  | none ↦ (s, false)
  | some u ↦ if ltb now u then (s, true) else (record s { until = none }, false)
]

unfoldable pub slot_cooldown : Slot → ℕ → Slot × ℕ
slot_cooldown s now = elim s.until [
  | none ↦ (s, 0)
  | some u ↦ if ltb u now then (record s { until = none }, 0) else (s, u - now)
]

unfoldable pub slot_cleanup : Limits → Slot → ℕ → Slot
slot_cleanup l s now = record {
  until = bind s.until (live_ban now);
  times = in_window l.window now s.times;
}
