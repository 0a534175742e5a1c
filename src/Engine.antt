-- ===== src/Engine.antt =====
-- cmd/main.go at work: the handlers of natshandler/handler.go over the service of service/service.go
-- and over a pool behind the interface WorkerPool. nats.go calls the handler of a subscription for
-- one message after the other, so that a subscription is idle or in one call. `handler` is that
-- function, for the time that a call is said to take and for the answer of ExecuteJob.
pub mod Load
pub mod Fits
pub mod Answers
pub mod Serving
pub mod Delivered
pub mod Kept
pub mod Settles
pub mod Whole
mod Tests
use code_execution_engine.Common.{
  ℕ, ◌+◌, Bool, List, [], ◌∷◌, ◌++◌, Option, none, some, Text, map, length, drop, set, get_elem?,
  ◌==◌, if◌then◌else◌,
}
use code_execution_engine.Worker.{Job, Result, zero_result}
use code_execution_engine.Worker.Backend.Interface.{Pool}

-- A subscription that waits in ExecuteJob knows its message and its job.
pub data Subscription : Type 0 where
  idle : Subscription
  awaits : Text → Job → Subscription

-- `mail` are the results on the channels that no call has read yet, `calls` numbers the channels,
-- and `published` are the messages whose calls have ended, with the replies to them.
pub record Engine (S : Type 0) : Type 0 where
  pub pool : S
  pub subscriptions : List Subscription
  pub mail : List (ℕ × Result)
  pub calls : ℕ
  pub published : List (Text × List Text)

pub data Event (E : Type 0) : Type 0 where
  delivers : ℕ → Text → Text → Event E
  reads : ℕ → Text → Event E
  acts : E → Event E

-- StartHandlers over a pool: each subscription is idle.
unfoldable pub start : {S A : Type 0} → S → List A → Engine S
start pool subscriptions = record {
  pool = pool;
  subscriptions = map (λ _. idle) subscriptions;
  mail = [];
  calls = 0;
  published = [];
}

abbrev pub Call : Type 0
Call = (Text → Text → Result × Option Text) → Text → List Text × List (Text × Text)

-- Which jobs a call hands over does not depend on what they are answered.
abbrev pub nobody : Text → Text → Result × Option Text
nobody language code = (zero_result, none)

abbrev pub with_first :
    ℕ × Result → Option (Result × List (ℕ × Result)) → Option (Result × List (ℕ × Result))
with_first m none = none
with_first m (some (r, ms)) = some (r, m ∷ ms)

-- `<-result`: the result on the channel, and the mail without it.
abbrev pub collect : ℕ → List (ℕ × Result) → Option (Result × List (ℕ × Result))
collect channel [] = none
collect channel ((c, r) ∷ ms) =
    let rest = collect channel ms in if c == channel then some (r, ms) else with_first (c, r) rest

module _ {S E C : Type 0} (p : Pool S E C) (handler : Text → Call) where
  abbrev pub publish : Engine S → Text → List Text → Engine S
  publish s message replies = record s { published = s.published ++ (message, replies) ∷ [] }

  -- The job of a call, with a new channel.
  abbrev pub job_for : Engine S → Text → Text → Job
  job_for s language code = record { language = language; code = code; result = s.calls }

  -- What ExecuteJob does up to its wait.
  unfoldable pub call_pool :
      Engine S → ℕ → Text → Text → Job → S × Option (Result × Option Text) → Engine S
  call_pool s i elapsed message job (t, some r) =
      publish (record s { pool = t; calls = s.calls + 1 }) message
        (handler elapsed (λ _ _. r) message).0
  call_pool s i elapsed message job (t, none) = record s {
    pool = t;
    calls = s.calls + 1;
    subscriptions = set s.subscriptions i (awaits message job);
  }

  -- The handler of an idle subscription, with the jobs that it hands over.
  unfoldable pub begin_call : Engine S → ℕ → Text → Text → List (Text × Text) → Engine S
  begin_call s i elapsed message [] = publish s message (handler elapsed nobody message).0
  begin_call s i elapsed message ((language, code) ∷ _) =
      call_pool s i elapsed message (job_for s language code)
        (p.submit s.pool (job_for s language code))

  unfoldable pub deliver : Engine S → ℕ → Text → Text → Option Subscription → Option (Engine S)
  deliver s i elapsed message (some idle) =
      some (begin_call s i elapsed message (handler elapsed nobody message).1)
  deliver s i elapsed message _ = none

  unfoldable pub end_call :
      Engine S → ℕ → Text → Text → Option (Result × List (ℕ × Result)) → Option (Engine S)
  end_call s i elapsed message none = none
  end_call s i elapsed message (some (r, ms)) = some (
      publish (record s { mail = ms; subscriptions = set s.subscriptions i idle }) message
        (handler elapsed (λ _ _. p.reply r) message).0)

  unfoldable pub read : Engine S → ℕ → Text → Option Subscription → Option (Engine S)
  read s i elapsed (some (awaits message job)) =
      end_call s i elapsed message (collect job.result s.mail)
  read s i elapsed _ = none

  unfoldable pub work : Engine S → Option S → Option (Engine S)
  work s none = none
  work s (some t) =
      some (record s { pool = t; mail = s.mail ++ drop (length (p.results s.pool)) (p.results t) })

  unfoldable pub step : Engine S → Event E → Option (Engine S)
  step s (delivers i elapsed message) = deliver s i elapsed message (get_elem? s.subscriptions i)
  step s (reads i elapsed) = read s i elapsed (get_elem? s.subscriptions i)
  step s (acts e) = work s (p.act s.pool e)

  unfoldable pub run : Engine S → List (Event E) → Option (Engine S)
  run s [] = some s
  run s (e ∷ es) = elim (step s e) [ none ↦ none | some t ↦ run t es ]
