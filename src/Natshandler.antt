-- ===== src/Natshandler.antt =====
-- natshandler/handler.go: from a NATS message to its reply. JSON is a parameter, in both directions,
-- as is what a subscription's handler is called with.
pub mod Replies
mod Tests
use code_execution_engine.Common.{
  List, [], ◌∷◌, Option, Bool, String, Text, Fallible, ok, err, codes,
}
use code_execution_engine.Worker.{Result}
use code_execution_engine.Service.{CompilerResponse, execute}

-- `CompilerRequest` of model/model.go.
pub record CompilerRequest : Type 0 where
  pub code : Text
  pub language : Text

-- What a message brings about: the replies to it, and the jobs handed to the pool.
abbrev pub Handled : Type 0
Handled = List Text × List (Text × Text)

module _ (unmarshal : Text → Fallible CompilerRequest) (marshal : CompilerResponse → Text)
    (svc : Text → Text → CompilerResponse × List (Text × Text)) where
  -- The function that both subscriptions are given.
  unfoldable pub handle : Text → Handled
  handle message = elim (unmarshal message) [
    | err e ↦ ([], [])
    | ok req ↦ let (res, jobs) = svc req.code req.language in (marshal res ∷ [], jobs)
  ]

  -- The subscriptions that `StartHandlers` makes, in their order.
  unfoldable pub start_handlers : List (Text × (Text → Handled))
  start_handlers =
      (codes "compiler.execute.request", handle) ∷ (codes "problems.execute.request", handle) ∷ []
