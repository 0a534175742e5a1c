-- ===== src/Natshandler/Tests.antt =====
-- A message on each subject, and the theorem over the handlers.
use code_execution_engine.Common.{
  Bool, Option, none, some, String, Text, Fallible, ok, codes, All, contains,
}
use code_execution_engine.Worker.{Result, zero_result}
use code_execution_engine.Service.{CompilerResponse}
use code_execution_engine.Natshandler.{CompilerRequest, start_handlers}
use code_execution_engine.Natshandler.Replies.{svc, AnswersRight, start_handlers-AnswersRight}

abbrev python : Text → Fallible CompilerRequest
python message = ok (record { code = message; language = codes "py" })

abbrev status : CompilerResponse → Text
status res = res.status_message

abbrev unchanged : Text → Text
unchanged s = s

abbrev plain : Text → Fallible Text
plain s = ok s

abbrev substring : String → Text → Option Bool
substring p s = some (contains s (codes p))

abbrev returns_zero : Text → Text → Result × Option Text
returns_zero l c = (zero_result, none)

start_handlers-AnswersRight_example :
    All
      (λ s. AnswersRight python status unchanged plain substring returns_zero (codes "1ms") s.1)
      (start_handlers python status
        (svc python status unchanged plain substring returns_zero (codes "1ms")))
start_handlers-AnswersRight_example =
    start_handlers-AnswersRight python status unchanged plain substring returns_zero (codes "1ms")
