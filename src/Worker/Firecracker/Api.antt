-- ===== src/Worker/Firecracker/Api.antt =====
-- The fcClient of worker/firecracker/firecracker.go: calls of the Firecracker API. What an HTTP
-- request comes to is a parameter.
use code_execution_engine.Common.{
  ℕ, Bool, ◌++◌, Option, none, some, Text, codes, decimal, leb, if◌then◌else◌,
}

-- The values that the pool sends: maps with string keys, in the order in which they are written.
mutual
  pub data Json : Type 0 where
    number : ℕ → Json
    text : Text → Json
    flag : Bool → Json
    object : Members → Json

  pub data Members : Type 0 where
    end : Members
    member : Text → Json → Members → Members

pub record Request : Type 0 where
  pub method : Text
  pub path : Text
  pub body : Json

-- How `c.Do` ends: with an error, or with a status and a body.
pub data HttpOutcome : Type 0 where
  failed : Text → HttpOutcome
  answered : ℕ → Text → HttpOutcome

-- What `doReq` returns for an outcome.
unfoldable pub check_status : HttpOutcome → Option Text
check_status (failed e) = some e
check_status (answered status body) =
    if leb 400 status then some (decimal status ++ (codes ": " ++ body)) else none

-- What a method, a URL and a body, whose JSON is sent, come to.
abbrev pub Http : Type 0
Http = Text → Text → Json → HttpOutcome

unfoldable pub do_req : Http → Request → Option Text
do_req http r = check_status (http r.method (codes "http://localhost" ++ r.path) r.body)

abbrev pub put : Text → Json → Request
put path body = record { method = codes "PUT"; path = path; body = body }

abbrev pub patch : Text → Json → Request
patch path body = record { method = codes "PATCH"; path = path; body = body }
