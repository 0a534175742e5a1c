-- ===== src/Natsclient.antt =====
-- natsclient/natsclient.go, over nats.go: `nats_connect` and `nc_request` are its Connect and the
-- Request of a connection, with the data of the message that answers. `Conn` are the connections.
use code_execution_engine.Common.{ℕ, Text, Fallible, ok, err}

unfoldable pub connect : {Conn : Type 0} → (Text → Fallible Conn) → Text → Fallible Conn
connect nats_connect url = nats_connect url

unfoldable pub request :
    {Conn Msg : Type 0}
    → (Conn → Text → Text → ℕ → Fallible Msg)
    → (Msg → Text)
    → Conn
    → Text
    → Text
    → ℕ
    → Fallible Text
request nc_request data_of nc subject body timeout = elim (nc_request nc subject body timeout) [
  | err e ↦ err e
  | ok msg ↦ ok (data_of msg)
]
