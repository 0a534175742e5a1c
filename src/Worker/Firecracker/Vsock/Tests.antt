-- ===== src/Worker/Firecracker/Vsock/Tests.antt =====
-- Exchanges over a concrete connection, and each theorem at one.
use code_execution_engine.Common.{
  pos, second, ◌*◌, ◌≤◌, ◌≡◌, refl, ◌↔◌, false, [], ◌∷◌, ◌++◌, none, Text, Fallible, ok, codes,
  decimal, arith, length, same,
}
use code_execution_engine.Worker.Firecracker.Vsock.{
  VsockClient, Conn, handshake, is_refused, check_response, connect, uint32, read_full, read_body,
  read_response, max_response, ExecuteReq, ExecuteResp, ahead, until, Clock, receive, send, execute,
  default_vsock_port,
}
use code_execution_engine.Worker.Firecracker.Vsock.Frames.{frame, read_response_iff}
use code_execution_engine.Worker.Firecracker.Vsock.Exchange.{IsExchange, execute_iff}

abbrev quote : Text → Text
quote s = s

abbrev client : VsockClient
client = record { uds_path = codes "/tmp/fc.vsock"; port = default_vsock_port }

abbrev conn : Conn
conn = record {
  dialled = none;
  first_read = ok (codes "OK 1073741824\n");
  stream = 0 ∷ 0 ∷ 0 ∷ 2 ∷ codes "{}";
  write_failure = λ n. none;
}

abbrev marshal : ExecuteReq → Fallible Text
marshal r = ok r.code

abbrev reply : ExecuteResp
reply = record {
  stdout = codes "1";
  stderr = [];
  exit_code = pos 0;
  execution_time = pos 3;
  error = [];
  timed_out = false;
}

abbrev unmarshal : Text → Fallible ExecuteResp
unmarshal s = ok reply

abbrev clock : Clock
clock = record { traced = 1; started = 10 * second; ended = 12 * second }

handshake_text : handshake client ≡ codes "CONNECT 5000\n"
unfolding handshake decimal
handshake_text = refl

exchange_runs :
    (execute quote marshal unmarshal client conn clock (codes "python") (codes "1") 10).1
    ≡ ok (reply, ahead (28 * second))
unfolding execute connect check_response is_refused same send receive read_response read_body
    read_full uint32 until
exchange_runs = refl

read_response_iff_example : (read_response conn.stream ≡ ok (codes "{}")) ↔ (
    (rest : Text) × (conn.stream ≡ frame (codes "{}") ++ rest)
    × (length (codes "{}") ≤ max_response))
read_response_iff_example = read_response_iff conn.stream (codes "{}") (omega arith)

execute_iff_example :
    IsExchange quote marshal unmarshal client conn clock
      (codes "python")
      (codes "1")
      10
      reply
      (ahead (28 * second))
execute_iff_example =
    (execute_iff quote marshal unmarshal client conn clock (codes "python") (codes "1") 10 reply
        (ahead (28 * second))).0.0
      exchange_runs
