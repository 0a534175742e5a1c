-- ===== src/Worker/Firecracker/Sample.antt =====
-- A host on which everything goes well, for the runs on concrete inputs.
use code_execution_engine.Common.{
  pos, second, ℕ, ◌*◌, Bool, false, [], ◌∷◌, ◌++◌, none, Text, Fallible, ok, codes, same, leb,
}
use code_execution_engine.Worker.{Job, Config}
use code_execution_engine.Worker.Firecracker.Api.{Json, HttpOutcome, answered}
use code_execution_engine.Worker.Firecracker.Vsock.{Conn, ExecuteReq, ExecuteResp}
use code_execution_engine.Worker.Firecracker.Snapshot.{Host, init_vsock}
use code_execution_engine.Worker.Firecracker.Instance.{Machine}

abbrev pub slash : Text → Text → Text
slash a b = a ++ (codes "/" ++ b)

abbrev pub as_it_is : Text → Text
as_it_is s = s

abbrev pub to_json : ExecuteReq → Fallible Text
to_json r = ok r.code

abbrev pub prints_one : ExecuteResp
prints_one = record {
  stdout = codes "1";
  stderr = [];
  exit_code = pos 0;
  execution_time = pos 3;
  error = [];
  timed_out = false;
}

abbrev pub of_json : Text → Fallible ExecuteResp
of_json s = ok prints_one

abbrev pub accepts_all : Text → Text → Json → HttpOutcome
accepts_all method url body = answered 204 []

abbrev pub guest : Conn
guest = record {
  dialled = none;
  first_read = ok (codes "OK 1073741824\n");
  stream = 0 ∷ 0 ∷ 0 ∷ 2 ∷ codes "{}";
  write_failure = λ n. none;
}

-- The socket is there at the third look.
abbrev pub third_time : ℕ → Bool
third_time n = leb 2 n

abbrev pub host : Host
host = record {
  spawn_failure = none;
  is_there = third_time;
  http = accepts_all;
  guest = λ i. guest;
}

abbrev pub machine : Machine
machine = record {
  nanos = 7;
  spawn_failure = none;
  is_there = third_time;
  http = accepts_all;
  entries = ok (codes "fc-init.vsock" ∷ codes "notes" ∷ []);
  has_file = λ path. same path init_vsock;
  conn = λ vc. guest;
  clock = record { traced = 1; started = 10 * second; ended = 12 * second };
  elapsed = 5;
}

abbrev pub config : Config
config = record { image = []; max_workers = pos 1; memory_limit = pos 400; cpu_limit = pos 500 }

abbrev pub print_job : ℕ → Job
print_job n = record { language = codes "python"; code = codes "print(1)"; result = n }
