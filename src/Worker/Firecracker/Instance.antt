-- ===== src/Worker/Firecracker/Instance.antt =====
-- executeCode and findVsockUDS of worker/firecracker/firecracker.go: one job in a VM of its own. The
-- host is a parameter: its clock, the start of firecracker, its API, the files under /tmp, and the
-- connection that a path leads to. `join` is filepath.Join.
pub mod Search
pub mod Outcome
mod Tests
use code_execution_engine.Common.{
  pos, eqb_ℤ, decimal_ℤ, ℕ, zero, suc, ◌+◌, ◌-◌, Bool, true, false, not, ◌&&◌, List, [], ◌∷◌, ◌++◌,
  Option, none, some, Text, Fallible, ok, err, codes, decimal, same, is_empty, ltb, ◌==◌,
  if◌then◌else◌, length, drop,
}
use code_execution_engine.Worker.{Result, zero_result}
use code_execution_engine.Worker.Firecracker.Api.{
  text, flag, object, end, member, Request, put, Http, do_req,
}
use code_execution_engine.Worker.Firecracker.Vsock.{
  Conn, VsockClient, Clock, ExecuteReq, ExecuteResp, default_vsock_port, execute,
}
use code_execution_engine.Worker.Firecracker.Snapshot.{
  Effect, removes, spawns, looks_for, requests, kills, poll, init_vsock,
}

-- The host during one job: `nanos` names the instance, `entries` is os.ReadDir("/tmp"), `has_file`
-- os.Stat without an error, `elapsed` the time since the start at the end.
pub record Machine : Type 0 where
  pub nanos : ℕ
  pub spawn_failure : Option Text
  pub is_there : ℕ → Bool
  pub http : Http
  pub entries : Fallible (List Text)
  pub has_file : Text → Bool
  pub conn : VsockClient → Conn
  pub clock : Clock
  pub elapsed : ℕ

abbrev pub instance_id : Machine → Text
instance_id m = codes "exec-" ++ decimal m.nanos

abbrev pub sock : Machine → Text
sock m = codes "/tmp/fc-" ++ (instance_id m ++ codes ".sock")

-- `len(n) > 6 && n[len(n)-6:] == ".vsock"`.
unfoldable pub is_vsock : Text → Bool
is_vsock n = ltb 6 (length n) && same (drop (length n - 6) n) (codes ".vsock")

-- The loop over the candidates: the first that is there, or "".
unfoldable pub first_file : (Text → Bool) → List Text → Text
first_file has_file [] = []
first_file has_file (path ∷ paths) =
    let later = first_file has_file paths in if has_file path then path else later

module _ (join : Text → Text → Text) where
  -- The loop over the entries of /tmp.
  unfoldable pub scan : List Text → List Text
  scan [] = []
  scan (n ∷ ns) = let later = scan ns in if is_vsock n then join (codes "/tmp") n ∷ later else later

  unfoldable pub candidates : Text → Fallible (List Text) → List Text
  candidates id entries =
      (codes "/tmp/fc-" ++ (id ++ codes ".vsock"))
      ∷ init_vsock
      ∷ elim entries [ err _ ↦ [] | ok names ↦ scan names ]

  unfoldable pub find_vsock_uds : Machine → Text → Text
  find_vsock_uds m id = first_file m.has_file (candidates id m.entries)

  abbrev pub snapshot_load : Text → Request
  snapshot_load snapshot_dir = put (codes "/snapshot/load") (
      object (
        member (codes "snapshot_path") (text (join snapshot_dir (codes "vmstate.snapshot"))) (
          member (codes "mem_backend")
            (object (
              member (codes "backend_type") (text (codes "File")) (
                member (codes "backend_path") (text (join snapshot_dir (codes "mem.snapshot")))
                  end)))
            (member (codes "enable_diff_snapshots") (flag false)
              (member (codes "resume_vm") (flag true) end)))))

abbrev pub failed_after : ℕ → Text → Result
failed_after elapsed e = record zero_result { error = some e; execution_time = elapsed }

-- `resp.ExitCode == 0 && resp.Error == ""`.
abbrev pub is_success : ExecuteResp → Bool
is_success resp = eqb_ℤ resp.exit_code (pos 0) && is_empty resp.error

-- The result of a response of the guest. Stderr goes behind Stdout; where it is empty this adds
-- nothing, as the test of the code says.
unfoldable pub of_response : ℕ → ExecuteResp → Result
of_response elapsed resp = record {
  output = if is_empty resp.stderr then resp.stdout else resp.stdout ++ resp.stderr;
  success = is_success resp;
  error =
      if is_success resp
      then none
      else some (codes "exit=" ++ (decimal_ℤ resp.exit_code ++ (codes ": " ++ resp.error)));
  execution_time = elapsed;
}

module _ (join : Text → Text → Text) (quote : Text → Text) (marshal : ExecuteReq → Fallible Text)
    (unmarshal : Text → Fallible ExecuteResp) where
  -- The call of the guest at a socket that was found.
  unfoldable pub ask_guest : Machine → Text → Text → Text → Result
  ask_guest m path language code =
      let vc : VsockClient = record { uds_path = path; port = default_vsock_port } in
      elim (execute quote marshal unmarshal vc (m.conn vc) m.clock language code 10).1 [
        | err e ↦ failed_after m.elapsed (codes "execute: " ++ e)
        | ok (resp, _) ↦ of_response m.elapsed resp
      ]

  -- From the search for the socket on; the socket is removed at the end.
  unfoldable pub run_at : Machine → Text → Text → Text → List Effect × Result
  run_at m path language code =
      if is_empty path
      then ([], failed_after m.elapsed (codes "vsock UDS not found"))
      else (removes path ∷ [], ask_guest m path language code)

  -- From the load of the snapshot on.
  unfoldable pub restore : Text → Machine → Text → Text → List Effect × Result
  restore snapshot_dir m language code = elim (do_req m.http (snapshot_load join snapshot_dir)) [
    | some e ↦ (
      requests (snapshot_load join snapshot_dir) ∷ [],
      failed_after m.elapsed (codes "load snapshot: " ++ e),
    )
    | none ↦
        let (done, result) = run_at m (find_vsock_uds join m (instance_id m)) language code in
        (requests (snapshot_load join snapshot_dir) ∷ done, result)
  ]

  -- `executeCode`, with what its deferred function does at the end.
  unfoldable pub execute_code : Text → Machine → Text → Text → List Effect × Result
  execute_code snapshot_dir m language code = elim m.spawn_failure [
    | some e ↦ (
      removes (sock m) ∷ spawns (sock m) (instance_id m) ∷ [],
      failed_after m.elapsed (codes "start fc: " ++ e),
    )
    | none ↦
        let (done, result) = restore snapshot_dir m language code in
        (
          removes (sock m)
              ∷ spawns (sock m) (instance_id m)
              ∷ (poll 50 m.is_there (looks_for (sock m))
                  ++ (done ++ kills ∷ removes (sock m) ∷ [])),
          result,
        )
  ]
