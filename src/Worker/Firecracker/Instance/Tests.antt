-- ===== src/Worker/Firecracker/Instance/Tests.antt =====
-- A job on a concrete machine, and each theorem at it.
use code_execution_engine.Common.{
  ◌≡◌, ◌⊎◌, refl, true, false, List, [], ◌∷◌, Text, ok, err, All, codes, same,
}
use code_execution_engine.Worker.Firecracker.Api.{do_req, check_status}
use code_execution_engine.Worker.Firecracker.Vsock.{
  execute, connect, check_response, is_refused, send, receive, read_response, read_body, read_full,
  uint32, until,
}
use code_execution_engine.Worker.Firecracker.Snapshot.{init_vsock}
use code_execution_engine.Worker.Firecracker.Instance.{
  Machine, candidates, scan, is_vsock, first_file, find_vsock_uds, execute_code, restore, run_at,
  ask_guest, of_response,
}
use code_execution_engine.Worker.Firecracker.Instance.Search.{
  own_socket, IsFirstSocket, IsNoSocket, find_vsock_uds-cases,
}
use code_execution_engine.Worker.Firecracker.Instance.Outcome.{
  Succeeds, IsServed, execute_code-IsServed_iff,
}
use code_execution_engine.Worker.Firecracker.Sample.{slash, as_it_is, to_json, of_json, machine}

-- The job prints what the guest answers.
job_runs :
    (execute_code slash as_it_is to_json of_json
      (codes "/snap")
      machine
      (codes "python")
      (codes "print(1)")).1.output
    ≡ codes "1"
unfolding execute_code restore run_at ask_guest of_response find_vsock_uds first_file candidates
    scan is_vsock do_req check_status execute connect check_response is_refused send receive
    read_response read_body read_full uint32 until same
job_runs = refl

-- A host where only a socket of another instance is there.
abbrev crowded : Machine
crowded = record machine {
  has_file = λ p. same p (codes "/tmp/fc-exec-8.vsock");
  entries = ok (codes "x.log" ∷ codes "gone.vsock" ∷ codes "fc-exec-8.vsock" ∷ []);
}

finds_another : find_vsock_uds slash crowded (codes "exec-7") ≡ codes "/tmp/fc-exec-8.vsock"
unfolding find_vsock_uds first_file candidates scan is_vsock same
finds_another = refl

find_vsock_uds-cases_example :
    ((crowded.has_file (own_socket (codes "exec-7")) ≡ true)
      × (find_vsock_uds slash crowded (codes "exec-7") ≡ own_socket (codes "exec-7")))
    ⊎ (((crowded.has_file (own_socket (codes "exec-7")) ≡ false)
          × (crowded.has_file init_vsock ≡ true)
          × (find_vsock_uds slash crowded (codes "exec-7") ≡ init_vsock))
        ⊎ ((crowded.has_file (own_socket (codes "exec-7")) ≡ false)
            × (crowded.has_file init_vsock ≡ false)
            × (((names : List Text) × (crowded.entries ≡ ok names)
                  × (IsFirstSocket slash crowded.has_file names
                        (find_vsock_uds slash crowded (codes "exec-7"))
                      ⊎ ((find_vsock_uds slash crowded (codes "exec-7") ≡ [])
                          × All (IsNoSocket slash crowded.has_file) names)))
                ⊎ ((e : Text) × (crowded.entries ≡ err e)
                    × (find_vsock_uds slash crowded (codes "exec-7") ≡ [])))))
find_vsock_uds-cases_example = find_vsock_uds-cases slash crowded (codes "exec-7")

execute_code-IsServed_iff_example :
    Succeeds
      (execute_code slash as_it_is to_json of_json
        (codes "/snap")
        machine
        (codes "python")
        (codes "print(1)")).1
      (IsServed slash as_it_is to_json of_json
        (codes "/snap")
        machine
        (codes "python")
        (codes "print(1)"))
execute_code-IsServed_iff_example =
    execute_code-IsServed_iff slash as_it_is to_json of_json (codes "/snap") machine
      (codes "python") (codes "print(1)")
