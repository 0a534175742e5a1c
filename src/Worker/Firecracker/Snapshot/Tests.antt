-- ===== src/Worker/Firecracker/Snapshot/Tests.antt =====
-- A snapshot on a concrete host, and each theorem at it.
use code_execution_engine.Common.{ℕ, suc, ◌≡◌, ◌≤◌, ◌<◌, refl, true, false, codes, replicate}
use code_execution_engine.Worker.Firecracker.Snapshot.{looks_for, poll, create_snapshot, init_sock}
use code_execution_engine.Worker.Firecracker.Snapshot.Plan.{
  plan, carry_out, asked, create_snapshot-carry_out, poll_stops,
}
use code_execution_engine.Worker.Firecracker.Sample.{as_it_is, host, third_time}

three_looks : poll 50 third_time (looks_for init_sock) ≡ replicate 3 (looks_for init_sock)
unfolding poll
three_looks = refl

create_snapshot-carry_out_example :
    (
      asked (create_snapshot as_it_is (codes "k") (codes "r") host (codes "m") (codes "v")).0,
      (create_snapshot as_it_is (codes "k") (codes "r") host (codes "m") (codes "v")).1,
    )
    ≡ carry_out host.http (plan (codes "k") (codes "r") (codes "m") (codes "v"))
create_snapshot-carry_out_example =
    create_snapshot-carry_out as_it_is (codes "k") (codes "r") (codes "m") (codes "v") host

poll_stops_example :
    (k : ℕ) × (poll 50 third_time (looks_for init_sock) ≡ replicate k (looks_for init_sock))
    × (k ≤ 50)
    × ((j : ℕ) → suc j < k → third_time j ≡ false)
    × (k < 50 → (j : ℕ) × (k ≡ suc j) × (third_time j ≡ true))
poll_stops_example = poll_stops 50 third_time (looks_for init_sock)
