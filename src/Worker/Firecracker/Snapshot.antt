-- ===== src/Worker/Firecracker/Snapshot.antt =====
-- createSnapshot of worker/firecracker/firecracker.go: the boot of a VM and its snapshot. The host is
-- a parameter: whether firecracker starts, when its socket is there, what the API answers, and the
-- connections to the guest. What the code does is recorded as effects; its sleeps are left out.
pub mod Plan
mod Tests
use code_execution_engine.Common.{
  ℕ, zero, suc, Bool, true, false, List, [], ◌∷◌, ◌++◌, Option, none, some, Text, codes,
  if◌then◌else◌,
}
use code_execution_engine.Worker.Firecracker.Api.{
  Json, number, text, flag, object, Members, end, member, Request, put, patch, Http, do_req,
}
use code_execution_engine.Worker.Firecracker.Vsock.{Conn, VsockClient, ping, default_vsock_port}

pub data Effect : Type 0 where
  removes : Text → Effect
  spawns : Text → Text → Effect
  looks_for : Text → Effect
  requests : Request → Effect
  pings : Effect
  kills : Effect

pub record Host : Type 0 where
  pub spawn_failure : Option Text
  pub is_there : ℕ → Bool
  pub http : Http
  pub guest : ℕ → Conn

abbrev pub init_sock : Text
init_sock = codes "/tmp/fc-init.sock"

abbrev pub init_vsock : Text
init_vsock = codes "/tmp/fc-init.vsock"

-- A loop of at most `n` tries that stops at the first try that succeeds: one effect for each try.
unfoldable pub poll : ℕ → (ℕ → Bool) → Effect → List Effect
poll zero succeeds effect = []
poll (suc n) succeeds effect =
    let more = effect ∷ poll n (λ i. succeeds (suc i)) effect in
    if succeeds 0 then effect ∷ [] else more

-- Effects with an error at their end, or none.
abbrev pub Trace : Type 0
Trace = List Effect × Option Text

infixr 5 ◌then_go◌
abbrev pub ◌then_go◌ : Trace → Trace → Trace
(t, none) then_go k = (t ++ k.0, k.1)
(t, some e) then_go k = (t, some e)

module _ (host : Host) where
  -- `if err := client.put(…); err != nil { return fmt.Errorf("…: %w", err) }`.
  unfoldable pub call : Text → Request → Trace
  call context r = (
    requests r ∷ [],
    elim (do_req host.http r) [ none ↦ none | some e ↦ some (context ++ (codes ": " ++ e)) ],
  )

abbrev pub machine_config : Request
machine_config = put (codes "/machine-config") (
    object (
      member (codes "vcpu_count") (number 1)
        (member (codes "mem_size_mib") (number 256) (member (codes "smt") (flag false) end))))

abbrev pub boot_source : Text → Request
boot_source kernel_path = put (codes "/boot-source") (
    object (
      member (codes "kernel_image_path") (text kernel_path) (
        member (codes "boot_args")
          (text (codes "console=ttyS0 reboot=k panic=1 pci=off init=/init root=/dev/vda rw")) end)))

abbrev pub root_drive : Text → Request
root_drive rootfs_path = put (codes "/drives/rootfs") (
    object (
      member (codes "drive_id") (text (codes "rootfs")) (
        member (codes "path_on_host") (text rootfs_path) (
          member (codes "is_root_device") (flag true)
            (member (codes "is_read_only") (flag false) end)))))

abbrev pub vsock_device : Request
vsock_device = put (codes "/vsock") (
    object
      (member (codes "guest_cid") (number 3) (member (codes "uds_path") (text init_vsock) end)))

abbrev pub instance_start : Request
instance_start =
    put (codes "/actions")
      (object (member (codes "action_type") (text (codes "InstanceStart")) end))

abbrev pub pause : Request
pause = patch (codes "/vm") (object (member (codes "state") (text (codes "Paused")) end))

abbrev pub snapshot_create : Text → Text → Request
snapshot_create mem_path vmstate_path = put (codes "/snapshot/create") (
    object (
      member (codes "snapshot_type") (text (codes "Full")) (
        member (codes "snapshot_path") (text vmstate_path)
          (member (codes "mem_file_path") (text mem_path) end))))

abbrev pub is_none {ℓ} : {A : Type ℓ} → Option A → Bool
is_none none = true
is_none (some _) = false

module _ (quote : Text → Text) (kernel_path rootfs_path : Text) (host : Host) where
  -- Whether `vc.Ping()` gets through at a try.
  unfoldable pub is_ready : ℕ → Bool
  is_ready i =
      is_none
        (ping quote (record { uds_path = init_vsock; port = default_vsock_port }) (host.guest i))

  -- From the configuration to the snapshot.
  unfoldable pub boot : Text → Text → Trace
  boot mem_path vmstate_path =
      call host (codes "machine config") machine_config
      then_go call host (codes "boot source") (boot_source kernel_path)
      then_go call host (codes "drive") (root_drive rootfs_path)
      then_go call host (codes "vsock") vsock_device
      then_go call host (codes "start") instance_start
      then_go (poll 30 is_ready pings, none)
      then_go call host (codes "pause") pause
      then_go call host (codes "snapshot create") (snapshot_create mem_path vmstate_path)

  -- `createSnapshot`, with what its deferred function does at the end.
  unfoldable pub create_snapshot : Text → Text → Trace
  create_snapshot mem_path vmstate_path =
      let start = removes init_sock ∷ removes init_vsock ∷ spawns init_sock (codes "init") ∷ [] in
      elim host.spawn_failure [
        | some e ↦ (start, some (codes "start firecracker: " ++ e))
        | none ↦
            let (done, result) = boot mem_path vmstate_path in
            (
              start
                  ++ (poll 50 host.is_there (looks_for init_sock)
                      ++ (done ++ kills ∷ removes init_sock ∷ [])),
              result,
            )
      ]
