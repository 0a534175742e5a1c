-- ===== src/Worker/Firecracker.antt =====
-- worker/firecracker: the pool of microVMs and its parts.
pub mod Vsock
pub mod Api
pub mod Snapshot
pub mod Instance
pub mod Pool
pub mod Sample
