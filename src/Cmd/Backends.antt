-- ===== src/Cmd/Backends.antt =====
-- The pool that cmd/main.go builds from the environment.
use code_execution_engine.Common.{
  ℤ, pos, pos_part, leb_ℤ, ap, eq_of_some-eq, ℕ, ◌*◌, ◌≡◌, ◌≤◌, ◌↔◌, Bool, true, false, Option,
  none, some, Text, codes, same, same_iff, inl, inr, if◌then◌else◌, Bool-cases, or_default, arith,
}
use code_execution_engine.Config as Env
use code_execution_engine.Config.{
  at_least_one, load_config, get_env, get_env_int, get_env_bool, calc_auto_max_workers,
}
use code_execution_engine.Worker.Docker
use code_execution_engine.Worker.Firecracker.Pool
use code_execution_engine.Cmd.{Backend, docker, firecracker, worker_config, choose_pool}

abbrev pub workers_of : Backend → ℕ
workers_of (docker p) = pos_part p.cfg.max_workers
workers_of (firecracker p) = pos_part p.cfg.max_workers

abbrev pub capacity_of : Backend → ℕ
capacity_of (docker p) = p.capacity
capacity_of (firecracker p) = p.capacity

abbrev pub is_firecracker : Backend → Bool
is_firecracker (docker p) = false
is_firecracker (firecracker p) = true

worker_type_iff :
    (o : Option Text)
    → (same (or_default (codes "docker") o) (codes "firecracker") ≡ true)
      ↔ (o ≡ some (codes "firecracker"))
unfolding same
worker_type_iff none = ground arith
worker_type_iff (some t) = (
  λ h. ap some ((same_iff t (codes "firecracker")).0 h),
  λ h. (same_iff t (codes "firecracker")).1 (eq_of_some-eq h),
)

is_firecracker-choose_pool :
    (join : Text → Text → Text) (scaled : ℤ → ℤ → ℤ) (cfg : Env.Config)
    → is_firecracker (choose_pool join scaled cfg) ≡ same cfg.worker_type (codes "firecracker")
unfolding choose_pool
is_firecracker-choose_pool join scaled cfg =
    elim (Bool-cases (same cfg.worker_type (codes "firecracker"))) [
      | inl e ↦ ground arith
      | inr e ↦ ground arith
    ]

workers_of-choose_pool :
    (join : Text → Text → Text) (scaled : ℤ → ℤ → ℤ) (cfg : Env.Config)
    → workers_of (choose_pool join scaled cfg) ≡ (
        if leb_ℤ (worker_config scaled cfg).max_workers (pos 0)
        then 3
        else pos_part (worker_config scaled cfg).max_workers)
unfolding choose_pool Docker.new_pool Pool.new_pool
workers_of-choose_pool join scaled cfg = ground arith

module _ (lookup_env : Text → Option Text) (atoi : Text → Option ℤ) (join : Text → Text → Text)
    (scaled : ℤ → ℤ → ℤ) where
  abbrev pool : Backend
  pool = choose_pool join scaled (load_config lookup_env atoi)

  choose_pool_bounds :
      (1 ≤ workers_of pool)
      × (capacity_of pool ≡ workers_of pool * (if is_firecracker pool then 10 else 4))
  unfolding choose_pool Docker.new_pool Pool.new_pool
  choose_pool_bounds = ground arith

  choose_pool_firecracker_iff :
      (is_firecracker pool ≡ true) ↔ (lookup_env (codes "WORKER_TYPE") ≡ some (codes "firecracker"))
  unfolding load_config get_env
  choose_pool_firecracker_iff =
      rw (is_firecracker-choose_pool join scaled (load_config lookup_env atoi))
        (worker_type_iff (lookup_env (codes "WORKER_TYPE")))

  -- Whatever the environment, the pool that the engine builds has at least one worker, and room in
  -- its queue for four jobs for each worker, or for ten with Firecracker; and it is the Firecracker
  -- pool exactly where WORKER_TYPE is "firecracker".
  pub choose_pool_backend :
      (1 ≤ workers_of pool)
      × (capacity_of pool ≡ workers_of pool * (if is_firecracker pool then 10 else 4))
      × ((is_firecracker pool ≡ true)
          ↔ (lookup_env (codes "WORKER_TYPE") ≡ some (codes "firecracker")))
  choose_pool_backend = (choose_pool_bounds.0, choose_pool_bounds.1, choose_pool_firecracker_iff)

  -- Where AUTO_SPAWN is not set the pool has as many workers as MAX_WORKERS says, and three where
  -- that is not positive or not set.
  pub choose_pool_workers :
      lookup_env (codes "AUTO_SPAWN") ≡ none
      → ((value : Text) (n : ℤ)
          → lookup_env (codes "MAX_WORKERS") ≡ some value
          → atoi value ≡ some n
          → workers_of pool ≡ (if leb_ℤ n (pos 0) then 3 else pos_part n))
        × (lookup_env (codes "MAX_WORKERS") ≡ none → workers_of pool ≡ 3)
  unfolding worker_config load_config get_env_int get_env_bool
  choose_pool_workers h = (
    λ value n e a.
        ground (arith, h, e, a, workers_of-choose_pool join scaled (load_config lookup_env atoi)),
    λ e. ground (arith, h, e, workers_of-choose_pool join scaled (load_config lookup_env atoi)),
  )
