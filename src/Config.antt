-- ===== src/Config.antt =====
-- config/config.go. Parameters: `lookup_env`, os.LookupEnv after the .env file was read; `atoi`,
-- strconv.Atoi, `none` where it fails; `scaled`, `int(float64(a)*0.8/float64(b))`, of which nothing is
-- assumed.
use code_execution_engine.Common.{
  ℤ, pos, leb_ℤ, min_ℤ, Bool, false, ◌||◌, Option, none, some, Text, codes, same, if◌then◌else◌,
  or_default,
}

pub record Config : Type 0 where
  pub worker_type : Text
  pub max_workers : ℤ
  pub auto_spawn : Bool
  pub job_count : ℤ
  pub worker_image : Text
  pub nats_url : Text
  pub environment : Text
  pub worker_cpu : ℤ
  pub worker_mem : ℤ
  pub worker_mem_limit : ℤ
  pub worker_cpu_limit : ℤ
  pub port : Text
  pub show_output : Bool
  pub max_requests_per_min : ℤ
  pub ban_duration_sec : ℤ

module _ (lookup_env : Text → Option Text) (atoi : Text → Option ℤ) where
  unfoldable pub get_env : Text → Text → Text
  get_env key default_value = or_default default_value (lookup_env key)

  unfoldable pub get_env_int : Text → ℤ → ℤ
  get_env_int key default_value = elim (lookup_env key) [
    | none ↦ default_value
    | some value ↦ or_default default_value (atoi value)
  ]

  unfoldable pub get_env_bool : Text → Bool → Bool
  get_env_bool key default_val = elim (lookup_env key) [
    | none ↦ default_val
    | some v ↦ same v (codes "true") || same v (codes "1")
  ]

  unfoldable pub load_config : Config
  load_config = record {
    worker_type = get_env (codes "WORKER_TYPE") (codes "docker");
    max_workers = get_env_int (codes "MAX_WORKERS") (pos 0);
    auto_spawn = get_env_bool (codes "AUTO_SPAWN") false;
    job_count = get_env_int (codes "MAX_JOBS") (pos 3);
    worker_image =
        get_env (codes "WORKER_IMAGE") (codes "lijuthomas/zenxbattle-engine-worker:latest");
    nats_url = get_env (codes "NATSURL") (codes "nats://localhost:4222");
    environment = get_env (codes "ENVIRONMENT") (codes "production");
    worker_cpu = get_env_int (codes "WORKER_CPU") (pos 500);
    worker_mem = get_env_int (codes "WORKER_MEM") (pos 400);
    worker_mem_limit = get_env_int (codes "WORKER_MEM_LIMIT") (pos 400);
    worker_cpu_limit = get_env_int (codes "WORKER_CPU_LIMIT") (pos 500);
    port = get_env (codes "PORT") (codes "50053");
    show_output = get_env_bool (codes "SHOW_OUTPUT") false;
    max_requests_per_min = get_env_int (codes "MAX_REQUESTS_PER_MIN") (pos 10);
    ban_duration_sec = get_env_int (codes "BAN_DURATION_SEC") (pos 60);
  }

-- `if m > 0 { return m }; return 1`.
abbrev pub at_least_one : ℤ → ℤ
at_least_one m = if leb_ℤ m (pos 0) then pos 1 else m

unfoldable pub calc_auto_max_workers : (ℤ → ℤ → ℤ) → ℤ → ℤ → ℤ → ℤ → ℤ
calc_auto_max_workers scaled pod_cpu pod_mem worker_cpu worker_mem =
    at_least_one (min_ℤ (scaled pod_cpu worker_cpu) (scaled pod_mem worker_mem))
