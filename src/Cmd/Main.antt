-- ===== src/Cmd/Main.antt =====
-- The rest of `main` of cmd/main.go: what it does with the pool, in order. `has_file` and `host` are
-- what Initialize of a Firecracker pool meets, and `nats_connect` is Connect of nats.go.
use code_execution_engine.Common.{
  ℤ, Bool, List, [], ◌∷◌, ◌++◌, map, Option, none, some, Text, Fallible, ok, err, codes,
}
use code_execution_engine.Config as Env
use code_execution_engine.Config.{load_config}
use code_execution_engine.Natsclient.{connect}
use code_execution_engine.Worker.Docker
use code_execution_engine.Worker.Firecracker.Pool
use code_execution_engine.Worker.Firecracker.Snapshot.{Host}
use code_execution_engine.Cmd.{Backend, docker, firecracker, choose_pool}

-- What `main` does that others see.
pub data Effect : Type 0 where
  exits : Text → Effect
  connects subscribes : Text → Effect
  waits_for_signal : Effect
  shuts_down : Backend → Effect
  closes_connection : Effect

module _ {Conn : Type 0} (join : Text → Text → Text) (quote : Text → Text) (has_file : Text → Bool)
    (host : Host) (nats_connect : Text → Fallible Conn) where
  -- `pool.Initialize()`: a Docker pool has no error.
  unfoldable pub initialize : Backend → Backend × Option Text
  initialize (docker p) = (docker (Docker.initialize p), none)
  initialize (firecracker p) =
      let (_, (q, e)) = Pool.initialize join quote has_file host p in (firecracker q, e)

  -- From the connection on, for the subjects that StartHandlers subscribes to.
  unfoldable pub serve : List Text → Backend → Text → List Effect
  serve subjects pool url = elim (connect nats_connect url) [
    | err e ↦ exits (codes "Failed to connect to NATS: " ++ e) ∷ []
    | ok nc ↦
        connects url
        ∷ (map subscribes subjects ++ waits_for_signal ∷ shuts_down pool ∷ closes_connection ∷ [])
  ]

  abbrev pub serve_or_exit : List Text → Text → Backend × Option Text → List Effect
  serve_or_exit subjects url (pool, some e) = exits (codes "Failed to initialize: " ++ e) ∷ []
  serve_or_exit subjects url (pool, none) = serve subjects pool url

  unfoldable pub main : (ℤ → ℤ → ℤ) → List Text → Env.Config → List Effect
  main scaled subjects cfg =
      serve_or_exit subjects cfg.nats_url (initialize (choose_pool join scaled cfg))
