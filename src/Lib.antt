-- ===== src/Lib.antt =====
-- CodeExecutionEngine: requests to run a program arrive over NATS, are checked, and are run by a pool
-- of workers in Docker containers or Firecracker microVMs. This library models the Go code of the
-- engine and proves what its parts promise.
--
-- The parts, and the files that model them:
--   Service (service/service.go): `normalize_language` and `execute` are normalizeLanguage and
--     CompilerService.Execute. It calls the sanitizer, and the worker pool through its interface.
--     Service/Language: the language names. Service/Requests: what becomes of a request.
--     Service/DockerBackend and FirecrackerBackend: the service over each pool.
--   Internal.Sanitize (internal/sanitize.go): `sanitize_code` is SanitizeCode, and Patterns holds
--     the table DangerousPatterns. Acceptance: what is accepted. Order: which error is returned.
--   Worker (worker/worker.go): the types that the backends share. Worker.Backend is an abstract pool,
--     what a caller of the interface WorkerPool relies on: a relation of steps on what is queued,
--     running and answered. Fifo: what holds of all its runs. Crew and Pending: pools whose workers
--     have a job or none. Interface: the calls of the interface and what a client relies on, which
--     the module Interface of each backend gives. Lively and Progress: what a client relies on for
--     its answers to come, which the module Lively of each backend gives.
--   Engine (the parts above at work, as cmd/main.go composes them): the two subscriptions and a pool
--     behind Worker.Backend.Interface, with one `step` for each message, each move of the pool and
--     each result that is read. Load: how many calls are at the pool. Fits, Answers, Serving: which
--     call gets which answer. Delivered, Kept, Settles: that the calls come to their end. Whole: the
--     engine over each backend.
--   Worker.Docker (worker/docker/config.go, worker/docker/docker.go): `execute_code` runs one job;
--     `DockerPool` is the pool, with `new_pool`, `initialize`, `submit` (ExecuteJob up to its
--     wait), `reply` (its end), `shutdown`, `pool_stats`, and one `step` for each thing that a
--     goroutine may do next. Moves: the ways a step may go. Jobs, Bounds, Results, Shutdown: what
--     holds of its runs. Refinement: its runs as runs of the abstract pool.
--   Worker.Firecracker.Vsock (worker/firecracker/vsock/vsock.go): `connect`, `ping` and `execute`.
--     Frames: the framing. Exchange: whole exchanges.
--   Worker.Firecracker (worker/firecracker/firecracker.go): Api is fcClient, Snapshot is
--     `create_snapshot` (Plan: its requests), Instance is `execute_code` and `find_vsock_uds`
--     (Search, Outcome), and Pool is FirecrackerPool, its goroutines as for Docker, with the
--     semaphore `warmSem` (Moves: the ways a step may go; Warm: the slots of the semaphore;
--     Refinement: its runs as runs of the abstract pool).
--     Sample is a host for the runs on concrete inputs.
--   Natshandler (natshandler/handler.go): `handle` and `start_handlers`, over the service.
--   Config (config/config.go) and Cmd (cmd/main.go): `load_config`, `choose_pool`, the pool that main
--     builds from it, and in Cmd/Main the rest of main. Natsclient (natsclient/natsclient.go).
--   Dockerkill (dockerkill.go): which command a command line runs.
--   Logger (logger/zap_betterstack.go) and Logutil (logutil/logutil.go): `log` in each, with what it
--     writes, sends or prints. Crashes: when it does not come to its end. Base: the name of the caller's file.
--   Executor.RateLimiter (executor/ratelimiter.go): `allow`, `is_blocked`, `cooldown_remaining`,
--     `cleanup` (one tick of cleanupLoop) and `stop`. Slot and Slots: the limiter as one address
--     sees it. Window, History, Bounds: the sliding window. Bans, Cleanup: bans and the cleanup.
--   Executor.ContainerManager (executor/container_manager.go): `initialize_pool`, `start_container`,
--     `remove_container`, `check_health`, `get_available_container`, `set_container_state`,
--     `container_count` and `shutdown` over the map of containers. Removal, Count, Health: the
--     number of containers. Assignment, Retry: who gets which container. Image: the pull of the
--     image. Usage: CheckResourceOutsurge.
--   Executor.WorkerPool (executor/config.go, executor/worker_pool.go): `execute_job` is executeJob,
--     over the container manager, and `execute_code` is executeCode. Outcome: what a result says,
--     and what becomes of the container. Pool: NewWorkerPool, ExecuteJob, the workers and Shutdown
--     as a state machine with one `step` for each thing that a goroutine may do next; Moves: the ways
--     a step may go. Holders, Quiet, Exclusive: who holds which container. Waits: the wait group.
--     Weight and Progress: how the jobs come to their end.
--     Refinement: the runs as runs of the abstract pool of Worker.Backend.
--   Common: strings as lists of bytes, Go maps with string keys as association lists, slices,
--     durations in nanoseconds. A module Tests runs the code on concrete inputs.
--
-- Conventions. A Go `error` is its text, nil is `none`. State is passed explicitly; code under a
-- mutex is one step, and goroutines interleave as sequences of steps. A send on the queue of the
-- Docker pool and the count that follows are one step. A method of the container manager is one
-- step, but for GetAvailableContainer, between whose rounds others may do anything; its ten rounds
-- are the fuel of `retry`, and in a run of the worker pool each is a step of its own. The five
-- attempts of the pull are the fuel of `pull_image`, as in the code. Numbers are not bounded by 64
-- bits. What the environment gives and what the guest answers are signed integers (Common/Int); the
-- limits, sizes and times of package executor are taken as not negative. Every loop recurs on its
-- list; only `decimal` (the verb %d) takes fuel, one more than the number, and a step of it divides
-- by ten.
--
-- The waits of the Firecracker backend make at most 50 or 30 tries, the fuel of `poll`, as in the
-- code.
--
-- Parameters, of which nothing is assumed but what a theorem states: regexp.MatchString (`none` for
-- a pattern that does not compile), base64 decoding, the lowering of texts that are not ASCII, JSON,
-- the verb %q, the clock, filepath.Join, strconv.Atoi, arithmetic on floats, the environment, the
-- docker command, the answers of the Docker client and of the Firecracker API, the file system, the
-- order of a range over a map, nats.go, at which levels zap's Log does not return, and the
-- connection to the guest. The docker command is one function: in a run it does the same for the
-- same arguments, input and limit. Of nats.go it is taken that it calls the handler of a subscription
-- for one message after the other. Where Go reads the clock twice the model takes two times.
--
-- Not modelled: of package executor the log hook; the JSON structs of package model but
-- CompilerRequest and what is read of ContainerStats. Log output is left out but for the two packages of logs, and
-- sleeps are left out everywhere.
pub mod Common
pub mod Executor
pub mod Internal
pub mod Worker
pub mod Service
pub mod Config
pub mod Cmd
pub mod Natsclient
pub mod Natshandler
pub mod Dockerkill
pub mod Engine
pub mod Logger
pub mod Logutil
