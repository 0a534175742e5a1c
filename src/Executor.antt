-- ===== src/Executor.antt =====
-- Package executor: the rate limiter, the container manager, and the pool that runs jobs in
-- containers.
pub mod RateLimiter
pub mod ContainerManager
pub mod WorkerPool
