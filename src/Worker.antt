-- ===== src/Worker.antt =====
-- worker/src: the worker process.
pub mod Handlers
pub mod RateLimiter
pub mod Pulling
pub mod Process
pub mod Safety
pub mod Failing
pub mod Outcomes
pub mod Attempts
pub mod Completing
pub mod Completion
pub mod Backoff
pub mod Pull
pub mod Limits
pub mod Promotion
pub mod Rounds
pub mod Recovery
pub mod Scheduler
pub mod Lifecycle
pub mod Loop
pub mod Config
pub mod Janitor
pub mod Timers
pub mod Entry
pub mod Cron
