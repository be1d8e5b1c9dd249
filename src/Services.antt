-- ===== src/Services.antt =====
-- The services that the program talks to: Redis, Postgres, the clock and the other processes.
pub mod Redis
pub mod Postgres
pub mod Reply
