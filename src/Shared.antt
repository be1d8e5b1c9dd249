-- ===== src/Shared.antt =====
-- shared/src: the types, the Redis keys and the job table's access functions.
pub mod Types
pub mod Keys
pub mod Db
pub mod Env
