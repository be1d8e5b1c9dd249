-- ===== src/Worker/Config.antt =====
-- worker/src/config.ts.
pub mod Loading
use nexus_queue.Prelude.{ℕ, Bool, true, false, not, Option, none, some, [], ◌++◌}
use nexus_queue.Prelude.Tests.{or_else}
use nexus_queue.Prelude.Texts.{Text, text, same}
use nexus_queue.Prelude.Decimal.{to_string}
use nexus_queue.Prelude.Numeric.{Numeric, read_number}
use nexus_queue.Shared.Env.{Env, require}
use nexus_queue.Program.World.{Result, ok}

pub record WorkerConfig : Type 0 where
  pub redis_url : Text
  pub database_url : Text
  pub queue : Text
  pub concurrency : Numeric
  pub worker_id : Text
  pub janitor_enabled : Bool
  pub janitor_interval_ms : Numeric

-- `pid` is the id of the process.
unfoldable pub load_worker_config : ℕ → Env → Result WorkerConfig
load_worker_config pid env =
    require (env (text "REDIS_URL")) (text "REDIS_URL is required") λ redis_url.
      require (env (text "DATABASE_URL")) (text "DATABASE_URL is required") λ database_url.
        ok (record {
          redis_url = redis_url;
          database_url = database_url;
          queue = or_else (env (text "WORKER_QUEUE")) (text "default");
          concurrency = read_number (or_else (env (text "WORKER_CONCURRENCY")) (text "5"));
          worker_id = or_else (env (text "WORKER_ID")) (text "worker-" ++ to_string pid);
          janitor_enabled = not (same (or_else (env (text "JANITOR_ENABLED")) []) (text "false"));
          janitor_interval_ms =
              read_number (or_else (env (text "JANITOR_INTERVAL_MS")) (text "30000"));
        })
